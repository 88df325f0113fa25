-- ===== src/Search/Degrades.antt =====
-- What a search comes to, and what it asks of the server.
use go_commerce.Base.{
  ℕ, ◌+◌, ◌≤◌, ◌≡◌, refl, sym, ap, ◌∙◌, ◌⊎◌, inl, inr, true, false, List, [], ◌∷◌, ◌++◌, append-nil,
  append_assoc, length, length-append, arith, Bool-cases,
}
use go_commerce.Base.Int.{ℤ, pos, negsuc}
use go_commerce.Base.Text.{Text, is_empty, trim_space}
use go_commerce.Domain.Errors.{Result, ok, err, unavailable}
use go_commerce.Search.{
  ProductDocument, Request, create_collection, upsert, delete, find, retrieve, list_collections,
  Answer, through, open_state, too_many_requests, Remote, Outcome, done, failed, execute,
  ensure_products_collection, is_collection_missing, search_limit, search_once, settled,
  search_again, search_settled, search_client, search_products,
}

-- A search for `query` with a page of 1 to 100 documents, or the creation of the collection.
abbrev pub IsSearch : Text → Request → Type 0
IsSearch query (find q n) = (q ≡ query) × (1 ≤ n) × (n ≤ 100)
IsSearch query create_collection = Unit
IsSearch query (upsert d) = ⊥
IsSearch query (delete t) = ⊥
IsSearch query retrieve = ⊥
IsSearch query list_collections = ⊥

abbrev pub AllSearch : Text → List Request → Type 0
AllSearch query [] = Unit
AllSearch query (r ∷ rs) = IsSearch query r × AllSearch query rs

-- From one state to the next at most `n` requests are sent.
pub record Sent (query : Text) (n : ℕ) (before after : Remote) : Type 0 where
  pub sent : List Request
  pub appended : after.requests ≡ before.requests ++ sent
  pub few : length sent ≤ n
  pub sound : AllSearch query sent

AllSearch-append :
    (query : Text) (rs qs : List Request)
    → AllSearch query rs
    → AllSearch query qs
    → AllSearch query (rs ++ qs)
AllSearch-append query [] qs h k = k
AllSearch-append query (r ∷ rs) qs h k = (h.0, AllSearch-append query rs qs h.1 k)

module _ (query : Text) where
  Sent-none : (w v : Remote) → v.requests ≡ w.requests → Sent query 0 w v
  Sent-none w v e = record {
    sent = [];
    appended = e ∙ sym (append-nil w.requests);
    few = omega arith;
    sound = tt;
  }

  Sent-more : {m n : ℕ} {w v : Remote} → m ≤ n → Sent query m w v → Sent query n w v
  Sent-more h s = record {
    sent = s.sent;
    appended = s.appended;
    few = omega (arith, s.few);
    sound = s.sound;
  }

  Sent-then :
      {m n : ℕ} {w v u : Remote} → Sent query m w v → Sent query n v u → Sent query (m + n) w u
  Sent-then {w} s t = record {
    sent = s.sent ++ t.sent;
    appended =
        t.appended ∙ ap (λ l. l ++ t.sent) (s.appended) ∙ append_assoc w.requests s.sent t.sent;
    few = omega (arith, s.few, t.few, length-append {0} s.sent t.sent);
    sound = AllSearch-append query s.sent t.sent s.sound t.sound;
  }

  execute-Sent : (r : Request) (w : Remote) → IsSearch query r → Sent query 1 w (execute r w).1
  unfolding execute
  execute-Sent r w h = by_answer w.answers refl
    where
      by_answer :
          (l : List Answer)
          → w.answers ≡ l
          → Sent query 1 w (execute r (record w { answers = l })).1
      by_answer [] e = Sent-more (omega arith) (Sent-none w _ refl)
      by_answer (through a ∷ rest) e = record {
        sent = r ∷ [];
        appended = refl;
        few = omega arith;
        sound = (h, tt);
      }
      by_answer (open_state ∷ rest) e = Sent-more (omega arith) (Sent-none w _ refl)
      by_answer (too_many_requests ∷ rest) e = Sent-more (omega arith) (Sent-none w _ refl)

search_limit-bounds : (l : ℤ) → (1 ≤ search_limit l) × (search_limit l ≤ 100)
search_limit-bounds (pos n) = (ground arith, ground arith)
search_limit-bounds (negsuc n) = omega arith

-- The answer is documents, or the service is unavailable.
abbrev pub Degraded : Result (List ProductDocument) → Type 0
Degraded r = ((docs : List ProductDocument) × (r ≡ ok docs)) ⊎ (r ≡ err unavailable)

module _ (parse_float : Text → ℕ) (query : Text) where
  search_once-Sent :
      (l : ℤ) (w : Remote) → Sent query 1 w (search_once parse_float query (search_limit l) w).1
  unfolding search_once
  search_once-Sent l w =
      let b = search_limit-bounds l in
      execute-Sent query (find query (search_limit l)) w (refl, b.0, b.1)

  ensure-Sent : (w : Remote) → Sent query 1 w (ensure_products_collection w).1
  unfolding ensure_products_collection
  ensure-Sent w = execute-Sent query create_collection w tt

  settled-Degraded : (o : Outcome (List ProductDocument)) → Degraded (settled parse_float o)
  unfolding settled
  settled-Degraded (done docs) = inl (docs, refl)
  settled-Degraded (failed f) = elim (Bool-cases (is_collection_missing f)) [
    | inl e ↦ rw e (inl ([], refl))
    | inr e ↦ rw e (inr refl)
  ]

  abbrev Bounded : ℕ → Remote → Result (List ProductDocument) × Remote → Type 0
  Bounded n w r = Degraded r.0 × Sent query n w r.1

  search_again-Bounded :
      (l : ℤ) (w : Remote) (r : Outcome (Unit {0}) × Remote)
      → Sent query 2 w r.1
      → Bounded 3 w (search_again parse_float query (search_limit l) r)
  unfolding search_again
  search_again-Bounded l w (done u, v) h = (
    settled-Degraded (search_once parse_float query (search_limit l) v).0,
    Sent-then query h (search_once-Sent l v),
  )
  search_again-Bounded l w (failed f, v) h = (inr refl, Sent-more query (omega arith) h)

  search_settled-Bounded :
      (l : ℤ) (w : Remote) (r : Outcome (List ProductDocument) × Remote)
      → Sent query 1 w r.1
      → Bounded 3 w (search_settled parse_float query (search_limit l) r)
  unfolding search_settled
  search_settled-Bounded l w (done docs, v) h = (inl (docs, refl), Sent-more query (omega arith) h)
  search_settled-Bounded l w (failed f, v) h = elim (Bool-cases (is_collection_missing f)) [
    | inl e ↦ rw e (
        search_again-Bounded l w (ensure_products_collection v) (Sent-then query h (ensure-Sent v)))
    | inr e ↦ rw e (inr refl, Sent-more query (omega arith) h)
  ]

-- However the breaker and the server answer, a search for a query that is not blank, with any
-- limit, comes to documents or to the error that the service is unavailable, and sends at most three
-- requests: searches for the trimmed query with pages of 1 to 100, and creations of the collection.
pub search_degrades :
    (parse_float : Text → ℕ) (query : Text) (limit : ℤ) (w : Remote)
    → is_empty (trim_space query) ≡ false
    → Degraded (search_products parse_float true query limit w).0
      × Sent (trim_space query) 3 w (search_products parse_float true query limit w).1
unfolding search_products search_client
search_degrades parse_float query limit w h = rw h (
    search_settled-Bounded parse_float (trim_space query) limit w
      (search_once parse_float (trim_space query) (search_limit limit) w)
      (search_once-Sent parse_float (trim_space query) limit w))
