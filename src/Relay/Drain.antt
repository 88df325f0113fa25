-- ===== src/Relay/Drain.antt =====
-- A cycle of the relay in which nothing fails.
use go_commerce.Base.{
  where-same, ℕ, zero, suc, ◌≤◌, ◌≡◌, refl, sym, ap, ◌∙◌, some, Bool, true, false, not, ◌&&◌, ◌||◌,
  List, [], ◌∷◌, ◌++◌, append-nil, append_assoc, map, arith, ◌==◌, ltb, where_rows, is_some, length,
  take, Bool-cases, inl, inr, if◌then◌else◌, ==_refl,
}
use go_commerce.Store.Models.{EventRow}
use go_commerce.Relay.{
  Outbox, is_pending, is_unpublished, insert_by_time, by_time, batch_size, pending_rows,
  pending_count, event_of, publish, mark_rows, mark_published, relay_rows, relay_once,
}

-- The marks of the rows read, one after the other.
abbrev mark_all : ℕ → List EventRow → List EventRow → List EventRow
unfolding mark_rows
mark_all now [] rows = rows
mark_all now (r ∷ rs) rows = mark_all now rs (mark_rows now r.id rows)

-- The answer and what is left of an outbox in which nothing is to fail.
abbrev quiet : Outbox → Outbox
quiet o = record o { replies = [] }

relay_rows-quiet :
    (rs : List EventRow) (n : ℕ) (o : Outbox)
    → ((relay_rows rs n (quiet o)).0 ≡ true)
      × ((relay_rows rs n (quiet o)).2.bus ≡ o.bus ++ map event_of rs)
      × ((relay_rows rs n (quiet o)).2.rows ≡ mark_all o.now rs o.rows)
unfolding relay_rows publish mark_published
relay_rows-quiet [] n o = (refl, sym (append-nil o.bus), refl)
relay_rows-quiet (r ∷ rs) n o =
    let rest =
      relay_rows-quiet rs _
        (record o { bus = o.bus ++ event_of r ∷ []; rows = mark_rows o.now r.id o.rows }) in
    (rest.0, rest.1 ∙ append_assoc o.bus (event_of r ∷ []) (map event_of rs), rest.2)

-- No row of the list has the id.
abbrev has_id : ℕ → List EventRow → Bool
has_id id [] = false
has_id id (r ∷ rs) = (id == r.id) || has_id id rs

abbrev left : List EventRow → EventRow → Bool
left rs r = is_pending r && not (has_id r.id rs)

marked : ℕ → EventRow → EventRow → EventRow
unfolding is_unpublished
marked now q r = if is_unpublished q.id r then record r { published_at = some now } else r

left-marked :
    (now : ℕ) (q : EventRow) (rs : List EventRow) (r : EventRow)
    → left rs (marked now q r) ≡ left (q ∷ rs) r
unfolding marked is_unpublished is_pending
left-marked now q rs r = elim (Bool-cases (r.id == q.id)) [
  | inl e ↦ by_mark e (is_some r.published_at) refl
  | inr e ↦ rw (e) refl
]
  where
    by_mark :
        (r.id == q.id) ≡ true
        → (b : Bool) → is_some r.published_at ≡ b
        → left rs (marked now q r) ≡ left (q ∷ rs) r
    by_mark e true p = rw (e, p, p) refl
    by_mark e false p = rw (e, p) refl

where-mark :
    (now : ℕ) (q : EventRow) (rs rows : List EventRow)
    → length (where_rows (left rs) (mark_rows now q.id rows))
      ≡ length (where_rows (left (q ∷ rs)) rows)
unfolding mark_rows marked
where-mark now q rs [] = refl
where-mark now q rs (r ∷ rows) = counted _ _ (left-marked now q rs r) _ _ (where-mark now q rs rows)
  where
    counted :
        (b c : Bool)
        → b ≡ c
        → (xs ys : List EventRow) → length xs ≡ length ys
        → length (if b then marked now q r ∷ xs else xs) ≡ length (if c then r ∷ ys else ys)
    counted true true h xs ys e = ap suc e
    counted false false h xs ys e = e
    counted true false h xs ys e = absurd (cc)
    counted false true h xs ys e = absurd (cc)

-- Rows that are pending and not in the list.
where-mark_all :
    (now : ℕ) (rs rows : List EventRow)
    → length (where_rows is_pending (mark_all now rs rows)) ≡ length (where_rows (left rs) rows)
unfolding is_pending mark_all
where-mark_all now [] rows = ap (λ l. length l) (where-same is_pending (left []) and_true rows)
  where
    and_true : (r : EventRow) → is_pending r ≡ left [] r
    and_true r = ground arith
where-mark_all now (r ∷ rs) rows =
    where-mark_all now rs (mark_rows now r.id rows) ∙ where-mark now r rs rows

or_true : (b : Bool) → (b || true) ≡ true
or_true true = refl
or_true false = refl

-- The id of each pending row is in the list.
abbrev Covered : List EventRow → List EventRow → Type 0
Covered rs [] = Unit
Covered rs (x ∷ xs) = (is_pending x ≡ true → has_id x.id rs ≡ true) × Covered rs xs

Covered-more : (r : EventRow) (rs xs : List EventRow) → Covered rs xs → Covered (r ∷ rs) xs
Covered-more r rs [] h = tt
Covered-more r rs (x ∷ xs) h =
    ((λ p. rw (h.0 p) (or_true (x.id == r.id))), Covered-more r rs xs h.1)

Covered-where : (xs : List EventRow) → Covered (where_rows is_pending xs) xs
Covered-where [] = tt
Covered-where (x ∷ xs) = with_row (is_pending x) refl (where_rows is_pending xs) (Covered-where xs)
  where
    with_row :
        (b : Bool)
        → is_pending x ≡ b
        → (ws : List EventRow) → Covered ws xs
        → Covered (if b then x ∷ ws else ws) (x ∷ xs)
    with_row true e ws h = ((λ p. rw (==_refl x.id) refl), Covered-more x ws xs h)
    with_row false e ws h = ((λ p. absurd (cc)), h)

has_id-insert :
    (id : ℕ) (r : EventRow) (qs : List EventRow)
    → has_id id (insert_by_time r qs) ≡ has_id id (r ∷ qs)
has_id-insert id r [] = refl
has_id-insert id r (q ∷ qs) = elim (Bool-cases (ltb q.created_at r.created_at)) [
  | inl e ↦ rw (e, has_id-insert id r qs) (swapped (id == q.id) (id == r.id) (has_id id qs))
  | inr e ↦ rw e refl
]
  where
    swapped : (a b c : Bool) → (a || (b || c)) ≡ (b || (a || c))
    swapped true true c = refl
    swapped true false c = refl
    swapped false b c = refl

has_id-by_time : (id : ℕ) (rs : List EventRow) → has_id id (by_time rs) ≡ has_id id rs
has_id-by_time id [] = refl
has_id-by_time id (r ∷ rs) =
    has_id-insert id r (by_time rs) ∙ ap (λ b. (id == r.id) || b) (has_id-by_time id rs)

where-left : (rs xs : List EventRow) → Covered rs xs → where_rows (left (by_time rs)) xs ≡ []
where-left rs [] h = refl
where-left rs (x ∷ xs) h = elim (Bool-cases (is_pending x)) [
  | inl e ↦
      let there : has_id x.id (by_time rs) ≡ true = has_id-by_time x.id rs ∙ h.0 e in
      rw (there, e) (where-left rs xs h.1)
  | inr e ↦ rw e (where-left rs xs h.1)
]

length-insert : (r : EventRow) (qs : List EventRow) → length (insert_by_time r qs) ≡ suc (length qs)
length-insert r [] = refl
length-insert r (q ∷ qs) = ground (arith, length-insert r qs)

length-by_time : (rs : List EventRow) → length (by_time rs) ≡ length rs
length-by_time [] = refl
length-by_time (r ∷ rs) = length-insert r (by_time rs) ∙ ap suc (length-by_time rs)

take-all : (n : ℕ) (rs : List EventRow) → length rs ≤ n → take n rs ≡ rs
take-all zero [] h = refl
take-all zero (r ∷ rs) h = absurd (omega arith)
take-all (suc n) [] h = refl
take-all (suc n) (r ∷ rs) h = ap (λ l. r ∷ l) (take-all n rs (omega arith))

-- The rows are in the order of their times.
abbrev pub Ascending : List EventRow → Type 0
Ascending [] = Unit
Ascending (r ∷ []) = Unit
Ascending (r ∷ q ∷ rs) = (r.created_at ≤ q.created_at) × Ascending (q ∷ rs)

insert-Ascending :
    (r : EventRow) (qs : List EventRow) → Ascending qs → Ascending (insert_by_time r qs)
insert-Ascending r [] h = tt
insert-Ascending r (q ∷ []) h = elim (Bool-cases (ltb q.created_at r.created_at)) [
  | inl e ↦ rw e (ground arith, tt)
  | inr e ↦ rw e (ground arith, tt)
]
insert-Ascending r (q ∷ p ∷ qs) h = elim (Bool-cases (ltb q.created_at r.created_at)) [
  | inl e ↦
      rw e (behind (ltb p.created_at r.created_at) (ground arith) (insert-Ascending r (p ∷ qs) h.1))
  | inr e ↦ rw e (ground arith, h)
]
  where
    behind :
        (b : Bool)
        → q.created_at ≤ r.created_at
        → Ascending (if b then p ∷ insert_by_time r qs else r ∷ p ∷ qs)
        → Ascending (q ∷ (if b then p ∷ insert_by_time r qs else r ∷ p ∷ qs))
    behind true k g = (h.0, g)
    behind false k g = (k, g)

by_time-Ascending : (rs : List EventRow) → Ascending (by_time rs)
by_time-Ascending [] = tt
by_time-Ascending (r ∷ rs) = insert-Ascending r (by_time rs) (by_time-Ascending rs)

-- When no request and no statement fails and at most 50 rows are pending, a cycle of the relay
-- returns no error, publishes the event of each pending row once, after what was published before
-- and in the order of their times, and leaves no row pending.
pub relay_drains :
    (o : Outbox)
    → o.replies ≡ []
    → pending_count o ≤ 50
    → (batch : List EventRow) × (batch ≡ by_time (where_rows is_pending o.rows))
      × Ascending batch
      × ((relay_once o).0 ≡ true)
      × ((relay_once o).2.bus ≡ o.bus ++ map event_of batch)
      × (pending_count (relay_once o).2 ≡ 0)
unfolding relay_once pending_rows pending_count
relay_drains o calm few =
    let waiting = where_rows is_pending o.rows in
    let same : quiet o ≡ o = ap (λ r. record o { replies = r }) (sym calm) in
    let all : pending_rows batch_size o.rows ≡ by_time waiting =
      take-all 50 (by_time waiting) (omega (arith, few, length-by_time waiting)) in
    let once : relay_once o ≡ relay_rows (by_time waiting) 0 (quiet o) =
      ap relay_once (sym same) ∙ ap (λ l. relay_rows l 0 (quiet o)) all in
    let run = relay_rows-quiet (by_time waiting) 0 o in
    let gone : length (where_rows (left (by_time waiting)) o.rows) ≡ 0 =
      ap (λ l. length l) (where-left waiting o.rows (Covered-where o.rows)) in
    (
      by_time waiting,
      refl,
      by_time-Ascending waiting,
      ap (λ r. r.0) once ∙ run.0,
      ap (λ r. r.2.bus) once ∙ run.1,
      ap (λ r. length (where_rows is_pending r.2.rows)) once
          ∙ ap (λ l. length (where_rows is_pending l)) run.2
          ∙ where-mark_all o.now (by_time waiting) o.rows
          ∙ gone,
    )
