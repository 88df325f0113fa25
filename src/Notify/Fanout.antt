-- ===== src/Notify/Fanout.antt =====
-- A broadcast keeps the clients that it reaches.
use go_commerce.Base.{
  where-same, ℕ, ◌*◌, ◌≤◌, ◌≡◌, refl, sym, ap, ◌∙◌, ◌⊎◌, Bool, true, false, not, List, [], ◌∷◌,
  ◌++◌, ◌&&◌, ◌||◌, append-nil, append_assoc, map, arith, ◌==◌, ltb, if◌then◌else◌, where_rows,
  Bool-cases, inl, inr, ==_refl, ==_iff,
}
use go_commerce.Workers.Payload.{Message}
use go_commerce.Notify.{
  Hub, remove_client, write_all, broadcast, Fetched, fetched, fetch_failed, Notifier, notify_turn,
}

where-where :
    {A : Type 0} (p q : A → Bool) (xs : List A)
    → where_rows p (where_rows q xs) ≡ where_rows (λ x. q x && p x) xs
where-where p q [] = refl
where-where p q (x ∷ xs) = elim (Bool-cases (q x)) [
  | inl e ↦ rw e (elim (Bool-cases (p x)) [
    | inl k ↦ rw k (ap (λ l. x ∷ l) (where-where p q xs))
    | inr k ↦ rw k (where-where p q xs)
  ])
  | inr e ↦ rw e (where-where p q xs)
]

abbrev is_in : ℕ → List ℕ → Bool
is_in c [] = false
is_in c (d ∷ ds) = (d == c) || is_in c ds

module _ (writes : ℕ → Bool) where
  -- No write to the client, of those in the list, fails.
  abbrev survives : List ℕ → ℕ → Bool
  survives [] c = true
  survives (d ∷ ds) c = (writes d || not (c == d)) && survives ds c

  survives-written : (ds : List ℕ) (c : ℕ) → writes c ≡ true → survives ds c ≡ true
  survives-written [] c e = refl
  survives-written (d ∷ ds) c e = elim (Bool-cases (c == d)) [
    | inl q ↦
        let k : writes d ≡ true = rw (← (==_iff c d).0 q) e in rw (k, survives-written ds c e) refl
    | inr q ↦ rw (q, survives-written ds c e) (or_true (writes d))
  ]
    where
      or_true : (b : Bool) → ((b || true) && true) ≡ true
      or_true true = refl
      or_true false = refl

  survives-failed :
      (ds : List ℕ) (c : ℕ) → is_in c ds ≡ true → writes c ≡ false → survives ds c ≡ false
  survives-failed [] c h e = absurd (cc)
  survives-failed (d ∷ ds) c h e = elim (Bool-cases (d == c)) [
    | inl q ↦ let k : d ≡ c = (==_iff d c).0 q in rw k (rw (e, ==_refl c) refl)
    | inr q ↦ rw (survives-failed ds c (ground arith) e) (and_false _)
  ]
    where
      and_false : (b : Bool) → (b && false) ≡ false
      and_false true = refl
      and_false false = refl

  survives-in : (ds : List ℕ) (c : ℕ) → is_in c ds ≡ true → survives ds c ≡ writes c
  survives-in ds c h = elim (Bool-cases (writes c)) [
    | inl e ↦ survives-written ds c e ∙ sym e
    | inr e ↦ survives-failed ds c h e ∙ sym e
  ]

  abbrev AllIn : List ℕ → List ℕ → Type 0
  AllIn ds [] = Unit
  AllIn ds (c ∷ cs) = (is_in c ds ≡ true) × AllIn ds cs

  AllIn-more : (d : ℕ) (ds cs : List ℕ) → AllIn ds cs → AllIn (d ∷ ds) cs
  AllIn-more d ds [] h = tt
  AllIn-more d ds (c ∷ cs) h = (rw (h.0) (or_true (d == c)), AllIn-more d ds cs h.1)
    where
      or_true : (b : Bool) → (b || true) ≡ true
      or_true true = refl
      or_true false = refl

  AllIn-self : (cs : List ℕ) → AllIn cs cs
  AllIn-self [] = tt
  AllIn-self (c ∷ cs) = (rw (==_refl c) refl, AllIn-more c cs cs (AllIn-self cs))

  where-survives :
      (ds cs : List ℕ) → AllIn ds cs → where_rows (survives ds) cs ≡ where_rows writes cs
  where-survives ds [] h = refl
  where-survives ds (c ∷ cs) h = rw (survives-in ds c h.0, where-survives ds cs h.1) refl

  module _ (event : Message) where
    write_all-clients :
        (ds : List ℕ) (h : Hub)
        → (write_all writes event ds h).clients ≡ where_rows (survives ds) h.clients
    unfolding write_all remove_client
    write_all-clients [] h = sym (where-all h.clients)
      where
        where-all : (cs : List ℕ) → where_rows (λ c. true) cs ≡ cs
        where-all [] = refl
        where-all (c ∷ cs) = ap (λ l. c ∷ l) (where-all cs)
    write_all-clients (d ∷ ds) h = elim (Bool-cases (writes d)) [
      | inl e ↦
          rw (write_all, e)
            (write_all-clients ds _
              ∙ where-same (survives ds) (survives (d ∷ ds)) (λ c. rw e refl) h.clients)
      | inr e ↦
          rw (write_all, e)
            (write_all-clients ds (remove_client d h)
              ∙ where-where (survives ds) (λ c. not (c == d)) h.clients
              ∙ where-same (λ c. not (c == d) && survives ds c) (survives (d ∷ ds)) (λ c. rw e refl)
                  h.clients)
    ]

    -- What the clients are sent.
    abbrev pub sent_to : List ℕ → List (ℕ × Message)
    sent_to cs = map (λ c. (c, event)) cs

    write_all-delivered :
        (ds : List ℕ) (h : Hub)
        → (write_all writes event ds h).delivered ≡ h.delivered ++ sent_to (where_rows writes ds)
    unfolding write_all remove_client
    write_all-delivered [] h = sym (append-nil h.delivered)
    write_all-delivered (d ∷ ds) h = elim (Bool-cases (writes d)) [
      | inl e ↦
          rw (write_all, e)
            (write_all-delivered ds (record h { delivered = h.delivered ++ (d, event) ∷ [] })
              ∙ append_assoc h.delivered ((d, event) ∷ []) (sent_to (where_rows writes ds)))
      | inr e ↦ rw (write_all, e) (write_all-delivered ds (remove_client d h))
    ]

-- A broadcast delivers the event to the clients that a write reaches, in the order in which they are
-- kept, and keeps exactly those: a client whose write fails is dropped and gets nothing.
pub broadcast_keeps_reached :
    (writes : ℕ → Bool) (event : Message) (h : Hub)
    → ((broadcast writes event h).clients ≡ where_rows writes h.clients)
      × ((broadcast writes event h).delivered
          ≡ h.delivered ++ sent_to writes event (where_rows writes h.clients))
unfolding broadcast
broadcast_keeps_reached writes event h = (
  write_all-clients writes event h.clients h
      ∙ where-survives writes h.clients h.clients (AllIn-self writes h.clients),
  write_all-delivered writes event h.clients h,
)

-- The turns of the loop, each with what its fetch gives and whom its writes reach.
unfoldable pub notify : List ((ℕ → Bool) × Fetched) → Notifier → Notifier
unfolding notify_turn
notify [] n = n
notify ((writes, f) ∷ turns) n = notify turns (notify_turn writes f n)

-- The waits of a loop that starts at one second and doubles below thirty.
abbrev IsWait : ℕ → Type 0
IsWait b = (b ≡ 1) ⊎ (b ≡ 2) ⊎ (b ≡ 4) ⊎ (b ≡ 8) ⊎ (b ≡ 16) ⊎ (b ≡ 32)

IsWait-doubled : (b : ℕ) → IsWait b → IsWait (if ltb b 30 then b * 2 else b)
IsWait-doubled b h = ground arith

notify-IsWait :
    (turns : List ((ℕ → Bool) × Fetched)) (n : Notifier)
    → IsWait n.backoff
    → IsWait (notify turns n).backoff
unfolding notify notify_turn
notify-IsWait [] n h = h
notify-IsWait ((writes, fetch_failed) ∷ turns) n h =
    notify-IsWait turns _ (IsWait-doubled n.backoff h)
notify-IsWait ((writes, fetched msg) ∷ turns) n h = notify-IsWait turns _ (inl refl)

-- Whatever its fetches and its writes come to, the loop that starts with a wait of one second never
-- waits longer than 32 seconds, nor less than one.
pub waits_are_bounded :
    (turns : List ((ℕ → Bool) × Fetched)) (n : Notifier)
    → n.backoff ≡ 1
    → (1 ≤ (notify turns n).backoff) × ((notify turns n).backoff ≤ 32)
waits_are_bounded turns n h = bounds (notify-IsWait turns n (inl h))
  where
    bounds : {b : ℕ} → IsWait b → (1 ≤ b) × (b ≤ 32)
    bounds w = (ground arith, ground arith)
