-- ===== src/Relay/Delivery.antt =====
-- What has been marked published has been published.
use go_commerce.Base.{
  ℕ, ◌≡◌, refl, Bool, true, false, List, [], ◌∷◌, ◌++◌, first_row, is_some, Bool-cases, inl, inr,
  ==_iff, arith, take, zero, suc, ltb, where_rows, ◌==◌, ◌&&◌,
}
use go_commerce.Base.Text.{Text, text_eq, text_eq_refl}
use go_commerce.Store.Models.{EventRow}
use go_commerce.Workers.Audit.{next_reply, heard, arrives}
use go_commerce.Workers.Recorded.{is_some-append, heard-arrives}
use go_commerce.Relay.{
  Event, Outbox, is_pending, is_unpublished, insert_by_time, by_time, pending_rows, batch_size,
  event_of, publish, mark_rows, mark_published, after_mark, after_publish, relay_rows, after_find,
  relay_once,
}

abbrev pub on_bus : Text → List Event → Bool
on_bus id bus = is_some (first_row (λ e. text_eq e.id id) bus)

-- The event id of a row is a function of its primary key.
abbrev pub Keyed : (ℕ → Text) → List EventRow → Type 0
Keyed f [] = Unit
Keyed f (r ∷ rs) = (f r.id ≡ r.event_id) × Keyed f rs

-- The event of every row that is marked as published is on the bus.
abbrev pub Delivered : List Event → List EventRow → Type 0
Delivered bus [] = Unit
Delivered bus (r ∷ rs) =
    (is_some r.published_at ≡ true → on_bus r.event_id bus ≡ true) × Delivered bus rs

module _ (f : ℕ → Text) where
  Keyed-where : (p : EventRow → Bool) (rs : List EventRow) → Keyed f rs → Keyed f (where_rows p rs)
  Keyed-where p [] h = tt
  Keyed-where p (r ∷ rs) h = elim (Bool-cases (p r)) [
    | inl e ↦ rw e (h.0, Keyed-where p rs h.1)
    | inr e ↦ rw e (Keyed-where p rs h.1)
  ]

  Keyed-take : (n : ℕ) (rs : List EventRow) → Keyed f rs → Keyed f (take n rs)
  Keyed-take zero rs h = tt
  Keyed-take (suc n) [] h = tt
  Keyed-take (suc n) (r ∷ rs) h = (h.0, Keyed-take n rs h.1)

  Keyed-insert :
      (r : EventRow) (rs : List EventRow)
      → f r.id ≡ r.event_id
      → Keyed f rs
      → Keyed f (insert_by_time r rs)
  Keyed-insert r [] e h = (e, tt)
  Keyed-insert r (q ∷ qs) e h = elim (Bool-cases (ltb q.created_at r.created_at)) [
    | inl t ↦ rw t (h.0, Keyed-insert r qs e h.1)
    | inr t ↦ rw t (e, h)
  ]

  Keyed-by_time : (rs : List EventRow) → Keyed f rs → Keyed f (by_time rs)
  Keyed-by_time [] h = tt
  Keyed-by_time (r ∷ rs) h = Keyed-insert r (by_time rs) h.0 (Keyed-by_time rs h.1)

  Keyed-pending : (n : ℕ) (rs : List EventRow) → Keyed f rs → Keyed f (pending_rows n rs)
  unfolding pending_rows
  Keyed-pending n rs h = Keyed-take n _ (Keyed-by_time _ (Keyed-where is_pending rs h))

  Keyed-mark : (now id : ℕ) (rs : List EventRow) → Keyed f rs → Keyed f (mark_rows now id rs)
  unfolding mark_rows
  Keyed-mark now id [] h = tt
  Keyed-mark now id (r ∷ rs) h = elim (Bool-cases (is_unpublished id r)) [
    | inl e ↦ rw e (h.0, Keyed-mark now id rs h.1)
    | inr e ↦ rw e (h.0, Keyed-mark now id rs h.1)
  ]

  Delivered-mark :
      (bus : List Event) (now id : ℕ) (rs : List EventRow)
      → on_bus (f id) bus ≡ true
      → Keyed f rs
      → Delivered bus rs
      → Delivered bus (mark_rows now id rs)
  unfolding mark_rows is_unpublished
  Delivered-mark bus now id [] b k h = tt
  Delivered-mark bus now id (r ∷ rs) b k h = elim (Bool-cases (is_unpublished id r)) [
    | inl e ↦ rw e (
      (λ _. same_event (and_left (r.id == id) (is_pending r) e)),
      Delivered-mark bus now id rs b k.1 h.1,
    )
    | inr e ↦ rw e (h.0, Delivered-mark bus now id rs b k.1 h.1)
  ]
    where
      and_left : (a c : Bool) → (a && c) ≡ true → a ≡ true
      and_left true c h = refl
      and_left false c h = h

      same_event : (r.id == id) ≡ true → on_bus r.event_id bus ≡ true
      same_event t = rw (← k.0, (==_iff r.id id).0 t) b

on_bus-append :
    (id : Text) (bus : List Event) (e : Event)
    → on_bus id bus ≡ true
    → on_bus id (bus ++ e ∷ []) ≡ true
on_bus-append id [] e h = absurd (cc)
on_bus-append id (x ∷ bus) e h = elim (Bool-cases (text_eq x.id id)) [
  | inl t ↦ rw t refl
  | inr t ↦ rw t (on_bus-append id bus e (tail t h))
]
  where
    tail : text_eq x.id id ≡ false → on_bus id (x ∷ bus) ≡ true → on_bus id bus ≡ true
    tail t h = ground arith

Delivered-append :
    (bus : List Event) (e : Event) (rs : List EventRow)
    → Delivered bus rs
    → Delivered (bus ++ e ∷ []) rs
Delivered-append bus e [] h = tt
Delivered-append bus e (r ∷ rs) h =
    (λ p. on_bus-append r.event_id bus e (h.0 p), Delivered-append bus e rs h.1)

pub record Faithful (f : ℕ → Text) (o : Outbox) : Type 0 where
  pub keyed : Keyed f o.rows
  pub delivered : Delivered o.bus o.rows

module _ (f : ℕ → Text) where
  publish-Faithful : (r : EventRow) (o : Outbox) → Faithful f o → Faithful f (publish r o).1
  unfolding publish
  publish-Faithful r o h = elim (Bool-cases (arrives (next_reply o.replies))) [
    | inl e ↦ rw e record {
      keyed = h.keyed;
      delivered = Delivered-append o.bus (event_of r) o.rows h.delivered;
    }
    | inr e ↦ rw e record { keyed = h.keyed; delivered = h.delivered }
  ]

  publish-on_bus :
      (r : EventRow) (o : Outbox)
      → (publish r o).0 ≡ true
      → on_bus r.event_id (publish r o).1.bus ≡ true
  unfolding publish event_of
  publish-on_bus r o h =
      rw (heard-arrives (next_reply o.replies) h)
        (is_some-append (λ e. text_eq e.id r.event_id) o.bus (event_of r) (text_eq_refl r.event_id))

  mark_published-Faithful :
      (r : EventRow) (o : Outbox)
      → f r.id ≡ r.event_id
      → on_bus r.event_id o.bus ≡ true
      → Faithful f o
      → Faithful f (mark_published r o).2
  unfolding mark_published
  mark_published-Faithful r o k b h = elim (Bool-cases (arrives (next_reply o.replies))) [
    | inl e ↦ rw e record {
      keyed = Keyed-mark f o.now r.id o.rows h.keyed;
      delivered = Delivered-mark f o.bus o.now r.id o.rows (rw k b) h.keyed h.delivered;
    }
    | inr e ↦ rw e record { keyed = h.keyed; delivered = h.delivered }
  ]

  after_mark-Faithful :
      (n : ℕ) (m : Bool × ℕ × Outbox) (rest : ℕ → Outbox → Bool × ℕ × Outbox)
      → Faithful f m.2
      → ((n : ℕ) (o : Outbox) → Faithful f o → Faithful f (rest n o).2)
      → Faithful f (after_mark n m rest).2
  after_mark-Faithful n (false, a, o) rest h k = h
  after_mark-Faithful n (true, a, o) rest h k = k _ o h

  after_publish-Faithful :
      (n : ℕ) (r : EventRow) (p : Bool × Outbox) (rest : ℕ → Outbox → Bool × ℕ × Outbox)
      → f r.id ≡ r.event_id
      → Faithful f p.1
      → (p.0 ≡ true → on_bus r.event_id p.1.bus ≡ true)
      → ((n : ℕ) (o : Outbox) → Faithful f o → Faithful f (rest n o).2)
      → Faithful f (after_publish n r p rest).2
  after_publish-Faithful n r (false, o) rest e h b k = h
  after_publish-Faithful n r (true, o) rest e h b k =
      after_mark-Faithful n (mark_published r o) rest (mark_published-Faithful r o e (b refl) h) k

  relay_rows-Faithful :
      (rs : List EventRow) (n : ℕ) (o : Outbox)
      → Keyed f rs
      → Faithful f o
      → Faithful f (relay_rows rs n o).2
  unfolding relay_rows
  relay_rows-Faithful [] n o k h = h
  relay_rows-Faithful (r ∷ rs) n o k h =
      after_publish-Faithful n r (publish r o) (relay_rows rs) k.0 (publish-Faithful r o h)
        (publish-on_bus r o) (λ m q g. relay_rows-Faithful rs m q k.1 g)

  after_find-Faithful :
      (b : Bool) (rs : List EventRow) (o : Outbox)
      → Keyed f rs
      → Faithful f o
      → Faithful f (after_find b rs o).2
  after_find-Faithful false rs o k h = h
  after_find-Faithful true rs o k h = relay_rows-Faithful rs 0 o k h

-- Of a table in which the event id is a function of the primary key and every event marked as
-- published is on the bus, a cycle of the relay keeps both, whichever statements and requests fail
-- or lose their answers in it.
pub relay_loses_nothing : (f : ℕ → Text) (o : Outbox) → Faithful f o → Faithful f (relay_once o).2
unfolding relay_once
relay_loses_nothing f o h =
    after_find-Faithful f (heard (next_reply o.replies)) (pending_rows batch_size o.rows) _
      (Keyed-pending f batch_size o.rows h.keyed)
      (record { keyed = h.keyed; delivered = h.delivered })
