-- ===== src/Orders/Evolution.antt =====
-- The life of one order: whatever happens, its row stays, its buyer, total and creation time stay,
-- its status moves along the edges of the state machine, and its version counts the moves.
use go_commerce.Base.{
  ℕ, ◌+◌, ◌≡◌, sym, ◌∙◌, ap, true, none, some, [], ◌∷◌, ◌++◌, arith, ◌==◌, inl, inr, Bool-cases,
  ==_iff,
}
use go_commerce.Domain.Errors.{ok}
use go_commerce.Domain.Order.{OrderStatus, paid, payment_failed, cancelled, fulfilled, transition}
use go_commerce.Domain.Graph.{◌⟶◌, ◌⟶*◌, next, steps, transition_iff_edge}
use go_commerce.Store.Table.{Table, lookup, adjust, lookup-adjust, lookup-insert}
use go_commerce.Store.Models.{OrderModel}
use go_commerce.Orders.Change.{moved}
use go_commerce.Orders.Rules.{Invariant, Rules, Write}

-- The row of an order that began as `first`.
pub record Evolved (first : OrderModel) (id : ℕ) (os : Table OrderModel) : Type 0 where
  pub now : OrderModel
  pub stored : lookup id os ≡ some now
  pub buyer : now.user_id ≡ first.user_id
  pub total : now.total ≡ first.total
  pub created : now.created_at ≡ first.created_at
  pub path : first.status ⟶* now.status
  pub version : now.version ≡ first.version + steps path

some-inj : {a b : OrderModel} → some a ≡ some b → a ≡ b
some-inj {a = a} h = ap (λ m. elim m [ none ↦ a | some x ↦ x ]) h

transition-target : (s to u : OrderStatus) → transition s to ≡ ok u → u ≡ to
unfolding transition
transition-target s to u t = ground arith

edge_of : (s to u : OrderStatus) → transition s to ≡ ok u → s ⟶ u
edge_of s to u t =
    (transition_iff_edge s u).0
      (rw (transition-target s to u t) (t ∙ ap ok (transition-target s to u t)))

module _ (first : OrderModel) (id : ℕ) where
  abbrev pub Evolves : Invariant
  Evolves os n ps = Evolved first id os

  evolve-insert :
      (os : Table OrderModel) (n : ℕ) (o : OrderModel)
      → Evolved first id os
      → Evolved first id (os ++ (n, o) ∷ [])
  evolve-insert os n o h = record {
    now = h.now;
    stored = rw lookup-insert (rw (h.stored));
    buyer = h.buyer;
    total = h.total;
    created = h.created;
    path = h.path;
    version = h.version;
  }

  evolve-adjust :
      (os : Table OrderModel) (k : ℕ) (to : OrderStatus) (g : OrderModel → OrderModel)
      (o : OrderModel)
      → Write os k to g o
      → Evolved first id os
      → Evolved first id (adjust k g os)
  evolve-adjust os k to g o w h = elim (Bool-cases (k == id)) [
    | inl t ↦ hit t
    | inr t ↦ record {
      now = h.now;
      stored = rw lookup-adjust (rw t (h.stored));
      buyer = h.buyer;
      total = h.total;
      created = h.created;
      path = h.path;
      version = h.version;
    }
  ]
    where
      same : (k == id) ≡ true → h.now ≡ o
      same t = some-inj (sym (h.stored) ∙ rw (← (==_iff k id).0 t) (w.loaded))

      edge : (k == id) ≡ true → h.now.status ⟶ w.next
      edge t = rw (same t) (edge_of o.status to w.next w.legal)

      hit : (k == id) ≡ true → Evolved first id (adjust k g os)
      hit t = record {
        now = moved w.now w.next o;
        stored = rw lookup-adjust (rw t (rw (h.stored) (ap some (ap g (same t) ∙ w.effect))));
        buyer = ap (λ r. r.user_id) (sym (same t)) ∙ h.buyer;
        total = ap (λ r. r.total) (sym (same t)) ∙ h.total;
        created = ap (λ r. r.created_at) (sym (same t)) ∙ h.created;
        path = next h.path (edge t);
        version = omega (arith, h.version, ap (λ r. r.version) (same t));
      }

  pub Evolves-Rules : Rules Evolves
  Evolves-Rules = record {
    creates = λ os n ps o e h. evolve-insert os n o h;
    cancels = λ os n ps k g o w h. evolve-adjust os k cancelled g o w h;
    fulfills = λ os n ps k g o w h. evolve-adjust os k fulfilled g o w h;
    pays = λ os n ps k g o pay w ek es ea h. evolve-adjust os k paid g o w h;
    fails = λ os n ps k g o pay w ek es h. evolve-adjust os k payment_failed g o w h;
  }
