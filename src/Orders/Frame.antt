-- ===== src/Orders/Frame.antt =====
-- What the statements on stock, outbox and ledger leave alone: the orders and the payments. `P` is
-- any property of those three parts of the database.
use go_commerce.Base.{ℕ, List, [], ◌∷◌, ◌++◌, ◌+◌, ◌*◌, true, false, Option}
use go_commerce.Base.Int.{ℤ}
use go_commerce.Domain.Order.{EventType}
use go_commerce.Store.Table.{Table, lookup}
use go_commerce.Store.Models.{OrderModel, PaymentModel, ReservationModel, Payload, Reason, Db}
use go_commerce.Store.Tx.{raise}
use go_commerce.Domain.Errors.{conflict, invalid}
use go_commerce.Base.{Bool, Bool-cases, inl, inr}
use go_commerce.Store.Ensures.{
  Keeps, Keeps-pure, Keeps-raise, Keeps-query, Keeps-bind, Keeps-exec, Keeps-if, Keeps-insert,
  Keeps-always, keeps_rules,
}
use go_commerce.Store.Rows.{Env, append_entry, enqueue}
use go_commerce.Orders.Stock.{
  hold_stock, try_hold, has_stock, restock, release_row, release_rows, release_reservations,
  commit_entries, commit_reservations,
}
use go_commerce.Orders.Create.{
  CreateItem, Line, held_row, is_bad, take_line, hold_line, hold_lines, insert_item,
  insert_reservation, write_line, write_lines,
}

module _ (P : Table OrderModel → ℕ → List PaymentModel → Type 0) where
  abbrev pub Ledgered : Db → Type 0
  Ledgered db = P db.orders db.order_serial db.payments

  append_entry-Ledgered :
      (now product : ℕ) (order : Option ℕ) (delta : ℤ) (reason : Reason) (bal : Option ℕ)
      → Keeps Ledgered (append_entry now product order delta reason bal)
  unfolding append_entry
  append_entry-Ledgered now product order delta reason bal = Keeps-exec _ (λ db h. h)

  pub enqueue-Ledgered :
      (env : Env) (id : ℕ) (t : EventType) (pl : Payload) → Keeps Ledgered (enqueue env id t pl)
  unfolding enqueue
  enqueue-Ledgered env id t pl = Keeps-exec _ (λ db h. h)

  release_row-Ledgered :
      (now order : ℕ) (r : ReservationModel) → Keeps Ledgered (release_row now order r)
  unfolding release_row restock
  release_row-Ledgered now order r = Keeps-bind _ _ (Keeps-exec _ (λ db h. h)) λ _.
      Keeps-bind _ _ (Keeps-query _)
        λ bal. Keeps-bind _ _ (append_entry-Ledgered _ _ _ _ _ _) (λ _. Keeps-exec _ (λ db h. h))

  release_rows-Ledgered :
      (now order : ℕ) (rows : List ReservationModel) → Keeps Ledgered (release_rows now order rows)
  unfolding release_rows
  release_rows-Ledgered now order [] = Keeps-pure _
  release_rows-Ledgered now order (r ∷ rows) =
      Keeps-bind _ _ (release_row-Ledgered now order r)
        λ _. Keeps-bind _ _ (release_rows-Ledgered now order rows) (λ ids. Keeps-pure _)

  pub release_reservations-Ledgered :
      (now order : ℕ) → Keeps Ledgered (release_reservations now order)
  unfolding release_reservations
  release_reservations-Ledgered now order =
      Keeps-bind _ _ (Keeps-query _) (release_rows-Ledgered now order)

  commit_entries-Ledgered :
      (now order : ℕ) (rows : List ReservationModel)
      → Keeps Ledgered (commit_entries now order rows)
  unfolding commit_entries
  commit_entries-Ledgered now order [] = Keeps-pure _
  commit_entries-Ledgered now order (r ∷ rows) =
      Keeps-bind _ _ (append_entry-Ledgered _ _ _ _ _ _)
        (λ _. commit_entries-Ledgered now order rows)

  pub commit_reservations-Ledgered :
      (now order : ℕ) → Keeps Ledgered (commit_reservations now order)
  unfolding commit_reservations
  commit_reservations-Ledgered now order = Keeps-bind _ _ (Keeps-query _) λ rows.
      Keeps-bind _ _ (commit_entries-Ledgered now order rows) (λ _. Keeps-exec _ (λ db h. h))

  held_row-Ledgered : (b : Bool) (ln : Line) → Keeps Ledgered (held_row b ln)
  held_row-Ledgered true ln = Keeps-pure ln
  held_row-Ledgered false ln = Keeps-raise conflict

  try_hold-Ledgered : (now id q : ℕ) (db : Db) → Ledgered db → Ledgered (try_hold now id q db).1
  try_hold-Ledgered now id q db h = elim (Bool-cases (has_stock q (lookup id db.products))) [
    | inl e ↦ rw e h
    | inr e ↦ rw e h
  ]

  hold_stock-Ledgered : (now id q : ℕ) → Keeps Ledgered (hold_stock now id q)
  unfolding hold_stock
  hold_stock-Ledgered now id q = Keeps-always _ (λ db h. try_hold-Ledgered now id q db h)

  take_line-Ledgered : (now : ℕ) (it : CreateItem) → Keeps Ledgered (take_line now it)
  unfolding take_line
  take_line-Ledgered now it = search (keeps_rules, hold_stock-Ledgered, held_row-Ledgered)

  hold_line-Ledgered : (now : ℕ) (it : CreateItem) → Keeps Ledgered (hold_line now it)
  unfolding hold_line
  hold_line-Ledgered now it =
      Keeps-if (is_bad it) (raise invalid) (take_line now it) (Keeps-raise invalid)
        (take_line-Ledgered now it)

  pub hold_lines-Ledgered :
      (now : ℕ) (its : List CreateItem) (lns : List Line) (total : ℕ)
      → Keeps Ledgered (hold_lines now its lns total)
  unfolding hold_lines
  hold_lines-Ledgered now [] lns total = Keeps-pure _
  hold_lines-Ledgered now (it ∷ its) lns total =
      Keeps-bind _ _ (hold_line-Ledgered now it)
        (λ ln. hold_lines-Ledgered now its (lns ++ ln ∷ []) (total + ln.price * ln.qty))

  write_line-Ledgered : (now order : ℕ) (ln : Line) → Keeps Ledgered (write_line now order ln)
  unfolding write_line insert_item insert_reservation
  write_line-Ledgered now order ln = Keeps-bind _ _ (Keeps-exec _ (λ db h. h)) λ _.
      Keeps-bind _ _ (Keeps-insert _ _ (λ db h. h))
        λ _. Keeps-bind _ _ (Keeps-query _) (λ bal. append_entry-Ledgered _ _ _ _ _ _)

  pub write_lines-Ledgered :
      (now order : ℕ) (lns : List Line) → Keeps Ledgered (write_lines now order lns)
  unfolding write_lines
  write_lines-Ledgered now order [] = Keeps-pure tt
  write_lines-Ledgered now order (ln ∷ lns) =
      Keeps-bind _ _ (write_line-Ledgered now order ln) (λ _. write_lines-Ledgered now order lns)
