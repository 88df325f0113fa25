-- ===== src/Orders/Balance.antt =====
-- The stock ledger balances: its entries for a product add up to what the stock has moved by.
use go_commerce.Base.{
  ℕ, ◌+◌, ◌*◌, ◌≡◌, refl, ◌∙◌, ap, true, Option, none, some, List, [], ◌∷◌, ◌++◌, arith, ◌==◌,
  if◌then◌else◌, sum_by, sum_by-append, where_rows,
}
use go_commerce.Base.Int.{pos, neg, pos_part, neg_part, neg_parts}
use go_commerce.Domain.Errors.{invalid, not_found}
use go_commerce.Store.Table.{Table, lookup}
use go_commerce.Store.Models.{Product, ReservationModel, Entry, commit, Db}
use go_commerce.Store.Tx.{raise}
use go_commerce.Store.Ensures.{
  Ensures, Ensures-pure, Ensures-raise, Ensures-bind, Ensures-read, Ensures-write, Ensures-found,
  Ensures-exec, Ensures-if, Ensures-always, Ensures-statement, Ensures-weaken, Keeps, Keeps-pure,
  Keeps-raise, Keeps-query, Keeps-bind, Keeps-exec,
}
use go_commerce.Store.Rows.{Env, append_entry, enqueue}
use go_commerce.Orders.Stock.{
  stock_of, has_stock, held_for, held_products, release_reservations, commit_entries,
  commit_reservations,
}
use go_commerce.Orders.Create.{
  CreateItem, Line, is_bad, line_of, take_line, hold_line, hold_lines, insert_order, is_reserved,
  insert_reservation, insert_item, write_line, write_lines, create_order,
}
use go_commerce.Orders.Release.{
  exists_product, exists-released_all, stock_of-released_one, release_entry, released_one,
  restocked, released_all, release_rows_lem,
}
use go_commerce.Orders.Holding.{
  line_at, exists-held, stock_of-held, hold_stock_lem, held_row_lem, inserted,
}
use go_commerce.Orders.StockRules.{StockRules}

abbrev pub credit : ℕ → Entry → ℕ
credit p e = if e.product_id == p then pos_part e.delta else 0

abbrev pub debit : ℕ → Entry → ℕ
debit p e = if e.product_id == p then neg_part e.delta else 0

-- `base` is the stock of the existing product `p` before the first entry. `lns` are lines whose
-- stock is taken and not entered yet.
pub record BalanceIn (p base : ℕ) (lns : List Line) (ps : Table Product) (ledger : List Entry)
    : Type 0 where
  pub exists : exists_product p ps ≡ true
  pub sums :
      stock_of p ps + sum_by (line_at p) lns + sum_by (debit p) ledger
      ≡ base + sum_by (credit p) ledger

abbrev pub Balanced : ℕ → ℕ → Db → Type 0
Balanced p base db = BalanceIn p base [] db.products db.ledger

module _ (p base : ℕ) where
  abbrev Pending : List Line → Db → Type 0
  Pending lns db = BalanceIn p base lns db.products db.ledger

  -- A write to the stock and its entry, where both move the sum by as much.
  BalanceIn-entered :
      (lns left : List Line) (ps qs : Table Product) (ledger : List Entry) (entry : Entry)
      → exists_product p qs ≡ true
      → stock_of p qs + sum_by (line_at p) left + debit p entry
        ≡ stock_of p ps + sum_by (line_at p) lns + credit p entry
      → BalanceIn p base lns ps ledger
      → BalanceIn p base left qs (ledger ++ entry ∷ [])
  BalanceIn-entered lns left ps qs ledger entry e m h = record {
    exists = e;
    sums = omega (
      arith,
      h.sums,
      m,
      sum_by-append (debit p) ledger (entry ∷ []),
      sum_by-append (credit p) ledger (entry ∷ []),
    );
  }

  released_one-Balanced :
      (now order : ℕ) (row : ReservationModel) (db : Db)
      → Balanced p base db
      → Balanced p base (released_one now order row db)
  released_one-Balanced now order row db h =
      BalanceIn-entered [] [] db.products _ db.ledger
        (release_entry now order row (restocked now row db))
        (exists-released_all now order p (row ∷ []) db ∙ h.exists)
        (ground (arith, stock_of-released_one now order p row db h.exists)) h

  released_all-Balanced :
      (now order : ℕ) (rows : List ReservationModel) (db : Db)
      → Balanced p base db
      → Balanced p base (released_all now order rows db)
  released_all-Balanced now order [] db h = h
  released_all-Balanced now order (row ∷ rows) db h =
      released_all-Balanced now order rows (released_one now order row db)
        (released_one-Balanced now order row db h)

  release_reservations-Balanced :
      (now order : ℕ) → Keeps (Balanced p base) (release_reservations now order)
  unfolding release_reservations
  release_reservations-Balanced now order = record {
    at = λ db h. Ensures-read _ _ (
        Ensures-weaken (release_rows_lem now order _ db) (λ ids d e.
          rw (e.0)
            (released_all-Balanced now order (where_rows (held_for order) db.reservations) db h)));
  }

  -- An entry with the delta 0 moves nothing.
  commit_entry-Balanced :
      (now product : ℕ) (order : Option ℕ)
      → Keeps (Balanced p base) (append_entry now product order (pos 0) commit none)
  unfolding append_entry
  commit_entry-Balanced now product order = Keeps-exec _ λ db h.
      let entry : Entry = record {
        product_id = product;
        order_id = order;
        delta = pos 0;
        reason = commit;
        balance_after = none;
        created_at = now;
      } in
      BalanceIn-entered [] [] db.products db.products db.ledger entry h.exists (ground arith) h

  commit_entries-Balanced :
      (now order : ℕ) (rows : List ReservationModel)
      → Keeps (Balanced p base) (commit_entries now order rows)
  unfolding commit_entries
  commit_entries-Balanced now order [] = Keeps-pure tt
  commit_entries-Balanced now order (r ∷ rows) =
      Keeps-bind _ _ (commit_entry-Balanced now r.product_id (some order))
        (λ _. commit_entries-Balanced now order rows)

  commit_reservations-Balanced :
      (now order : ℕ) → Keeps (Balanced p base) (commit_reservations now order)
  unfolding commit_reservations
  commit_reservations-Balanced now order = Keeps-bind _ _ (Keeps-query _) λ rows.
      Keeps-bind _ _ (commit_entries-Balanced now order rows)
        (λ _. Keeps-exec _ (λ db h. record { exists = h.exists; sums = h.sums }))

  Pending-held :
      (now : ℕ) (lns : List Line) (ln : Line) (db : Db)
      → Pending lns db
      → has_stock ln.qty (lookup ln.product_id db.products) ≡ true
      → Pending
          (lns ++ ln ∷ [])
          (record db { products = held_products now ln.product_id ln.qty db.products })
  Pending-held now lns ln db h e = record {
    exists = exists-held now ln.product_id ln.qty p db.products ∙ h.exists;
    sums = omega (
      arith,
      h.sums,
      stock_of-held now ln.product_id ln.qty p db.products e,
      sum_by-append (line_at p) lns (ln ∷ []),
    );
  }

  take_line-Pending :
      (now : ℕ) (it : CreateItem) (lns : List Line) (db : Db)
      → Pending lns db
      → Ensures db (take_line now it) (λ ln d. Pending (lns ++ ln ∷ []) d)
  unfolding take_line
  take_line-Pending now it lns db h = Ensures-read _ _ (
      Ensures-found _ not_found _ λ row _.
        Ensures-bind _ _ (hold_stock_lem now it.product_id (pos_part it.qty) db) λ b d e.
          held_row_lem b (line_of it row) d (λ ln x. Pending (lns ++ ln ∷ []) x)
            λ t. moved row d ((e t).1) ((e t).0))
    where
      moved :
          (row : Product) (d : Db)
          → d
            ≡ record db { products = held_products now it.product_id (pos_part it.qty) db.products }
          → has_stock (pos_part it.qty) (lookup it.product_id db.products) ≡ true
          → Pending (lns ++ line_of it row ∷ []) d
      moved row d e t = rw e (Pending-held now lns (line_of it row) db h t)

  hold_line-Pending :
      (now : ℕ) (it : CreateItem) (lns : List Line) (db : Db)
      → Pending lns db
      → Ensures db (hold_line now it) (λ ln d. Pending (lns ++ ln ∷ []) d)
  unfolding hold_line
  hold_line-Pending now it lns db h =
      Ensures-if (is_bad it) (raise invalid) (take_line now it) (λ _. Ensures-raise invalid)
        (λ _. take_line-Pending now it lns db h)

  hold_lines-Pending :
      (now : ℕ) (its : List CreateItem) (lns : List Line) (total : ℕ) (db : Db)
      → Pending lns db
      → Ensures db (hold_lines now its lns total) (λ r d. Pending r.0 d)
  unfolding hold_lines
  hold_lines-Pending now [] lns total db h = Ensures-pure (lns, total) h
  hold_lines-Pending now (it ∷ its) lns total db h =
      Ensures-bind _ _ (hold_line-Pending now it lns db h)
        λ ln d k. hold_lines-Pending now its (lns ++ ln ∷ []) (total + ln.price * ln.qty) d k

  -- The entry of a hold takes the line off the pending ones.
  Pending-entered :
      (ln : Line) (lns : List Line) (ps : Table Product) (ledger : List Entry) (entry : Entry)
      → entry.product_id ≡ ln.product_id
      → entry.delta ≡ neg ln.qty
      → BalanceIn p base (ln ∷ lns) ps ledger
      → BalanceIn p base lns ps (ledger ++ entry ∷ [])
  Pending-entered ln lns ps ledger entry i d h =
      BalanceIn-entered (ln ∷ lns) lns ps ps ledger entry h.exists
        (ground (arith, i, ap pos_part d, ap neg_part d, neg_parts ln.qty)) h

  write_line-Pending :
      (now order : ℕ) (ln : Line) (lns : List Line) (db : Db)
      → Pending (ln ∷ lns) db
      → Ensures db (write_line now order ln) (λ _ d. Pending lns d)
  unfolding write_line insert_item insert_reservation append_entry
  write_line-Pending now order ln lns db h = Ensures-write _ _ (
      Ensures-bind {R = λ _ d. Pending (ln ∷ lns) d} _ _
        (Ensures-statement _
          λ a d e. rw (inserted now order ln (is_reserved order ln.product_id db) _ e) h)
        λ _ d k.
          Ensures-read _ _
            (Ensures-exec _ (Pending-entered ln lns d.products d.ledger _ refl refl k)))

  write_lines-Pending :
      (now order : ℕ) (lns : List Line) (db : Db)
      → Pending lns db
      → Ensures db (write_lines now order lns) (λ _ d. Pending [] d)
  unfolding write_lines
  write_lines-Pending now order [] db h = Ensures-pure tt h
  write_lines-Pending now order (ln ∷ lns) db h =
      Ensures-bind _ _ (write_line-Pending now order ln lns db h)
        (λ _ d k. write_lines-Pending now order lns d k)

  insert_order-Pending :
      (now user total : ℕ) (lns : List Line) (db : Db)
      → Pending lns db
      → Ensures db (insert_order now user total) (λ _ d. Pending lns d)
  unfolding insert_order
  insert_order-Pending now user total lns db h = Ensures-always _ h

  create_order-Balanced :
      (env : Env) (user : ℕ) (its : List CreateItem)
      → Keeps (Balanced p base) (create_order env user its)
  unfolding create_order enqueue
  create_order-Balanced env user [] = Keeps-raise invalid
  create_order-Balanced env user (it ∷ its) = record {
    at = λ db h. Ensures-bind _ _ (hold_lines-Pending env.now (it ∷ its) [] 0 db h) λ held d k.
        Ensures-bind _ _ (insert_order-Pending env.now user held.1 held.0 d k) λ order d₁ k₁.
          Ensures-bind _ _ (write_lines-Pending env.now order.0 held.0 d₁ k₁) λ _ d₂ k₂.
            Ensures-bind _ _ ((Keeps-exec {P = Balanced p base} _ (λ db h. h)).at d₂ k₂)
              (λ _ d₃ k₃. Ensures-pure order k₃);
  }

pub Balanced-StockRules : (p base : ℕ) → StockRules (λ ps _ _ ledger. BalanceIn p base [] ps ledger)
Balanced-StockRules p base = record {
  releases = release_reservations-Balanced p base;
  commits = commit_reservations-Balanced p base;
  creates = create_order-Balanced p base;
}
