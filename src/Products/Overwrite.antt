-- ===== src/Products/Overwrite.antt =====
-- An update of a product between whose two statements an order takes stock.
use go_commerce.Base.{
  ℕ, ◌+◌, ◌≤◌, ◌≡◌, refl, sym, ap, ◌∙◌, true, false, Option, none, some, arith, Bool-cases, inl,
  inr, ==_refl,
}
use go_commerce.Base.Int.{ℤ}
use go_commerce.Base.Text.{Text}
use go_commerce.Domain.Errors.{Result, ok, err}
use go_commerce.Store.Table.{Table, lookup, adjust, lookup-adjust}
use go_commerce.Store.Models.{Product, Db}
use go_commerce.Orders.Create.{live}
use go_commerce.Orders.Stock.{has_stock, try_hold, take_stock, held_products, stock_of}
use go_commerce.Products.{
  UpdateInput, Shop, find_product, then_set, set_name, set_description, set_price, set_stock, edit,
  save_edited,
}

set_name-stock : (n : Option Text) (p q : Product) → set_name n p ≡ ok q → q.stock ≡ p.stock
set_name-stock none p q h = cc
set_name-stock (some n) p q h = ground arith

set_price-stock : (n : Option ℤ) (p q : Product) → set_price n p ≡ ok q → q.stock ≡ p.stock
set_price-stock none p q h = cc
set_price-stock (some n) p q h = ground arith

set_description-stock : (d : Option Text) (p : Product) → (set_description d p).stock ≡ p.stock
set_description-stock none p = refl
set_description-stock (some d) p = refl

edit-stock :
    (i : UpdateInput) (p q : Product) → i.stock ≡ none → edit i p ≡ ok q → q.stock ≡ p.stock
unfolding edit
edit-stock i p q none_given h = named (set_name i.name p) refl h
  where
    priced :
        (n : Product) (r : Result Product)
        → set_price i.price (set_description i.description n) ≡ r
        → then_set r (set_stock i.stock) ≡ ok q
        → q.stock ≡ n.stock
    priced n (ok x) e g =
        let kept : x ≡ q = ok_injective x (sym (ap (λ t. set_stock t x) none_given) ∙ g) in
        ap (λ z. z.stock) (sym kept)
        ∙ set_price-stock i.price (set_description i.description n) x e
        ∙ set_description-stock i.description n
      where
        ok_injective : (x : Product) → ok x ≡ ok q → x ≡ q
        ok_injective x k = cc
    priced n (err e) k g = absurd (cc)

    named :
        (r : Result Product)
        → set_name i.name p ≡ r
        → then_set r (λ n.
          then_set (set_price i.price (set_description i.description n)) (set_stock i.stock))
          ≡ ok q
        → q.stock ≡ p.stock
    named (ok n) e g =
        priced n (set_price i.price (set_description i.description n)) refl g
        ∙ set_name-stock i.name p n e
    named (err x) e g = absurd (cc)

live-some :
    (o : Option Product) (p : Product) → live o ≡ some p → (o ≡ some p) × (p.is_deleted ≡ false)
live-some none p h = absurd (cc)
live-some (some r) p h = elim (Bool-cases r.is_deleted) [
  | inl e ↦ absurd (ground arith)
  | inr e ↦ ground arith
]

has_stock-enough :
    (q : ℕ) (p : Product) → p.is_deleted ≡ false → q ≤ p.stock → has_stock q (some p) ≡ true
has_stock-enough q p d h = ground arith

-- The stock after an update of the row.
stock_of-adjust :
    (id : ℕ) (f : Product → Product) (ps : Table Product) (p : Product)
    → lookup id ps ≡ some p
    → stock_of id (adjust id f ps) ≡ (f p).stock
unfolding stock_of
stock_of-adjust id f ps p e = stock_at (lookup-adjust id id f ps ∙ rw (==_refl id, e) refl)
  where
    stock_at :
        lookup id (adjust id f ps) ≡ some (f p)
        → elim (lookup id (adjust id f ps)) [ none ↦ 0 | some r ↦ r.stock ] ≡ (f p).stock
    stock_at h = ap (λ o. elim o [ none ↦ 0 | some r ↦ r.stock ]) h

-- An update that does not set the stock reads a product with `q` units or more; before it writes the
-- row back, an order takes `q` of them, which leaves `q` less. The write then restores the stock that
-- was read, so that the units are both taken by the order and still on sale.
pub update_restores_taken_stock :
    (now later seller id q : ℕ) (i : UpdateInput) (p edited : Product) (db : Db) (s : Shop)
    → find_product id db.products ≡ some p
    → q ≤ p.stock
    → i.stock ≡ none
    → edit i p ≡ ok edited
    → s.products ≡ (try_hold now id q db).1.products
    → ((try_hold now id q db).0 ≡ true)
      × (stock_of id s.products + q ≡ p.stock)
      × (stock_of id (save_edited later seller id (edit i p) s).1.products ≡ p.stock)
unfolding find_product
update_restores_taken_stock now later seller id q i p edited db s read enough none_given e between =
    let row = live-some (lookup id db.products) p read in
    let holds : has_stock q (lookup id db.products) ≡ true =
      ap (has_stock q) row.0 ∙ has_stock-enough q p row.1 enough in
    let held : s.products ≡ held_products now id q db.products = between ∙ rw holds refl in
    let left = ap (stock_of id) held ∙ stock_of-adjust id (take_stock now q) db.products p row.0 in
    let there : lookup id s.products ≡ some (take_stock now q p) =
      ap (lookup id) held
      ∙ lookup-adjust id id (take_stock now q) db.products
      ∙ rw (==_refl id, row.0) refl in
    let saved : Product = record edited { updated_at = later } in
    let back : stock_of id (adjust id (λ _. saved) s.products) ≡ p.stock =
      stock_of-adjust id (λ _. saved) s.products (take_stock now q p) there
      ∙ edit-stock i p edited none_given e in
    (
      rw holds refl,
      omega (arith, left, enough),
      ap (λ r. stock_of id (save_edited later seller id r s).1.products) e ∙ back,
    )
