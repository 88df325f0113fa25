-- ===== src/Products/Cache.antt =====
-- internal/http/product/service.go: the cache of single products. Each command of Redis and each
-- statement takes one `Reply`. Redis is configured, and what it holds for a product can be decoded.
use mathlib.Core.Path.{subst}
use go_commerce.Base.{
  ℕ, zero, suc, ◌≡◌, refl, sym, ap, ◌∙◌, true, false, not, Option, none, some, List, [], ◌∷◌, ◌==◌,
  arith, if◌then◌else◌, where_rows, Bool-cases, inl, inr, ==_iff,
}
use go_commerce.Domain.Errors.{Result, ok, err, not_found, internal}
use go_commerce.Domain.Calls.{Call, given, and_then, return, attempt}
use go_commerce.Store.Table.{Table, lookup, adjust, lookup-adjust}
use go_commerce.Store.Models.{Product}
use go_commerce.Workers.Audit.{Reply, next_reply, other_replies, heard, arrives}
use go_commerce.Orders.Create.{live}
use go_commerce.Products.{find_product}

pub record Shelf : Type 0 where
  pub products : Table Product
  pub cached : Table Product
  pub replies : List Reply

abbrev pub request : {A : Type 0} → (Shelf → Result A × Shelf) → Call Shelf A
request f s =
    let rest = record s { replies = other_replies s.replies } in
    (
      if heard (next_reply s.replies) then (f rest).0 else err internal,
      if arrives (next_reply s.replies) then (f rest).1 else rest,
    )

abbrev pub or_not_found : Option Product → Result Product
or_not_found none = err not_found
or_not_found (some p) = ok p

abbrev pub drop_id : ℕ → Table Product → Table Product
drop_id id t = where_rows (λ row. not (row.0 == id)) t

unfoldable pub get_cache : ℕ → Call Shelf Product
get_cache id = request λ s. (or_not_found (lookup id s.cached), s)

unfoldable pub set_cache : ℕ → Product → Call Shelf (Unit {0})
set_cache id p = request λ s. (ok tt, record s { cached = (id, p) ∷ drop_id id s.cached })

unfoldable pub delete_cache : ℕ → Call Shelf (Unit {0})
delete_cache id = request λ s. (ok tt, record s { cached = drop_id id s.cached })

abbrev pub load_row : ℕ → Call Shelf Product
unfolding find_product
load_row id = request λ s. (or_not_found (find_product id s.products), s)

-- A failure to cache the product is ignored.
abbrev pub read_row : ℕ → Call Shelf Product
unfolding set_cache find_product
read_row id = and_then (load_row id) λ p. and_then (attempt (set_cache id p)) (λ _. return p)

abbrev pub missed : ℕ → Result Product → Call Shelf Product
unfolding set_cache find_product
missed id (ok p) = return p
missed id (err e) = read_row id

-- `GetByID`
unfoldable pub get_by_id : ℕ → Call Shelf Product
unfolding get_cache set_cache find_product
get_by_id id = and_then (attempt (get_cache id)) (missed id)

-- `InvalidateProducts`: an error ends the loop.
unfoldable pub invalidate_products : List ℕ → Call Shelf (Unit {0})
unfolding delete_cache
invalidate_products [] = return tt
invalidate_products (zero ∷ ids) = invalidate_products ids
invalidate_products (suc id ∷ ids) = and_then (delete_cache (suc id)) (λ _. invalidate_products ids)

-- A read, or a write of an order to a product that exists, with the invalidation after it.
pub data Access : Type 0 where
  reads : ℕ → Access
  writes : ℕ → (Product → Product) → Access

abbrev pub write_row : ℕ → (Product → Product) → Shelf → Shelf
write_row id f s = record s { products = adjust id f s.products }

unfoldable pub perform : Access → Shelf → Shelf
unfolding get_by_id invalidate_products
perform (reads id) s = (get_by_id id s).1
perform (writes id f) s = (invalidate_products (suc id ∷ []) (write_row (suc id) f s)).1

unfoldable pub perform_all : List Access → Shelf → Shelf
unfolding perform
perform_all [] s = s
perform_all (a ∷ rest) s = perform_all rest (perform a s)

-- Nothing is to fail, and what is cached is what the table holds.
pub record Coherent (s : Shelf) : Type 0 where
  pub quiet : s.replies ≡ []
  pub fresh :
      (id : ℕ) (p : Product) → lookup id s.cached ≡ some p → find_product id s.products ≡ some p

abbrev calm : Shelf → Shelf
calm s = record s { replies = [] }

lookup-drop_id :
    (id other : ℕ) (t : Table Product)
    → lookup other (drop_id id t) ≡ (if id == other then none else lookup other t)
lookup-drop_id id other [] = ground arith
lookup-drop_id id other ((i, p) ∷ t) = ground (arith, lookup-drop_id id other t)

find-other :
    (id other : ℕ) (f : Product → Product) (ps : Table Product)
    → (id == other) ≡ false
    → find_product other (adjust id f ps) ≡ find_product other ps
unfolding find_product
find-other id other f ps e = ap live (lookup-adjust id other f ps ∙ rw e refl)

module _ (s : Shelf) (h : Coherent s) where
  calm-Coherent : Coherent (calm s)
  calm-Coherent = record { quiet = refl; fresh = h.fresh }

  set-Coherent :
      (id : ℕ) (p : Product)
      → find_product id s.products ≡ some p
      → Coherent (record (calm s) { cached = (id, p) ∷ drop_id id s.cached })
  set-Coherent id p e = record {
    quiet = refl;
    fresh = λ other q g. elim (Bool-cases (id == other)) [
      | inl k ↦ there other q ((==_iff id other).0 k) k g
      | inr k ↦ h.fresh other q (ground (arith, lookup-drop_id id other s.cached))
    ];
  }
    where
      there :
          (other : ℕ) (q : Product)
          → id ≡ other
          → (id == other) ≡ true
          → lookup other ((id, p) ∷ drop_id id s.cached) ≡ some q
          → find_product other s.products ≡ some q
      there other q same k g =
          let eq : p ≡ q = ground arith in
          subst (λ i. find_product i s.products ≡ some q) same (e ∙ ap (λ x. some x) eq)

  read-Coherent : (id : ℕ) → Coherent (get_by_id id (calm s)).1
  unfolding get_by_id get_cache set_cache
  read-Coherent id = by_cache (lookup id s.cached)
    where
      by_row :
          (o : Option Product)
          → find_product id s.products ≡ o
          → Coherent
              (given
                (or_not_found o, calm s)
                (λ p. and_then (attempt (set_cache id p)) (λ _. return p))).1
      by_row none e = calm-Coherent
      by_row (some p) e = set-Coherent id p e

      by_cache : (o : Option Product) → Coherent (missed id (or_not_found o) (calm s)).1
      by_cache none = by_row (find_product id s.products) refl
      by_cache (some p) = calm-Coherent

  write-Coherent :
      (id : ℕ) (f : Product → Product)
      → Coherent (invalidate_products (suc id ∷ []) (write_row (suc id) f (calm s))).1
  unfolding invalidate_products delete_cache
  write-Coherent id f = record {
    quiet = refl;
    fresh = λ other q g. elim (Bool-cases (suc id == other)) [
      | inl k ↦ absurd (ground (arith, lookup-drop_id (suc id) other s.cached))
      | inr k ↦
          find-other (suc id) other f s.products k
          ∙ h.fresh other q (ground (arith, lookup-drop_id (suc id) other s.cached))
    ];
  }

  read-row : (id : ℕ) → (get_by_id id (calm s)).0 ≡ or_not_found (find_product id s.products)
  unfolding get_by_id get_cache set_cache
  read-row id = by_cache (lookup id s.cached) refl
    where
      by_row :
          (o : Option Product)
          → (given
              (or_not_found o, calm s)
              (λ p. and_then (attempt (set_cache id p)) (λ _. return p))).0
            ≡ or_not_found o
      by_row none = refl
      by_row (some p) = refl

      by_cache :
          (o : Option Product)
          → lookup id s.cached ≡ o
          → (missed id (or_not_found o) (calm s)).0 ≡ or_not_found (find_product id s.products)
      by_cache none e = by_row (find_product id s.products)
      by_cache (some p) e = sym (ap or_not_found (h.fresh id p e))

quiet-calm : (s : Shelf) → s.replies ≡ [] → calm s ≡ s
quiet-calm s q = ap (λ r. record s { replies = r }) (sym q)

perform-Coherent : (a : Access) (s : Shelf) → Coherent s → Coherent (perform a s)
unfolding perform
perform-Coherent (reads id) s h =
    subst (λ t. Coherent (get_by_id id t).1) (quiet-calm s h.quiet) (read-Coherent s h id)
perform-Coherent (writes id f) s h =
    subst (λ t. Coherent (invalidate_products (suc id ∷ []) (write_row (suc id) f t)).1)
      (quiet-calm s h.quiet) (write-Coherent s h id f)

perform_all-Coherent : (rs : List Access) (s : Shelf) → Coherent s → Coherent (perform_all rs s)
unfolding perform_all
perform_all-Coherent [] s h = h
perform_all-Coherent (a ∷ rs) s h = perform_all-Coherent rs (perform a s) (perform-Coherent a s h)

-- From a shelf whose cached products are those of the table, after any sequence of reads of single
-- products and of writes to a row with the invalidation of its cache entry, one after the other and
-- with no command or statement failing, a read answers the product that the table holds, or not
-- found where it holds none, from the cache or not.
pub reads_are_current :
    (rs : List Access) (id : ℕ) (s : Shelf)
    → Coherent s
    → (get_by_id id (perform_all rs s)).0
      ≡ or_not_found (find_product id (perform_all rs s).products)
reads_are_current rs id s h =
    let t = perform_all rs s in
    let k = perform_all-Coherent rs s h in
    subst (λ x. (get_by_id id x).0 ≡ or_not_found (find_product id t.products))
      (quiet-calm t k.quiet) (read-row t k id)
