-- ===== src/Products/Bounds.antt =====
-- How much a page holds, and what the cache of first pages answers.
use mathlib.Core.Path.{subst}
use go_commerce.Base.{
  ℕ, ◌+◌, ◌≤◌, ◌≡◌, refl, sym, ap, ◌∙◌, ◌⊎◌, inl, inr, Bool, true, false, Bool-cases, Option, none,
  some, ◌∷◌, arith, length, length-take, ◌==◌, ==_refl, if◌then◌else◌,
}
use go_commerce.Base.Int.{ℤ, pos, negsuc}
use go_commerce.Base.Text.{Text}
use go_commerce.Domain.Errors.{Result, ok, err, internal, validation_error, error_code}
use go_commerce.Domain.Calls.{given, and_then, return, attempt}
use go_commerce.Workers.Audit.{
  Reply, served, unsent, unheard, stopped, next_reply, other_replies, heard, arrives,
}
use go_commerce.Store.Table.{Table, lookup}
use go_commerce.Store.Models.{Product}
use go_commerce.Orders.Queries.{page_limit}
use go_commerce.Web.{Response, success, failure, with_param, responds}
use go_commerce.Products.{list_cached, ListResult, page_of, list_cursor, list_products}
use go_commerce.Products.Listing.{
  Desk, ask, or_absent, put_page, get_cached_first_page, cache_first_page, list_rows, page_missed,
  list_by_user, list_for,
}
use go_commerce.Products.Handler.{product_error, Page, page_with, parse_cursor, query_int, get_page}

page_limit-bounds : (n : ℤ) → page_limit n ≤ 100
unfolding page_limit
page_limit-bounds (pos n) = ground arith
page_limit-bounds (negsuc n) = ground arith

list_products-bounds :
    (who : Option ℕ) (cursor : ℕ) (limit : ℤ) (ps : Table Product)
    → length (list_products who cursor limit ps).items ≤ 100
unfolding list_products page_of
list_products-bounds who cursor limit ps = omega (
  arith,
  length-take {0} (page_limit limit) (list_cursor who cursor (page_limit limit + 1) ps),
  page_limit-bounds limit,
)

-- No cached page has more than 100 products.
abbrev pub SmallPages : Table ListResult → Type 0
SmallPages pages = (user : ℕ) (r : ListResult) → lookup user pages ≡ some r → length r.items ≤ 100

-- A refusal of the parameters, a failure of the database, or a page of at most 100 products.
abbrev pub IsPage : Response Page → Type 0
IsPage (success status p) = (status ≡ 200) × (length p.items ≤ 100)
IsPage (failure status code) =
    ((status ≡ 400) × (code ≡ some validation_error))
    ⊎ ((status ≡ 500) × (code ≡ some (error_code internal)))

-- What a listing leaves of the products and of the cache.
pub record Kept (before after : Desk) : Type 0 where
  pub products : after.products ≡ before.products
  pub pages : SmallPages after.pages

Kept-trans : {d e f : Desk} → Kept d e → Kept e f → Kept d f
Kept-trans h k = record { products = k.products ∙ h.products; pages = k.pages }

-- A page of at most 100 products, or the error of a statement that failed.
abbrev IsListed : Result ListResult → Type 0
IsListed (ok r) = length r.items ≤ 100
IsListed (err e) = e ≡ internal

-- A cached page has at most 100 products.
abbrev IsCached : Result ListResult → Type 0
IsCached (ok r) = length r.items ≤ 100
IsCached (err e) = Unit

ask-Kept :
    {A : Type 0} (P : Result A → Type 0) (f : Desk → Result A) (g : Desk → Desk) (d : Desk)
    → P (f (record d { replies = other_replies d.replies }))
    → P (err internal)
    → Kept d (g (record d { replies = other_replies d.replies }))
    → SmallPages d.pages
    → P (ask f g d).0 × Kept d (ask f g d).1
ask-Kept P f g d p q k h = by_reply (next_reply d.replies)
  where
    rest : Desk
    rest = record d { replies = other_replies d.replies }

    unchanged : Kept d rest
    unchanged = record { products = refl; pages = h }

    by_reply :
        (reply : Reply)
        → P (if heard reply then f rest else err internal)
          × Kept d (if arrives reply then g rest else rest)
    by_reply served = (p, k)
    by_reply unsent = (q, unchanged)
    by_reply unheard = (q, k)
    by_reply stopped = (q, unchanged)

list_rows-Kept :
    (has_cache : Bool) (who : Option ℕ) (cursor : ℕ) (limit : ℤ) (d : Desk)
    → SmallPages d.pages
    → IsListed (list_rows has_cache who cursor limit d).0
      × Kept d (list_rows has_cache who cursor limit d).1
unfolding list_rows
list_rows-Kept has_cache who cursor limit d h =
    ask-Kept IsListed (λ e. ok (list_products who cursor limit e.products)) (λ e. e) d
      (list_products-bounds who cursor limit d.products) refl
      (record { products = refl; pages = h }) h

get_cached_first_page-Kept :
    (has_cache : Bool) (user : ℕ) (d : Desk)
    → SmallPages d.pages
    → IsCached (get_cached_first_page has_cache user d).0
      × Kept d (get_cached_first_page has_cache user d).1
unfolding get_cached_first_page
get_cached_first_page-Kept false user d h = (tt, record { products = refl; pages = h })
get_cached_first_page-Kept true user d h =
    ask-Kept IsCached (λ e. or_absent (lookup user e.pages)) (λ e. e) d
      (cached (lookup user d.pages) refl) tt (record { products = refl; pages = h }) h
  where
    cached : (o : Option ListResult) → lookup user d.pages ≡ o → IsCached (or_absent o)
    cached none e = tt
    cached (some r) e = h user r e

put_page-SmallPages :
    (user : ℕ) (r : ListResult) (d : Desk)
    → length r.items ≤ 100
    → SmallPages d.pages
    → SmallPages (put_page user r d).pages
put_page-SmallPages user r d n h other q e = elim (Bool-cases (user == other)) [
  | inl k ↦ let same : r ≡ q = ground arith in subst (λ x. length x.items ≤ 100) same n
  | inr k ↦ h other q (ground arith)
]

cache_first_page-Kept :
    (has_cache : Bool) (user : ℕ) (r : ListResult) (d : Desk)
    → length r.items ≤ 100
    → SmallPages d.pages
    → Kept d (cache_first_page has_cache user r d).1
unfolding cache_first_page
cache_first_page-Kept false user r d n h = record { products = refl; pages = h }
cache_first_page-Kept true user r d n h =
    (ask-Kept {A = Unit {0}} (λ _. Unit {0}) (λ e. ok tt) (put_page user r) d tt tt
      (record { products = refl; pages = put_page-SmallPages user r d n h }) h).1

module _ (has_cache : Bool) where
  page_missed-Kept :
      (user : ℕ) (limit : ℤ) (r : Result ListResult) (d : Desk)
      → IsCached r
      → SmallPages d.pages
      → IsListed (page_missed has_cache user limit r d).0
        × Kept d (page_missed has_cache user limit r d).1
  unfolding list_rows cache_first_page
  page_missed-Kept user limit (ok r) d n h = (n, record { products = refl; pages = h })
  page_missed-Kept user limit (err e) d n h =
      let k = list_rows-Kept has_cache (some user) 0 limit d h in
      listed (list_rows has_cache (some user) 0 limit d) k.0 k.1
    where
      listed :
          (m : Result ListResult × Desk)
          → IsListed m.0
          → Kept d m.1
          → IsListed
              (given m
                λ r. and_then (attempt (cache_first_page has_cache user r)) (λ _. return r)).0
            × Kept d
                (given m
                  λ r. and_then (attempt (cache_first_page has_cache user r)) (λ _. return r)).1
      listed (ok r, t) b k = (b, Kept-trans k (cache_first_page-Kept has_cache user r t b k.pages))
      listed (err x, t) b k = (b, k)

  list_for-Kept :
      (who : Option ℕ) (cursor : ℕ) (limit : ℤ) (d : Desk)
      → SmallPages d.pages
      → IsListed (list_for has_cache who cursor limit d).0
        × Kept d (list_for has_cache who cursor limit d).1
  unfolding list_by_user list_rows get_cached_first_page cache_first_page
  list_for-Kept none cursor limit d h = list_rows-Kept has_cache none cursor limit d h
  list_for-Kept (some user) cursor limit d h = elim (Bool-cases (cursor == 0)) [
    | inl e ↦
        let c = get_cached_first_page-Kept has_cache user d h in
        let m =
          page_missed-Kept user limit (get_cached_first_page has_cache user d).0
            (get_cached_first_page has_cache user d).1 c.0 c.1.pages in
        rw e (m.0, Kept-trans c.1 m.1)
    | inr e ↦ rw e (list_rows-Kept has_cache (some user) cursor limit d h)
  ]

-- Where no cached page has more than 100 products: whatever texts the query gives for the cursor and
-- the limit, whoever lists, and however Redis and the database answer, the response is a refusal
-- with 400 and the code of a validation error, a 500 with the code of an internal error, or a page
-- of at most 100 products. The products are left as they were, and no cached page has more than 100
-- products afterwards.
pub pages_are_bounded :
    (has_cache : Bool) (who : Option ℕ) (cursor limit : Text) (d : Desk)
    → SmallPages d.pages
    → IsPage (get_page has_cache who cursor limit d).0
      × Kept d (get_page has_cache who cursor limit d).1
unfolding get_page product_error error_code list_by_user list_rows
pages_are_bounded has_cache who cursor limit d h = paged (parse_cursor cursor)
  where
    answer : Result ListResult × Desk → Response Page × Desk
    answer m =
        responds 200 product_error (given m (λ r. return (page_with (query_int limit (pos 20)) r)))

    listed :
        (m : Result ListResult × Desk)
        → IsListed m.0 × Kept d m.1
        → IsPage (answer m).0 × Kept d (answer m).1
    listed (ok r, t) k = ((refl, k.0), k.1)
    listed (err e, t) k = (subst (λ x. IsPage (product_error x)) (sym k.0) (inr (refl, refl)), k.1)

    paged :
        (o : Option ℕ)
        → IsPage
            (with_param o
              (some validation_error)
              (λ c t. answer (list_for has_cache who c (query_int limit (pos 20)) t))
              d).0
          × Kept d
              (with_param o
                (some validation_error)
                (λ c t. answer (list_for has_cache who c (query_int limit (pos 20)) t))
                d).1
    paged none = (inl (refl, refl), record { products = refl; pages = h })
    paged (some c) =
        listed (list_for has_cache who c (query_int limit (pos 20)) d)
          (list_for-Kept has_cache who c (query_int limit (pos 20)) d h)

-- While a user's first page is cached, a request for it with any limit, whatever the products are by
-- then, is answered with the page that an earlier request with another limit made.
pub first_page_ignores_limit :
    (user : ℕ) (earlier later : ℤ) (ps qs : Table Product) (pages : Table ListResult)
    → (list_cached user 0 later qs (list_cached user 0 earlier ps pages).1).0
      ≡ (list_cached user 0 earlier ps pages).0
unfolding list_cached
first_page_ignores_limit user earlier later ps qs pages = cached (lookup user pages) refl
  where
    new : ListResult
    new = list_products (some user) 0 earlier ps

    first : Option ListResult → ListResult × Table ListResult
    first o = elim o [ some r ↦ (r, pages) | none ↦ (new, (user, new) ∷ pages) ]

    second : Table ListResult → Option ListResult → ListResult × Table ListResult
    second t o = elim o [
      | some r ↦ (r, t)
      | none ↦
          (list_products (some user) 0 later qs, (user, list_products (some user) 0 later qs) ∷ t)
    ]

    hit :
        (t : Table ListResult) (r : ListResult)
        → lookup user t ≡ some r
        → (second t (lookup user t)).0 ≡ r
    hit t r e = ap (λ o. (second t o).0) e

    put : lookup user ((user, new) ∷ pages) ≡ some new
    put = rw (==_refl user) refl

    cached :
        (o : Option ListResult)
        → lookup user pages ≡ o
        → (second (first o).1 (lookup user (first o).1)).0 ≡ (first o).0
    cached none e = hit ((user, new) ∷ pages) new put
    cached (some r) e = hit pages r e
