-- ===== src/Products/Listing.antt =====
-- internal/http/product/service.go: `List` and `Catalog`, with the statement that may fail and the
-- cache of first pages. Each command of Redis and each statement takes one `Reply`; what Redis holds
-- for a page can be decoded.
use go_commerce.Base.{ℕ, Bool, Option, none, some, List, ◌∷◌, ◌==◌, if◌then◌else◌}
use go_commerce.Base.Int.{ℤ}
use go_commerce.Domain.Errors.{Result, ok, err, not_found, internal}
use go_commerce.Domain.Calls.{Call, and_then, return, fails, attempt}
use go_commerce.Store.Table.{Table, lookup}
use go_commerce.Store.Models.{Product}
use go_commerce.Workers.Audit.{Reply, next_reply, other_replies, heard, arrives}
use go_commerce.Products.{ListResult, list_products}

pub record Desk : Type 0 where
  pub products : Table Product
  pub pages : Table ListResult
  pub replies : List Reply

abbrev pub ask : {A : Type 0} → (Desk → Result A) → (Desk → Desk) → Call Desk A
ask f g d =
    let rest = record d { replies = other_replies d.replies } in
    (
      if heard (next_reply d.replies) then f rest else err internal,
      if arrives (next_reply d.replies) then g rest else rest,
    )

abbrev pub or_absent : Option ListResult → Result ListResult
or_absent none = err not_found
or_absent (some r) = ok r

abbrev pub put_page : ℕ → ListResult → Desk → Desk
put_page user r d = record d { pages = (user, r) ∷ d.pages }

-- `has_cache` is `s.cache != nil`.
module _ (has_cache : Bool) where
  unfoldable pub get_cached_first_page : ℕ → Call Desk ListResult
  get_cached_first_page user =
      if has_cache then ask (λ d. or_absent (lookup user d.pages)) (λ d. d) else fails not_found

  unfoldable pub cache_first_page : ℕ → ListResult → Call Desk (Unit {0})
  cache_first_page user r = if has_cache then ask (λ d. ok tt) (put_page user r) else return tt

  -- The statement of `ListByUserCursor` for a user, or of `ListCatalogCursor` for none, and the page
  -- of its rows.
  unfoldable pub list_rows : Option ℕ → ℕ → ℤ → Call Desk ListResult
  unfolding list_products
  list_rows who cursor limit = ask (λ d. ok (list_products who cursor limit d.products)) (λ d. d)

  -- A failure to cache the page is ignored.
  abbrev pub page_missed : ℕ → ℤ → Result ListResult → Call Desk ListResult
  unfolding list_rows cache_first_page
  page_missed user limit (ok r) = return r
  page_missed user limit (err e) =
      and_then (list_rows (some user) 0 limit)
        λ r. and_then (attempt (cache_first_page user r)) (λ _. return r)

  -- `List`
  unfoldable pub list_by_user : ℕ → ℕ → ℤ → Call Desk ListResult
  unfolding get_cached_first_page list_rows cache_first_page
  list_by_user user cursor limit =
      if cursor == 0
      then and_then (attempt (get_cached_first_page user)) (page_missed user limit)
      else list_rows (some user) cursor limit

  -- `List` for a user, `Catalog` for none.
  abbrev pub list_for : Option ℕ → ℕ → ℤ → Call Desk ListResult
  unfolding list_by_user list_rows
  list_for none cursor limit = list_rows none cursor limit
  list_for (some user) cursor limit = list_by_user user cursor limit
