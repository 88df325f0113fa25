-- ===== src/Tests/Selling.antt =====
-- Runs of the products.
use go_commerce.Base.{◌+◌, ◌≡◌, refl, true, none, some, [], ◌∷◌, arith}
use go_commerce.Base.Int.{pos}
use go_commerce.Base.Text.{codes, trim_space}
use go_commerce.Domain.Order.{pending_payment}
use go_commerce.Store.Models.{Product}
use go_commerce.Orders.Stock.{try_hold, stock_of}
use go_commerce.Products.{UpdateInput, Shop, find_product, edit, save_edited, list_cached}
use go_commerce.Products.Handler.{get_page}
use go_commerce.Workers.Audit.{served, unheard}
use go_commerce.Products.Listing.{Desk}
use go_commerce.Products.Bounds.{IsPage, Kept, pages_are_bounded, first_page_ignores_limit}
use go_commerce.Products.Cache.{
  Shelf, Coherent, reads, writes, or_not_found, perform_all, get_by_id, reads_are_current,
}
use go_commerce.Products.Overwrite.{update_restores_taken_stock}
use go_commerce.Tests.{rice, shop}

abbrev rename : UpdateInput
rename = record {
  name = some (codes "red rice");
  description = none;
  price = some (pos 6);
  stock = none;
}

abbrev red_rice : Product
red_rice = record rice { name = codes "red rice"; price = 6 }

abbrev between : Shop
between = record {
  products = (try_hold 100 1 3 (shop pending_payment)).1.products;
  serial = 2;
  requests = [];
}

update_restores_taken_stock_example :
    ((try_hold 100 1 3 (shop pending_payment)).0 ≡ true)
    × (stock_of 1 between.products + 3 ≡ 10)
    × (stock_of 1 (save_edited 101 3 1 (edit rename rice) between).1.products ≡ 10)
unfolding find_product edit trim_space
update_restores_taken_stock_example =
    update_restores_taken_stock 100 101 3 1 3 rename rice red_rice (shop pending_payment) between
      refl (omega arith) refl refl refl

-- The cache has no page, the statement is served, and the answer to the caching is lost.
abbrev desk : Desk
desk = record { products = between.products; pages = []; replies = served ∷ served ∷ unheard ∷ [] }

pages_are_bounded_example :
    IsPage (get_page true (some 3) (codes "") (codes "-5") desk).0
    × Kept desk (get_page true (some 3) (codes "") (codes "-5") desk).1
pages_are_bounded_example =
    pages_are_bounded true (some 3) (codes "") (codes "-5") desk (λ user r e. absurd (ground arith))

first_page_ignores_limit_example :
    (list_cached 3 0 (pos 20) between.products (list_cached 3 0 (pos 1) between.products []).1).0
    ≡ (list_cached 3 0 (pos 1) between.products []).0
first_page_ignores_limit_example =
    first_page_ignores_limit 3 (pos 1) (pos 20) between.products between.products []

abbrev cold : Shelf
cold = record { products = (shop pending_payment).products; cached = []; replies = [] }

cold-Coherent : Coherent cold
cold-Coherent = record { quiet = refl; fresh = λ id p g. absurd (ground arith) }

-- The product is read into the cache, five of its units are taken, and it is read again.
reads_are_current_example :
    (get_by_id 1 (perform_all (reads 1 ∷ writes 0 (λ p. record p { stock = 5 }) ∷ []) cold)).0
    ≡ or_not_found (
        find_product 1
          (perform_all (reads 1 ∷ writes 0 (λ p. record p { stock = 5 }) ∷ []) cold).products)
reads_are_current_example =
    reads_are_current (reads 1 ∷ writes 0 (λ p. record p { stock = 5 }) ∷ []) 1 cold cold-Coherent
