-- ===== src/Tests/Wishes.antt =====
-- Runs of the wishlist.
use go_commerce.Base.{ℕ, ◌≡◌, refl, true, some, List, [], ◌∷◌, arith}
use go_commerce.Base.Text.{codes}
use go_commerce.Domain.Errors.{ok, err, conflict}
use go_commerce.Store.Table.{lookup}
use go_commerce.Products.{find_product}
use go_commerce.Wishlist.{Store, WishlistModel, Item, count_rows, add, remove, count}
use go_commerce.Wishlist.Counts.{
  Request, adds, removes, counts_of, perform_all, Truthful, counts_are_true,
}
use go_commerce.Wishlist.Added.{add_then_remove}
use go_commerce.Tests.{rice}

abbrev wish : WishlistModel
wish = record { user_id = 7; product_id = 2; note = []; created_at = 50 }

abbrev store : Store
store = record {
  rows = (3, wish) ∷ [];
  serial = 4;
  products = (1, rice) ∷ [];
  counts = (7, 1) ∷ [];
  replies = [];
}

store-Truthful : Truthful store
store-Truthful = record { quiet = refl; fresh = λ user n e. cached user n e }
  where
    cached : (user n : ℕ) → lookup user store.counts ≡ some n → n ≡ count_rows user store.rows
    cached user n e = ground arith

abbrev requests : List Request
requests = counts_of 7 ∷ adds 100 7 1 [] ∷ counts_of 7 ∷ removes 7 3 ∷ []

counts_are_true_example :
    (count true 7 (perform_all requests store)).0
    ≡ ok (count_rows 7 (perform_all requests store).rows)
counts_are_true_example = counts_are_true requests 7 store store-Truthful

add_then_remove_example :
    (item : Item) × (t : Store) × (add true 100 7 1 (codes "gift") store ≡ (ok item, t))
    × (item.product_id ≡ 1)
    × ((add true 100 7 1 (codes "gift") t).0 ≡ err conflict)
    × ((remove true 7 item.id t).0 ≡ ok tt)
    × ((remove true 7 item.id t).1.rows ≡ store.rows)
unfolding find_product
add_then_remove_example =
    add_then_remove 100 7 1 (codes "gift") rice store refl (omega arith, tt) refl refl refl
