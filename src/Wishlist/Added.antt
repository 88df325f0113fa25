-- ===== src/Wishlist/Added.antt =====
-- Adding a product and removing it again.
use go_commerce.Base.{
  ℕ, ◌+◌, ◌≡◌, refl, sym, ap, ◌∙◌, Bool, true, false, not, ◌||◌, some, List, [], ◌∷◌, ◌++◌, arith,
  ◌==◌, where_rows, first_row, is_some, ==_refl,
}
use go_commerce.Base.Text.{Text, trim_space}
use go_commerce.Domain.Errors.{ok, err, conflict}
use go_commerce.Domain.Calls.{given}
use go_commerce.Store.Table.{Table, insert, Below}
use go_commerce.Store.Models.{Product}
use go_commerce.Products.{find_product}
use go_commerce.Wishlist.{
  Store, WishlistModel, Item, same_item, has_item, create, is_owned, delete_item, load_product,
  found_product, drop_count, invalidate_count_cache, add_found, to_item, add, remove, new_row,
}
use go_commerce.Wishlist.Counts.{calm, quiet-calm}

is_some-append :
    {A : Type 0} (p : A → Bool) (rows : List A) (x : A)
    → is_some (first_row p (rows ++ x ∷ [])) ≡ is_some (first_row p rows) || p x
is_some-append p [] x = ground arith
is_some-append p (y ∷ rows) x = ground (arith, is_some-append p rows x)

-- Nothing but the new row goes.
where-insert :
    (user : ℕ) (id : ℕ) (row : WishlistModel) (rows : Table WishlistModel)
    → Below id rows
    → (row.user_id == user) ≡ true
    → where_rows (λ r. not (is_owned user id r)) (insert id row rows) ≡ rows
where-insert user id row [] h e = rw (e, ==_refl id) refl
where-insert user id row ((i, r) ∷ rows) h e =
    let low : (i == id) ≡ false = ground (arith, h.0) in
    rw low (ap (λ t. (i, r) ∷ t) (where-insert user id row rows h.1 e))

module _ (now user product : ℕ) (note : Text) (p : Product) (s : Store)
    (below : Below s.serial s.rows) (positive : (product == 0) ≡ false)
    (exists : find_product product s.products ≡ some p)
    (fresh : has_item user product s.rows ≡ false) where
  add-found :
      (t : Store)
      → find_product product t.products ≡ some p
      → add true now user product note (calm t) ≡ add_found true now user product note p (calm t)
  unfolding add load_product
  add-found t e =
      rw (positive)
        (ap (λ o. given (found_product o, calm t) (add_found true now user product note)) e)

  abbrev row : WishlistModel
  unfolding trim_space
  row = new_row now user product note

  abbrev after : Store
  unfolding trim_space
  after = calm (record s {
    rows = insert s.serial row s.rows;
    serial = s.serial + 1;
    counts = drop_count user s.counts;
  })

  add-run :
      add true now user product note (calm s) ≡ (ok (to_item s.serial row p.name p.price), after)
  unfolding create invalidate_count_cache trim_space
  add-run = add-found s exists ∙ rw fresh refl

  add-again : (add true now user product note after).0 ≡ err conflict
  unfolding create invalidate_count_cache trim_space
  add-again =
      let here : has_item user product (insert s.serial row s.rows) ≡ true =
        is_some-append (same_item user product) s.rows (s.serial, row)
        ∙ rw (fresh, ==_refl user, ==_refl product) refl in
      ap (λ r. r.0) (add-found after exists) ∙ rw here refl

  remove-run :
      ((remove true user s.serial after).0 ≡ ok tt)
      × ((remove true user s.serial after).1.rows ≡ s.rows)
  unfolding remove delete_item invalidate_count_cache trim_space
  remove-run =
      let here : is_some (first_row (is_owned user s.serial) (insert s.serial row s.rows)) ≡ true =
        is_some-append (is_owned user s.serial) s.rows (s.serial, row)
        ∙ rw (==_refl s.serial, ==_refl user) (or_true _) in
      let gone = where-insert user s.serial row s.rows below (==_refl user) in
      (rw here refl, rw here gone)
    where
      or_true : (b : Bool) → (b || true) ≡ true
      or_true true = refl
      or_true false = refl

-- Where no statement and no command fails: adding an existing product that is not yet in the user's
-- list, to a table whose ids are below the sequence, answers the item; adding it again is answered
-- with a conflict; and removing the item that was answered succeeds and gives the table back.
pub add_then_remove :
    (now user product : ℕ) (note : Text) (p : Product) (s : Store)
    → s.replies ≡ []
    → Below s.serial s.rows
    → (product == 0) ≡ false
    → find_product product s.products ≡ some p
    → has_item user product s.rows ≡ false
    → (item : Item) × (t : Store) × (add true now user product note s ≡ (ok item, t))
      × (item.product_id ≡ product)
      × ((add true now user product note t).0 ≡ err conflict)
      × ((remove true user item.id t).0 ≡ ok tt)
      × ((remove true user item.id t).1.rows ≡ s.rows)
unfolding row trim_space
add_then_remove now user product note p s quiet below positive exists fresh =
    let gone = remove-run now user product note p s below positive exists fresh in
    (
      to_item s.serial (new_row now user product note) p.name p.price,
      after now user product note p s below positive exists fresh,
      ap (λ t. add true now user product note t) (sym (quiet-calm s quiet))
          ∙ add-run now user product note p s below positive exists fresh,
      refl,
      add-again now user product note p s below positive exists fresh,
      gone.0,
      gone.1,
    )
