-- ===== src/Wishlist/Counts.antt =====
-- The cached counts while no statement and no command fails.
use mathlib.Core.Path.{subst}
use go_commerce.Base.{
  ℕ, ◌+◌, ◌≡◌, refl, sym, ap, ◌∙◌, Bool, true, false, not, Option, none, some, List, [], ◌∷◌, arith,
  ◌==◌, if◌then◌else◌, where_rows, first_row, is_some, Bool-cases, inl, inr, ==_iff,
}
use go_commerce.Base.Text.{Text, trim_space}
use go_commerce.Domain.Errors.{Result, ok, err, not_found}
use go_commerce.Domain.Calls.{given, return}
use go_commerce.Store.Table.{Table, insert, lookup}
use go_commerce.Store.Models.{Product}
use go_commerce.Orders.Queries.{newest_first}
use go_commerce.Products.{find_product}
use go_commerce.Wishlist.{
  Store, WishlistModel, Item, has_item, create, is_of, list_by_user, is_owned, delete_item,
  count_rows, count_by_user, found_product, load_product, drop_count, invalidate_count_cache,
  add_found, add, remove, count_missed, count, item_of, items_of, list, invalidated, new_row,
}

-- What the handlers ask of the service.
pub data Request : Type 0 where
  adds : ℕ → ℕ → ℕ → Text → Request
  removes : ℕ → ℕ → Request
  lists_of counts_of : ℕ → Request

unfoldable pub perform : Request → Store → Store
unfolding add remove list count
perform (adds now user product note) s = (add true now user product note s).1
perform (removes user id) s = (remove true user id s).1
perform (lists_of user) s = (list user s).1
perform (counts_of user) s = (count true user s).1

unfoldable pub perform_all : List Request → Store → Store
unfolding perform
perform_all [] s = s
perform_all (r ∷ rs) s = perform_all rs (perform r s)

-- Nothing is to fail, and a cached count is the number of the user's rows.
pub record Truthful (s : Store) : Type 0 where
  pub quiet : s.replies ≡ []
  pub fresh : (user n : ℕ) → lookup user s.counts ≡ some n → n ≡ count_rows user s.rows

-- The cached counts of the users other than `user` are true.
abbrev TruthfulBut : ℕ → Store → Type 0
TruthfulBut user s =
    (other n : ℕ)
    → (user == other) ≡ false
    → lookup other s.counts ≡ some n
    → n ≡ count_rows other s.rows

lookup-drop_count :
    (user other : ℕ) (counts : Table ℕ)
    → lookup other (drop_count user counts) ≡ (if user == other then none else lookup other counts)
lookup-drop_count user other [] = ground arith
lookup-drop_count user other ((u, n) ∷ counts) = ground (arith, lookup-drop_count user other counts)

count_rows-insert :
    (user id : ℕ) (row : WishlistModel) (rows : Table WishlistModel)
    → (row.user_id == user) ≡ false
    → count_rows user (insert id row rows) ≡ count_rows user rows
count_rows-insert user id row [] e = rw e refl
count_rows-insert user id row ((i, r) ∷ rows) e =
    ground (arith, count_rows-insert user id row rows e)

count_rows-delete :
    (user id other : ℕ) (rows : Table WishlistModel)
    → (user == other) ≡ false
    → count_rows other (where_rows (λ row. not (is_owned user id row)) rows) ≡ count_rows other rows
count_rows-delete user id other [] e = refl
count_rows-delete user id other ((i, r) ∷ rows) e =
    ground (arith, count_rows-delete user id other rows e)

-- The state with no failures to come.
abbrev pub calm : Store → Store
calm s = record s { replies = [] }

dropped :
    (user : ℕ) (s : Store)
    → TruthfulBut user s
    → Truthful (calm (record s { counts = drop_count user s.counts }))
dropped user s h = record {
  quiet = refl;
  fresh = λ other n e. elim (Bool-cases (user == other)) [
    | inl q ↦ absurd (ground (arith, lookup-drop_count user other s.counts))
    | inr q ↦ h other n q (ground (arith, lookup-drop_count user other s.counts))
  ];
}

where-none :
    {A : Type 0} (p : A → Bool) (rows : List A)
    → is_some (first_row p rows) ≡ false
    → where_rows (λ row. not (p row)) rows ≡ rows
where-none p [] e = refl
where-none p (x ∷ rows) e = elim (Bool-cases (p x)) [
  | inl q ↦ absurd (ground arith)
  | inr q ↦ rw q (ap (λ r. x ∷ r) (where-none p rows (ground arith)))
]

items_of-calm : (s : Store) (rows : Table WishlistModel) → (items_of rows (calm s)).1 ≡ calm s
unfolding load_product
items_of-calm s [] = refl
items_of-calm s ((id, row) ∷ rows) = rest (items_of rows (calm s)) (items_of-calm s rows)
  where
    rest :
        (r : Result (List Item) × Store)
        → r.1 ≡ calm s
        → (given {B = List Item} r (λ items.
            return
              (item_of id row (found_product (find_product row.product_id s.products)) ∷ items))).1
          ≡ calm s
    rest (ok items, t) e = e
    rest (err x, t) e = e

module _ (s : Store) (h : Truthful s) where
  invalidated-Truthful :
      {A : Type 0} (user : ℕ) (rows : Table WishlistModel) (serial : ℕ) (a : A)
      → ((other : ℕ) → (user == other) ≡ false → count_rows other rows ≡ count_rows other s.rows)
      → Truthful (invalidated true user a (calm (record s { rows = rows; serial = serial }))).1
  unfolding invalidate_count_cache
  invalidated-Truthful user rows serial a same =
      dropped user (record s { rows = rows; serial = serial })
        (λ other n q e. h.fresh other n e ∙ sym (same other q))

  calm-Truthful : Truthful (calm s)
  calm-Truthful = record { quiet = refl; fresh = h.fresh }

  create-Truthful :
      (now user product : ℕ) (note : Text) (p : Product)
      → Truthful (add_found true now user product note p (calm s)).1
  unfolding create invalidate_count_cache trim_space
  create-Truthful now user product note p =
      let row = new_row now user product note in
      elim (Bool-cases (has_item user product s.rows)) [
        | inl e ↦ rw e calm-Truthful
        | inr e ↦ rw e (
            invalidated-Truthful user (insert s.serial row s.rows) (s.serial + 1) tt
              (λ other q. count_rows-insert other s.serial row s.rows q))
      ]

  add-Truthful :
      (now user product : ℕ) (note : Text) → Truthful (add true now user product note (calm s)).1
  unfolding add load_product
  add-Truthful now user product note = elim (Bool-cases (product == 0)) [
    | inl e ↦ rw e calm-Truthful
    | inr e ↦ rw e (found (found_product _))
  ]
    where
      found :
          (r : Result Product)
          → Truthful (given (r, calm s) (add_found true now user product note)).1
      found (ok p) = create-Truthful now user product note p
      found (err e) = calm-Truthful

  remove-Truthful : (user id : ℕ) → Truthful (remove true user id (calm s)).1
  unfolding remove delete_item invalidate_count_cache
  remove-Truthful user id = elim (Bool-cases (is_some (first_row (is_owned user id) s.rows))) [
    | inl e ↦ rw e (
        invalidated-Truthful user (where_rows (λ row. not (is_owned user id row)) s.rows) s.serial
          tt (λ other q. count_rows-delete user id other s.rows q))
    | inr e ↦ rw (e, where-none (is_owned user id) s.rows e) calm-Truthful
  ]

  list-Truthful : (user : ℕ) → Truthful (list user (calm s)).1
  unfolding list list_by_user
  list-Truthful user =
      subst Truthful (sym (items_of-calm s (newest_first (where_rows (is_of user) s.rows))))
        calm-Truthful

  cache_count-Truthful :
      (user : ℕ)
      → Truthful
          (record (calm s) { counts = (user, count_rows user s.rows) ∷ drop_count user s.counts })
  cache_count-Truthful user = record {
    quiet = refl;
    fresh = λ other n e. elim (Bool-cases (user == other)) [
      | inl q ↦ ground (arith, ==_iff user other)
      | inr q ↦ h.fresh other n (ground (arith, lookup-drop_count user other s.counts))
    ];
  }

  count-true :
      (user : ℕ)
      → Truthful (count true user (calm s)).1
        × ((count true user (calm s)).0 ≡ ok (count_rows user s.rows))
  unfolding count count_by_user
  count-true user = cached (lookup user s.counts) refl
    where
      cached :
          (o : Option ℕ)
          → lookup user s.counts ≡ o
          → Truthful
              (count_missed true user (elim o [ none ↦ err not_found | some n ↦ ok n ]) (calm s)).1
            × ((count_missed true user (elim o [ none ↦ err not_found | some n ↦ ok n ]) (calm s)).0
                ≡ ok (count_rows user s.rows))
      cached none e = (cache_count-Truthful user, refl)
      cached (some n) e = (calm-Truthful, ap (λ m. ok m) (h.fresh user n e))

pub quiet-calm : (s : Store) → s.replies ≡ [] → calm s ≡ s
quiet-calm s q = ap (λ r. record s { replies = r }) (sym q)

perform-Truthful : (r : Request) (s : Store) → Truthful s → Truthful (perform r s)
unfolding perform
perform-Truthful (adds now user product note) s h =
    subst (λ t. Truthful (add true now user product note t).1) (quiet-calm s h.quiet)
      (add-Truthful s h now user product note)
perform-Truthful (removes user id) s h =
    subst (λ t. Truthful (remove true user id t).1) (quiet-calm s h.quiet)
      (remove-Truthful s h user id)
perform-Truthful (lists_of user) s h =
    subst (λ t. Truthful (list user t).1) (quiet-calm s h.quiet) (list-Truthful s h user)
perform-Truthful (counts_of user) s h =
    subst (λ t. Truthful (count true user t).1) (quiet-calm s h.quiet) (count-true s h user).0

perform_all-Truthful : (rs : List Request) (s : Store) → Truthful s → Truthful (perform_all rs s)
unfolding perform_all
perform_all-Truthful [] s h = h
perform_all-Truthful (r ∷ rs) s h = perform_all-Truthful rs (perform r s) (perform-Truthful r s h)

-- From a store whose cached counts are true, after any sequence of requests to the wishlists in
-- which no statement and no command fails, the count that is answered for a user, from the cache or
-- not, is the number of the user's rows.
pub counts_are_true :
    (rs : List Request) (user : ℕ) (s : Store)
    → Truthful s
    → (count true user (perform_all rs s)).0 ≡ ok (count_rows user (perform_all rs s).rows)
counts_are_true rs user s h =
    let t = perform_all rs s in
    let k = perform_all-Truthful rs s h in
    subst (λ x. (count true user x).0 ≡ ok (count_rows user t.rows)) (quiet-calm t k.quiet)
      (count-true t k user).1
