-- ===== src/Products/Pages.antt =====
-- Keyset pagination: pages neither skip nor repeat a row.
use go_commerce.Base.{
  ℕ, zero, suc, ◌+◌, ◌≤◌, ◌<◌, ◌≡◌, refl, ap, ◌∙◌, Bool, true, false, Option, [], ◌∷◌, ◌++◌, ltb,
  if◌then◌else◌, length, take, where_rows, Bool-cases, inl, inr, ◌⊎◌, arith,
}
use go_commerce.Base.Int.{ℤ, pos, negsuc}
use go_commerce.Store.Table.{Table}
use go_commerce.Store.Models.{Product}
use go_commerce.Orders.Queries.{page_limit, newest_first}
use go_commerce.Products.{
  before, is_listed, listed, list_cursor, ListResult, last_id, page_of, list_products,
}

abbrev Row : Type 0
Row = ℕ × Product

abbrev pub AllBelow : ℕ → Table Product → Type 0
AllBelow k [] = Unit
AllBelow k (r ∷ rs) = (r.0 < k) × AllBelow k rs

abbrev pub AllAbove : ℕ → Table Product → Type 0
AllAbove k [] = Unit
AllAbove k (r ∷ rs) = (k < r.0) × AllAbove k rs

-- Ids grow along the table, as those of a sequence do.
abbrev pub Ascending : Table Product → Type 0
Ascending [] = Unit
Ascending (r ∷ rs) = AllAbove r.0 rs × Ascending rs

abbrev pub Descending : Table Product → Type 0
Descending [] = Unit
Descending (r ∷ rs) = AllBelow r.0 rs × Descending rs

module _ (p : Row → Bool) where
  where-AllAbove : (k : ℕ) (rs : Table Product) → AllAbove k rs → AllAbove k (where_rows p rs)
  where-AllAbove k [] h = tt
  where-AllAbove k (r ∷ rs) h = elim (Bool-cases (p r)) [
    | inl e ↦ rw e (h.0, where-AllAbove k rs h.1)
    | inr e ↦ rw e (where-AllAbove k rs h.1)
  ]

  where-AllBelow : (k : ℕ) (rs : Table Product) → AllBelow k rs → AllBelow k (where_rows p rs)
  where-AllBelow k [] h = tt
  where-AllBelow k (r ∷ rs) h = elim (Bool-cases (p r)) [
    | inl e ↦ rw e (h.0, where-AllBelow k rs h.1)
    | inr e ↦ rw e (where-AllBelow k rs h.1)
  ]

  where-Ascending : (rs : Table Product) → Ascending rs → Ascending (where_rows p rs)
  where-Ascending [] h = tt
  where-Ascending (r ∷ rs) h = elim (Bool-cases (p r)) [
    | inl e ↦ rw e (where-AllAbove r.0 rs h.0, where-Ascending rs h.1)
    | inr e ↦ rw e (where-Ascending rs h.1)
  ]

  where-Descending : (rs : Table Product) → Descending rs → Descending (where_rows p rs)
  where-Descending [] h = tt
  where-Descending (r ∷ rs) h = elim (Bool-cases (p r)) [
    | inl e ↦ rw e (where-AllBelow r.0 rs h.0, where-Descending rs h.1)
    | inr e ↦ rw e (where-Descending rs h.1)
  ]

AllAbove-snoc :
    (k : ℕ) (r : Row) (rs : Table Product) → k < r.0 → AllAbove k rs → AllAbove k (rs ++ r ∷ [])
AllAbove-snoc k r [] e h = (e, tt)
AllAbove-snoc k r (q ∷ qs) e h = (h.0, AllAbove-snoc k r qs e h.1)

AllBelow-snoc :
    (k : ℕ) (r : Row) (rs : Table Product) → r.0 < k → AllBelow k rs → AllBelow k (rs ++ r ∷ [])
AllBelow-snoc k r [] e h = (e, tt)
AllBelow-snoc k r (q ∷ qs) e h = (h.0, AllBelow-snoc k r qs e h.1)

Descending-snoc :
    (r : Row) (rs : Table Product) → AllAbove r.0 rs → Descending rs → Descending (rs ++ r ∷ [])
Descending-snoc r [] a h = (tt, tt)
Descending-snoc r (q ∷ qs) a h = (AllBelow-snoc q.0 r qs a.0 h.0, Descending-snoc r qs a.1 h.1)

AllAbove-newest_first : (k : ℕ) (rs : Table Product) → AllAbove k rs → AllAbove k (newest_first rs)
unfolding newest_first
AllAbove-newest_first k [] h = tt
AllAbove-newest_first k (r ∷ rs) h =
    AllAbove-snoc k r (newest_first rs) h.0 (AllAbove-newest_first k rs h.1)

newest_first-Descending : (rs : Table Product) → Ascending rs → Descending (newest_first rs)
unfolding newest_first
newest_first-Descending [] h = tt
newest_first-Descending (r ∷ rs) h =
    Descending-snoc r (newest_first rs) (AllAbove-newest_first r.0 rs h.0)
      (newest_first-Descending rs h.1)

listed-Descending :
    (user : Option ℕ) (ps : Table Product) → Ascending ps → Descending (listed user ps)
unfolding listed
listed-Descending user ps h = newest_first-Descending _ (where-Ascending (is_listed user) ps h)

below_all : (k : ℕ) (rs : Table Product) → AllBelow k rs → where_rows (λ r. ltb r.0 k) rs ≡ rs
below_all k [] h = refl
below_all k (r ∷ rs) h = ground (arith, below_all k rs h.1, h.0)

last_id-below :
    (k n : ℕ) (r : Row) (rs : Table Product)
    → AllBelow k (r ∷ rs)
    → last_id (take (suc n) (r ∷ rs)) < k
last_id-below k zero r rs h = h.0
last_id-below k (suc n) r [] h = h.0
last_id-below k (suc n) r (q ∷ qs) h = last_id-below k n q qs h.1

-- The rows after the first `n + 1` are those below the last of these.
take-below :
    (n : ℕ) (rs : Table Product)
    → Descending rs
    → n < length rs
    → take (suc n) rs ++ where_rows (λ r. ltb r.0 (last_id (take (suc n) rs))) rs ≡ rs
take-below n [] d h = absurd (omega (arith, h))
take-below zero (r ∷ rs) d h = ground (arith, below_all r.0 rs d.0)
take-below (suc n) (r ∷ []) d h = absurd (omega (arith, h))
take-below (suc n) (r ∷ q ∷ qs) d h =
    let skip : ltb r.0 (last_id (take (suc n) (q ∷ qs))) ≡ false =
      ground (arith, last_id-below r.0 n q qs d.0) in
    rw skip (ap (λ l. r ∷ l) (take-below n (q ∷ qs) d.1 (omega (arith, h))))

take-take : (n : ℕ) (rs : Table Product) → take n (take (suc n) rs) ≡ take n rs
take-take zero rs = refl
take-take (suc n) [] = refl
take-take (suc n) (r ∷ rs) = ap (λ l. r ∷ l) (take-take n rs)

-- Fewer rows than asked for are all there are.
take-short :
    (n : ℕ) (rs : Table Product)
    → ltb n (length (take (suc n) rs)) ≡ false
    → take n (take (suc n) rs) ≡ rs
take-short zero [] h = refl
take-short zero (r ∷ rs) h = absurd (ground arith)
take-short (suc n) [] h = refl
take-short (suc n) (r ∷ rs) h = ap (λ l. r ∷ l) (take-short n rs (ground arith))

take-long : (n : ℕ) (rs : Table Product) → ltb n (length (take (suc n) rs)) ≡ true → n < length rs
take-long n [] h = absurd (ground arith)
take-long zero (r ∷ rs) h = omega arith
take-long (suc n) (r ∷ rs) h =
    let shorter : n < length rs = take-long n rs (ground arith) in omega (arith, shorter)

last_id-positive :
    (n : ℕ) (rs : Table Product) → Descending rs → suc n < length rs → 0 < last_id (take (suc n) rs)
last_id-positive n [] d h = absurd (omega (arith, h))
last_id-positive n (r ∷ []) d h = absurd (omega (arith, h))
last_id-positive zero (r ∷ q ∷ qs) d h = omega (arith, d.0.0)
last_id-positive (suc n) (r ∷ q ∷ qs) d h = last_id-positive n (q ∷ qs) d.1 (omega (arith, h))

before-AllBelow : (c : ℕ) (rs : Table Product) → 0 < c → AllBelow c (where_rows (before c) rs)
before-AllBelow c [] h = tt
before-AllBelow c (r ∷ rs) h = elim (Bool-cases (before c r)) [
  | inl e ↦ rw e (ground arith, before-AllBelow c rs h)
  | inr e ↦ rw e (before-AllBelow c rs h)
]

-- A lower cursor selects of the rows what it selects of those below a higher one.
narrow :
    (k c : ℕ) (rs : Table Product)
    → 0 < k
    → (c ≡ 0) ⊎ (k ≤ c)
    → where_rows (before k) rs ≡ where_rows (λ r. ltb r.0 k) (where_rows (before c) rs)
narrow k c [] h o = refl
narrow k c (r ∷ rs) h o = ground (arith, narrow k c rs h o)

-- The rows of a page, and those that its cursor selects if there are more.
abbrev pub continued : ListResult → Table Product → Table Product
continued page rows =
    if page.has_more then page.items ++ where_rows (before page.next_cursor) rows else page.items

last_id-le : (k n : ℕ) (rs : Table Product) → AllBelow k rs → last_id (take (suc n) rs) ≤ k
last_id-le k n [] h = omega arith
last_id-le k n (r ∷ rs) h = omega (arith, last_id-below k n r rs h)

cursor_bound :
    (m c : ℕ) (rows : Table Product)
    → (c ≡ 0) ⊎ (last_id (take (suc m) (where_rows (before c) rows)) ≤ c)
cursor_bound m zero rows = inl refl
cursor_bound m (suc c) rows =
    inr (last_id-le (suc c) m _ (before-AllBelow (suc c) rows (omega arith)))

page_of-continued :
    (m c : ℕ) (rows : Table Product)
    → Descending (where_rows (before c) rows)
    → continued (page_of (suc m) (take (suc (suc m)) (where_rows (before c) rows))) rows
      ≡ where_rows (before c) rows
unfolding page_of
page_of-continued m c rows d = elim (Bool-cases more) [
  | inl e ↦ rw e (
      rw (take-take (suc m) all) (
        ap (λ l. take (suc m) all ++ l) (narrow k c rows (positive e) bounded)
        ∙ take-below m all d (enough e)))
  | inr e ↦ rw e (take-short (suc m) all e)
]
  where
    all : Table Product
    all = where_rows (before c) rows

    more : Bool
    more = ltb (suc m) (length (take (suc (suc m)) all))

    k : ℕ
    k = last_id (take (suc m) all)

    positive : more ≡ true → 0 < k
    positive e = last_id-positive m all d (take-long (suc m) all e)

    enough : more ≡ true → m < length all
    enough e = let h : suc m < length all = take-long (suc m) all e in omega (arith, h)

    bounded : (c ≡ 0) ⊎ (k ≤ c)
    bounded = cursor_bound m c rows

page_limit-suc : (n : ℤ) → (m : ℕ) × (page_limit n ≡ suc m)
unfolding page_limit
page_limit-suc (pos zero) = (19, refl)
page_limit-suc (negsuc n) = (19, ground arith)
page_limit-suc (pos (suc n)) = elim (Bool-cases (ltb 100 (suc n))) [
  | inl e ↦ (19, ground arith)
  | inr e ↦ (n, ground arith)
]

-- Where ids grow along the table, a page of products (of a user, or of the catalogue) and all that
-- its cursor goes on to select are exactly the listed rows that the page's own cursor selects, in
-- their order, and a page without a next one holds all of these: walking the pages neither skips
-- nor repeats a row, for any limit.
pub pages_continue :
    (user : Option ℕ) (cursor : ℕ) (limit : ℤ) (ps : Table Product)
    → Ascending ps
    → continued (list_products user cursor limit ps) (listed user ps)
      ≡ where_rows (before cursor) (listed user ps)
unfolding list_products list_cursor
pages_continue user cursor limit ps h = with_limit (page_limit limit) (page_limit-suc limit)
  where
    with_limit :
        (l : ℕ)
        → (m : ℕ) × (l ≡ suc m)
        → continued
            (page_of l (take (l + 1) (where_rows (before cursor) (listed user ps))))
            (listed user ps)
          ≡ where_rows (before cursor) (listed user ps)
    with_limit l (m, e) =
        let plus : l + 1 ≡ suc (suc m) = omega (arith, e) in
        rw plus (
          rw e (
            page_of-continued m cursor (listed user ps)
              (where-Descending (before cursor) _ (listed-Descending user ps h))))
