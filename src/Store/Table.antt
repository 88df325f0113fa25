-- ===== src/Store/Table.antt =====
-- A table by its primary key, and the statements that read and write one row by that key.
use mathlib.Core.Option
use go_commerce.Base.{
  ℕ, ◌≡◌, refl, Option, none, some, List, [], ◌∷◌, ◌++◌, arith, ◌==◌, if◌then◌else◌,
}

abbrev pub Table : Type 0 → Type 0
Table R = List (ℕ × R)

module _ {R : Type 0} where
  -- `SELECT … WHERE id = k`
  abbrev pub lookup : ℕ → Table R → Option R
  lookup k [] = none
  lookup k ((j, r) ∷ t) = if j == k then some r else lookup k t

  -- `UPDATE … SET f WHERE id = k`
  abbrev pub adjust : ℕ → (R → R) → Table R → Table R
  adjust k f [] = []
  adjust k f ((j, r) ∷ t) = if j == k then (j, f r) ∷ t else (j, r) ∷ adjust k f t

  -- `INSERT` under a new key.
  abbrev pub insert : ℕ → R → Table R → Table R
  insert k r t = t ++ (k, r) ∷ []

  pub lookup-adjust :
      (k j : ℕ) (f : R → R) (t : Table R)
      → lookup j (adjust k f t) ≡ (if k == j then Option.map f (lookup j t) else lookup j t)
  lookup-adjust k j f [] = ground arith
  lookup-adjust k j f ((i, r) ∷ t) = ground (arith, lookup-adjust k j f t)

  pub lookup-insert :
      (k j : ℕ) (r : R) (t : Table R)
      → lookup j (insert k r t)
        ≡ elim (lookup j t) [ some q ↦ some q | none ↦ if k == j then some r else none ]
  lookup-insert k j r [] = refl
  lookup-insert k j r ((i, q) ∷ t) = ground (arith, lookup-insert k j r t)

  -- Every key is below the next value of the table's sequence.
  abbrev pub Below : ℕ → Table R → Type 0
  Below n [] = Unit
  Below n ((k, r) ∷ t) = (Prim.Native.Nat.◌<◌ k n) × Below n t
