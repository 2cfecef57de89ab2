-- ===== src/Prelude/Sort.antt =====
-- ORDER BY: a stable insertion sort by a strict comparison.
use mathlib.Core.Path.{◌≡◌, refl}
use mathlib.Core.Bool.{Bool, true, false}
use mathlib.Core.Logic.{inl, inr}
use mathlib.Core.List.{List, [], ◌∷◌, Perm}
use mathlib.Core.List.Perm
use kayan_place.Prelude.Tests.{if◌then◌else◌, Bool-cases}
use kayan_place.Prelude.Lists.{All, length}
use Prim.Native.Nat.{suc}
use native.Mathlib.Omega.{arith}

module _ {ℓ} {R : Type ℓ} (before : R → R → Bool) where
  insert_row : R → List R → List R
  insert_row r [] = r ∷ []
  insert_row r (x ∷ xs) = if before x r then x ∷ insert_row r xs else r ∷ x ∷ xs

  -- The rows are inserted from the last, so rows that tie keep their order.
  unfoldable pub order_by : List R → List R
  unfolding insert_row
  order_by [] = []
  order_by (r ∷ rs) = insert_row r (order_by rs)

  insert_row-perm : (r : R) (xs : List R) → Perm (insert_row r xs) (r ∷ xs)
  unfolding insert_row
  insert_row-perm r [] = Perm.refl _
  insert_row-perm r (x ∷ xs) = elim (Bool-cases (before x r)) [
    | inl later ↦ rw later (Perm.trans (Perm.cons x (insert_row-perm r xs)) (Perm.swap r x xs))
    | inr here ↦ rw here (Perm.refl _)
  ]

  pub order_by-perm : (xs : List R) → Perm (order_by xs) xs
  unfolding order_by
  order_by-perm [] = Perm.refl _
  order_by-perm (x ∷ xs) =
      Perm.trans (insert_row-perm x (order_by xs)) (Perm.cons x (order_by-perm xs))

  length-insert_row : (r : R) (xs : List R) → length (insert_row r xs) ≡ suc (length xs)
  unfolding insert_row
  length-insert_row r [] = refl
  length-insert_row r (x ∷ xs) = ground (arith, length-insert_row r xs)

  pub length-order_by : (xs : List R) → length (order_by xs) ≡ length xs
  unfolding order_by
  length-order_by [] = refl
  length-order_by (x ∷ xs) = ground (arith, length-insert_row x (order_by xs), length-order_by xs)

  -- No row stands behind one that it comes before.
  abbrev pub IsOrdered : List R → Type 0
  IsOrdered [] = Unit
  IsOrdered (x ∷ xs) = All (λ y. before y x ≡ false) xs × IsOrdered xs

  module _ (asym : (x y : R) → before x y ≡ true → before y x ≡ false)
      (chain : (x y z : R) → before y x ≡ false → before z y ≡ false → before z x ≡ false) where
    All-chain :
        (r x : R) (ys : List R)
        → before x r ≡ false
        → All (λ y. before y x ≡ false) ys
        → All (λ y. before y r ≡ false) ys
    All-chain r x [] h k = tt
    All-chain r x (y ∷ ys) h (p, k) = (chain r x y h p, All-chain r x ys h k)

    All-insert_row :
        (x r : R) (ys : List R)
        → before r x ≡ false
        → All (λ y. before y x ≡ false) ys
        → All (λ y. before y x ≡ false) (insert_row r ys)
    unfolding insert_row
    All-insert_row x r [] h k = (h, tt)
    All-insert_row x r (y ∷ ys) h (p, k) = elim (Bool-cases (before y r)) [
      | inl later ↦ rw later (p, All-insert_row x r ys h k)
      | inr here ↦ rw here (h, (p, k))
    ]

    insert_row-IsOrdered : (r : R) (xs : List R) → IsOrdered xs → IsOrdered (insert_row r xs)
    unfolding insert_row
    insert_row-IsOrdered r [] h = (tt, tt)
    insert_row-IsOrdered r (x ∷ xs) (p, h) = elim (Bool-cases (before x r)) [
      | inl later ↦ rw later (All-insert_row x r xs (asym x r later) p, insert_row-IsOrdered r xs h)
      | inr here ↦ rw here ((here, All-chain r x xs here p), (p, h))
    ]

    pub order_by-IsOrdered : (xs : List R) → IsOrdered (order_by xs)
    unfolding order_by
    order_by-IsOrdered [] = tt
    order_by-IsOrdered (x ∷ xs) = insert_row-IsOrdered x (order_by xs) (order_by-IsOrdered xs)

  module _ {κ} (P : R → Type κ) where
    All-insert_any : (r : R) (xs : List R) → P r → All P xs → All P (insert_row r xs)
    unfolding insert_row
    All-insert_any r [] p h = (p, tt)
    All-insert_any r (x ∷ xs) p (q, h) = elim (Bool-cases (before x r)) [
      | inl later ↦ rw later (q, All-insert_any r xs p h)
      | inr here ↦ rw here (p, (q, h))
    ]

    pub All-order_by : (xs : List R) → All P xs → All P (order_by xs)
    unfolding order_by
    All-order_by [] h = tt
    All-order_by (x ∷ xs) (p, h) = All-insert_any x (order_by xs) p (All-order_by xs h)
