-- ===== src/Prelude/Rows.antt =====
-- The statements of SQL on the rows of one table. Rows stand in the order of their insertion.
use mathlib.Core.Path.{◌≡◌, refl, ap, subst}
use mathlib.Core.Logic.{inl, inr}
use mathlib.Core.Bool.{Bool, true, false, not, ◌||◌, ◌&&◌}
use mathlib.Core.List.{List, [], ◌∷◌, ◌++◌}
use mathlib.Core.Option.{Option, none, some}
use native.Mathlib.Omega.{arith}
use kayan_place.Prelude.Tests.{if◌then◌else◌, is_some, Bool-cases}
use kayan_place.Prelude.Lists.{All}

module _ {ℓ} {R : Type ℓ} where
  -- SELECT … WHERE p LIMIT 1
  abbrev pub find_row : (R → Bool) → List R → Option R
  find_row p [] = none
  find_row p (r ∷ rs) = if p r then some r else find_row p rs

  -- SELECT … WHERE p
  abbrev pub select_rows : (R → Bool) → List R → List R
  select_rows p [] = []
  select_rows p (r ∷ rs) = let rest = select_rows p rs in if p r then r ∷ rest else rest

  -- UPDATE … SET f WHERE p
  abbrev pub update_rows : (R → Bool) → (R → R) → List R → List R
  update_rows p f [] = []
  update_rows p f (r ∷ rs) = (if p r then f r else r) ∷ update_rows p f rs

  -- DELETE … WHERE p
  abbrev pub delete_rows : (R → Bool) → List R → List R
  delete_rows p [] = []
  delete_rows p (r ∷ rs) = let rest = delete_rows p rs in if p r then rest else r ∷ rest

  -- EXISTS (SELECT 1 … WHERE p), or a row count other than 0
  abbrev pub any_row : (R → Bool) → List R → Bool
  any_row p [] = false
  any_row p (r ∷ rs) = p r || any_row p rs

  pub select_rows-append :
      (p : R → Bool) (xs ys : List R)
      → select_rows p (xs ++ ys) ≡ select_rows p xs ++ select_rows p ys
  select_rows-append p [] ys = refl
  select_rows-append p (x ∷ xs) ys = ground (arith, select_rows-append p xs ys)

  pub select_rows-delete_rows :
      (p q : R → Bool) (xs : List R)
      → select_rows p (delete_rows q xs) ≡ select_rows (λ r. not (q r) && p r) xs
  select_rows-delete_rows p q [] = refl
  select_rows-delete_rows p q (x ∷ xs) = ground (arith, select_rows-delete_rows p q xs)

  pub any_row-find_row : (p : R → Bool) (xs : List R) → any_row p xs ≡ is_some (find_row p xs)
  any_row-find_row p [] = refl
  any_row-find_row p (x ∷ xs) = ground (arith, any_row-find_row p xs)

-- What holds of all rows, after an update or a deletion.
module _ {ℓ κ} {R : Type ℓ} (P Q : R → Type κ) (p : R → Bool) (f : R → R) where
  pub All-update_rows :
      ((r : R) → P r → p r ≡ true → Q (f r))
      → ((r : R) → P r → p r ≡ false → Q r)
      → (xs : List R) → All P xs
      → All Q (update_rows p f xs)
  All-update_rows hit miss [] h = tt
  All-update_rows hit miss (x ∷ xs) (q, h) = (here, All-update_rows hit miss xs h)
    where
      here : Q (if p x then f x else x)
      here = elim (Bool-cases (p x)) [ inl e ↦ rw e (hit x q e) | inr e ↦ rw e (miss x q e) ]

module _ {ℓ κ} {R : Type ℓ} (P : R → Type κ) (p : R → Bool) where
  pub All-delete_rows : (xs : List R) → All P xs → All P (delete_rows p xs)
  All-delete_rows [] h = tt
  All-delete_rows (x ∷ xs) (q, h) = elim (Bool-cases (p x)) [
    | inl e ↦ rw e (All-delete_rows xs h)
    | inr e ↦ rw e (q, All-delete_rows xs h)
  ]

module _ {ℓ κ} {R : Type ℓ} {P Q : R → Type κ} where
  pub All-map : ((r : R) → P r → Q r) → (xs : List R) → All P xs → All Q xs
  All-map f [] h = tt
  All-map f (x ∷ xs) (p, h) = (f x p, All-map f xs h)

module _ {ℓ} {R : Type ℓ} (p : R → Bool) where
  pub find_row-true : (xs : List R) {r : R} → find_row p xs ≡ some r → p r ≡ true
  find_row-true [] e = absurd (cc)
  find_row-true (x ∷ xs) {r} e = elim (Bool-cases (p x)) [
    | inl t ↦ let same : x ≡ r = ground arith in subst (λ y. p y ≡ true) same t
    | inr f ↦ find_row-true xs (ground arith)
  ]

  pub find_row-append :
      (xs ys : List R) {r : R} → find_row p xs ≡ some r → find_row p (xs ++ ys) ≡ some r
  find_row-append [] ys e = absurd (cc)
  find_row-append (x ∷ xs) ys {r} e = ground (arith, find_row-append xs ys {r = r})

  -- An update that does not change what the rows are found by.
  pub find_row-update_rows :
      (q : R → Bool) (f : R → R)
      → ((r : R) → p (f r) ≡ p r)
      → (xs : List R) {r : R} → find_row p xs ≡ some r
      → find_row p (update_rows q f xs) ≡ some (if q r then f r else r)
  find_row-update_rows q f same [] e = absurd (cc)
  find_row-update_rows q f same (x ∷ xs) {r} e = elim (Bool-cases (p x)) [
    | inl t ↦
        let here : x ≡ r = ground arith in
        elim (Bool-cases (q x)) [
          | inl hit ↦ ground (arith, same x, hit, ap q here)
          | inr miss ↦ ground (arith, miss, ap q here)
        ]
    | inr t ↦
        let later : find_row p xs ≡ some r = ground arith in
        ground (arith, same x, find_row-update_rows q f same xs later)
  ]

module _ {ℓ κ} {R : Type ℓ} (P : R → Type κ) (p : R → Bool) where
  pub All-find_row : (xs : List R) {r : R} → All P xs → find_row p xs ≡ some r → P r × (p r ≡ true)
  All-find_row [] h e = absurd (cc)
  All-find_row (x ∷ xs) {r} (q, h) e = elim (Bool-cases (p x)) [
    | inl t ↦ let same : x ≡ r = ground arith in (subst P same q, subst (λ y. p y ≡ true) same t)
    | inr f ↦ All-find_row xs h (ground arith)
  ]

  pub All-select_rows : (xs : List R) → All P xs → All (λ r. P r × (p r ≡ true)) (select_rows p xs)
  All-select_rows [] h = tt
  All-select_rows (x ∷ xs) (q, h) = elim (Bool-cases (p x)) [
    | inl t ↦ rw t ((q, t), All-select_rows xs h)
    | inr f ↦ rw f (All-select_rows xs h)
  ]
