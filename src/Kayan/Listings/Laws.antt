-- ===== src/Kayan/Listings/Laws.antt =====
-- What a page of a listing of src/kayan/kayan.service.ts holds.
use Prim.Native.Nat.{min}
use native.Mathlib.Nat.{suc-mul}
use mathlib.Core.List.{Perm}
use kayan_place.Prelude.{
  ℕ, zero, suc, ◌+◌, ◌-◌, ◌*◌, ◌≤◌, ◌≡◌, refl, Bool, true, false, inl, inr, List, [], ◌∷◌, ◌++◌,
  some, none, arith, ◌∙◌, length, take, drop, take-add, take_all, ltb, All, All-take, All-drop,
  Bool-cases, subst, sym,
}
use kayan_place.Prelude.Rows.{select_rows}
use kayan_place.Prelude.Sort.{
  order_by, order_by-perm, length-order_by, IsOrdered, order_by-IsOrdered, All-order_by,
}
use kayan_place.Helpers.Pagination.{
  OffsetPaginationQuery, resolve_offset_pagination, length-paginate-le,
}
use kayan_place.Kayan.Dto.{SortDirection, asc, desc}
use kayan_place.Kayan.Listings.{directed, list_page, listed}

module _ {ℓ} {R : Type ℓ} (condition : R → Bool) (before : R → R → Bool) where
  -- A page: rows that meet the condition, in order, and at most a hundred of them.
  pub record IsPage (page : List R) : Type ℓ where
    pub meets : All (λ r. condition r ≡ true) page
    pub ordered : IsOrdered before page
    pub bounded : length page ≤ 100

  All-select_rows : (xs : List R) → All (λ x. condition x ≡ true) (select_rows condition xs)
  All-select_rows [] = tt
  All-select_rows (x ∷ xs) = elim (Bool-cases (condition x)) [
    | inl e ↦ rw e (e, All-select_rows xs)
    | inr e ↦ rw e (All-select_rows xs)
  ]

  IsOrdered-take : (n : ℕ) (xs : List R) → IsOrdered before xs → IsOrdered before (take n xs)
  IsOrdered-take zero xs h = tt
  IsOrdered-take (suc n) [] h = tt
  IsOrdered-take (suc n) (x ∷ xs) (p, h) =
      (All-take (λ y. before y x ≡ false) n xs p, IsOrdered-take n xs h)

  IsOrdered-drop : (n : ℕ) (xs : List R) → IsOrdered before xs → IsOrdered before (drop n xs)
  IsOrdered-drop zero xs h = h
  IsOrdered-drop (suc n) [] h = tt
  IsOrdered-drop (suc n) (x ∷ xs) (p, h) = IsOrdered-drop n xs h

  pub listed-IsPage :
      ((x y : R) → before x y ≡ true → before y x ≡ false)
      → ((x y z : R) → before y x ≡ false → before z y ≡ false → before z x ≡ false)
      → (query : OffsetPaginationQuery) (table : List R)
      → IsPage (listed condition before query table)
  listed-IsPage asym chain query table =
      let rows = order_by before (select_rows condition table) in
      let p = resolve_offset_pagination query 20 100 in
      record {
        meets =
            All-take (λ r. condition r ≡ true) p.limit (drop p.offset rows)
              (All-drop (λ r. condition r ≡ true) p.offset rows
                (All-order_by before (λ r. condition r ≡ true) (select_rows condition table)
                  (All-select_rows table)));
        ordered = IsOrdered-take p.limit (drop p.offset rows) (
            IsOrdered-drop p.offset rows
              (order_by-IsOrdered before asym chain (select_rows condition table)));
        bounded = length-paginate-le query 20 100 rows;
      }

-- A key and then the newest id: the order of the listings of orders and of service orders.
pub directed-asym :
    (d : SortDirection) (a b i j : ℕ)
    → directed d a b (ltb j i) ≡ true
    → directed d b a (ltb i j) ≡ false
directed-asym asc a b i j h = ground arith
directed-asym desc a b i j h = ground arith

pub directed-chain :
    (d : SortDirection) (a b c i j k : ℕ)
    → directed d b a (ltb i j) ≡ false
    → directed d c b (ltb j k) ≡ false
    → directed d c a (ltb i k) ≡ false
directed-chain asc a b c i j k h g = ground arith
directed-chain desc a b c i j k h g = ground arith

abbrev pub page_query : (page limit : ℕ) → OffsetPaginationQuery
page_query page limit = record { page = some page; limit = some limit; offset = none }

-- The pages 1 to `n`, one after the other.
abbrev pub first_pages {ℓ} : {R : Type ℓ} → (ℕ → List R) → ℕ → List R
first_pages page zero = []
first_pages page (suc n) = first_pages page n ++ page (suc n)

module _ {ℓ} {R : Type ℓ} (limit : ℕ) (rows : List R) where
  first_pages-take :
      (n : ℕ)
      → limit ≤ 100
      → first_pages (λ k. list_page (page_query k limit) rows) n ≡ take (n * limit) rows
  unfolding resolve_offset_pagination
  first_pages-take zero h =
      let none_left : 0 * limit ≡ 0 = omega arith in
      subst (λ m. [] ≡ take m rows) (sym none_left) refl
  first_pages-take (suc n) h =
      let cap : min limit 100 ≡ limit = omega arith in
      let shift : suc n - 1 ≡ n = omega arith in
      let next : suc n * limit ≡ n * limit + limit = suc-mul n limit in
      let page : list_page (page_query (suc n) limit) rows ≡ take limit (drop (n * limit) rows) =
        rw (cap, shift) refl in
      ground (arith, first_pages-take n h, take-add (n * limit) limit rows, page, next)

module _ {ℓ} {R : Type ℓ} (condition : R → Bool) (before : R → R → Bool) where
  -- Pages that reach the total show the selected rows, each once.
  pub first_pages-perm :
      (limit n : ℕ) (table : List R)
      → limit ≤ 100
      → length (select_rows condition table) ≤ n * limit
      → Perm
          (first_pages (λ k. listed condition before (page_query k limit) table) n)
          (select_rows condition table)
  first_pages-perm limit n table cap enough =
      let rows = select_rows condition table in
      let sorted = order_by before rows in
      let reach : length sorted ≤ n * limit = ground (arith, length-order_by before rows) in
      let e = first_pages-take limit sorted n cap ∙ take_all (n * limit) sorted reach in
      subst (λ t. Perm t rows) (sym e) (order_by-perm before rows)
