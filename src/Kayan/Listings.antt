-- ===== src/Kayan/Listings.antt =====
-- The listings of src/kayan/kayan.service.ts: what their WHERE, ORDER BY, LIMIT and OFFSET have in
-- common. A condition is the test of a row with the bound parameters in their places.
pub mod Orders
pub mod Faults
pub mod Services
pub mod Gallery
pub mod Escapes
pub mod Products
pub mod Laws
pub mod Pages
use kayan_place.Prelude.{ℕ, Bool, true, ◌&&◌, List, Option, none, some, leb, ltb, length, get_or}
use kayan_place.Prelude.Rows.{select_rows}
use kayan_place.Prelude.Sort.{order_by}
use kayan_place.Helpers.Pagination.{OffsetPaginationQuery, resolve_offset_pagination, paginate}
use kayan_place.Kayan.Dto.{SortDirection, asc, desc}
use kayan_place.Kayan.Assets.{then_by}

-- `if (value) { params.push(value); conditions.push(…) }`
abbrev pub when_given {ℓ} : {A : Type ℓ} → Option A → (A → Bool) → Bool
when_given none test = true
when_given (some a) test = test a

abbrev pub in_dates : (from_date to_date : Option ℕ) → (created_at : ℕ) → Bool
in_dates from_date to_date created_at =
    when_given from_date (λ d. leb d created_at) && when_given to_date (λ d. leb created_at d)

-- ORDER BY key ${sortDirection}, with what decides a tie
abbrev pub directed : SortDirection → (a b : ℕ) → Bool → Bool
directed asc a b tie = then_by a b tie
directed desc a b tie = then_by b a tie

abbrev pub direction : Option SortDirection → SortDirection
direction d = get_or d desc

-- `resolveOffsetPagination(query, { defaultLimit: 20, maxLimit: 100 })`
abbrev pub list_page {ℓ} : {R : Type ℓ} → OffsetPaginationQuery → List R → List R
list_page query rows = paginate (resolve_offset_pagination query 20 100) rows

-- The rows of one page of a listing.
abbrev pub listed {ℓ} :
    {R : Type ℓ} → (R → Bool) → (R → R → Bool) → OffsetPaginationQuery → List R → List R
listed condition before query table =
    list_page query (order_by before (select_rows condition table))

pub record Listing {ℓ} (R : Type ℓ) : Type ℓ where
  pub items : List R
  pub total : ℕ
