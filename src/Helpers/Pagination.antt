-- ===== src/Helpers/Pagination.antt =====
-- src/common/helpers/pagination.helpers.ts
use Prim.Native.Nat.{min}
use kayan_place.Prelude.{
  ℕ, ◌-◌, ◌*◌, ◌≤◌, Option, List, arith, get_or, take, drop, length, length-take-le,
}

pub record OffsetPaginationQuery : Type 0 where
  pub page : Option ℕ
  pub limit : Option ℕ
  pub offset : Option ℕ

pub record Page : Type 0 where
  pub limit : ℕ
  pub offset : ℕ

-- `Math.max((query.page ?? 1) - 1, 0)` is the truncated difference.
unfoldable pub resolve_offset_pagination :
    OffsetPaginationQuery → (default_limit max_limit : ℕ) → Page
resolve_offset_pagination query default_limit max_limit =
    let limit = min (get_or query.limit default_limit) max_limit in
    record { limit = limit; offset = get_or query.offset ((get_or query.page 1 - 1) * limit) }

-- LIMIT and OFFSET of the statements that take a resolved page.
abbrev pub paginate {ℓ} : {R : Type ℓ} → Page → List R → List R
paginate p rows = take p.limit (drop p.offset rows)

pub length-paginate-le {ℓ} :
    {R : Type ℓ} (query : OffsetPaginationQuery) (default_limit max_limit : ℕ) (rows : List R)
    → length (paginate (resolve_offset_pagination query default_limit max_limit) rows) ≤ max_limit
unfolding resolve_offset_pagination
length-paginate-le query d m rows =
    let p = resolve_offset_pagination query d m in
    omega (arith, length-take-le p.limit (drop p.offset rows))
