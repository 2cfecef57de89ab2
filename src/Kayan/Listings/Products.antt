-- ===== src/Kayan/Listings/Products.antt =====
-- `listProducts` of src/kayan/kayan.service.ts. `ilike` is the server's ILIKE.
use kayan_place.Prelude.{
  ℕ, ◌*◌, String, Bool, true, not, ◌&&◌, ◌||◌, List, Option, leb, ltb, is_some, get_or,
}
use kayan_place.Helpers.Pagination.{OffsetPaginationQuery}
use kayan_place.Database.{Exec, database, ambiguous_column, raise_if, gets, ◌>>◌}
use kayan_place.Kayan.Dto.{SortDirection, ProductSortBy, ProductAvailabilityFilter}
use kayan_place.Kayan.Tables.{Db, Product}
use kayan_place.Kayan.Assets.{attach_product_assets}
use kayan_place.Kayan.Products.{ProductView, product_rate, product_views}
use kayan_place.Kayan.Listings.{when_given, directed, direction, listed}
use kayan_place.Kayan.Listings.Gallery.{mentions}

pub record ListProductsQueryDto : Type 0 where
  pub page : OffsetPaginationQuery
  pub query : Option String
  pub min_price : Option ℕ
  pub max_price : Option ℕ
  pub from_date : Option ℕ
  pub to_date : Option ℕ
  pub availability : Option ProductAvailabilityFilter
  pub sort_by : Option ProductSortBy
  pub sort_direction : Option SortDirection
  pub min_rate : Option ℕ
  pub max_rate : Option ℕ

-- The availability that is given, or `active`.
abbrev pub is_available : ProductAvailabilityFilter → Product → Bool
is_available ProductAvailabilityFilter.active p = p.is_active
is_available ProductAvailabilityFilter.inactive p = not p.is_active
is_available ProductAvailabilityFilter.all p = true

-- WHERE, and the HAVING on the rate, which is in hundredths here.
abbrev pub product_filter :
    (ilike : String → String → Bool) → Db → ListProductsQueryDto → Product → Bool
product_filter ilike s query p =
    not (is_some p.deleted_at)
    && (is_available (get_or query.availability ProductAvailabilityFilter.active) p
        && (when_given query.query (λ x. mentions ilike p.title p.description x)
            && (when_given query.min_price (λ x. leb x p.price)
                && (when_given query.max_price (λ x. leb p.price x)
                    && (when_given query.min_rate (λ x. leb (100 * x) (product_rate s p.id))
                        && when_given query.max_rate (λ x. leb (product_rate s p.id) (100 * x)))))))

-- ORDER BY ${orderColumn} ${sortDirection}, cp.id DESC
abbrev pub product_before : ProductSortBy → SortDirection → Product → Product → Bool
product_before ProductSortBy.by_price d a b = directed d a.price b.price (ltb b.id a.id)
product_before ProductSortBy.by_created_at d a b =
    directed d a.created_at b.created_at (ltb b.id a.id)

-- `created_at` in the WHERE is a column of both tables of the join, so a statement that filters by
-- dates is refused.
unfoldable pub list_products :
    (ilike : String → String → Bool) → ListProductsQueryDto → Exec Db (List ProductView)
list_products ilike query = do
  raise_if (is_some query.from_date || is_some query.to_date) (database ambiguous_column)
  gets (λ s. product_views s (
      attach_product_assets s (λ p. p.id)
        (listed (product_filter ilike s query)
          (product_before (get_or query.sort_by ProductSortBy.by_created_at)
            (direction query.sort_direction))
          query.page s.products)))
