-- ===== src/Kayan/Listings/Services.antt =====
-- `listMyServices`, `publicListServices` and `adminListServices` of src/kayan/kayan.service.ts.
use kayan_place.Prelude.{ℕ, Bool, ◌&&◌, map, Option, ◌==◌, ltb, length}
use kayan_place.Prelude.Rows.{find_row, select_rows}
use kayan_place.Helpers.Pagination.{OffsetPaginationQuery}
use kayan_place.Kayan.Dto.{AuthUser, ServiceType, designing, maintenance, renewal, SortDirection}
use kayan_place.Kayan.Tables.{Db, ServiceOrder, User}
use kayan_place.Kayan.Listings.{when_given, in_dates, directed, direction, listed, Listing}

pub record ListServicesQueryDto : Type 0 where
  pub page : OffsetPaginationQuery
  pub service_type : Option ServiceType
  pub from_date : Option ℕ
  pub to_date : Option ℕ
  pub sort_direction : Option SortDirection

abbrev service_type_code : ServiceType → ℕ
service_type_code designing = 0
service_type_code maintenance = 1
service_type_code renewal = 2

abbrev pub service_filter : ListServicesQueryDto → ServiceOrder → Bool
service_filter query o =
    when_given query.service_type (λ x. service_type_code o.service_type == service_type_code x)
    && in_dates query.from_date query.to_date o.created_at

-- ORDER BY so.created_at ${sortDirection}, so.id DESC
abbrev pub service_before : SortDirection → ServiceOrder → ServiceOrder → Bool
service_before d a b = directed d a.created_at b.created_at (ltb b.id a.id)

-- The page and the total of the rows that a condition selects.
abbrev service_listing : (ServiceOrder → Bool) → ListServicesQueryDto → Db → Listing ServiceOrder
service_listing condition query s = record {
  items = listed condition (service_before (direction query.sort_direction)) query.page s.services;
  total = length (select_rows condition s.services);
}

abbrev my_service : AuthUser → ListServicesQueryDto → ServiceOrder → Bool
my_service user query o = o.user_id == user.sub && service_filter query o

unfoldable pub list_my_services : Db → AuthUser → ListServicesQueryDto → Listing ServiceOrder
list_my_services s user query = service_listing (my_service user query) query s

unfoldable pub public_list_services : Db → ListServicesQueryDto → Listing ServiceOrder
public_list_services s query = service_listing (service_filter query) query s

-- LEFT JOIN users u ON u.id = so.user_id
unfoldable pub admin_list_services :
    Db → ListServicesQueryDto → Listing (ServiceOrder × Option User)
admin_list_services s query =
    let listing = service_listing (service_filter query) query s in
    record {
      items = map (λ o. (o, find_row (λ u. u.id == o.user_id) s.users)) listing.items;
      total = listing.total;
    }
