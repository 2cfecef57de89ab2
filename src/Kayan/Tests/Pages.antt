-- ===== src/Kayan/Tests/Pages.antt =====
-- Listings of the small shop.
use mathlib.Core.List.{Perm}
use kayan_place.Prelude.{◌≡◌, refl, map, none, arith}
use kayan_place.Prelude.Rows.{select_rows}
use kayan_place.Helpers.Pagination.{OffsetPaginationQuery}
use kayan_place.Kayan.Dto.{SortDirection}
use kayan_place.Kayan.Samples.{alice, shop}
use kayan_place.Kayan.Listings.Orders.{ListOrdersQueryDto, my_order, order_before, list_my_orders}
use kayan_place.Kayan.Listings.Services.{ListServicesQueryDto, service_filter, public_list_services}
use kayan_place.Kayan.Listings.Gallery.{search_pattern}
use kayan_place.Kayan.Listings.Laws.{IsPage, page_query, first_pages}
use kayan_place.Kayan.Listings.Pages.{list_my_orders-IsPage, public_list_services-pages}

search_pattern-escapes : search_pattern "50%_" ≡ "%50\\%\\_%"
unfolding search_pattern
search_pattern-escapes = refl

abbrev any_page : OffsetPaginationQuery
any_page = record { page = none; limit = none; offset = none }

abbrev any_order : ListOrdersQueryDto
any_order = record {
  page = any_page;
  status = none;
  from_date = none;
  to_date = none;
  sort_direction = none;
}

abbrev any_service : ListServicesQueryDto
any_service = record {
  page = any_page;
  service_type = none;
  from_date = none;
  to_date = none;
  sort_direction = none;
}

list_my_orders-IsPage_example :
    IsPage
      (my_order alice any_order)
      (order_before SortDirection.desc)
      (map (λ v. v.order) (list_my_orders shop alice any_order))
list_my_orders-IsPage_example = list_my_orders-IsPage shop alice any_order

public_list_services-pages_example :
    Perm
      (first_pages
        (λ k. (public_list_services shop (record any_service { page = page_query k 1 })).items)
        2)
      (select_rows (service_filter any_service) shop.services)
unfolding public_list_services
public_list_services-pages_example =
    public_list_services-pages shop any_service 1 2 (omega arith) (omega arith)
