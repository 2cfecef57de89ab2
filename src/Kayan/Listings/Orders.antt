-- ===== src/Kayan/Listings/Orders.antt =====
-- `listMyOrders` and `adminListOrders` of src/kayan/kayan.service.ts.
use kayan_place.Prelude.{ℕ, Bool, true, false, ◌&&◌, List, map, Option, ◌==◌, ltb, length}
use kayan_place.Prelude.Rows.{find_row, select_rows}
use kayan_place.Helpers.Pagination.{OffsetPaginationQuery}
use kayan_place.Kayan.Dto.{AuthUser, OrderStatus, SortDirection, same_order_status}
use kayan_place.Kayan.Tables.{Db, Order}
use kayan_place.Kayan.OrderViews.{OrderRow, OrderView, attach_order_items}
use kayan_place.Kayan.Listings.{when_given, in_dates, directed, direction, listed, Listing}

pub record ListOrdersQueryDto : Type 0 where
  pub page : OffsetPaginationQuery
  pub status : Option OrderStatus
  pub from_date : Option ℕ
  pub to_date : Option ℕ
  pub sort_direction : Option SortDirection

abbrev pub order_filter : ListOrdersQueryDto → Order → Bool
order_filter query o =
    when_given query.status (λ x. same_order_status o.status x)
    && in_dates query.from_date query.to_date o.created_at

-- ORDER BY po.created_at ${sortDirection}, po.id DESC
abbrev pub order_before : SortDirection → Order → Order → Bool
order_before d a b = directed d a.created_at b.created_at (ltb b.id a.id)

abbrev pub my_order : AuthUser → ListOrdersQueryDto → Order → Bool
my_order user query o = o.user_id == user.sub && order_filter query o

-- LEFT JOIN users u ON u.id = po.user_id
abbrev pub with_user : Db → Order → OrderRow
with_user s o = record { order = o; user = find_row (λ u. u.id == o.user_id) s.users }

unfoldable pub list_my_orders : Db → AuthUser → ListOrdersQueryDto → List OrderView
list_my_orders s user query =
    let rows =
      listed (my_order user query) (order_before (direction query.sort_direction)) query.page
        s.orders in
    attach_order_items s (map (with_user s) rows) false

unfoldable pub admin_list_orders : Db → ListOrdersQueryDto → Listing OrderView
admin_list_orders s query =
    let rows =
      listed (order_filter query) (order_before (direction query.sort_direction)) query.page
        s.orders in
    record {
      items = attach_order_items s (map (with_user s) rows) true;
      total = length (select_rows (order_filter query) s.orders);
    }
