-- ===== src/Kayan/Orders.antt =====
-- The orders in src/kayan/kayan.service.ts: `createOrder`, `createOrderRecord`, `attachOrderItems`,
-- `getOrderForUser`, `updateOrderAddress`, `cancelOrder`, `adminUpdateOrderStatus`.
pub mod Stock
pub mod Lines
pub mod Log
use kayan_place.Prelude.{
  ℕ, suc, ◌-◌, String, Bool, true, false, not, ◌&&◌, List, [], ◌∷◌, ◌++◌, map, Option, none, some,
  ◌==◌, ltb, if◌then◌else◌, get_or, length,
}
use kayan_place.Prelude.Rows.{find_row, select_rows, update_rows, any_row}
use kayan_place.Prelude.Maps.{map_get, group_rows}
use kayan_place.Prelude.Sort.{order_by}
use kayan_place.Database.{
  Exec, fixed, about, bad_request, not_found, forbidden, database, check_violation, pure, raise,
  raise_if, gets, modify, ◌>>=◌, ◌>>◌, with_transaction,
}
use kayan_place.Kayan.Dto.{
  AuthUser, ProductItemDto, CreateOrderDto, OrderStatus, received, cancelled, same_order_status,
}
use kayan_place.Kayan.Tables.{Db, User, Product, Order, OrderItem, rollback}
use kayan_place.Kayan.Assets.{id_in, then_by}
use kayan_place.Kayan.Products.{is_listed}
use kayan_place.Kayan.OrderViews.{OrderView, attach_order_items}

abbrev pub new_order : Db → AuthUser → (delivery_address : String) → Order
new_order s user delivery_address = record {
  id = s.next_order;
  user_id = user.sub;
  delivery_address = delivery_address;
  status = received;
  cancelled_at = none;
  created_at = s.clock;
  updated_at = s.clock;
}

abbrev pub with_order : Db → AuthUser → String → Db
with_order s user delivery_address = record s {
  sequences = record s.sequences { next_order = suc s.next_order };
  orders = s.orders ++ new_order s user delivery_address ∷ [];
}

-- INSERT INTO product_orders
insert_order : AuthUser → String → Exec Db Order
insert_order user delivery_address s =
    pure (new_order s user delivery_address) (with_order s user delivery_address)

abbrev pub with_order_history : Db → ℕ → OrderStatus → ℕ → Db
with_order_history s order_id status changed_by = record s {
  sequences = record s.sequences { next_order_history = suc s.next_order_history };
  order_history =
      s.order_history
      ++ record {
        id = s.next_order_history;
        item_id = order_id;
        status = status;
        changed_by = changed_by;
        created_at = s.clock;
      }
        ∷ [];
}

-- INSERT INTO order_status_history. The actor references users: the row is there, since users are
-- only marked as deleted, and the guard found the row of the user of the request.
unfoldable pub insert_order_history : ℕ → OrderStatus → (changed_by : ℕ) → Exec Db (Unit {0})
insert_order_history order_id status changed_by =
    modify (λ s. with_order_history s order_id status changed_by)

-- INSERT INTO order_items, with CHECK (quantity > 0)
insert_order_item : ℕ → ProductItemDto → (unit_price : ℕ) → Exec Db (Unit {0})
insert_order_item order_id item unit_price = do
  key ← gets (λ s. s.next_order_item)
  modify (λ s. record s { sequences = record s.sequences { next_order_item = suc key } })
  raise_if (item.quantity == 0) (database check_violation)
  modify (λ s. record s {
    order_items =
        s.order_items
        ++ record {
          id = key;
          order_id = order_id;
          product_id = item.product_id;
          quantity = item.quantity;
          unit_price = unit_price;
        }
          ∷ [];
  })

abbrev pub reduce_amount : Db → ℕ → ℕ → List Product → List Product
reduce_amount s k n =
    update_rows (λ p. p.id == k) (λ p. record p { amount = p.amount - n; updated_at = s.clock })

-- One round of the loop of `createOrderRecord`, on the product row that was locked. The amount is
-- at least the quantity where it is reduced, so the difference is exact.
unfoldable pub take_product : ℕ → ProductItemDto → Option Product → Exec Db (Unit {0})
unfolding insert_order_item
take_product order_id item none = raise (bad_request (about "Invalid product " item.product_id ""))
take_product order_id item (some p) = do
  raise_if (not p.is_active) (bad_request (about "Invalid product " item.product_id ""))
  raise_if (ltb p.amount item.quantity)
      (bad_request (about "Insufficient product amount for " item.product_id ""))
  insert_order_item order_id item p.price
  modify (λ s. record s { products = reduce_amount s item.product_id item.quantity s.products })

unfoldable pub take_products : ℕ → List ProductItemDto → Exec Db (Unit {0})
unfolding take_product
take_products order_id [] = pure tt
take_products order_id (item ∷ items) = do
  found ← gets (λ s. find_row (is_listed item.product_id) s.products)
  take_product order_id item found
  take_products order_id items

-- The response shows the application's clock, here the database's.
unfoldable pub create_order_record :
    AuthUser → String → List ProductItemDto → Exec Db (List OrderView)
unfolding insert_order insert_order_history
create_order_record user delivery_address items = do
  order ← insert_order user delivery_address
  take_products order.id items
  insert_order_history order.id received user.sub
  gets (λ s. attach_order_items s (record { order = order; user = none } ∷ []) false)

unfoldable pub create_order : AuthUser → CreateOrderDto → Exec Db (List OrderView)
create_order user dto = do
  raise_if (length dto.items == 0) (bad_request (fixed "Order items are required"))
  with_transaction rollback (create_order_record user dto.delivery_address dto.items)

view_order : (user_id : ℕ) → Bool → Option Order → Exec Db (List OrderView)
view_order user_id allow_admin none = raise (not_found (fixed "Order not found"))
view_order user_id allow_admin (some o) = do
  raise_if (not allow_admin && not (o.user_id == user_id)) (forbidden (fixed "Not allowed"))
  gets (λ s.
      attach_order_items s
        (record { order = o; user = find_row (λ u. u.id == o.user_id) s.users } ∷ []) true)

unfoldable pub get_order_for_user : (user_id order_id : ℕ) → Bool → Exec Db (List OrderView)
unfolding view_order
get_order_for_user user_id order_id allow_admin = do
  found ← gets (λ s. find_row (λ o. o.id == order_id) s.orders)
  view_order user_id allow_admin found

-- SELECT status … WHERE id = $1 AND user_id = $2, and the two exceptions that follow it
unfoldable pub require_received : String → Option Order → Exec Db (Unit {0})
require_received refusal none = raise (not_found (fixed "Order not found"))
require_received refusal (some o) =
    raise_if (not (same_order_status o.status received)) (bad_request (fixed refusal))

abbrev pub with_order_address : Db → ℕ → String → Db
with_order_address s order_id delivery_address = record s {
  orders =
      update_rows (λ o. o.id == order_id)
        (λ o. record o { delivery_address = delivery_address; updated_at = s.clock }) s.orders;
}

abbrev pub with_cancelled_order : Db → ℕ → Db
with_cancelled_order s order_id = record s {
  orders =
      update_rows (λ o. o.id == order_id)
        (λ o. record o { status = cancelled; cancelled_at = some s.clock; updated_at = s.clock })
        s.orders;
}

abbrev pub with_order_status : Db → ℕ → OrderStatus → Db
with_order_status s order_id status = record s {
  orders =
      update_rows (λ o. o.id == order_id) (λ o. record o { status = status; updated_at = s.clock })
        s.orders;
}

abbrev pub own_order : AuthUser → ℕ → Order → Bool
own_order user order_id o = o.id == order_id && o.user_id == user.sub

unfoldable pub update_order_address :
    AuthUser → ℕ → (delivery_address : String) → Exec Db (List OrderView)
unfolding require_received insert_order_history
update_order_address user order_id delivery_address = do
  found ← gets (λ s. find_row (own_order user order_id) s.orders)
  require_received "Address can only be updated before processing starts" found
  modify (λ s. with_order_address s order_id delivery_address)
  get_order_for_user user.sub order_id true

unfoldable pub cancel_order : AuthUser → ℕ → Exec Db (List OrderView)
unfolding require_received insert_order_history
cancel_order user order_id = do
  found ← gets (λ s. find_row (own_order user order_id) s.orders)
  require_received "Order cancellation allowed only before processing starts" found
  modify (λ s. with_cancelled_order s order_id)
  insert_order_history order_id cancelled user.sub
  get_order_for_user user.sub order_id true

unfoldable pub admin_update_order_status : AuthUser → ℕ → OrderStatus → Exec Db (List OrderView)
admin_update_order_status admin order_id status = do
  found ← gets (λ s. any_row (λ o. o.id == order_id) s.orders)
  modify (λ s. with_order_status s order_id status)
  raise_if (not found) (not_found (fixed "Order not found"))
  insert_order_history order_id status admin.sub
  get_order_for_user 0 order_id true
