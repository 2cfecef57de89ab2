-- ===== src/Kayan/OrderViews.antt =====
-- What the answers of src/kayan/kayan.service.ts show of an order: `attachOrderItems`.
use kayan_place.Prelude.{
  ℕ, String, Bool, List, [], map, Option, none, some, ◌==◌, ltb, if◌then◌else◌, get_or, length,
}
use kayan_place.Prelude.Rows.{find_row, select_rows}
use kayan_place.Prelude.Maps.{map_get, group_rows}
use kayan_place.Prelude.Sort.{order_by}
use kayan_place.Kayan.Tables.{Db, User, Product, Order, OrderItem}
use kayan_place.Kayan.Assets.{id_in, then_by}

-- The title and the flag are of the joined product, if it is there.
pub record OrderItemView : Type 0 where
  pub id : ℕ
  pub product_id : ℕ
  pub quantity : ℕ
  pub unit_price : ℕ
  pub title : Option String
  pub is_active : Option Bool

pub record UserView : Type 0 where
  pub id : ℕ
  pub name : Option String
  pub email : Option String
  pub phone : Option String

-- A row of product_orders, joined with its user where the statement does so.
pub record OrderRow : Type 0 where
  pub order : Order
  pub user : Option User

pub record OrderView : Type 0 where
  pub order : Order
  pub item_count : ℕ
  pub items : List OrderItemView
  pub user : Option UserView

abbrev pub joined_name : Option User → Option String
joined_name none = none
joined_name (some u) = some u.name

abbrev pub joined_email : Option User → Option String
joined_email none = none
joined_email (some u) = u.email

abbrev pub joined_phone : Option User → Option String
joined_phone none = none
joined_phone (some u) = u.phone

abbrev product_title : Option Product → Option String
product_title none = none
product_title (some p) = some p.title

abbrev product_active : Option Product → Option Bool
product_active none = none
product_active (some p) = some p.is_active

unfoldable pub item_view : Db → OrderItem → OrderItemView
item_view s i =
    let product = find_row (λ p. p.id == i.product_id) s.products in
    record {
      id = i.id;
      product_id = i.product_id;
      quantity = i.quantity;
      unit_price = i.unit_price;
      title = product_title product;
      is_active = product_active product;
    }

abbrev item_before : OrderItem → OrderItem → Bool
item_before a b = then_by a.order_id b.order_id (ltb a.id b.id)

unfoldable pub items_of : List OrderItem → List ℕ → List OrderItem
items_of items ids = order_by item_before (select_rows (λ i. id_in ids i.order_id) items)

abbrev order_view : Bool → List (ℕ × List OrderItemView) → OrderRow → OrderView
order_view include_user by_id row =
    let items = get_or (map_get row.order.id by_id) [] in
    record {
      order = row.order;
      item_count = length items;
      items = items;
      user =
          if include_user
          then some (record {
            id = row.order.user_id;
            name = joined_name row.user;
            email = joined_email row.user;
            phone = joined_phone row.user;
          })
          else none;
    }

unfoldable pub attach_order_items : Db → List OrderRow → Bool → List OrderView
unfolding item_view items_of
attach_order_items s orders include_user =
    let ids = map (λ r. r.order.id) orders in
    let by_id = group_rows (λ i. i.order_id) (item_view s) (items_of s.order_items ids) [] in
    map (order_view include_user by_id) orders
