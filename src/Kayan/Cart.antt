-- ===== src/Kayan/Cart.antt =====
-- The cart in src/kayan/kayan.service.ts: `listCart`, `addCartItem`, `updateCartItem`,
-- `deleteCartItem`, `checkoutCart`, `assertCartProductState`.
pub mod Checkout
pub mod Quantities
use kayan_place.Prelude.{
  ℕ, suc, ◌+◌, String, Bool, true, false, not, ◌&&◌, List, [], ◌∷◌, ◌++◌, map, Option, none, some,
  ◌==◌, ltb, is_some, length,
}
use kayan_place.Prelude.Rows.{find_row, select_rows, update_rows, delete_rows, any_row}
use kayan_place.Prelude.Maps.{map_get, map_set}
use kayan_place.Prelude.Sort.{order_by}
use kayan_place.Database.{
  Exec, fixed, about, bad_request, not_found, database, check_violation, numeric_out_of_range, pure,
  raise, raise_if, gets, modify, ◌>>=◌, ◌>>◌, with_transaction,
}
use kayan_place.Kayan.Dto.{AuthUser, ProductItemDto}
use kayan_place.Kayan.Tables.{Db, Product, CartItem, rollback}
use kayan_place.Kayan.Assets.{Bucket, then_by, attach_product_assets}
use kayan_place.Kayan.Products.{is_listed}
use kayan_place.Kayan.OrderViews.{OrderView}
use kayan_place.Kayan.Orders.{create_order_record}

-- The largest value of an INTEGER column.
abbrev pub max_integer : ℕ
max_integer = 2147483647

-- One row of the JOIN of `listCart`.
pub record CartRow : Type 0 where
  pub item : CartItem
  pub product : Product

abbrev joined_row : CartItem → Option Product → List CartRow
joined_row i none = []
joined_row i (some p) = record { item = i; product = p } ∷ []

-- JOIN catalog_products … WHERE cp.deleted_at IS NULL
join_products : List Product → List CartItem → List CartRow
join_products products [] = []
join_products products (i ∷ is') =
    joined_row i (find_row (is_listed i.product_id) products) ++ join_products products is'

-- ORDER BY created_at DESC, id DESC
abbrev cart_row_before : CartRow → CartRow → Bool
cart_row_before a b = then_by b.item.created_at a.item.created_at (ltb b.item.id a.item.id)

-- The rows that the statement of `listCart` selects.
unfoldable pub cart_rows : Db → ℕ → List CartRow
unfolding join_products
cart_rows s user_id =
    order_by cart_row_before
      (join_products s.products (select_rows (λ i. i.user_id == user_id) s.cart_items))

-- new Map(products.map((product) => [Number(product.id), product]))
product_map :
    List (Product × Bucket) → List (ℕ × (Product × Bucket)) → List (ℕ × (Product × Bucket))
product_map [] m = m
product_map (v ∷ vs) m = product_map vs (map_set v.0.id v m)

pub record CartItemView : Type 0 where
  pub item : CartItem
  pub product : Option (Product × Bucket)

unfoldable pub list_cart : AuthUser → Exec Db (List CartItemView)
unfolding cart_rows product_map
list_cart user s =
    let rows = cart_rows s user.sub in
    let products = attach_product_assets s (λ p. p.id) (map (λ r. r.product) rows) in
    let by_id = product_map products [] in
    pure (map (λ r. record { item = r.item; product = map_get r.item.product_id by_id }) rows) s

abbrev pub active_product : Option Product → Bool
active_product none = false
active_product (some p) = p.is_active

abbrev pub is_short : Option Product → ℕ → Bool
is_short none quantity = false
is_short (some p) quantity = ltb p.amount quantity

unfoldable pub assert_cart_product_state : (product_id quantity : ℕ) → Exec Db (Unit {0})
assert_cart_product_state product_id quantity = do
  found ← gets (λ s. find_row (is_listed product_id) s.products)
  raise_if (not (active_product found)) (bad_request (about "Invalid product " product_id ""))
  raise_if (is_short found quantity)
      (bad_request (about "Insufficient product amount for " product_id ""))

abbrev pub is_cart_key : (user_id product_id : ℕ) → CartItem → Bool
is_cart_key user_id product_id i = i.user_id == user_id && i.product_id == product_id

abbrev pub has_overflow : ℕ → Option CartItem → Bool
has_overflow quantity none = false
has_overflow quantity (some i) = ltb max_integer (i.quantity + quantity)

abbrev pub put_cart_item : Db → (key user_id product_id quantity : ℕ) → Bool → List CartItem
put_cart_item s key user_id product_id quantity true =
    update_rows (is_cart_key user_id product_id)
      (λ i. record i { quantity = i.quantity + quantity; updated_at = s.clock }) s.cart_items
put_cart_item s key user_id product_id quantity false =
    s.cart_items
    ++ record {
      id = key;
      user_id = user_id;
      product_id = product_id;
      quantity = quantity;
      created_at = s.clock;
      updated_at = s.clock;
    }
      ∷ []

-- INSERT … ON CONFLICT (user_id, product_id) DO UPDATE SET quantity = quantity + EXCLUDED.quantity
unfoldable pub upsert_cart_item : (user_id product_id quantity : ℕ) → Exec Db (Unit {0})
upsert_cart_item user_id product_id quantity = do
  key ← gets (λ s. s.next_cart_item)
  modify (λ s. record s { sequences = record s.sequences { next_cart_item = suc key } })
  raise_if (quantity == 0) (database check_violation)
  held ← gets (λ s. find_row (is_cart_key user_id product_id) s.cart_items)
  raise_if (has_overflow quantity held) (database numeric_out_of_range)
  modify (λ s. record s {
    cart_items = put_cart_item s key user_id product_id quantity (is_some held);
  })

unfoldable pub add_cart_item : AuthUser → (product_id quantity : ℕ) → Exec Db (List CartItemView)
unfolding upsert_cart_item
add_cart_item user product_id quantity = do
  assert_cart_product_state product_id quantity
  upsert_cart_item user.sub product_id quantity
  list_cart user

abbrev pub own_cart_item : AuthUser → ℕ → CartItem → Bool
own_cart_item user cart_item_id i = i.id == cart_item_id && i.user_id == user.sub

require_cart_item : Option CartItem → Exec Db CartItem
require_cart_item none = raise (not_found (fixed "Cart item not found"))
require_cart_item (some i) = pure i

unfoldable pub update_cart_item :
    AuthUser → (cart_item_id quantity : ℕ) → Exec Db (List CartItemView)
unfolding require_cart_item
update_cart_item user cart_item_id quantity = do
  found ← gets (λ s. find_row (own_cart_item user cart_item_id) s.cart_items)
  existing ← require_cart_item found
  assert_cart_product_state existing.product_id quantity
  raise_if (quantity == 0) (database check_violation)
  modify (λ s. record s {
    cart_items =
        update_rows (λ i. i.id == cart_item_id)
          (λ i. record i { quantity = quantity; updated_at = s.clock }) s.cart_items;
  })
  list_cart user

unfoldable pub delete_cart_item : AuthUser → (cart_item_id : ℕ) → Exec Db (Unit {0})
delete_cart_item user cart_item_id = do
  found ← gets (λ s. any_row (own_cart_item user cart_item_id) s.cart_items)
  modify (λ s. record s { cart_items = delete_rows (own_cart_item user cart_item_id) s.cart_items })
  raise_if (not found) (not_found (fixed "Cart item not found"))

-- ORDER BY created_at ASC, id ASC
abbrev cart_item_before : CartItem → CartItem → Bool
cart_item_before a b = then_by a.created_at b.created_at (ltb a.id b.id)

unfoldable pub cart_of : Db → ℕ → List CartItem
cart_of s user_id = order_by cart_item_before (select_rows (λ i. i.user_id == user_id) s.cart_items)

abbrev pub line_of : CartItem → ProductItemDto
line_of i = record { product_id = i.product_id; quantity = i.quantity }

-- The callback of the transaction of `checkoutCart`.
unfoldable pub checkout_callback : AuthUser → (delivery_address : String) → Exec Db (List OrderView)
unfolding cart_of
checkout_callback user delivery_address = do
  cart ← gets (λ s. cart_of s user.sub)
  raise_if (length cart == 0) (bad_request (fixed "Cart is empty"))
  order ← create_order_record user delivery_address (map line_of cart)
  modify (λ s. record s { cart_items = delete_rows (λ i. i.user_id == user.sub) s.cart_items })
  pure order

unfoldable pub checkout_cart : AuthUser → (delivery_address : String) → Exec Db (List OrderView)
checkout_cart user delivery_address =
    with_transaction rollback (checkout_callback user delivery_address)
