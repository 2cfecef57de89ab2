-- ===== src/Kayan/Tests/Shop.antt =====
-- Orders, carts and fault reports on the small shop.
use kayan_place.Prelude.{◌+◌, ◌≡◌, refl, List, [], ◌∷◌, arith}
use kayan_place.Database.{state}
use kayan_place.Kayan.Dto.{OrderStatus, ProductItemDto}
use kayan_place.Kayan.Samples.{alice, bob, root, shop}
use kayan_place.Prelude.Maps.{group_rows}
use kayan_place.Prelude.Sort.{order_by}
use kayan_place.Kayan.OrderViews.{attach_order_items, item_view, items_of}
use kayan_place.Kayan.Orders.{
  create_order_record, insert_order_history, take_products, take_product,
}
use kayan_place.Kayan.Orders.Stock.{stock, stock-create_order_record}
use kayan_place.Kayan.Orders.Log.{OrdersLogged}
use kayan_place.Kayan.Cart.{checkout_cart, checkout_callback, cart_of}
use kayan_place.Kayan.Cart.{add_cart_item, list_cart, assert_cart_product_state, upsert_cart_item}
use kayan_place.Kayan.Cart.Quantities.{quantity_in, add_cart_item-quantity}
use kayan_place.Kayan.Cart.Checkout.{CheckedOut, checkout_cart-CheckedOut}
use kayan_place.Kayan.Lifecycle.Orders.{OrderCall, serve, serve-OrdersLogged}

-- What the runs compute with.
service : Unit {0}
unfolding checkout_cart checkout_callback create_order_record insert_order_history take_products
    add_cart_item list_cart assert_cart_product_state upsert_cart_item take_product
    attach_order_items item_view items_of order_by group_rows cart_of
service = tt

abbrev two_of_one : List ProductItemDto
two_of_one = record { product_id = 1; quantity = 2 } ∷ []

checkout_cart-CheckedOut_example :
    CheckedOut alice "home" shop (state (checkout_cart alice "home" shop))
unfolding service
checkout_cart-CheckedOut_example =
    checkout_cart-CheckedOut alice "home" shop (state (checkout_cart alice "home" shop)) {r = _}
      refl

stock-create_order_record_example :
    stock (state (create_order_record bob "b" two_of_one shop)) 1 + 2 ≡ 10
unfolding service
stock-create_order_record_example =
    stock-create_order_record bob "b" two_of_one 1 shop
      (state (create_order_record bob "b" two_of_one shop)) {r = _} refl

shop-OrdersLogged : OrdersLogged shop
shop-OrdersLogged = record { fresh = omega arith; distinct = omega arith; logged = (refl, tt) }

serve-OrdersLogged_example : OrdersLogged (
    serve shop (
      OrderCall.checks_out alice "home"
      ∷ OrderCall.cancels alice 2
      ∷ OrderCall.sets_status root 1 OrderStatus.on_the_way
      ∷ []))
serve-OrdersLogged_example = serve-OrdersLogged shop _ shop-OrdersLogged

add_cart_item-quantity_example :
    quantity_in (state (add_cart_item alice 1 3 shop)) 1 1 ≡ quantity_in shop 1 1 + 3
unfolding service
add_cart_item-quantity_example =
    add_cart_item-quantity alice 1 3 1 1 shop (state (add_cart_item alice 1 3 shop)) {r = _} refl
