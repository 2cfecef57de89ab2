-- ===== src/Kayan/Lifecycle/Orders.antt =====
-- Any sequence of the requests on orders of src/kayan/kayan.service.ts.
use kayan_place.Prelude.{ℕ, String, List, [], ◌∷◌}
use kayan_place.Database.{Exec, state}
use kayan_place.Kayan.Dto.{AuthUser, CreateOrderDto, OrderStatus}
use kayan_place.Kayan.Tables.{Db}
use kayan_place.Kayan.OrderViews.{OrderView}
use kayan_place.Kayan.Orders.{
  create_order, update_order_address, cancel_order, admin_update_order_status,
}
use kayan_place.Kayan.Orders.Log.{
  OrdersLogged, create_order-OrdersLogged, update_order_address-OrdersLogged,
  cancel_order-OrdersLogged, admin_update_order_status-OrdersLogged,
}
use kayan_place.Kayan.Cart.{checkout_cart}
use kayan_place.Kayan.Cart.Checkout.{checkout_cart-OrdersLogged}

-- A request that writes an order.
pub data OrderCall : Type 0 where
  creates : AuthUser → CreateOrderDto → OrderCall
  checks_out : AuthUser → (delivery_address : String) → OrderCall
  readdresses : AuthUser → ℕ → (delivery_address : String) → OrderCall
  cancels : AuthUser → ℕ → OrderCall
  sets_status : AuthUser → ℕ → OrderStatus → OrderCall

pub handle : OrderCall → Exec Db (List OrderView)
handle (creates user dto) = create_order user dto
handle (checks_out user address) = checkout_cart user address
handle (readdresses user k address) = update_order_address user k address
handle (cancels user k) = cancel_order user k
handle (sets_status admin k status) = admin_update_order_status admin k status

-- An exception ends its own request.
pub serve : Db → List OrderCall → Db
serve s [] = s
serve s (c ∷ cs) = serve (state (handle c s)) cs

handle-OrdersLogged : (c : OrderCall) (s : Db) → OrdersLogged s → OrdersLogged (state (handle c s))
unfolding handle
handle-OrdersLogged (creates user dto) s v = create_order-OrdersLogged user dto s v
handle-OrdersLogged (checks_out user address) s v = checkout_cart-OrdersLogged user address s v
handle-OrdersLogged (readdresses user k address) s v =
    update_order_address-OrdersLogged user k address s v
handle-OrdersLogged (cancels user k) s v = cancel_order-OrdersLogged user k s v
handle-OrdersLogged (sets_status admin k status) s v =
    admin_update_order_status-OrdersLogged admin k status s v

-- Over any requests, failing or not: from a state where the ids of the orders are distinct and
-- below the next one and every order has the status that its history ends in, such a state is
-- reached.
pub serve-OrdersLogged : (s : Db) (cs : List OrderCall) → OrdersLogged s → OrdersLogged (serve s cs)
unfolding serve
serve-OrdersLogged s [] v = v
serve-OrdersLogged s (c ∷ cs) v =
    serve-OrdersLogged (state (handle c s)) cs (handle-OrdersLogged c s v)
