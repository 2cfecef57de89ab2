-- ===== src/Kayan/Orders/Log.antt =====
-- The orders and their status history in src/kayan/kayan.service.ts.
use kayan_place.Prelude.{
  ℕ, ◌≤◌, String, ◌≡◌, refl, true, false, ◌⊎◌, inl, inr, List, [], ◌∷◌, Option, none, some, arith,
  ◌==◌, Bool-cases, length,
}
use kayan_place.Prelude.Rows.{find_row, update_rows, any_row}
use kayan_place.Database.{with_transaction, Exec, ok, state, Outcome-cases}
use kayan_place.Kayan.Dto.{AuthUser, ProductItemDto, CreateOrderDto, OrderStatus, cancelled}
use kayan_place.Kayan.Tables.{Db, Order, rollback}
use kayan_place.Kayan.History.{
  IsLogged, IsLogged-insert, IsLogged-update, IsLogged-touch, IsLogged-later,
}
use kayan_place.Kayan.Products.{is_listed}
use kayan_place.Kayan.Orders.Stock.{create_order_record-Created}
use kayan_place.Kayan.OrderViews.{OrderView}
use kayan_place.Kayan.Orders.{
  new_order, with_order, with_order_history, with_order_address, with_cancelled_order,
  with_order_status, insert_order_history, take_product, take_products, create_order_record,
  create_order, get_order_for_user, update_order_address, cancel_order, admin_update_order_status,
}

-- The ids of the orders are distinct and below the next one, and every order has the status that
-- its history ends in.
abbrev pub OrdersLogged : Db → Type 0
OrdersLogged s = IsLogged (λ o. o.id) (λ o. o.status) s.next_order s.orders s.order_history

-- What a failing or a successful loop over the lines leaves alone.
pub record SameOrders (s s' : Db) : Type 0 where
  pub orders : s'.orders ≡ s.orders
  pub order_history : s'.order_history ≡ s.order_history
  pub next_order : s'.next_order ≡ s.next_order
  pub clock : s'.clock ≡ s.clock

SameOrders-trans : {s t u : Db} → SameOrders s t → SameOrders t u → SameOrders s u
SameOrders-trans a b = ground arith

take_product-SameOrders :
    (order_id : ℕ) (item : ProductItemDto) (found : Option _) (s : Db)
    → SameOrders s (state (take_product order_id item found s))
unfolding take_product
take_product-SameOrders order_id item none s = ground arith
take_product-SameOrders order_id item (some p) s = ground arith

get_order-state :
    (user_id order_id : ℕ) (allow : _) (s : Db)
    → state (get_order_for_user user_id order_id allow s) ≡ s
unfolding get_order_for_user
get_order-state user_id order_id allow s = ground arith

update_order_address-state :
    (user : AuthUser) (k : ℕ) (address : String) (s : Db)
    → (state (update_order_address user k address s) ≡ s)
      ⊎ (state (update_order_address user k address s) ≡ with_order_address s k address)
unfolding update_order_address
update_order_address-state user k address s =
    ground (arith, get_order-state user.sub k true (with_order_address s k address))

cancel_order-state :
    (user : AuthUser) (k : ℕ) (s : Db)
    → (state (cancel_order user k s) ≡ s)
      ⊎ (state (cancel_order user k s)
          ≡ with_order_history (with_cancelled_order s k) k cancelled user.sub)
unfolding cancel_order insert_order_history
cancel_order-state user k s = ground (
  arith,
  get_order-state user.sub k true
      (with_order_history (with_cancelled_order s k) k cancelled user.sub),
)

-- An unknown order is updated nowhere.
update_none :
    (k : ℕ) (f : Order → Order) (os : List Order)
    → any_row (λ o. o.id == k) os ≡ false
    → update_rows (λ o. o.id == k) f os ≡ os
update_none k f [] h = refl
update_none k f (o ∷ os) h = ground (arith, update_none k f os)

admin_update_order_status-state :
    (admin : AuthUser) (k : ℕ) (status : OrderStatus) (s : Db)
    → (state (admin_update_order_status admin k status s) ≡ s)
      ⊎ (state (admin_update_order_status admin k status s)
          ≡ with_order_history (with_order_status s k status) k status admin.sub)
unfolding admin_update_order_status insert_order_history
admin_update_order_status-state admin k status s = ground (
  arith,
  get_order-state 0 k true (with_order_history (with_order_status s k status) k status admin.sub),
  update_none k (λ o. record o { status = status; updated_at = s.clock }) s.orders,
)

pub take_products-SameOrders :
    (order_id : ℕ) (items : List ProductItemDto) (s : Db)
    → SameOrders s (state (take_products order_id items s))
unfolding take_products
take_products-SameOrders order_id [] s = ground arith
take_products-SameOrders order_id (item ∷ items) s =
    let found = find_row (is_listed item.product_id) s.products in
    elim (Outcome-cases (take_product order_id item found s)) [
      | inl (_, s₁, e) ↦ ground (
        arith,
        take_product-SameOrders order_id item found s,
        take_products-SameOrders order_id items s₁,
      )
      | inr (x, s₁, e) ↦ ground (arith, take_product-SameOrders order_id item found s)
    ]

pub create_order_record-next :
    (user : AuthUser) (address : String) (items : List ProductItemDto) (s : Db)
    → s.next_order ≤ (state (create_order_record user address items s)).next_order
unfolding create_order_record
create_order_record-next user address items s =
    let t = with_order s user address in
    elim (Outcome-cases (take_products s.next_order items t)) [
      | inl (_, s₁, e) ↦ ground (arith, take_products-SameOrders s.next_order items t)
      | inr (x, s₁, e) ↦ ground (arith, take_products-SameOrders s.next_order items t)
    ]

pub create_order_record-OrdersLogged :
    (user : AuthUser) (address : String) (items : List ProductItemDto) (s s' : Db)
    {r : List OrderView}
    → create_order_record user address items s ≡ ok r s'
    → OrdersLogged s
    → OrdersLogged s'
create_order_record-OrdersLogged user address items s s' h v =
    let c = create_order_record-Created user address items s s' h in
    let same : SameOrders (with_order s user address) c.placed =
      ground
        (arith, take_products-SameOrders s.next_order items (with_order s user address), c.taken) in
    rw (c.final, same.orders, same.order_history, same.next_order)
      (IsLogged-insert (λ o. o.id) (λ o. o.status) s.next_order s.orders s.order_history
        (new_order s user address) _ refl refl refl v)

-- A transaction keeps the log, if its callback does where it returns and draws ids upwards.
pub transaction-OrdersLogged :
    {A : Type 0} (callback : Exec Db A) (s : Db)
    → ((a : A) (s' : Db) → callback s ≡ ok a s' → OrdersLogged s')
    → s.next_order ≤ (state (callback s)).next_order
    → OrdersLogged s
    → OrdersLogged (state (with_transaction rollback callback s))
transaction-OrdersLogged callback s keep le v = elim (Outcome-cases (callback s)) [
  | inl (a, s', e) ↦ rw (e, with_transaction) (keep a s' e)
  | inr (x, s', e) ↦
      rw (e, with_transaction)
        (IsLogged-later (λ o. o.id) (λ o. o.status) s.next_order s'.next_order s.orders
          s.order_history (ground arith) v)
]

pub create_order-OrdersLogged :
    (user : AuthUser) (dto : CreateOrderDto) (s : Db)
    → OrdersLogged s
    → OrdersLogged (state (create_order user dto s))
unfolding create_order
create_order-OrdersLogged user dto s v = elim (Bool-cases (length dto.items == 0)) [
  | inl e ↦ rw e v
  | inr e ↦ rw e (
      transaction-OrdersLogged (create_order_record user dto.delivery_address dto.items) s
        (λ a s' h. create_order_record-OrdersLogged user dto.delivery_address dto.items s s' h v)
        (create_order_record-next user dto.delivery_address dto.items s) v)
]

pub update_order_address-OrdersLogged :
    (user : AuthUser) (k : ℕ) (address : String) (s : Db)
    → OrdersLogged s
    → OrdersLogged (state (update_order_address user k address s))
update_order_address-OrdersLogged user k address s v =
    elim (update_order_address-state user k address s) [
      | inl e ↦ rw e v
      | inr e ↦ rw e (
          IsLogged-touch (λ o. o.id) (λ o. o.status) s.next_order s.orders s.order_history
            (λ o. o.id == k) (λ o. record o { delivery_address = address; updated_at = s.clock })
            (λ o. refl) (λ o. refl) v)
    ]

pub cancel_order-OrdersLogged :
    (user : AuthUser) (k : ℕ) (s : Db)
    → OrdersLogged s
    → OrdersLogged (state (cancel_order user k s))
cancel_order-OrdersLogged user k s v = elim (cancel_order-state user k s) [
  | inl e ↦ rw e v
  | inr e ↦ rw e (
      IsLogged-update (λ o. o.id) (λ o. o.status) s.next_order k s.orders s.order_history
        (λ o. record o { status = cancelled; cancelled_at = some s.clock; updated_at = s.clock }) _
        refl (λ o. refl) (λ o. refl) v)
]

pub admin_update_order_status-OrdersLogged :
    (admin : AuthUser) (k : ℕ) (status : OrderStatus) (s : Db)
    → OrdersLogged s
    → OrdersLogged (state (admin_update_order_status admin k status s))
admin_update_order_status-OrdersLogged admin k status s v =
    elim (admin_update_order_status-state admin k status s) [
      | inl e ↦ rw e v
      | inr e ↦ rw e (
          IsLogged-update (λ o. o.id) (λ o. o.status) s.next_order k s.orders s.order_history
            (λ o. record o { status = status; updated_at = s.clock }) _ refl (λ o. refl) (λ o. refl)
            v)
    ]
