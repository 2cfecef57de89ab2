-- ===== src/Kayan/Cart/Checkout.antt =====
-- `checkoutCart` of src/kayan/kayan.service.ts: the order that it places and the cart it leaves.
use kayan_place.Prelude.{
  ℕ, ◌+◌, ◌≤◌, String, ◌≡◌, ◌≢◌, refl, Bool, inl, inr, List, [], ◌∷◌, ◌++◌, map, arith, ◌==◌,
  if◌then◌else◌, length, Bool-cases,
}
use kayan_place.Prelude.Rows.{select_rows, delete_rows}
use kayan_place.Database.{
  Exec, modify, pure, ◌>>◌, ok, state, Outcome-cases, >>=-eq-ok, with_transaction-ok,
}
use kayan_place.Kayan.Dto.{AuthUser}
use kayan_place.Kayan.Tables.{Db, CartItem, rollback}
use kayan_place.Kayan.OrderViews.{OrderView}
use kayan_place.Kayan.Orders.{new_order, with_order, create_order_record}
use kayan_place.Kayan.Orders.Stock.{
  stock, ordered, create_order_record-Created, stock-create_order_record,
}
use kayan_place.Kayan.Orders.Lines.{lines_of, priced, take_products-Untouched, lines-take_products}
use kayan_place.Kayan.Orders.Log.{
  OrdersLogged, create_order_record-OrdersLogged, create_order_record-next,
  transaction-OrdersLogged,
}
use kayan_place.Kayan.Cart.{cart_of, line_of, checkout_callback, checkout_cart}

abbrev pub of_user : ℕ → CartItem → Bool
of_user user_id i = i.user_id == user_id

-- A checkout that succeeded, from `s` to `s'`.
pub record CheckedOut (user : AuthUser) (address : String) (s s' : Db) : Type 0 where
  pub nonempty : cart_of s user.sub ≢ []
  pub order : s'.orders ≡ s.orders ++ new_order s user address ∷ []
  pub lines :
      (k : ℕ)
      → lines_of k s'
        ≡ lines_of k s
          ++ (if s.next_order == k then priced s (map line_of (cart_of s user.sub)) else [])
  pub stock : (k : ℕ) → stock s' k + ordered k (map line_of (cart_of s user.sub)) ≡ stock s k
  pub emptied : select_rows (of_user user.sub) s'.cart_items ≡ []
  pub others :
      (u : ℕ)
      → u ≢ user.sub
      → select_rows (of_user u) s'.cart_items ≡ select_rows (of_user u) s.cart_items

select-delete_self :
    (u : ℕ) (is' : List CartItem) → select_rows (of_user u) (delete_rows (of_user u) is') ≡ []
select-delete_self u [] = refl
select-delete_self u (i ∷ is') = ground (arith, select-delete_self u is')

select-delete_ne :
    (u v : ℕ) (is' : List CartItem)
    → u ≢ v
    → select_rows (of_user u) (delete_rows (of_user v) is') ≡ select_rows (of_user u) is'
select-delete_ne u v [] h = refl
select-delete_ne u v (i ∷ is') h = ground (arith, select-delete_ne u v is' h)

abbrev finish : AuthUser → List OrderView → Exec Db (List OrderView)
finish user order = do
  modify (λ s. record s { cart_items = delete_rows (of_user user.sub) s.cart_items })
  pure order

-- The callback of the transaction, up to the deletion of the cart.
checkout-steps :
    (user : AuthUser) (address : String) (s s' : Db) {r : List OrderView}
    → checkout_callback user address s ≡ ok r s'
    → (cart_of s user.sub ≢ [])
      × (s₁ : Db) × (create_order_record user address (map line_of (cart_of s user.sub)) s
          ≡ ok r s₁)
      × (s' ≡ record s₁ { cart_items = delete_rows (of_user user.sub) s₁.cart_items })
unfolding checkout_callback
checkout-steps user address s s' {r} h = elim (Bool-cases (length (cart_of s user.sub) == 0)) [
  | inl e ↦ absurd (ground arith)
  | inr e ↦
      let items = map line_of (cart_of s user.sub) in
      let (order, s₁, placed, rest) =
        >>=-eq-ok (create_order_record user address items) (finish user) s {b = r} {s'' = s'}
          (ground arith) in
      (ground arith, s₁, ground arith, ground arith)
]

checkout-committed :
    (user : AuthUser) (address : String) (s s' : Db) {r : List OrderView}
    → checkout_cart user address s ≡ ok r s'
    → checkout_callback user address s ≡ ok r s'
unfolding checkout_cart
checkout-committed user address s s' h =
    with_transaction-ok rollback (checkout_callback user address) s h

-- What a successful checkout does: the cart was not empty; one order is placed, in the status
-- received, whose lines are the cart's at the prices of the catalogue; of every product the ordered
-- quantity leaves the stock; the user's cart is empty, and the carts of others are as before.
pub checkout_cart-CheckedOut :
    (user : AuthUser) (address : String) (s s' : Db) {r : List OrderView}
    → checkout_cart user address s ≡ ok r s'
    → CheckedOut user address s s'
checkout_cart-CheckedOut user address s s' {r} h =
    let items = map line_of (cart_of s user.sub) in
    let (nonempty, s₁, placed, final) =
      checkout-steps user address s s' {r = r} (checkout-committed user address s s' h) in
    let c = create_order_record-Created user address items s s₁ placed in
    let t : Db = with_order s user address in
    let same = take_products-Untouched s.next_order items t c.placed c.taken in
    let carts : s₁.cart_items ≡ s.cart_items = ground (arith, c.final, same.cart_items) in
    record {
      nonempty = nonempty;
      order = ground (arith, c.final, same.orders, final);
      lines = λ k.
          ground
            (arith, c.final, final, lines-take_products s.next_order k items t c.placed c.taken);
      stock =
          λ k. ground (arith, final, stock-create_order_record user address items k s s₁ placed);
      emptied = rw (final, carts) (select-delete_self user.sub s.cart_items);
      others = λ u ne. rw (final, carts) (select-delete_ne u user.sub s.cart_items ne);
    }

checkout_callback-next :
    (user : AuthUser) (address : String) (s : Db)
    → s.next_order ≤ (state (checkout_callback user address s)).next_order
unfolding checkout_callback
checkout_callback-next user address s =
    let items = map line_of (cart_of s user.sub) in
    elim (Bool-cases (length (cart_of s user.sub) == 0)) [
      | inl e ↦ ground arith
      | inr e ↦ elim (Outcome-cases (create_order_record user address items s)) [
        | inl (r, s₁, placed) ↦ ground (arith, create_order_record-next user address items s)
        | inr (x, s₁, failed) ↦ ground (arith, create_order_record-next user address items s)
      ]
    ]

pub checkout_cart-OrdersLogged :
    (user : AuthUser) (address : String) (s : Db)
    → OrdersLogged s
    → OrdersLogged (state (checkout_cart user address s))
unfolding checkout_cart
checkout_cart-OrdersLogged user address s v =
    transaction-OrdersLogged (checkout_callback user address) s
      (λ r s' h.
        let (nonempty, s₁, placed, final) = checkout-steps user address s s' h in
        rw final (
          create_order_record-OrdersLogged user address (map line_of (cart_of s user.sub)) s s₁
            placed v))
      (checkout_callback-next user address s) v
