-- ===== src/Kayan/Cart/Quantities.antt =====
-- `addCartItem` of src/kayan/kayan.service.ts: what a cart then holds.
use kayan_place.Prelude.{
  ℕ, ◌+◌, ◌≡◌, refl, sym, ◌∙◌, true, false, not, ◌&&◌, inl, inr, List, [], ◌∷◌, ◌++◌, Option, none,
  some, arith, ◌==◌, if◌then◌else◌, is_some, Bool-cases,
}
use kayan_place.Prelude.Rows.{find_row, update_rows, any_row, any_row-find_row}
use kayan_place.Database.{ok, >>=-eq-ok, ◌>>◌}
use kayan_place.Kayan.Dto.{AuthUser}
use kayan_place.Kayan.Tables.{Db, CartItem}
use kayan_place.Kayan.Products.{is_listed}
use kayan_place.Kayan.Cart.{
  CartItemView, is_cart_key, put_cart_item, has_overflow, upsert_cart_item,
  assert_cart_product_state, add_cart_item, list_cart, active_product, is_short,
}

abbrev quantity_of : Option CartItem → ℕ
quantity_of none = 0
quantity_of (some i) = i.quantity

-- What the cart of a user holds of a product.
abbrev pub quantity_in : Db → (user_id product_id : ℕ) → ℕ
quantity_in s user_id product_id =
    quantity_of (find_row (is_cart_key user_id product_id) s.cart_items)

module _ (v p q now : ℕ) where
  abbrev added : CartItem → CartItem
  added i = record i { quantity = i.quantity + q; updated_at = now }

  update-quantity :
      (u k : ℕ) (items : List CartItem)
      → quantity_of (find_row (is_cart_key u k) (update_rows (is_cart_key v p) added items))
        ≡ quantity_of (find_row (is_cart_key u k) items)
          + (if (u == v && k == p) && any_row (is_cart_key u k) items then q else 0)
  update-quantity u k [] = ground arith
  update-quantity u k (i ∷ is') = ground (arith, update-quantity u k is')

  append-quantity :
      (u k : ℕ) (new : CartItem) (items : List CartItem)
      → new.user_id ≡ v
      → new.product_id ≡ p
      → new.quantity ≡ q
      → any_row (is_cart_key v p) items ≡ false
      → quantity_of (find_row (is_cart_key u k) (items ++ new ∷ []))
        ≡ quantity_of (find_row (is_cart_key u k) items) + (if u == v && k == p then q else 0)
  append-quantity u k new [] a b c h = ground arith
  append-quantity u k new (i ∷ is') a b c h = ground (arith, append-quantity u k new is' a b c)

any-same :
    (u k v p : ℕ) (items : List CartItem)
    → (u == v && k == p) ≡ true
    → any_row (is_cart_key u k) items ≡ any_row (is_cart_key v p) items
any-same u k v p [] h = refl
any-same u k v p (i ∷ is') h = ground (arith, any-same u k v p is')

put-quantity :
    (s : Db) (key v p q u k : ℕ)
    → quantity_of (
        find_row
          (is_cart_key u k)
          (put_cart_item s key v p q (is_some (find_row (is_cart_key v p) s.cart_items))))
      ≡ quantity_in s u k + (if u == v && k == p then q else 0)
put-quantity s key v p q u k = elim (Bool-cases (any_row (is_cart_key v p) s.cart_items)) [
  | inl held ↦
      let known : is_some (find_row (is_cart_key v p) s.cart_items) ≡ true =
        sym (any_row-find_row (is_cart_key v p) s.cart_items) ∙ held in
      elim (Bool-cases (u == v && k == p)) [
        | inl e ↦ ground (
          arith,
          known,
          held,
          e,
          update-quantity v p q s.clock u k s.cart_items,
          any-same u k v p s.cart_items e,
        )
        | inr e ↦ ground (arith, known, e, update-quantity v p q s.clock u k s.cart_items)
      ]
  | inr fresh ↦
      let unknown : is_some (find_row (is_cart_key v p) s.cart_items) ≡ false =
        sym (any_row-find_row (is_cart_key v p) s.cart_items) ∙ fresh in
      rw unknown (append-quantity v p q s.clock u k _ s.cart_items refl refl refl fresh)
]

upsert-quantity :
    (v p q u k : ℕ) (s s' : Db)
    → upsert_cart_item v p q s ≡ ok tt s'
    → quantity_in s' u k ≡ quantity_in s u k + (if u == v && k == p then q else 0)
unfolding upsert_cart_item
upsert-quantity v p q u k s s' h = elim (Bool-cases (q == 0)) [
  | inl e ↦ absurd (ground arith)
  | inr e ↦ elim (Bool-cases (has_overflow q (find_row (is_cart_key v p) s.cart_items))) [
    | inl o ↦ absurd (ground arith)
    | inr o ↦ ground (arith, put-quantity s s.next_cart_item v p q u k)
  ]
]

assert-same : (p q : ℕ) (s s' : Db) → assert_cart_product_state p q s ≡ ok tt s' → s' ≡ s
unfolding assert_cart_product_state
assert-same p q s s' h =
    let found = find_row (is_listed p) s.products in
    elim (Bool-cases (not (active_product found))) [
      | inl e ↦ absurd (ground arith)
      | inr e ↦ elim (Bool-cases (is_short found q)) [
        | inl e' ↦ absurd (ground arith)
        | inr e' ↦ ground arith
      ]
    ]

list-same :
    (user : AuthUser) (s s' : Db) {r : List CartItemView} → list_cart user s ≡ ok r s' → s' ≡ s
unfolding list_cart
list-same user s s' h = ground arith

-- When an item was added to the cart of a user, the cart holds that much more of the product; of
-- other products, and in the carts of others, it is as before.
pub add_cart_item-quantity :
    (user : AuthUser) (p q u k : ℕ) (s s' : Db) {r : List CartItemView}
    → add_cart_item user p q s ≡ ok r s'
    → quantity_in s' u k ≡ quantity_in s u k + (if u == user.sub && k == p then q else 0)
unfolding add_cart_item
add_cart_item-quantity user p q u k s s' {r} h =
    let (_, s₁, checked, rest) =
      >>=-eq-ok (assert_cart_product_state p q)
        (λ _. upsert_cart_item user.sub p q >> list_cart user) s {b = r} {s'' = s'} h in
    let (_, s₂, put, shown) =
      >>=-eq-ok (upsert_cart_item user.sub p q) (λ _. list_cart user) s₁ {b = r} {s'' = s'} rest in
    let same₁ : s₁ ≡ s = assert-same p q s s₁ checked in
    let same₂ : s' ≡ s₂ = list-same user s₂ s' {r = r} shown in
    ground (arith, upsert-quantity user.sub p q u k s₁ s₂ put, same₁, same₂)
