-- ===== src/Kayan/Orders/Lines.antt =====
-- The lines of an order under `createOrderRecord` of src/kayan/kayan.service.ts.
use mathlib.Core.List.{append-nil, append_assoc, map-append}
use kayan_place.Prelude.{
  ℕ, ◌≡◌, refl, List, [], ◌∷◌, ◌++◌, map, Option, none, some, arith, ◌==◌, if◌then◌else◌,
}
use kayan_place.Prelude.Rows.{find_row, select_rows, select_rows-append}
use kayan_place.Database.{ok, >>=-eq-ok}
use kayan_place.Kayan.Dto.{ProductItemDto}
use kayan_place.Kayan.Tables.{Db, Product, OrderItem}
use kayan_place.Kayan.Products.{is_listed}
use kayan_place.Kayan.Orders.{reduce_amount, take_product, take_products}

-- A line as the customer sees it: what was ordered, and at what price.
pub record Line : Type 0 where
  pub product_id : ℕ
  pub quantity : ℕ
  pub unit_price : ℕ

abbrev pub line : OrderItem → Line
line i = record { product_id = i.product_id; quantity = i.quantity; unit_price = i.unit_price }

abbrev pub lines_of : ℕ → Db → List Line
lines_of order_id s = map line (select_rows (λ i. i.order_id == order_id) s.order_items)

abbrev price_of : Option Product → ℕ
price_of none = 0
price_of (some p) = p.price

-- The price of a product that is not deleted.
abbrev pub price : Db → ℕ → ℕ
price s k = price_of (find_row (is_listed k) s.products)

-- The lines that an order should have: each item at the price of the catalogue.
abbrev pub priced : Db → List ProductItemDto → List Line
priced s [] = []
priced s (i ∷ is') =
    record { product_id = i.product_id; quantity = i.quantity; unit_price = price s i.product_id }
    ∷ priced s is'

-- What taking products leaves alone.
pub record Untouched (s s' : Db) : Type 0 where
  pub clock : s'.clock ≡ s.clock
  pub orders : s'.orders ≡ s.orders
  pub order_history : s'.order_history ≡ s.order_history
  pub cart_items : s'.cart_items ≡ s.cart_items
  pub next_order : s'.next_order ≡ s.next_order
  pub next_order_history : s'.next_order_history ≡ s.next_order_history

price-reduce_amount :
    (s : Db) (j n k : ℕ) (ps : List Product)
    → price_of (find_row (is_listed k) (reduce_amount s j n ps))
      ≡ price_of (find_row (is_listed k) ps)
price-reduce_amount s j n k [] = refl
price-reduce_amount s j n k (p ∷ ps) = ground (arith, price-reduce_amount s j n k ps)

-- One product taken: one row more, and the prices as they were.
record Taken (order_id : ℕ) (item : ProductItemDto) (s s' : Db) : Type 0 where
  key : ℕ
  rows :
      s'.order_items
      ≡ s.order_items
        ++ record {
          id = key;
          order_id = order_id;
          product_id = item.product_id;
          quantity = item.quantity;
          unit_price = price s item.product_id;
        }
          ∷ []
  prices : (k : ℕ) → price s' k ≡ price s k
  rest : Untouched s s'

take_product-Taken :
    (order_id : ℕ) (item : ProductItemDto) (found : Option Product) (s s' : Db)
    → find_row (is_listed item.product_id) s.products ≡ found
    → take_product order_id item found s ≡ ok tt s'
    → Taken order_id item s s'
unfolding take_product
take_product-Taken order_id item none s s' f h = cc
take_product-Taken order_id item (some p) s s' f h = record {
  key = s.next_order_item;
  rows = ground arith;
  prices = λ k. ground (arith, price-reduce_amount s item.product_id item.quantity k s.products);
  rest = ground arith;
}

Untouched-trans : {s t u : Db} → Untouched s t → Untouched t u → Untouched s u
Untouched-trans a b = ground arith

priced_cong :
    (s s' : Db)
    → ((k : ℕ) → price s' k ≡ price s k)
    → (items : List ProductItemDto) → priced s' items ≡ priced s items
priced_cong s s' h [] = refl
priced_cong s s' h (i ∷ is') = ground (arith, h i.product_id, priced_cong s s' h is')

pub take_products-Untouched :
    (order_id : ℕ) (items : List ProductItemDto) (s s' : Db)
    → take_products order_id items s ≡ ok tt s'
    → Untouched s s'
unfolding take_products
take_products-Untouched order_id [] s s' h = ground arith
take_products-Untouched order_id (item ∷ items) s s' h =
    let found = find_row (is_listed item.product_id) s.products in
    let (_, s₁, taken, more) =
      >>=-eq-ok (take_product order_id item found) (λ _. take_products order_id items) s h in
    Untouched-trans (take_product-Taken order_id item found s s₁ refl taken).rest
      (take_products-Untouched order_id items s₁ s' more)

lines-Taken :
    {order_id : ℕ} {item : ProductItemDto} {s s' : Db} (k : ℕ)
    → Taken order_id item s s'
    → lines_of k s' ≡ lines_of k s ++ (if order_id == k then priced s (item ∷ []) else [])
lines-Taken {order_id} {item} {s} {s'} k t =
    rw t.rows (simp (select_rows-append, map-append) (ground arith))

-- The lines of the order grow by its items, and those of other orders stay.
pub lines-take_products :
    (order_id k : ℕ) (items : List ProductItemDto) (s s' : Db)
    → take_products order_id items s ≡ ok tt s'
    → lines_of k s' ≡ lines_of k s ++ (if order_id == k then priced s items else [])
unfolding take_products
lines-take_products order_id k [] s s' h = ground (arith, append-nil (lines_of k s))
lines-take_products order_id k (item ∷ items) s s' h =
    let found = find_row (is_listed item.product_id) s.products in
    let (_, s₁, taken, more) =
      >>=-eq-ok (take_product order_id item found) (λ _. take_products order_id items) s h in
    let t = take_product-Taken order_id item found s s₁ refl taken in
    ground (
      arith,
      lines-Taken k t,
      lines-take_products order_id k items s₁ s' more,
      priced_cong s s₁ t.prices items,
      append_assoc (lines_of k s) (priced s (item ∷ [])) (priced s items),
      append-nil (lines_of k s),
    )
