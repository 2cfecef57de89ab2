-- ===== src/Kayan/Orders/Stock.antt =====
-- The stock of the catalogue under `createOrderRecord` of src/kayan/kayan.service.ts.
use kayan_place.Prelude.{
  ℕ, String, ◌+◌, ◌-◌, ◌≡◌, refl, List, [], ◌∷◌, Option, none, some, arith, ◌==◌, if◌then◌else◌,
}
use kayan_place.Prelude.Rows.{find_row}
use kayan_place.Database.{ok, >>=-eq-ok}
use kayan_place.Kayan.Dto.{AuthUser, ProductItemDto, received}
use kayan_place.Kayan.Tables.{Db, Product}
use kayan_place.Kayan.Products.{is_listed}
use kayan_place.Kayan.OrderViews.{OrderView}
use kayan_place.Kayan.Orders.{
  reduce_amount, take_product, take_products, create_order_record, with_order, with_order_history,
}

abbrev pub amount_of : Option Product → ℕ
amount_of none = 0
amount_of (some p) = p.amount

-- What is in stock of a product that is not deleted.
abbrev pub stock : Db → ℕ → ℕ
stock s k = amount_of (find_row (is_listed k) s.products)

-- The quantity of one product over the lines of an order.
abbrev pub ordered : ℕ → List ProductItemDto → ℕ
ordered k [] = 0
ordered k (i ∷ is') = (if i.product_id == k then i.quantity else 0) + ordered k is'

stock-reduce_amount :
    (s : Db) (j n k : ℕ) (ps : List Product)
    → amount_of (find_row (is_listed k) (reduce_amount s j n ps)) ≡ (
        if j == k
        then amount_of (find_row (is_listed k) ps) - n
        else amount_of (find_row (is_listed k) ps))
stock-reduce_amount s j n k [] = ground arith
stock-reduce_amount s j n k (p ∷ ps) = ground (arith, stock-reduce_amount s j n k ps)

stock-take_product :
    (order_id : ℕ) (item : ProductItemDto) (found : Option Product) (k : ℕ) (s s' : Db)
    → find_row (is_listed item.product_id) s.products ≡ found
    → take_product order_id item found s ≡ ok tt s'
    → stock s' k + (if item.product_id == k then item.quantity else 0) ≡ stock s k
unfolding take_product
stock-take_product order_id item none k s s' f h = cc
stock-take_product order_id item (some p) k s s' f h =
    ground (arith, stock-reduce_amount s item.product_id item.quantity k s.products)

pub stock-take_products :
    (order_id : ℕ) (items : List ProductItemDto) (k : ℕ) (s s' : Db)
    → take_products order_id items s ≡ ok tt s'
    → stock s' k + ordered k items ≡ stock s k
unfolding take_products
stock-take_products order_id [] k s s' h = ground arith
stock-take_products order_id (item ∷ items) k s s' h =
    let (_, s₁, taken, rest) =
      >>=-eq-ok (take_product order_id item found) (λ _. take_products order_id items) s h in
    omega (
      arith,
      stock-take_product order_id item found k s s₁ refl taken,
      stock-take_products order_id items k s₁ s' rest,
    )
  where
    found : Option Product
    found = find_row (is_listed item.product_id) s.products

-- The states through which an order that was created went.
pub record Created (user : AuthUser) (address : String) (items : List ProductItemDto) (s s' : Db)
    : Type 0 where
  pub placed : Db
  pub taken : take_products s.next_order items (with_order s user address) ≡ ok tt placed
  pub final : s' ≡ with_order_history placed s.next_order received user.sub

pub create_order_record-Created :
    (user : AuthUser) (address : String) (items : List ProductItemDto) (s s' : Db)
    {r : List OrderView}
    → create_order_record user address items s ≡ ok r s'
    → Created user address items s s'
unfolding create_order_record
create_order_record-Created user address items s s' h =
    let (_, s₁, taken, rest) =
      >>=-eq-ok (take_products s.next_order items) _ (with_order s user address) h in
    record { placed = s₁; taken = taken; final = ground arith }

-- When an order was created, what it takes is what leaves the stock: of every product, the stock
-- before is the stock after with the ordered quantity.
pub stock-create_order_record :
    (user : AuthUser) (address : String) (items : List ProductItemDto) (k : ℕ) (s s' : Db)
    {r : List OrderView}
    → create_order_record user address items s ≡ ok r s'
    → stock s' k + ordered k items ≡ stock s k
stock-create_order_record user address items k s s' h =
    let c = create_order_record-Created user address items s s' h in
    ground (
      arith,
      stock-take_products s.next_order items k (with_order s user address) c.placed c.taken,
      c.final,
    )
