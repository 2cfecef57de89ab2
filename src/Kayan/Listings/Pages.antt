-- ===== src/Kayan/Listings/Pages.antt =====
-- The pages of the listings of orders and service orders in src/kayan/kayan.service.ts.
use mathlib.Core.List.{Perm}
use kayan_place.Prelude.{ℕ, ◌*◌, ◌≤◌, ◌≡◌, refl, Bool, false, List, [], ◌∷◌, map, arith, subst, sym}
use kayan_place.Prelude.Rows.{select_rows}
use kayan_place.Kayan.Dto.{AuthUser}
use kayan_place.Kayan.Tables.{Db, Order}
use kayan_place.Kayan.OrderViews.{attach_order_items}
use kayan_place.Kayan.Listings.{direction, listed}
use kayan_place.Kayan.Listings.Orders.{
  ListOrdersQueryDto, order_before, my_order, with_user, list_my_orders,
}
use kayan_place.Kayan.Listings.Services.{
  ListServicesQueryDto, service_filter, service_before, public_list_services,
}
use kayan_place.Kayan.Listings.Laws.{
  IsPage, listed-IsPage, directed-asym, directed-chain, page_query, first_pages, first_pages-perm,
}

map-id {ℓ κ μ} :
    {A : Type ℓ} {B : Type κ} {C : Type μ} (f : A → B) (g : B → C) (h : C → A)
    → ((x : A) → h (g (f x)) ≡ x)
    → (xs : List A) → map h (map g (map f xs)) ≡ xs
map-id f g h e [] = refl
map-id f g h e (x ∷ xs) = ground (arith, e x, map-id f g h e xs)

views-orders :
    (s : Db) (b : Bool) (rows : List Order)
    → map (λ v. v.order) (attach_order_items s (map (with_user s) rows) b) ≡ rows
unfolding attach_order_items
views-orders s b rows = map-id (with_user s) _ (λ v. v.order) (λ x. refl) rows

-- What `listMyOrders` answers are orders of the user that meet the filters of the query, in the
-- order asked for, and at most a hundred.
pub list_my_orders-IsPage :
    (s : Db) (user : AuthUser) (query : ListOrdersQueryDto)
    → IsPage
        (my_order user query)
        (order_before (direction query.sort_direction))
        (map (λ v. v.order) (list_my_orders s user query))
unfolding list_my_orders
list_my_orders-IsPage s user query =
    let d = direction query.sort_direction in
    let condition = my_order user query in
    subst (IsPage condition (order_before d))
      (sym (views-orders s false (listed condition (order_before d) query.page s.orders)))
      (listed-IsPage condition (order_before d)
        (λ x y. directed-asym d x.created_at y.created_at x.id y.id)
        (λ x y z. directed-chain d x.created_at y.created_at z.created_at x.id y.id z.id) query.page
        s.orders)

-- Paging through `publicListServices` with a limit of at most a hundred: pages that reach the total
-- show each service order that meets the filters exactly once.
pub public_list_services-pages :
    (s : Db) (query : ListServicesQueryDto) (limit n : ℕ)
    → limit ≤ 100
    → (public_list_services s query).total ≤ n * limit
    → Perm
        (first_pages
          (λ k. (public_list_services s (record query { page = page_query k limit })).items)
          n)
        (select_rows (service_filter query) s.services)
unfolding public_list_services
public_list_services-pages s query limit n cap enough =
    first_pages-perm (service_filter query) (service_before (direction query.sort_direction)) limit
      n s.services cap enough
