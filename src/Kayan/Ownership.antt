-- ===== src/Kayan/Ownership.antt =====
-- Who owns an item in src/kayan/kayan.service.ts: `resolveOwnership`, `assertUserOwnsItem`,
-- `assertItemExists`.
use kayan_place.Prelude.{ℕ, not, ◌&&◌, Option, none, some, ◌==◌, is_some}
use kayan_place.Prelude.Rows.{find_row}
use kayan_place.Database.{Exec, fixed, not_found, forbidden, raise, raise_if, gets, ◌>>=◌}
use kayan_place.Kayan.Dto.{AuthUser, ItemType, order, fault, service}
use kayan_place.Kayan.Tables.{Db, Order, Fault, ServiceOrder}

abbrev order_user : Option Order → Option ℕ
order_user none = none
order_user (some o) = some o.user_id

abbrev fault_user : Option Fault → Option ℕ
fault_user none = none
fault_user (some f) = some f.user_id

abbrev service_user : Option ServiceOrder → Option ℕ
service_user none = none
service_user (some o) = some o.user_id

unfoldable pub owner_of : Db → ItemType → ℕ → Option ℕ
owner_of s order item_id = order_user (find_row (λ o. o.id == item_id) s.orders)
owner_of s fault item_id = fault_user (find_row (λ f. f.id == item_id) s.faults)
owner_of s service item_id = service_user (find_row (λ o. o.id == item_id) s.services)

unfoldable pub resolve_ownership : ItemType → ℕ → Exec Db (Option ℕ)
resolve_ownership item_type item_id = gets (λ s. owner_of s item_type item_id)

check_owner : AuthUser → Option ℕ → Exec Db (Unit {0})
check_owner user none = raise (not_found (fixed "Item not found"))
check_owner user (some owner) =
    raise_if (not user.is_admin && not (owner == user.sub)) (forbidden (fixed "Not allowed"))

unfoldable pub assert_user_owns_item : AuthUser → ItemType → ℕ → Exec Db (Unit {0})
unfolding resolve_ownership check_owner
assert_user_owns_item user item_type item_id = do
  ownership ← resolve_ownership item_type item_id
  check_owner user ownership

unfoldable pub assert_item_exists : ItemType → ℕ → Exec Db (Unit {0})
unfolding resolve_ownership
assert_item_exists item_type item_id = do
  ownership ← resolve_ownership item_type item_id
  raise_if (not (is_some ownership)) (not_found (fixed "Item not found"))
