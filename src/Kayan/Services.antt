-- ===== src/Kayan/Services.antt =====
-- The service orders in src/kayan/kayan.service.ts: `createService`, `updateService`,
-- `cancelService`, `getServiceForUser`, `adminUpdateServiceStatus`.
pub mod Log
use kayan_place.Prelude.{
  ℕ, suc, String, Bool, true, not, ◌&&◌, [], ◌∷◌, ◌++◌, Option, none, some, ◌==◌, get_or,
}
use kayan_place.Prelude.Rows.{find_row, update_rows, any_row}
use kayan_place.Database.{
  Exec, fixed, bad_request, not_found, forbidden, pure, raise, raise_if, gets, modify, ◌>>=◌, ◌>>◌,
}
use kayan_place.Kayan.Dto.{
  AuthUser, CreateServiceOrderDto, UpdateServiceOrderDto, ServiceStatus, not_started, cancelled,
  same_service_status,
}
use kayan_place.Kayan.Tables.{Db, ServiceOrder}

abbrev pub new_service : Db → AuthUser → CreateServiceOrderDto → ServiceOrder
new_service s user dto = record {
  id = s.next_service;
  user_id = user.sub;
  service_type = dto.service_type;
  description = dto.description;
  address = dto.address;
  status = not_started;
  cancelled_at = none;
  created_at = s.clock;
  updated_at = s.clock;
}

abbrev pub with_service : Db → AuthUser → CreateServiceOrderDto → Db
with_service s user dto = record s {
  sequences = record s.sequences { next_service = suc s.next_service };
  services = s.services ++ new_service s user dto ∷ [];
}

-- INSERT INTO service_orders … RETURNING *
insert_service : AuthUser → CreateServiceOrderDto → Exec Db ServiceOrder
insert_service user dto s = pure (new_service s user dto) (with_service s user dto)

abbrev pub with_service_history : Db → ℕ → ServiceStatus → ℕ → Db
with_service_history s service_id status changed_by = record s {
  sequences = record s.sequences { next_service_history = suc s.next_service_history };
  service_history =
      s.service_history
      ++ record {
        id = s.next_service_history;
        item_id = service_id;
        status = status;
        changed_by = changed_by;
        created_at = s.clock;
      }
        ∷ [];
}

-- INSERT INTO service_status_history
unfoldable pub insert_service_history : ℕ → ServiceStatus → (changed_by : ℕ) → Exec Db (Unit {0})
insert_service_history service_id status changed_by =
    modify (λ s. with_service_history s service_id status changed_by)

unfoldable pub create_service : AuthUser → CreateServiceOrderDto → Exec Db ServiceOrder
unfolding insert_service insert_service_history
create_service user dto = do
  service ← insert_service user dto
  insert_service_history service.id not_started user.sub
  pure service

view_service : (user_id : ℕ) → Bool → Option ServiceOrder → Exec Db ServiceOrder
view_service user_id allow_admin none = raise (not_found (fixed "Service order not found"))
view_service user_id allow_admin (some o) = do
  raise_if (not allow_admin && not (o.user_id == user_id)) (forbidden (fixed "Not allowed"))
  pure o

unfoldable pub get_service_for_user : (user_id service_id : ℕ) → Bool → Exec Db ServiceOrder
unfolding view_service
get_service_for_user user_id service_id allow_admin = do
  found ← gets (λ s. find_row (λ o. o.id == service_id) s.services)
  view_service user_id allow_admin found

abbrev pub own_service : AuthUser → ℕ → ServiceOrder → Bool
own_service user service_id o = o.id == service_id && o.user_id == user.sub

-- The two exceptions after SELECT status … WHERE id = $1 AND user_id = $2
unfoldable pub require_not_started : String → Option ServiceOrder → Exec Db (Unit {0})
require_not_started refusal none = raise (not_found (fixed "Service order not found"))
require_not_started refusal (some o) =
    raise_if (not (same_service_status o.status not_started)) (bad_request (fixed refusal))

abbrev pub with_patched_service : Db → ℕ → UpdateServiceOrderDto → Db
with_patched_service s service_id dto = record s {
  services =
      update_rows (λ o. o.id == service_id)
        (λ o. record o {
          description = get_or dto.description o.description;
          address = get_or dto.address o.address;
          updated_at = s.clock;
        })
        s.services;
}

unfoldable pub update_service : AuthUser → ℕ → UpdateServiceOrderDto → Exec Db ServiceOrder
unfolding require_not_started
update_service user service_id dto = do
  found ← gets (λ s. find_row (own_service user service_id) s.services)
  require_not_started "Service order can only be updated before processing starts" found
  modify (λ s. with_patched_service s service_id dto)
  get_service_for_user user.sub service_id true

abbrev pub with_cancelled_service : Db → ℕ → Db
with_cancelled_service s service_id = record s {
  services =
      update_rows (λ o. o.id == service_id)
        (λ o. record o { status = cancelled; cancelled_at = some s.clock; updated_at = s.clock })
        s.services;
}

unfoldable pub cancel_service : AuthUser → ℕ → Exec Db ServiceOrder
unfolding require_not_started insert_service_history
cancel_service user service_id = do
  found ← gets (λ s. find_row (own_service user service_id) s.services)
  require_not_started "Service cancellation allowed only before processing starts" found
  modify (λ s. with_cancelled_service s service_id)
  insert_service_history service_id cancelled user.sub
  get_service_for_user user.sub service_id true

abbrev pub with_service_status : Db → ℕ → ServiceStatus → Db
with_service_status s service_id status = record s {
  services =
      update_rows (λ o. o.id == service_id)
        (λ o. record o { status = status; updated_at = s.clock }) s.services;
}

unfoldable pub admin_update_service_status : AuthUser → ℕ → ServiceStatus → Exec Db ServiceOrder
unfolding insert_service_history
admin_update_service_status admin service_id status = do
  found ← gets (λ s. any_row (λ o. o.id == service_id) s.services)
  modify (λ s. with_service_status s service_id status)
  raise_if (not found) (not_found (fixed "Service order not found"))
  insert_service_history service_id status admin.sub
  get_service_for_user 0 service_id true
