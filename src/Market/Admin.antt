-- ===== src/Market/Admin.antt =====
-- `AdminService` of src/admin/admin.service.ts.
pub mod Lists
use Prim.Native.String
use kayan_place.Prelude.{
  ℕ, suc, String, Bool, true, false, not, ◌&&◌, ◌||◌, List, [], ◌∷◌, ◌++◌, map, Option, none, some,
  ◌==◌, ltb, is_some, length, if◌then◌else◌,
}
use kayan_place.Prelude.Rows.{find_row, select_rows, update_rows, delete_rows, any_row}
use kayan_place.Prelude.Sort.{order_by}
use kayan_place.Helpers.Pagination.{OffsetPaginationQuery, resolve_offset_pagination, paginate}
use kayan_place.Database.{
  Exec, fixed, not_found, conflict, bad_request, redis_error, type_error, pure, raise, raise_if,
  gets, modify, ◌>>=◌, ◌>>◌,
}
use kayan_place.Kayan.Dto.{AuthUser}
use kayan_place.Auth.Tables.{Account, UserStatus}
use kayan_place.Auth.Store.{cache_del}
use kayan_place.Market.Tables.{
  MarketDb, AdminWarning, AuditLog, Listing, ListingStatus, is_user, with_accounts,
}
use kayan_place.Market.Access.{assert_user_exists}
use kayan_place.Market.Views.{AppUser, map_to_app_user, without_email, status_name}

abbrev pub with_audit :
    MarketDb → (actor : ℕ) → (action : String) → (target : ℕ) → (payload : String) → MarketDb
with_audit s actor action target payload = record s {
  sequences = record s.sequences { next_audit = suc s.next_audit };
  audit_logs =
      s.audit_logs
      ++ record {
        id = s.next_audit;
        actor_id = actor;
        action = action;
        target_id = target;
        payload = payload;
        created_at = s.clock;
      }
        ∷ [];
}

-- The actor references users; an error of the statement is caught and logged.
unfoldable pub log_admin_action :
    (actor : ℕ) → (action : String) → (target : ℕ) → (payload : String) → Exec MarketDb (Unit {0})
log_admin_action actor action target payload = modify (λ s.
    if any_row (λ a. a.id == actor) s.accounts then with_audit s actor action target payload else s)

-- The row of `mapToAppUser` with what the administrators also see.
pub record AdminUser : Type 0 where
  pub user : AppUser
  pub is_admin : Bool
  pub created_at : ℕ
  pub updated_at : ℕ

abbrev pub admin_user : Account → AdminUser
unfolding map_to_app_user
admin_user a = record {
  user = map_to_app_user (without_email a);
  is_admin = a.is_admin;
  created_at = a.created_at;
  updated_at = a.updated_at;
}

-- `query.rows[0]` of an UPDATE … RETURNING
abbrev returned : Option Account → Exec MarketDb Account
returned none = raise type_error
returned (some a) = pure a

abbrev require_user : Option Account → Exec MarketDb Account
require_user none = raise (not_found (fixed "User not found"))
require_user (some a) = pure a

-- UPDATE users SET is_admin, token_version = token_version + 1 … WHERE id AND deleted_at IS NULL
abbrev pub set_admin : MarketDb → ℕ → Bool → MarketDb
set_admin s user_id is_admin = with_accounts s (
    update_rows (is_user user_id)
      (λ a. record a {
        is_admin = is_admin;
        token_version = suc a.token_version;
        updated_at = s.clock;
      })
      s.accounts)

unfoldable pub promote_admin : AuthUser → ℕ → Exec MarketDb (AdminUser × ℕ)
unfolding log_admin_action map_to_app_user
promote_admin admin user_id = do
  found ← gets (λ s. find_row (is_user user_id) s.accounts)
  before ← require_user found
  raise_if before.is_admin (conflict (fixed "User is already an admin"))
  modify (λ s. set_admin s user_id true)
  row ← gets (λ s. find_row (is_user user_id) s.accounts)
  user ← returned row
  log_admin_action admin.sub "promote_admin" user_id "{\"is_admin\":true}"
  pure (admin_user user, user.token_version)

unfoldable pub demote_admin : AuthUser → ℕ → Exec MarketDb (AdminUser × ℕ)
unfolding log_admin_action map_to_app_user
demote_admin admin user_id = do
  raise_if (admin.sub == user_id) (bad_request (fixed "Admins cannot demote themselves"))
  found ← gets (λ s. find_row (is_user user_id) s.accounts)
  before ← require_user found
  raise_if (not before.is_admin) (conflict (fixed "User is not an admin"))
  modify (λ s. set_admin s user_id false)
  row ← gets (λ s. find_row (is_user user_id) s.accounts)
  user ← returned row
  log_admin_action admin.sub "demote_admin" user_id "{\"is_admin\":false}"
  pure (admin_user user, user.token_version)

-- `redisService.del('user:status:…')`, which nothing catches.
abbrev forget_status : (key : String) → Exec MarketDb (Unit {0})
forget_status key = do
  failing ← gets (λ s. s.redis.enabled && not s.redis.answers)
  raise_if failing redis_error
  modify (λ s. record s {
    auth = record s.auth {
      redis =
          if s.redis.enabled
          then record s.redis { user_statuses = cache_del key s.redis.user_statuses }
          else s.redis;
    };
  })

abbrev pub set_status : MarketDb → ℕ → UserStatus → MarketDb
set_status s user_id status = with_accounts s (
    update_rows (is_user user_id) (λ a. record a { status = status; updated_at = s.clock })
      s.accounts)

-- UPDATE users SET deleted_at = NOW(), token_version = token_version + 1 … RETURNING id
abbrev pub set_deleted : MarketDb → ℕ → MarketDb
set_deleted s user_id = with_accounts s (
    update_rows (is_user user_id)
      (λ a. record a {
        deleted_at = some s.clock;
        token_version = suc a.token_version;
        updated_at = s.clock;
      })
      s.accounts)

-- The UPDATE with its row count.
unfoldable pub delete_account : ℕ → Exec MarketDb (Unit {0})
delete_account user_id = do
  found ← gets (λ s. any_row (is_user user_id) s.accounts)
  modify (λ s. set_deleted s user_id)
  raise_if (not found) (not_found (fixed "User not found"))

pub record CreateWarningDto : Type 0 where
  pub target_user_id : ℕ
  pub message : String

abbrev warning_row : MarketDb → AuthUser → CreateWarningDto → AdminWarning
warning_row s admin dto = record {
  id = s.next_warning;
  admin_id = admin.sub;
  target_user_id = dto.target_user_id;
  message = dto.message;
  created_at = s.clock;
}

-- Both users are referenced; a violation of either is an unknown target, and the identity is drawn.
abbrev pub insert_warning : AuthUser → CreateWarningDto → Exec MarketDb AdminWarning
insert_warning admin dto = do
  warning ← gets (λ s. warning_row s admin dto)
  modify (λ s. record s { sequences = record s.sequences { next_warning = suc s.next_warning } })
  known ← gets (λ s.
      any_row (λ a. a.id == admin.sub) s.accounts
      && any_row (λ a. a.id == dto.target_user_id) s.accounts)
  raise_if (not known) (not_found (fixed "Target user not found"))
  modify (λ s. record s { warnings = s.warnings ++ warning ∷ [] })
  pure warning

-- `to_json` is JSON.stringify of the payload `{ message }`.
unfoldable pub create_warning :
    (to_json : String → String) → AuthUser → CreateWarningDto → Exec MarketDb AdminWarning
unfolding log_admin_action assert_user_exists
create_warning to_json admin dto = do
  assert_user_exists dto.target_user_id "Target user not found"
  warning ← insert_warning admin dto
  log_admin_action admin.sub "create_warning" dto.target_user_id (to_json dto.message)
  pure warning

module _ (status_key : ℕ → String) where
  -- `status_key` is the template `user:status:${userId}`.
  unfoldable pub update_user_status : AuthUser → ℕ → UserStatus → Exec MarketDb AdminUser
  unfolding log_admin_action map_to_app_user
  update_user_status admin user_id status = do
    found ← gets (λ s. any_row (is_user user_id) s.accounts)
    modify (λ s. set_status s user_id status)
    raise_if (not found) (not_found (fixed "User not found"))
    row ← gets (λ s. find_row (is_user user_id) s.accounts)
    user ← returned row
    log_admin_action admin.sub "update_user_status" user_id
        (String.◌++◌ "{\"status\":\"" (String.◌++◌ (status_name status) "\"}"))
    forget_status (status_key user_id)
    pure (admin_user user)

  unfoldable pub delete_user : AuthUser → ℕ → Exec MarketDb (Unit {0})
  unfolding log_admin_action delete_account
  delete_user admin user_id = do
    delete_account user_id
    log_admin_action admin.sub "delete_user" user_id "{}"
    forget_status (status_key user_id)
