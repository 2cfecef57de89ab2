-- ===== src/Market/Effects.antt =====
-- What the calls of src/admin/admin.service.ts and src/users/users.service.ts leave of the users.
use kayan_place.Prelude.{ℕ, ◌≡◌, String, true, false, none, ◌⊎◌, arith}
use kayan_place.Prelude.Rows.{update_rows}
use kayan_place.Database.{ok, state}
use kayan_place.Auth.Tables.{UserStatus, Library}
use kayan_place.Kayan.Dto.{AuthUser}
use kayan_place.Market.Tables.{MarketDb, is_user}
use kayan_place.Market.Access.{assert_user_exists}
use kayan_place.Market.Admin.{
  AdminUser, promote_admin, demote_admin, update_user_status, delete_user, create_warning,
  CreateWarningDto, set_admin, set_status, set_deleted, log_admin_action, delete_account,
}
use kayan_place.Market.Users.{
  update_profile, set_hash, update_me, change_password, delete_avatar, UpdateProfileDto,
  ChangePasswordDto,
}
use kayan_place.Market.Users.Profiles.{get_me}

pub promote-accounts :
    (admin : AuthUser) (k : ℕ) (s : MarketDb)
    → ((state (promote_admin admin k s)).accounts ≡ s.accounts)
      ⊎ ((state (promote_admin admin k s)).accounts ≡ (set_admin s k true).accounts)
unfolding promote_admin log_admin_action
promote-accounts admin k s = ground arith

pub demote-accounts :
    (admin : AuthUser) (k : ℕ) (s : MarketDb)
    → ((state (demote_admin admin k s)).accounts ≡ s.accounts)
      ⊎ ((state (demote_admin admin k s)).accounts ≡ (set_admin s k false).accounts)
unfolding demote_admin log_admin_action
demote-accounts admin k s = ground arith

pub status-accounts :
    (status_key : ℕ → String) (admin : AuthUser) (k : ℕ) (status : UserStatus) (s : MarketDb)
    → (state (update_user_status status_key admin k status s)).accounts
      ≡ (set_status s k status).accounts
unfolding update_user_status log_admin_action
status-accounts status_key admin k status s = ground arith

pub delete-accounts :
    (k : ℕ) (s : MarketDb) → (state (delete_account k s)).accounts ≡ (set_deleted s k).accounts
unfolding delete_account
delete-accounts k s = ground arith

pub delete_user-accounts :
    (status_key : ℕ → String) (admin : AuthUser) (k : ℕ) (s : MarketDb)
    → (state (delete_user status_key admin k s)).accounts ≡ (set_deleted s k).accounts
unfolding delete_user delete_account log_admin_action
delete_user-accounts status_key admin k s = ground arith

pub warning-accounts :
    (to_json : String → String) (admin : AuthUser) (dto : CreateWarningDto) (s : MarketDb)
    → (state (create_warning to_json admin dto s)).accounts ≡ s.accounts
unfolding create_warning assert_user_exists log_admin_action
warning-accounts to_json admin dto s = ground arith

pub update_me-accounts :
    (url : String → String → String) (user : AuthUser) (dto : UpdateProfileDto) (s : MarketDb)
    → ((state (update_me url user dto s)).accounts ≡ s.accounts)
      ⊎ ((state (update_me url user dto s)).accounts ≡ (update_profile user dto s).accounts)
unfolding update_me get_me
update_me-accounts url user dto s = ground arith

pub delete_avatar-accounts :
    (url : String → String → String) (user : AuthUser) (s : MarketDb)
    → (state (delete_avatar url user s)).accounts
      ≡ update_rows
          (is_user user.sub)
          (λ a. record a { avatar_file_id = none; updated_at = s.clock })
          s.accounts
unfolding delete_avatar get_me
delete_avatar-accounts url user s = ground arith

pub change_password-accounts :
    (library : Library) (user : AuthUser) (dto : ChangePasswordDto) (s : MarketDb)
    → ((state (change_password library user dto s)).accounts ≡ s.accounts)
      ⊎ ((state (change_password library user dto s)).accounts
          ≡ (set_hash user.sub (library.hash s.draws dto.new_password) s).accounts)
unfolding change_password
change_password-accounts library user dto s = ground arith

pub promote-ok :
    (admin : AuthUser) (k : ℕ) (s : MarketDb) {r : AdminUser × ℕ} {s' : MarketDb}
    → promote_admin admin k s ≡ ok r s'
    → s'.accounts ≡ (set_admin s k true).accounts
unfolding promote_admin log_admin_action
promote-ok admin k s {r} {s'} h = ground arith

pub demote-ok :
    (admin : AuthUser) (k : ℕ) (s : MarketDb) {r : AdminUser × ℕ} {s' : MarketDb}
    → demote_admin admin k s ≡ ok r s'
    → s'.accounts ≡ (set_admin s k false).accounts
unfolding demote_admin log_admin_action
demote-ok admin k s {r} {s'} h = ground arith
