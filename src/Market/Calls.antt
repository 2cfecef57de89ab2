-- ===== src/Market/Calls.antt =====
-- Sequences of calls that write users: those of src/admin/admin.service.ts and
-- src/users/users.service.ts, and those of src/auth/auth.service.ts.
pub mod Rows
use kayan_place.Prelude.{ℕ, ◌+◌, ◌≡◌, refl, String, List, [], ◌∷◌, ◌⊎◌, arith, subst, sym, inl, inr}
use kayan_place.Prelude.Rows.{update_rows}
use kayan_place.Database.{Exec, state, pure, modify, ◌>>=◌, Outcome-cases}
use kayan_place.Auth.Tables.{AuthDb, Account, UserStatus, Library, Settings}
use kayan_place.Auth.Service.{
  ResetPasswordDto, login, refresh, logout, request_password_reset_otp, reset_password,
}
use kayan_place.Auth.Registration.{
  RegistrationDto, request_registration_otp, resend_registration_otp, verify_registration_otp,
}
use kayan_place.Kayan.Dto.{AuthUser}
use kayan_place.Market.Tables.{MarketDb, is_user, on_auth}
use kayan_place.Market.Access.{assert_user_exists}
use kayan_place.Market.Admin.{
  promote_admin, demote_admin, update_user_status, delete_user, create_warning, CreateWarningDto,
  set_deleted, delete_account, log_admin_action,
}
use kayan_place.Market.Users.{
  update_me, change_password, delete_avatar, delete_me, UpdateProfileDto, ChangePasswordDto,
}
use kayan_place.Market.Users.Profiles.{get_me}
use kayan_place.Market.Effects.{
  promote-accounts, demote-accounts, status-accounts, delete-accounts, delete_user-accounts,
  warning-accounts, update_me-accounts, delete_avatar-accounts, change_password-accounts,
}
use kayan_place.Market.Versions.{Next, Follow-update, Grows, Grows-refl, Grows-trans}
use kayan_place.Market.Growth.{
  SameUsers, SameUsers-Grows, login-SameUsers, refresh-SameUsers, logout-SameUsers,
  request_password_reset_otp-SameUsers, request_registration_otp-SameUsers,
  resend_registration_otp-SameUsers, reset_password-Grows, verify_registration_otp-Grows,
}

pub data AccountCall : Type 0 where
  promotes demotes deletes_user : AuthUser → ℕ → AccountCall
  sets_status : AuthUser → ℕ → UserStatus → AccountCall
  warns : AuthUser → CreateWarningDto → AccountCall
  updates_me : AuthUser → UpdateProfileDto → AccountCall
  changes_password : AuthUser → ChangePasswordDto → AccountCall
  deletes_avatar deletes_me : AuthUser → AccountCall
  logs_in : (email password : String) → AccountCall
  refreshes logs_out : String → AccountCall
  requests_registration : RegistrationDto → AccountCall
  resends_registration requests_reset : (email : String) → AccountCall
  verifies_registration : (email otp : String) → AccountCall
  resets_password : ResetPasswordDto → AccountCall
  waits : ℕ → AccountCall

abbrev pub discard {ℓ} : {A : Type ℓ} → Exec MarketDb A → Exec MarketDb (Unit {0})
discard m = m >>= λ _. pure tt

abbrev wait : ℕ → MarketDb → MarketDb
wait seconds s = record s { auth = record s.auth { clock = s.clock + seconds } }

module _ (status_key : ℕ → String) (to_json : String → String) (url : String → String → String)
    (library : Library) (settings : Settings) where
  unfoldable pub perform : AccountCall → Exec MarketDb (Unit {0})
  unfolding promote_admin demote_admin delete_user update_user_status create_warning update_me
      change_password delete_avatar delete_me login refresh logout request_registration_otp
      resend_registration_otp request_password_reset_otp verify_registration_otp reset_password
  perform (promotes admin k) = discard (promote_admin admin k)
  perform (demotes admin k) = discard (demote_admin admin k)
  perform (deletes_user admin k) = discard (delete_user status_key admin k)
  perform (sets_status admin k status) = discard (update_user_status status_key admin k status)
  perform (warns admin dto) = discard (create_warning to_json admin dto)
  perform (updates_me user dto) = discard (update_me url user dto)
  perform (changes_password user dto) = discard (change_password library user dto)
  perform (deletes_avatar user) = discard (delete_avatar url user)
  perform (deletes_me user) = delete_me user
  perform (logs_in email password) = discard (on_auth (login library settings email password))
  perform (refreshes token) = discard (on_auth (refresh library settings token))
  perform (logs_out token) = on_auth (logout library settings token)
  perform (requests_registration dto) =
      discard (on_auth (request_registration_otp library settings dto))
  perform (resends_registration email) =
      discard (on_auth (resend_registration_otp library settings email))
  perform (requests_reset email) =
      discard (on_auth (request_password_reset_otp library settings email))
  perform (verifies_registration email otp) =
      discard (on_auth (verify_registration_otp library settings email otp))
  perform (resets_password dto) = discard (on_auth (reset_password library settings dto))
  perform (waits seconds) = modify (wait seconds)

  unfoldable pub perform_all : List AccountCall → MarketDb → MarketDb
  unfolding perform
  perform_all [] s = s
  perform_all (call ∷ calls) s = perform_all calls (state (perform call s))
