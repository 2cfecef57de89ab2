-- ===== src/Market/Calls/Rows.antt =====
-- What the calls of Market.Calls leave of the rows of users.
use kayan_place.Prelude.{ℕ, ◌≡◌, refl, String, List, [], ◌∷◌, ◌⊎◌, arith, subst, sym, inl, inr}
use kayan_place.Prelude.Rows.{update_rows}
use kayan_place.Database.{Exec, state, Outcome-cases}
use kayan_place.Auth.Tables.{AuthDb, Account, UserStatus, Library, Settings}
use kayan_place.Auth.Service.{login, refresh, logout, request_password_reset_otp, reset_password}
use kayan_place.Auth.Registration.{
  request_registration_otp, resend_registration_otp, verify_registration_otp,
}
use kayan_place.Kayan.Dto.{AuthUser}
use kayan_place.Market.Tables.{MarketDb, is_user, on_auth}
use kayan_place.Market.Access.{assert_user_exists}
use kayan_place.Market.Admin.{
  promote_admin, demote_admin, update_user_status, delete_user, create_warning, CreateWarningDto,
  set_deleted, delete_account, log_admin_action,
}
use kayan_place.Market.Users.{
  update_me, change_password, delete_avatar, delete_me, UpdateProfileDto, ChangePasswordDto,
}
use kayan_place.Market.Users.Profiles.{get_me}
use kayan_place.Market.Effects.{
  promote-accounts, demote-accounts, status-accounts, delete-accounts, delete_user-accounts,
  warning-accounts, update_me-accounts, delete_avatar-accounts, change_password-accounts,
}
use kayan_place.Market.Versions.{Next, Follow-update, Grows, Grows-refl, Grows-trans}
use kayan_place.Market.Growth.{
  SameUsers, SameUsers-Grows, login-SameUsers, refresh-SameUsers, logout-SameUsers,
  request_password_reset_otp-SameUsers, request_registration_otp-SameUsers,
  resend_registration_otp-SameUsers, reset_password-Grows, verify_registration_otp-Grows,
}
use kayan_place.Market.Calls.{
  AccountCall, promotes, demotes, deletes_user, sets_status, warns, updates_me, changes_password,
  deletes_avatar, deletes_me, logs_in, refreshes, logs_out, requests_registration,
  resends_registration, requests_reset, verifies_registration, resets_password, waits, discard,
  perform, perform_all,
}

module _ (status_key : ℕ → String) (to_json : String → String) (url : String → String → String)
    (library : Library) (settings : Settings) where
  discard-auth :
      {A : Type 0} (m : Exec MarketDb A) (s : MarketDb)
      → (state (discard m s)).auth ≡ (state (m s)).auth
  discard-auth m s = ground arith

  pub delete_me-accounts :
      (user : AuthUser) (s : MarketDb)
      → (state (delete_me user s)).accounts ≡ (set_deleted s user.sub).accounts
  unfolding delete_me
  delete_me-accounts user s = delete-accounts user.sub s

  promote_admin-next :
      (admin : AuthUser) (k : ℕ) (s : MarketDb)
      → (state (promote_admin admin k s)).auth.next_account ≡ s.auth.next_account
  unfolding promote_admin log_admin_action
  promote_admin-next admin k s = ground arith

  demote_admin-next :
      (admin : AuthUser) (k : ℕ) (s : MarketDb)
      → (state (demote_admin admin k s)).auth.next_account ≡ s.auth.next_account
  unfolding demote_admin log_admin_action
  demote_admin-next admin k s = ground arith

  delete_user-next :
      (admin : AuthUser) (k : ℕ) (s : MarketDb)
      → (state (delete_user status_key admin k s)).auth.next_account ≡ s.auth.next_account
  unfolding delete_user delete_account log_admin_action
  delete_user-next admin k s = ground arith

  update_user_status-next :
      (admin : AuthUser) (k : ℕ) (status : UserStatus) (s : MarketDb)
      → (state (update_user_status status_key admin k status s)).auth.next_account
        ≡ s.auth.next_account
  unfolding update_user_status log_admin_action
  update_user_status-next admin k status s = ground arith

  create_warning-next :
      (admin : AuthUser) (dto : CreateWarningDto) (s : MarketDb)
      → (state (create_warning to_json admin dto s)).auth.next_account ≡ s.auth.next_account
  unfolding create_warning assert_user_exists log_admin_action
  create_warning-next admin dto s = ground arith

  update_me-next :
      (user : AuthUser) (dto : UpdateProfileDto) (s : MarketDb)
      → (state (update_me url user dto s)).auth.next_account ≡ s.auth.next_account
  unfolding update_me get_me
  update_me-next user dto s = ground arith

  change_password-next :
      (user : AuthUser) (dto : ChangePasswordDto) (s : MarketDb)
      → (state (change_password library user dto s)).auth.next_account ≡ s.auth.next_account
  unfolding change_password
  change_password-next user dto s = ground arith

  delete_avatar-next :
      (user : AuthUser) (s : MarketDb)
      → (state (delete_avatar url user s)).auth.next_account ≡ s.auth.next_account
  unfolding delete_avatar get_me
  delete_avatar-next user s = ground arith

  delete_me-next :
      (user : AuthUser) (s : MarketDb)
      → (state (delete_me user s)).auth.next_account ≡ s.auth.next_account
  unfolding delete_me delete_account
  delete_me-next user s = ground arith

  abbrev LaterUsers : MarketDb → MarketDb → Type 0
  LaterUsers s t = Grows s.auth t.auth

  -- Rows that are as before, or written by `f`, where no identity is drawn.
  kept-Grows :
      (s t : MarketDb)
      → t.accounts ≡ s.accounts
      → t.auth.next_account ≡ s.auth.next_account
      → LaterUsers s t
  kept-Grows s t e n = SameUsers-Grows s.auth t.auth (e, n)

  written-Grows :
      (k : ℕ) (f : Account → Account) (s t : MarketDb)
      → t.accounts ≡ update_rows (is_user k) f s.accounts
      → t.auth.next_account ≡ s.auth.next_account
      → ((a : Account) → Next a (f a))
      → LaterUsers s t
  written-Grows k f s t e n step =
      rw (e, n) (omega arith, Follow-update s.auth.next_account (is_user k) f s.accounts step)

  either-Grows :
      (k : ℕ) (f : Account → Account) (s t : MarketDb)
      → (t.accounts ≡ s.accounts) ⊎ (t.accounts ≡ update_rows (is_user k) f s.accounts)
      → t.auth.next_account ≡ s.auth.next_account
      → ((a : Account) → Next a (f a))
      → LaterUsers s t
  either-Grows k f s t (inl e) n step = kept-Grows s t e n
  either-Grows k f s t (inr e) n step = written-Grows k f s t e n step

  discard-Grows :
      {A : Type 0} (m : Exec MarketDb A) (s : MarketDb)
      → LaterUsers s (state (m s))
      → LaterUsers s (state (discard m s))
  discard-Grows m s h = subst (Grows s.auth) (sym (discard-auth m s)) h

  lifted-Grows :
      {A : Type 0} (m : Exec AuthDb A) (s : MarketDb)
      → Grows s.auth (state (m s.auth))
      → LaterUsers s (state (on_auth m s))
  lifted-Grows m s h = elim (Outcome-cases (m s.auth)) [
    | inl (a, t, e) ↦ rw e (subst (λ o. Grows s.auth (state o)) e h)
    | inr (x, t, e) ↦ rw e (subst (λ o. Grows s.auth (state o)) e h)
  ]

  same-Grows :
      {A : Type 0} (m : Exec AuthDb A) (s : MarketDb)
      → SameUsers s.auth (state (m s.auth))
      → LaterUsers s (state (on_auth m s))
  same-Grows m s h = lifted-Grows m s (SameUsers-Grows s.auth (state (m s.auth)) h)

  -- No call lowers a version, brings a deleted user back or gives an identity again.
  pub perform-Grows :
      (call : AccountCall) (s : MarketDb)
      → LaterUsers s (state (perform status_key to_json url library settings call s))
  unfolding perform
  perform-Grows (promotes admin k) s = discard-Grows (promote_admin admin k) s (
      either-Grows k _ s (state (promote_admin admin k s)) (promote-accounts admin k s)
        (promote_admin-next admin k s) (λ a. (refl, λ h. h, omega arith)))
  perform-Grows (demotes admin k) s = discard-Grows (demote_admin admin k) s (
      either-Grows k _ s (state (demote_admin admin k s)) (demote-accounts admin k s)
        (demote_admin-next admin k s) (λ a. (refl, λ h. h, omega arith)))
  perform-Grows (deletes_user admin k) s = discard-Grows (delete_user status_key admin k) s (
      written-Grows k _ s (state (delete_user status_key admin k s))
        (delete_user-accounts status_key admin k s) (delete_user-next admin k s)
        (λ a. (refl, λ h. refl, omega arith)))
  perform-Grows (sets_status admin k status) s =
      discard-Grows (update_user_status status_key admin k status) s (
        written-Grows k _ s (state (update_user_status status_key admin k status s))
          (status-accounts status_key admin k status s) (update_user_status-next admin k status s)
          (λ a. (refl, λ h. h, omega arith)))
  perform-Grows (warns admin dto) s = discard-Grows (create_warning to_json admin dto) s (
      kept-Grows s (state (create_warning to_json admin dto s))
        (warning-accounts to_json admin dto s) (create_warning-next admin dto s))
  perform-Grows (updates_me user dto) s = discard-Grows (update_me url user dto) s (
      either-Grows user.sub _ s (state (update_me url user dto s))
        (update_me-accounts url user dto s) (update_me-next user dto s)
        (λ a. (refl, λ h. h, omega arith)))
  perform-Grows (changes_password user dto) s = discard-Grows (change_password library user dto) s (
      either-Grows user.sub _ s (state (change_password library user dto s))
        (change_password-accounts library user dto s) (change_password-next user dto s)
        (λ a. (refl, λ h. h, omega arith)))
  perform-Grows (deletes_avatar user) s = discard-Grows (delete_avatar url user) s (
      written-Grows user.sub _ s (state (delete_avatar url user s))
        (delete_avatar-accounts url user s) (delete_avatar-next user s)
        (λ a. (refl, λ h. h, omega arith)))
  perform-Grows (deletes_me user) s =
      written-Grows user.sub _ s (state (delete_me user s)) (delete_me-accounts user s)
        (delete_me-next user s) (λ a. (refl, λ h. refl, omega arith))
  perform-Grows (logs_in email password) s =
      let m = login library settings email password in
      discard-Grows (on_auth m) s
        (same-Grows m s (login-SameUsers library settings email password s.auth))
  perform-Grows (refreshes token) s =
      let m = refresh library settings token in
      discard-Grows (on_auth m) s (same-Grows m s (refresh-SameUsers library settings token s.auth))
  perform-Grows (logs_out token) s =
      same-Grows (logout library settings token) s (logout-SameUsers library settings token s.auth)
  perform-Grows (requests_registration dto) s =
      let m = request_registration_otp library settings dto in
      discard-Grows (on_auth m) s
        (same-Grows m s (request_registration_otp-SameUsers library settings dto s.auth))
  perform-Grows (resends_registration email) s =
      let m = resend_registration_otp library settings email in
      discard-Grows (on_auth m) s
        (same-Grows m s (resend_registration_otp-SameUsers library settings email s.auth))
  perform-Grows (requests_reset email) s =
      let m = request_password_reset_otp library settings email in
      discard-Grows (on_auth m) s
        (same-Grows m s (request_password_reset_otp-SameUsers library settings email s.auth))
  perform-Grows (verifies_registration email otp) s =
      let m = verify_registration_otp library settings email otp in
      discard-Grows (on_auth m) s
        (lifted-Grows m s (verify_registration_otp-Grows library settings email otp s.auth))
  perform-Grows (resets_password dto) s =
      let m = reset_password library settings dto in
      discard-Grows (on_auth m) s
        (lifted-Grows m s (reset_password-Grows library settings dto s.auth))
  perform-Grows (waits seconds) s = Grows-refl s.auth

  pub perform_all-Grows :
      (calls : List AccountCall) (s : MarketDb)
      → Grows s.auth (perform_all status_key to_json url library settings calls s).auth
  unfolding perform_all
  perform_all-Grows [] s = Grows-refl s.auth
  perform_all-Grows (call ∷ calls) s =
      let t = state (perform status_key to_json url library settings call s) in
      Grows-trans s.auth t.auth (perform_all status_key to_json url library settings calls t).auth
        (perform-Grows call s) (perform_all-Grows calls t)
