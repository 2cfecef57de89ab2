-- ===== src/Market/Growth.antt =====
-- What the calls of src/auth/auth.service.ts leave of the rows of users.
use kayan_place.Prelude.{
  suc, ◌≡◌, refl, String, Option, none, some, ◌==◌, arith, subst, same_text, Bool-cases, inl, inr,
}
use kayan_place.Prelude.Rows.{find_row, update_rows, any_row, delete_rows}
use kayan_place.Database.{Exec, ok, state, pure, gets, ◌>>=◌, with_transaction, Outcome-cases}
use kayan_place.Auth.Tables.{
  AuthDb, Account, Library, Settings, OtpPurpose, PendingRegistration, is_active, rollback,
  password_reset, registration,
}
use kayan_place.Auth.Store.{
  save_refresh_token_jti, consume_refresh_token_jti, revoke_refresh_token_jti, clear_otp_attempts,
  increment_otp_attempts,
}
use kayan_place.Auth.Otp.{start_verification, check_verification}
use kayan_place.Auth.Service.{
  ResetPasswordDto, login, request_password_reset_otp, reset_password, reset_callback, set_password,
  refresh, logout, generate_tokens, is_member, same_email,
}
use kayan_place.Auth.Registration.{
  RegistrationDto, request_registration_otp, resend_registration_otp, verify_registration_otp,
  register, insert_account, new_account, account_clash, is_pending,
}
use kayan_place.Market.Versions.{
  Follow-update, Follow-add, Follow-refl, Grows, Grows-refl, Grows-trans,
}

-- The users and their next identity are the same.
abbrev pub SameUsers : AuthDb → AuthDb → Type 0
SameUsers s t = (t.accounts ≡ s.accounts) × (t.next_account ≡ s.next_account)

pub SameUsers-Grows : (s t : AuthDb) → SameUsers s t → Grows s t
SameUsers-Grows s t (e, f) = rw (e, f) (Grows-refl s)

module _ {A B : Type 0} where
  -- A call grows the users if its first part does, and what follows it where it returned.
  >>=-Grows :
      (m : Exec AuthDb A) (f : A → Exec AuthDb B) (s : AuthDb)
      → Grows s (state (m s))
      → ((a : A) (t : AuthDb) → m s ≡ ok a t → Grows t (state (f a t)))
      → Grows s (state ((m >>= f) s))
  >>=-Grows m f s h later = elim (Outcome-cases (m s)) [
    | inl (a, t, e) ↦
        let before = subst (λ o. Grows s (state o)) e h in
        rw e (Grows-trans s t (state (f a t)) before (later a t e))
    | inr (x, t, e) ↦ rw e (subst (λ o. Grows s (state o)) e h)
  ]

module _ {A : Type 0} where
  with_transaction-Grows :
      (callback : Exec AuthDb A) (s : AuthDb)
      → Grows s (state (callback s))
      → Grows s (state (with_transaction rollback callback s))
  with_transaction-Grows callback s h = elim (Outcome-cases (callback s)) [
    | inl (a, t, e) ↦ rw e (subst (λ o. Grows s (state o)) e h)
    | inr (x, t, e) ↦
        let (later, rows) = subst (λ o. Grows s (state o)) e h in
        rw e (later, Follow-refl s.next_account s.accounts)
  ]

module _ (library : Library) (settings : Settings) where
  generate_tokens-SameUsers :
      (a : Account) (s : AuthDb) → SameUsers s (state (generate_tokens library settings a s))
  unfolding generate_tokens save_refresh_token_jti
  generate_tokens-SameUsers a s = (ground arith, ground arith)

  generate_tokens-Grows :
      (a : Account) (s : AuthDb) → Grows s (state (generate_tokens library settings a s))
  generate_tokens-Grows a s =
      SameUsers-Grows s (state (generate_tokens library settings a s))
        (generate_tokens-SameUsers a s)

  check_verification-SameUsers :
      (email : String) (purpose : OtpPurpose) (code : String) (s : AuthDb)
      → SameUsers s (state (check_verification library settings email purpose code s))
  unfolding check_verification clear_otp_attempts increment_otp_attempts
  check_verification-SameUsers email purpose code s = (ground arith, ground arith)

  check_verification-Grows :
      (email : String) (purpose : OtpPurpose) (code : String) (s : AuthDb)
      → Grows s (state (check_verification library settings email purpose code s))
  check_verification-Grows email purpose code s =
      SameUsers-Grows s (state (check_verification library settings email purpose code s))
        (check_verification-SameUsers email purpose code s)

  pub login-SameUsers :
      (email password : String) (s : AuthDb)
      → SameUsers s (state (login library settings email password s))
  unfolding login generate_tokens save_refresh_token_jti
  login-SameUsers email password s = (ground arith, ground arith)

  pub refresh-SameUsers :
      (token : String) (s : AuthDb) → SameUsers s (state (refresh library settings token s))
  unfolding refresh generate_tokens save_refresh_token_jti consume_refresh_token_jti
  refresh-SameUsers token s = (ground arith, ground arith)

  pub logout-SameUsers :
      (token : String) (s : AuthDb) → SameUsers s (state (logout library settings token s))
  unfolding logout revoke_refresh_token_jti
  logout-SameUsers token s = (ground arith, ground arith)

  pub request_password_reset_otp-SameUsers :
      (email : String) (s : AuthDb)
      → SameUsers s (state (request_password_reset_otp library settings email s))
  unfolding request_password_reset_otp start_verification
  request_password_reset_otp-SameUsers email s = (ground arith, ground arith)

  pub request_registration_otp-SameUsers :
      (dto : RegistrationDto) (s : AuthDb)
      → SameUsers s (state (request_registration_otp library settings dto s))
  unfolding request_registration_otp start_verification
  request_registration_otp-SameUsers dto s = (ground arith, ground arith)

  pub resend_registration_otp-SameUsers :
      (email : String) (s : AuthDb)
      → SameUsers s (state (resend_registration_otp library settings email s))
  unfolding resend_registration_otp start_verification
  resend_registration_otp-SameUsers email s = (ground arith, ground arith)

  set_password-Grows :
      (password : String) (found : Option Account) (s : AuthDb)
      → Grows s (state (set_password library settings password found s))
  set_password-Grows password none s = Grows-refl s
  set_password-Grows password (some a) s = elim (Bool-cases (is_active a.status)) [
    | inr e ↦ rw e (Grows-refl s)
    | inl e ↦
        let set = λ (b : Account). record b {
          password_hash = library.hash s.draws password;
          updated_at = s.clock;
        } in
        let u = record s {
          draws = suc s.draws;
          accounts = update_rows (λ b. b.id == a.id) set s.accounts;
        } in
        let set_rows =
          Follow-update s.next_account (λ b. b.id == a.id) set s.accounts
            (λ b. (refl, λ h. h, omega arith)) in
        let t = state (generate_tokens library settings a u) in
        rw e (Grows-trans s u t (omega arith, set_rows) (generate_tokens-Grows a u))
  ]

  pub reset_password-Grows :
      (dto : ResetPasswordDto) (s : AuthDb)
      → Grows s (state (reset_password library settings dto s))
  unfolding reset_password
  reset_password-Grows dto s = elim (Bool-cases (same_text dto.new_password dto.confirm_password)) [
    | inr e ↦ rw e (Grows-refl s)
    | inl e ↦ rw e (
        >>=-Grows (check_verification library settings dto.email password_reset dto.otp) _ s
          (check_verification-Grows dto.email password_reset dto.otp s)
          (λ id t _. with_transaction-Grows (reset_callback library settings dto) t (
            set_password-Grows dto.new_password
              (find_row (is_member library settings dto.email) t.accounts) t)))
  ]

  insert_account-Grows :
      (p : PendingRegistration) (s : AuthDb) → Grows s (state (insert_account library settings p s))
  insert_account-Grows p s =
      let a = new_account library settings s p in
      elim (Bool-cases (any_row (account_clash library settings p) s.accounts)) [
        | inl e ↦ rw e (omega arith, Follow-refl s.next_account s.accounts)
        | inr e ↦ rw e (omega arith, Follow-add s.next_account s.accounts a (omega arith))
      ]

  register-Grows :
      (email : String) (pending : Option PendingRegistration) (s : AuthDb)
      → Grows s (state (register library settings email pending s))
  register-Grows email none s = Grows-refl s
  register-Grows email (some p) s =
      >>=-Grows (insert_account library settings p) _ s (insert_account-Grows p s) (λ a t _.
        let u = record t {
          pendings = delete_rows (λ q. same_email library settings q.email email) t.pendings;
        } in
        >>=-Grows (generate_tokens library settings a) (λ tokens. pure (a, tokens)) u
          (generate_tokens-Grows a u) (λ tokens v _. Grows-refl v))

  pub verify_registration_otp-Grows :
      (email otp : String) (s : AuthDb)
      → Grows s (state (verify_registration_otp library settings email otp s))
  unfolding verify_registration_otp
  verify_registration_otp-Grows email otp s =
      >>=-Grows (check_verification library settings email registration otp) _ s
        (check_verification-Grows email registration otp s)
        (λ id t _.
          with_transaction-Grows
            (do
              pending ← gets (λ s. find_row (is_pending library settings s email) s.pendings)
              register library settings email pending)
            t (register-Grows email (find_row (is_pending library settings t email) t.pendings) t))
