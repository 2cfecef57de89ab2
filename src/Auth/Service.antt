-- ===== src/Auth/Service.antt =====
-- `AuthService` of src/auth/auth.service.ts, but for registration. The provider of one-time passwords is the console one,
-- of src/auth/otp-sender/console-otp.sender.ts.
use kayan_place.Prelude.{
  ℕ, suc, String, Bool, false, not, ◌&&◌, ◌||◌, Option, none, some, ◌==◌, is_some, same_text,
  if◌then◌else◌,
}
use kayan_place.Prelude.Rows.{find_row, update_rows}
use kayan_place.Database.{
  Exec, Error, fixed, bad_request, unauthorized, pure, raise, raise_if, gets, modify, ◌>>=◌, ◌>>◌,
  with_transaction,
}
use kayan_place.Auth.Tables.{
  AuthDb, Account, Payload, Library, Settings, is_active, password_reset, rollback,
}
use kayan_place.Auth.Store.{
  save_refresh_token_jti, consume_refresh_token_jti, revoke_refresh_token_jti,
}
use kayan_place.Auth.Otp.{start_verification, check_verification}

pub record Tokens : Type 0 where
  pub access_token : String
  pub refresh_token : String

pub record ResetPasswordDto : Type 0 where
  pub email : String
  pub otp : String
  pub new_password : String
  pub confirm_password : String

abbrev pub invalid_credentials : Error
invalid_credentials = unauthorized (fixed "Invalid credentials")

abbrev pub invalid_refresh_token : Error
invalid_refresh_token = unauthorized (fixed "Invalid refresh token")

module _ (library : Library) (settings : Settings) where
  abbrev pub same_email : String → String → Bool
  same_email a b = same_text (library.lower a) (library.lower b)

  abbrev pub payload_of : Account → Option String → Payload
  payload_of a jti = record {
    sub = a.id;
    email = a.email;
    is_admin = a.is_admin;
    token_version = a.token_version;
    jti = jti;
  }

  unfoldable pub generate_tokens : Account → Exec AuthDb Tokens
  generate_tokens a = do
    jti ← gets (λ s. library.random_hex s.draws)
    now ← gets (λ s. s.clock)
    modify (λ s. record s { draws = suc s.draws })
    save_refresh_token_jti jti a.id settings.jwt_refresh_ttl
    pure (record {
      access_token =
          library.sign settings.jwt_access_secret settings.jwt_access_ttl now (payload_of a none);
      refresh_token =
          library.sign settings.jwt_refresh_secret settings.jwt_refresh_ttl now
            (payload_of a (some jti));
    })

  abbrev pub is_member : String → Account → Bool
  is_member email a = same_email a.email email && not (is_some a.deleted_at)

  abbrev pub enter : (password : String) → Option Account → Exec AuthDb (Account × Tokens)
  enter password none = raise invalid_credentials
  enter password (some a) = do
    raise_if (not (is_active a.status)) invalid_credentials
    raise_if (not (library.compare password a.password_hash)) invalid_credentials
    tokens ← generate_tokens a
    pure (a, tokens)

  unfoldable pub login : (email password : String) → Exec AuthDb (Account × Tokens)
  login email password = do
    found ← gets (λ s. find_row (is_member email) s.accounts)
    enter password found

  abbrev pub start_reset : String → Option Account → Exec AuthDb (Option String)
  start_reset email none = pure none
  start_reset email (some a) = start_verification library settings email password_reset (some a.id)

  -- The answer to an unknown address has no code either.
  unfoldable pub request_password_reset_otp : String → Exec AuthDb (Option String)
  request_password_reset_otp email = do
    found ← gets (λ s. find_row (is_member email) s.accounts)
    start_reset email found

  abbrev pub set_password : (new_password : String) → Option Account → Exec AuthDb Tokens
  set_password new_password none = raise (bad_request (fixed "User not found"))
  set_password new_password (some a) = do
    raise_if (not (is_active a.status)) invalid_credentials
    password_hash ← gets (λ s. library.hash s.draws new_password)
    modify (λ s. record s {
      draws = suc s.draws;
      accounts =
          update_rows (λ b. b.id == a.id)
            (λ b. record b { password_hash = password_hash; updated_at = s.clock }) s.accounts;
    })
    generate_tokens a

  -- The callback of the transaction of `resetPassword`.
  abbrev pub reset_callback : ResetPasswordDto → Exec AuthDb Tokens
  reset_callback dto = do
    found ← gets (λ s. find_row (is_member dto.email) s.accounts)
    set_password dto.new_password found

  unfoldable pub reset_password : ResetPasswordDto → Exec AuthDb Tokens
  reset_password dto = do
    raise_if (not (same_text dto.new_password dto.confirm_password))
        (bad_request (fixed "Passwords do not match"))
    id ← check_verification library settings dto.email password_reset dto.otp
    with_transaction rollback (reset_callback dto)

  -- `!storedUserId || storedUserId !== payload.sub`
  abbrev pub is_owner : ℕ → Option ℕ → Bool
  is_owner sub none = false
  is_owner sub (some n) = not (n == 0) && n == sub

  abbrev pub renew : Payload → Option Account → Exec AuthDb Tokens
  renew payload none = raise invalid_refresh_token
  renew payload (some a) = do
    raise_if (not (is_active a.status) || not (a.token_version == payload.token_version))
        invalid_refresh_token
    generate_tokens a

  abbrev pub consume_jti : Payload → Option String → Exec AuthDb Tokens
  consume_jti payload none = raise invalid_refresh_token
  consume_jti payload (some jti) = do
    raise_if (same_text jti "") invalid_refresh_token
    stored ← consume_refresh_token_jti jti
    raise_if (not (is_owner payload.sub stored)) invalid_refresh_token
    found ← gets (λ s. find_row (λ a. a.id == payload.sub && not (is_some a.deleted_at)) s.accounts)
    renew payload found

  abbrev pub use_payload : Option Payload → Exec AuthDb Tokens
  use_payload none = raise invalid_refresh_token
  use_payload (some payload) = consume_jti payload payload.jti

  unfoldable pub refresh : (refresh_token : String) → Exec AuthDb Tokens
  refresh refresh_token = do
    payload ← gets (λ s. library.verify settings.jwt_refresh_secret s.clock refresh_token)
    use_payload payload

  abbrev pub revoke_jti : Option String → Exec AuthDb (Unit {0})
  revoke_jti none = pure tt
  revoke_jti (some jti) = if same_text jti "" then pure tt else revoke_refresh_token_jti jti

  abbrev pub revoke_payload : Option Payload → Exec AuthDb (Unit {0})
  revoke_payload none = pure tt
  revoke_payload (some payload) = revoke_jti payload.jti

  unfoldable pub logout : (refresh_token : String) → Exec AuthDb (Unit {0})
  logout refresh_token = do
    payload ← gets (λ s. library.verify settings.jwt_refresh_secret s.clock refresh_token)
    revoke_payload payload
