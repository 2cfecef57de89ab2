-- ===== src/Auth/Registration.antt =====
-- Registration in src/auth/auth.service.ts: `requestRegistrationOtp`, `resendRegistrationOtp` and
-- `verifyRegistrationOtp`, with the console provider of one-time passwords.
use kayan_place.Prelude.{
  suc, ◌+◌, ◌*◌, String, Bool, true, false, not, ◌&&◌, ◌||◌, List, [], ◌∷◌, ◌++◌, Option, none,
  some, ltb, is_some, same_text,
}
use kayan_place.Prelude.Rows.{find_row, update_rows, delete_rows, any_row}
use kayan_place.Database.{
  Exec, Error, fixed, bad_request, conflict, pure, raise, raise_if, gets, modify, ◌>>=◌, ◌>>◌,
  with_transaction,
}
use kayan_place.Auth.Tables.{
  AuthDb, Account, PendingRegistration, Library, Settings, UserStatus, registration, rollback,
}
use kayan_place.Auth.Otp.{start_verification, check_verification}
use kayan_place.Auth.Service.{Tokens, same_email, generate_tokens}

pub record RegistrationDto : Type 0 where
  pub name : String
  pub phone : String
  pub email : String
  pub address : Option String
  pub password : String

abbrev pub taken : Error
taken = conflict (fixed "Email or phone already exists")

module _ (library : Library) (settings : Settings) where
  abbrev pub has_phone : String → Option String → Bool
  has_phone phone none = false
  has_phone phone (some p) = same_text p phone

  abbrev pub other_email : String → Option PendingRegistration → Bool
  other_email email none = false
  other_email email (some p) = not (same_email library settings p.email email)

  abbrev pub pending_row : AuthDb → RegistrationDto → String → PendingRegistration
  pending_row s dto password_hash = record {
    email = library.lower dto.email;
    phone = dto.phone;
    name = dto.name;
    address = dto.address;
    password_hash = password_hash;
    expires_at = s.clock + 60 * settings.otp_ttl_minutes;
    created_at = s.clock;
  }

  abbrev pub put_pending :
      PendingRegistration → Bool → List PendingRegistration → List PendingRegistration
  put_pending p true rows = update_rows (λ q. same_text q.email p.email) (λ q. p) rows
  put_pending p false rows = rows ++ p ∷ []

  -- INSERT … ON CONFLICT (email) DO UPDATE, where a phone is unique; any error is a conflict.
  abbrev pub insert_pending : RegistrationDto → Exec AuthDb (Unit {0})
  insert_pending dto = do
    password_hash ← gets (λ s. library.hash s.draws dto.password)
    modify (λ s. record s { draws = suc s.draws })
    p ← gets (λ s. pending_row s dto password_hash)
    clash ← gets (λ s.
        any_row (λ q. same_text q.phone p.phone && not (same_text q.email p.email)) s.pendings)
    raise_if clash taken
    modify (λ s. record s {
      pendings = put_pending p (any_row (λ q. same_text q.email p.email) s.pendings) s.pendings;
    })

  unfoldable pub request_registration_otp : RegistrationDto → Exec AuthDb (Option String)
  request_registration_otp dto = do
    existing ← gets (λ s.
        any_row (λ a. same_email library settings a.email dto.email || has_phone dto.phone a.phone)
          s.accounts)
    raise_if existing taken
    pending ← gets (λ s.
        find_row (λ p. same_email library settings p.email dto.email || same_text p.phone dto.phone)
          s.pendings)
    raise_if (other_email dto.email pending) taken
    insert_pending dto
    start_verification library settings dto.email registration none

  abbrev pub is_pending : AuthDb → String → PendingRegistration → Bool
  is_pending s email p = same_email library settings p.email email && ltb s.clock p.expires_at

  unfoldable pub resend_registration_otp : String → Exec AuthDb (Option String)
  resend_registration_otp email = do
    pending ← gets (λ s. any_row (is_pending s email) s.pendings)
    raise_if (not pending) (bad_request (fixed "No pending registration found for this email"))
    start_verification library settings email registration none

  abbrev pub new_account : AuthDb → PendingRegistration → Account
  new_account s p = record {
    id = s.next_account;
    name = p.name;
    phone = some p.phone;
    email = library.lower p.email;
    address = p.address;
    password_hash = p.password_hash;
    status = UserStatus.active;
    is_admin = false;
    token_version = 0;
    avatar_file_id = none;
    contact_info = none;
    deleted_at = none;
    created_at = s.clock;
    updated_at = s.clock;
  }

  -- users: a phone is unique, and LOWER(email) among the users that are not deleted.
  abbrev pub account_clash : PendingRegistration → Account → Bool
  account_clash p a =
      has_phone p.phone a.phone
      || (not (is_some a.deleted_at)
          && same_text (library.lower a.email) (library.lower (library.lower p.email)))

  abbrev pub insert_account : PendingRegistration → Exec AuthDb Account
  insert_account p = do
    a ← gets (λ s. new_account s p)
    modify (λ s. record s { next_account = suc s.next_account })
    clash ← gets (λ s. any_row (account_clash p) s.accounts)
    raise_if clash taken
    modify (λ s. record s { accounts = s.accounts ++ a ∷ [] })
    pure a

  abbrev pub register : String → Option PendingRegistration → Exec AuthDb (Account × Tokens)
  register email none = raise (bad_request (fixed "Registration session expired or not found"))
  register email (some p) = do
    created ← insert_account p
    modify (λ s. record s {
      pendings = delete_rows (λ q. same_email library settings q.email email) s.pendings;
    })
    tokens ← generate_tokens library settings created
    pure (created, tokens)

  unfoldable pub verify_registration_otp : (email otp : String) → Exec AuthDb (Account × Tokens)
  verify_registration_otp email otp = do
    id ← check_verification library settings email registration otp
    with_transaction rollback
        (do pending ← gets (λ s. find_row (is_pending s email) s.pendings); register email pending)
