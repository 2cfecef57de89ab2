-- ===== src/Auth/Otp.antt =====
-- `ConsoleOtpSender` and `ResendOtpSender` of src/auth/otp-sender/.
use Prim.Native.String
use kayan_place.Prelude.{
  ℕ, suc, ◌+◌, ◌*◌, String, Bool, true, false, not, ◌&&◌, [], ◌∷◌, ◌++◌, Option, none, some, ltb,
  is_some, same_text, if◌then◌else◌,
}
use kayan_place.Prelude.Rows.{find_row, select_rows}
use kayan_place.Prelude.Sort.{order_by}
use kayan_place.Database.{
  Exec, Error, fixed, bad_request, pure, raise, raise_if, gets, modify, ◌>>=◌, ◌>>◌,
}
use kayan_place.Auth.Tables.{AuthDb, AuthOtp, OtpPurpose, same_purpose, Library, Settings}
use kayan_place.Auth.Store.{increment_otp_attempts, clear_otp_attempts}

abbrev pub otp_max_attempts : ℕ
otp_max_attempts = 5

abbrev pub otp_attempts_ttl_seconds : ℕ
otp_attempts_ttl_seconds = 600

module _ (library : Library) (settings : Settings) where
  abbrev pub hash_otp : (otp salt : String) → String
  hash_otp otp salt =
      library.hmac settings.otp_signing_secret (String.◌++◌ otp (String.◌++◌ ":" salt))

  -- A random number and a random salt, the next two draws.
  abbrev draw_otp : AuthDb → String
  draw_otp s = if settings.otp_dev_mode then "000000" else library.random_otp s.draws

  abbrev draw_salt : AuthDb → String
  draw_salt s = library.random_hex (suc s.draws)

  -- The answer holds the code in development only.
  unfoldable pub start_verification : String → OtpPurpose → Option ℕ → Exec AuthDb (Option String)
  start_verification email purpose user_id = do
    otp ← gets draw_otp
    modify (λ s. record s {
      draws = s.draws + 2;
      next_otp = suc s.next_otp;
      otps =
          s.otps
          ++ record {
            id = s.next_otp;
            user_id = user_id;
            email = email;
            code_hash = hash_otp otp (draw_salt s);
            salt = draw_salt s;
            purpose = purpose;
            expires_at = s.clock + 60 * settings.otp_ttl_minutes;
            used_at = none;
            created_at = s.clock;
          }
            ∷ [];
    })
    pure (if settings.otp_dev_mode then some otp else none)

  -- `ResendOtpSender.startVerification`; `delivered` is if the mail service took the mail.
  unfoldable pub start_by_mail :
      (delivered : Bool) → String → OtpPurpose → Option ℕ → Exec AuthDb (Option String)
  start_by_mail delivered email purpose user_id = do
    otp ← start_verification email purpose user_id
    raise_if (not (is_some otp))
        (Error.service_unavailable (fixed "OTP is unavailable for email delivery"))
    raise_if (not delivered) (Error.service_unavailable (fixed "Failed to send OTP email"))
    pure otp

  -- ORDER BY created_at DESC LIMIT 1
  abbrev pub latest_otp : String → OtpPurpose → AuthDb → Option AuthOtp
  latest_otp email purpose s =
      find_row (λ o. true)
        (order_by (λ a b. ltb b.created_at a.created_at)
          (select_rows (λ o. same_text o.email email && same_purpose o.purpose purpose) s.otps))

  abbrev pub refuse_code : Bool → Exec AuthDb ℕ
  refuse_code true = raise (bad_request (fixed "Too many attempts — OTP invalidated"))
  refuse_code false = raise (bad_request (fixed "Invalid OTP"))

  abbrev pub compare_code : String → OtpPurpose → ℕ → Bool → Exec AuthDb ℕ
  compare_code email purpose id true = do clear_otp_attempts email purpose; pure id
  compare_code email purpose id false = do
    result ← increment_otp_attempts email purpose otp_max_attempts otp_attempts_ttl_seconds
    refuse_code result.locked

  abbrev pub check_row : String → OtpPurpose → String → Option AuthOtp → Exec AuthDb ℕ
  check_row email purpose code none = raise (bad_request (fixed "OTP not found"))
  check_row email purpose code (some o) = do
    raise_if (is_some o.used_at) (bad_request (fixed "OTP already used"))
    expired ← gets (λ s. ltb o.expires_at s.clock)
    raise_if expired (bad_request (fixed "OTP expired"))
    compare_code email purpose o.id (same_text (hash_otp code o.salt) o.code_hash)

  -- Answers the id of the accepted row.
  unfoldable pub check_verification : String → OtpPurpose → (code : String) → Exec AuthDb ℕ
  check_verification email purpose code = do
    found ← gets (latest_otp email purpose)
    check_row email purpose code found
