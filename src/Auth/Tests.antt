-- ===== src/Auth/Tests.antt =====
-- Authentication on one account, with toy functions for the libraries.
use Prim.Native.String
use kayan_place.Prelude.{
  ℕ, zero, suc, String, ◌≡◌, ◌≢◌, refl, ap, ◌∙◌, true, false, List, [], ◌∷◌, none, some, arith,
  same_text, same_text_iff,
}
use kayan_place.Prelude.Sort.{order_by}
use kayan_place.Database.{ok, err, state}
use kayan_place.Auth.Tables.{
  AuthDb, Account, AuthOtp, Payload, Library, Settings, UserStatus, OtpPurpose,
}
use kayan_place.Auth.Store.{
  save_refresh_token_jti, consume_refresh_token_jti, clear_otp_attempts, increment_otp_attempts,
}
use kayan_place.Auth.Otp.{check_verification}
use kayan_place.Auth.Service.{
  ResetPasswordDto, Tokens, reset_password, login, refresh, generate_tokens, invalid_refresh_token,
}
use kayan_place.Auth.Tokens.{TokenCall, run, run_all, consume_refresh_token_jti-spent}
use kayan_place.Auth.Attempts.{Guess, guess_all, check_verification-again}
use kayan_place.Auth.Sessions.{refresh-once, reset_password-login}

abbrev pub toy : Library
toy = record {
  lower = λ t. t;
  hash = λ draw p. p;
  compare = λ p h. same_text p h;
  hmac = λ secret message. message;
  random_otp = λ n. "123456";
  random_hex = λ n. elim n [ zero ↦ "a" | suc (m → s) ↦ String.◌++◌ "b" s ];
  sign = λ secret ttl now p. "token";
  verify = λ secret now token.
      some (record { sub = 1; email = "e"; is_admin = false; token_version = 0; jti = some "j" });
}

abbrev pub settings : Settings
settings = record {
  otp_dev_mode = true;
  otp_ttl_minutes = 5;
  otp_signing_secret = "s";
  jwt_access_secret = "s";
  jwt_refresh_secret = "s";
  jwt_access_ttl = 900;
  jwt_refresh_ttl = 3600;
}

abbrev pub member : Account
member = record {
  id = 1;
  name = "n";
  phone = none;
  email = "e";
  address = none;
  password_hash = "old";
  status = UserStatus.active;
  is_admin = false;
  token_version = 0;
  avatar_file_id = none;
  contact_info = none;
  deleted_at = none;
  created_at = 0;
  updated_at = 0;
}

abbrev pub code : AuthOtp
code = record {
  id = 1;
  user_id = some 1;
  email = "e";
  code_hash = "000000:x";
  salt = "x";
  purpose = OtpPurpose.password_reset;
  expires_at = 300;
  used_at = none;
  created_at = 0;
}

abbrev pub auth : AuthDb
auth = record {
  clock = 10;
  draws = 0;
  redis = record {
    enabled = false;
    answers = false;
    attempts = [];
    transactions = [];
    refresh_jtis = [];
    user_statuses = [];
  };
  accounts = member ∷ [];
  next_account = 2;
  pendings = [];
  otps = code ∷ [];
  next_otp = 2;
  otp_attempts = [];
  refresh_tokens = record { jti = "j"; user_id = 1; expires_at = 100; revoked_at = none } ∷ [];
}

-- What the runs compute with.
service : Unit {0}
unfolding check_verification order_by clear_otp_attempts increment_otp_attempts
    save_refresh_token_jti consume_refresh_token_jti generate_tokens reset_password login refresh
service = tt

abbrev calls : List TokenCall
calls = TokenCall.saves "k" 1 50 ∷ TokenCall.waits 3 ∷ []

differ : (a b : String) → same_text a b ≡ false → a ≢ b
differ a b f e = ground (arith, (same_text_iff a b).1 e)

consume_refresh_token_jti-spent_example :
    ((s' : AuthDb) × (consume_refresh_token_jti "j"
          (run_all calls (run (TokenCall.consumes "j") auth))
        ≡ ok none s'))
    × ((s' : AuthDb) × (consume_refresh_token_jti "j"
            (run_all calls (run (TokenCall.revokes "j") auth))
          ≡ ok none s'))
consume_refresh_token_jti-spent_example =
    consume_refresh_token_jti-spent "j" calls auth (differ "k" "j" refl, (tt, tt))

abbrev guesses : List Guess
guesses =
    record { email = "e"; purpose = OtpPurpose.password_reset; code = "111111" }
    ∷ record { email = "e"; purpose = OtpPurpose.password_reset; code = "000000" }
    ∷ []

check_verification-again_example :
    (t' : AuthDb) × (check_verification toy settings "e" OtpPurpose.password_reset "000000"
        (guess_all toy settings guesses auth)
      ≡ ok 1 t')
unfolding service
check_verification-again_example =
    check_verification-again toy settings "e" OtpPurpose.password_reset "000000" guesses auth
      {id = _} {s' = _} refl

some-differ : (a b : String) → same_text a b ≡ false → some a ≢ some b
some-differ a b f e = differ a b f (ground (arith, e))

some-inj : {p q : Payload} → some p ≡ some q → p ≡ q
some-inj e = ground (arith, e)

refresh-once_example :
    (s'' : AuthDb) × (refresh toy settings "token" (state (refresh toy settings "token" auth))
      ≡ err invalid_refresh_token s'')
unfolding service
refresh-once_example =
    refresh-once toy settings "token" auth {r = _} {s' = _} refl
      (λ p e q. some-differ "j" "a" refl (ap (λ p. p.jti) (some-inj e) ∙ q))

abbrev reset : ResetPasswordDto
reset = record { email = "e"; otp = "000000"; new_password = "new"; confirm_password = "new" }

pub toy-accepts :
    (draw : ℕ) (password : String) → toy.compare password (toy.hash draw password) ≡ true
toy-accepts draw password = (same_text_iff password password).1 refl

reset_password-login_example :
    (a : Account) × (t : Tokens) × (s'' : AuthDb) × (login toy settings "e" "new"
        (state (reset_password toy settings reset auth))
      ≡ ok (a, t) s'')
unfolding service
reset_password-login_example =
    reset_password-login toy settings reset auth {r = _} {s' = _} toy-accepts refl
