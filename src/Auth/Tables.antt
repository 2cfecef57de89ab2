-- ===== src/Auth/Tables.antt =====
-- The tables that src/auth/ reads and writes, its Redis keys, and what it takes from libraries.
use kayan_place.Prelude.{ℕ, String, Bool, true, List, Option, ◌==◌}

pub data OtpPurpose : Type 0 where
  registration password_reset : OtpPurpose

abbrev purpose_code : OtpPurpose → ℕ
purpose_code registration = 0
purpose_code password_reset = 1

abbrev pub same_purpose : OtpPurpose → OtpPurpose → Bool
same_purpose a b = purpose_code a == purpose_code b

abbrev pub purpose_name : OtpPurpose → String
purpose_name registration = "registration"
purpose_name password_reset = "password_reset"

pub data UserStatus : Type 0 where
  active paused banned : UserStatus

abbrev pub is_active : UserStatus → Bool
is_active active = true
is_active _ = Bool.false

-- The rows of users.
pub record Account : Type 0 where
  pub id : ℕ
  pub name : String
  pub phone : Option String
  pub email : String
  pub address : Option String
  pub password_hash : String
  pub status : UserStatus
  pub is_admin : Bool
  pub token_version : ℕ
  pub avatar_file_id : Option ℕ
  pub contact_info : Option String
  pub deleted_at : Option ℕ
  pub created_at : ℕ
  pub updated_at : ℕ

pub record PendingRegistration : Type 0 where
  pub email : String
  pub phone : String
  pub name : String
  pub address : Option String
  pub password_hash : String
  pub expires_at : ℕ
  pub created_at : ℕ

pub record AuthOtp : Type 0 where
  pub id : ℕ
  pub user_id : Option ℕ
  pub email : String
  pub code_hash : String
  pub salt : String
  pub purpose : OtpPurpose
  pub expires_at : ℕ
  pub used_at : Option ℕ
  pub created_at : ℕ

pub record OtpAttempts : Type 0 where
  pub email : String
  pub purpose : OtpPurpose
  pub attempts : ℕ
  pub expires_at : ℕ
  pub updated_at : ℕ

pub record RefreshToken : Type 0 where
  pub jti : String
  pub user_id : ℕ
  pub expires_at : ℕ
  pub revoked_at : Option ℕ

pub record CacheEntry (V : Type 0) : Type 0 where
  pub key : String
  pub value : V
  pub expires_at : ℕ

-- Redis: if it is enabled, if it answers, and its keys by what they hold.
pub record Redis : Type 0 where
  pub enabled : Bool
  pub answers : Bool
  pub attempts : List (CacheEntry ℕ)
  pub transactions : List (CacheEntry String)
  pub refresh_jtis : List (CacheEntry ℕ)
  pub user_statuses : List (CacheEntry String)

pub record AuthDb : Type 0 where
  -- NOW() and Date.now(), in seconds
  pub clock : ℕ
  -- how many random values were drawn
  pub draws : ℕ
  pub redis : Redis
  pub accounts : List Account
  pub next_account : ℕ
  pub pendings : List PendingRegistration
  pub otps : List AuthOtp
  pub next_otp : ℕ
  pub otp_attempts : List OtpAttempts
  pub refresh_tokens : List RefreshToken

-- ROLLBACK. Redis, the random values and the identities are not of the transaction.
abbrev pub rollback : AuthDb → AuthDb → AuthDb
rollback before after = record before {
  draws = after.draws;
  redis = after.redis;
  next_account = after.next_account;
  next_otp = after.next_otp;
}

-- The claims of a token; a refresh token also has a jti.
pub record Payload : Type 0 where
  pub sub : ℕ
  pub email : String
  pub is_admin : Bool
  pub token_version : ℕ
  pub jti : Option String

-- LOWER of the database, bcrypt, crypto and JWT. Salts and random values are by their draw.
pub record Library : Type 0 where
  pub lower : String → String
  pub hash : (draw : ℕ) → String → String
  pub compare : (password password_hash : String) → Bool
  pub hmac : (secret message : String) → String
  pub random_otp : ℕ → String
  pub random_hex : ℕ → String
  pub sign : (secret : String) → (ttl : ℕ) → (now : ℕ) → Payload → String
  pub verify : (secret : String) → (now : ℕ) → String → Option Payload

-- Of `AppConfig`; the lifetimes of the tokens in seconds.
pub record Settings : Type 0 where
  pub otp_dev_mode : Bool
  pub otp_ttl_minutes : ℕ
  pub otp_signing_secret : String
  pub jwt_access_secret : String
  pub jwt_refresh_secret : String
  pub jwt_access_ttl : ℕ
  pub jwt_refresh_ttl : ℕ
