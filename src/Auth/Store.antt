-- ===== src/Auth/Store.antt =====
-- `AuthStateStore` of src/auth/auth-state.store.ts.
use Prim.Native.String
use kayan_place.Prelude.{
  ℕ, suc, ◌+◌, String, Bool, true, false, not, ◌&&◌, List, [], ◌∷◌, ◌++◌, Option, none, some, ltb,
  leb, is_some, same_text, if◌then◌else◌,
}
use kayan_place.Prelude.Rows.{find_row, update_rows, delete_rows, any_row}
use kayan_place.Database.{Exec, pure, gets, modify, ◌>>=◌, ◌>>◌}
use kayan_place.Auth.Tables.{
  AuthDb, Redis, CacheEntry, OtpPurpose, OtpAttempts, RefreshToken, same_purpose, purpose_name,
}

abbrev otp_attempts_key : String → OtpPurpose → String
otp_attempts_key email purpose =
    String.◌++◌ "otp_attempts:" (String.◌++◌ email (String.◌++◌ ":" (purpose_name purpose)))

abbrev otp_transaction_key : String → OtpPurpose → String
otp_transaction_key email purpose =
    String.◌++◌ "otp:tx:" (String.◌++◌ (purpose_name purpose) (String.◌++◌ ":" email))

abbrev refresh_key : String → String
refresh_key jti = String.◌++◌ "refresh_jti:" jti

-- GET, SET … EX and DEL of Redis.
module _ {V : Type 0} where
  abbrev cached : Option (CacheEntry V) → Option V
  cached none = none
  cached (some e) = some e.value

  abbrev cache_get : ℕ → String → List (CacheEntry V) → Option V
  cache_get now key es = cached (find_row (λ e. same_text e.key key && ltb now e.expires_at) es)

  abbrev pub cache_del : String → List (CacheEntry V) → List (CacheEntry V)
  cache_del key es = delete_rows (λ e. same_text e.key key) es

  abbrev cache_set : ℕ → String → V → ℕ → List (CacheEntry V) → List (CacheEntry V)
  cache_set now key value ttl es =
      cache_del key es ++ record { key = key; value = value; expires_at = now + ttl } ∷ []

-- An operation on Redis that is skipped if it is disabled, and whose failure is only logged.
abbrev pub try_redis_set : (AuthDb → Redis) → Exec AuthDb (Unit {0})
try_redis_set op =
    modify (λ s. record s { redis = if s.redis.enabled && s.redis.answers then op s else s.redis })

abbrev next_attempt : Option ℕ → ℕ
next_attempt none = 1
next_attempt (some n) = suc n

abbrev pub is_attempts : String → OtpPurpose → OtpAttempts → Bool
is_attempts email purpose a = same_text a.email email && same_purpose a.purpose purpose

-- DO UPDATE SET: an expired count starts again.
abbrev bump : (now ttl : ℕ) → OtpAttempts → OtpAttempts
bump now ttl a = record a {
  attempts = if leb a.expires_at now then 1 else suc a.attempts;
  expires_at = if leb a.expires_at now then now + ttl else a.expires_at;
  updated_at = now;
}

abbrev put_attempts : AuthDb → String → OtpPurpose → ℕ → Bool → List OtpAttempts
put_attempts s email purpose ttl true =
    update_rows (is_attempts email purpose) (bump s.clock ttl) s.otp_attempts
put_attempts s email purpose ttl false =
    s.otp_attempts
    ++ record {
      email = email;
      purpose = purpose;
      attempts = 1;
      expires_at = s.clock + ttl;
      updated_at = s.clock;
    }
      ∷ []

-- RETURNING attempts
abbrev attempts_of : Option OtpAttempts → ℕ
attempts_of none = 0
attempts_of (some a) = a.attempts

abbrev pub upsert_attempts : String → OtpPurpose → ℕ → Exec AuthDb ℕ
upsert_attempts email purpose ttl = do
  modify (λ s. record s {
    otp_attempts =
        put_attempts s email purpose ttl (any_row (is_attempts email purpose) s.otp_attempts);
  })
  gets (λ s. attempts_of (find_row (is_attempts email purpose) s.otp_attempts))

unfoldable pub clear_otp_attempts : String → OtpPurpose → Exec AuthDb (Unit {0})
clear_otp_attempts email purpose = do
  try_redis_set (λ s. record s.redis {
    attempts = cache_del (otp_attempts_key email purpose) s.redis.attempts;
  })
  modify (λ s. record s { otp_attempts = delete_rows (is_attempts email purpose) s.otp_attempts })

pub record IncrementOtpResult : Type 0 where
  pub attempts : ℕ
  pub locked : Bool

abbrev pub lock_at : String → OtpPurpose → (attempts : ℕ) → Bool → Exec AuthDb IncrementOtpResult
lock_at email purpose attempts true = do
  clear_otp_attempts email purpose
  pure (record { attempts = attempts; locked = true })
lock_at email purpose attempts false = pure (record { attempts = attempts; locked = false })

unfoldable pub increment_otp_attempts :
    String → OtpPurpose → (max_attempts ttl : ℕ) → Exec AuthDb IncrementOtpResult
increment_otp_attempts email purpose max_attempts ttl = do
  try_redis_set (λ s. record s.redis {
    attempts =
        cache_set s.clock (otp_attempts_key email purpose)
          (next_attempt (cache_get s.clock (otp_attempts_key email purpose) s.redis.attempts)) ttl
          s.redis.attempts;
  })
  attempts ← upsert_attempts email purpose ttl
  lock_at email purpose attempts (leb max_attempts attempts)

unfoldable pub save_otp_transaction_req_id :
    String → OtpPurpose → String → ℕ → Exec AuthDb (Unit {0})
save_otp_transaction_req_id email purpose id ttl = try_redis_set (λ s. record s.redis {
  transactions = cache_set s.clock (otp_transaction_key email purpose) id ttl s.redis.transactions;
})

unfoldable pub get_otp_transaction_req_id : String → OtpPurpose → Exec AuthDb (Option String)
get_otp_transaction_req_id email purpose = gets (λ s.
    if s.redis.enabled && s.redis.answers
    then cache_get s.clock (otp_transaction_key email purpose) s.redis.transactions
    else none)

unfoldable pub clear_otp_transaction_req_id : String → OtpPurpose → Exec AuthDb (Unit {0})
clear_otp_transaction_req_id email purpose = try_redis_set (λ s. record s.redis {
  transactions = cache_del (otp_transaction_key email purpose) s.redis.transactions;
})

abbrev put_token : AuthDb → String → ℕ → ℕ → Bool → List RefreshToken
put_token s jti user_id ttl true =
    update_rows (λ t. same_text t.jti jti)
      (λ t. record t { user_id = user_id; expires_at = s.clock + ttl; revoked_at = none })
      s.refresh_tokens
put_token s jti user_id ttl false =
    s.refresh_tokens
    ++ record { jti = jti; user_id = user_id; expires_at = s.clock + ttl; revoked_at = none } ∷ []

unfoldable pub save_refresh_token_jti : String → (user_id ttl : ℕ) → Exec AuthDb (Unit {0})
save_refresh_token_jti jti user_id ttl = do
  try_redis_set (λ s. record s.redis {
    refresh_jtis = cache_set s.clock (refresh_key jti) user_id ttl s.redis.refresh_jtis;
  })
  modify (λ s. record s {
    refresh_tokens =
        put_token s jti user_id ttl (any_row (λ t. same_text t.jti jti) s.refresh_tokens);
  })

-- jti = $1 AND revoked_at IS NULL AND expires_at > NOW()
abbrev pub is_live : (now : ℕ) → String → RefreshToken → Bool
is_live now jti t = same_text t.jti jti && (not (is_some t.revoked_at) && ltb now t.expires_at)

abbrev pub user_of : Option RefreshToken → Option ℕ
user_of none = none
user_of (some t) = some t.user_id

-- DELETE … RETURNING user_id
unfoldable pub consume_refresh_token_jti : String → Exec AuthDb (Option ℕ)
consume_refresh_token_jti jti = do
  try_redis_set
      (λ s. record s.redis { refresh_jtis = cache_del (refresh_key jti) s.redis.refresh_jtis })
  found ← gets (λ s. find_row (is_live s.clock jti) s.refresh_tokens)
  modify (λ s. record s { refresh_tokens = delete_rows (is_live s.clock jti) s.refresh_tokens })
  pure (user_of found)

unfoldable pub revoke_refresh_token_jti : String → Exec AuthDb (Unit {0})
revoke_refresh_token_jti jti = do
  try_redis_set
      (λ s. record s.redis { refresh_jtis = cache_del (refresh_key jti) s.redis.refresh_jtis })
  modify (λ s. record s {
    refresh_tokens =
        update_rows (λ t. same_text t.jti jti) (λ t. record t { revoked_at = some s.clock })
          s.refresh_tokens;
  })
