-- ===== src/Market/Access.antt =====
-- Who makes a request: `JwtStrategy.validate` of src/auth/jwt.strategy.ts, `AdminGuard` of
-- src/common/guards/admin.guard.ts and `assertUserExists` of src/common/helpers/db.helpers.ts.
use kayan_place.Prelude.{ℕ, String, Bool, true, false, not, Option, none, some, ◌==◌, if◌then◌else◌}
use kayan_place.Prelude.Rows.{find_row, any_row}
use kayan_place.Database.{
  Exec, Error, fixed, unauthorized, forbidden, not_found, pure, raise, raise_if, gets, ◌>>=◌, ◌>>◌,
}
use kayan_place.Auth.Tables.{Account}
use kayan_place.Market.Tables.{MarketDb, is_user}

-- `toPositiveInt` of src/common/helpers/id.helpers.ts at what an id column or a claim holds.
abbrev pub to_positive_int : ℕ → Option ℕ
to_positive_int n = if n == 0 then none else some n

pub record JwtPayload : Type 0 where
  pub sub : ℕ
  pub email : String
  pub is_admin : Bool
  pub token_version : Option ℕ

pub record AccessUser : Type 0 where
  pub sub : ℕ
  pub email : String
  pub is_admin : Bool
  pub token_version : ℕ

abbrev invalid_token : Error
invalid_token = unauthorized (fixed "Invalid token")

abbrev pub stale_token : Error
stale_token = unauthorized (fixed "Token is stale")

abbrev pub current_user : JwtPayload → ℕ → ℕ → Option Account → Exec MarketDb AccessUser
current_user p version sub none = raise stale_token
current_user p version sub (some a) = do
  raise_if (not (a.token_version == version)) stale_token
  pure (record {
    sub = sub;
    email = a.email;
    is_admin = p.is_admin;
    token_version = a.token_version;
  })

abbrev pub validate_sub : JwtPayload → ℕ → Option ℕ → Exec MarketDb AccessUser
validate_sub p version none = raise invalid_token
validate_sub p version (some sub) = do
  found ← gets (λ s. find_row (is_user sub) s.accounts)
  current_user p version sub found

abbrev pub validate_version : JwtPayload → Option ℕ → Exec MarketDb AccessUser
validate_version p none = raise invalid_token
validate_version p (some version) = validate_sub p version (to_positive_int p.sub)

unfoldable pub validate : JwtPayload → Exec MarketDb AccessUser
validate p = validate_version p p.token_version

abbrev is_admin_row : Option Account → Bool
is_admin_row none = false
is_admin_row (some a) = a.is_admin

-- The guard asks the table, not the token; deleted users are in it too.
unfoldable pub can_activate : AccessUser → Exec MarketDb AccessUser
can_activate user = do
  raise_if (user.sub == 0) (forbidden (fixed "Admin privileges required"))
  found ← gets (λ s. find_row (λ a. a.id == user.sub) s.accounts)
  raise_if (not (is_admin_row found)) (forbidden (fixed "Admin privileges required"))
  pure (record user { is_admin = true })

-- The text is the label and ` not found`.
unfoldable pub assert_user_exists : ℕ → (refusal : String) → Exec MarketDb (Unit {0})
assert_user_exists user_id refusal = do
  found ← gets (λ s. any_row (is_user user_id) s.accounts)
  raise_if (not found) (not_found (fixed refusal))
