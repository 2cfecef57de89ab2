-- ===== src/Market/Tests.antt =====
-- Runs of Market on small tables.
use kayan_place.Prelude.{ℕ, ◌≡◌, refl, String, true, false, List, [], ◌∷◌, none, some, arith}
use kayan_place.Database.{ok, err, state}
use kayan_place.Auth.Tables.{Account, AuthDb, UserStatus, Payload}
use kayan_place.Auth.Service.{login, refresh, generate_tokens, invalid_refresh_token, Tokens}
use kayan_place.Auth.Store.{save_refresh_token_jti, consume_refresh_token_jti}
use kayan_place.Auth.Tests.{toy, settings, member, toy-accepts}
use kayan_place.Kayan.Dto.{AuthUser}
use kayan_place.Market.Tables.{MarketDb, on_auth}
use kayan_place.Market.Access.{
  JwtPayload, AccessUser, validate, can_activate, stale_token, assert_user_exists,
}
use kayan_place.Market.Samples.{market}
use kayan_place.Market.Views.{map_to_app_user}
use kayan_place.Market.Admin.{promote_admin, demote_admin, update_user_status, log_admin_action}
use kayan_place.Market.Users.{change_password, ChangePasswordDto}
use kayan_place.Market.Calls.{AccountCall, perform, perform_all}
use kayan_place.Market.Revocation.{perform-stale, perform-refresh_stale}
use kayan_place.Market.Rights.{
  update_user_status-validate, demote_admin-can_activate, change_password-login,
}
use kayan_place.Market.Files.{Keys, base_name}
use kayan_place.Market.Files.Names.{is_safe_text, base_name-safe}
use kayan_place.Kayan.Listings.Gallery.{escape_like}
use kayan_place.Kayan.Listings.Escapes.{literal_of, escape_like-literal}
use kayan_place.Market.Ratings.{CreateRatingDto, rate_user}
use kayan_place.Market.Ratings.Pairs.{FairRatings, rate_all, rate_all-FairRatings}

abbrev as_admin : AuthUser
as_admin = record { sub = 2; is_admin = true }

abbrev as_member : AuthUser
as_member = record { sub = 1; is_admin = false }

abbrev access : JwtPayload
access = record { sub = 1; email = "e"; is_admin = false; token_version = some 0 }

-- What the runs compute with.
service : Unit {0}
unfolding perform perform_all promote_admin demote_admin update_user_status change_password validate
    can_activate log_admin_action map_to_app_user login refresh generate_tokens
    save_refresh_token_jti consume_refresh_token_jti rate_user rate_all assert_user_exists
service = tt

abbrev key : ℕ → String
key n = "k"

abbrev json : String → String
json t = t

abbrev url : String → String → String
url k m = k

abbrev later : List AccountCall
later =
    AccountCall.waits 5
    ∷ AccountCall.logs_in "e" "old"
    ∷ AccountCall.requests_reset "e"
    ∷ AccountCall.resets_password
        (record { email = "e"; otp = "000000"; new_password = "new"; confirm_password = "new" })
    ∷ []

abbrev promotion : AccountCall
promotion = AccountCall.promotes as_admin 1

abbrev promoted : MarketDb
promoted = state (perform key json url toy settings promotion market)

perform-stale_example :
    validate access (perform_all key json url toy settings later promoted)
    ≡ err stale_token (perform_all key json url toy settings later promoted)
unfolding service
perform-stale_example =
    perform-stale key json url toy settings promotion later access 0 market {s' = promoted} refl
      (λ e. absurd (omega (arith, e))) (omega arith) refl
      ((λ _. omega arith), ((λ _. omega arith), ((λ _. omega arith), tt))) refl

abbrev claims : Payload
claims = record { sub = 1; email = "e"; is_admin = false; token_version = 0; jti = some "j" }

perform-refresh_stale_example :
    (t : AuthDb) × (refresh toy settings "token"
        (perform_all key json url toy settings later promoted).auth
      ≡ err invalid_refresh_token t)
unfolding service
perform-refresh_stale_example =
    perform-refresh_stale key json url toy settings promotion later "token" claims 0 market
      {s' = promoted} refl (omega arith) refl
      ((λ _. omega arith), ((λ _. omega arith), ((λ _. omega arith), tt))) refl refl

abbrev seen : AccessUser
seen = record { sub = 1; email = "e"; is_admin = false; token_version = 0 }

update_user_status-validate_example :
    let t = state (update_user_status key as_admin 1 UserStatus.banned market) in
    validate access t ≡ ok seen t
unfolding service
update_user_status-validate_example =
    update_user_status-validate key as_admin 1 UserStatus.banned access seen market refl

abbrev actor : AccessUser
actor = record { sub = 2; email = "a"; is_admin = true; token_version = 0 }

demote_admin-can_activate_example :
    can_activate actor (state (demote_admin as_admin 3 market))
    ≡ ok (record actor { is_admin = true }) (state (demote_admin as_admin 3 market))
unfolding service
demote_admin-can_activate_example =
    demote_admin-can_activate as_admin actor 3 market {r = _} {s' = _} refl refl refl

abbrev change : ChangePasswordDto
change = record { old_password = "old"; new_password = "new" }

change_password-login_example :
    (b : Account) × (tokens : Tokens) × (t : MarketDb) × (on_auth
        (login toy settings "e" "new")
        (state (change_password toy as_member change market))
      ≡ ok (b, tokens) t)
unfolding service
change_password-login_example =
    change_password-login toy settings as_member change member market {s' = _} toy-accepts refl refl
      refl refl

abbrev ratings : List (AuthUser × CreateRatingDto)
ratings =
    (as_member, record { rated_user_id = 2; rating_value = 5; comment = none })
    ∷ (as_member, record { rated_user_id = 2; rating_value = 3; comment = some "c" })
    ∷ (as_member, record { rated_user_id = 1; rating_value = 4; comment = none })
    ∷ []

rate_all-FairRatings_example : FairRatings (rate_all ratings market).ratings
unfolding service
rate_all-FairRatings_example =
    rate_all-FairRatings ratings market (record { fair = tt; single = tt })

abbrev no_keys : Keys
no_keys = record {
  decimal = λ n. "0";
  random_hex = λ n. "a";
  uploader =
      λ k m. record { method = "POST"; url = k; expires_at = "t"; headers = none; fields = none };
}

base_name-safe_example : is_safe_text (base_name no_keys "../a b.png" "image/png") ≡ true
base_name-safe_example = base_name-safe no_keys "../a b.png" "image/png"

escape_like-literal_example : literal_of (escape_like "50%_\\") ≡ some "50%_\\"
escape_like-literal_example = escape_like-literal "50%_\\"
