-- ===== src/Market/Ratings.antt =====
-- `RatingsService` of src/ratings/ratings.service.ts.
pub mod Pairs
use kayan_place.Prelude.{
  ℕ, suc, String, Bool, true, false, not, ◌&&◌, List, [], ◌∷◌, ◌++◌, Option, none, some, ◌==◌, ltb,
  leb, length, take, if◌then◌else◌,
}
use kayan_place.Prelude.Rows.{find_row, select_rows, update_rows, any_row}
use kayan_place.Prelude.Sort.{order_by}
use kayan_place.Database.{
  Exec, Error, SqlState, database, fixed, bad_request, not_found, type_error, pure, raise, raise_if,
  gets, modify, ◌>>=◌, ◌>>◌,
}
use kayan_place.Kayan.Dto.{AuthUser}
use kayan_place.Market.Tables.{MarketDb, UserRating}
use kayan_place.Market.Access.{assert_user_exists}
use kayan_place.Market.Users.Profiles.{average}

pub record CreateRatingDto : Type 0 where
  pub rated_user_id : ℕ
  pub rating_value : ℕ
  pub comment : Option String

-- The key of ON CONFLICT (rater_id, rated_user_id)
abbrev pub is_pair : (rater rated : ℕ) → UserRating → Bool
is_pair rater rated r = r.rater_id == rater && r.rated_user_id == rated

abbrev pub new_rating : AuthUser → CreateRatingDto → ℕ → MarketDb → UserRating
new_rating user dto id s = record {
  id = id;
  rater_id = user.sub;
  rated_user_id = dto.rated_user_id;
  rating_value = dto.rating_value;
  comment = dto.comment;
  created_at = s.clock;
  updated_at = s.clock;
}

-- The identity is drawn in any case.
abbrev pub put_rating : AuthUser → CreateRatingDto → ℕ → MarketDb → Bool → List UserRating
put_rating user dto id s true =
    update_rows (is_pair user.sub dto.rated_user_id)
      (λ r. record r {
        rating_value = dto.rating_value;
        comment = dto.comment;
        updated_at = s.clock;
      })
      s.ratings
put_rating user dto id s false = s.ratings ++ new_rating user dto id s ∷ []

abbrev pub upsert_rating : AuthUser → CreateRatingDto → ℕ → MarketDb → MarketDb
upsert_rating user dto id s = record s {
  ratings = put_rating user dto id s (any_row (is_pair user.sub dto.rated_user_id) s.ratings);
}

abbrev pub returned_rating : Option UserRating → Exec MarketDb UserRating
returned_rating none = raise type_error
returned_rating (some r) = pure r

-- CHECK (rating_value BETWEEN 1 AND 5)
abbrev pub in_range : ℕ → Bool
in_range v = leb 1 v && leb v 5

unfoldable pub rate_user : AuthUser → CreateRatingDto → Exec MarketDb UserRating
unfolding assert_user_exists
rate_user user dto = do
  raise_if (user.sub == dto.rated_user_id) (bad_request (fixed "You cannot rate yourself"))
  assert_user_exists dto.rated_user_id "Rated user not found"
  id ← gets (λ s. s.next_rating)
  modify (λ s. record s { sequences = record s.sequences { next_rating = suc s.next_rating } })
  raise_if (not (in_range dto.rating_value)) (database SqlState.check_violation)
  known ← gets (λ s. any_row (λ a. a.id == user.sub) s.accounts)
  raise_if (not known) (not_found (fixed "Rated user not found"))
  modify (upsert_rating user dto id)
  row ← gets (λ s. find_row (is_pair user.sub dto.rated_user_id) s.ratings)
  returned_rating row

pub record RatingSummary : Type 0 where
  pub avg_rating : ℕ
  pub ratings_count : ℕ
  pub latest : List UserRating

-- ORDER BY created_at DESC LIMIT 20; the average in hundredths.
unfoldable pub get_user_rating_summary : ℕ → Exec MarketDb RatingSummary
get_user_rating_summary user_id = gets (λ s.
    let received = select_rows (λ r. r.rated_user_id == user_id) s.ratings in
    record {
      avg_rating = average received;
      ratings_count = length received;
      latest = take 20 (order_by (λ a b. ltb b.created_at a.created_at) received);
    })
