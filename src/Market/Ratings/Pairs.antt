-- ===== src/Market/Ratings/Pairs.antt =====
-- One rating of each user by each other: an invariant of src/ratings/ratings.service.ts.
use kayan_place.Prelude.{
  ℕ, ◌≡◌, refl, Bool, true, false, List, [], ◌∷◌, ◌++◌, ◌==◌, ◌⊎◌, inl, inr, arith, All, All-append,
  Bool-cases, subst, sym,
}
use kayan_place.Prelude.Rows.{any_row, update_rows, All-update_rows}
use kayan_place.Database.{state}
use kayan_place.Kayan.Dto.{AuthUser}
use kayan_place.Market.Tables.{MarketDb, UserRating}
use kayan_place.Market.Access.{assert_user_exists}
use kayan_place.Market.Ratings.{
  rate_user, CreateRatingDto, is_pair, put_rating, new_rating, in_range,
}

-- From one to five, and not of oneself.
abbrev pub IsFair : UserRating → Type 0
IsFair r = (in_range r.rating_value ≡ true) × ((r.rater_id == r.rated_user_id) ≡ false)

abbrev pub Single : List UserRating → Type 0
Single [] = Unit
Single (r ∷ rs) = All (λ q. is_pair r.rater_id r.rated_user_id q ≡ false) rs × Single rs

pub record FairRatings (rs : List UserRating) : Type 0 where
  pub fair : All IsFair rs
  pub single : Single rs

no-pair :
    (a b : ℕ) (rs : List UserRating) (r : UserRating)
    → is_pair a b r ≡ true
    → any_row (is_pair a b) rs ≡ false
    → All (λ q. is_pair q.rater_id q.rated_user_id r ≡ false) rs
no-pair a b [] r t h = tt
no-pair a b (q ∷ rs) r t h = (ground arith, no-pair a b rs r t (ground arith))

Single-append :
    (rs : List UserRating) (r : UserRating)
    → All (λ q. is_pair q.rater_id q.rated_user_id r ≡ false) rs
    → Single rs
    → Single (rs ++ r ∷ [])
Single-append [] r h v = (tt, tt)
Single-append (q ∷ rs) r (p, h) (o, v) = (
  All-append (λ x. is_pair q.rater_id q.rated_user_id x ≡ false) rs (r ∷ []) o (p, tt),
  Single-append rs r h v,
)

Single-update :
    (p : UserRating → Bool) (f : UserRating → UserRating)
    → ((r : UserRating) → (f r).rater_id ≡ r.rater_id)
    → ((r : UserRating) → (f r).rated_user_id ≡ r.rated_user_id)
    → (rs : List UserRating) → Single rs
    → Single (update_rows p f rs)
Single-update p f a b [] v = tt
Single-update p f a b (r ∷ rs) (o, v) =
    let others =
      All-update_rows (λ x. is_pair r.rater_id r.rated_user_id x ≡ false)
        (λ x. is_pair r.rater_id r.rated_user_id x ≡ false) p f (λ x h t. rw (a x, b x) h)
        (λ x h t. h) rs o in
    elim (Bool-cases (p r)) [
      | inl e ↦ rw (e, a r, b r) (others, Single-update p f a b rs v)
      | inr e ↦ rw e (others, Single-update p f a b rs v)
    ]

put-FairRatings :
    (user : AuthUser) (dto : CreateRatingDto) (id : ℕ) (s : MarketDb) (there : Bool)
    → any_row (is_pair user.sub dto.rated_user_id) s.ratings ≡ there
    → in_range dto.rating_value ≡ true
    → (user.sub == dto.rated_user_id) ≡ false
    → FairRatings s.ratings
    → FairRatings (put_rating user dto id s there)
put-FairRatings user dto id s true h range other v =
    let f = λ (r : UserRating). record r {
      rating_value = dto.rating_value;
      comment = dto.comment;
      updated_at = s.clock;
    } in
    record {
      fair =
          All-update_rows IsFair IsFair (is_pair user.sub dto.rated_user_id) f
            (λ r fair hit. (range, fair.1)) (λ r fair miss. fair) s.ratings v.fair;
      single =
          Single-update (is_pair user.sub dto.rated_user_id) f (λ r. refl) (λ r. refl) s.ratings
            v.single;
    }
put-FairRatings user dto id s false h range other v =
    let r = new_rating user dto id s in
    record {
      fair = All-append IsFair s.ratings (r ∷ []) v.fair ((range, other), tt);
      single =
          Single-append s.ratings r
            (no-pair user.sub dto.rated_user_id s.ratings r (ground arith) h) v.single;
    }

rate_user-ratings :
    (user : AuthUser) (dto : CreateRatingDto) (s : MarketDb)
    → ((state (rate_user user dto s)).ratings ≡ s.ratings)
      ⊎ ((in_range dto.rating_value ≡ true)
          × ((user.sub == dto.rated_user_id) ≡ false)
          × ((state (rate_user user dto s)).ratings
              ≡ put_rating user dto s.next_rating s
                  (any_row (is_pair user.sub dto.rated_user_id) s.ratings)))
unfolding rate_user assert_user_exists
rate_user-ratings user dto s = ground arith

unfoldable pub rate_all : List (AuthUser × CreateRatingDto) → MarketDb → MarketDb
unfolding rate_user
rate_all [] s = s
rate_all ((user, dto) ∷ calls) s = rate_all calls (state (rate_user user dto s))

rate_user-FairRatings :
    (user : AuthUser) (dto : CreateRatingDto) (s : MarketDb)
    → FairRatings s.ratings
    → FairRatings (state (rate_user user dto s)).ratings
rate_user-FairRatings user dto s v = elim (rate_user-ratings user dto s) [
  | inl e ↦ subst FairRatings (sym e) v
  | inr (range, other, e) ↦
      subst FairRatings (sym e) (put-FairRatings user dto s.next_rating s _ refl range other v)
]

-- Over any requests to rate, whether they succeed or not: every rating is from one to five, nobody
-- rates themselves, and nobody has two ratings of the same user.
pub rate_all-FairRatings :
    (calls : List (AuthUser × CreateRatingDto)) (s : MarketDb)
    → FairRatings s.ratings
    → FairRatings (rate_all calls s).ratings
unfolding rate_all
rate_all-FairRatings [] s v = v
rate_all-FairRatings ((user, dto) ∷ calls) s v =
    rate_all-FairRatings calls (state (rate_user user dto s)) (rate_user-FairRatings user dto s v)
