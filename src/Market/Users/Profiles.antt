-- ===== src/Market/Users/Profiles.antt =====
-- `getMe`, `getPublicProfile` and `buildAvatarFile` of src/users/users.service.ts, with the view
-- product_listing_view.
use kayan_place.Prelude.{
  ℕ, String, Bool, true, false, not, ◌&&◌, ◌||◌, List, map, Option, none, some, ◌==◌, ltb, ◌+◌, ◌*◌,
  is_some, length, get_or, same_text, if◌then◌else◌, [], ◌∷◌,
}
use Prim.Native.Nat.{◌/◌}
use kayan_place.Prelude.Rows.{find_row, select_rows}
use kayan_place.Prelude.Sort.{order_by}
use kayan_place.Helpers.Pagination.{OffsetPaginationQuery, resolve_offset_pagination, paginate}
use kayan_place.Database.{Exec, fixed, not_found, raise, gets, ◌>>=◌}
use kayan_place.Kayan.Dto.{AuthUser}
use kayan_place.Auth.Tables.{Account}
use kayan_place.Market.Tables.{
  MarketDb, FileRow, FileStatus, FilePurpose, Listing, ListingStatus, ListingImage, UserRating,
  is_user,
}
use kayan_place.Market.Views.{AppUser, map_to_app_user, with_email, without_email}

pub record AvatarFile : Type 0 where
  pub id : ℕ
  pub purpose : FilePurpose
  pub object_key : String
  pub mime_type : Option String
  pub status : FileStatus
  pub created_at : ℕ
  pub uploaded_at : Option ℕ
  pub url : String

pub record Profile : Type 0 where
  pub user : AppUser
  pub rate : ℕ
  pub contact_info : Option String
  pub avatar : Option AvatarFile

abbrev pub total_of : List UserRating → ℕ
total_of [] = 0
total_of (r ∷ rs) = r.rating_value + total_of rs

-- COALESCE(ROUND(AVG(rating_value), 2), 0) in hundredths, rounded half up.
abbrev pub average : List UserRating → ℕ
average ratings =
    if length ratings == 0
    then 0
    else (200 * total_of ratings + length ratings) / (2 * length ratings)

unfoldable pub user_rate : MarketDb → ℕ → ℕ
user_rate s user_id = average (select_rows (λ r. r.rated_user_id == user_id) s.ratings)

-- LEFT JOIN files f ON f.id = u.avatar_file_id
abbrev pub avatar_row : List FileRow → Option ℕ → Option FileRow
avatar_row files none = none
avatar_row files (some k) = find_row (λ f. f.id == k) files

pub record ImageView : Type 0 where
  pub id : ℕ
  pub file_id : ℕ
  pub sort_order : ℕ
  pub object_key : String
  pub status : FileStatus

-- JOIN files f ON f.id = pi.file_id
abbrev joined : ListingImage → Option FileRow → List ImageView → List ImageView
joined i none rest = rest
joined i (some f) rest =
    record {
      id = i.id;
      file_id = i.file_id;
      sort_order = i.sort_order;
      object_key = f.object_key;
      status = f.status;
    }
    ∷ rest

abbrev pub image_views : List FileRow → List ListingImage → List ImageView
image_views files [] = []
image_views files (i ∷ is) =
    joined i (find_row (λ f. f.id == i.file_id) files) (image_views files is)

abbrev by_order : ListingImage → ListingImage → Bool
by_order a b = ltb a.sort_order b.sort_order

unfoldable pub images_of : MarketDb → ℕ → List ImageView
images_of s product_id =
    image_views s.files (order_by by_order (select_rows (λ i. i.product_id == product_id) s.images))

pub record ListingView : Type 0 where
  pub listing : Listing
  pub seller_rate : ℕ
  pub images : List ImageView

unfoldable pub listing_view : MarketDb → Listing → ListingView
unfolding images_of user_rate
listing_view s p = record {
  listing = p;
  seller_rate = user_rate s p.owner_id;
  images = images_of s p.id;
}

abbrev pub is_available : ListingStatus → Bool
is_available ListingStatus.available = true
is_available _ = false

-- ORDER BY created_at DESC
abbrev pub newest : Listing → Listing → Bool
newest a b = ltb b.created_at a.created_at

pub record PublicProfile : Type 0 where
  pub profile : Profile
  pub created_at : ℕ
  pub ads_count : ℕ
  pub products : List ListingView

abbrev pub owned : MarketDb → ℕ → List Listing
owned s user_id = select_rows (λ p. p.owner_id == user_id && not (is_some p.deleted_at)) s.listings

-- `limit` 20 unless given, and at most 50.
abbrev pub public_products : MarketDb → ℕ → OffsetPaginationQuery → List ListingView
unfolding listing_view
public_products s user_id dto = map (listing_view s) (
    paginate (resolve_offset_pagination dto 20 50)
      (order_by newest (select_rows (λ p. is_available p.status) (owned s user_id))))

module _ (url : String → String → String) where
  unfoldable pub build_avatar_file : Option FileRow → Option AvatarFile
  build_avatar_file none = none
  build_avatar_file (some f) =
      if f.id == 0 || same_text f.object_key ""
      then none
      else some (record {
        id = f.id;
        purpose = f.purpose;
        object_key = f.object_key;
        mime_type = f.mime_type;
        status = f.status;
        created_at = f.created_at;
        uploaded_at = f.uploaded_at;
        url = url f.object_key (get_or f.mime_type "");
      })

  abbrev pub profile_of : MarketDb → Account → Profile
  unfolding build_avatar_file user_rate map_to_app_user
  profile_of s a = record {
    user = map_to_app_user (with_email a);
    rate = user_rate s a.id;
    contact_info = a.contact_info;
    avatar = build_avatar_file (avatar_row s.files a.avatar_file_id);
  }

  abbrev pub show_profile : Option Account → Exec MarketDb Profile
  show_profile none = raise (not_found (fixed "User not found"))
  show_profile (some a) = gets (λ s. profile_of s a)

  unfoldable pub get_me : AuthUser → Exec MarketDb Profile
  get_me user = do found ← gets (λ s. find_row (is_user user.sub) s.accounts); show_profile found

  -- The public SELECT has no email.
  abbrev pub public_profile : OffsetPaginationQuery → MarketDb → Account → PublicProfile
  unfolding map_to_app_user
  public_profile dto s a = record {
    profile = record (profile_of s a) { user = map_to_app_user (without_email a) };
    created_at = a.created_at;
    ads_count = length (owned s a.id);
    products = public_products s a.id dto;
  }

  abbrev pub show_public : OffsetPaginationQuery → Option Account → Exec MarketDb PublicProfile
  show_public dto none = raise (not_found (fixed "User not found"))
  show_public dto (some a) = gets (λ s. public_profile dto s a)

  unfoldable pub get_public_profile : ℕ → OffsetPaginationQuery → Exec MarketDb PublicProfile
  get_public_profile user_id dto = do
    found ← gets (λ s. find_row (is_user user_id) s.accounts)
    show_public dto found
