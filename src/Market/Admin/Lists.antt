-- ===== src/Market/Admin/Lists.antt =====
-- `listUsers`, `listAdmins`, `getUserDetails` and `listUserListings` of src/admin/admin.service.ts.
-- `ilike text pattern` is the server's ILIKE with the escape `\`.
use kayan_place.Prelude.{
  ℕ, String, Bool, true, false, not, ◌&&◌, ◌||◌, List, map, Option, none, some, ◌==◌, ltb, is_some,
  length,
}
use kayan_place.Prelude.Rows.{find_row, select_rows}
use kayan_place.Prelude.Sort.{order_by}
use kayan_place.Helpers.Pagination.{OffsetPaginationQuery, resolve_offset_pagination, paginate}
use kayan_place.Database.{Exec, fixed, not_found, pure, raise, gets, ◌>>=◌, ◌>>◌}
use kayan_place.Auth.Tables.{Account, UserStatus}
use kayan_place.Kayan.Listings.{when_given}
use kayan_place.Kayan.Listings.Gallery.{search_pattern}
use kayan_place.Market.Tables.{MarketDb, FileStatus, Listing, ListingStatus, is_user}
use kayan_place.Market.Access.{assert_user_exists}
use kayan_place.Market.Admin.{AdminUser, admin_user}
use kayan_place.Market.Users.Profiles.{images_of, ImageView, newest}

pub record ListUsersQueryDto : Type 0 where
  pub page : OffsetPaginationQuery
  pub status : Option UserStatus
  pub q : Option String

abbrev pub same_status : UserStatus → UserStatus → Bool
same_status UserStatus.active UserStatus.active = true
same_status UserStatus.paused UserStatus.paused = true
same_status UserStatus.banned UserStatus.banned = true
same_status _ _ = false

-- NULL ILIKE pattern is not true.
abbrev phone_mentions : (String → String → Bool) → Option String → String → Bool
phone_mentions ilike none pattern = false
phone_mentions ilike (some phone) pattern = ilike phone pattern

abbrev pub users_filter : (String → String → Bool) → ListUsersQueryDto → Account → Bool
unfolding search_pattern
users_filter ilike dto a =
    when_given dto.status (λ x. same_status a.status x)
    && (when_given dto.q
          (λ q. ilike a.name (search_pattern q) || phone_mentions ilike a.phone (search_pattern q))
        && not (is_some a.deleted_at))

-- ORDER BY created_at DESC
abbrev pub newest_account : Account → Account → Bool
newest_account a b = ltb b.created_at a.created_at

pub record ListedUser : Type 0 where
  pub user : AdminUser
  pub published_products_count : ℕ

abbrev pub listed_user : MarketDb → Account → ListedUser
listed_user s a = record {
  user = admin_user a;
  published_products_count =
      length (select_rows (λ p. p.owner_id == a.id && not (is_some p.deleted_at)) s.listings);
}

unfoldable pub list_users :
    (String → String → Bool) → ListUsersQueryDto → Exec MarketDb (List ListedUser)
list_users ilike dto = gets (λ s. map (listed_user s) (
    paginate (resolve_offset_pagination dto.page 50 100)
      (order_by newest_account (select_rows (users_filter ilike dto) s.accounts))))

unfoldable pub list_admins : OffsetPaginationQuery → Exec MarketDb (List AdminUser)
list_admins dto = gets (λ s. map admin_user (
    paginate (resolve_offset_pagination dto 20 100) (
      order_by newest_account
        (select_rows (λ a. a.is_admin && not (is_some a.deleted_at)) s.accounts))))

pub record UserDetails : Type 0 where
  pub user : AdminUser
  pub status : UserStatus
  pub avatar_file_id : Option ℕ
  pub contact_info : Option String

abbrev details_of : Option Account → Exec MarketDb UserDetails
details_of none = raise (not_found (fixed "User not found"))
details_of (some a) = pure (record {
  user = admin_user a;
  status = a.status;
  avatar_file_id = a.avatar_file_id;
  contact_info = a.contact_info;
})

unfoldable pub get_user_details : ℕ → Exec MarketDb UserDetails
get_user_details user_id = do
  found ← gets (λ s. find_row (is_user user_id) s.accounts)
  details_of found

-- The statuses that the query admits.
pub data ShownStatus : Type 0 where
  available sold : ShownStatus

pub record ListUserListingsQueryDto : Type 0 where
  pub page : OffsetPaginationQuery
  pub status : Option ShownStatus

abbrev pub has_status : ListingStatus → ShownStatus → Bool
has_status ListingStatus.available available = true
has_status ListingStatus.sold sold = true
has_status _ _ = false

abbrev pub is_shown : ListingStatus → Bool
is_shown ListingStatus.archived = false
is_shown _ = true

abbrev pub listings_filter : ℕ → Option ShownStatus → Listing → Bool
listings_filter user_id status p =
    p.owner_id == user_id
    && (not (is_some p.deleted_at)
        && (is_shown p.status && when_given status (has_status p.status)))

abbrev is_uploaded : ImageView → Bool
is_uploaded i = elim i.status [ FileStatus.uploaded ↦ true | _ ↦ false ]

abbrev file_of : Option ImageView → Option ℕ
file_of none = none
file_of (some i) = some i.file_id

pub record OwnListing : Type 0 where
  pub listing : Listing
  pub product_image_file_id : Option ℕ

-- The first uploaded image by its order.
abbrev pub own_listing : MarketDb → Listing → OwnListing
unfolding images_of
own_listing s p = record {
  listing = p;
  product_image_file_id = file_of (find_row is_uploaded (images_of s p.id));
}

unfoldable pub list_user_listings : ℕ → ListUserListingsQueryDto → Exec MarketDb (List OwnListing)
unfolding assert_user_exists
list_user_listings user_id dto = do
  assert_user_exists user_id "User not found"
  gets (λ s. map (own_listing s) (
      paginate (resolve_offset_pagination dto.page 20 100)
        (order_by newest (select_rows (listings_filter user_id dto.status) s.listings))))
