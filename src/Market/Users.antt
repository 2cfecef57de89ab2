-- ===== src/Market/Users.antt =====
-- `UsersService` of src/users/users.service.ts.
pub mod Profiles
use kayan_place.Prelude.{
  ℕ, suc, String, Bool, true, false, not, ◌&&◌, ◌||◌, Option, none, some, ◌==◌, is_some, get_or,
  same_text, if◌then◌else◌,
}
use kayan_place.Prelude.Rows.{find_row, update_rows, any_row}
use kayan_place.Database.{
  Exec, fixed, bad_request, not_found, forbidden, conflict, pure, raise, raise_if, gets, modify,
  ◌>>=◌, ◌>>◌,
}
use kayan_place.Kayan.Dto.{AuthUser}
use kayan_place.Auth.Tables.{Account, Library}
use kayan_place.Market.Tables.{MarketDb, FileRow, FileStatus, FilePurpose, is_user, with_accounts}
use kayan_place.Market.Access.{to_positive_int}
use kayan_place.Market.Admin.{delete_account}
use kayan_place.Market.Users.Profiles.{Profile, get_me}

-- `undefined` is none, and null is `some none`.
pub record UpdateProfileDto : Type 0 where
  pub name : Option String
  pub avatar_file_id : Option (Option ℕ)
  pub contact_info : Option (Option String)
  pub phone : Option String
  pub address : Option (Option String)

pub record ChangePasswordDto : Type 0 where
  pub old_password : String
  pub new_password : String

-- `hasName || …`
abbrev pub has_any : UpdateProfileDto → Bool
has_any dto =
    is_some dto.name
    || (is_some dto.avatar_file_id
        || (is_some dto.contact_info || (is_some dto.phone || is_some dto.address)))

abbrev pub has_phone : String → Option String → Bool
has_phone phone none = false
has_phone phone (some p) = same_text p phone

-- The SELECT before the UPDATE asks only users that are not deleted.
abbrev pub check_phone : AuthUser → Option String → Exec MarketDb (Unit {0})
check_phone user none = pure tt
check_phone user (some phone) = do
  taken ← gets (λ s.
      any_row
        (λ a. has_phone phone a.phone && (not (a.id == user.sub) && not (is_some a.deleted_at)))
        s.accounts)
  raise_if taken (conflict (fixed "Phone already exists"))

-- `!uploaderUserId || uploaderUserId !== user.sub`
abbrev is_other_owner : AuthUser → Option ℕ → Bool
is_other_owner user none = true
is_other_owner user (some k) = not (k == user.sub)

abbrev pub is_other : AuthUser → Option ℕ → Bool
is_other user none = true
is_other user (some k) = is_other_owner user (to_positive_int k)

abbrev is_avatar : FileStatus → FilePurpose → Bool
is_avatar FileStatus.uploaded FilePurpose.avatar = true
is_avatar _ _ = false

abbrev check_file : AuthUser → Option FileRow → Exec MarketDb (Unit {0})
check_file user none = raise (not_found (fixed "Avatar file not found"))
check_file user (some f) = do
  raise_if (is_other user f.uploader_user_id) (forbidden (fixed "Not allowed to use this file"))
  raise_if (not (is_avatar f.status f.purpose))
      (bad_request (fixed "Avatar file must be an uploaded avatar"))

abbrev pub check_avatar : AuthUser → Option (Option ℕ) → Exec MarketDb (Unit {0})
check_avatar user none = pure tt
check_avatar user (some none) = pure tt
check_avatar user (some (some file_id)) = do
  found ← gets (λ s. find_row (λ f. f.id == file_id) s.files)
  check_file user found

-- `CASE WHEN given THEN value ELSE column END`
abbrev phone_or : Option String → Option String → Option String
phone_or none column = column
phone_or (some value) column = some value

abbrev pub set_profile : UpdateProfileDto → (now : ℕ) → Account → Account
set_profile dto now a = record a {
  name = get_or dto.name a.name;
  avatar_file_id = get_or dto.avatar_file_id a.avatar_file_id;
  contact_info = get_or dto.contact_info a.contact_info;
  phone = phone_or dto.phone a.phone;
  address = get_or dto.address a.address;
  updated_at = now;
}

-- The phone of the updated row is that of another row, deleted or not: 23505.
abbrev pub is_taken : AuthUser → Option String → MarketDb → Bool
is_taken user none s = false
is_taken user (some phone) s =
    any_row (is_user user.sub) s.accounts
    && any_row (λ a. has_phone phone a.phone && not (a.id == user.sub)) s.accounts

abbrev pub update_profile : AuthUser → UpdateProfileDto → MarketDb → MarketDb
update_profile user dto s =
    with_accounts s (update_rows (is_user user.sub) (set_profile dto s.clock) s.accounts)

-- `url` is the read URL of an object key and a mime type.
module _ (url : String → String → String) where
  unfoldable pub update_me : AuthUser → UpdateProfileDto → Exec MarketDb Profile
  unfolding get_me
  update_me user dto = do
    raise_if (not (has_any dto)) (bad_request (fixed "Nothing to update"))
    check_phone user dto.phone
    check_avatar user dto.avatar_file_id
    taken ← gets (is_taken user dto.phone)
    raise_if taken (conflict (fixed "Phone already exists"))
    modify (update_profile user dto)
    get_me url user

  unfoldable pub delete_avatar : AuthUser → Exec MarketDb Profile
  unfolding get_me
  delete_avatar user = do
    found ← gets (λ s. any_row (is_user user.sub) s.accounts)
    modify (λ s. with_accounts s (
        update_rows (is_user user.sub)
          (λ a. record a { avatar_file_id = none; updated_at = s.clock }) s.accounts))
    raise_if (not found) (not_found (fixed "User not found"))
    get_me url user

abbrev pub set_hash : (sub : ℕ) → String → MarketDb → MarketDb
set_hash sub password_hash s = record s {
  auth = record s.auth {
    draws = suc s.draws;
    accounts =
        update_rows (is_user sub)
          (λ a. record a { password_hash = password_hash; updated_at = s.clock }) s.accounts;
  };
}

module _ (library : Library) where
  abbrev pub replace_password :
      AuthUser → ChangePasswordDto → Option Account → Exec MarketDb (Unit {0})
  replace_password user dto none = raise (not_found (fixed "User not found"))
  replace_password user dto (some a) = do
    raise_if (not (library.compare dto.old_password a.password_hash))
        (bad_request (fixed "Invalid old password"))
    password_hash ← gets (λ s. library.hash s.draws dto.new_password)
    modify (set_hash user.sub password_hash)

  unfoldable pub change_password : AuthUser → ChangePasswordDto → Exec MarketDb (Unit {0})
  change_password user dto = do
    found ← gets (λ s. find_row (is_user user.sub) s.accounts)
    replace_password user dto found

-- The statement of `AdminService.deleteUser`, on oneself.
unfoldable pub delete_me : AuthUser → Exec MarketDb (Unit {0})
unfolding delete_account
delete_me user = delete_account user.sub
