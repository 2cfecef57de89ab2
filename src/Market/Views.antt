-- ===== src/Market/Views.antt =====
-- What the older services show of a user: src/common/mappers/app-user.mapper.ts.
use kayan_place.Prelude.{ℕ, String, Option, none, some, get_or}
use kayan_place.Auth.Tables.{Account, UserStatus}

abbrev pub status_name : UserStatus → String
status_name UserStatus.active = "active"
status_name UserStatus.paused = "paused"
status_name UserStatus.banned = "banned"

-- A row with the columns that a statement selected.
pub record AppUserSource : Type 0 where
  pub id : ℕ
  pub name : Option String
  pub phone : Option String
  pub email : Option String
  pub profile_state : Option String
  pub status : Option String

pub record AppUser : Type 0 where
  pub id : ℕ
  pub name : String
  pub phone : String
  pub email : String
  pub profile_state : Option String

abbrev pub coalesce {ℓ} : {A : Type ℓ} → Option A → Option A → Option A
coalesce none b = b
coalesce (some a) b = some a

unfoldable pub map_to_app_user : AppUserSource → AppUser
map_to_app_user source = record {
  id = source.id;
  name = get_or source.name "";
  phone = get_or source.phone "";
  email = get_or source.email "";
  profile_state = coalesce source.profile_state source.status;
}

-- SELECT id, name, phone, status of users
abbrev pub without_email : Account → AppUserSource
without_email a = record {
  id = a.id;
  name = some a.name;
  phone = a.phone;
  email = none;
  profile_state = none;
  status = some (status_name a.status);
}

-- SELECT id, name, phone, email, status of users
abbrev pub with_email : Account → AppUserSource
with_email a = record (without_email a) { email = some a.email }
