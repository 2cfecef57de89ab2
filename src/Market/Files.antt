-- ===== src/Market/Files.antt =====
-- `FilesService` of src/files/files.service.ts; the uploader of the storage is a parameter.
pub mod Names
use Prim.Native.Char.{Char, code}
use Prim.Native.String
use kayan_place.Prelude.{
  ℕ, suc, String, Bool, true, false, not, ◌&&◌, ◌||◌, List, [], ◌∷◌, ◌++◌, Option, none, some, ◌==◌,
  leb, get_or, if◌then◌else◌,
}
use kayan_place.Prelude.Rows.{find_row, update_rows}
use kayan_place.Database.{
  Exec, fixed, not_found, forbidden, pure, raise, raise_if, gets, modify, ◌>>=◌, ◌>>◌,
}
use kayan_place.Kayan.Dto.{AuthUser}
use kayan_place.Market.Tables.{MarketDb, FileRow, FileStatus, FilePurpose, OwnerType}
use kayan_place.Market.Views.{coalesce}
use kayan_place.Market.ReadUrl.{is_image, is_video}
use kayan_place.Market.Users.{is_other}

-- The class of `/[^a-zA-Z0-9._-]/`, complemented.
abbrev pub is_safe : Char → Bool
is_safe c =
    (leb 97 (code c) && leb (code c) 122)
    || ((leb 65 (code c) && leb (code c) 90)
        || ((leb 48 (code c) && leb (code c) 57)
            || (code c == 46 || (code c == 95 || code c == 45))))

-- `filename.replace(/[^a-zA-Z0-9._-]/g, '_')`, on characters for code units.
unfoldable pub safe_filename : String → String
safe_filename String.[] = String.[]
safe_filename (String.◌∷◌ c cs) =
    let rest = safe_filename cs in if is_safe c then String.◌∷◌ c rest else String.◌++◌ "_" rest

abbrev pub dot : ℕ
dot = 46

unfoldable pub has_dot : String → Bool
has_dot String.[] = false
has_dot (String.◌∷◌ c cs) = code c == dot || has_dot cs

abbrev pub is_empty : String → Bool
is_empty String.[] = true
is_empty (String.◌∷◌ c cs) = false

-- `replace(/\.[^.]+$/, '')`: from the last dot, if something stands behind it.
unfoldable pub strip_extension : String → String
unfolding has_dot
strip_extension String.[] = String.[]
strip_extension (String.◌∷◌ c cs) =
    let rest = strip_extension cs in
    if code c == dot && (not (is_empty cs) && not (has_dot cs))
    then String.[]
    else String.◌∷◌ c rest

abbrev pub owner_name : OwnerType → String
owner_name OwnerType.of_user = "user"
owner_name OwnerType.of_product = "product"
owner_name OwnerType.of_message = "message"

pub record CreateUploadIntentDto : Type 0 where
  pub owner_type : OwnerType
  pub owner_id : Option ℕ
  pub purpose : FilePurpose
  pub filename : String
  pub mime_type : String
  pub file_size_bytes : Option ℕ

-- What the uploader of the storage answers.
pub record UploadIntent : Type 0 where
  pub method : String
  pub url : String
  pub expires_at : String
  pub headers : Option (List (String × String))
  pub fields : Option (List (String × String))

-- `String` of a number, `Date.now()` and random bytes in hexadecimal by their draw.
pub record Keys : Type 0 where
  pub decimal : ℕ → String
  pub random_hex : ℕ → String
  pub uploader : (object_key mime_type : String) → UploadIntent

pub record CreatedFile : Type 0 where
  pub id : ℕ
  pub object_key : String
  pub status : FileStatus
  pub upload : UploadIntent

abbrev owner_part : (ℕ → String) → Option ℕ → String
owner_part decimal none = "temp"
owner_part decimal (some k) = decimal k

module _ (keys : Keys) where
  unfoldable pub base_name : (filename mime_type : String) → String
  unfolding safe_filename strip_extension is_image is_video
  base_name filename mime_type =
      if is_image mime_type || is_video mime_type
      then strip_extension (safe_filename filename)
      else safe_filename filename

  unfoldable pub build_object_key :
      (now draw : ℕ) → OwnerType → Option ℕ → (filename mime_type : String) → String
  unfolding base_name
  build_object_key now draw owner_type owner_id filename mime_type =
      String.◌++◌ (owner_name owner_type) (
        String.◌++◌ "/" (
          String.◌++◌ (owner_part keys.decimal owner_id) (
            String.◌++◌ "/" (
              String.◌++◌ (keys.decimal now) (
                String.◌++◌ "-" (
                  String.◌++◌ (keys.random_hex draw)
                    (String.◌++◌ "-" (base_name filename mime_type))))))))

  abbrev pub pending_file : AuthUser → CreateUploadIntentDto → String → MarketDb → FileRow
  pending_file user dto object_key s = record {
    id = s.next_file;
    uploader_user_id = some user.sub;
    owner_type = dto.owner_type;
    owner_id = dto.owner_id;
    purpose = dto.purpose;
    object_key = object_key;
    original_filename = dto.filename;
    mime_type = some dto.mime_type;
    file_size_bytes = dto.file_size_bytes;
    checksum_sha256 = none;
    status = FileStatus.pending;
    uploaded_at = none;
    created_at = s.clock;
    updated_at = s.clock;
  }

  unfoldable pub create_upload_intent : AuthUser → CreateUploadIntentDto → Exec MarketDb CreatedFile
  unfolding build_object_key
  create_upload_intent user dto = do
    object_key ← gets (λ s.
        build_object_key s.clock s.draws dto.owner_type dto.owner_id dto.filename dto.mime_type)
    id ← gets (λ s. s.next_file)
    modify (λ s. record s {
      auth = record s.auth { draws = suc s.draws };
      sequences = record s.sequences { next_file = suc s.next_file };
      files = s.files ++ pending_file user dto object_key s ∷ [];
    })
    pure (record {
      id = id;
      object_key = object_key;
      status = FileStatus.pending;
      upload = keys.uploader object_key dto.mime_type;
    })

-- UPDATE files SET status = 'uploaded' …
abbrev pub as_uploaded : (now : ℕ) → Option String → FileRow → FileRow
as_uploaded now checksum f = record f {
  status = FileStatus.uploaded;
  uploaded_at = some now;
  checksum_sha256 = coalesce checksum f.checksum_sha256;
  updated_at = now;
}

abbrev pub mark_file : AuthUser → ℕ → Option String → Option FileRow → Exec MarketDb String
mark_file user file_id checksum none = raise (not_found (fixed "File not found"))
mark_file user file_id checksum (some f) = do
  raise_if (is_other user f.uploader_user_id) (forbidden (fixed "Not allowed"))
  modify (λ s. record s {
    files = update_rows (λ g. g.id == file_id) (as_uploaded s.clock checksum) s.files;
  })
  pure f.object_key

-- The answer is the object key, beside the id and the new status.
unfoldable pub mark_uploaded : AuthUser → ℕ → Option String → Exec MarketDb String
mark_uploaded user file_id checksum = do
  found ← gets (λ s. find_row (λ f. f.id == file_id) s.files)
  mark_file user file_id checksum found

abbrev pub show_file :
    (url : String → String → String) → AuthUser → Option FileRow → Exec MarketDb (FileRow × String)
show_file url user none = raise (not_found (fixed "File not found"))
show_file url user (some f) = do
  raise_if (not user.is_admin && is_other user f.uploader_user_id) (forbidden (fixed "Not allowed"))
  pure (f, url f.object_key (get_or f.mime_type ""))

unfoldable pub get_file :
    (url : String → String → String) → AuthUser → ℕ → Exec MarketDb (FileRow × String)
get_file url user file_id = do
  found ← gets (λ s. find_row (λ f. f.id == file_id) s.files)
  show_file url user found
