-- ===== src/Market/ReadUrl.antt =====
-- `FileReadUrlService` of src/files/file-read-url.service.ts. `lower` is `toLowerCase`.
use Prim.Native.Char.{code}
use Prim.Native.String
use text.Mathlib.Text
use kayan_place.Prelude.{
  ℕ, String, Bool, not, ◌||◌, Option, none, some, ◌==◌, same_text, if◌then◌else◌,
}

abbrev slash : ℕ
slash = 47

abbrev plus : ℕ
plus = 43

-- `text.split(c)[0]`
unfoldable pub first_part : (c : ℕ) → String → String
first_part c String.[] = String.[]
first_part c (String.◌∷◌ x xs) =
    let rest = first_part c xs in if code x == c then String.[] else String.◌∷◌ x rest

-- What stands behind the first `c`.
unfoldable pub behind : (c : ℕ) → String → Option String
behind c String.[] = none
behind c (String.◌∷◌ x xs) = let rest = behind c xs in if code x == c then some xs else rest

unfoldable pub is_image : String → Bool
is_image mime_type = Text.starts_with mime_type "image/"

unfoldable pub is_video : String → Bool
is_video mime_type = Text.starts_with mime_type "video/"

abbrev pub format_of : String → Option String
format_of subtype =
    if same_text subtype ""
    then none
    else if same_text subtype "jpeg"
    then some "jpg"
    else some subtype

module _ (lower : String → String) where
  abbrev pub subtype_format : Option String → Option String
  unfolding first_part
  subtype_format none = none
  subtype_format (some rest) = format_of (lower (first_part plus (first_part slash rest)))

  unfoldable pub resolve_format : String → Option String
  unfolding first_part behind is_image is_video
  resolve_format mime_type =
      if not (is_image mime_type || is_video mime_type)
      then none
      else subtype_format (behind slash mime_type)

  abbrev pub with_format : String → Option String → String
  with_format object_key none = object_key
  with_format object_key (some format) = String.◌++◌ object_key (String.◌++◌ "." format)

  abbrev pub resource_type : String → String
  unfolding is_image is_video
  resource_type mime_type =
      if is_image mime_type then "image" else if is_video mime_type then "video" else "raw"

  unfoldable pub build_read_url : (cloud_name object_key mime_type : String) → String
  unfolding resolve_format is_image is_video
  build_read_url cloud_name object_key mime_type = String.◌++◌ "https://res.cloudinary.com/" (
      String.◌++◌ cloud_name (
        String.◌++◌ "/" (
          String.◌++◌ (resource_type mime_type)
            (String.◌++◌ "/upload/" (with_format object_key (resolve_format mime_type))))))
