-- ===== src/Market/Files/Names.antt =====
-- The names in the object keys of src/files/files.service.ts.
use Prim.Native.Char.{code}
use Prim.Native.String
use kayan_place.Prelude.Texts.{prepend-append}
use kayan_place.Prelude.{
  ◌≡◌, refl, String, Bool, true, false, not, ◌&&◌, ◌||◌, ◌==◌, arith, if◌then◌else◌,
}
use kayan_place.Market.Files.{
  Keys, dot, is_empty, is_safe, safe_filename, strip_extension, base_name, has_dot,
}
use kayan_place.Market.ReadUrl.{is_image, is_video}

-- Letters, digits, dots, underscores and dashes only: no slash, space or percent sign.
unfoldable pub is_safe_text : String → Bool
is_safe_text String.[] = true
is_safe_text (String.◌∷◌ c cs) = is_safe c && is_safe_text cs

safe_filename-safe : (name : String) → is_safe_text (safe_filename name) ≡ true
unfolding safe_filename is_safe_text
safe_filename-safe String.[] = refl
safe_filename-safe (String.◌∷◌ c cs) = go (is_safe c) refl (safe_filename-safe cs)
  where
    go :
        (b : Bool)
        → is_safe c ≡ b
        → is_safe_text (safe_filename cs) ≡ true
        → is_safe_text
            (if b then String.◌∷◌ c (safe_filename cs) else String.◌++◌ "_" (safe_filename cs))
          ≡ true
    go true e h = ground arith
    go false e h = rw (prepend-append "_" (safe_filename cs)) h

strip_extension-safe :
    (name : String) → is_safe_text name ≡ true → is_safe_text (strip_extension name) ≡ true
unfolding strip_extension is_safe_text
strip_extension-safe String.[] h = refl
strip_extension-safe (String.◌∷◌ c cs) h =
    go (code c == dot && (not (is_empty cs) && not (has_dot cs)))
      (strip_extension-safe cs (ground arith))
  where
    first : is_safe c ≡ true
    first = ground arith

    go :
        (b : Bool)
        → is_safe_text (strip_extension cs) ≡ true
        → is_safe_text (if b then String.[] else String.◌∷◌ c (strip_extension cs)) ≡ true
    go true h = refl
    go false h = ground (arith, first)

-- The name in an object key has only letters, digits, dots, underscores and dashes, whatever the
-- name of the upload and its type: no slash leads out of the owner's folder.
pub base_name-safe :
    (keys : Keys) (filename mime_type : String)
    → is_safe_text (base_name keys filename mime_type) ≡ true
unfolding base_name
base_name-safe keys filename mime_type = go (is_image mime_type || is_video mime_type)
  where
    go :
        (b : Bool)
        → is_safe_text
            (if b then strip_extension (safe_filename filename) else safe_filename filename)
          ≡ true
    go true = strip_extension-safe (safe_filename filename) (safe_filename-safe filename)
    go false = safe_filename-safe filename
