-- ===== src/Logging.antt =====
-- `sanitizeForLog` and `payloadShape` of src/common/logging/logging.utils.ts, on JSON values.

pub mod Keys
pub mod Limits
pub mod Plain
mod Tests
use Prim.Native.Char.{code}
use Prim.Native.String
use kayan_place.Prelude.{
  ℕ, zero, suc, ◌+◌, ◌-◌, String, Bool, true, false, ◌||◌, ◌==◌, List, [], ◌∷◌, ◌++◌, ltb, leb,
  length, take, same_text, if◌then◌else◌,
}

-- A value, with the items of an array and the entries of an object in their order.
mutual
  pub data Json : Type 0 where
    undefined null : Json
    boolean : Bool → Json
    number : ℕ → Json
    text : String → Json
    array : Items → Json
    object : Entries → Json

  pub data Items : Type 0 where
    no_items : Items
    item : Json → Items → Items

  pub data Entries : Type 0 where
    no_entries : Entries
    entry : String → Json → Entries → Entries

unfoldable pub count_items : Items → ℕ
count_items no_items = 0
count_items (item v is) = suc (count_items is)

unfoldable pub count_entries : Entries → ℕ
count_entries no_entries = 0
count_entries (entry k v es) = suc (count_entries es)

abbrev pub max_string_length : ℕ
max_string_length = 300

abbrev pub max_array_length : ℕ
max_array_length = 20

abbrev pub max_object_keys : ℕ
max_object_keys = 30

abbrev pub max_depth : ℕ
max_depth = 4

-- `value.length` and `value.slice(0, n)`, on characters for code units.
unfoldable pub count_text : String → ℕ
count_text String.[] = 0
count_text (String.◌∷◌ c cs) = suc (count_text cs)

unfoldable pub slice_text : ℕ → String → String
slice_text zero t = String.[]
slice_text (suc n) String.[] = String.[]
slice_text (suc n) (String.◌∷◌ c cs) = String.◌∷◌ c (slice_text n cs)

abbrev pub sensitive_keys : List String
sensitive_keys =
    "password" ∷ "token" ∷ "authorization" ∷ "secret" ∷ "otp" ∷ "ssn" ∷ "refreshtoken"
    ∷ "accesstoken" ∷ []

abbrev pub has_text : String → List String → Bool
has_text t [] = false
has_text t (u ∷ us) = same_text u t || has_text t us

-- `replace(/[_-]/g, '')`
unfoldable pub strip_separators : String → String
strip_separators String.[] = String.[]
strip_separators (String.◌∷◌ c cs) =
    let rest = strip_separators cs in
    if code c == 95 || code c == 45 then rest else String.◌∷◌ c rest

unfoldable pub push_item : Items → Json → Items
push_item no_items v = item v no_items
push_item (item w is) v = item w (push_item is v)

-- `decimal` writes a number, and `to_lower` is `toLowerCase`.
module _ (decimal : ℕ → String) (to_lower : String → String) where
  -- `[truncated:${n}]`
  abbrev pub truncated : ℕ → String
  truncated n = String.◌++◌ "[truncated:" (String.◌++◌ (decimal n) "]")

  unfoldable pub shorten : String → String
  unfolding count_text slice_text
  shorten t =
      if ltb max_string_length (count_text t)
      then String.◌++◌ (slice_text max_string_length t)
          (String.◌++◌ "..." (truncated (count_text t - max_string_length)))
      else t

  unfoldable pub is_sensitive : String → Bool
  unfolding strip_separators
  is_sensitive key = has_text (strip_separators (to_lower key)) sensitive_keys

  -- `limited.push(…)` if items were left out.
  unfoldable pub with_note : ℕ → Items → Items
  unfolding push_item
  with_note n is =
      if ltb max_array_length n then push_item is (text (truncated (n - max_array_length))) else is

  unfoldable mutual
    unfolding shorten with_note count_items is_sensitive

    pub sanitize_for_log : Json → (depth : ℕ) → Json
    sanitize_for_log undefined depth = undefined
    sanitize_for_log null depth = null
    sanitize_for_log (boolean b) depth = boolean b
    sanitize_for_log (number n) depth = number n
    sanitize_for_log (text t) depth = text (shorten t)
    sanitize_for_log (array is) depth =
        let items = sanitize_items is max_array_length (suc depth) in
        if leb max_depth depth
        then text "[depth-limited]"
        else array (with_note (count_items is) items)
    sanitize_for_log (object es) depth =
        let entries = sanitize_entries es max_object_keys (suc depth) in
        if leb max_depth depth then text "[depth-limited]" else object entries

    -- The first items, and the first entries.
    pub sanitize_items : Items → (limit depth : ℕ) → Items
    sanitize_items no_items limit depth = no_items
    sanitize_items (item v is) zero depth = no_items
    sanitize_items (item v is) (suc limit) depth =
        item (sanitize_for_log v depth) (sanitize_items is limit depth)

    pub sanitize_entries : Entries → (limit depth : ℕ) → Entries
    sanitize_entries no_entries limit depth = no_entries
    sanitize_entries (entry key v es) zero depth = no_entries
    sanitize_entries (entry key v es) (suc limit) depth =
        let value = sanitize_for_log v depth in
        entry key (if is_sensitive key then text "[REDACTED]" else value)
          (sanitize_entries es limit depth)

  -- `typeof`
  abbrev pub type_of : Json → String
  type_of undefined = "undefined"
  type_of (boolean b) = "boolean"
  type_of (number n) = "number"
  type_of (text t) = "string"
  type_of _ = "object"

  abbrev pub child_shape : Json → Json
  unfolding count_items
  child_shape (array is) = text (String.◌++◌ "array(" (String.◌++◌ (decimal (count_items is)) ")"))
  child_shape null = text "null"
  child_shape v = text (type_of v)

  unfoldable pub shape_entries : Entries → Entries
  shape_entries no_entries = no_entries
  shape_entries (entry key v es) = entry key (child_shape v) (shape_entries es)

  unfoldable pub payload_shape : Json → Json
  unfolding count_items shape_entries
  payload_shape undefined = undefined
  payload_shape null = null
  payload_shape (array is) =
      object (entry "type" (text "array") (entry "length" (number (count_items is)) no_entries))
  payload_shape (object es) = object (shape_entries es)
  payload_shape v = object (entry "type" (text (type_of v)) no_entries)
