-- ===== src/Logging/Plain.antt =====
-- The values that `sanitizeForLog` of src/common/logging/logging.utils.ts leaves as they are.
use kayan_place.Prelude.{
  ℕ, zero, suc, ◌≡◌, ◌≤◌, refl, String, Bool, true, not, ◌&&◌, ltb, leb, arith, ap,
}
use kayan_place.Logging.Keys.{is_secret, is_sensitive-is_secret}
use kayan_place.Logging.{
  Json, undefined, null, boolean, number, text, array, object, Items, no_items, item, Entries,
  no_entries, entry, count_items, count_entries, count_text, with_note, shorten, sanitize_for_log,
  sanitize_items, sanitize_entries, max_depth, max_array_length, max_object_keys, max_string_length,
}

module _ (to_lower : String → String) where
  -- Within the limits, and without secret keys.
  unfoldable mutual
    unfolding count_items count_entries count_text is_secret

    pub is_plain : Json → (depth : ℕ) → Bool
    is_plain undefined depth = true
    is_plain null depth = true
    is_plain (boolean b) depth = true
    is_plain (number n) depth = true
    is_plain (text t) depth = leb (count_text t) max_string_length
    is_plain (array is) depth =
        ltb depth max_depth && (leb (count_items is) max_array_length && plain_items is (suc depth))
    is_plain (object es) depth =
        ltb depth max_depth
        && (leb (count_entries es) max_object_keys && plain_entries es (suc depth))

    pub plain_items : Items → (depth : ℕ) → Bool
    plain_items no_items depth = true
    plain_items (item v is) depth = is_plain v depth && plain_items is depth

    pub plain_entries : Entries → (depth : ℕ) → Bool
    plain_entries no_entries depth = true
    plain_entries (entry key v es) depth =
        not (is_secret (to_lower key)) && (is_plain v depth && plain_entries es depth)

module _ (decimal : ℕ → String) (to_lower : String → String) where
  shorten-plain : (t : String) → count_text t ≤ max_string_length → shorten decimal to_lower t ≡ t
  unfolding shorten
  shorten-plain t le = ground arith

  with_note-plain :
      (n : ℕ) (is : Items) → n ≤ max_array_length → with_note decimal to_lower n is ≡ is
  unfolding with_note
  with_note-plain n is le = ground arith

  mutual
    unfolding sanitize_for_log is_plain count_items count_entries

    sanitize_for_log-plain :
        (v : Json) (depth : ℕ)
        → is_plain to_lower v depth ≡ true
        → sanitize_for_log decimal to_lower v depth ≡ v
    sanitize_for_log-plain undefined depth h = refl
    sanitize_for_log-plain null depth h = refl
    sanitize_for_log-plain (boolean b) depth h = refl
    sanitize_for_log-plain (number n) depth h = refl
    sanitize_for_log-plain (text t) depth h = ap text (shorten-plain t (ground arith))
    sanitize_for_log-plain (array is) depth h =
        let few : count_items is ≤ max_array_length = ground arith in
        let same = sanitize_items-plain is max_array_length (suc depth) few (ground arith) in
        ground (arith, same, with_note-plain (count_items is) is few)
    sanitize_for_log-plain (object es) depth h =
        let few : count_entries es ≤ max_object_keys = ground arith in
        let same = sanitize_entries-plain es max_object_keys (suc depth) few (ground arith) in
        ground (arith, same)

    sanitize_items-plain :
        (is : Items) (limit depth : ℕ)
        → count_items is ≤ limit
        → plain_items to_lower is depth ≡ true
        → sanitize_items decimal to_lower is limit depth ≡ is
    sanitize_items-plain no_items limit depth le h = refl
    sanitize_items-plain (item v is) zero depth le h = absurd (omega (arith, le))
    sanitize_items-plain (item v is) (suc limit) depth le h =
        let first = sanitize_for_log-plain v depth (ground arith) in
        let rest = sanitize_items-plain is limit depth (omega (arith, le)) (ground arith) in
        cc (first, rest)

    sanitize_entries-plain :
        (es : Entries) (limit depth : ℕ)
        → count_entries es ≤ limit
        → plain_entries to_lower es depth ≡ true
        → sanitize_entries decimal to_lower es limit depth ≡ es
    sanitize_entries-plain no_entries limit depth le h = refl
    sanitize_entries-plain (entry key v es) zero depth le h = absurd (omega (arith, le))
    sanitize_entries-plain (entry key v es) (suc limit) depth le h =
        let first = sanitize_for_log-plain v depth (ground arith) in
        let rest = sanitize_entries-plain es limit depth (omega (arith, le)) (ground arith) in
        ground (arith, first, rest, is_sensitive-is_secret decimal to_lower key)
