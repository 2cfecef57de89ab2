-- ===== src/Logging/Limits.antt =====
-- What `sanitizeForLog` of src/common/logging/logging.utils.ts lets through.
use Prim.Native.String
use Prim.Native.String.append
use kayan_place.Prelude.{
  ℕ, zero, suc, ◌+◌, ◌-◌, ◌≡◌, ◌≤◌, refl, String, Bool, true, false, not, ◌&&◌, ◌||◌, ltb, leb,
  arith, Bool-cases, inl, inr, same_text,
}
use kayan_place.Logging.Keys.{is_secret, is_sensitive-is_secret}
use kayan_place.Logging.{
  Json, undefined, null, boolean, number, text, array, object, Items, no_items, item, Entries,
  no_entries, entry, count_items, count_entries, push_item, with_note, count_text, slice_text,
  shorten, max_string_length, sanitize_for_log, sanitize_items, sanitize_entries, max_depth,
  max_array_length, max_object_keys, truncated,
}

count_text-append : (t u : String) → count_text (String.◌++◌ t u) ≡ count_text t + count_text u
unfolding count_text
count_text-append String.[] u = rw (append.nil u) (omega arith)
count_text-append (String.◌∷◌ c cs) u =
    rw (append.cons c cs u) (omega (arith, count_text-append cs u))

count-slice_text-le : (n : ℕ) (t : String) → count_text (slice_text n t) ≤ n
unfolding count_text slice_text
count-slice_text-le zero t = omega arith
count-slice_text-le (suc n) String.[] = omega arith
count-slice_text-le (suc n) (String.◌∷◌ c cs) = omega (arith, count-slice_text-le n cs)

-- `decimal` writes a number, in 24 characters at most, and `to_lower` is `toLowerCase`.
abbrev pub max_decimal_length : ℕ
max_decimal_length = 24

-- 300 characters, and the note on those that are left out
abbrev pub max_text_length : ℕ
max_text_length = 339

abbrev is_redacted : Json → Bool
is_redacted (text t) = same_text t "[REDACTED]"
is_redacted _ = false

module _ (to_lower : String → String) where
  -- Arrays have at most 21 items and objects at most 30 entries, and neither stands at depth 4 or
  -- deeper; texts have at most 339 characters; an entry under a secret key is redacted.
  unfoldable mutual
    unfolding count_items count_entries count_text is_secret

    pub fits : Json → (depth : ℕ) → Bool
    fits undefined depth = true
    fits null depth = true
    fits (boolean b) depth = true
    fits (number n) depth = true
    fits (text t) depth = leb (count_text t) max_text_length
    fits (array is) depth =
        not (leb max_depth depth)
        && (leb (count_items is) (suc max_array_length) && fits_items is (suc depth))
    fits (object es) depth =
        not (leb max_depth depth)
        && (leb (count_entries es) max_object_keys && fits_entries es (suc depth))

    pub fits_items : Items → (depth : ℕ) → Bool
    fits_items no_items depth = true
    fits_items (item v is) depth = fits v depth && fits_items is depth

    pub fits_entries : Entries → (depth : ℕ) → Bool
    fits_entries no_entries depth = true
    fits_entries (entry key v es) depth =
        (not (is_secret (to_lower key)) || is_redacted v) && (fits v depth && fits_entries es depth)

module _ (decimal : ℕ → String) (to_lower : String → String) where
  count-sanitize_items-le :
      (is : Items) (limit depth : ℕ)
      → count_items (sanitize_items decimal to_lower is limit depth) ≤ limit
  unfolding sanitize_items count_items
  count-sanitize_items-le no_items limit depth = omega arith
  count-sanitize_items-le (item v is) zero depth = omega arith
  count-sanitize_items-le (item v is) (suc limit) depth =
      omega (arith, count-sanitize_items-le is limit depth)

  count-sanitize_entries-le :
      (es : Entries) (limit depth : ℕ)
      → count_entries (sanitize_entries decimal to_lower es limit depth) ≤ limit
  unfolding sanitize_entries count_entries
  count-sanitize_entries-le no_entries limit depth = omega arith
  count-sanitize_entries-le (entry k v es) zero depth = omega arith
  count-sanitize_entries-le (entry k v es) (suc limit) depth =
      omega (arith, count-sanitize_entries-le es limit depth)

  count-push_item : (is : Items) (v : Json) → count_items (push_item is v) ≡ suc (count_items is)
  unfolding push_item count_items
  count-push_item no_items v = refl
  count-push_item (item w is) v = omega (arith, count-push_item is v)

dots : (t : String) → count_text (String.◌++◌ "..." t) ≡ 3 + count_text t
unfolding count_text
dots t = omega (arith, count_text-append "..." t)

module _ (decimal : ℕ → String) (to_lower : String → String)
    (narrow : (n : ℕ) → count_text (decimal n) ≤ max_decimal_length) where
  truncated-le : (n : ℕ) → count_text (truncated decimal to_lower n) ≤ 36
  unfolding count_text
  truncated-le n = omega (
    arith,
    count_text-append "[truncated:" (String.◌++◌ (decimal n) "]"),
    count_text-append (decimal n) "]",
    narrow n,
  )

  shorten-le : (t : String) → count_text (shorten decimal to_lower t) ≤ max_text_length
  unfolding shorten
  shorten-le t =
      let start = slice_text max_string_length t in
      let note = truncated decimal to_lower (count_text t - max_string_length) in
      elim (Bool-cases (ltb max_string_length (count_text t))) [
        | inl e ↦ rw e (
            omega (
              arith,
              count_text-append start (String.◌++◌ "..." note),
              dots note,
              truncated-le (count_text t - max_string_length),
              count-slice_text-le max_string_length t,
            ))
        | inr e ↦ rw e (ground arith)
      ]

  push_item-fits :
      (is : Items) (t : String) (depth : ℕ)
      → count_text t ≤ max_text_length
      → fits_items to_lower is depth ≡ true
      → fits_items to_lower (push_item is (text t)) depth ≡ true
  unfolding push_item fits
  push_item-fits no_items t depth le h = ground arith
  push_item-fits (item w is) t depth le h = ground (arith, push_item-fits is t depth le)

  with_note-fits :
      (n : ℕ) (is : Items) (depth : ℕ)
      → count_items is ≤ max_array_length
      → fits_items to_lower is depth ≡ true
      → (leb (count_items (with_note decimal to_lower n is)) (suc max_array_length)
          && fits_items to_lower (with_note decimal to_lower n is) depth)
        ≡ true
  unfolding with_note
  with_note-fits n is depth le h =
      let note = truncated decimal to_lower (n - max_array_length) in
      let short = truncated-le (n - max_array_length) in
      elim (Bool-cases (ltb max_array_length n)) [
        | inl e ↦ rw e (
            ground (
              arith,
              count-push_item decimal to_lower is (text note),
              push_item-fits is note depth (omega (arith, short)) h,
            ))
        | inr e ↦ rw e (ground arith)
      ]

  mutual
    unfolding sanitize_for_log fits

    sanitize_for_log-fits :
        (v : Json) (depth : ℕ)
        → fits to_lower (sanitize_for_log decimal to_lower v depth) depth ≡ true
    sanitize_for_log-fits undefined depth = refl
    sanitize_for_log-fits null depth = refl
    sanitize_for_log-fits (boolean b) depth = refl
    sanitize_for_log-fits (number n) depth = refl
    sanitize_for_log-fits (text t) depth = ground (arith, shorten-le t)
    sanitize_for_log-fits (array is) depth =
        let items = sanitize_items decimal to_lower is max_array_length (suc depth) in
        let inside =
          with_note-fits (count_items is) items (suc depth)
            (count-sanitize_items-le decimal to_lower is max_array_length (suc depth))
            (sanitize_items-fits is max_array_length (suc depth)) in
        elim (Bool-cases (leb max_depth depth)) [
          | inl e ↦ rw e refl
          | inr e ↦ rw e (rw (e, inside) refl)
        ]
    sanitize_for_log-fits (object es) depth =
        let few = count-sanitize_entries-le decimal to_lower es max_object_keys (suc depth) in
        let inside = sanitize_entries-fits es max_object_keys (suc depth) in
        elim (Bool-cases (leb max_depth depth)) [
          | inl e ↦ rw e refl
          | inr e ↦ rw e (rw (e, inside) (ground (arith, few)))
        ]

    sanitize_items-fits :
        (is : Items) (limit depth : ℕ)
        → fits_items to_lower (sanitize_items decimal to_lower is limit depth) depth ≡ true
    sanitize_items-fits no_items limit depth = refl
    sanitize_items-fits (item v is) zero depth = refl
    sanitize_items-fits (item v is) (suc limit) depth =
        rw (sanitize_for_log-fits v depth) (sanitize_items-fits is limit depth)

    sanitize_entries-fits :
        (es : Entries) (limit depth : ℕ)
        → fits_entries to_lower (sanitize_entries decimal to_lower es limit depth) depth ≡ true
    sanitize_entries-fits no_entries limit depth = refl
    sanitize_entries-fits (entry key v es) zero depth = refl
    sanitize_entries-fits (entry key v es) (suc limit) depth =
        let value = sanitize_for_log-fits v depth in
        let rest = sanitize_entries-fits es limit depth in
        elim (Bool-cases (is_secret (to_lower key))) [
          | inl e ↦ rw (is_sensitive-is_secret decimal to_lower key, e, rest) refl
          | inr e ↦ rw (is_sensitive-is_secret decimal to_lower key, e, value, rest) refl
        ]

  -- From any value, what is written to the logs is bounded but for the names of its keys: texts have
  -- at most 339 characters, arrays at most 21 items and objects at most 30 entries, and neither of
  -- these is deeper than four levels, if a number is written in at most 24 characters. Every entry
  -- at any level is redacted whose key, in lower case and without underscores and dashes, is one
  -- of `password`, `token`, `authorization`, `secret`, `otp`, `ssn`, `refreshtoken` and
  -- `accesstoken`.
  pub fits-sanitize_for_log :
      (v : Json) → fits to_lower (sanitize_for_log decimal to_lower v 0) 0 ≡ true
  fits-sanitize_for_log v = sanitize_for_log-fits v 0
