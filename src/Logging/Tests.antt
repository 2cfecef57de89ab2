-- ===== src/Logging/Tests.antt =====
-- A run of the sanitiser.
use kayan_place.Prelude.{ℕ, ◌≡◌, ◌≤◌, arith, String, true}
use kayan_place.Logging.{
  Json, number, text, array, object, no_items, item, no_entries, entry, sanitize_for_log,
  count_text,
}
use kayan_place.Logging.Limits.{max_decimal_length, fits, fits-sanitize_for_log}

abbrev digits : ℕ → String
digits n = "1"

abbrev same : String → String
same key = key

abbrev body : Json
body = object (
    entry "pass_word" (text "p")
      (entry "items" (array (item (number 1) (item (object no_entries) no_items))) no_entries))

narrow : (n : ℕ) → count_text (digits n) ≤ max_decimal_length
unfolding count_text
narrow n = omega arith

fits-sanitize_for_log_example : fits same (sanitize_for_log digits same body 0) 0 ≡ true
fits-sanitize_for_log_example = fits-sanitize_for_log digits same narrow body

abbrev harmless : Json
harmless =
    object (entry "name" (text "n") (entry "ids" (array (item (number 1) no_items)) no_entries))
