-- ===== src/Kayan/Listings/Escapes.antt =====
-- `escapeLike` against what PostgreSQL's LIKE makes of a pattern with the escape `\`.
use Prim.Native.Char.{Char, code}
use Prim.Native.String
use kayan_place.Prelude.Texts.{prepend-append}
use kayan_place.Prelude.{
  ◌≡◌, refl, String, Bool, true, false, ◌||◌, Option, none, some, ◌==◌, arith, if◌then◌else◌,
}
use kayan_place.Kayan.Listings.Gallery.{is_special, escape_like}

abbrev prepend : Char → Option String → Option String
prepend c none = none
prepend c (some t) = some (String.◌∷◌ c t)

-- The only text that a pattern without wildcards matches: a backslash stands for the character
-- behind it, and a percent sign or an underscore of its own is a wildcard.
unfoldable mutual
  pub literal_of : String → Option String
  literal_of String.[] = some String.[]
  literal_of (String.◌∷◌ c cs) =
      let plain = literal_of cs in
      let quoted = literal_behind cs in
      if code c == 92
      then quoted
      else if code c == 37 || code c == 95
      then none
      else prepend c plain

  pub literal_behind : String → Option String
  literal_behind String.[] = none
  literal_behind (String.◌∷◌ c cs) = prepend c (literal_of cs)

-- What is escaped is matched as it is: the pattern has no wildcard left, and its text is the one
-- that was searched.
pub escape_like-literal : (text : String) → literal_of (escape_like text) ≡ some text
unfolding literal_of escape_like
escape_like-literal String.[] = refl
escape_like-literal (String.◌∷◌ c cs) = go (is_special c) refl (escape_like-literal cs)
  where
    go :
        (b : Bool)
        → is_special c ≡ b
        → literal_of (escape_like cs) ≡ some cs
        → literal_of (
            if b
            then String.◌++◌ "\\" (String.◌∷◌ c (escape_like cs))
            else String.◌∷◌ c (escape_like cs))
          ≡ some (String.◌∷◌ c cs)
    go true e h = rw (prepend-append "\\" (String.◌∷◌ c (escape_like cs))) (ground arith)
    go false e h = ground arith
