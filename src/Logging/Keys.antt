-- ===== src/Logging/Keys.antt =====
-- The keys that are redacted, read without their underscores and dashes.
use Prim.Native.Char.{Char, code}
use Prim.Native.String.compare
use kayan_place.Prelude.{
  ℕ, ◌≡◌, refl, String, Bool, true, false, ◌&&◌, ◌||◌, ◌==◌, arith, same_text, if◌then◌else◌,
}
use kayan_place.Logging.{strip_separators, is_sensitive}

-- A text spells a word, where underscores and dashes are passed over.
unfoldable pub spells : (key word : String) → Bool
spells String.[] String.[] = true
spells String.[] (String.◌∷◌ w ws) = false
spells (String.◌∷◌ c cs) String.[] = (code c == 95 || code c == 45) && spells cs String.[]
spells (String.◌∷◌ c cs) (String.◌∷◌ w ws) =
    let later = spells cs (String.◌∷◌ w ws) in
    let rest = spells cs ws in
    if code c == 95 || code c == 45 then later else code c == code w && rest

-- One of the eight words.
unfoldable pub is_secret : String → Bool
unfolding spells
is_secret key =
    spells key "password"
    || (spells key "token"
        || (spells key "authorization"
            || (spells key "secret"
                || (spells key "otp"
                    || (spells key "ssn"
                        || (spells key "refreshtoken" || spells key "accesstoken"))))))

same_text-cons :
    (w c : Char) (ws cs : String)
    → same_text (String.◌∷◌ w ws) (String.◌∷◌ c cs) ≡ (code c == code w && same_text ws cs)
same_text-cons w c ws cs = ground (arith, compare.cons-cons w c ws cs)

same-strip : (key word : String) → same_text word (strip_separators key) ≡ spells key word
unfolding strip_separators spells
same-strip String.[] String.[] = refl
same-strip String.[] (String.◌∷◌ w ws) = ground (arith, compare.cons-nil w ws)
same-strip (String.◌∷◌ c cs) String.[] =
    ground (arith, same-strip cs String.[], compare.nil-cons c (strip_separators cs))
same-strip (String.◌∷◌ c cs) (String.◌∷◌ w ws) = ground (
  arith,
  same-strip cs (String.◌∷◌ w ws),
  same-strip cs ws,
  same_text-cons w c ws (strip_separators cs),
)

pub is_sensitive-is_secret :
    (decimal : ℕ → String) (to_lower : String → String) (key : String)
    → is_sensitive decimal to_lower key ≡ is_secret (to_lower key)
unfolding is_sensitive is_secret
is_sensitive-is_secret decimal to_lower key =
    let k = to_lower key in
    ground (
      arith,
      same-strip k "password",
      same-strip k "token",
      same-strip k "authorization",
      same-strip k "secret",
      same-strip k "otp",
      same-strip k "ssn",
      same-strip k "refreshtoken",
      same-strip k "accesstoken",
    )
