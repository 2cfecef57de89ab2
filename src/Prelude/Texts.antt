-- ===== src/Prelude/Texts.antt =====
-- A text of one character before another text.
use Prim.Native.Char.{Char}
use Prim.Native.String
use Prim.Native.String.append
use Prim.Native.String.{String}
use mathlib.Core.Path.{◌≡◌, ap, ◌∙◌}

pub prepend-append :
    (c : Char) (t : String) → String.◌++◌ (String.◌∷◌ c String.[]) t ≡ String.◌∷◌ c t
prepend-append c t = append.cons c String.[] t ∙ ap (λ u. String.◌∷◌ c u) (append.nil t)
