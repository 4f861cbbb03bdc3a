-- ===== src/Prelude/Texts.antt =====
-- The tests of package `strings` that the program uses, over native texts. Go's strings are
-- bytes; on well-formed UTF-8 a byte prefix that is a text is a prefix by characters.
use Prim.Native.Char.{code}
use Prim.Native.String.{String}
use mathlib.Core.Path.{◌≡◌, refl}
use mathlib.Core.Bool.{Bool, true, false, ◌&&◌}
use native.Mathlib.Omega.{arith}
use gohome.Prelude.Tests.{eqb, if◌then◌else◌}

-- `strings.HasPrefix(s, prefix)`
abbrev pub has_prefix : String → String → Bool
has_prefix s String.[] = true
has_prefix String.[] (String.◌∷◌ c p) = false
has_prefix (String.◌∷◌ d s) (String.◌∷◌ c p) = eqb (code d) (code c) && has_prefix s p

-- `strings.HasSuffix(s, "*")`
abbrev pub has_star : String → Bool
has_star String.[] = false
has_star (String.◌∷◌ c String.[]) = eqb (code c) b'*'
has_star (String.◌∷◌ c (String.◌∷◌ d s)) = has_star (String.◌∷◌ d s)

-- `strings.TrimSuffix(s, "*")`
abbrev pub trim_star : String → String
trim_star String.[] = String.[]
trim_star (String.◌∷◌ c String.[]) = if eqb (code c) b'*' then String.[] else String.◌∷◌ c String.[]
trim_star (String.◌∷◌ c (String.◌∷◌ d s)) = String.◌∷◌ c (trim_star (String.◌∷◌ d s))

pub has_prefix_trans :
    (s p q : String) → has_prefix s p ≡ true → has_prefix p q ≡ true → has_prefix s q ≡ true
has_prefix_trans s p String.[] h k = refl
has_prefix_trans String.[] String.[] (String.◌∷◌ c q) h k = cc
has_prefix_trans String.[] (String.◌∷◌ b p) (String.◌∷◌ c q) h k = cc
has_prefix_trans (String.◌∷◌ a s) String.[] (String.◌∷◌ c q) h k = cc
has_prefix_trans (String.◌∷◌ a s) (String.◌∷◌ b p) (String.◌∷◌ c q) h k =
    ground (arith, has_prefix_trans s p q)
