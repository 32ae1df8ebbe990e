-- ===== src/Base/Text.antt =====
-- Texts: their code points, and the tests that the modelled code makes on them.
use Prim.Native.Char.{code}
use Prim.Native.Nat.{ℕ, ◌+◌}
use Prim.Native.String.{String}
use text.Mathlib.Text
use text.Mathlib.TextEquality.{eq_iff}
use mathlib.Core.Path.{◌≡◌}
use mathlib.Core.Bool.{Bool, true, false, ◌&&◌, ◌||◌}
use mathlib.Core.List.{List, [], ◌∷◌}
use valuemaxx.Base.Tests.{ltb, leb, ◌==◌, if◌then◌else◌}

abbrev pub codes : String → List ℕ
codes String.[] = []
codes (String.◌∷◌ c s) = code c ∷ codes s

abbrev pub same_text : String → String → Bool
same_text s t = Text.◌==◌ s t

pub same_text-eq : (s t : String) → same_text s t ≡ true → s ≡ t
same_text-eq s t h = (eq_iff s t).0 h

pub same_text-intro : (s t : String) → s ≡ t → same_text s t ≡ true
same_text-intro s t h = (eq_iff s t).1 h

-- `s in texts`
unfoldable pub one_of : String → List String → Bool
one_of s [] = false
one_of s (t ∷ texts) = same_text s t || one_of s texts

-- `str.lower` on the ASCII letters
unfoldable pub lower_code : ℕ → ℕ
lower_code c = if leb b'A' c && leb c b'Z' then c + 32 else c

unfoldable pub lower_codes : List ℕ → List ℕ
lower_codes [] = []
lower_codes (c ∷ s) = lower_code c ∷ lower_codes s

unfoldable pub begins_with : List ℕ → List ℕ → Bool
begins_with [] s = true
begins_with (p ∷ ps) [] = false
begins_with (p ∷ ps) (c ∷ s) = (p == c) && begins_with ps s

-- `marker in text`
unfoldable pub occurs_in : List ℕ → List ℕ → Bool
occurs_in marker [] = begins_with marker []
occurs_in marker (c ∷ s) = begins_with marker (c ∷ s) || occurs_in marker s

-- `s < t`, by code points
unfoldable pub before_codes : List ℕ → List ℕ → Bool
before_codes s [] = false
before_codes [] (d ∷ t) = true
before_codes (c ∷ s) (d ∷ t) = ltb c d || ((c == d) && before_codes s t)
