-- ===== src/Base/Text.antt =====
-- Python's tests on text, over code points: `in`, `lower` (of the ASCII letters), `len`.
use Prim.Native.Nat.{ℕ, ◌+◌}
use Prim.Native.Char.{code}
use Prim.Native.String.{String}
use mathlib.Core.Bool.{Bool, true, false, ◌&&◌, ◌||◌}
use mathlib.Core.List.{List, [], ◌∷◌, map}
use agents_should_survive_fa.Base.Tests.{leb, ◌==◌, if◌then◌else◌, length}

abbrev pub codes : String → List ℕ
codes String.[] = []
codes (String.◌∷◌ c s) = code c ∷ codes s

-- `len(s)`
abbrev pub text_length : String → ℕ
text_length s = length (codes s)

abbrev pub to_lower : ℕ → ℕ
to_lower c = if leb b'A' c && leb c b'Z' then c + 32 else c

abbrev pub starts : List ℕ → List ℕ → Bool
starts [] s = true
starts (c ∷ prefix) [] = false
starts (c ∷ prefix) (d ∷ s) = c == d && starts prefix s

-- `part in s`
abbrev pub contains : List ℕ → List ℕ → Bool
contains part [] = starts part []
contains part (c ∷ s) = starts part (c ∷ s) || contains part s

-- `part in s.lower()`
unfoldable pub in_lower : String → String → Bool
in_lower part s = contains (codes part) (map to_lower (codes s))
