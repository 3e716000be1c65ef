-- ===== src/Base/Text.antt =====
-- Case and search in a text, by its code points.
use Prim.Native.Nat.{ℕ, ◌+◌}
use Prim.Native.Char.{code}
use Prim.Native.String.{String}
use mathlib.Core.Bool.{Bool, true, false, ◌&&◌, ◌||◌}
use mathlib.Core.List.{List, [], ◌∷◌, map}
use eth_global_lisbon_2026_h.Base.Tests.{leb, if◌then◌else◌, ◌==◌, nat_eq}

abbrev pub codes : String → List ℕ
codes String.[] = []
codes (String.◌∷◌ c s) = code c ∷ codes s

-- `toLowerCase` on the ASCII letters, and on the Kelvin sign, the one other code point whose lower
-- case is a single ASCII letter. Every other code point is left as it is: no search for a word of
-- ASCII letters can see the difference.
unfoldable pub to_lower : ℕ → ℕ
to_lower c = if leb b'A' c && leb c b'Z' then c + 32 else if c == 8490 then b'k' else c

unfoldable pub starts_with : List ℕ → List ℕ → Bool
starts_with xs [] = true
starts_with [] (y ∷ ys) = false
starts_with (x ∷ xs) (y ∷ ys) = x == y && starts_with xs ys

-- `xs.includes(ys)` on texts
unfoldable pub contains : List ℕ → List ℕ → Bool
unfolding starts_with
contains [] ys = starts_with [] ys
contains (x ∷ xs) ys = starts_with (x ∷ xs) ys || contains xs ys

-- `name.toLowerCase().includes(word)`
unfoldable pub names_part : String → String → Bool
unfolding to_lower contains
names_part word name = contains (map to_lower (codes name)) (codes word)
