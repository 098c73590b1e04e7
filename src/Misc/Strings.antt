-- ===== src/Misc/Strings.antt =====
-- Strings as the codes of their characters.
use Prim.Native.Char.{code}
use Prim.Native.String.{String}
use flex_cmake_old.Prelude.{ℕ, ◌==◌, Bool, true, false, ◌&&◌, List, [], ◌∷◌}

abbrev pub Codes : Type 0
Codes = List ℕ

-- The codes of a literal.
abbrev pub codes : String → Codes
codes String.[] = []
codes (String.◌∷◌ c s) = code c ∷ codes s

-- `s.find(prefix) == 0`
abbrev pub starts_with : (prefix s : Codes) → Bool
starts_with [] s = true
starts_with (c ∷ prefix) [] = false
starts_with (c ∷ prefix) (d ∷ s) = (c == d) && starts_with prefix s

-- `s.back()`, or `d` for an empty string.
abbrev pub back : (d : ℕ) → Codes → ℕ
back d [] = d
back d (c ∷ s) = back c s

-- `s[1]`, which is NUL where the string ends before.
abbrev pub second : Codes → ℕ
second [] = 0
second (c ∷ []) = 0
second (c ∷ d ∷ s) = d
