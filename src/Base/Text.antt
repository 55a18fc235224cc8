-- ===== src/Base/Text.antt =====
-- Texts: equality, and Python's `str.strip`.
use Prim.Native.Nat.{ℕ}
use Prim.Native.Char.{code}
use Prim.Native.String.{String}
use text.Mathlib.Text.{◌==◌ as str_eq}
use mathlib.Core.Bool.{Bool, false, true, ◌&&◌, ◌||◌, not}
use tenora.Base.Tests.{leb, ◌==◌, if◌then◌else◌}

abbrev pub same_text : String → String → Bool
same_text a b = str_eq a b

-- `s == ""`, the falsehood of a text.
abbrev pub is_empty : String → Bool
is_empty String.[] = true
is_empty (String.◌∷◌ _ _) = false

-- The characters that `str.strip()` removes, those of Latin-1.
is_space : ℕ → Bool
is_space c = leb 9 c && leb c 13 || leb 28 c && leb c 32 || c == 133 || c == 160

strip_start : String → String
strip_start String.[] = String.[]
strip_start (String.◌∷◌ c s) =
    let rest = strip_start s in if is_space (code c) then rest else String.◌∷◌ c s

strip_end : String → String
strip_end String.[] = String.[]
strip_end (String.◌∷◌ c s) =
    let rest = strip_end s in
    if is_space (code c) && is_empty rest then String.[] else String.◌∷◌ c rest

unfoldable pub strip : String → String
unfolding strip_start strip_end is_space
strip s = strip_end (strip_start s)

-- `value and value.strip()`, as a truth value.
abbrev pub is_given : String → Bool
is_given s = not (is_empty s) && not (is_empty (strip s))
