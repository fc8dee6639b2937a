-- ===== src/Prelude/Strings.antt =====
-- A Python `str` as the list of its code points, a surrogate included; `bytes` as a list of numbers.
use Prim.Native.Nat.{ℕ}
use Prim.Native.Char.{code}
use Prim.Native.String.{String}
use mathlib.Core.List.{List, [], ◌∷◌}

abbrev pub Text : Type 0
Text = List ℕ

abbrev pub Bytes : Type 0
Bytes = List ℕ

-- A literal.
abbrev pub text : String → Text
text String.[] = []
text (String.◌∷◌ c s) = code c ∷ text s

abbrev pub nul : ℕ
nul = 0

abbrev pub slash : ℕ
slash = b'/'

abbrev pub backslash : ℕ
backslash = 92
