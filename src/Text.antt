-- ===== src/Text.antt =====
-- Python's `str` and `bytes` as far as the program uses them. A text is a list of code points and a
-- byte string a list of bytes.
pub mod Utf8
pub mod Split
pub mod Decimal
pub mod Crc
pub mod Words
use Prim.Native.Char.{code}
use Prim.Native.String.{String}
use pylogstream.Prelude.{ℕ, List, [], ◌∷◌}

abbrev pub Text : Type 0
Text = List ℕ

abbrev pub Bytes : Type 0
Bytes = List ℕ

-- The code points of a literal.
abbrev pub codes : String → Text
codes String.[] = []
codes (String.◌∷◌ c s) = code c ∷ codes s
