-- ===== src/Text/Decimal.antt =====
-- `str(n)` and `int(s)`. Digits other than `0` to `9` are not read.
pub mod RoundTrip
use pylogstream.Prelude.{
  ℕ, zero, suc, ◌+◌, ◌-◌, ◌*◌, ◌/◌, ◌%◌, ◌≤◌, ◌<◌, ◌≡◌, ◌≢◌, refl, Bool, true, false, ◌&&◌, ◌||◌,
  Option, none, some, [], ◌∷◌, ◌++◌, append_assoc, append-nil, ◌∙◌, inl, inr, Bool-cases, arith,
  ltb, leb, ◌==◌, if◌then◌else◌, Result, ok, err, value_error, All, All-append, All-map, ℤ, pos,
  negsuc,
}
use mathlib.Core.List.{map, concat-ne-nil}
use pylogstream.Text.{Text, codes}

show_fuel : ℕ → ℕ → Text
show_fuel zero n = []
show_fuel (suc f) n =
    let front = show_fuel f (n / 10) in
    if ltb n 10 then (b'0' + n) ∷ [] else front ++ (b'0' + n % 10) ∷ []

-- A number below `n + 1` has at most `n + 1` digits.
unfoldable pub show_ℕ : ℕ → Text
unfolding show_fuel
show_ℕ n = show_fuel (suc n) n

unfoldable pub show_ℤ : ℤ → Text
unfolding show_ℕ
show_ℤ (pos n) = show_ℕ n
show_ℤ (negsuc n) = b'-' ∷ show_ℕ (suc n)

-- `str.isspace` of one character, which is `\s` of a regular expression too.
unfoldable pub is_space : ℕ → Bool
is_space c =
    (leb 0x09 c && leb c 0x0d)
    || (leb 0x1c c && leb c 0x20)
    || c == 0x85
    || c == 0xa0
    || c == 0x1680
    || (leb 0x2000 c && leb c 0x200a)
    || c == 0x2028
    || c == 0x2029
    || c == 0x202f
    || c == 0x205f
    || c == 0x3000

-- The spaces of `int` in an ASCII text and in bytes.
unfoldable pub is_ascii_space : ℕ → Bool
is_ascii_space c = (leb 0x09 c && leb c 0x0d) || c == 0x20

module _ (space : ℕ → Bool) where
  unfoldable pub lstrip : Text → Text
  lstrip [] = []
  lstrip (c ∷ s) = let rest = lstrip s in if space c then rest else c ∷ s

  unfoldable pub drop_if_blank : ℕ → Text → Text
  drop_if_blank c [] = if space c then [] else c ∷ []
  drop_if_blank c (d ∷ s) = c ∷ d ∷ s

  unfoldable pub rstrip : Text → Text
  unfolding drop_if_blank
  rstrip [] = []
  rstrip (c ∷ s) = drop_if_blank c (rstrip s)

  unfoldable pub strip : Text → Text
  unfolding lstrip rstrip
  strip s = lstrip (rstrip s)

-- The digits, with single underscores between them; the flag says that a digit was just read.
read_digits : Bool → ℕ → Text → Option ℕ
read_digits seen n [] = if seen then some n else none
read_digits seen n (c ∷ s) =
    let more = read_digits true (n * 10 + (c - b'0')) s in
    let skip = read_digits false n s in
    if leb b'0' c && leb c b'9' then more else if (c == b'_') && seen then skip else none

-- `-0` is 0.
negate : ℕ → ℤ
negate zero = pos 0
negate (suc n) = negsuc n

finish : Bool → Option ℕ → Result ℤ
unfolding negate
finish minus none = err value_error
finish false (some n) = ok (pos n)
finish true (some n) = ok (negate n)

read_signed : Text → Result ℤ
unfolding read_digits finish
read_signed [] = err value_error
read_signed (c ∷ s) =
    if c == b'-'
    then finish true (read_digits false 0 s)
    else if c == b'+'
    then finish false (read_digits false 0 s)
    else finish false (read_digits false 0 (c ∷ s))

-- `int` of bytes, and of an ASCII text.
unfoldable pub parse_int_ascii : Text → Result ℤ
unfolding strip read_signed is_ascii_space
parse_int_ascii s = read_signed (strip is_ascii_space s)

unfoldable pub is_ascii : Text → Bool
is_ascii [] = true
is_ascii (c ∷ s) = ltb c 0x80 && is_ascii s

-- In a text that is not ASCII, `int` takes every space for a blank.
blank_for : ℕ → ℕ
blank_for c = if is_space c then 0x20 else c

unfoldable pub parse_int : Text → Result ℤ
unfolding parse_int_ascii is_ascii blank_for is_space
parse_int s = parse_int_ascii (if is_ascii s then s else map blank_for s)

parse_int_samples :
    (parse_int (codes " +1_000\n") ≡ ok (pos 1000))
    × (parse_int (codes "-0") ≡ ok (pos 0))
    × (parse_int (codes "-12") ≡ ok (negsuc 11))
    × (parse_int (codes "1__0") ≡ err value_error)
    × (parse_int [] ≡ err value_error)
    × (parse_int (0xa0 ∷ codes "7") ≡ ok (pos 7))
unfolding parse_int
parse_int_samples = (refl, refl, refl, refl, refl, refl)
