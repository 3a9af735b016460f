-- ===== src/Text/Words.antt =====
-- `n.to_bytes(4, "big")`, `int.from_bytes(b, "big")`, and the f-strings that put one blank between
-- their fields.
use Prim.Native.Nat.{◌*◌}
use pylogstream.Prelude.{
  ℕ, zero, suc, ◌+◌, ◌/◌, ◌%◌, ◌^◌, ◌<◌, ◌≡◌, ap, ◌∙◌, List, [], ◌∷◌, arith, ltb, ltb_lem,
  if◌then◌else◌, Result, ok, err, overflow_error,
}
use pylogstream.Text.{Text, Bytes}
use pylogstream.Text.Split.{
  Lacks, join, split_max, split_max-append, split_max-Lacks, split_max-zero,
}

unfoldable pub to_bytes : ℕ → Result Bytes
to_bytes n =
    if ltb n (2 ^ 32)
    then ok ((n / 0x1000000) ∷ (n / 0x10000 % 0x100) ∷ (n / 0x100 % 0x100) ∷ (n % 0x100) ∷ [])
    else err overflow_error

from_digits : ℕ → Bytes → ℕ
from_digits n [] = n
from_digits n (b ∷ s) = from_digits (n * 0x100 + b) s

unfoldable pub from_bytes : Bytes → ℕ
unfolding from_digits
from_bytes = from_digits 0

-- The four bytes of a length, by themselves.
abbrev pub be32 : ℕ → Bytes
be32 n = (n / 0x1000000) ∷ (n / 0x10000 % 0x100) ∷ (n / 0x100 % 0x100) ∷ (n % 0x100) ∷ []

pub to_bytes-be32 : (n : ℕ) → n < 2 ^ 32 → to_bytes n ≡ ok (be32 n)
unfolding to_bytes
to_bytes-be32 n h = rw (ltb_lem n (2 ^ 32) h)

pub from_bytes-be32 : (n : ℕ) → from_bytes (be32 n) ≡ n
unfolding from_bytes
from_bytes-be32 n = omega arith

abbrev pub blank : ℕ
blank = 32

-- f"{a} {b} {c}"
abbrev pub words : List Text → Text
words = join blank

-- A limited split gives the fields back: none but the last holds the separator, and the last does
-- not either if the limit would allow a further cut.
abbrev pub Fits : ℕ → ℕ → List Text → Type 0
Fits sep n [] = ⊥
Fits sep zero (p ∷ []) = Unit
Fits sep (suc n) (p ∷ []) = Lacks sep p
Fits sep zero (p ∷ q ∷ ps) = ⊥
Fits sep (suc n) (p ∷ q ∷ ps) = Lacks sep p × Fits sep n (q ∷ ps)

pub split_max-join :
    (sep n : ℕ) (ps : List Text) → Fits sep n ps → split_max sep n (join sep ps) ≡ ps
unfolding join
split_max-join sep n [] h = absurd h
split_max-join sep zero (p ∷ []) h = split_max-zero sep p
split_max-join sep (suc n) (p ∷ []) h = split_max-Lacks sep (suc n) p h
split_max-join sep zero (p ∷ q ∷ ps) h = absurd h
split_max-join sep (suc n) (p ∷ q ∷ ps) (hp, h) =
    split_max-append sep n p (join sep (q ∷ ps)) hp
    ∙ ap (λ t. p ∷ t) (split_max-join sep n (q ∷ ps) h)
