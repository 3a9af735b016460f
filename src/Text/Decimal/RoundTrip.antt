-- ===== src/Text/Decimal/RoundTrip.antt =====
-- A number that is written is read back, and what a numeral is made of.
use pylogstream.Prelude.{
  ℕ, zero, suc, ◌+◌, ◌/◌, ◌%◌, ◌≤◌, ◌<◌, ◌≡◌, ◌≢◌, refl, Bool, true, false, some, [], ◌∷◌, ◌++◌,
  append_assoc, append-nil, ◌∙◌, inl, inr, Bool-cases, arith, ltb, ok, All, All-append, All-map, ℤ,
  pos, negsuc,
}
use mathlib.Core.List.{concat-ne-nil}
use pylogstream.Text.{Text}
use pylogstream.Text.Decimal.{
  negate, drop_if_blank, finish, lstrip, read_digits, strip, read_signed, rstrip, show_fuel, show_ℕ,
  show_ℤ, is_space, is_ascii_space, is_ascii, parse_int,
}

abbrev pub IsDigit : ℕ → Type 0
IsDigit c = (b'0' ≤ c) × (c ≤ b'9')

show_fuel-IsDigit : (f n : ℕ) → All IsDigit (show_fuel f n)
unfolding show_fuel
show_fuel-IsDigit zero n = tt
show_fuel-IsDigit (suc f) n = elim (Bool-cases (ltb n 10)) [
  | inl e ↦ rw e (ground arith, tt)
  | inr e ↦ rw e (All-append IsDigit _ _ (show_fuel-IsDigit f (n / 10)) (omega arith, tt))
]

read_digits-show_fuel :
    (f n : ℕ) (b : Bool) (rest : Text)
    → n < f
    → read_digits b 0 (show_fuel f n ++ rest) ≡ read_digits true n rest
unfolding read_digits show_fuel
read_digits-show_fuel zero n b rest h = elim h [ ]
read_digits-show_fuel (suc f) n b rest h = ground (
  arith,
  read_digits-show_fuel f (n / 10) b ((b'0' + n % 10) ∷ rest),
  append_assoc (show_fuel f (n / 10)) ((b'0' + n % 10) ∷ []) rest,
)

show_fuel-ne-nil : (f n : ℕ) → n < f → show_fuel f n ≢ []
unfolding show_fuel
show_fuel-ne-nil zero n h = elim h [ ]
show_fuel-ne-nil (suc f) n h = ground (arith, concat-ne-nil (b'0' + n % 10) (show_fuel f (n / 10)))

module _ (space : ℕ → Bool) where
  rstrip-IsInk : (s : Text) → All (λ c. space c ≡ false) s → rstrip space s ≡ s
  unfolding rstrip
  rstrip-IsInk [] h = refl
  rstrip-IsInk (c ∷ []) (hc, h) = rw hc
  rstrip-IsInk (c ∷ d ∷ s) (hc, h) = rw (rstrip-IsInk (d ∷ s) h) refl

  pub strip-IsInk : (s : Text) → All (λ c. space c ≡ false) s → strip space s ≡ s
  unfolding strip
  strip-IsInk [] h = refl
  strip-IsInk (c ∷ s) h = rw (rstrip-IsInk (c ∷ s) h) (rw h.0)

-- The characters of a number.
abbrev pub IsNumeral : ℕ → Type 0
IsNumeral c = (b'-' ≤ c) × (c ≤ b'9')

numeral_ink : (c : ℕ) → IsNumeral c → is_ascii_space c ≡ false
unfolding is_ascii_space
numeral_ink c h = ground arith

is_ascii-IsNumeral : (s : Text) → All IsNumeral s → is_ascii s ≡ true
unfolding is_ascii
is_ascii-IsNumeral [] h = refl
is_ascii-IsNumeral (c ∷ s) (hc, h) = ground (arith, is_ascii-IsNumeral s h)

parse_int-IsNumeral : (s : Text) → All IsNumeral s → parse_int s ≡ read_signed s
unfolding parse_int
parse_int-IsNumeral s h =
    rw (is_ascii-IsNumeral s h)
      (rw (strip-IsInk is_ascii_space s (All-map IsNumeral _ s numeral_ink h)))

read_signed_digits :
    (s : Text) → s ≢ [] → All IsDigit s → read_signed s ≡ finish false (read_digits false 0 s)
unfolding read_signed
read_signed_digits [] h _ = absurd (h refl)
read_signed_digits (c ∷ s) _ (hc, _) = ground arith

read_digits-show_ℕ : (n : ℕ) → read_digits false 0 (show_ℕ n) ≡ some n
unfolding show_ℕ
read_digits-show_ℕ n =
    rw (← append-nil (show_fuel (suc n) n))
      (read_digits-show_fuel (suc n) n false [] (omega arith) ∙ (unfold read_digits in refl))

show_ℕ-IsDigit : (n : ℕ) → All IsDigit (show_ℕ n)
unfolding show_ℕ
show_ℕ-IsDigit n = show_fuel-IsDigit (suc n) n

show_ℕ-ne-nil : (n : ℕ) → show_ℕ n ≢ []
unfolding show_ℕ
show_ℕ-ne-nil n = show_fuel-ne-nil (suc n) n (omega arith)

digit-IsNumeral : (c : ℕ) → IsDigit c → IsNumeral c
digit-IsNumeral c h = omega arith

pub show_ℕ-IsNumeral : (n : ℕ) → All IsNumeral (show_ℕ n)
show_ℕ-IsNumeral n = All-map IsDigit _ (show_ℕ n) digit-IsNumeral (show_ℕ-IsDigit n)

pub show_ℤ-IsNumeral : (z : ℤ) → All IsNumeral (show_ℤ z)
unfolding show_ℤ
show_ℤ-IsNumeral (pos n) = show_ℕ-IsNumeral n
show_ℤ-IsNumeral (negsuc n) = (omega arith, show_ℕ-IsNumeral (suc n))

read_signed-show_ℤ : (z : ℤ) → read_signed (show_ℤ z) ≡ ok z
unfolding show_ℤ
read_signed-show_ℤ (pos n) =
    rw (read_signed_digits (show_ℕ n) (show_ℕ-ne-nil n) (show_ℕ-IsDigit n), read_digits-show_ℕ n)
      (unfold finish in refl)
read_signed-show_ℤ (negsuc n) =
    unfold read_signed finish negate in rw (read_digits-show_ℕ (suc n)) refl

-- What `str` writes, `int` reads.
pub parse_int-show_ℤ : (z : ℤ) → parse_int (show_ℤ z) ≡ ok z
parse_int-show_ℤ z = rw (parse_int-IsNumeral _ (show_ℤ-IsNumeral z)) (read_signed-show_ℤ z)

pub parse_int-show_ℕ : (n : ℕ) → parse_int (show_ℕ n) ≡ ok (pos n)
parse_int-show_ℕ n = unfold show_ℤ in parse_int-show_ℤ (pos n)

module _ (space : ℕ → Bool) where
  lstrip-drop_if_blank :
      (c : ℕ) (s : Text)
      → lstrip space (drop_if_blank space c s) ≡ []
      → (space c ≡ true) × (lstrip space s ≡ [])
  unfolding lstrip drop_if_blank
  lstrip-drop_if_blank c [] h = ground arith
  lstrip-drop_if_blank c (d ∷ s) h = ground arith

  -- Only spaces strip to nothing.
  pub strip-eq-nil : (s : Text) → strip space s ≡ [] → All (λ c. space c ≡ true) s
  unfolding strip rstrip
  strip-eq-nil [] h = tt
  strip-eq-nil (c ∷ s) h =
      let (hc, hs) = lstrip-drop_if_blank c (rstrip space s) h in (hc, strip-eq-nil s hs)

numeral_not_space : (c : ℕ) → IsNumeral c → is_space c ≡ true → ⊥
unfolding is_space
numeral_not_space c h k = ground arith

show_ℤ-ne-nil : (z : ℤ) → show_ℤ z ≢ []
unfolding show_ℤ
show_ℤ-ne-nil (pos n) h = show_ℕ-ne-nil n h
show_ℤ-ne-nil (negsuc n) h = cc

some_ink : (s : Text) → s ≢ [] → All IsNumeral s → All (λ c. is_space c ≡ true) s → ⊥
some_ink [] h _ _ = h refl
some_ink (c ∷ s) _ (hc, _) (hs, _) = numeral_not_space c hc hs

-- A number is no blank text.
pub show_ℤ_ink : (z : ℤ) → All (λ c. is_space c ≡ true) (show_ℤ z) → ⊥
show_ℤ_ink z = some_ink (show_ℤ z) (show_ℤ-ne-nil z) (show_ℤ-IsNumeral z)
