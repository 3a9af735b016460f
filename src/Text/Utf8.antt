-- ===== src/Text/Utf8.antt =====
-- `str.encode()` and `bytes.decode()`: strict UTF-8.
pub mod Parts
use pylogstream.Prelude.{
  subst, ◌≢◌, take-append, take, ℕ, zero, suc, ◌+◌, ◌-◌, ◌*◌, ◌/◌, ◌%◌, ◌≤◌, ◌<◌, ◌≡◌, refl, ◌⊎◌,
  ap, ◌&&◌, Option, none, some, [], ◌∷◌, ◌++◌, append_assoc, arith, ltb, leb, if◌then◌else◌, Result,
  ok, err, ◌>>=◌, sym, ◌∙◌, unicode_decode_error, unicode_encode_error, All, length, length-append,
}
use native.Mathlib.Decide.{dec_lt}
use pylogstream.Text.{Text, Bytes}

-- The UTF-8 bytes of a code point; `none` for a surrogate and for what is no code point.
unfoldable pub encode_char : ℕ → Option Bytes
encode_char c =
    if ltb c 0x80
    then some (c ∷ [])
    else if ltb c 0x800
    then some ((0xc0 + c / 0x40) ∷ (0x80 + c % 0x40) ∷ [])
    else if leb 0xd800 c && ltb c 0xe000
    then none
    else if ltb c 0x10000
    then some ((0xe0 + c / 0x1000) ∷ (0x80 + c / 0x40 % 0x40) ∷ (0x80 + c % 0x40) ∷ [])
    else if ltb c 0x110000
    then some (
        (0xf0 + c / 0x40000)
        ∷ (0x80 + c / 0x1000 % 0x40)
        ∷ (0x80 + c / 0x40 % 0x40)
        ∷ (0x80 + c % 0x40)
        ∷ [])
    else none

prepend : Option Bytes → Result Bytes → Result Bytes
prepend none rest = err unicode_encode_error
prepend (some b) rest = rest >>= λ r. ok (b ++ r)

unfoldable pub encode : Text → Result Bytes
unfolding encode_char prepend
encode [] = ok []
encode (c ∷ s) = prepend (encode_char c) (encode s)

-- What the decoder is in the middle of: how many bytes of a character are to come, the bits of it
-- that were read, and the range in which the next byte has to be.
pub record Pending : Type 0 where
  pub need : ℕ
  pub bits : ℕ
  pub low : ℕ
  pub high : ℕ

abbrev pub start : Pending
start = record { need = 0; bits = 0; low = 0; high = 0 }

abbrev wait : ℕ → ℕ → ℕ → ℕ → Option (Pending × Option ℕ)
wait n b l h = some (record { need = n; bits = b; low = l; high = h }, none)

-- The first byte of a character.
lead : ℕ → Option (Pending × Option ℕ)
lead b =
    if ltb b 0x80
    then some (start, some b)
    else if ltb b 0xc2
    then none
    else if ltb b 0xe0
    then wait 1 (b - 0xc0) 0x80 0xbf
    else if ltb b 0xe1
    then wait 2 0 0xa0 0xbf
    else if ltb b 0xed
    then wait 2 (b - 0xe0) 0x80 0xbf
    else if ltb b 0xee
    then wait 2 (b - 0xe0) 0x80 0x9f
    else if ltb b 0xf0
    then wait 2 (b - 0xe0) 0x80 0xbf
    else if ltb b 0xf1
    then wait 3 0 0x90 0xbf
    else if ltb b 0xf4
    then wait 3 (b - 0xf0) 0x80 0xbf
    else if ltb b 0xf5
    then wait 3 (b - 0xf0) 0x80 0x8f
    else none

-- A later byte; `n` bytes follow it.
tail_byte : ℕ → Pending → ℕ → Option (Pending × Option ℕ)
tail_byte n p b =
    let c = p.bits * 0x40 + (b - 0x80) in
    if leb p.low b && leb b p.high
    then elim n [ zero ↦ some (start, some c) | suc m ↦ wait (suc m) c 0x80 0xbf ]
    else none

advance_at : ℕ → Pending → ℕ → Option (Pending × Option ℕ)
advance_at zero p b = lead b
advance_at (suc n) p b = tail_byte n p b

abbrev push : Option ℕ → Result Text → Result Text
push none r = r
push (some c) r = r >>= λ s. ok (c ∷ s)

decode_from : Pending → Bytes → Result Text
unfolding advance_at lead tail_byte
decode_from p [] = elim p.need [ zero ↦ ok [] | suc _ ↦ err unicode_decode_error ]
decode_from p (b ∷ s) = elim (advance_at p.need p b) [
  | none ↦ err unicode_decode_error
  | some (q, out) ↦ push out (decode_from q s)
]

unfoldable pub decode : Bytes → Result Text
unfolding decode_from
decode = decode_from start

encode_char_1 : (c : ℕ) → c < 0x80 → encode_char c ≡ some (c ∷ [])
unfolding encode_char
encode_char_1 c h = ground arith

decode_1 :
    (c : ℕ) (rest : Bytes)
    → c < 0x80
    → decode_from start (c ∷ rest) ≡ (decode_from start rest >>= λ s. ok (c ∷ s))
unfolding decode_from
decode_1 c rest h = ground arith

decode_2 :
    (c : ℕ) (rest : Bytes)
    → 0x80 ≤ c
    → c < 0x800
    → decode_from start ((0xc0 + c / 0x40) ∷ (0x80 + c % 0x40) ∷ rest)
      ≡ (decode_from start rest >>= λ s. ok (c ∷ s))
unfolding decode_from
decode_2 c rest h k = ground arith

decode_3 :
    (c : ℕ) (rest : Bytes)
    → 0x800 ≤ c
    → c < 0x10000
    → (c < 0xd800) ⊎ (0xe000 ≤ c)
    → decode_from start ((0xe0 + c / 0x1000) ∷ (0x80 + c / 0x40 % 0x40) ∷ (0x80 + c % 0x40) ∷ rest)
      ≡ (decode_from start rest >>= λ s. ok (c ∷ s))
unfolding decode_from
decode_3 c rest h k j = ground arith

decode_4 :
    (c : ℕ) (rest : Bytes)
    → 0x10000 ≤ c
    → c < 0x110000
    → decode_from start (
        (0xf0 + c / 0x40000)
        ∷ (0x80 + c / 0x1000 % 0x40)
        ∷ (0x80 + c / 0x40 % 0x40)
        ∷ (0x80 + c % 0x40)
        ∷ rest)
      ≡ (decode_from start rest >>= λ s. ok (c ∷ s))
unfolding decode_from
decode_4 c rest h k = ground arith

-- The bytes that a character has are the ones that are read back.
same_bytes :
    (c : ℕ) (d b rest : Bytes)
    → some d ≡ some b
    → decode_from start (d ++ rest) ≡ (decode_from start rest >>= λ s. ok (c ∷ s))
    → decode_from start (b ++ rest) ≡ (decode_from start rest >>= λ s. ok (c ∷ s))
same_bytes c d b rest h k =
    let e : d ≡ b = cc in
    subst (λ x. decode_from start (x ++ rest) ≡ (decode_from start rest >>= λ s. ok (c ∷ s))) e k

wide :
    (c : ℕ) (b rest : Bytes)
    → encode_char c ≡ some b
    → 0x800 ≤ c
    → decode_from start (b ++ rest) ≡ (decode_from start rest >>= λ s. ok (c ∷ s))
unfolding encode_char
wide c b rest h k = ground (arith, decode_3 c rest, decode_4 c rest)

-- One character, read back.
decode_from-encode_char :
    (c : ℕ) (b rest : Bytes)
    → encode_char c ≡ some b
    → decode_from start (b ++ rest) ≡ (decode_from start rest >>= λ s. ok (c ∷ s))
unfolding encode_char
decode_from-encode_char c b rest h = elim (dec_lt c 0x80) [
  | yes p ↦ same_bytes c _ b rest (sym (encode_char_1 c p) ∙ h) (decode_1 c rest p)
  | no p ↦ elim (dec_lt c 0x800) [
    | yes q ↦
        let e : encode_char c ≡ some ((0xc0 + c / 0x40) ∷ (0x80 + c % 0x40) ∷ []) = ground arith in
        same_bytes c _ b rest (sym e ∙ h) (decode_2 c rest (omega arith) q)
    | no q ↦ wide c b rest h (omega arith)
  ]
]

prepend_ok :
    (o : Option Bytes) (r : Result Bytes) (b : Bytes)
    → prepend o r ≡ ok b
    → (d : Bytes) × (rest : Bytes) × (o ≡ some d) × (r ≡ ok rest) × (b ≡ d ++ rest)
unfolding prepend
prepend_ok none r b h = cc
prepend_ok (some d) (err e) b h = cc
prepend_ok (some d) (ok rest) b h = (d, rest, refl, refl, ground arith)

encode_cons :
    (c : ℕ) (s : Text) (b : Bytes)
    → encode (c ∷ s) ≡ ok b
    → (d : Bytes) × (rest : Bytes) × (encode_char c ≡ some d)
      × (encode s ≡ ok rest)
      × (b ≡ d ++ rest)
unfolding encode
encode_cons c s b h = prepend_ok (encode_char c) (encode s) b h

-- Text that has been encoded is decoded to itself.
pub decode-encode : (s : Text) (b : Bytes) → encode s ≡ ok b → decode b ≡ ok s
unfolding decode
decode-encode [] b h = unfold encode decode_from in ground arith
decode-encode (c ∷ s) b h =
    let (d, rest, e, p, q) = encode_cons c s b h in
    rw (q, decode_from-encode_char c d rest e, decode-encode s rest p) refl
