-- ===== src/Text/Utf8/Parts.antt =====
-- UTF-8 of a text in parts: what is appended, the first characters, the length.
use pylogstream.Prelude.{
  ◌≢◌, take-append, take, ℕ, ◌+◌, ◌≤◌, ◌<◌, ◌≡◌, refl, ap, some, [], ◌∷◌, ◌++◌, append_assoc, arith,
  Result, ok, err, ◌>>=◌, sym, ◌∙◌, All, length, length-append,
}
use pylogstream.Text.{Text, Bytes}
use pylogstream.Text.Utf8.{
  encode_cons, encode_char_1, decode_from-encode_char, encode_char, encode, decode, decode-encode,
}

-- A code point that is a byte of its own.
abbrev pub IsAscii : ℕ → Type 0
IsAscii c = c < 0x80

pub encode-IsAscii : (s : Text) → All IsAscii s → encode s ≡ ok s
unfolding encode
encode-IsAscii [] h = refl
encode-IsAscii (c ∷ s) (hc, h) = rw (encode_char_1 c hc, encode-IsAscii s h) refl

encode_cons_ok :
    (c : ℕ) (s : Text) (d b : Bytes)
    → encode_char c ≡ some d
    → encode s ≡ ok b
    → encode (c ∷ s) ≡ ok (d ++ b)
unfolding encode
encode_cons_ok c s d b e h = rw (e, h) refl

pub encode-append :
    (s t : Text) (a b : Bytes) → encode s ≡ ok a → encode t ≡ ok b → encode (s ++ t) ≡ ok (a ++ b)
encode-append [] t a b h k = unfold encode in ground arith
encode-append (c ∷ s) t a b h k =
    let (d, rest, e, p, q) = encode_cons c s a h in
    encode_cons_ok c (s ++ t) d (rest ++ b) e (encode-append s t rest b p k)
    ∙ ap ok (sym (ap (λ r. r ++ b) q ∙ append_assoc d rest b))

pub encode-nil : (a : Bytes) → encode [] ≡ ok a → a ≡ []
unfolding encode
encode-nil a h = ground arith

bind_ok : (r : Result Text) → r ≡ (r >>= λ t. ok t)
bind_ok (ok t) = refl
bind_ok (err e) = refl

bind_push :
    (r : Result Text) (c : ℕ) (s : Text)
    → ((r >>= λ t. ok (s ++ t)) >>= λ t. ok (c ∷ t)) ≡ (r >>= λ t. ok (c ∷ (s ++ t)))
bind_push (ok t) c s = refl
bind_push (err e) c s = refl

decode_char :
    (c : ℕ) (d rest : Bytes)
    → encode_char c ≡ some d
    → decode (d ++ rest) ≡ (decode rest >>= λ s. ok (c ∷ s))
unfolding decode
decode_char c d rest e = decode_from-encode_char c d rest e

-- What follows an encoded text is decoded on its own.
pub decode-append :
    (s : Text) (a b : Bytes) → encode s ≡ ok a → decode (a ++ b) ≡ (decode b >>= λ t. ok (s ++ t))
decode-append [] a b h = rw (encode-nil a h) (bind_ok (decode b))
decode-append (c ∷ s) a b h =
    let (d, rest, e, p, q) = encode_cons c s a h in
    ap (λ r. decode (r ++ b)) q
    ∙ ap decode (append_assoc d rest b)
    ∙ decode_char c d (rest ++ b) e
    ∙ ap (λ (r : Result Text). r >>= λ t. ok (c ∷ t)) (decode-append s rest b p)
    ∙ bind_push (decode b) c s

-- Both parts of an encoded text are encoded by themselves.
pub encode-append_inv :
    (s t : Text) (b : Bytes)
    → encode (s ++ t) ≡ ok b
    → (a : Bytes) × (c : Bytes) × (encode s ≡ ok a) × (encode t ≡ ok c) × (b ≡ a ++ c)
encode-append_inv [] t b h = ([], b, unfold encode in refl, h, refl)
encode-append_inv (c ∷ s) t b h =
    let (d, rest, e, p, q) = encode_cons c (s ++ t) b h in
    let (a, z, u, v, w) = encode-append_inv s t rest p in
    (d ++ a, z, encode_cons_ok c s d a e u, v, q ∙ ap (λ r. d ++ r) w ∙ sym (append_assoc d a z))

-- The first bytes of a text that begins with ASCII characters are those characters.
pub take-encode :
    (s t : Text) (b : Bytes)
    → All IsAscii s
    → encode (s ++ t) ≡ ok b
    → decode (take (length s) b) ≡ ok s
take-encode s t b hs h =
    let (a, c, u, v, w) = encode-append_inv s t b h in
    let e : s ≡ a = ok_inj (sym (encode-IsAscii s hs) ∙ u) in
    ap (λ r. decode (take (length s) r)) (w ∙ ap (λ r. r ++ c) (sym e))
    ∙ ap decode (take-append s c)
    ∙ decode-encode s s (encode-IsAscii s hs)
  where
    ok_inj : {x y : Bytes} → ok x ≡ ok y → x ≡ y
    ok_inj k = cc

encode_char-length :
    (c : ℕ) (d : Bytes) → encode_char c ≡ some d → (1 ≤ length d) × (length d ≡ 1 → IsAscii c)
unfolding encode_char
encode_char-length c d h = (ground arith, λ k. ground arith)

-- An encoded text has as many bytes as characters, or more; as many only if it is ASCII.
pub length-encode :
    (s : Text) (b : Bytes)
    → encode s ≡ ok b
    → (length s ≤ length b) × (length s ≡ length b → All IsAscii s)
length-encode [] b h = (omega arith, λ _. tt)
length-encode (c ∷ s) b h =
    let (d, rest, e, p, q) = encode_cons c s b h in
    let (one, ascii) = encode_char-length c d e in
    let (le, rest_ascii) = length-encode s rest p in
    let total : length b ≡ length d + length rest = ap length q ∙ length-append d rest in
    (omega arith, λ k. (ascii (omega arith), rest_ascii (omega arith)))

pub encode-ne-nil : (s : Text) (b : Bytes) → s ≢ [] → encode s ≡ ok b → b ≢ []
encode-ne-nil [] b n h e = n refl
encode-ne-nil (c ∷ s) b n h e = absurd (omega (arith, (length-encode (c ∷ s) b h).0, ap length e))
