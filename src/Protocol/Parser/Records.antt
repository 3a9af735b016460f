-- ===== src/Protocol/Parser/Records.antt =====
-- `parse_records`, `decode_record` and `checksum_verify` of parser.py: the records of a message's
-- payload, which are framed as the packets are.
use pylogstream.Prelude.{
  ◌∙◌, append_assoc, >>=-eq-ok, ℕ, zero, suc, ◌≤◌, ◌≡◌, refl, List, [], ◌∷◌, ◌++◌, ap, arith,
  if◌then◌else◌, Result, ok, err, ◌>>=◌, take, drop, length, length-append, take-append,
  drop-append, runtime_error, ℤ,
}
use pylogstream.Text.{Text, Bytes}
use pylogstream.Text.Utf8.{decode}
use pylogstream.Text.Words.{from_bytes, be32, from_bytes-be32}
use pylogstream.Text.Decimal.{parse_int_ascii}
use pylogstream.Protocol.Framer.{encode_frame, encode_frame_inv}
use pylogstream.Protocol.Parser.Commands.{checksum_verify}
use pylogstream.Protocol.Parser.{fields, part}

-- The loop over `payload[i:]`. A round takes the four bytes of the length, or fewer at the end, so
-- there are at most as many rounds as bytes.
unfoldable pub records_loop : ℕ → Bytes → List Bytes
records_loop zero s = []
records_loop (suc fuel) [] = []
records_loop (suc fuel) (b ∷ s) =
    let n = from_bytes (take 4 (b ∷ s)) in
    let rest = drop 4 (b ∷ s) in take n rest ∷ records_loop fuel (drop n rest)

unfoldable pub parse_records : Bytes → List Bytes
unfolding records_loop
parse_records payload = records_loop (length payload) payload

-- `record.split(b" ", 1)`. Without a blank the message is "", and the check raises IndexError.
unfoldable pub decode_record : Bytes → Result (ℤ × Text)
unfolding checksum_verify
decode_record rec = do
  let parts = fields 1 rec
  first ← part parts 0
  checksum ← parse_int_ascii first
  message ← part parts 1
  text ← decode message
  if checksum_verify message checksum then ok (checksum, text) else err runtime_error

-- The frames of some records, one after another.
unfoldable pub frame_records : List Bytes → Result Bytes
frame_records [] = ok []
frame_records (r ∷ rs) = do f ← encode_frame r; rest ← frame_records rs; ok (f ++ rest)

pub records_loop-be32 :
    (r rest : Bytes) (fuel : ℕ)
    → records_loop (suc fuel) (be32 (length r) ++ (r ++ rest)) ≡ r ∷ records_loop fuel rest
unfolding records_loop
records_loop-be32 r rest fuel =
    rw (from_bytes-be32 (length r), take-append r rest, drop-append r rest) refl

frame_records_cons :
    (r : Bytes) (rs : List Bytes) (payload : Bytes)
    → frame_records (r ∷ rs) ≡ ok payload
    → (rest : Bytes) × (frame_records rs ≡ ok rest) × (payload ≡ be32 (length r) ++ (r ++ rest))
unfolding frame_records
frame_records_cons r rs payload h =
    let (f, p, q) = >>=-eq-ok (encode_frame r) (λ f. frame_records rs >>= λ t. ok (f ++ t)) h in
    let (rest, u, v) = >>=-eq-ok (frame_records rs) (λ t. ok (f ++ t)) q in
    (rest, u, ground (arith, encode_frame_inv r f p, append_assoc (be32 (length r)) r rest))

frame_records_nil : (payload : Bytes) → frame_records [] ≡ ok payload → payload ≡ []
unfolding frame_records
frame_records_nil payload h = ground arith

pub records_loop-nil : (fuel : ℕ) → records_loop fuel [] ≡ []
unfolding records_loop
records_loop-nil zero = refl
records_loop-nil (suc fuel) = refl

records_loop-frame_records :
    (rs : List Bytes) (payload : Bytes) (fuel : ℕ)
    → frame_records rs ≡ ok payload
    → length payload ≤ fuel
    → records_loop fuel payload ≡ rs
records_loop-frame_records [] payload fuel h k =
    ap (records_loop fuel) (frame_records_nil payload h) ∙ records_loop-nil fuel
records_loop-frame_records (r ∷ rs) payload zero h k =
    let (rest, p, q) = frame_records_cons r rs payload h in absurd (omega (arith, ap length q))
records_loop-frame_records (r ∷ rs) payload (suc fuel) h k =
    let (rest, p, q) = frame_records_cons r rs payload h in
    ap (records_loop (suc fuel)) q
    ∙ records_loop-be32 r rest fuel
    ∙ ap (λ t. r ∷ t)
        (records_loop-frame_records rs rest fuel p
          (omega (arith, ap length q, length-append r rest)))

-- Records that were framed one after another are read back, in order.
pub parse_records-frame_records :
    (rs : List Bytes) (payload : Bytes) → frame_records rs ≡ ok payload → parse_records payload ≡ rs
unfolding parse_records
parse_records-frame_records rs payload h =
    records_loop-frame_records rs payload (length payload) h (omega arith)
