-- ===== src/Protocol/Framer.antt =====
-- framer.py: a frame is the length of its payload in four bytes, and the payload.
use pylogstream.Prelude.{ℕ, ◌^◌, ◌<◌, ◌≡◌, refl, ◌++◌, Result, ok, ◌>>=◌, length, take, drop}
use pylogstream.Prelude.{
  err, overflow_error, ◌≤◌, arith, append_assoc, take-append, drop-append, ap, ◌∙◌,
}
use pylogstream.Text.{Bytes}
use pylogstream.Text.Words.{to_bytes, from_bytes, be32, to_bytes-be32, from_bytes-be32}

abbrev pub prefix_size : ℕ
prefix_size = 4

unfoldable pub encode_frame : Bytes → Result Bytes
encode_frame payload = do prefix ← to_bytes (length payload); ok (prefix ++ payload)

unfoldable pub decode_length : Bytes → ℕ
decode_length prefix = from_bytes prefix

-- What a reader of the stream does: the prefix, then as many bytes as the prefix says. The rest of
-- the stream stays unread.
unfoldable pub read_frame : Bytes → Bytes × Bytes
unfolding decode_length
read_frame stream =
    let n = decode_length (take prefix_size stream) in
    let rest = drop prefix_size stream in (take n rest, drop n rest)

pub encode_frame-be32 : (p : Bytes) → length p < 2 ^ 32 → encode_frame p ≡ ok (be32 (length p) ++ p)
unfolding encode_frame
encode_frame-be32 p h = rw (to_bytes-be32 (length p) h)

pub decode_length-be32 : (n : ℕ) → decode_length (be32 n) ≡ n
unfolding decode_length
decode_length-be32 n = from_bytes-be32 n

-- A frame that was made is the length, which fits in four bytes, and the payload.
pub encode_frame_inv :
    (p f : Bytes) → encode_frame p ≡ ok f → (length p < 2 ^ 32) × (f ≡ be32 (length p) ++ p)
unfolding encode_frame to_bytes
encode_frame_inv p f h = ground arith

-- A payload of 2^32 bytes or more has no frame.
pub encode_frame_overflow : (p : Bytes) → 2 ^ 32 ≤ length p → encode_frame p ≡ err overflow_error
unfolding encode_frame to_bytes
encode_frame_overflow p h = ground arith

read_frame-be32 : (p rest : Bytes) → read_frame (be32 (length p) ++ (p ++ rest)) ≡ (p, rest)
unfolding read_frame
read_frame-be32 p rest =
    rw (from_bytes-be32 (length p), take-append p rest, drop-append p rest) refl

-- Reading a stream that begins with a frame gives the frame's payload, and leaves what follows it.
pub read_frame-encode_frame :
    (payload frame rest : Bytes)
    → encode_frame payload ≡ ok frame
    → read_frame (frame ++ rest) ≡ (payload, rest)
read_frame-encode_frame payload frame rest h =
    let (_, e) = encode_frame_inv payload frame h in
    ap (λ f. read_frame (f ++ rest)) e
    ∙ ap read_frame (append_assoc (be32 (length payload)) payload rest)
    ∙ read_frame-be32 payload rest
