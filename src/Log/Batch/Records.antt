-- ===== src/Log/Batch/Records.antt =====
-- A batch read from a segment's file is whole records, which a client's parser takes apart.
use pylogstream.Prelude.{
  inl, inr, ℕ, zero, suc, ◌+◌, ◌≤◌, ◌<◌, ◌≡◌, ◌⊎◌, refl, sym, ap, ◌∙◌, arith, List, [], ◌∷◌, ◌++◌,
  map, some, ok, ◌>>=◌, ℤ, pos, pos_part, pos-+ℤ, length, take, drop, get_elem?, length-append,
  drop-append, append_assoc,
}
use pylogstream.Text.{Bytes}
use pylogstream.Text.Words.{be32, from_bytes-be32}
use pylogstream.Log.Entry.{Entry}
use pylogstream.Log.Entry.RoundTrip.{IsLoaded, read_bytes_lem}
use pylogstream.Log.Memory.{SegmentMemory, on_entry, run_entry, put_back}
use pylogstream.Log.Memory
use pylogstream.Log.Batch.{from_bytes, size_at, calc_read_size, read_batch}
use pylogstream.Log.Batch.Whole.{total, IsFramed, calc_read_size-whole}
use pylogstream.Protocol.Parser.Records.{
  records_loop, parse_records, records_loop-be32, records_loop-nil,
}

-- Records as they stand in a segment's file.
abbrev pub frames : List Bytes → Bytes
frames [] = []
frames (m ∷ ms) = be32 (length m) ++ (m ++ frames ms)

length-frames : (ms : List Bytes) → length (frames ms) ≡ total (map length ms)
length-frames [] = refl
length-frames (m ∷ ms) = omega (arith, length-append m (frames ms), length-frames ms)

take-append_more : (a b : Bytes) (n : ℕ) → take (length a + n) (a ++ b) ≡ a ++ take n b
take-append_more [] b n = let e : 0 + n ≡ n = omega arith in ap (λ i. take i b) e
take-append_more (x ∷ a) b n =
    let e : suc (length a) + n ≡ suc (length a + n) = omega arith in
    ap (λ i. take i (x ∷ (a ++ b))) e ∙ ap (λ t. x ∷ t) (take-append_more a b n)

take-frames :
    (k : ℕ) (ms : List Bytes) (rest : Bytes)
    → take (total (take k (map length ms))) (frames ms ++ rest) ≡ frames (take k ms)
take-frames zero ms rest = refl
take-frames (suc k) [] rest = refl
take-frames (suc k) (m ∷ ms) rest =
    let n = total (take k (map length ms)) in
    let e : length m + 4 + n ≡ suc (suc (suc (suc (length m + n)))) = omega arith in
    ap (λ i. take i (frames (m ∷ ms) ++ rest)) e
    ∙ ap (λ t. be32 (length m) ++ take (length m + n) t) (append_assoc m (frames ms) rest)
    ∙ ap (λ t. be32 (length m) ++ t)
        (take-append_more m (frames ms ++ rest) n ∙ ap (λ t. m ++ t) (take-frames k ms rest))

parse_frames :
    (ms : List Bytes) (fuel : ℕ) → length (frames ms) ≤ fuel → records_loop fuel (frames ms) ≡ ms
parse_frames [] fuel h = records_loop-nil fuel
parse_frames (m ∷ ms) zero h = absurd (omega arith)
parse_frames (m ∷ ms) (suc fuel) h =
    records_loop-be32 m (frames ms) fuel
    ∙ ap (λ t. m ∷ t) (parse_frames ms fuel (omega (arith, length-append m (frames ms))))

parse_records-frames : (ms : List Bytes) → parse_records (frames ms) ≡ ms
unfolding parse_records
parse_records-frames ms = parse_frames ms (length (frames ms)) (omega arith)

length-map : (ms : List Bytes) → length (map length ms) ≡ length ms
length-map [] = refl
length-map (m ∷ ms) = ap suc (length-map ms)

total-take : (k : ℕ) (ns : List ℕ) → total (take k ns) ≤ total ns
total-take zero ns = omega arith
total-take (suc k) [] = omega arith
total-take (suc k) (n ∷ ns) = omega (arith, total-take k ns)

module _ (m : SegmentMemory) (handle : ℕ) (e : Entry) (f : Bytes)
    (held : get_elem? m.entries handle ≡ some e) (l : IsLoaded e m.files f) where
  read_held :
      (offset size : ℕ)
      → offset + size ≤ length f
      → (Memory.read_bytes handle (pos offset) size m).0 ≡ ok (take size (drop offset f))
  unfolding Memory.read_bytes on_entry run_entry put_back
  read_held offset size h = rw held (read_bytes_lem e m.files f offset size l h)

  size_held :
      (p q : Bytes) (n : ℕ) → f ≡ p ++ (be32 n ++ q) → size_at m handle (pos (length p)) ≡ ok n
  unfolding size_at
  size_held p q n h =
      ap (λ r. r >>= λ b. ok (from_bytes b))
        (read_held (length p) 4 (omega (arith, ap length h, length-append p (be32 n ++ q)))
          ∙ ap (λ s. ok (take 4 (drop (length p) s))) h
          ∙ ap (λ s. ok (take 4 s)) (drop-append p (be32 n ++ q)))
      ∙ ap ok (from_bytes-be32 n)

  framed :
      (p q rest : Bytes) (ms : List Bytes) (c : ℕ)
      → f ≡ p ++ (q ++ (frames ms ++ rest))
      → length q ≡ c
      → IsFramed (size_at m handle) (pos (length p)) c (map length ms)
  framed p q rest [] c h k = tt
  framed p q rest (x ∷ xs) c h k =
      let tail = frames xs ++ rest in
      let here : f ≡ (p ++ q) ++ (be32 (length x) ++ (x ++ tail)) =
        h
        ∙ ap (λ t. p ++ (q ++ (be32 (length x) ++ t))) (append_assoc x (frames xs) rest)
        ∙ sym (append_assoc p q (be32 (length x) ++ (x ++ tail))) in
      (
        ap (size_at m handle) (pos-+ℤ (length p) c ∙ ap pos (omega (arith, k, length-append p q)))
            ∙ size_held (p ++ q) (x ++ tail) (length x) here,
        framed p (q ++ (be32 (length x) ++ x)) rest xs (c + (length x + 4))
            (h
              ∙ ap (λ t. p ++ (q ++ (be32 (length x) ++ t))) (append_assoc x (frames xs) rest)
              ∙ ap (λ t. p ++ t) (sym (append_assoc q (be32 (length x) ++ x) tail)))
            (omega (arith, k, length-append q (be32 (length x) ++ x))),
      )

  read_batch-frames :
      (p rest : Bytes) (ms : List Bytes) (max_batch : ℤ) (j : ℕ)
      → f ≡ p ++ (frames ms ++ rest)
      → calc_read_size (size_at m handle) (pos (length p)) max_batch
        ≡ ok (total (take j (map length ms)))
      → (read_batch (pos (length p)) max_batch handle m).0
        ≡ ok (total (take j (map length ms)), frames (take j ms))
  unfolding read_batch
  read_batch-frames p rest ms max_batch j h c =
      let n = total (take j (map length ms)) in
      rw c (
        ap (λ r. r >>= λ found. ok (n, found))
          (read_held (length p) n (
              omega (
                arith,
                ap length h,
                length-append p (frames ms ++ rest),
                length-append (frames ms) rest,
                length-frames ms,
                total-take j (map length ms),
              ))
            ∙ ap (λ t. ok (take n (drop (length p) t))) h
            ∙ ap (λ t. ok (take n t)) (drop-append p (frames ms ++ rest))
            ∙ ap ok (take-frames j ms rest)))

  -- The file that the handle's entry covers has records from an offset on; the size that may be read is
  -- at most theirs. The batch read at that offset has the first records, one at least, as the parser of
  -- a client finds them in it. Its size is at most the one allowed, or it is one record; and one more
  -- record would not fit, where there is one.
  pub read_batch-parse_records :
      (p rest first : Bytes) (ms : List Bytes) (max_batch : ℤ)
      → f ≡ p ++ (frames (first ∷ ms) ++ rest)
      → pos_part max_batch ≤ length (frames (first ∷ ms))
      → (k : ℕ) × (n : ℕ) × (bytes : Bytes) × ((read_batch (pos (length p)) max_batch handle m).0
          ≡ ok (n, bytes))
        × (parse_records bytes ≡ take (suc k) (first ∷ ms))
        × ((n ≤ pos_part max_batch) ⊎ (k ≡ 0))
        × ((suc k ≡ length (first ∷ ms))
            ⊎ (pos_part max_batch < total (take (suc (suc k)) (map length (first ∷ ms)))))
  read_batch-parse_records p rest first ms max_batch h b =
      let (k, c, d, e) =
        calc_read_size-whole (size_at m handle) (pos (length p)) max_batch (length first)
          (map length ms) (framed p [] rest (first ∷ ms) 0 h refl)
          (omega (arith, b, length-frames (first ∷ ms))) in
      (
        k,
        total (take (suc k) (map length (first ∷ ms))),
        frames (take (suc k) (first ∷ ms)),
        read_batch-frames p rest (first ∷ ms) max_batch (suc k) h c,
        parse_records-frames (take (suc k) (first ∷ ms)),
        d,
        elim e [ inl q ↦ inl (omega (arith, q, length-map ms)) | inr q ↦ inr q ],
      )
