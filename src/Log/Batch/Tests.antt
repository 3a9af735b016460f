-- ===== src/Log/Batch/Tests.antt =====
-- A segment's file with two records, and the theorems about reading a batch at it.
use pylogstream.Prelude.{
  ℕ, suc, ◌≡◌, ◌≤◌, ◌<◌, ◌⊎◌, refl, arith, true, [], ◌∷◌, ◌++◌, some, ok, pos, take, text_eq,
  replicate,
}
use pylogstream.Prelude.Dict.{get}
use pylogstream.Text.{Bytes, codes}
use pylogstream.Log.Entry.{Entry}
use pylogstream.Log.Entry.RoundTrip.{IsLoaded}
use pylogstream.Log.Memory.{SegmentMemory}
use pylogstream.Log.Batch.{read_batch}
use pylogstream.Log.Batch.Whole.{total}
use pylogstream.Log.Batch.Records.{frames, read_batch-parse_records}
use pylogstream.Protocol.Parser.Records.{parse_records}

-- Two records, and zeros behind them.
abbrev bytes : Bytes
bytes = frames (codes "hi" ∷ codes "abc" ∷ []) ++ replicate 3 0

abbrev entry : Entry
entry = record {
  filepath = codes "p";
  mutable = true;
  refcount = pos 1;
  capacity = some 16;
  mv = some 16;
  init_segment_size = 16;
  segment_size_inc = 4;
}

abbrev memory : SegmentMemory
memory = record {
  files = (codes "p", bytes) ∷ [];
  entries = entry ∷ [];
  cache = (codes "t0", 0) ∷ [];
  cleanup_queue = [];
  capacity = 1;
  init_segment_size = 16;
  segment_size_inc = 4;
}

entry-IsLoaded : IsLoaded entry memory.files bytes
unfolding get
entry-IsLoaded = record { viewed = refl; sized = refl; stored = refl }

-- Ten bytes hold the first record.
read_batch-parse_records_example :
    (k : ℕ) × (n : ℕ) × (found : Bytes) × ((read_batch (pos 0) (pos 10) 0 memory).0 ≡ ok (n, found))
    × (parse_records found ≡ take (suc k) (codes "hi" ∷ codes "abc" ∷ []))
    × ((n ≤ 10) ⊎ (k ≡ 0))
    × ((suc k ≡ 2) ⊎ (10 < total (take (suc (suc k)) (2 ∷ 3 ∷ []))))
read_batch-parse_records_example =
    read_batch-parse_records memory 0 entry bytes refl entry-IsLoaded [] (replicate 3 0)
      (codes "hi") (codes "abc" ∷ []) (pos 10) refl (omega arith)
