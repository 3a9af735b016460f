-- ===== src/Log/Writer/Tests.antt =====
-- Two writes to a new topic, and the theorem about writes at the second.
use pylogstream.Prelude.{◌∷◌, List, ℕ, none, inr, ◌+◌, ◌≡◌, refl, [], ok, text_eq}
use pylogstream.Prelude.Dict.{get, put}
use pylogstream.Text.{Bytes, codes}
use pylogstream.Text.Decimal.{show_ℕ}
use pylogstream.Text.Words.{to_bytes}
use pylogstream.Log.Entry.{new_entry}
use pylogstream.Log.Memory.{acquire}
use pylogstream.Log.Segment.{SegmentPolicy}
use pylogstream.Log.Registry.{
  get_segment, create_segment, advance_offset, progress_state, get_latest_offset,
}
use pylogstream.Log.Registry.Valid.{IsValid, no_topics-IsValid}
use pylogstream.Log.Reader.{LogState}
use pylogstream.Log.Writer.{write, write_batch}
use pylogstream.Log.Writer.Batches.{starts, end, write_batch-starts}
use pylogstream.Log.Writer.Offsets.{EndsAt, write-EndsAt}

abbrev policy : SegmentPolicy
policy = record { retension_ms = 9; rollover_ms = 9; max_segment_size = 7 }

abbrev start : LogState
start = record {
  registry = record { log_dir = codes "d"; loaded_at = 0; registry = [] };
  memory = record {
    files = [];
    entries = [];
    cache = [];
    cleanup_queue = [];
    capacity = 1;
    init_segment_size = 4;
    segment_size_inc = 1;
  };
}

abbrev one_record : LogState
one_record = (write policy 0 (codes "t") (codes "hi") start).1

abbrev two_records : LogState
two_records = (write policy 0 (codes "t") (codes "a") one_record).1

writes_first : write policy 0 (codes "t") (codes "hi") start ≡ (ok 0, one_record)
unfolding write get put get_segment create_segment to_bytes acquire new_entry advance_offset
    progress_state show_ℕ
writes_first = refl

writes_second : write policy 0 (codes "t") (codes "a") one_record ≡ (ok 6, two_records)
unfolding write get put get_segment create_segment to_bytes acquire new_entry advance_offset
    progress_state show_ℕ
writes_second = refl

one_record-IsValid : IsValid one_record.registry
one_record-IsValid =
    (write-EndsAt policy 0 (codes "t") (codes "hi") start one_record 0
      (no_topics-IsValid (codes "d") 0) writes_first).2

-- The second record does not fit into the first segment.
write-EndsAt_example :
    EndsAt one_record.registry (codes "t") 6
    × (get_latest_offset two_records.registry (codes "t") ≡ ok (6 + (4 + 1)))
    × IsValid two_records.registry
write-EndsAt_example =
    write-EndsAt policy 0 (codes "t") (codes "a") one_record two_records 6 one_record-IsValid
      writes_second

abbrev batch : List (ℕ × Bytes)
batch = (0, codes "hi") ∷ (0, codes "a") ∷ []

abbrev written : LogState
written = (write_batch policy (codes "t") batch start).1

writes_batch : write_batch policy (codes "t") batch start ≡ (ok (0 ∷ 6 ∷ []), written)
unfolding write_batch write get put get_segment create_segment to_bytes acquire new_entry
    advance_offset progress_state show_ℕ
writes_batch = refl

no_topic : get start.registry.registry (codes "t") ≡ none
unfolding get
no_topic = refl

write_batch-starts_example :
    (0 ∷ 6 ∷ [] ≡ starts 0 batch)
    × EndsAt written.registry (codes "t") (end 0 batch)
    × IsValid written.registry
write_batch-starts_example =
    write_batch-starts policy (codes "t") batch start written 0 (0 ∷ 6 ∷ [])
      (no_topics-IsValid (codes "d") 0) (inr (no_topic, refl)) writes_batch
