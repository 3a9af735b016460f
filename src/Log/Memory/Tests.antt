-- ===== src/Log/Memory/Tests.antt =====
-- An empty cache for one entry, and the theorems about the memory at it.
use pylogstream.Prelude.{
  arith, get_elem?, ◌≤ℤ◌, pos, some, ◌≡◌, ◌≤◌, refl, [], ◌∷◌, ok, length, text_eq,
}
use pylogstream.Prelude.Dict.{get, put}
use pylogstream.Text.{codes}
use pylogstream.Log.Segment.{SegmentMeta, SegmentState}
use pylogstream.Log.Entry.{Entry, new_entry}
use pylogstream.Log.Memory.{SegmentMemory, acquire, write}
use pylogstream.Log.Memory.Cache.{acquire_cache-length}
use pylogstream.Log.Memory.Usable.{IsMapped}
use pylogstream.Log.Memory.Steps.{Step, Reach, Reach-IsMapped}
use pylogstream.Log.Memory.Held.{times}

abbrev meta : SegmentMeta
meta = record {
  topic = codes "t";
  base_offset = 0;
  path = codes "p";
  state = SegmentState.active;
  created_at = 0;
  size = 0;
}

abbrev empty : SegmentMemory
empty = record {
  files = [];
  entries = [];
  cache = [];
  cleanup_queue = [];
  capacity = 1;
  init_segment_size = 8;
  segment_size_inc = 4;
}

acquire_cache-length_example : length (acquire meta empty).1.cache ≤ 1
acquire_cache-length_example = acquire_cache-length meta empty

abbrev loaded : SegmentMemory
loaded = (acquire meta empty).1

acquires : acquire meta empty ≡ (ok 0, loaded)
unfolding acquire get put new_entry
acquires = refl

-- The segment is acquired and written.
Reach-IsMapped_example :
    (e : Entry) × (get_elem? (write 0 2 (7 ∷ []) loaded).1.entries 0 ≡ some e)
    × (pos (times 0 (0 ∷ [])) ≤ℤ e.refcount)
    × IsMapped e.mv
Reach-IsMapped_example =
    Reach-IsMapped 0
      (Reach.later (Reach.later (Reach.start refl) (Step.acquired meta empty loaded [] 0 acquires))
        (Step.written 0 2 (7 ∷ []) loaded (0 ∷ [])))
      (ground arith)
