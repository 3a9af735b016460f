-- ===== src/Log/Tests.antt =====
-- A log with one topic, and the theorems about the log at it.
use pylogstream.Prelude.{
  ◌⊎◌, illegal_transition, err, ◌-◌, ℕ, ◌+◌, ◌≡◌, ◌↔◌, refl, arith, true, List, [], ◌∷◌, some,
  Result, ok, pos, length, set, text_eq,
}
use pylogstream.Prelude.Dict.{get, put}
use pylogstream.Text.{codes}
use pylogstream.Log.Segment.{SegmentMeta, SegmentState}
use pylogstream.Log.Registry.{
  SegmentRegistry, get_segment, create_segment, advance_offset, progress_state, is_allowed, last?,
}
use pylogstream.Log.Registry.Chain.{IsChain}
use pylogstream.Log.Registry.Lookup.{ContainsOffset, get_segment_iff}
use pylogstream.Log.Registry.Valid.{IsValid, no_topics-IsValid, put-IsValid}
use pylogstream.Log.Registry.Grow.{create_segment-IsValid, advance_offset-IsValid}
use pylogstream.Log.Registry.Progress.{
  progress_state-IsValid, progress_state-registered, IsNext, moved, moved_in,
}

abbrev segment : ℕ → ℕ → SegmentState → SegmentMeta
segment base size st = record {
  topic = codes "t";
  base_offset = base;
  path = codes "p";
  state = st;
  created_at = 0;
  size = size;
}

-- A sealed segment of one record, and an empty active one.
abbrev first : SegmentMeta
first = segment 0 6 SegmentState.sealed

abbrev second : SegmentMeta
second = segment 6 0 SegmentState.active

abbrev two_segments : List SegmentMeta
two_segments = first ∷ second ∷ []

abbrev log : SegmentRegistry
log = record { log_dir = codes "d"; loaded_at = 0; registry = (codes "t", two_segments) ∷ [] }

log_finds : get log.registry (codes "t") ≡ some two_segments
unfolding get
log_finds = refl

two_segments-IsChain : IsChain two_segments
two_segments-IsChain = ((omega arith, omega arith), tt)

log-IsValid : IsValid log
unfolding put
log-IsValid =
    put-IsValid (record log { registry = [] }) (codes "t") two_segments
      (no_topics-IsValid (codes "d") 0) two_segments-IsChain (refl, (refl, tt))

abbrev from_ok : {A : Type 0} → A → Result A → A
from_ok d (ok a) = a
from_ok d _ = d

last_is_second : last? two_segments ≡ some second
unfolding last?
last_is_second = refl

get_segment_iff_example :
    (get_segment log (codes "t") (pos 5) ≡ ok first) ↔ ContainsOffset two_segments (pos 5) first
get_segment_iff_example =
    get_segment_iff log (codes "t") two_segments log_finds (pos 5) first
      (λ e. absurd (ground arith)) two_segments-IsChain

abbrev created : SegmentMeta × SegmentRegistry
created = from_ok (first, log) (create_segment log (codes "u") 3)

created_ok : create_segment log (codes "u") 3 ≡ ok created
unfolding create_segment get put
created_ok = refl

create_segment-IsValid_example :
    IsValid created.1
    × (created.0.base_offset ≡ 3)
    × (created.0.size ≡ 0)
    × (created.0.state ≡ SegmentState.active)
    × (created.0.topic ≡ codes "u")
create_segment-IsValid_example =
    create_segment-IsValid log log-IsValid (codes "u") 3 created.0 created.1 created_ok

advance_offset-IsValid_example :
    (m : SegmentMeta) × (r' : SegmentRegistry) × (advance_offset log second 6 ≡ ok (m, r'))
    × IsValid r'
    × (m ≡ record second { size = second.size + 6 })
    × (get r'.registry second.topic ≡ some (set two_segments (length two_segments - 1) m))
advance_offset-IsValid_example =
    advance_offset-IsValid log log-IsValid second second 6 two_segments log_finds last_is_second
      refl

progress_state-registered_example :
    (IsNext second.state SegmentState.sealed
      × (progress_state log second SegmentState.sealed
          ≡ ok (
            moved second SegmentState.sealed,
            moved_in log two_segments 1 second SegmentState.sealed,
          )))
    ⊎ ((IsNext second.state SegmentState.sealed → ⊥)
        × (progress_state log second SegmentState.sealed ≡ err illegal_transition))
progress_state-registered_example =
    progress_state-registered log two_segments 1 second SegmentState.sealed log-IsValid log_finds
      refl

abbrev sealed : SegmentMeta × SegmentRegistry
sealed = from_ok (first, log) (progress_state log second SegmentState.sealed)

sealed_ok : progress_state log second SegmentState.sealed ≡ ok sealed
unfolding progress_state get put
sealed_ok = refl

progress_state-IsValid_example :
    IsValid sealed.1
    × (is_allowed second.state SegmentState.sealed ≡ true)
    × (sealed.0.base_offset ≡ second.base_offset)
    × (sealed.0.size ≡ second.size)
progress_state-IsValid_example =
    progress_state-IsValid log log-IsValid second sealed.0 SegmentState.sealed sealed.1 sealed_ok
