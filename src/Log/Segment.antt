-- ===== src/Log/Segment.antt =====
-- segment.py and segment_policy.py. Times are counted in ticks of one unit.
use pylogstream.Prelude.{ℕ, ◌+◌, ◌-◌, ◌==◌, Bool, true, false, ◌&&◌, ◌++◌, ltb, same, if◌then◌else◌}
use pylogstream.Text.{Text}
use pylogstream.Text.Decimal.{show_ℕ}

pub data SegmentState : Type 0 where
  active sealed expired deleted : SegmentState

pub record SegmentMeta : Type 0 where
  pub topic : Text
  pub base_offset : ℕ
  pub path : Text
  pub state : SegmentState
  pub created_at : ℕ
  pub size : ℕ

unfoldable pub get_id : SegmentMeta → Text
get_id m = m.topic ++ show_ℕ m.base_offset

unfoldable pub same_state : SegmentState → SegmentState → Bool
same_state SegmentState.active SegmentState.active = true
same_state SegmentState.sealed SegmentState.sealed = true
same_state SegmentState.expired SegmentState.expired = true
same_state SegmentState.deleted SegmentState.deleted = true
same_state _ _ = false

unfoldable pub is_mutable : SegmentMeta → Bool
unfolding same_state
is_mutable m = same_state m.state SegmentState.active

abbrev pub get_end_offset : SegmentMeta → ℕ
get_end_offset m = m.base_offset + m.size

abbrev pub get_file_end_offset : SegmentMeta → ℕ
get_file_end_offset m = m.size

-- `==` of the dataclass: all fields are equal.
unfoldable pub same_meta : SegmentMeta → SegmentMeta → Bool
unfolding same_state
same_meta a b =
    same a.topic b.topic
    && a.base_offset == b.base_offset
    && same a.path b.path
    && same_state a.state b.state
    && a.created_at == b.created_at
    && a.size == b.size

pub record SegmentPolicy : Type 0 where
  pub retension_ms : ℕ
  pub rollover_ms : ℕ
  pub max_segment_size : ℕ

unfoldable pub is_expired : SegmentPolicy → SegmentMeta → ℕ → Bool
is_expired p m now = ltb p.retension_ms (now - m.created_at)

-- `now` is what `time.time()` returns.
unfoldable pub should_rollover : SegmentPolicy → SegmentMeta → ℕ → ℕ → Bool
should_rollover p m msg_size now =
    if ltb p.rollover_ms (now - m.created_at)
    then true
    else ltb p.max_segment_size (m.size + msg_size)
