-- ===== src/Log/Writer.antt =====
-- log_writer.py. A topic's writes are serialised by the topic's lock, so each is one step; `now` is
-- what `time.time()` returns in it.
pub mod Last
pub mod Offsets
pub mod Batches
mod Tests
use pylogstream.Prelude.{
  ℕ, ◌+◌, Bool, true, false, ◌&&◌, not, List, [], ◌∷◌, ◌++◌, ◌==◌, if◌then◌else◌, Result, Error, ok,
  err, topic_doesnt_exist, negsuc, length,
}
use pylogstream.Prelude.Exec.{Done, Exec, pure, raise, ◌>>=◌}
use pylogstream.Text.{Text, Bytes}
use pylogstream.Text.Words.{to_bytes}
use pylogstream.Log.Segment.{
  SegmentMeta, SegmentState, SegmentPolicy, should_rollover, get_end_offset, get_file_end_offset,
}
use pylogstream.Log.Registry.{
  SegmentRegistry, get_segment, create_segment, advance_offset, progress_state,
}
use pylogstream.Log.Memory.{acquire}
use pylogstream.Log.Memory
use pylogstream.Log.Reader.{LogState, on_memory, look, with_handle}

unfoldable pub put_registry :
    {A : Type 0} → LogState → Result (A × SegmentRegistry) → Result A × LogState
put_registry s (ok (a, r)) = (ok a, record s { registry = r })
put_registry s (err e) = (err e, s)

-- A method of the registry; one that raises has changed nothing.
unfoldable pub on_registry :
    {A : Type 0} → (SegmentRegistry → Result (A × SegmentRegistry)) → Exec LogState A
unfolding put_registry
on_registry f s = put_registry s (f s.registry)

unfoldable pub active_segment : Text → Result SegmentMeta → Exec LogState SegmentMeta
unfolding on_registry
active_segment topic (ok meta) = pure meta
active_segment topic (err Error.topic_doesnt_exist) = on_registry (λ r. create_segment r topic 0)
active_segment topic (err e) = raise e

-- The base offset of the segment after the one that `_rollover` closes.
unfoldable pub seal : Result SegmentMeta → Exec LogState ℕ
unfolding on_registry
seal (ok meta) = do
  _ ← on_registry (λ r. progress_state r meta SegmentState.sealed)
  pure (get_end_offset meta)
seal (err Error.topic_doesnt_exist) = pure 0
seal (err e) = raise e

unfoldable pub rollover : Text → Exec LogState SegmentMeta
unfolding seal on_registry
rollover topic s =
    (do
      base_offset ← seal (get_segment s.registry topic (negsuc 0))
      on_registry (λ r. create_segment r topic base_offset))
      s

unfoldable pub maybe_rollover : Bool → Text → SegmentMeta → Exec LogState SegmentMeta
unfolding rollover
maybe_rollover true topic meta = rollover topic
maybe_rollover false topic meta = pure meta

-- The bytes go into the file before the registry knows of them.
unfoldable pub write_record : SegmentMeta → Bytes → Exec LogState Done
unfolding on_memory with_handle Memory.write
write_record meta msg = do
  handle ← on_memory (acquire meta)
  on_memory (with_handle handle (Memory.write handle (get_file_end_offset meta) msg))

unfoldable pub write : SegmentPolicy → ℕ → Text → Bytes → Exec LogState ℕ
unfolding look active_segment maybe_rollover write_record on_registry should_rollover
write policy now topic payload s =
    (do
      first ← active_segment topic (get_segment s.registry topic (negsuc 0))
      prefix ← look (λ _. to_bytes (length payload))
      let msg = prefix ++ payload
      meta ←
          maybe_rollover
            (should_rollover policy first (4 + length payload) now && not (first.size == 0)) topic
            first
      _ ← write_record meta msg
      _ ← on_registry (λ r. advance_offset r meta (length msg))
      pure (get_end_offset meta))
      s

-- Each write of the batch takes its own time.
unfoldable pub write_batch : SegmentPolicy → Text → List (ℕ × Bytes) → Exec LogState (List ℕ)
unfolding write
write_batch policy topic [] = pure []
write_batch policy topic ((now, msg) ∷ batch) = do
  offset ← write policy now topic msg
  offsets ← write_batch policy topic batch
  pure (offset ∷ offsets)
