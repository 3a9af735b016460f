-- ===== src/Log/Reader.antt =====
-- log_reader.py. A read finds the segment of an offset, and as many whole records as fit.
use pylogstream.Prelude.{ℕ, Result, ℤ, pos, ◌+ℤ◌, ◌-ℤ◌}
use pylogstream.Prelude.Exec.{Exec, pure, ◌>>=◌}
use pylogstream.Text.{Text, Bytes}
use pylogstream.Log.Registry.{SegmentRegistry, get_segment, get_latest_offset}
use pylogstream.Log.Memory.{SegmentMemory, acquire, release_entry}
use pylogstream.Log.Batch.{size_at, calc_read_size, max_batch_size, read_batch}

-- What the reader, the writer and the manager of a log share.
pub record LogState : Type 0 where
  pub registry : SegmentRegistry
  pub memory : SegmentMemory

pub record FileSlice : Type 0 where
  pub filepath : Text
  pub offset : ℤ
  pub batch_size : ℕ

-- `handle` is what `_release` gives back.
pub record ReadResult : Type 0 where
  pub next_offset : ℤ
  pub high_watermark : ℕ
  pub file_slice : FileSlice
  pub handle : ℕ

pub record ReadResultBytes : Type 0 where
  pub payload : Bytes
  pub next_offset : ℤ
  pub high_watermark : ℕ

unfoldable pub put_memory : {A : Type 0} → LogState → Result A × SegmentMemory → Result A × LogState
put_memory s (r, m) = (r, record s { memory = m })

unfoldable pub on_memory : {A : Type 0} → Exec SegmentMemory A → Exec LogState A
unfolding put_memory
on_memory f s = put_memory s (f s.memory)

-- A read that changes nothing.
unfoldable pub look : {A : Type 0} → (LogState → Result A) → Exec LogState A
look f s = (f s, s)

-- `with` gives the handle back, also where the body raises.
unfoldable pub give_back : {A : Type 0} → ℕ → Result A × SegmentMemory → Result A × SegmentMemory
unfolding release_entry
give_back handle (r, m) = (r, release_entry handle m)

unfoldable pub with_handle : {A : Type 0} → ℕ → Exec SegmentMemory A → Exec SegmentMemory A
unfolding give_back
with_handle handle f m = give_back handle (f m)

-- The handle stays with the result.
unfoldable pub read : Text → ℤ → ℤ → Exec LogState ReadResult
unfolding look on_memory size_at calc_read_size max_batch_size
read topic offset size = do
  meta ← look (λ s. get_segment s.registry topic offset)
  let segment_offset = offset -ℤ pos meta.base_offset
  handle ← on_memory (acquire meta)
  batch ← look (λ s.
      calc_read_size (size_at s.memory handle) segment_offset (max_batch_size meta offset size))
  latest ← look (λ s. get_latest_offset s.registry topic)
  pure (record {
    next_offset = offset +ℤ pos batch;
    high_watermark = latest;
    file_slice = record { filepath = meta.path; offset = segment_offset; batch_size = batch };
    handle = handle;
  })

unfoldable pub read_bytes : Text → ℤ → ℤ → Exec LogState ReadResultBytes
unfolding look on_memory with_handle max_batch_size read_batch
read_bytes topic offset size = do
  meta ← look (λ s. get_segment s.registry topic offset)
  let segment_offset = offset -ℤ pos meta.base_offset
  handle ← on_memory (acquire meta)
  found ←
      on_memory
        (with_handle handle (read_batch segment_offset (max_batch_size meta offset size) handle))
  latest ← look (λ s. get_latest_offset s.registry topic)
  pure (record { payload = found.1; next_offset = offset +ℤ pos found.0; high_watermark = latest })
