-- ===== src/Log/Batch.antt =====
-- log_reader.py, `_calc_read_size`: as many whole records as fit.
pub mod Whole
pub mod Records
mod Tests
use pylogstream.Prelude.{
  ℕ, zero, suc, ◌+◌, Bool, true, false, if◌then◌else◌, ltb, leb, ◌==◌, Result, ok, err, ◌>>=◌, ℤ,
  pos, pos_part, ◌+ℤ◌, ◌-ℤ◌, leb_ℤ, min_ℤ,
}
use pylogstream.Prelude.Exec.{Exec}
use pylogstream.Text.{Bytes}
use pylogstream.Text.Words.{from_bytes}
use pylogstream.Log.Segment.{SegmentMeta}
use pylogstream.Log.Memory.{SegmentMemory}
use pylogstream.Log.Memory

-- The length that stands in front of a record.
unfoldable pub size_at : SegmentMemory → ℕ → ℤ → Result ℕ
unfolding Memory.read_bytes
size_at m handle offset = do b ← (Memory.read_bytes handle offset 4 m).0; ok (from_bytes b)

-- The loop of `_calc_read_size`; `consumed` is how far `roffset` is behind `offset`.
unfoldable pub calc_loop : ℕ → (ℤ → Result ℕ) → ℤ → ℕ → ℕ → ℕ → Result ℕ
calc_loop zero size offset max_batch consumed batch = ok batch
calc_loop (suc fuel) size offset max_batch consumed batch =
    let next : ℕ → Result ℕ = λ sz.
      calc_loop fuel size offset max_batch (consumed + (sz + 4))
        (if leb (batch + sz + 4) max_batch then batch + (sz + 4) else batch) in
    if ltb consumed max_batch then size (offset +ℤ pos consumed) >>= next else ok batch

unfoldable pub at_least_one : (ℤ → Result ℕ) → ℤ → ℕ → Result ℕ
at_least_one size offset batch = if batch == 0 then (do sz ← size offset; ok (sz + 4)) else ok batch

-- Each round consumes 4 bytes or more, so `max_batch` rounds are enough.
unfoldable pub calc_read_size : (ℤ → Result ℕ) → ℤ → ℤ → Result ℕ
unfolding calc_loop at_least_one
calc_read_size size offset max_batch =
    calc_loop (pos_part max_batch) size offset (pos_part max_batch) 0 0 >>= at_least_one size offset

unfoldable pub max_batch_size : SegmentMeta → ℤ → ℤ → ℤ
max_batch_size meta offset size = min_ℤ size (pos meta.size -ℤ (offset -ℤ pos meta.base_offset))

-- The records of a batch, while the handle is held.
unfoldable pub read_batch : ℤ → ℤ → ℕ → Exec SegmentMemory (ℕ × Bytes)
unfolding size_at calc_read_size Memory.read_bytes
read_batch segment_offset max_batch handle m =
    let r = do
      batch ← calc_read_size (size_at m handle) segment_offset max_batch
      found ← (Memory.read_bytes handle segment_offset batch m).0
      ok (batch, found)
    in (r, m)
