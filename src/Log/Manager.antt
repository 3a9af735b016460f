-- ===== src/Log/Manager.antt =====
-- log_manager.py: the operations of a log.
pub mod Topics
mod Tests
use pylogstream.Prelude.{ℕ, List, [], ok, err, Result, Error, ℤ, negsuc}
use pylogstream.Prelude.Exec.{Done, Exec, pure, raise, ◌>>=◌}
use pylogstream.Text.{Text, Bytes}
use pylogstream.Log.Segment.{SegmentMeta, SegmentPolicy}
use pylogstream.Log.Registry.{get_segment, get_latest_offset, create_segment}
use pylogstream.Log.Entry
use pylogstream.Log.Reader.{LogState, ReadResult, ReadResultBytes, look}
use pylogstream.Log.Reader
use pylogstream.Log.Writer.{on_registry}
use pylogstream.Log.Writer

-- The part of a broker's configuration that the log uses.
pub record LogConfig : Type 0 where
  pub log_dir : Text
  pub retension_ms : ℕ
  pub rollover_ms : ℕ
  pub max_segment_size : ℕ
  pub init_segment_size : ℕ
  pub segment_size_inc : ℕ
  pub segment_cache_size : ℕ

unfoldable pub policy : LogConfig → SegmentPolicy
policy c = record {
  retension_ms = c.retension_ms;
  rollover_ms = c.rollover_ms;
  max_segment_size = c.max_segment_size;
}

-- No topic is known and no file is loaded, whatever the directory holds.
unfoldable pub new_log : LogConfig → ℕ → Entry.Files → LogState
new_log c loaded_at files = record {
  registry = record { log_dir = c.log_dir; loaded_at = loaded_at; registry = [] };
  memory = record {
    files = files;
    entries = [];
    cache = [];
    cleanup_queue = [];
    capacity = c.segment_cache_size;
    init_segment_size = c.init_segment_size;
    segment_size_inc = c.segment_size_inc;
  };
}

unfoldable pub create_missing : Text → Result SegmentMeta → Exec LogState Done
unfolding on_registry
create_missing topic (ok meta) = pure tt
create_missing topic (err Error.topic_doesnt_exist) = do
  _ ← on_registry (λ r. create_segment r topic 0)
  pure tt
create_missing topic (err e) = raise e

unfoldable pub create_topic : Text → Exec LogState Done
unfolding create_missing
create_topic topic s = create_missing topic (get_segment s.registry topic (negsuc 0)) s

unfoldable pub read : Text → ℤ → ℤ → Exec LogState ReadResult
unfolding Reader.read
read = Reader.read

unfoldable pub read_bytes : Text → ℤ → ℤ → Exec LogState ReadResultBytes
unfolding Reader.read_bytes
read_bytes = Reader.read_bytes

unfoldable pub append : LogConfig → ℕ → Text → Bytes → Exec LogState ℕ
unfolding Writer.write policy
append c now topic payload = Writer.write (policy c) now topic payload

unfoldable pub append_batch : LogConfig → Text → List (ℕ × Bytes) → Exec LogState (List ℕ)
unfolding Writer.write_batch policy
append_batch c topic batch = Writer.write_batch (policy c) topic batch

unfoldable pub latest_offset : Text → Exec LogState ℕ
unfolding look
latest_offset topic = look (λ s. get_latest_offset s.registry topic)
