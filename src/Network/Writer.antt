-- ===== src/Network/Writer.antt =====
-- network/writer.py. A topic's queue and its collector's task are made together and never removed, so
-- the two dictionaries are one here. A collector's wait ends with a request or with a timeout; which of
-- them is an event, so the clock and `start_time`, from which the timeout is computed, are left out.
pub mod Order
pub mod Size
pub mod Acks
use pylogstream.Prelude.{
  ℕ, ◌+◌, Bool, true, false, ◌||◌, List, [], ◌∷◌, ◌++◌, Option, none, some, if◌then◌else◌, leb,
  length, text_eq,
}
use pylogstream.Prelude.Dict.{Dict, get, put}
use pylogstream.Prelude.Exec.{Exec, pure, ◌>>=◌}
use pylogstream.Text.{Text, Bytes}
use pylogstream.Log.Reader.{LogState}
use pylogstream.Log.Manager.{LogConfig, append_batch}

-- `payload` is the field `data` of the source.
pub record WriteRequest : Type 0 where
  pub producer_id : Text
  pub topic : Text
  pub payload : Bytes
  pub created_at : ℕ
  pub callback : Option ℕ

pub record WriterConfig : Type 0 where
  pub max_batch_size : ℕ
  pub max_batch_bytes : ℕ

-- A topic's queue, and the local variables of `_topic_collector`.
pub record Collector : Type 0 where
  pub queue : List WriteRequest
  pub batch : List WriteRequest
  pub batch_bytes : ℕ

-- `jobs` are the batches that were given to the executor, in order.
pub record Writer : Type 0 where
  pub collectors : Dict Text Collector
  pub jobs : List (Text × List WriteRequest)
  pub running : Bool

unfoldable pub or_new : Option Collector → Collector
or_new none = record { queue = []; batch = []; batch_bytes = 0 }
or_new (some c) = c

unfoldable pub collector_of : Writer → Text → Collector
unfolding or_new
collector_of w topic = or_new (get w.collectors topic)

abbrev pub put_collector : Writer → Text → Collector → Writer
put_collector w topic c = record w { collectors = put w.collectors topic c }

unfoldable pub submit : WriteRequest → Writer → Writer
unfolding collector_of
submit req w =
    let c = collector_of w req.topic in
    put_collector w req.topic (record c { queue = c.queue ++ req ∷ [] })

-- The batch goes to the executor, and the collector starts again.
unfoldable pub flush : Text → Collector → Writer → Writer
flush topic c w =
    let emptied = record c { batch = []; batch_bytes = 0 } in
    record w { collectors = put w.collectors topic emptied; jobs = w.jobs ++ (topic, c.batch) ∷ [] }

unfoldable pub is_full : WriterConfig → Collector → Bool
is_full cfg c = leb cfg.max_batch_size (length c.batch) || leb cfg.max_batch_bytes c.batch_bytes

-- The first request of a batch is only kept; a later one may fill the batch.
unfoldable pub add_request : WriterConfig → Text → List WriteRequest → Collector → Writer → Writer
unfolding is_full flush
add_request cfg topic [] c w = put_collector w topic c
add_request cfg topic (first ∷ others) c w =
    if is_full cfg c then flush topic c w else put_collector w topic c

unfoldable pub take_next : WriterConfig → Text → Collector → List WriteRequest → Writer → Writer
unfolding add_request
take_next cfg topic c [] w = w
take_next cfg topic c (req ∷ queue) w =
    let taken = record c {
      queue = queue;
      batch = c.batch ++ req ∷ [];
      batch_bytes = c.batch_bytes + length req.payload;
    } in
    add_request cfg topic c.batch taken w

-- A wait of a topic's collector that ends with a request.
unfoldable pub receive : WriterConfig → Text → Writer → Writer
unfolding take_next collector_of
receive cfg topic w =
    let c = collector_of w topic in if w.running then take_next cfg topic c c.queue w else w

unfoldable pub flush_some : Text → Collector → List WriteRequest → Writer → Writer
unfolding flush
flush_some topic c [] w = w
flush_some topic c (first ∷ others) w = flush topic c w

-- A wait that ends with a timeout.
unfoldable pub timeout : Text → Writer → Writer
unfolding flush_some collector_of
timeout topic w =
    let c = collector_of w topic in if w.running then flush_some topic c c.batch w else w

unfoldable pub callbacks : List WriteRequest → List ℕ
callbacks [] = []
callbacks (req ∷ reqs) = elim req.callback [
  | none ↦ callbacks reqs
  | some future ↦ future ∷ callbacks reqs
]

unfoldable pub drained : Dict Text Collector → Dict Text Collector
drained [] = []
drained ((topic, c) ∷ d) = (topic, record c { queue = [] }) ∷ drained d

unfoldable pub queued : Dict Text Collector → List ℕ
unfolding callbacks
queued [] = []
queued ((topic, c) ∷ d) = callbacks c.queue ++ queued d

-- The futures that get the exception, and the writer. What is in a batch is told nothing.
unfoldable pub close : Writer → List ℕ × Writer
unfolding queued drained
close w = (queued w.collectors, record w { running = false; collectors = drained w.collectors })

-- Each request with what `time.time()` returns when it is written.
unfoldable pub payloads : List (ℕ × WriteRequest) → List (ℕ × Bytes)
payloads [] = []
payloads ((now, req) ∷ reqs) = (now, req.payload) ∷ payloads reqs

-- The futures that are set, each to its offset.
unfoldable pub acknowledge : List ℕ → List (ℕ × WriteRequest) → List (ℕ × ℕ)
acknowledge [] reqs = []
acknowledge (offset ∷ offsets) [] = []
acknowledge (offset ∷ offsets) ((now, req) ∷ reqs) = elim req.callback [
  | none ↦ acknowledge offsets reqs
  | some future ↦ (future, offset) ∷ acknowledge offsets reqs
]

unfoldable pub flush_batch :
    LogConfig → Text → List (ℕ × WriteRequest) → Exec LogState (List (ℕ × ℕ))
unfolding append_batch payloads acknowledge
flush_batch cfg topic batch = do
  offsets ← append_batch cfg topic (payloads batch)
  pure (acknowledge offsets batch)
