-- ===== src/Network/Tests/Clients.antt =====
-- A broker that leads one topic with one record, and the theorems about its clients at it.
use pylogstream.Prelude.{
  ℕ, ◌≡◌, refl, inr, true, false, List, [], ◌∷◌, none, some, ok, pos, negsuc, ◌-ℤ◌, ◌+ℤ◌, text_eq,
}
use pylogstream.Prelude.Dict.{get, put, remove}
use pylogstream.Text.{codes}
use pylogstream.Text.Utf8.{encode}
use pylogstream.Text.Split.{join}
use pylogstream.Text.Decimal.{show_ℤ, show_ℕ}
use pylogstream.Text.Words.{to_bytes, from_bytes}
use pylogstream.Protocol.Framer.{encode_frame}
use pylogstream.Log.Registry.{
  get_segment, create_segment, get_latest_offset, advance_offset, progress_state,
}
use pylogstream.Log.Registry.Valid.{IsValid, no_topics-IsValid}
use pylogstream.Log.Memory.{acquire}
use pylogstream.Log.Entry.{new_entry, read_bytes}
use pylogstream.Log.Writer.Offsets.{EndsAt}
use pylogstream.Log.Writer.Batches.{end}
use pylogstream.Log.Reader.{LogState}
use pylogstream.Log.Manager.{LogConfig, new_log}
use pylogstream.Replication.Leader.{ReplicaLeader}
use pylogstream.Replication.Manager.{get_leader, Role, TopicState}
use pylogstream.Network.Writer.{WriteRequest, payloads, flush_batch}
use pylogstream.Network.Writer.Acks.{placed, flush_batch_lem}
use pylogstream.Network.Broker.{Broker, Channel, Write, Next, pull}
use pylogstream.Network.Broker.Sent.{IsOneMore}
use pylogstream.Network.Broker.Pull.{HasRecords, IsBelow, Sends, pull_lem}
use pylogstream.Network.Dispatch.{Now, Arrival, handle_arrival, resume_write}
use pylogstream.Network.Dispatch.Answers.{handle_arrival-IsOneMore}
use pylogstream.Network.Dispatch.Acks.{IsDecided}
use pylogstream.Network.Dispatch.Resume.{resume_write_lem}
use pylogstream.Network.Dispatch.Unregistered.{handle_arrival-writer}

abbrev config : LogConfig
config = record {
  log_dir = codes "d";
  retension_ms = 0;
  rollover_ms = 1000;
  max_segment_size = 64;
  init_segment_size = 64;
  segment_size_inc = 8;
  segment_cache_size = 2;
}

abbrev empty : LogState
empty = new_log config 0 []

abbrev request : WriteRequest
request = record {
  producer_id = codes "p";
  topic = codes "t";
  payload = codes "hi";
  created_at = 0;
  callback = some 4;
}

abbrev batch : List (ℕ × WriteRequest)
batch = (0, request) ∷ (0, record request { payload = codes "a"; callback = some 5 }) ∷ []

abbrev log : LogState
log = (flush_batch config (codes "t") batch empty).1

flushes : flush_batch config (codes "t") batch empty ≡ (ok ((4, 0) ∷ (5, 6) ∷ []), log)
unfolding flush_batch get put get_segment create_segment to_bytes acquire new_entry advance_offset
    progress_state show_ℕ new_log
flushes = refl

no_topic : get empty.registry.registry (codes "t") ≡ none
unfolding get new_log
no_topic = refl

empty-IsValid : IsValid empty.registry
unfolding new_log
empty-IsValid = no_topics-IsValid (codes "d") 0

flush_batch_lem_example :
    ((4, 0) ∷ (5, 6) ∷ [] ≡ placed 0 batch)
    × EndsAt log.registry (codes "t") (end 0 (payloads batch))
    × IsValid log.registry
flush_batch_lem_example =
    flush_batch_lem config (codes "t") batch empty log 0 ((4, 0) ∷ (5, 6) ∷ []) empty-IsValid
      (inr (no_topic, refl)) flushes

abbrev leader : ReplicaLeader
leader = record {
  topic = codes "t";
  id = codes "a";
  replica_list = codes "a" ∷ [];
  min_isr_count = 1;
  max_isr_lag_ms = 10;
  in_sync_replica = codes "a" ∷ [];
  replica_offset = [];
  hw_waiter_queue = [];
  high_watermark = pos 0;
  replica_last_caugthup = [];
}

abbrev state : TopicState
state = record {
  topic = codes "t";
  role = Role.leader;
  leader_id = codes "a";
  leader_addr = codes "h";
  leader_port = pos 9;
  replicas = codes "a" ∷ [];
  version = pos 1;
  leader = some leader;
  fetcher = none;
  loop_task = true;
  running = true;
}

abbrev pub broker : Broker
broker = record {
  checksum_enable = false;
  replicas = record {
    broker_id = codes "a";
    min_isr_count = 1;
    max_isr_lag_ms = 10;
    topics = (codes "t", state) ∷ [];
    log = log;
    told = [];
  };
  writer = record { collectors = []; jobs = []; running = true };
  client_heartbeats = [];
  next_future = 0;
  sent = [];
}

abbrev pulled : Broker
pulled = (pull 1 Channel.whole (codes "x") (codes "t") (pos 6) (pos 100) broker).1

pulls :
    pull 1 Channel.whole (codes "x") (codes "t") (pos 6) (pos 100) broker
    ≡ (ok (Next.go_on (some (codes "x"))), pulled)
unfolding pull get_latest_offset get flush_batch get_segment new_log create_segment to_bytes acquire
    new_entry advance_offset put show_ℕ remove ◌-ℤ◌ ◌+ℤ◌ read_bytes from_bytes encode join show_ℤ
    encode_frame
pulls = refl

pull_lem_example :
    Sends 1 Channel.whole (λ r. HasRecords r → IsBelow (codes "t") (pos 6) broker) broker pulled
pull_lem_example =
    pull_lem 1 Channel.whole (codes "x") (codes "t") (pos 6) (pos 100) broker pulled
      (Next.go_on (some (codes "x"))) pulls

abbrev write : Write
write = record { client_id = codes "x"; topic = codes "t"; acks = negsuc 0; committed = none }

abbrev after : Broker
after = (resume_write 1 Channel.whole write 6 leader broker).1

leads : get_leader write.topic broker.replicas ≡ ok leader
unfolding get_leader get
leads = refl

acknowledges :
    resume_write 1 Channel.whole write 6 leader broker ≡ (ok (Next.go_on (some (codes "x"))), after)
unfolding resume_write get_latest_offset get flush_batch get_segment new_log create_segment to_bytes
    acquire new_entry advance_offset put show_ℕ encode join show_ℤ encode_frame
acknowledges = refl

resume_write_lem_example :
    (m : ReplicaLeader) × (get_leader (codes "t") after.replicas ≡ ok m)
    × IsDecided 1 Channel.whole write 6 leader m (Next.go_on (some (codes "x"))) broker after
resume_write_lem_example =
    resume_write_lem 1 Channel.whole write 6 leader broker after (Next.go_on (some (codes "x")))
      leads acknowledges

abbrev now : Now
now = record { time = 3; stamp = codes "3.5"; new_id = codes "u"; asked = none }

-- A publish command of a connection without an id.
abbrev publish_frame : Arrival
publish_frame = Arrival.frame (codes "PUB t 0 hi")

handle_arrival-IsOneMore_example :
    IsOneMore 1 broker.sent
      (handle_arrival 1 Channel.whole now (some (codes "x")) publish_frame broker).1.sent
handle_arrival-IsOneMore_example =
    handle_arrival-IsOneMore 1 Channel.whole now (some (codes "x")) publish_frame broker

handle_arrival-writer_example :
    (handle_arrival 1 Channel.whole now none publish_frame broker).1.writer ≡ broker.writer
handle_arrival-writer_example = handle_arrival-writer 1 Channel.whole now publish_frame broker
