-- ===== src/Replication/Tests.antt =====
-- A leader with two followers, and a broker that gets metadata: the theorems at them.
mod Metadata
use pylogstream.Prelude.{
  ℕ, ◌+◌, ◌≤◌, ◌≡◌, ap, ◌≢◌, ◌⊎◌, refl, true, false, Bool, [], ◌∷◌, ◌++◌, List, none, some, Result,
  ok, err, Error, ℤ, pos, ◌≤ℤ◌, ◌-ℤ◌, arith, length, min, max, eqb_ℤ, if◌then◌else◌, text_eq,
}
use pylogstream.Prelude.Dict.{get, put}
use pylogstream.Prelude.Exec.{Done}
use pylogstream.Text.{Text, codes}
use pylogstream.Metastore.Ring.{contains}
use pylogstream.Log.Segment.{SegmentMeta, SegmentState}
use pylogstream.Log.Registry.{get_latest_offset}
use pylogstream.Log.Reader.{LogState}
use pylogstream.Replication.InSync.{remove_name, sort_by, reverse_onto, fill, eligible}
use pylogstream.Replication.InSync.Closest.{closest, IsAscending}
use pylogstream.Replication.Waiters.{heappush, heappop}
use pylogstream.Replication.Leader.{
  ReplicaLeader, lag, offset_of, get_log_end_offset, get_high_watermark, update_isr,
  notify_hw_waiters, is_due, handle, Served,
}
use pylogstream.Replication.Leader.Fetch.{handle-progress, handle_caught_up}
use pylogstream.Replication.Fetcher.{read_fetched}
use pylogstream.Replication.Fetcher.Answer.{read_fetched-encode_response}
use pylogstream.Protocol.Packets.{Command, Response, FetchHeader, EncodedFrame}
use pylogstream.Text.Utf8.{encode}
use pylogstream.Text.Split.{join}
use pylogstream.Text.Decimal.{show_ℤ}
use pylogstream.Text.Words.{to_bytes}
use pylogstream.Protocol.Framer.{encode_frame}
use pylogstream.Protocol.Encoder.Responses.{encode_response}
use pylogstream.Replication.Leader.Isr.{
  expected_isr, update_isr_lem, update_isr-near, update_isr-length,
}
use pylogstream.Replication.Leader.Watermark.{get_high_watermark_lem}
use pylogstream.Replication.Leader.Notify.{IsNotified, notify_hw_waiters_lem}

abbrev pub a : Text
a = codes "a"

abbrev pub b : Text
b = codes "b"

abbrev pub c : Text
c = codes "c"

abbrev pub segment : SegmentMeta
segment = record {
  topic = codes "t";
  base_offset = 0;
  path = codes "f";
  state = SegmentState.active;
  created_at = 0;
  size = 6;
}

abbrev pub log : LogState
log = record {
  registry = record {
    log_dir = codes "d";
    loaded_at = 0;
    registry = (codes "t", segment ∷ []) ∷ [];
  };
  memory = record {
    files = [];
    entries = [];
    cache = [];
    cleanup_queue = [];
    capacity = 1;
    init_segment_size = 4;
    segment_size_inc = 1;
  };
}

-- `b` was caught up at 5, and `c` never.
abbrev leader : ReplicaLeader
leader = record {
  topic = codes "t";
  id = a;
  replica_list = a ∷ b ∷ c ∷ [];
  min_isr_count = 2;
  max_isr_lag_ms = 10;
  in_sync_replica = a ∷ b ∷ [];
  replica_offset = (a, pos 6) ∷ (b, pos 4) ∷ [];
  hw_waiter_queue =
      record { offset = pos 2; future = 7 } ∷ record { offset = pos 5; future = 8 } ∷ [];
  high_watermark = pos 0;
  replica_last_caugthup = (b, 5) ∷ [];
}

others : remove_name a (a ∷ b ∷ c ∷ []) ≡ ok (b ∷ c ∷ [])
unfolding remove_name
others = refl

-- At 20 both lag too much, and the minimum brings `b` in.
update_isr_late : (update_isr 20 leader).1.in_sync_replica ≡ a ∷ b ∷ []
unfolding update_isr get ◌-ℤ◌
update_isr_late = refl

update_isr_lem_example :
    (update_isr 20 leader
      ≡ (ok tt, record leader { in_sync_replica = expected_isr leader 20 (b ∷ c ∷ []) }))
    × IsAscending (lag leader 20) (closest (lag leader 20) (b ∷ c ∷ []))
update_isr_lem_example = update_isr_lem leader 20 (b ∷ c ∷ []) others

leader_listed : contains a (a ∷ b ∷ c ∷ []) ≡ true
unfolding contains
leader_listed = refl

c_listed : contains c (a ∷ b ∷ c ∷ []) ≡ true
unfolding contains
c_listed = refl

c_near : lag leader 8 c ≤ℤ pos 10
unfolding lag get ◌-ℤ◌
c_near = omega arith

-- At 8 also `c` is near.
update_isr-near_example : contains c (update_isr 8 leader).1.in_sync_replica ≡ true
update_isr-near_example = update_isr-near leader 8 leader_listed c c_listed c_near

update_isr-length_example :
    (min 3 (max 1 2) ≤ length (update_isr 20 leader).1.in_sync_replica)
    × (length (update_isr 20 leader).1.in_sync_replica ≤ 3)
update_isr-length_example = update_isr-length leader 20 leader_listed

abbrev first : Text → ℕ
first [] = 0
first (x ∷ xs) = x

c-ne-b : c ≢ b
c-ne-b e = absurd (omega (arith, ap first e))

topic_found : get log.registry.registry (codes "t") ≡ some (segment ∷ [])
unfolding get
topic_found = refl

log_ends : get_log_end_offset leader log ≡ ok 6
unfolding get_log_end_offset get get_latest_offset
log_ends = refl

b_in_sync : contains b (a ∷ b ∷ []) ≡ true
unfolding contains
b_in_sync = refl

get_high_watermark_lem_example :
    (high_watermark : ℤ) × ((get_high_watermark log leader).0 ≡ ok high_watermark)
    × ((get_high_watermark log leader).1.high_watermark ≡ high_watermark)
    × (pos 0 ≤ℤ high_watermark)
    × ((high_watermark ≡ pos 0) ⊎ (high_watermark ≤ℤ offset_of (get_high_watermark log leader).1 b))
get_high_watermark_lem_example = get_high_watermark_lem log leader 6 log_ends b b_in_sync

abbrev told : ReplicaLeader
told = record leader { hw_waiter_queue = record { offset = pos 5; future = 8 } ∷ [] }

notifies : notify_hw_waiters (pos 4) leader ≡ (ok tt, (told, 7 ∷ []))
unfolding notify_hw_waiters
notifies = refl

notify_hw_waiters_lem_example :
    IsNotified (pos 4) leader.hw_waiter_queue told.hw_waiter_queue (7 ∷ [])
notify_hw_waiters_lem_example = notify_hw_waiters_lem (pos 4) leader told (7 ∷ []) notifies

-- The leader after its watermark is computed.
abbrev updated : ReplicaLeader
updated = (get_high_watermark log leader).1

watermark : get_high_watermark log leader ≡ (ok (pos 4), updated)
unfolding get_high_watermark get put get_latest_offset
watermark = refl

handle-progress_example :
    (t : Served) × ((handle
        (Command.replica_fetch (codes "t") (pos 6) (pos 9) c)
        30
        (leader, log)).1
      ≡ t)
    × (offset_of t.0 c ≡ pos 6)
    × (offset_of t.0 b ≡ offset_of updated b)
    × (get t.0.replica_last_caugthup c
        ≡ (if eqb_ℤ (pos 6) (pos 6) then some 30 else get updated.replica_last_caugthup c))
handle-progress_example =
    handle-progress leader updated log (pos 9) c 30 6 (pos 4) log_ends watermark c_listed
      (codes "t") b (pos 6) c-ne-b

handle_caught_up_example :
    (e : Error) × (t : ReplicaLeader) × (handle
        (Command.replica_fetch (codes "t") (pos 6) (pos 9) c)
        30
        (leader, log)
      ≡ (err e, (t, log)))
    × (get t.replica_last_caugthup c ≡ some 30)
handle_caught_up_example =
    handle_caught_up leader updated log (pos 9) c 30 6 (pos 4) log_ends watermark c_listed
      (segment ∷ []) topic_found tt

abbrev answer_header : FetchHeader
answer_header = record {
  topic = codes "t";
  log_end_offset = pos 6;
  high_watermark = pos 4;
  payload_length = pos 0;
}

abbrev answer_frame : EncodedFrame
answer_frame = record {
  header = 0 ∷ 0 ∷ 0 ∷ 11 ∷ codes "RPL t 6 4 2";
  payload = some (codes "hi");
  file_path = none;
  offset = none;
  length = none;
}

answer_encodes :
    encode_response
      (record { header = none; body = Response.replica_fetch_bytes answer_header (codes "hi") })
    ≡ ok answer_frame
unfolding encode_response encode join show_ℤ encode_frame to_bytes
answer_encodes = refl

read_fetched-encode_response_example :
    read_fetched (answer_frame.header ++ (codes "hi" ++ codes "rest"))
    ≡ ok (codes "hi", codes "rest")
read_fetched-encode_response_example =
    read_fetched-encode_response none answer_header (codes "hi") answer_frame (codes "rest") tt
      (omega arith) answer_encodes
