-- ===== src/Replication/Leader.antt =====
-- leader.py. The leader's methods look at the log too, so a method that does is one of the pair.
-- `time.time()` counts seconds; what it returns is the argument `now`.
pub mod Isr
pub mod Watermark
pub mod Static
pub mod Fetch
pub mod Notify
pub mod Waits
use pylogstream.Prelude.{
  ℕ, zero, suc, ◌+◌, ◌-◌, Bool, true, false, List, [], ◌∷◌, ◌++◌, Option, none, some, if◌then◌else◌,
  Result, ok, err, Error, ℤ, pos, ◌-ℤ◌, leb_ℤ, eqb_ℤ, min_ℤ, max_ℤ, length, same, text_eq,
}
use pylogstream.Prelude
use pylogstream.Prelude.Dict.{Dict, get, put}
use pylogstream.Prelude.Exec.{Done, Exec, pure, raise, outside, ◌>>=◌}
use pylogstream.Text.{Text}
use pylogstream.Protocol.Packets.{Command, Response, FetchHeader}
use pylogstream.Log.Registry.{get_latest_offset}
use pylogstream.Log.Memory.{release_entry}
use pylogstream.Log.Reader.{LogState, read, read_bytes}
use pylogstream.Metastore.Ring.{contains}
use pylogstream.Replication.Waiters.{Waiter, Heap, heappush, heappop}
use pylogstream.Replication.InSync.{remove_name, sort_by, reverse_onto, fill, eligible}

-- A missing key of the two `defaultdict`s counts as 0; that reading one puts it there is not seen.
pub record ReplicaLeader : Type 0 where
  pub topic : Text
  pub id : Text
  pub replica_list : List Text
  pub min_isr_count : ℕ
  pub max_isr_lag_ms : ℕ
  pub in_sync_replica : List Text
  pub replica_offset : Dict Text ℤ
  pub hw_waiter_queue : List Waiter
  pub high_watermark : ℤ
  pub replica_last_caugthup : Dict Text ℕ

abbrev pub Served : Type 0
Served = ReplicaLeader × LogState

unfoldable pub or_zero : Option ℤ → ℤ
or_zero none = pos 0
or_zero (some offset) = offset

unfoldable pub offset_of : ReplicaLeader → Text → ℤ
unfolding or_zero
offset_of l replica = or_zero (get l.replica_offset replica)

unfoldable pub seconds_of : Option ℕ → ℕ
seconds_of none = 0
seconds_of (some time) = time

-- current_time - self.replica_last_caugthup[replica_id]
unfoldable pub lag : ReplicaLeader → ℕ → Text → ℤ
unfolding seconds_of
lag l now replica = pos now -ℤ pos (seconds_of (get l.replica_last_caugthup replica))

unfoldable pub get_log_end_offset : ReplicaLeader → LogState → Result ℕ
get_log_end_offset l log = get_latest_offset log.registry l.topic

-- `min` over a list that is not empty
unfoldable pub least : (Text → ℤ) → Text → List Text → ℤ
least f r [] = f r
least f r (s ∷ rs) = min_ℤ (f r) (least f s rs)

unfoldable pub set_offset : ReplicaLeader → Text → ℤ → ReplicaLeader
set_offset l replica offset = record l { replica_offset = put l.replica_offset replica offset }

unfoldable pub least_in_sync : List Text → ReplicaLeader → Result ℕ → Result ℤ × ReplicaLeader
unfolding least offset_of set_offset
least_in_sync [] l leo = (ok (pos 0), l)
least_in_sync (r ∷ rs) l (err e) = (err e, l)
least_in_sync (r ∷ rs) l (ok leo) =
    let updated = set_offset l l.id (pos leo) in (ok (least (offset_of updated) r rs), updated)

unfoldable pub compute_high_watermark : LogState → Exec ReplicaLeader ℤ
unfolding least_in_sync get_log_end_offset
compute_high_watermark log l = least_in_sync l.in_sync_replica l (get_log_end_offset l log)

unfoldable pub raise_watermark : ℤ → Exec ReplicaLeader ℤ
raise_watermark computed l =
    let high_watermark = max_ℤ l.high_watermark computed in
    (ok high_watermark, record l { high_watermark = high_watermark })

unfoldable pub get_high_watermark : LogState → Exec ReplicaLeader ℤ
unfolding compute_high_watermark raise_watermark
get_high_watermark log = do computed ← compute_high_watermark log; raise_watermark computed

unfoldable pub started : Result ℤ × ReplicaLeader → Result ReplicaLeader
started (err e, l) = err e
started (ok computed, l) = ok (record l { high_watermark = computed })

-- Only the leader is in sync, and its offset is the end of its log.
unfoldable pub fresh : Text → Text → List Text → ℕ → ℕ → ℕ → ReplicaLeader
fresh topic id replica_list min_isr_count max_isr_lag_ms leo = record {
  topic = topic;
  id = id;
  replica_list = replica_list;
  min_isr_count = min_isr_count;
  max_isr_lag_ms = max_isr_lag_ms;
  in_sync_replica = id ∷ [];
  replica_offset = (id, pos leo) ∷ [];
  hw_waiter_queue = [];
  high_watermark = pos 0;
  replica_last_caugthup = [];
}

unfoldable pub start_at :
    Text → Text → List Text → ℕ → ℕ → LogState → Result ℕ → Result ReplicaLeader
unfolding started compute_high_watermark fresh
start_at topic id replica_list min_isr_count max_isr_lag_ms log (err e) = err e
start_at topic id replica_list min_isr_count max_isr_lag_ms log (ok leo) =
    started
      (compute_high_watermark log (fresh topic id replica_list min_isr_count max_isr_lag_ms leo))

unfoldable pub new_leader : Text → Text → List Text → ℕ → ℕ → LogState → Result ReplicaLeader
unfolding start_at
new_leader topic id replica_list min_isr_count max_isr_lag_ms log =
    start_at topic id replica_list min_isr_count max_isr_lag_ms log
      (get_latest_offset log.registry topic)

unfoldable pub on_leader : {A : Type 0} → (LogState → Exec ReplicaLeader A) → Exec Served A
on_leader f (l, log) = let p = f log l in (p.0, (p.1, log))

unfoldable pub on_log : {A : Type 0} → Exec LogState A → Exec Served A
on_log f (l, log) = let p = f log in (p.0, (l, p.1))

-- Has the replica everything, and what has it asked for?
unfoldable pub note_progress : Text → ℤ → ℕ → ℕ → LogState → Exec ReplicaLeader Done
unfolding set_offset
note_progress replica_id offset leo now log l =
    let seen =
      if eqb_ℤ offset (pos leo)
      then record l { replica_last_caugthup = put l.replica_last_caugthup replica_id now }
      else l in
    (ok tt, set_offset seen replica_id offset)

unfoldable pub header : Text → ℕ → ℤ → ℕ → FetchHeader
header topic leo high_watermark payload_length = record {
  topic = topic;
  log_end_offset = pos leo;
  high_watermark = high_watermark;
  payload_length = pos payload_length;
}

unfoldable pub release_handle : ℕ → Exec LogState Done
release_handle handle log = (ok tt, record log { memory = release_entry handle log.memory })

unfoldable pub answer_bytes : Text → ℤ → ℤ → ℕ → ℤ → Exec LogState Response
unfolding header
answer_bytes topic offset size leo high_watermark = do
  res ← read_bytes topic offset size
  pure (
      Response.replica_fetch_bytes (header topic leo high_watermark (length res.payload))
        res.payload)

-- `with` gives the file's handle back before the answer is sent.
unfoldable pub answer_file : Text → ℤ → ℤ → ℕ → ℤ → Exec LogState Response
unfolding header release_handle
answer_file topic offset size leo high_watermark = do
  res ← read topic offset size
  _ ← release_handle res.handle
  pure (
      Response.replica_fetch_file (header topic leo high_watermark res.file_slice.batch_size)
        res.file_slice.filepath res.file_slice.offset (pos res.file_slice.batch_size))

unfoldable pub answer : Text → ℤ → ℤ → ℕ → ℤ → Exec LogState Response
unfolding answer_bytes answer_file
answer topic offset size leo high_watermark =
    if leb_ℤ size (pos 1024)
    then answer_bytes topic offset size leo high_watermark
    else answer_file topic offset size leo high_watermark

unfoldable pub look_at_end : LogState → Exec ReplicaLeader ℕ
unfolding get_log_end_offset
look_at_end log l = (get_log_end_offset l log, l)

unfoldable pub serve : Text → ℤ → ℤ → Text → ℕ → Exec Served Response
unfolding on_leader on_log look_at_end get_high_watermark note_progress answer
serve topic offset size replica_id now = do
  leo ← on_leader look_at_end
  high_watermark ← on_leader get_high_watermark
  _ ← on_leader (note_progress replica_id offset leo now)
  on_log (answer topic offset size leo high_watermark)

unfoldable pub handle : Command → ℕ → Exec Served Response
unfolding serve contains
handle (Command.replica_fetch topic offset size replica_id) now s =
    if contains replica_id s.0.replica_list
    then serve topic offset size replica_id now s
    else (err Error.unauthorised_replica, s)
handle _ now s = (err Error.exception, s)

-- What a caller of `wait_for_hw` does: it goes on, or it waits for its future.
pub data Wait : Type 0 where
  reached : Wait
  waits_for : ℕ → Wait

unfoldable pub put_queue : {A : Type 0} → ReplicaLeader → Result A × Heap → Result A × ReplicaLeader
put_queue l (r, queue) = (r, record l { hw_waiter_queue = queue })

unfoldable pub on_queue : {A : Type 0} → Exec Heap A → Exec ReplicaLeader A
unfolding put_queue
on_queue f l = put_queue l (f l.hw_waiter_queue)

unfoldable pub wait_until : ℤ → ℕ → ℤ → Exec ReplicaLeader Wait
unfolding on_queue heappush
wait_until offset future high_watermark =
    if leb_ℤ offset high_watermark then pure Wait.reached else do
      _ ← on_queue (heappush (record { offset = offset; future = future }))
      pure (Wait.waits_for future)

-- `future` is the one that the event loop creates.
unfoldable pub wait_for_hw : ℤ → ℕ → LogState → Exec ReplicaLeader Wait
unfolding get_high_watermark wait_until
wait_for_hw offset future log = do
  high_watermark ← get_high_watermark log
  wait_until offset future high_watermark

futures : List Waiter → List ℕ
futures [] = []
futures (w ∷ ws) = w.future ∷ futures ws

-- The futures that get the exception; the queue stays as it is.
unfoldable pub close : ReplicaLeader → List ℕ
unfolding futures
close l = futures l.hw_waiter_queue

-- `len(queue) > 0 and queue[0][0] <= high_watermark`
unfoldable pub is_due : ℤ → Heap → Bool
is_due high_watermark [] = false
is_due high_watermark (w ∷ ws) = leb_ℤ w.offset high_watermark

-- The queue, and the futures that are set to `True`, the last one first.
abbrev pub Notifying : Type 0
Notifying = Heap × List ℕ

unfoldable pub set_result : Result Waiter × Heap → List ℕ → Result Done × Notifying
set_result (err e, queue) told = (err e, (queue, told))
set_result (ok w, queue) told = (ok tt, (queue, w.future ∷ told))

unfoldable pub notify_next : Exec Notifying Done
unfolding set_result heappop
notify_next (queue, told) = set_result (heappop queue) told

-- Each round takes one waiter off, so their number is enough fuel.
unfoldable pub notify_loop : ℕ → ℤ → Exec Notifying Done
unfolding notify_next is_due
notify_loop zero high_watermark s = (ok tt, s)
notify_loop (suc fuel) high_watermark s =
    let round = (do _ ← notify_next; notify_loop fuel high_watermark) in
    if is_due high_watermark s.0 then round s else (ok tt, s)

unfoldable pub told_of :
    ReplicaLeader → Result Done × Notifying → Result Done × (ReplicaLeader × List ℕ)
told_of l (r, (queue, told)) = (r, (record l { hw_waiter_queue = queue }, told))

unfoldable pub notify_hw_waiters : ℤ → ReplicaLeader → Result Done × (ReplicaLeader × List ℕ)
unfolding told_of notify_loop
notify_hw_waiters high_watermark l =
    told_of l (notify_loop (length l.hw_waiter_queue) high_watermark (l.hw_waiter_queue, []))

unfoldable pub new_isr : ReplicaLeader → ℕ → List Text → List Text
unfolding sort_by fill eligible reverse_onto lag
new_isr l now others =
    let split = fill (reverse_onto (sort_by (lag l now) others) []) (l.min_isr_count - 1) in
    l.id ∷ split.0 ++ eligible (λ r. leb_ℤ (lag l now r) (pos l.max_isr_lag_ms)) split.1

unfoldable pub with_isr : ReplicaLeader → ℕ → Result (List Text) → Result Done × ReplicaLeader
unfolding new_isr
with_isr l now (err e) = (err e, l)
with_isr l now (ok others) = (ok tt, record l { in_sync_replica = new_isr l now others })

unfoldable pub update_isr : ℕ → Exec ReplicaLeader Done
unfolding with_isr remove_name
update_isr now l = with_isr l now (remove_name l.id l.replica_list)
