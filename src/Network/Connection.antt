-- ===== src/Network/Connection.antt =====
-- network/controller.py: a broker's connection to the controller. The tasks' waits are left out: a method
-- that waits for the connection is a step that is taken when there is one. A future is a number, and
-- `settled` has the futures with what they were set to, in order; a waiter that is cancelled while its
-- future is pending is left out.
pub mod Read
pub mod TopicList
pub mod Search
pub mod Tracked
pub mod Answered
use pylogstream.Prelude.{
  ℕ, ◌+◌, Bool, true, false, ◌&&◌, not, List, [], ◌∷◌, ◌++◌, Option, none, some, if◌then◌else◌,
  Result, ok, err, Error, ℤ, pos, negsuc, ltb_ℤ, eqb_ℤ, same, text_eq,
}
use pylogstream.Prelude.Dict.{Dict, get, put, remove}
use pylogstream.Prelude.Exec.{Done, Exec, pure, raise, outside, ◌>>=◌}
use pylogstream.Text.{Text, Bytes, codes}
use pylogstream.Protocol.Packets.{Packet, Command, Response, TopicMetaData}
use pylogstream.Protocol.Encoder.Commands.{encode_command}
use pylogstream.Replication.Manager.{ReplicaManager, apply_metadata, apply_metadata_list}

pub record ControllerAddress : Type 0 where
  pub controller_id : Text
  pub host : Text
  pub port : ℤ

-- What a future was set to: a response, or ConnectionError.
pub data Outcome : Type 0 where
  answered : Packet Response → Outcome
  lost : Outcome
  cancelled : Outcome

-- `disconnect_event` is `_conn_disconnect_event`; `sent` are the commands that were written.
pub record ControllerConnection : Type 0 where
  pub replica_manager : ReplicaManager
  pub connected : Bool
  pub reconnecting : Bool
  pub connection_id : ℕ
  pub disconnect_event : Bool
  pub pending_reads : Dict Text ℕ
  pub settled : List (ℕ × Outcome)
  pub sent : List (Packet Command)

unfoldable pub put_manager :
    {A : Type 0}
    → ControllerConnection
    → Result A × ReplicaManager
    → Result A × ControllerConnection
put_manager s (r, m) = (r, record s { replica_manager = m })

unfoldable pub on_manager : {A : Type 0} → Exec ReplicaManager A → Exec ControllerConnection A
unfolding put_manager
on_manager f s = put_manager s (f s.replica_manager)

-- The event is set, and the retry loop does the rest.
unfoldable pub handle_disconnect : Exec ControllerConnection Done
handle_disconnect s = (ok tt, if s.connected then record s { disconnect_event = true } else s)

unfoldable pub settle : ℕ → Outcome → ControllerConnection → ControllerConnection
settle future outcome s = record s { settled = s.settled ++ (future, outcome) ∷ [] }

-- The command's own header stays; one that waits for a response gets the new id otherwise.
unfoldable pub header_for : Text → Bool → Option Text → Option Text
header_for correlation_id await_response (some id) = some id
header_for correlation_id await_response none = if await_response then some correlation_id else none

unfoldable pub with_header : Text → Bool → Packet Command → Packet Command
unfolding header_for
with_header correlation_id await_response cmd = record cmd {
  header = header_for correlation_id await_response cmd.header;
}

unfoldable pub expect :
    Option Text → Bool → ℕ → ControllerConnection → Option ℕ × ControllerConnection
expect none await_response future s = (none, s)
expect (some id) await_response future s =
    if await_response
    then (some future, record s { pending_reads = put s.pending_reads id future })
    else (none, s)

unfoldable pub write_if : Bool → Packet Command → Exec ControllerConnection Done
write_if alive cmd s =
    if alive then (ok tt, record s { sent = s.sent ++ cmd ∷ [] }) else (err Error.os_error, s)

unfoldable pub write_command : Bool → Packet Command → Exec ControllerConnection Done
unfolding encode_command write_if
write_command alive cmd = do _ ← outside (encode_command cmd true); write_if alive cmd

unfoldable pub register_expected : Packet Command → Bool → ℕ → Exec ControllerConnection (Option ℕ)
unfolding expect
register_expected cmd await_response future s =
    let p = expect cmd.header await_response future s in (ok p.0, p.1)

unfoldable pub if_connected : Exec ControllerConnection Done
if_connected s = if s.connected then (ok tt, s) else (err Error.runtime_error, s)

-- `alive` tells whether the write goes out; `correlation_id` and `future` are new.
unfoldable pub send_command :
    Bool → Text → ℕ → Packet Command → Bool → Exec ControllerConnection (Option ℕ)
unfolding if_connected register_expected with_header write_command
send_command alive correlation_id future cmd await_response = do
  _ ← if_connected
  expected ← register_expected (with_header correlation_id await_response cmd) await_response future
  _ ← write_command alive (with_header correlation_id await_response cmd)
  pure expected

unfoldable pub waiting_for : Text → Option ℕ → Option (Text × ℕ)
waiting_for id none = none
waiting_for id (some future) = some (id, future)

-- A correlation id, if it is not empty, and the future that waits for it.
unfoldable pub pending_for : Option Text → Dict Text ℕ → Option (Text × ℕ)
unfolding waiting_for
pending_for none pending = none
pending_for (some []) pending = none
pending_for (some (x ∷ id)) pending = waiting_for (x ∷ id) (get pending (x ∷ id))

module _ (connect : Text → Result Done) where
  unfoldable pub handle_unsolicited : Response → Exec ControllerConnection Done
  unfolding handle_disconnect on_manager apply_metadata apply_metadata_list
  handle_unsolicited (Response.not_leader_controller _ _ _) = handle_disconnect
  handle_unsolicited (Response.topic_meta_data meta) = on_manager (apply_metadata connect meta)
  handle_unsolicited (Response.topic_meta_data_list metas) =
      on_manager (apply_metadata_list connect metas)
  handle_unsolicited _ = pure tt

  unfoldable pub handle_response :
      Packet Response → Option (Text × ℕ) → Exec ControllerConnection Done
  unfolding handle_unsolicited settle
  handle_response p none s = handle_unsolicited p.body s
  handle_response p (some (id, future)) s = (
    ok tt,
    settle future (Outcome.answered p) (record s { pending_reads = remove s.pending_reads id }),
  )

  -- A response, or the end of the connection; other exceptions are printed.
  unfoldable pub handle_reading : Result (Option (Packet Response)) → Exec ControllerConnection Done
  unfolding handle_response pending_for handle_disconnect
  handle_reading (ok (some p)) s = handle_response p (pending_for p.header s.pending_reads) s
  handle_reading (ok none) s = handle_disconnect s
  handle_reading (err Error.incomplete_read) s = handle_disconnect s
  handle_reading (err Error.os_error) s = handle_disconnect s
  handle_reading (err e) s = (ok tt, s)

  -- A round of `_reader_loop`.
  unfoldable pub reader_round :
      Result (Option (Packet Response)) → ControllerConnection → ControllerConnection
  unfolding handle_reading
  reader_round reading s = if s.connected then (handle_reading reading s).1 else s

unfoldable pub settle_all : Dict Text ℕ → Outcome → List (ℕ × Outcome)
settle_all [] outcome = []
settle_all ((_, future) ∷ d) outcome = (future, outcome) ∷ settle_all d outcome

-- The part of a round of `_connection_retry_loop` before it connects.
unfoldable pub fail_pending : ControllerConnection → ControllerConnection
unfolding settle_all
fail_pending s = record s {
  disconnect_event = false;
  reconnecting = true;
  settled = s.settled ++ settle_all s.pending_reads Outcome.lost;
  pending_reads = [];
}

-- The first response of a controller that is not refused.
unfoldable pub join : (Text → Result Done) → Option Response → Exec ControllerConnection Done
unfolding on_manager apply_metadata_list
join connect (some (Response.topic_meta_data_list metas)) =
    on_manager (apply_metadata_list connect metas)
join connect first = pure tt

-- An exception is printed, and nothing more is done before the event is set again.
unfoldable pub joined : Result Done × ControllerConnection → ControllerConnection
joined (err e, s) = s
joined (ok _, s) = record s {
  connected = true;
  reconnecting = false;
  connection_id = s.connection_id + 1;
}

-- A round of `_connection_retry_loop`, once the event is set and a controller has answered.
unfoldable pub retry_round :
    (Text → Result Done) → Option Response → ControllerConnection → ControllerConnection
unfolding fail_pending join joined
retry_round connect first s =
    if s.connected && s.disconnect_event then joined (join connect first (fail_pending s)) else s

unfoldable pub close : ControllerConnection → ControllerConnection
unfolding settle_all
close s = record s {
  connected = false;
  settled = s.settled ++ settle_all s.pending_reads Outcome.cancelled;
  pending_reads = [];
  disconnect_event = true;
}
