-- ===== src/Network/Dispatch.antt =====
-- network/broker.py: the rounds of `handle_client`, and what follows its waits.
pub mod Answers
pub mod Acks
pub mod Resume
pub mod Unregistered
use pylogstream.Prelude.{
  ℕ, ◌+◌, Bool, true, false, List, [], ◌∷◌, ◌++◌, Option, none, some, if◌then◌else◌, Result, ok,
  err, Error, ℤ, pos, negsuc, eqb_ℤ, not, text_eq,
}
use pylogstream.Prelude.Dict.{Dict, get, put}
use pylogstream.Prelude.Exec.{Done, Exec, pure, raise, outside, ◌>>=◌}
use pylogstream.Text.{Text, Bytes, codes}
use pylogstream.Protocol.Packets.{Packet, Command, Response}
use pylogstream.Protocol.Parser.Commands.{parse_command}
use pylogstream.Log.Reader.{LogState}
use pylogstream.Replication.Leader.{ReplicaLeader, Wait, wait_for_hw}
use pylogstream.Replication.Manager
use pylogstream.Network.Broker.{
  Broker, Channel, put_leader, Write, Next, on_replicas, beat, send_packet, send_response, respond,
  pull, publish, commit, acknowledge,
}

-- What comes of a call of the controller's connection, if there is one: the response, if any.
abbrev pub Asked : Type 0
Asked = Option (Result (Option (Packet Response)))

-- A command's parameters: the time and its text, a new client id, and what the controller answers.
pub record Now : Type 0 where
  pub time : ℕ
  pub stamp : Text
  pub new_id : Text
  pub asked : Asked

-- What a wait for the next frame ends with; after an incomplete one, whether the stream is at its end.
pub data Arrival : Type 0 where
  frame : Bytes → Arrival
  incomplete : (at_eof : Bool) → Arrival
  timed_out reset failed : Arrival

-- A broker, and the leader that a write has found before it waited.
abbrev pub Waiting : Type 0
Waiting = ReplicaLeader × Broker

unfoldable pub heard : Text → ℕ → Exec Broker Done
unfolding beat
heard client_id now b = (ok tt, beat client_id now b)

unfoldable pub server_error : Text → Response
server_error message = Response.error (pos 500) message

unfoldable pub refusal : ℤ → Text → Response
refusal code message = Response.error code message

module _ (c : ℕ) (channel : Channel) where
  unfoldable pub answer_asked : Text → Asked → Exec Broker Done
  unfolding server_error send_response send_packet
  answer_asked failure none =
      send_response c channel (server_error (codes "Controller not connected"))
  answer_asked failure (some (err e)) = raise e
  answer_asked failure (some (ok none)) = send_response c channel (server_error failure)
  answer_asked failure (some (ok (some resp))) = send_packet c channel resp

  -- Any exception ends the connection.
  unfoldable pub answer_replica : Option Text → Result Response × Broker → Result Next × Broker
  unfolding send_response
  answer_replica id (err e, b) = (ok Next.stop, b)
  answer_replica id (ok resp, b) = (do _ ← send_response c channel resp; pure (Next.go_on id)) b

  -- The commands of a client that has an id.
  unfoldable pub handle_registered : Now → Text → Command → Exec Broker Next
  unfolding heard respond pull publish commit refusal
  handle_registered now id cmd = elim cmd [
    | Command.subscribe _ ↦ pure (Next.go_on (some id))
    | Command.pull topic offset size ↦ pull c channel id topic offset size
    | Command.fetch_offset topic ↦ respond c channel id (Response.fetch_offset topic (pos 0))
    | Command.commit_offset topic offset acks ↦
        commit c channel now.time now.stamp id topic offset acks
    | Command.publish topic payload acks _ ↦ publish c channel now.time id topic payload acks
    | Command.ping ↦ (do _ ← heard id now.time; respond c channel id Response.ping)
    | _ ↦ respond c channel id (refusal (pos 403) (codes "Unimplemented command"))
  ]

  unfoldable pub handle_by_id : Now → Option Text → Command → Exec Broker Next
  unfolding handle_registered
  handle_by_id now none cmd = pure Next.stop
  handle_by_id now (some id) cmd = handle_registered now id cmd

  unfoldable pub handle_command : Now → Option Text → Command → Exec Broker Next
  unfolding on_replicas answer_replica answer_asked heard send_response handle_by_id Manager.handle
  handle_command now id (Command.replica_fetch topic offset size replica_id) b = answer_replica id (
      on_replicas
        (Manager.handle topic (Command.replica_fetch topic offset size replica_id) now.time) b)
  handle_command now id (Command.register_topic topic) b =
      (do _ ← answer_asked (codes "Failed to register topic") now.asked; pure (Next.go_on id)) b
  handle_command now id (Command.metadata_request topic) b =
      (do _ ← answer_asked (codes "Failed to get metadata") now.asked; pure (Next.go_on id)) b
  handle_command now id Command.register b =
      (do
        _ ← heard now.new_id now.time
        _ ← send_response c channel (Response.client_id now.new_id)
        pure (Next.go_on (some now.new_id)))
        b
  handle_command now id (Command.client_id new) b =
      (do _ ← heard new now.time; pure (Next.go_on (some new))) b
  handle_command now id cmd b = handle_by_id now id cmd b

  unfoldable pub refuse : ℤ → Text → Exec Broker Next
  unfolding send_response refusal
  refuse code message = do _ ← send_response c channel (refusal code message); pure Next.stop

  unfoldable pub handle_parsed : Now → Option Text → Result (Packet Command) → Exec Broker Next
  unfolding handle_command refuse
  handle_parsed now id (ok p) = handle_command now id p.body
  handle_parsed now id (err Error.checksum_failed) = refuse (pos 400) (codes "Checksum failed")
  handle_parsed now id (err Error.unknown_command) = refuse (pos 400) (codes "Unknown command")
  handle_parsed now id (err e) = raise e

  -- A round of `handle_client`.
  unfoldable pub handle_arrival : Now → Option Text → Arrival → Exec Broker Next
  unfolding handle_parsed refuse parse_command
  handle_arrival now id (Arrival.frame bytes) b =
      handle_parsed now id (parse_command bytes b.checksum_enable) b
  handle_arrival now id (Arrival.incomplete true) b = (ok Next.stop, b)
  handle_arrival now id (Arrival.incomplete false) b = refuse (pos 408) (codes "Request timeout") b
  handle_arrival now id Arrival.timed_out b = refuse (pos 408) (codes "Request timeout") b
  handle_arrival now id Arrival.reset b = (ok Next.stop, b)
  handle_arrival now id Arrival.failed b = (ok Next.stop, b)

  -- The leader's answer, of a wait for the record at `offset`.
  unfoldable pub on_wait : Write → ℕ → Result Wait × ReplicaLeader → Broker → Result Next × Waiting
  unfolding acknowledge
  on_wait w offset (err e, l) b = (err e, (l, b))
  on_wait w offset (ok Wait.reached, l) b =
      let p = acknowledge c channel w offset b in (p.0, (l, p.1))
  on_wait w offset (ok (Wait.waits_for future), l) b = (
    ok (Next.waits_replicated w offset future),
    (l, record b { next_future = b.next_future + 1 }),
  )

  -- The future of a write is set to its record's offset. Where all replicas in sync are to have it, the
  -- leader is asked first.
  unfoldable pub written : Write → ℕ → Exec Waiting Next
  unfolding on_wait acknowledge wait_for_hw
  written w offset (l, b) =
      let asked = on_wait w offset (wait_for_hw (pos offset) b.next_future b.replicas.log l) b in
      let p = acknowledge c channel w offset b in
      if eqb_ℤ w.acks (negsuc 0) then asked else (p.0, (l, p.1))

  unfoldable pub put_waiting : Text → Result Next × Waiting → Result Next × Broker
  unfolding put_leader
  put_waiting topic (r, (l, b)) = put_leader topic (get b.replicas.topics topic) b (r, l)

  -- The same, where the leader `l` that the write has found is still the one that the manager has for the
  -- topic: it is changed there. Where it was replaced in between, `written` changes the old object only.
  unfoldable pub resume_write : Write → ℕ → ReplicaLeader → Exec Broker Next
  unfolding put_waiting written
  resume_write w offset l b = put_waiting w.topic (written w offset (l, b))

  -- The future of a waiter is set, or its leader was closed.
  unfoldable pub replicated : Write → ℕ → Result Done → Exec Broker Next
  unfolding acknowledge
  replicated w offset (err e) = raise e
  replicated w offset (ok _) = acknowledge c channel w offset
