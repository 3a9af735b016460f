-- ===== src/Network/Dispatch/Answers.antt =====
-- network/broker.py: each round of a connection sends at most one response.
use pylogstream.Prelude.{
  subst, ℕ, ◌≡◌, refl, true, false, inl, Option, none, some, Result, ok, err, Error, ℤ, pos,
}
use pylogstream.Prelude.Exec.{Exec, Done, pure, ◌>>=◌}
use pylogstream.Prelude.Keeps.{Keeps, pure-Keeps}
use pylogstream.Text.{Text, codes}
use pylogstream.Protocol.Packets.{Packet, Command, Response}
use pylogstream.Protocol.Parser.Commands.{parse_command}
use pylogstream.Replication.Manager
use pylogstream.Network.Broker.{Broker, Channel, Next, on_replicas, beat}
use pylogstream.Network.Broker.Sent.{
  sent_of, IsOneMore, SendsOne, quiet-SendsOne, then_quiet, quiet_then, send_response-SendsOne,
  send_packet-SendsOne,
}
use pylogstream.Network.Broker.Commands.{
  on_replicas-Keeps, respond-SendsOne, pull-SendsOne, publish-SendsOne, commit-SendsOne,
}
use pylogstream.Network.Dispatch.{
  Now, Asked, Arrival, heard, server_error, refusal, answer_asked, answer_replica,
  handle_registered, handle_by_id, handle_command, refuse, handle_parsed, handle_arrival,
}

heard-Keeps : (id : Text) (now : ℕ) → Keeps sent_of (heard id now)
unfolding heard beat
heard-Keeps id now = record { kept = λ b. refl }

module _ (c : ℕ) (channel : Channel) where
  answer_asked-SendsOne :
      (failure : Text) (asked : Asked) → SendsOne c (answer_asked c channel failure asked)
  unfolding answer_asked
  answer_asked-SendsOne failure none =
      send_response-SendsOne c channel (server_error (codes "Controller not connected"))
  answer_asked-SendsOne failure (some (err e)) = record { one = λ b. inl refl }
  answer_asked-SendsOne failure (some (ok none)) =
      send_response-SendsOne c channel (server_error failure)
  answer_asked-SendsOne failure (some (ok (some p))) = send_packet-SendsOne c channel p

  then_go_on :
      {f : Exec Broker Done} (id : Option Text)
      → SendsOne c f
      → SendsOne c (f >>= λ _. pure (Next.go_on id))
  then_go_on id s = then_quiet c s (λ _. pure-Keeps sent_of (Next.go_on id))

  answer_replica-sent :
      (id : Option Text) (old : Broker) (r : Result Response) (b : Broker)
      → b.sent ≡ old.sent
      → IsOneMore c old.sent (answer_replica c channel id (r, b)).1.sent
  unfolding answer_replica
  answer_replica-sent id old (err e) b h = inl h
  answer_replica-sent id old (ok r) b h =
      subst (λ l. IsOneMore c l (answer_replica c channel id (ok r, b)).1.sent) h
        ((then_go_on id (send_response-SendsOne c channel r)).one b)

  handle_registered-SendsOne :
      (now : Now) (id : Text) (cmd : Command) → SendsOne c (handle_registered c channel now id cmd)
  unfolding handle_registered
  handle_registered-SendsOne now id (Command.subscribe _) =
      quiet-SendsOne c (pure-Keeps sent_of (Next.go_on (some id)))
  handle_registered-SendsOne now id (Command.pull topic offset size) =
      pull-SendsOne c channel id topic offset size
  handle_registered-SendsOne now id (Command.fetch_offset topic) =
      respond-SendsOne c channel id (Response.fetch_offset topic (pos 0))
  handle_registered-SendsOne now id (Command.commit_offset topic offset acks) =
      commit-SendsOne c channel now.time now.stamp id topic offset acks
  handle_registered-SendsOne now id (Command.publish topic payload acks _) =
      publish-SendsOne c channel now.time id topic payload acks
  handle_registered-SendsOne now id Command.ping =
      quiet_then c (heard-Keeps id now.time) (λ _. respond-SendsOne c channel id Response.ping)
  handle_registered-SendsOne now id _ =
      respond-SendsOne c channel id (refusal (pos 403) (codes "Unimplemented command"))

  handle_by_id-SendsOne :
      (now : Now) (id : Option Text) (cmd : Command)
      → SendsOne c (handle_by_id c channel now id cmd)
  unfolding handle_by_id
  handle_by_id-SendsOne now none cmd = quiet-SendsOne c (pure-Keeps sent_of Next.stop)
  handle_by_id-SendsOne now (some id) cmd = handle_registered-SendsOne now id cmd

  handle_command-one :
      (now : Now) (id : Option Text) (cmd : Command) (b : Broker)
      → IsOneMore c b.sent (handle_command c channel now id cmd b).1.sent
  unfolding handle_command
  handle_command-one now id (Command.replica_fetch topic offset size replica_id) b =
      let f = Manager.handle topic (Command.replica_fetch topic offset size replica_id) now.time in
      let p = on_replicas f b in answer_replica-sent id b p.0 p.1 ((on_replicas-Keeps f).kept b)
  handle_command-one now id (Command.register_topic topic) b =
      (then_go_on id (answer_asked-SendsOne (codes "Failed to register topic") now.asked)).one b
  handle_command-one now id (Command.metadata_request topic) b =
      (then_go_on id (answer_asked-SendsOne (codes "Failed to get metadata") now.asked)).one b
  handle_command-one now id Command.register b =
      (quiet_then c (heard-Keeps now.new_id now.time) (λ _.
          then_go_on (some now.new_id)
            (send_response-SendsOne c channel (Response.client_id now.new_id)))).one
        b
  handle_command-one now id (Command.client_id new) b = inl ((heard-Keeps new now.time).kept b)
  handle_command-one now id cmd b = (handle_by_id-SendsOne now id cmd).one b

  refuse-SendsOne : (code : ℤ) (message : Text) → SendsOne c (refuse c channel code message)
  unfolding refuse
  refuse-SendsOne code message =
      then_quiet c (send_response-SendsOne c channel (refusal code message))
        (λ _. pure-Keeps sent_of Next.stop)

  handle_parsed-one :
      (now : Now) (id : Option Text) (r : Result (Packet Command)) (b : Broker)
      → IsOneMore c b.sent (handle_parsed c channel now id r b).1.sent
  unfolding handle_parsed
  handle_parsed-one now id (ok p) b = handle_command-one now id p.body b
  handle_parsed-one now id (err Error.checksum_failed) b =
      (refuse-SendsOne (pos 400) (codes "Checksum failed")).one b
  handle_parsed-one now id (err Error.unknown_command) b =
      (refuse-SendsOne (pos 400) (codes "Unknown command")).one b
  handle_parsed-one now id (err _) b = inl refl

-- Whatever arrives on a connection, and also where its handling raises: nothing is sent, or one response,
-- and that to the connection itself.
pub handle_arrival-IsOneMore :
    (c : ℕ) (channel : Channel) (now : Now) (id : Option Text) (a : Arrival) (b : Broker)
    → IsOneMore c b.sent (handle_arrival c channel now id a b).1.sent
unfolding handle_arrival
handle_arrival-IsOneMore c channel now id (Arrival.frame bytes) b =
    handle_parsed-one c channel now id (parse_command bytes b.checksum_enable) b
handle_arrival-IsOneMore c channel now id (Arrival.incomplete true) b = inl refl
handle_arrival-IsOneMore c channel now id (Arrival.incomplete false) b =
    (refuse-SendsOne c channel (pos 408) (codes "Request timeout")).one b
handle_arrival-IsOneMore c channel now id Arrival.timed_out b =
    (refuse-SendsOne c channel (pos 408) (codes "Request timeout")).one b
handle_arrival-IsOneMore c channel now id Arrival.reset b = inl refl
handle_arrival-IsOneMore c channel now id Arrival.failed b = inl refl
