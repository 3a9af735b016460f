-- ===== src/Network/Dispatch/Unregistered.antt =====
-- network/broker.py: a connection that has not said whose it is cannot write.
use pylogstream.Prelude.{
  ℕ, ◌≡◌, refl, ◌∙◌, true, false, Option, none, some, Result, ok, err, Error, ℤ, pos,
}
use pylogstream.Prelude.Exec.{Exec, Done, pure, ◌>>=◌}
use pylogstream.Prelude.Keeps.{Keeps, >>=-Keeps, pure-Keeps}
use pylogstream.Text.{Text, codes}
use pylogstream.Protocol.Packets.{Packet, Command, Response}
use pylogstream.Protocol.Parser.Commands.{parse_command}
use pylogstream.Replication.Manager.{ReplicaManager}
use pylogstream.Replication.Manager
use pylogstream.Network.Writer.{Writer}
use pylogstream.Network.Broker.{
  Broker, Channel, Next, put_replicas, on_replicas, beat, record_sent, send_packet, send_response,
}
use pylogstream.Network.Broker.Kept.{send_packet-Keeps, send_response-Keeps}
use pylogstream.Network.Dispatch.{
  Now, Asked, Arrival, heard, server_error, refusal, answer_asked, answer_replica, handle_by_id,
  handle_command, refuse, handle_parsed, handle_arrival,
}

abbrev writer_of : Broker → Writer
writer_of b = b.writer

recorded : (c : ℕ) (p : Packet Response) (b : Broker) → (record_sent c p b).1.writer ≡ b.writer
unfolding record_sent
recorded c p b = refl

on_replicas-writer : {A : Type 0} (f : Exec ReplicaManager A) → Keeps writer_of (on_replicas f)
unfolding on_replicas put_replicas
on_replicas-writer f = record { kept = λ b. refl }

heard-writer : (id : Text) (now : ℕ) → Keeps writer_of (heard id now)
unfolding heard beat
heard-writer id now = record { kept = λ b. refl }

module _ (c : ℕ) (channel : Channel) where
  send_packet-writer : (p : Packet Response) → Keeps writer_of (send_packet c channel p)
  send_packet-writer p = send_packet-Keeps writer_of recorded c channel p

  send_response-writer : (r : Response) → Keeps writer_of (send_response c channel r)
  send_response-writer r = send_response-Keeps writer_of recorded c channel r

  then_go_on :
      {f : Exec Broker Done} (n : Next) → Keeps writer_of f → Keeps writer_of (f >>= λ _. pure n)
  then_go_on n k = >>=-Keeps writer_of k (λ _. pure-Keeps writer_of n)

  answer_asked-writer :
      (failure : Text) (asked : Asked) → Keeps writer_of (answer_asked c channel failure asked)
  unfolding answer_asked
  answer_asked-writer failure none =
      send_response-writer (server_error (codes "Controller not connected"))
  answer_asked-writer failure (some (err e)) = record { kept = λ b. refl }
  answer_asked-writer failure (some (ok none)) = send_response-writer (server_error failure)
  answer_asked-writer failure (some (ok (some p))) = send_packet-writer p

  answer_replica-writer :
      (id : Option Text) (r : Result Response) (b : Broker)
      → (answer_replica c channel id (r, b)).1.writer ≡ b.writer
  unfolding answer_replica
  answer_replica-writer id (err e) b = refl
  answer_replica-writer id (ok r) b = (then_go_on (Next.go_on id) (send_response-writer r)).kept b

  handle_command-writer :
      (now : Now) (cmd : Command) (b : Broker)
      → (handle_command c channel now none cmd b).1.writer ≡ b.writer
  unfolding handle_command handle_by_id
  handle_command-writer now (Command.replica_fetch topic offset size replica_id) b =
      let f = Manager.handle topic (Command.replica_fetch topic offset size replica_id) now.time in
      let p = on_replicas f b in answer_replica-writer none p.0 p.1 ∙ (on_replicas-writer f).kept b
  handle_command-writer now (Command.register_topic topic) b =
      (then_go_on (Next.go_on none)
          (answer_asked-writer (codes "Failed to register topic") now.asked)).kept
        b
  handle_command-writer now (Command.metadata_request topic) b =
      (then_go_on (Next.go_on none)
          (answer_asked-writer (codes "Failed to get metadata") now.asked)).kept
        b
  handle_command-writer now Command.register b =
      (>>=-Keeps writer_of (heard-writer now.new_id now.time) (λ _.
          then_go_on (Next.go_on (some now.new_id))
            (send_response-writer (Response.client_id now.new_id)))).kept
        b
  handle_command-writer now (Command.client_id new) b = (heard-writer new now.time).kept b
  handle_command-writer now cmd b = refl

  refuse-writer : (code : ℤ) (message : Text) → Keeps writer_of (refuse c channel code message)
  unfolding refuse
  refuse-writer code message = then_go_on Next.stop (send_response-writer (refusal code message))

  handle_parsed-writer :
      (now : Now) (r : Result (Packet Command)) (b : Broker)
      → (handle_parsed c channel now none r b).1.writer ≡ b.writer
  unfolding handle_parsed
  handle_parsed-writer now (ok p) b = handle_command-writer now p.body b
  handle_parsed-writer now (err Error.checksum_failed) b =
      (refuse-writer (pos 400) (codes "Checksum failed")).kept b
  handle_parsed-writer now (err Error.unknown_command) b =
      (refuse-writer (pos 400) (codes "Unknown command")).kept b
  handle_parsed-writer now (err _) b = refl

-- Whatever arrives on a connection that has no client id yet, and also where its handling raises: nothing
-- is given to the writer.
pub handle_arrival-writer :
    (c : ℕ) (channel : Channel) (now : Now) (a : Arrival) (b : Broker)
    → (handle_arrival c channel now none a b).1.writer ≡ b.writer
unfolding handle_arrival
handle_arrival-writer c channel now (Arrival.frame bytes) b =
    handle_parsed-writer c channel now (parse_command bytes b.checksum_enable) b
handle_arrival-writer c channel now (Arrival.incomplete true) b = refl
handle_arrival-writer c channel now (Arrival.incomplete false) b =
    (refuse-writer c channel (pos 408) (codes "Request timeout")).kept b
handle_arrival-writer c channel now Arrival.timed_out b =
    (refuse-writer c channel (pos 408) (codes "Request timeout")).kept b
handle_arrival-writer c channel now Arrival.reset b = refl
handle_arrival-writer c channel now Arrival.failed b = refl
