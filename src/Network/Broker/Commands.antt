-- ===== src/Network/Broker/Commands.antt =====
-- network/broker.py: each command of a client sends at most one response.
use pylogstream.Prelude.{
  subst, ℕ, ◌≡◌, refl, [], Bool-cases, inl, inr, Option, none, some, Result, ok, err, Error, ℤ, pos,
  leb_ℤ, eqb_ℤ, text_eq,
}
use pylogstream.Prelude.Dict.{get}
use pylogstream.Prelude.Exec.{Exec}
use pylogstream.Prelude.Keeps.{Keeps, >>=-Keeps, outside-Keeps, pure-Keeps}
use pylogstream.Text.{Text, Bytes}
use pylogstream.Protocol.Packets.{Response}
use pylogstream.Log.Reader.{LogState, ReadResult, read, read_bytes}
use pylogstream.Replication.Leader.{ReplicaLeader, get_high_watermark}
use pylogstream.Replication.Manager.{ReplicaManager, TopicState, get_leader}
use pylogstream.Network.Broker.{
  Broker, Channel, Write, Next, put_replicas, on_replicas, on_log, put_leader, submit_write,
  write_to, handle_write, after_write, acknowledgement, out_of_range, not_leader, give_back,
  respond, send_file, push_message, pull_below, watermark_of, pull_from, pull, published, publish,
  commit, acknowledge,
}
use pylogstream.Network.Broker.Sent.{
  sent_of, IsOneMore, SendsOne, quiet-SendsOne, if-SendsOne, then_quiet, quiet_then,
  send_response-SendsOne,
}

pub on_replicas-Keeps : {A : Type 0} (f : Exec ReplicaManager A) → Keeps sent_of (on_replicas f)
unfolding on_replicas put_replicas
on_replicas-Keeps f = record { kept = λ b. refl }

pub on_log-Keeps : {A : Type 0} (f : Exec LogState A) → Keeps sent_of (on_log f)
unfolding on_log
on_log-Keeps f = on_replicas-Keeps _

put_leader-sent :
    {A : Type 0} (topic : Text) (o : Option TopicState) (b : Broker) (p : Result A × ReplicaLeader)
    → (put_leader topic o b p).1.sent ≡ b.sent
unfolding put_leader
put_leader-sent topic none b p = refl
put_leader-sent topic (some s) b p = refl

pub watermark_of-Keeps : (topic : Text) (l : ReplicaLeader) → Keeps sent_of (watermark_of topic l)
unfolding watermark_of
watermark_of-Keeps topic l = record {
  kept = λ b.
      put_leader-sent topic (get b.replicas.topics topic) b (get_high_watermark b.replicas.log l);
}

submit_write-sent :
    (now : ℕ) (id topic : Text) (payload : Bytes) (acks : ℤ)
    → Keeps sent_of (submit_write now id topic payload acks)
unfolding submit_write
submit_write-sent now id topic payload acks = record {
  kept = λ b. elim (Bool-cases (eqb_ℤ acks (pos 0))) [ inl e ↦ rw e refl | inr e ↦ rw e refl ];
}

write_to-sent :
    (r : Result ReplicaLeader) (now : ℕ) (id topic : Text) (payload : Bytes) (acks : ℤ)
    → Keeps sent_of (write_to r now id topic payload acks)
unfolding write_to
write_to-sent (err e) now id topic payload acks = record { kept = λ b. refl }
write_to-sent (ok l) now id topic payload acks = record {
  kept = (submit_write-sent now id topic payload acks).kept;
}

handle_write-Keeps :
    (now : ℕ) (id topic : Text) (payload : Bytes) (acks : ℤ)
    → Keeps sent_of (handle_write now id topic payload acks)
unfolding handle_write
handle_write-Keeps now id topic payload acks = record {
  kept = λ b. (write_to-sent (get_leader topic b.replicas) now id topic payload acks).kept b;
}

module _ (c : ℕ) (channel : Channel) where
  pub respond-SendsOne : (id : Text) (r : Response) → SendsOne c (respond c channel id r)
  unfolding respond
  respond-SendsOne id r =
      then_quiet c (send_response-SendsOne c channel r)
        (λ _. pure-Keeps sent_of (Next.go_on (some id)))

  send_file-SendsOne :
      (topic : Text) (res : ReadResult) → SendsOne c (send_file c channel topic res)
  unfolding send_file give_back
  send_file-SendsOne topic res = record {
    one =
        (send_response-SendsOne c channel (
          Response.file topic res.file_slice.filepath res.file_slice.offset
            (pos res.file_slice.batch_size))).one;
  }

  push_message-SendsOne :
      (topic : Text) (offset size : ℤ) → SendsOne c (push_message c channel topic offset size)
  unfolding push_message
  push_message-SendsOne topic offset size =
      if-SendsOne c (leb_ℤ size (pos 1024))
        (quiet_then c (on_log-Keeps (read_bytes topic offset size))
          (λ res. send_response-SendsOne c channel (Response.message topic res.payload)))
        (quiet_then c (on_log-Keeps (read topic offset size)) (λ res. send_file-SendsOne topic res))

  pull_below-SendsOne :
      (id topic : Text) (offset size hw : ℤ)
      → SendsOne c (pull_below c channel id topic offset size hw)
  unfolding pull_below
  pull_below-SendsOne id topic offset size hw =
      if-SendsOne c (eqb_ℤ offset hw) (respond-SendsOne id (Response.message topic [])) (
        if-SendsOne c (leb_ℤ hw offset) (respond-SendsOne id (out_of_range hw)) (
          then_quiet c (push_message-SendsOne topic offset size)
            (λ _. pure-Keeps sent_of (Next.go_on (some id)))))

  pull_from-SendsOne :
      (r : Result ReplicaLeader) (id topic : Text) (offset size : ℤ)
      → SendsOne c (pull_from c channel r id topic offset size)
  unfolding pull_from
  pull_from-SendsOne (err e) id topic offset size = respond-SendsOne id not_leader
  pull_from-SendsOne (ok l) id topic offset size =
      quiet_then c (watermark_of-Keeps topic l) (λ hw. pull_below-SendsOne id topic offset size hw)

  pub pull-SendsOne :
      (id topic : Text) (offset size : ℤ) → SendsOne c (pull c channel id topic offset size)
  unfolding pull
  pull-SendsOne id topic offset size = record {
    one = λ b. (pull_from-SendsOne (get_leader topic b.replicas) id topic offset size).one b;
  }

  published-sent :
      (w : Write) (old : Broker) (r : Result (Option ℕ)) (b : Broker)
      → b.sent ≡ old.sent
      → IsOneMore c old.sent (published c channel w (r, b)).1.sent
  unfolding published
  published-sent w old (err Error.value_error) b e =
      subst (λ l. IsOneMore c l (published c channel w (err Error.value_error, b)).1.sent) e
        ((respond-SendsOne w.client_id not_leader).one b)
  published-sent w old (err Error.key_error) b e = inl e
  published-sent w old (err _) b e = inl e
  published-sent w old (ok future) b e = inl e

  pub publish-SendsOne :
      (now : ℕ) (id topic : Text) (payload : Bytes) (acks : ℤ)
      → SendsOne c (publish c channel now id topic payload acks)
  unfolding publish
  publish-SendsOne now id topic payload acks = record {
    one = λ b.
        let p = handle_write now id topic payload acks b in
        published-sent (record { client_id = id; topic = topic; acks = acks; committed = none }) b
          p.0 p.1 ((handle_write-Keeps now id topic payload acks).kept b);
  }

  pub commit-SendsOne :
      (now : ℕ) (stamp id topic : Text) (offset acks : ℤ)
      → SendsOne c (commit c channel now stamp id topic offset acks)
  unfolding commit
  commit-SendsOne now stamp id topic offset acks =
      let w : Write = record {
        client_id = id;
        topic = topic;
        acks = acks;
        committed = some offset;
      } in
      quiet-SendsOne c (
        >>=-Keeps sent_of (outside-Keeps sent_of _) (λ payload.
          >>=-Keeps sent_of (handle_write-Keeps now id topic payload acks)
            (λ future. pure-Keeps sent_of (after_write w future))))

  pub acknowledge-SendsOne : (w : Write) (offset : ℕ) → SendsOne c (acknowledge c channel w offset)
  unfolding acknowledge
  acknowledge-SendsOne w offset =
      respond-SendsOne w.client_id (acknowledgement w w.committed offset)
