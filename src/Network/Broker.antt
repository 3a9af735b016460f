-- ===== src/Network/Broker.antt =====
-- network/broker.py: what a broker does with a command of a client. A connection is a number, and `channel`
-- tells what of a response goes out. A coroutine stops where it waits for a future: `Next` says
-- so, and what is done when the future is set is a function of its own.
pub mod Sent
pub mod Kept
pub mod Commands
pub mod Pull
use pylogstream.Prelude.{
  ℕ, ◌+◌, Bool, true, false, List, [], ◌∷◌, ◌++◌, Option, none, some, if◌then◌else◌, Result, ok,
  err, Error, ℤ, pos, negsuc, leb_ℤ, eqb_ℤ, text_eq,
}
use pylogstream.Prelude.Dict.{Dict, get, put}
use pylogstream.Prelude.Exec.{Done, Exec, pure, raise, outside, ◌>>=◌}
use pylogstream.Text.{Text, Bytes, codes}
use pylogstream.Text.Decimal.{show_ℤ}
use pylogstream.Text.Utf8.{encode}
use pylogstream.Protocol.Packets.{Packet, Command, Response}
use pylogstream.Protocol.Encoder.Responses.{encode_response}
use pylogstream.Log.Memory.{release_entry}
use pylogstream.Log.Reader.{LogState, ReadResult, read, read_bytes}
use pylogstream.Replication.Leader.{ReplicaLeader, Wait, get_high_watermark, wait_for_hw}
use pylogstream.Replication.Manager.{ReplicaManager, TopicState, get_leader}
use pylogstream.Replication.Manager
use pylogstream.Network.Writer.{WriteRequest, Writer, submit}

-- What of a response goes out: nothing; its header and payload, but not the part of a file behind them,
-- where the file cannot be opened or sent; or all of it.
pub data Channel : Type 0 where
  broken without_file whole : Channel

-- The replica manager has the log; `sent` are the responses whose header was
-- written, with the connection; a new future is the
-- number `next_future`.
pub record Broker : Type 0 where
  pub checksum_enable : Bool
  pub replicas : ReplicaManager
  pub writer : Writer
  pub client_heartbeats : Dict Text ℕ
  pub next_future : ℕ
  pub sent : List (ℕ × Packet Response)

-- A write whose future is waited for. `committed` is the offset that a commit command brings.
pub record Write : Type 0 where
  pub client_id : Text
  pub topic : Text
  pub acks : ℤ
  pub committed : Option ℤ

-- What a connection does next: it reads, with the client's id; it ends; it waits for a write's future; or
-- it waits for the future of a written record's replication.
pub data Next : Type 0 where
  go_on : Option Text → Next
  stop : Next
  waits_written : Write → ℕ → Next
  waits_replicated : Write → (offset : ℕ) → ℕ → Next

unfoldable pub put_replicas : {A : Type 0} → Broker → Result A × ReplicaManager → Result A × Broker
put_replicas b (r, m) = (r, record b { replicas = m })

unfoldable pub on_replicas : {A : Type 0} → Exec ReplicaManager A → Exec Broker A
unfolding put_replicas
on_replicas f b = put_replicas b (f b.replicas)

unfoldable pub on_log : {A : Type 0} → Exec LogState A → Exec Broker A
unfolding on_replicas Manager.on_log
on_log f = on_replicas (Manager.on_log f)

-- The leader of a topic has changed.
unfoldable pub put_leader :
    {A : Type 0} → Text → Option TopicState → Broker → Result A × ReplicaLeader → Result A × Broker
put_leader topic none b (r, l) = (r, b)
put_leader topic (some s) b (r, l) = (
  r,
  record b {
    replicas = record b.replicas {
      topics = put b.replicas.topics topic (record s { leader = some l });
    };
  },
)

unfoldable pub record_sent : ℕ → Packet Response → Exec Broker Done
record_sent c p b = (ok tt, record b { sent = b.sent ++ (c, p) ∷ [] })

unfoldable pub beat : Text → ℕ → Broker → Broker
beat client_id now b = record b { client_heartbeats = put b.client_heartbeats client_id now }

unfoldable pub write_request : Text → Text → Bytes → ℕ → Option ℕ → WriteRequest
write_request client_id topic payload now future = record {
  producer_id = client_id;
  topic = topic;
  payload = payload;
  created_at = now;
  callback = future;
}

-- Only a write that is acknowledged has a future.
unfoldable pub submit_write : ℕ → Text → Text → Bytes → ℤ → Exec Broker (Option ℕ)
unfolding submit write_request
submit_write now client_id topic payload acks b =
    if eqb_ℤ acks (pos 0)
    then (
      ok none,
      record b { writer = submit (write_request client_id topic payload now none) b.writer },
    )
    else (
      ok (some b.next_future),
      record b {
        writer = submit (write_request client_id topic payload now (some b.next_future)) b.writer;
        next_future = b.next_future + 1;
      },
    )

unfoldable pub write_to :
    Result ReplicaLeader → ℕ → Text → Text → Bytes → ℤ → Exec Broker (Option ℕ)
unfolding submit_write
write_to (err e) now client_id topic payload acks b = (err Error.value_error, b)
write_to (ok l) now client_id topic payload acks b = submit_write now client_id topic payload acks b

-- `_handle_write` as far as its first wait.
unfoldable pub handle_write : ℕ → Text → Text → Bytes → ℤ → Exec Broker (Option ℕ)
unfolding write_to get_leader
handle_write now client_id topic payload acks b =
    write_to (get_leader topic b.replicas) now client_id topic payload acks b

-- Does the connection wait for the future, or go on?
unfoldable pub after_write : Write → Option ℕ → Next
after_write w none = Next.go_on (some w.client_id)
after_write w (some future) = Next.waits_written w future

unfoldable pub acknowledgement : Write → Option ℤ → ℕ → Response
acknowledgement w none offset = Response.pub_ack w.topic (pos offset) w.acks
acknowledgement w (some committed) offset = Response.offset_ack w.topic committed w.acks

unfoldable pub out_of_range : ℤ → Response
out_of_range high_watermark =
    Response.error (pos 400)
      (codes "Offset out of range. High watermark is " ++ show_ℤ high_watermark)

unfoldable pub not_leader : Response
not_leader = Response.error (pos 400) (codes "Topic not found or not leader")

-- `with` gives the handle back when the block is left, also where it raises.
unfoldable pub give_back : {A : Type 0} → ℕ → Result A × Broker → Result A × Broker
unfolding release_entry
give_back handle (r, b) =
    let log = b.replicas.log in
    (
      r,
      record b {
        replicas = record b.replicas {
          log = record log { memory = release_entry handle log.memory };
        };
      },
    )

unfoldable pub watermark_of : Text → ReplicaLeader → Exec Broker ℤ
unfolding put_leader get_high_watermark
watermark_of topic l b =
    put_leader topic (get b.replicas.topics topic) b (get_high_watermark b.replicas.log l)

-- The part of a file cannot be sent.
unfoldable pub send_part : Option Text → Exec Broker Done
send_part none = pure tt
send_part (some []) = pure tt
send_part (some (x ∷ path)) = raise Error.os_error

module _ (c : ℕ) (channel : Channel) where
  -- The header and the payload are written before the file is opened.
  unfoldable pub write_frame : Packet Response → Option Text → Exec Broker Done
  unfolding record_sent send_part
  write_frame p file_path = elim channel [
    | Channel.broken ↦ raise Error.os_error
    | Channel.without_file ↦ (do _ ← record_sent c p; send_part file_path)
    | Channel.whole ↦ record_sent c p
  ]

  unfoldable pub send_packet : Packet Response → Exec Broker Done
  unfolding encode_response write_frame
  send_packet p = do frame ← outside (encode_response p); write_frame p frame.file_path

  unfoldable pub send_response : Response → Exec Broker Done
  unfolding send_packet
  send_response resp = send_packet (record { header = none; body = resp })

  -- A response, and then the next command.
  unfoldable pub respond : Text → Response → Exec Broker Next
  unfolding send_response
  respond client_id resp = do _ ← send_response resp; pure (Next.go_on (some client_id))

  unfoldable pub send_file : Text → ReadResult → Exec Broker Done
  unfolding give_back send_response
  send_file topic res b = give_back res.handle (
      send_response
        (Response.file topic res.file_slice.filepath res.file_slice.offset
          (pos res.file_slice.batch_size))
        b)

  unfoldable pub push_message : Text → ℤ → ℤ → Exec Broker Done
  unfolding on_log read_bytes read send_response send_file
  push_message topic offset size =
      if leb_ℤ size (pos 1024)
      then (do
        res ← on_log (read_bytes topic offset size)
        send_response (Response.message topic res.payload))
      else (do res ← on_log (read topic offset size); send_file topic res)

  -- The three cases of a pull's offset.
  unfoldable pub pull_below : Text → Text → ℤ → ℤ → ℤ → Exec Broker Next
  unfolding respond push_message out_of_range
  pull_below client_id topic offset size high_watermark =
      if eqb_ℤ offset high_watermark
      then respond client_id (Response.message topic [])
      else if leb_ℤ high_watermark offset
      then respond client_id (out_of_range high_watermark)
      else (do _ ← push_message topic offset size; pure (Next.go_on (some client_id)))

  unfoldable pub pull_from : Result ReplicaLeader → Text → Text → ℤ → ℤ → Exec Broker Next
  unfolding respond not_leader watermark_of pull_below
  pull_from (err e) client_id topic offset size = respond client_id not_leader
  pull_from (ok l) client_id topic offset size = do
    high_watermark ← watermark_of topic l
    pull_below client_id topic offset size high_watermark

  unfoldable pub pull : Text → Text → ℤ → ℤ → Exec Broker Next
  unfolding pull_from get_leader
  pull client_id topic offset size b =
      pull_from (get_leader topic b.replicas) client_id topic offset size b

  -- A ValueError is answered.
  unfoldable pub published : Write → Result (Option ℕ) × Broker → Result Next × Broker
  unfolding respond not_leader after_write
  published w (err Error.value_error, b) = respond w.client_id not_leader b
  published w (err e, b) = (err e, b)
  published w (ok future, b) = (ok (after_write w future), b)

  unfoldable pub publish : ℕ → Text → Text → Bytes → ℤ → Exec Broker Next
  unfolding published handle_write
  publish now client_id topic payload acks b =
      published (record { client_id = client_id; topic = topic; acks = acks; committed = none })
        (handle_write now client_id topic payload acks b)

  -- `stamp` is the text of `time.time()`.
  unfoldable pub commit : ℕ → Text → Text → Text → ℤ → ℤ → Exec Broker Next
  unfolding handle_write after_write
  commit now stamp client_id topic offset acks = do
    payload ← outside (
        encode
          (stamp ++ codes " " ++ client_id ++ codes " " ++ topic ++ codes " " ++ show_ℤ offset))
    future ← handle_write now client_id topic payload acks
    pure (
        after_write
          (record { client_id = client_id; topic = topic; acks = acks; committed = some offset })
          future)

  -- The future of a write is set to the record's offset.
  unfoldable pub acknowledge : Write → ℕ → Exec Broker Next
  unfolding respond acknowledgement
  acknowledge w offset = respond w.client_id (acknowledgement w w.committed offset)
