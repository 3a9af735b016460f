-- ===== src/Replication/Fetcher.antt =====
-- replication/fetcher.py. A follower's fetcher asks the leader for what its log does not have yet.
pub mod Answer
use pylogstream.Prelude.{
  ℕ, ◌+◌, Bool, false, List, [], ◌∷◌, ◌++◌, Option, none, some, Result, ok, err, ◌>>=◌, Error, ℤ,
  pos, negsuc, length, if◌then◌else◌, leb, take, drop,
}
use pylogstream.Prelude.Exec.{Done}
use pylogstream.Text.{Text, Bytes}
use pylogstream.Protocol.Packets.{Packet, Command, Response, EncodedFrame}
use pylogstream.Protocol.Framer.{prefix_size, decode_length}
use pylogstream.Protocol.Encoder.Commands.{encode_command}
use pylogstream.Protocol.Parser.Responses.{parse_response}
use pylogstream.Log.Reader.{LogState}

pub record ReplicaFetcher : Type 0 where
  pub topic : Text
  pub broker_id : Text
  pub log_end_offset : ℕ
  pub fetch_size : ℕ
  pub running : Bool

-- `__init__` reads `self.log_manager` before it is set, so it raises once the connection is there.
unfoldable pub new_fetcher : Text → Text → Result Done → LogState → Result ReplicaFetcher
new_fetcher topic broker_id (err e) log = err e
new_fetcher topic broker_id (ok _) log = err Error.attribute_error

unfoldable pub fetch_command : ReplicaFetcher → Command
fetch_command f =
    Command.replica_fetch f.topic (pos f.log_end_offset) (pos f.fetch_size) f.broker_id

-- `readexactly` of a stream that has ended: the bytes, and the rest of the stream.
unfoldable pub read_exactly : ℤ → Bytes → Result (Bytes × Bytes)
read_exactly (negsuc n) stream = err Error.value_error
read_exactly (pos n) stream =
    if leb n (length stream) then ok (take n stream, drop n stream) else err Error.incomplete_read

-- `isinstance(header_resp, ReplicaFetchHeaderResponse)`, and its length.
unfoldable pub announced : Response → Result ℤ
announced (Response.replica_fetch_header h) = ok h.payload_length
announced _ = err Error.assertion_error

-- The part of `fetch_data` that reads: the payload, and what is left of the stream.
unfoldable pub read_fetched : Bytes → Result (Bytes × Bytes)
unfolding read_exactly announced parse_response decode_length
read_fetched stream = do
  prefix ← read_exactly (pos prefix_size) stream
  frame ← read_exactly (pos (decode_length prefix.0)) prefix.1
  resp ← parse_response frame.0
  len ← announced resp.body
  read_exactly len frame.1

-- The bytes that `_send_command` writes. A command never comes with a part of a file.
unfoldable pub sent : EncodedFrame → Bytes
sent frame = elim frame.payload [ none ↦ frame.header | some payload ↦ frame.header ++ payload ]

-- `fetch_data`: what is sent, and what comes back when the leader's stream is `answer`.
unfoldable pub fetch_data : ReplicaFetcher → (Bytes → Bytes) → Result (Bytes × Bytes)
unfolding fetch_command sent read_fetched encode_command
fetch_data f answer = do
  frame ← encode_command (record { header = none; body = fetch_command f }) false
  read_fetched (answer (sent frame))
