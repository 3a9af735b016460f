-- ===== src/Network/Tests/Controllers.antt =====
-- A connection that asks for a topic, and the theorems about it.
use pylogstream.Prelude.{
  ◌≡◌, refl, true, false, [], ◌∷◌, ◌++◌, none, some, Result, ok, pos, arith, All, text_eq,
}
use pylogstream.Prelude.Dict.{get, put, remove}
use pylogstream.Prelude.Exec.{Done}
use pylogstream.Text.{Text, codes}
use pylogstream.Text.Utf8.{encode}
use pylogstream.Text.Split.{join}
use pylogstream.Text.Decimal.{show_ℤ}
use pylogstream.Text.Words.{to_bytes}
use pylogstream.Protocol.Framer.{encode_frame}
use pylogstream.Protocol.Packets.{Packet, Command, Response, TopicMetaData, EncodedFrame}
use pylogstream.Protocol.Encoder.Responses.{encode_response, metadata_line, metadata_payload}
use pylogstream.Protocol.Encoder.{show_replicas}
use pylogstream.Text.Utf8.Parts.{IsAscii}
use pylogstream.Replication.Fetcher.{sent}
use pylogstream.Network.Connection.{
  ControllerConnection, Outcome, with_header, send_command, reader_round,
}
use pylogstream.Network.Connection.Read.{read_response}
use pylogstream.Network.Connection.TopicList.{list_packet, read_response-encode_response}
use pylogstream.Network.Connection.Tracked.{IsSettled}
use pylogstream.Network.Connection.Answered.{Reach, start, sends, reads, Reach-IsSettled}
use pylogstream.Network.Tests.Clients.{broker}

abbrev idle : ControllerConnection
idle = record {
  replica_manager = broker.replicas;
  connected = true;
  reconnecting = false;
  connection_id = 0;
  disconnect_event = false;
  pending_reads = [];
  settled = [];
  sent = [];
}

abbrev ask : Packet Command
ask = record { header = none; body = Command.register_topic (codes "t") }

abbrev asked : ControllerConnection
asked = (send_command true (codes "7") 3 ask true idle).1

abbrev unreachable : Text → Result Done
unreachable topic = ok tt

abbrev answer : Packet Response
answer = record { header = some (codes "7"); body = Response.controller_ping }

abbrev answered : ControllerConnection
answered = reader_round unreachable (ok (some answer)) asked

idle_reached : Reach idle [] idle
idle_reached = start refl refl

Reach-IsSettled_example : All (IsSettled ((codes "7", 3) ∷ [])) answered.settled
unfolding with_header
Reach-IsSettled_example =
    Reach-IsSettled
      (reads unreachable (ok (some answer)) (sends true (codes "7") 3 ask true idle_reached))

settled_once : answered.settled ≡ (3, Outcome.answered answer) ∷ []
unfolding reader_round send_command get put remove encode join encode_frame to_bytes
settled_once = refl

abbrev topic : TopicMetaData
topic = record {
  topic = codes "t";
  leader_id = codes "a";
  leader_addr = codes "h";
  leader_port = pos 9;
  replica_list = [];
  version = pos 1;
}

abbrev from_ok : Result EncodedFrame → EncodedFrame
from_ok (ok f) = f
from_ok _ = record { header = []; payload = none; file_path = none; offset = none; length = none }

abbrev frame : EncodedFrame
frame = from_ok (encode_response (list_packet none (topic ∷ [])))

encodes : encode_response (list_packet none (topic ∷ [])) ≡ ok frame
unfolding encode_response encode join encode_frame to_bytes show_ℤ metadata_line show_replicas
encodes = refl

-- The line is "t a h 9 - 1".
topic_IsAscii : All IsAscii (metadata_payload (topic ∷ []))
unfolding metadata_payload join show_ℤ metadata_line show_replicas
topic_IsAscii = (
  omega arith,
  (
    omega arith,
    (
      omega arith,
      (
        omega arith,
        (
          omega arith,
          (
            omega arith,
            (omega arith, (omega arith, (omega arith, (omega arith, (omega arith, tt))))),
          ),
        ),
      ),
    ),
  ),
)

read_response-encode_response_example :
    read_response (sent frame ++ codes "next")
    ≡ ok (some (list_packet none (topic ∷ [])), codes "next")
read_response-encode_response_example =
    read_response-encode_response none (topic ∷ []) frame (codes "next") tt
      (
        (
          ((λ h. omega arith), tt),
          ((λ h. omega arith), tt),
          ((λ h. omega arith), tt),
          (tt, λ h. cc),
          tt,
        ),
        tt,
      )
      ((((λ h. omega arith), tt), ((λ h. omega arith), tt), ((λ h. omega arith), tt), tt), tt)
      topic_IsAscii encodes
