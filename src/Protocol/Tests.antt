-- ===== src/Protocol/Tests.antt =====
-- Packets on the wire, and the theorems about them at these packets.
use pylogstream.Prelude.{
  arith, true, false, List, [], ◌∷◌, ◌++◌, ◌≡◌, ◌≢◌, refl, inl, none, some, ok, pos, negsuc,
}
use pylogstream.Text.{Bytes, codes}
use pylogstream.Text.Utf8.{encode}
use pylogstream.Text.Split.{join}
use pylogstream.Text.Decimal.{show_ℤ}
use pylogstream.Text.Crc.{crc32}
use pylogstream.Text.Words.{to_bytes}
use pylogstream.Protocol.Framer.{encode_frame, read_frame}
use pylogstream.Protocol.Packets.{Packet, Command, Response, TopicMetaData, EncodedFrame}
use pylogstream.Protocol.Encoder.{show_replicas}
use pylogstream.Protocol.Encoder.Commands.{encode_command}
use pylogstream.Protocol.Encoder.Responses.{encode_response, metadata_payload, metadata_line}
use pylogstream.Protocol.Parser.Commands.{parse_command}
use pylogstream.Protocol.Parser.Responses.{parse_response}
use pylogstream.Protocol.Parser.Records.{frame_records, parse_records, parse_records-frame_records}
use pylogstream.Protocol.RoundTrip
use pylogstream.Protocol.RoundTrip.Commands.{parse_command-encode_command}
use pylogstream.Protocol.RoundTrip.Responses.{parse_response-encode_response, IsFollowedBy}

-- A message for the topic `t`, which is to be acknowledged by all replicas.
abbrev publish : Packet Command
publish = record {
  header = some (codes "7");
  body = Command.publish (codes "t") (codes "hi") (negsuc 0) false;
}

abbrev publish_frame : EncodedFrame
publish_frame = record {
  header = 0 ∷ 0 ∷ 0 ∷ 30 ∷ codes "[CRR=7] PUB t -1 3633523372 hi";
  payload = none;
  file_path = none;
  offset = none;
  length = none;
}

publish_encodes : encode_command publish true ≡ ok publish_frame
unfolding encode_command encode join show_ℤ crc32 encode_frame to_bytes
publish_encodes = refl

hi_encodes : encode (codes "hi") ≡ ok (codes "hi")
unfolding encode
hi_encodes = refl

seven : codes "7" ≢ []
seven h = cc

parse_command-encode_command_example :
    ((read_frame (publish_frame.header ++ codes "next")).1 ≡ codes "next")
    × (parse_command (read_frame (publish_frame.header ++ codes "next")).0 true
        ≡ ok (record {
          header = some (codes "7");
          body = RoundTrip.Commands.received true publish.body;
        }))
parse_command-encode_command_example =
    parse_command-encode_command publish true publish_frame (codes "next")
      (seven, ((λ h. omega arith), tt)) (codes "hi", hi_encodes, ((λ h. omega arith), tt), inl refl)
      publish_encodes

-- A part of a file as an answer.
abbrev file : Packet Response
file = record {
  header = none;
  body = Response.file (codes "t") (codes "log/t/0.log") (pos 6) (pos 2);
}

abbrev file_frame : EncodedFrame
file_frame = record {
  header = 0 ∷ 0 ∷ 0 ∷ 7 ∷ codes "MSG t 2";
  payload = none;
  file_path = some (codes "log/t/0.log");
  offset = some (pos 6);
  length = some (pos 2);
}

file_encodes : encode_response file ≡ ok file_frame
unfolding encode_response encode join show_ℤ encode_frame to_bytes
file_encodes = refl

parse_response-encode_response_example :
    ((read_frame (file_frame.header ++ codes "hi")).1 ≡ codes "hi")
    × (parse_response (read_frame (file_frame.header ++ codes "hi")).0
        ≡ ok (record { header = none; body = Response.message_header (codes "t") (pos 2) }))
    × IsFollowedBy file_frame file.body
parse_response-encode_response_example =
    parse_response-encode_response file file_frame (codes "hi") tt ((λ h. omega arith), tt)
      file_encodes

-- A topic whose leader's address is not ASCII, without replicas.
abbrev topics : List TopicMetaData
topics =
    record {
      topic = codes "t";
      leader_id = codes "b1";
      leader_addr = 0xe9 ∷ [];
      leader_port = pos 9;
      replica_list = [];
      version = pos 3;
    }
    ∷ []

abbrev topics_payload : Bytes
topics_payload = codes "t b1 " ++ (0xc3 ∷ 0xa9 ∷ codes " 9 - 3")

topics_encode : encode (metadata_payload topics) ≡ ok topics_payload
unfolding encode metadata_payload join show_ℤ metadata_line show_replicas
topics_encode = refl

abbrev hello_frame : Bytes
hello_frame = 0 ∷ 0 ∷ 0 ∷ 2 ∷ codes "hi"

hello_encodes : encode_frame (codes "hi") ≡ ok hello_frame
unfolding encode_frame to_bytes
hello_encodes = refl

abbrev two_records : List Bytes
two_records = codes "hi" ∷ [] ∷ []

two_records_encode : frame_records two_records ≡ ok (hello_frame ++ (0 ∷ 0 ∷ 0 ∷ 0 ∷ []))
unfolding frame_records encode_frame to_bytes
two_records_encode = refl

parse_records-frame_records_example :
    parse_records (hello_frame ++ (0 ∷ 0 ∷ 0 ∷ 0 ∷ [])) ≡ two_records
parse_records-frame_records_example =
    parse_records-frame_records two_records (hello_frame ++ (0 ∷ 0 ∷ 0 ∷ 0 ∷ [])) two_records_encode
