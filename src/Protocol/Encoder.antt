-- ===== src/Protocol/Encoder.antt =====
-- encoder.py: what commands and responses share. An f-string with single blanks between its fields
-- is `words` of the fields.
pub mod Commands
pub mod Responses
use pylogstream.Prelude.{ℕ, List, [], ◌∷◌, ◌++◌, Option, none, some, Result, ok, ◌>>=◌, ℤ}
use pylogstream.Text.{Text, Bytes, codes}
use pylogstream.Text.Utf8.{encode}
use pylogstream.Text.Split.{join}
use pylogstream.Text.Words.{words}
use pylogstream.Text.Decimal.{show_ℤ}
use pylogstream.Protocol.Framer.{encode_frame}
use pylogstream.Protocol.Packets.{TopicMetaData, EncodedFrame}

-- `f"[CRR={packet.header.correlation_id}] "`, before `.encode()`
unfoldable pub encode_packet_header : Option Text → Text
encode_packet_header none = []
encode_packet_header (some correlation_id) = codes "[CRR=" ++ correlation_id ++ codes "] "

abbrev pub comma : ℕ
comma = b','

-- `",".join(ids) if ids else "-"`
unfoldable pub show_replicas : List Text → Text
show_replicas [] = codes "-"
show_replicas (r ∷ rs) = join comma (r ∷ rs)

-- The blank-separated fields of a topic's metadata, in a TMD frame and in a line of a TML payload.
unfoldable pub metadata_fields : TopicMetaData → List Text
metadata_fields m =
    m.topic
    ∷ m.leader_id
    ∷ m.leader_addr
    ∷ show_ℤ m.leader_port
    ∷ show_replicas m.replica_list
    ∷ show_ℤ m.version
    ∷ []

-- A frame whose header is a text and bytes behind it.
unfoldable pub bytes_frame : Text → Bytes → Option Bytes → Result EncodedFrame
bytes_frame text tail payload = do
  bytes ← encode text
  header ← encode_frame (bytes ++ tail)
  ok (record { header = header; payload = payload; file_path = none; offset = none; length = none })

unfoldable pub file_frame : Text → Text → ℤ → ℤ → Result EncodedFrame
file_frame text file_path offset length = do
  bytes ← encode text
  header ← encode_frame bytes
  ok (record {
    header = header;
    payload = none;
    file_path = some file_path;
    offset = some offset;
    length = some length;
  })
