-- ===== src/Protocol/Encoder/Responses.antt =====
-- `encode_response` of encoder.py.
use pylogstream.Prelude.{
  List, ℕ, [], ◌∷◌, ◌++◌, map, Option, none, some, Result, err, ◌>>=◌, value_error, ℤ, pos, length,
}
use pylogstream.Text.{Text, codes}
use pylogstream.Text.Utf8.{encode}
use pylogstream.Text.Split.{join}
use pylogstream.Text.Words.{words}
use pylogstream.Text.Decimal.{show_ℤ}
use pylogstream.Protocol.Packets.{Packet, Response, TopicMetaData, FetchHeader, EncodedFrame}
use pylogstream.Protocol.Encoder.{encode_packet_header, metadata_fields, bytes_frame, file_frame}

abbrev pub newline : ℕ
newline = 10

unfoldable pub metadata_line : TopicMetaData → Text
unfolding metadata_fields
metadata_line m = words (metadata_fields m)

-- `payload_str`
unfoldable pub metadata_payload : List TopicMetaData → Text
metadata_payload metas = join newline (map metadata_line metas)

unfoldable pub message_text : Text → ℤ → Text
message_text topic length = words (codes "MSG" ∷ topic ∷ show_ℤ length ∷ [])

unfoldable pub fetch_text : FetchHeader → ℤ → Text
fetch_text h length =
    words (
      codes "RPL"
      ∷ h.topic
      ∷ show_ℤ h.log_end_offset
      ∷ show_ℤ h.high_watermark
      ∷ show_ℤ length
      ∷ [])

-- The text of the frame behind the packet header. The three classes that only a parser makes have no
-- encoding.
unfoldable pub response_text : Response → Option Text
unfolding message_text fetch_text metadata_payload
response_text (Response.client_id id) = some (words (codes "CID" ∷ id ∷ []))
response_text Response.ping = some (codes "PNG")
response_text (Response.offset_ack topic offset acks) =
    some (words (codes "OAK" ∷ topic ∷ show_ℤ acks ∷ show_ℤ offset ∷ []))
response_text (Response.fetch_offset topic offset) =
    some (words (codes "FCR" ∷ topic ∷ show_ℤ offset ∷ []))
response_text (Response.pub_ack topic offset acks) =
    some (words (codes "ACK" ∷ topic ∷ show_ℤ acks ∷ show_ℤ offset ∷ []))
response_text (Response.error code message) =
    some (words (codes "ERR" ∷ show_ℤ code ∷ message ∷ []))
response_text (Response.message topic payload) = some (message_text topic (pos (length payload)))
response_text (Response.file topic file_path offset len) = some (message_text topic len)
response_text (Response.mmap topic buffer) = some (message_text topic (pos (length buffer)))
response_text (Response.replica_fetch_bytes h payload) = some (fetch_text h (pos (length payload)))
response_text (Response.replica_fetch_file h file_path offset len) = some (fetch_text h len)
response_text (Response.replica_fetch_mmap h buffer) = some (fetch_text h (pos (length buffer)))
response_text (Response.topic_meta_data m) = some (words (codes "TMD" ∷ metadata_fields m))
response_text (Response.topic_meta_data_list metas) =
    some (words (codes "TML" ∷ show_ℤ (pos (length (metadata_payload metas))) ∷ []))
response_text Response.controller_ping = some (codes "CPR")
response_text (Response.not_leader_controller leader_id leader_host leader_port) =
    some (words (codes "NLC" ∷ leader_id ∷ leader_host ∷ show_ℤ leader_port ∷ []))
response_text (Response.message_header topic len) = none
response_text (Response.replica_fetch_header h) = none
response_text (Response.topic_meta_data_list_header len) = none

-- The frame with that text: the payload that follows it, or the part of a file.
unfoldable pub response_frame : Text → Response → Result EncodedFrame
unfolding bytes_frame file_frame metadata_payload
response_frame text (Response.message topic payload) = bytes_frame text [] (some payload)
response_frame text (Response.file topic file_path offset len) =
    file_frame text file_path offset len
response_frame text (Response.mmap topic buffer) = bytes_frame text [] (some buffer)
response_frame text (Response.replica_fetch_bytes h payload) = bytes_frame text [] (some payload)
response_frame text (Response.replica_fetch_file h file_path offset len) =
    file_frame text file_path offset len
response_frame text (Response.replica_fetch_mmap h buffer) = bytes_frame text [] (some buffer)
response_frame text (Response.topic_meta_data_list metas) = do
  payload ← encode (metadata_payload metas)
  bytes_frame text [] (some payload)
response_frame text r = bytes_frame text [] none

unfoldable pub frame_or_refuse : Text → Response → Option Text → Result EncodedFrame
unfolding response_frame
frame_or_refuse head r none = err value_error
frame_or_refuse head r (some text) = response_frame (head ++ text) r

unfoldable pub encode_response : Packet Response → Result EncodedFrame
unfolding encode_packet_header response_text frame_or_refuse
encode_response resp =
    frame_or_refuse (encode_packet_header resp.header) resp.body (response_text resp.body)
