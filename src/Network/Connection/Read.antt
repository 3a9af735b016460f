-- ===== src/Network/Connection/Read.antt =====
-- network/controller.py: `_read_response`, on the bytes that the controller has sent until the stream ends.
use pylogstream.Prelude.{
  Bool, true, false, List, [], ◌∷◌, Option, none, some, if◌then◌else◌, Result, ok, err, Error, pos,
  ltb_ℤ, ◌>>=◌,
}
use pylogstream.Text.{Text, Bytes}
use pylogstream.Protocol.Framer.{prefix_size, decode_length}
use pylogstream.Protocol.Packets.{Packet, Response, TopicMetaData}
use pylogstream.Protocol.Parser.Responses.{parse_response, parse_metadata_list_payload}
use pylogstream.Replication.Fetcher.{read_exactly}

-- What `except ValueError` catches.
unfoldable pub is_value_error : Error → Bool
is_value_error Error.value_error = true
is_value_error Error.unicode_decode_error = true
is_value_error Error.unicode_encode_error = true
is_value_error Error.unknown_command = true
is_value_error Error.checksum_failed = true
is_value_error _ = false

-- A response and what is left of the stream; none where the response does not parse.
abbrev pub Reading : Type 0
Reading = Option (Packet Response) × Bytes

unfoldable pub read_list : Option Text → Result (List TopicMetaData) → Bytes → Result Reading
unfolding is_value_error
read_list header (ok metas) stream =
    ok (some (record { header = header; body = Response.topic_meta_data_list metas }), stream)
read_list header (err e) stream = if is_value_error e then ok (none, stream) else err e

-- A topic list is a header, and the payload behind it.
unfoldable pub read_body : Packet Response → Bytes → Result Reading
unfolding read_list read_exactly parse_metadata_list_payload
read_body p stream = elim p.body [
  | Response.topic_meta_data_list_header payload_length ↦
      if ltb_ℤ (pos 0) payload_length
      then (do
        payload ← read_exactly payload_length stream
        read_list p.header (parse_metadata_list_payload payload.0) payload.1)
      else ok (some (record { header = p.header; body = Response.topic_meta_data_list [] }), stream)
  | _ ↦ ok (some p, stream)
]

unfoldable pub read_parsed : Result (Packet Response) → Bytes → Result Reading
unfolding read_body is_value_error
read_parsed (ok p) stream = read_body p stream
read_parsed (err e) stream = if is_value_error e then ok (none, stream) else err e

-- An empty frame is no response.
unfoldable pub read_frame_data : Bytes → Bytes → Result Reading
unfolding read_parsed parse_response
read_frame_data [] stream = ok (none, stream)
read_frame_data (x ∷ bytes) stream = read_parsed (parse_response (x ∷ bytes)) stream

unfoldable pub read_response : Bytes → Result Reading
unfolding read_frame_data read_exactly decode_length
read_response stream = do
  prefix ← read_exactly (pos prefix_size) stream
  frame ← read_exactly (pos (decode_length prefix.0)) prefix.1
  read_frame_data frame.0 frame.1
