-- ===== src/Protocol/Parser/Responses.antt =====
-- `_parse_response`, `parse_response` and `parse_metadata_list_payload` of parser.py, with a helper
-- for each longer branch.
use pylogstream.Prelude.{
  ℤ, ℕ, ◌+◌, List, [], ◌∷◌, if◌then◌else◌, Result, ok, err, ◌>>=◌, take, same, ltb, length,
  value_error, unknown_command,
}
use pylogstream.Text.{Text, Bytes, codes}
use pylogstream.Text.Utf8.{decode}
use pylogstream.Text.Split.{split}
use pylogstream.Text.Words.{blank}
use pylogstream.Text.Decimal.{strip, is_space, parse_int}
use pylogstream.Protocol.Packets.{Packet, Response, TopicMetaData}
use pylogstream.Protocol.Encoder.Responses.{newline}
use pylogstream.Protocol.Parser.{
  part, int_part, valid_acks, parse_replicas, fields, parse_packet_header,
}

-- An ACK and an OAK frame differ in the class of the response only.
unfoldable pub parse_ack : (Text → ℤ → ℤ → Response) → Text → Result Response
unfolding valid_acks
parse_ack response msg = do
  let parts = fields 3 msg
  acks ← part parts 2
  if valid_acks acks
      then (do
        topic ← part parts 1
        offset ← int_part parts 3
        n ← parse_int acks
        ok (response topic offset n))
      else err value_error

unfoldable pub parse_client_id : Text → Result Response
parse_client_id msg = do id ← part (fields 1 msg) 1; ok (Response.client_id id)

unfoldable pub parse_fetch_offset : Text → Result Response
parse_fetch_offset msg = do
  let parts = fields 2 msg
  topic ← part parts 1
  offset ← int_part parts 2
  ok (Response.fetch_offset topic offset)

unfoldable pub parse_error : Text → Result Response
parse_error msg = do
  let parts = fields 2 msg
  message ← (if ltb 2 (length parts) then part parts 2 else ok [])
  code ← int_part parts 1
  ok (Response.error code message)

unfoldable pub parse_message : Text → Result Response
parse_message msg = do
  let parts = fields 2 msg
  topic ← part parts 1
  payload_len ← int_part parts 2
  ok (Response.message_header topic payload_len)

unfoldable pub parse_fetch : Text → Result Response
parse_fetch msg = do
  let parts = fields 4 msg
  topic ← part parts 1
  log_end_offset ← int_part parts 2
  high_watermark ← int_part parts 3
  payload_len ← int_part parts 4
  ok (
      Response.replica_fetch_header (record {
        topic = topic;
        log_end_offset = log_end_offset;
        high_watermark = high_watermark;
        payload_length = payload_len;
      }))

-- The fields of a topic's metadata, from the `i`-th part on.
unfoldable pub parse_metadata : List Text → ℕ → Result TopicMetaData
unfolding parse_replicas
parse_metadata parts i = do
  topic ← part parts i
  leader_id ← part parts (i + 1)
  leader_addr ← part parts (i + 2)
  leader_port ← int_part parts (i + 3)
  replicas ← part parts (i + 4)
  version ← int_part parts (i + 5)
  ok (record {
    topic = topic;
    leader_id = leader_id;
    leader_addr = leader_addr;
    leader_port = leader_port;
    replica_list = parse_replicas replicas;
    version = version;
  })

unfoldable pub parse_topic_metadata : Text → Result Response
unfolding parse_metadata
parse_topic_metadata msg = do m ← parse_metadata (fields 6 msg) 1; ok (Response.topic_meta_data m)

unfoldable pub parse_list_header : Text → Result Response
parse_list_header msg = do
  n ← int_part (fields 1 msg) 1
  ok (Response.topic_meta_data_list_header n)

unfoldable pub parse_not_leader : Text → Result Response
parse_not_leader msg = do
  let parts = fields 3 msg
  leader_id ← part parts 1
  leader_host ← part parts 2
  leader_port ← int_part parts 3
  ok (Response.not_leader_controller leader_id leader_host leader_port)

unfoldable pub parse_response_text : Text → Result Response
parse_response_text msg =
    let cmd = take 3 msg in
    if same cmd (codes "CID")
    then parse_client_id msg
    else if same cmd (codes "PNG")
    then ok Response.ping
    else if same cmd (codes "ACK")
    then parse_ack Response.pub_ack msg
    else if same cmd (codes "OAK")
    then parse_ack Response.offset_ack msg
    else if same cmd (codes "FCR")
    then parse_fetch_offset msg
    else if same cmd (codes "ERR")
    then parse_error msg
    else if same cmd (codes "MSG")
    then parse_message msg
    else if same cmd (codes "RPL")
    then parse_fetch msg
    else if same cmd (codes "CPR")
    then ok Response.controller_ping
    else if same cmd (codes "TMD")
    then parse_topic_metadata msg
    else if same cmd (codes "TML")
    then parse_list_header msg
    else if same cmd (codes "NLC")
    then parse_not_leader msg
    else err unknown_command

unfoldable pub parse_response : Bytes → Result (Packet Response)
unfolding parse_packet_header parse_response_text
parse_response bytes = do
  (header, rest) ← parse_packet_header bytes
  msg ← decode rest
  body ← parse_response_text msg
  ok (record { header = header; body = body })

-- The loop over the lines; a blank line is passed over.
unfoldable pub parse_lines : List Text → Result (List TopicMetaData)
unfolding parse_metadata
parse_lines [] = ok []
parse_lines (line ∷ lines) =
    let rest = parse_lines lines in
    if same (strip is_space line) []
    then rest
    else (do m ← parse_metadata (split blank line) 0; ms ← rest; ok (m ∷ ms))

unfoldable pub parse_metadata_list_payload : Bytes → Result (List TopicMetaData)
unfolding parse_lines
parse_metadata_list_payload [] = ok []
parse_metadata_list_payload (b ∷ payload) = do
  text ← decode (b ∷ payload)
  parse_lines (split newline text)
