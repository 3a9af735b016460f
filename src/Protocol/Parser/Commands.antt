-- ===== src/Protocol/Parser/Commands.antt =====
-- `_parse_command` and `parse_command` of parser.py, with a helper for each branch.
use pylogstream.Prelude.{
  List, ℤ, Bool, true, false, [], ◌∷◌, if◌then◌else◌, Result, ok, err, ◌>>=◌, take, same,
  value_error, checksum_failed, unknown_command, eqb_ℤ, pos,
}
use pylogstream.Text.{Text, Bytes, codes}
use pylogstream.Text.Utf8.{encode, decode}
use pylogstream.Text.Decimal.{parse_int}
use pylogstream.Text.Crc.{crc32}
use pylogstream.Protocol.Packets.{Packet, Command}
use pylogstream.Protocol.Parser.{
  part, int_part, valid_acks, parse_replicas, fields, parse_packet_header,
}

unfoldable pub parse_client_id : Text → Result Command
parse_client_id msg = do id ← part (fields 1 msg) 1; ok (Command.client_id id)

-- `msg.split(" ", 1)[-1]`: the whole text where there is no blank
last_part : List Text → Text
last_part [] = []
last_part (p ∷ []) = p
last_part (p ∷ q ∷ ps) = last_part (q ∷ ps)

unfoldable pub parse_subscribe : Text → Result Command
unfolding last_part
parse_subscribe msg = ok (Command.subscribe (last_part (fields 1 msg)))

unfoldable pub parse_commit_offset : Text → Result Command
unfolding valid_acks
parse_commit_offset msg = do
  let parts = fields 3 msg
  acks ← part parts 2
  if valid_acks acks
      then (do
        topic ← part parts 1
        offset ← int_part parts 3
        n ← parse_int acks
        ok (Command.commit_offset topic offset n))
      else err value_error

unfoldable pub parse_fetch_offset : Text → Result Command
parse_fetch_offset msg = do topic ← part (fields 1 msg) 1; ok (Command.fetch_offset topic)

unfoldable pub checksum_verify : Bytes → ℤ → Bool
checksum_verify msg checksum = eqb_ℤ (pos (crc32 msg)) checksum

-- `if checksum_enable:` the payload has to be a checksum, a blank and what the checksum is of.
unfoldable pub check_payload : Bool → Text → Result (Unit {0})
unfolding checksum_verify
check_payload false payload = ok tt
check_payload true payload = do
  let payload_parts = fields 1 payload
  hash ← int_part payload_parts 0
  text ← part payload_parts 1
  msg ← encode text
  if checksum_verify msg hash then ok tt else err checksum_failed

unfoldable pub parse_publish : Bool → Text → Result Command
unfolding check_payload valid_acks
parse_publish checksum_enable msg = do
  let parts = fields 3 msg
  topic ← part parts 1
  acks ← part parts 2
  if valid_acks acks
      then (do
        payload ← part parts 3
        _ ← check_payload checksum_enable payload
        bytes ← encode payload
        n ← parse_int acks
        ok (Command.publish topic bytes n checksum_enable))
      else err value_error

unfoldable pub parse_pull : Text → Result Command
parse_pull msg = do
  let parts = fields 3 msg
  topic ← part parts 1
  offset ← part parts 2
  size ← part parts 3
  m ← parse_int offset
  n ← parse_int size
  ok (Command.pull topic m n)

unfoldable pub parse_replica_fetch : Text → Result Command
parse_replica_fetch msg = do
  let parts = fields 4 msg
  replica_id ← part parts 1
  topic ← part parts 2
  offset ← part parts 3
  size ← part parts 4
  m ← parse_int offset
  n ← parse_int size
  ok (Command.replica_fetch topic m n replica_id)

unfoldable pub parse_register_topic : Text → Result Command
parse_register_topic msg = do topic ← part (fields 1 msg) 1; ok (Command.register_topic topic)

unfoldable pub parse_metadata_request : Text → Result Command
parse_metadata_request msg = do topic ← part (fields 1 msg) 1; ok (Command.metadata_request topic)

unfoldable pub parse_broker_register : Text → Result Command
parse_broker_register msg = do
  let parts = fields 3 msg
  broker_id ← part parts 1
  host ← part parts 2
  port ← int_part parts 3
  ok (Command.broker_register broker_id host port)

unfoldable pub parse_controller_ping : Text → Result Command
parse_controller_ping msg = do id ← part (fields 1 msg) 1; ok (Command.controller_ping id)

unfoldable pub parse_isr_change : Text → Result Command
unfolding parse_replicas
parse_isr_change msg = do
  let parts = fields 2 msg
  topic ← part parts 1
  isr ← part parts 2
  ok (Command.isr_change topic (parse_replicas isr))

-- The branches on `cmd`. Every branch but those of REG and PNG begins by `data.decode()`, which is
-- the last argument.
unfoldable pub command_branch : Text → Bool → Result Text → Result Command
command_branch cmd checksum_enable decoded =
    if same cmd (codes "REG")
    then ok Command.register
    else if same cmd (codes "CID")
    then (decoded >>= parse_client_id)
    else if same cmd (codes "SUB")
    then (decoded >>= parse_subscribe)
    else if same cmd (codes "CMT")
    then (decoded >>= parse_commit_offset)
    else if same cmd (codes "FCH")
    then (decoded >>= parse_fetch_offset)
    else if same cmd (codes "PUB")
    then (decoded >>= parse_publish checksum_enable)
    else if same cmd (codes "PUL")
    then (decoded >>= parse_pull)
    else if same cmd (codes "RFH")
    then (decoded >>= parse_replica_fetch)
    else if same cmd (codes "PNG")
    then ok Command.ping
    else if same cmd (codes "RGT")
    then (decoded >>= parse_register_topic)
    else if same cmd (codes "MTR")
    then (decoded >>= parse_metadata_request)
    else if same cmd (codes "BRK")
    then (decoded >>= parse_broker_register)
    else if same cmd (codes "CPG")
    then (decoded >>= parse_controller_ping)
    else if same cmd (codes "ISR")
    then (decoded >>= parse_isr_change)
    else err unknown_command

unfoldable pub parse_command_body : Bytes → Bool → Result Command
unfolding command_branch
parse_command_body bytes checksum_enable = do
  cmd ← decode (take 3 bytes)
  command_branch cmd checksum_enable (decode bytes)

unfoldable pub parse_command : Bytes → Bool → Result (Packet Command)
unfolding parse_packet_header parse_command_body
parse_command bytes checksum_enable = do
  (header, rest) ← parse_packet_header bytes
  body ← parse_command_body rest checksum_enable
  ok (record { header = header; body = body })
