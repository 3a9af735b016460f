-- ===== src/Protocol/Encoder/Commands.antt =====
-- `encode_command` of encoder.py.
use pylogstream.Prelude.{
  Bool, true, false, [], ◌∷◌, ◌++◌, Option, none, some, Result, err, value_error, ℤ,
}
use pylogstream.Text.{Text, Bytes, codes}
use pylogstream.Text.Split.{join}
use pylogstream.Text.Words.{words}
use pylogstream.Text.Decimal.{show_ℕ, show_ℤ}
use pylogstream.Text.Crc.{crc32}
use pylogstream.Protocol.Packets.{Packet, Command, EncodedFrame}
use pylogstream.Protocol.Encoder.{encode_packet_header, comma, bytes_frame}

-- The commands that are all text. A `BrokerMetadataListCommand` has no encoding.
unfoldable pub command_text : Command → Option Text
command_text Command.register = some (codes "REG")
command_text (Command.client_id id) = some (words (codes "CID" ∷ id ∷ []))
command_text (Command.subscribe topic) = some (words (codes "SUB" ∷ topic ∷ []))
command_text (Command.commit_offset topic offset acks) =
    some (words (codes "CMT" ∷ topic ∷ show_ℤ acks ∷ show_ℤ offset ∷ []))
command_text (Command.fetch_offset topic) = some (words (codes "FCH" ∷ topic ∷ []))
command_text (Command.publish topic payload acks contains_checksum) = none
command_text (Command.pull topic offset size) =
    some (words (codes "PUL" ∷ topic ∷ show_ℤ offset ∷ show_ℤ size ∷ []))
command_text Command.ping = some (codes "PNG")
command_text (Command.replica_fetch topic offset size replica_id) =
    some (words (codes "RFH" ∷ replica_id ∷ topic ∷ show_ℤ offset ∷ show_ℤ size ∷ []))
command_text (Command.register_topic topic) = some (words (codes "RGT" ∷ topic ∷ []))
command_text (Command.metadata_request topic) = some (words (codes "MTR" ∷ topic ∷ []))
command_text (Command.broker_register broker_id host port) =
    some (words (codes "BRK" ∷ broker_id ∷ host ∷ show_ℤ port ∷ []))
command_text (Command.controller_ping broker_id) = some (words (codes "CPG" ∷ broker_id ∷ []))
command_text (Command.broker_metadata_list broker_id) = none
command_text (Command.isr_change topic isr_list) =
    some (words (codes "ISR" ∷ topic ∷ join comma isr_list ∷ []))

-- What stands before the payload of a PUB command, with the blank at its end.
unfoldable pub publish_text : Bool → Text → Bytes → ℤ → Text
publish_text true topic payload acks =
    words (codes "PUB" ∷ topic ∷ show_ℤ acks ∷ show_ℕ (crc32 payload) ∷ [] ∷ [])
publish_text false topic payload acks = words (codes "PUB" ∷ topic ∷ show_ℤ acks ∷ [] ∷ [])

unfoldable pub text_or_refuse : Text → Option Text → Result EncodedFrame
unfolding bytes_frame
text_or_refuse head none = err value_error
text_or_refuse head (some text) = bytes_frame (head ++ text) [] none

unfoldable pub encode_command_body : Text → Bool → Command → Result EncodedFrame
unfolding command_text publish_text text_or_refuse
encode_command_body head checksum_enable (Command.publish topic payload acks contains_checksum) =
    bytes_frame (head ++ publish_text checksum_enable topic payload acks) payload none
encode_command_body head checksum_enable body = text_or_refuse head (command_text body)

unfoldable pub encode_command : Packet Command → Bool → Result EncodedFrame
unfolding encode_packet_header encode_command_body
encode_command cmd checksum_enable =
    encode_command_body (encode_packet_header cmd.header) checksum_enable cmd.body
