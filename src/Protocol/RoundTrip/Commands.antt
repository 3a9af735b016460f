-- ===== src/Protocol/RoundTrip/Commands.antt =====
-- Commands that are encoded, framed and parsed.
use pylogstream.Prelude.{
  Bool, true, false, List, [], ◌∷◌, ◌++◌, ◌≡◌, ◌≢◌, refl, sym, ap, ◌∙◌, Option, none, some, ok,
  ◌>>=◌, ℤ, take, append_assoc, arith, append-nil,
}
use pylogstream.Text.{Text, Bytes, codes}
use pylogstream.Text.Utf8.{encode, decode-encode}
use pylogstream.Text.Utf8.Parts.{take-encode, encode-append}
use pylogstream.Text.Split.{join}
use pylogstream.Text.Words.{blank, words}
use pylogstream.Text.Decimal.{show_ℕ, show_ℤ}
use pylogstream.Text.Crc.{crc32}
use pylogstream.Protocol.Framer.{encode_frame, read_frame, read_frame-encode_frame}
use pylogstream.Protocol.Packets.{Packet, Command, EncodedFrame}
use pylogstream.Protocol.Encoder.{encode_packet_header}
use pylogstream.Protocol.Encoder.Commands.{
  command_text, publish_text, encode_command_body, encode_command,
}
use pylogstream.Protocol.Parser.Commands.{command_branch, parse_command_body, parse_command}
use pylogstream.Protocol.RoundTrip.{
  IsIdList, IsTagged, IsWord, head-IsCapital, bytes_frame_lem, IsHeader, parse_packet_header-encode,
  IsAcks,
}
use pylogstream.Protocol.RoundTrip.CommandBranches.{
  commit_branch, pull_branch, replica_fetch_branch, broker_register_branch, isr_branch,
  check_payload-crc32, publish_branch, encode_checked, check_payload_off, one_field_branches,
}

-- What a command has to be like to be read back: every field but the last is without blanks, `acks`
-- is in range, a payload is UTF-8, and an ISR list is not empty and is not written like an empty one.
abbrev pub IsSendable : Command → Type 0
IsSendable Command.register = Unit
IsSendable (Command.client_id id) = Unit
IsSendable (Command.publish topic payload acks c) =
    (p : Text) × (encode p ≡ ok payload) × IsWord topic × IsAcks acks
IsSendable (Command.fetch_offset topic) = Unit
IsSendable (Command.pull topic offset size) = IsWord topic
IsSendable (Command.subscribe topic) = Unit
IsSendable (Command.commit_offset topic offset acks) = IsWord topic × IsAcks acks
IsSendable Command.ping = Unit
IsSendable (Command.replica_fetch topic offset size replica_id) = IsWord replica_id × IsWord topic
IsSendable (Command.register_topic topic) = Unit
IsSendable (Command.metadata_request topic) = Unit
IsSendable (Command.broker_register broker_id host port) = IsWord broker_id × IsWord host
IsSendable (Command.controller_ping id) = Unit
IsSendable (Command.broker_metadata_list id) = ⊥
IsSendable (Command.isr_change topic isr_list) = IsWord topic × (isr_list ≢ []) × IsIdList isr_list

-- The command that is read. With checksums on, a published payload keeps its checksum in front.
abbrev pub received_payload : Bool → Bytes → Bytes
received_payload true payload = show_ℕ (crc32 payload) ++ blank ∷ payload
received_payload false payload = payload

abbrev pub received : Bool → Command → Command
received flag (Command.publish topic payload acks c) =
    Command.publish topic (received_payload flag payload) acks flag
received flag c = c

-- The text of a whole frame, a published payload included.
publish_fields : Bool → Text → Bytes → ℤ → Text → List Text
publish_fields true topic payload acks p =
    codes "PUB" ∷ topic ∷ show_ℤ acks ∷ show_ℕ (crc32 payload) ∷ p ∷ []
publish_fields false topic payload acks p = codes "PUB" ∷ topic ∷ show_ℤ acks ∷ p ∷ []

full_text : Bool → (c : Command) → IsSendable c → Text
unfolding publish_fields
full_text flag (Command.publish topic payload acks c) (p, _, _, _) =
    words (publish_fields flag topic payload acks p)
full_text flag c s = elim (command_text c) [ none ↦ [] | some t ↦ t ]

publish_full_branch :
    (flag : Bool) (topic : Text) (payload : Bytes) (acks : ℤ) (p : Text)
    → encode p ≡ ok payload
    → IsWord topic
    → IsAcks acks
    → command_branch
        (take 3 (words (publish_fields flag topic payload acks p)))
        flag
        (ok (words (publish_fields flag topic payload acks p)))
      ≡ ok (Command.publish topic (received_payload flag payload) acks flag)
unfolding publish_fields join command_branch
publish_full_branch true topic payload acks p e h k =
    publish_branch true topic acks (words (show_ℕ (crc32 payload) ∷ p ∷ []))
      (show_ℕ (crc32 payload) ++ blank ∷ payload) (encode_checked p payload e)
      (check_payload-crc32 p payload e) h k
publish_full_branch false topic payload acks p e h k =
    publish_branch false topic acks p payload e (check_payload_off p) h k

publish_fields-tag :
    (flag : Bool) (topic : Text) (payload : Bytes) (acks : ℤ) (p : Text)
    → (rest : Text) × (words (publish_fields flag topic payload acks p) ≡ codes "PUB" ++ rest)
unfolding publish_fields join
publish_fields-tag true topic payload acks p = (_, refl)
publish_fields-tag false topic payload acks p = (_, refl)

branch-full_text :
    (flag : Bool) (c : Command) (s : IsSendable c)
    → command_branch (take 3 (full_text flag c s)) flag (ok (full_text flag c s))
      ≡ ok (received flag c)
unfolding command_branch full_text command_text join
branch-full_text flag Command.register s = refl
branch-full_text flag (Command.client_id id) s = (one_field_branches id).0
branch-full_text flag (Command.publish topic payload acks c) (p, e, h, k) =
    publish_full_branch flag topic payload acks p e h k
branch-full_text flag (Command.fetch_offset topic) s = (one_field_branches topic).2
branch-full_text flag (Command.pull topic offset size) s = pull_branch topic offset size s
branch-full_text flag (Command.subscribe topic) s = (one_field_branches topic).1
branch-full_text flag (Command.commit_offset topic offset acks) (h, k) =
    commit_branch topic offset acks h k
branch-full_text flag Command.ping s = refl
branch-full_text flag (Command.replica_fetch topic offset size id) (g, h) =
    replica_fetch_branch topic offset size id g h
branch-full_text flag (Command.register_topic topic) s = (one_field_branches topic).3
branch-full_text flag (Command.metadata_request topic) s = (one_field_branches topic).4
branch-full_text flag (Command.broker_register id host port) (g, h) =
    broker_register_branch id host port g h
branch-full_text flag (Command.controller_ping id) s = (one_field_branches id).5
branch-full_text flag (Command.broker_metadata_list id) s = absurd s
branch-full_text flag (Command.isr_change topic rs) (h, k, l) = isr_branch topic rs h k l

full_text-IsTagged : (flag : Bool) (c : Command) (s : IsSendable c) → IsTagged (full_text flag c s)
unfolding full_text command_text join
full_text-IsTagged flag (Command.broker_metadata_list id) s = absurd s
full_text-IsTagged flag (Command.publish topic payload acks c) (p, _, _, _) =
    let (rest, e) = publish_fields-tag flag topic payload acks p in rw e (omega arith)
full_text-IsTagged flag c s = omega arith

publish_frame_text :
    (flag : Bool) (topic : Text) (payload : Bytes) (acks : ℤ) (p : Text)
    → publish_text flag topic payload acks ++ p ≡ words (publish_fields flag topic payload acks p)
unfolding publish_text publish_fields join
publish_frame_text true topic payload acks p = simp append_assoc
publish_frame_text false topic payload acks p = simp append_assoc

encode_command-full_text :
    (flag : Bool) (head : Text) (c : Command) (s : IsSendable c) (f : EncodedFrame)
    → encode_command_body head flag c ≡ ok f
    → (body : Bytes) × (encode (head ++ full_text flag c s) ≡ ok body)
      × (encode_frame body ≡ ok f.header)
unfolding encode_command_body full_text
encode_command-full_text flag head (Command.broker_metadata_list id) s f h = absurd s
encode_command-full_text flag head (Command.publish topic payload acks c) (p, e, _, _) f h =
    let (bytes, u, v, _, _) =
      bytes_frame_lem (head ++ publish_text flag topic payload acks) payload none f h in
    (
      bytes ++ payload,
      ap encode (
            ap (λ t. head ++ t) (sym (publish_frame_text flag topic payload acks p))
            ∙ sym (append_assoc head (publish_text flag topic payload acks) p))
          ∙ encode-append (head ++ publish_text flag topic payload acks) p bytes payload u e,
      v,
    )
encode_command-full_text flag head c s f h =
    let (bytes, u, v, _, _) = bytes_frame_lem _ [] none f h in
    (bytes, u, ap encode_frame (sym (append-nil bytes)) ∙ v)

parse_tagged :
    (flag : Bool) (t : Text) (rest : Bytes)
    → IsTagged t
    → encode t ≡ ok rest
    → parse_command_body rest flag ≡ command_branch (take 3 t) flag (ok t)
unfolding parse_command_body
parse_tagged flag [] rest h e = absurd h
parse_tagged flag (a ∷ []) rest h e = absurd h
parse_tagged flag (a ∷ b ∷ []) rest h e = absurd h
parse_tagged flag (a ∷ b ∷ c ∷ t) rest h e =
    rw (take-encode (a ∷ b ∷ c ∷ []) t rest (omega arith) e, decode-encode (a ∷ b ∷ c ∷ t) rest e)
      refl

parse_full_text :
    (flag : Bool) (header : Option Text) (t : Text) (body : Bytes)
    → IsHeader header
    → IsTagged t
    → encode (encode_packet_header header ++ t) ≡ ok body
    → parse_command body flag
      ≡ (command_branch (take 3 t) flag (ok t) >>= λ c. ok (record { header = header; body = c }))
unfolding parse_command
parse_full_text flag header [] body hh ht e = absurd ht
parse_full_text flag header (a ∷ t) body hh ht e =
    let (rest, u, v) = parse_packet_header-encode header a t body hh (head-IsCapital a t ht) e in
    rw (v, parse_tagged flag (a ∷ t) rest ht u) refl

-- A stream that begins with an encoded command holds exactly one frame before the rest, and the frame
-- is parsed to the command, correlation id included. The header's id is not empty and without `]`;
-- the command is sendable. With checksums on, a published payload comes with its checksum in front.
pub parse_command-encode_command :
    (cmd : Packet Command) (flag : Bool) (f : EncodedFrame) (rest : Bytes)
    → IsHeader cmd.header
    → IsSendable cmd.body
    → encode_command cmd flag ≡ ok f
    → ((read_frame (f.header ++ rest)).1 ≡ rest)
      × (parse_command (read_frame (f.header ++ rest)).0 flag
          ≡ ok (record { header = cmd.header; body = received flag cmd.body }))
unfolding encode_command
parse_command-encode_command cmd flag f rest hh s h =
    let (body, u, v) =
      encode_command-full_text flag (encode_packet_header cmd.header) cmd.body s f h in
    rw (read_frame-encode_frame body f.header rest v) (
      refl,
      rw (parse_full_text flag cmd.header _ body hh (full_text-IsTagged flag cmd.body s) u)
          (rw (branch-full_text flag cmd.body s) refl),
    )
