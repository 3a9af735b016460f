-- ===== src/Protocol/RoundTrip/CommandBranches.antt =====
-- The branches of the command parser, each at the text of its own command.
use pylogstream.Prelude.{
  ℕ, Bool, true, false, List, [], ◌∷◌, ◌++◌, ◌≡◌, ◌≢◌, refl, ok, All-map, ℤ, arith, eqb_ℤ_iff, pos,
}
use pylogstream.Text.{Text, Bytes, codes}
use pylogstream.Text.Utf8.{encode}
use pylogstream.Text.Utf8.Parts.{encode-append, encode-IsAscii, IsAscii}
use pylogstream.Text.Split.{join}
use pylogstream.Text.Words.{blank, words, split_max-join}
use pylogstream.Text.Decimal.{show_ℕ, show_ℤ}
use pylogstream.Text.Decimal.RoundTrip.{
  IsNumeral, show_ℕ-IsNumeral, parse_int-show_ℤ, parse_int-show_ℕ,
}
use pylogstream.Text.Crc.{crc32}
use pylogstream.Protocol.Packets.{Command}
use pylogstream.Protocol.Encoder.{comma}
use pylogstream.Protocol.Parser.{fields}
use pylogstream.Protocol.Parser.Commands.{
  parse_client_id, parse_subscribe, parse_commit_offset, parse_fetch_offset, parse_publish,
  parse_pull, parse_replica_fetch, parse_register_topic, parse_metadata_request,
  parse_broker_register, parse_controller_ping, parse_isr_change, check_payload,
}
use pylogstream.Protocol.RoundTrip.{
  IsIdList, parse_replicas-join, IsWord, IsAcks, valid_acks-show_ℤ, numeral_word, ℕ_word,
}

pub commit_branch :
    (topic : Text) (offset acks : ℤ)
    → IsWord topic
    → IsAcks acks
    → parse_commit_offset (words (codes "CMT" ∷ topic ∷ show_ℤ acks ∷ show_ℤ offset ∷ []))
      ≡ ok (Command.commit_offset topic offset acks)
unfolding parse_commit_offset
commit_branch topic offset acks h k =
    rw
      (
        split_max-join blank 3 (codes "CMT" ∷ topic ∷ show_ℤ acks ∷ show_ℤ offset ∷ [])
            (omega arith, (h, (numeral_word acks, tt))),
        valid_acks-show_ℤ acks k,
        parse_int-show_ℤ offset,
        parse_int-show_ℤ acks,
      )
      refl

pub pull_branch :
    (topic : Text) (offset size : ℤ)
    → IsWord topic
    → parse_pull (words (codes "PUL" ∷ topic ∷ show_ℤ offset ∷ show_ℤ size ∷ []))
      ≡ ok (Command.pull topic offset size)
unfolding parse_pull
pull_branch topic offset size h =
    rw
      (
        split_max-join blank 3 (codes "PUL" ∷ topic ∷ show_ℤ offset ∷ show_ℤ size ∷ [])
            (omega arith, (h, (numeral_word offset, tt))),
        parse_int-show_ℤ offset,
        parse_int-show_ℤ size,
      )
      refl

pub replica_fetch_branch :
    (topic : Text) (offset size : ℤ) (replica_id : Text)
    → IsWord replica_id
    → IsWord topic
    → parse_replica_fetch
        (words (codes "RFH" ∷ replica_id ∷ topic ∷ show_ℤ offset ∷ show_ℤ size ∷ []))
      ≡ ok (Command.replica_fetch topic offset size replica_id)
unfolding parse_replica_fetch
replica_fetch_branch topic offset size id g h =
    rw
      (
        split_max-join blank 4 (codes "RFH" ∷ id ∷ topic ∷ show_ℤ offset ∷ show_ℤ size ∷ [])
            (omega arith, (g, (h, (numeral_word offset, tt)))),
        parse_int-show_ℤ offset,
        parse_int-show_ℤ size,
      )
      refl

pub broker_register_branch :
    (id host : Text) (port : ℤ)
    → IsWord id
    → IsWord host
    → parse_broker_register (words (codes "BRK" ∷ id ∷ host ∷ show_ℤ port ∷ []))
      ≡ ok (Command.broker_register id host port)
unfolding parse_broker_register
broker_register_branch id host port g h =
    rw
      (
        split_max-join blank 3 (codes "BRK" ∷ id ∷ host ∷ show_ℤ port ∷ [])
            (omega arith, (g, (h, tt))),
        parse_int-show_ℤ port,
      )
      refl

pub isr_branch :
    (topic : Text) (rs : List Text)
    → IsWord topic
    → rs ≢ []
    → IsIdList rs
    → parse_isr_change (words (codes "ISR" ∷ topic ∷ join comma rs ∷ []))
      ≡ ok (Command.isr_change topic rs)
unfolding parse_isr_change
isr_branch topic rs h k l =
    rw
      (
        split_max-join blank 2 (codes "ISR" ∷ topic ∷ join comma rs ∷ []) (omega arith, (h, tt)),
        parse_replicas-join rs k l,
      )
      refl

-- A payload behind its checksum passes the check.
pub check_payload-crc32 :
    (p : Text) (payload : Bytes)
    → encode p ≡ ok payload
    → check_payload true (words (show_ℕ (crc32 payload) ∷ p ∷ [])) ≡ ok tt
unfolding check_payload
check_payload-crc32 p payload e =
    rw
      (
        split_max-join blank 1 (show_ℕ (crc32 payload) ∷ p ∷ []) (ℕ_word (crc32 payload), tt),
        parse_int-show_ℕ (crc32 payload),
        e,
        (eqb_ℤ_iff (pos (crc32 payload)) (pos (crc32 payload))).1 refl,
      )
      refl

pub publish_branch :
    (flag : Bool) (topic : Text) (acks : ℤ) (p : Text) (payload : Bytes)
    → encode p ≡ ok payload
    → check_payload flag p ≡ ok tt
    → IsWord topic
    → IsAcks acks
    → parse_publish flag (words (codes "PUB" ∷ topic ∷ show_ℤ acks ∷ p ∷ []))
      ≡ ok (Command.publish topic payload acks flag)
unfolding parse_publish
publish_branch flag topic acks p payload e c h k =
    rw
      (
        split_max-join blank 3 (codes "PUB" ∷ topic ∷ show_ℤ acks ∷ p ∷ [])
            (omega arith, (h, (numeral_word acks, tt))),
        valid_acks-show_ℤ acks k,
        c,
        e,
        parse_int-show_ℤ acks,
      )
      refl

-- A command with one field.
pub one_field : (tag t : Text) → IsWord tag → fields 1 (words (tag ∷ t ∷ [])) ≡ tag ∷ t ∷ []
one_field tag t h = split_max-join blank 1 (tag ∷ t ∷ []) (h, tt)

pub encode_checked :
    (p : Text) (payload : Bytes)
    → encode p ≡ ok payload
    → encode (words (show_ℕ (crc32 payload) ∷ p ∷ []))
      ≡ ok (show_ℕ (crc32 payload) ++ blank ∷ payload)
encode_checked p payload e =
    unfold join in
    encode-append (show_ℕ (crc32 payload)) (blank ∷ p) _ (blank ∷ payload)
      (encode-IsAscii _ (All-map IsNumeral _ _ numeral_ascii (show_ℕ-IsNumeral (crc32 payload))))
      (encode-append (blank ∷ []) p (blank ∷ []) payload (unfold encode in refl) e)
  where
    numeral_ascii : (c : ℕ) → IsNumeral c → IsAscii c
    numeral_ascii c h = omega arith

pub check_payload_off : (p : Text) → check_payload false p ≡ ok tt
unfolding check_payload
check_payload_off p = refl

pub one_field_branches :
    (t : Text)
    → (parse_client_id (words (codes "CID" ∷ t ∷ [])) ≡ ok (Command.client_id t))
      × (parse_subscribe (words (codes "SUB" ∷ t ∷ [])) ≡ ok (Command.subscribe t))
      × (parse_fetch_offset (words (codes "FCH" ∷ t ∷ [])) ≡ ok (Command.fetch_offset t))
      × (parse_register_topic (words (codes "RGT" ∷ t ∷ [])) ≡ ok (Command.register_topic t))
      × (parse_metadata_request (words (codes "MTR" ∷ t ∷ [])) ≡ ok (Command.metadata_request t))
      × (parse_controller_ping (words (codes "CPG" ∷ t ∷ [])) ≡ ok (Command.controller_ping t))
unfolding parse_client_id parse_subscribe parse_fetch_offset parse_register_topic
    parse_metadata_request parse_controller_ping
one_field_branches t = (
  rw (one_field (codes "CID") t (omega arith)) refl,
  rw (one_field (codes "SUB") t (omega arith)) refl,
  rw (one_field (codes "FCH") t (omega arith)) refl,
  rw (one_field (codes "RGT") t (omega arith)) refl,
  rw (one_field (codes "MTR") t (omega arith)) refl,
  rw (one_field (codes "CPG") t (omega arith)) refl,
)
