-- ===== src/Protocol/RoundTrip/ResponseBranches.antt =====
-- The branches of the response parser, each at the text of its own response.
use pylogstream.Prelude.{[], ◌∷◌, ◌≡◌, refl, ok, ℤ, arith}
use pylogstream.Text.{Text, codes}
use pylogstream.Text.Split.{split_max}
use pylogstream.Text.Words.{blank, words, split_max-join}
use pylogstream.Text.Decimal.{show_ℤ}
use pylogstream.Text.Decimal.RoundTrip.{parse_int-show_ℤ}
use pylogstream.Protocol.Packets.{Response, TopicMetaData, FetchHeader}
use pylogstream.Protocol.Encoder.{metadata_fields}
use pylogstream.Protocol.Encoder.Responses.{message_text, fetch_text}
use pylogstream.Protocol.Parser.Responses.{
  parse_ack, parse_client_id, parse_fetch_offset, parse_error, parse_message, parse_fetch,
  parse_metadata, parse_topic_metadata, parse_list_header, parse_not_leader,
}
use pylogstream.Protocol.RoundTrip.{
  IsAcks, valid_acks-show_ℤ, numeral_word, IsWord, IsLine, parse_replicas-show_replicas,
  show_replicas-Lacks,
}

pub ack_branch :
    (response : Text → ℤ → ℤ → Response) (tag topic : Text) (offset acks : ℤ)
    → IsWord tag
    → IsWord topic
    → IsAcks acks
    → parse_ack response (words (tag ∷ topic ∷ show_ℤ acks ∷ show_ℤ offset ∷ []))
      ≡ ok (response topic offset acks)
unfolding parse_ack
ack_branch response tag topic offset acks g h k =
    rw
      (
        split_max-join blank 3 (tag ∷ topic ∷ show_ℤ acks ∷ show_ℤ offset ∷ [])
            (g, (h, (numeral_word acks, tt))),
        valid_acks-show_ℤ acks k,
        parse_int-show_ℤ offset,
        parse_int-show_ℤ acks,
      )
      refl

pub client_id_branch :
    (id : Text) → parse_client_id (words (codes "CID" ∷ id ∷ [])) ≡ ok (Response.client_id id)
unfolding parse_client_id
client_id_branch id = rw (split_max-join blank 1 (codes "CID" ∷ id ∷ []) (omega arith, tt)) refl

pub fetch_offset_branch :
    (topic : Text) (offset : ℤ)
    → IsWord topic
    → parse_fetch_offset (words (codes "FCR" ∷ topic ∷ show_ℤ offset ∷ []))
      ≡ ok (Response.fetch_offset topic offset)
unfolding parse_fetch_offset
fetch_offset_branch topic offset h =
    rw
      (
        split_max-join blank 2 (codes "FCR" ∷ topic ∷ show_ℤ offset ∷ []) (omega arith, (h, tt)),
        parse_int-show_ℤ offset,
      )
      refl

pub error_branch :
    (code : ℤ) (message : Text)
    → parse_error (words (codes "ERR" ∷ show_ℤ code ∷ message ∷ []))
      ≡ ok (Response.error code message)
unfolding parse_error
error_branch code message =
    rw
      (
        split_max-join blank 2 (codes "ERR" ∷ show_ℤ code ∷ message ∷ [])
            (omega arith, (numeral_word code, tt)),
        parse_int-show_ℤ code,
      )
      refl

pub message_branch :
    (topic : Text) (len : ℤ)
    → IsWord topic
    → parse_message (message_text topic len) ≡ ok (Response.message_header topic len)
unfolding parse_message message_text
message_branch topic len h =
    rw
      (
        split_max-join blank 2 (codes "MSG" ∷ topic ∷ show_ℤ len ∷ []) (omega arith, (h, tt)),
        parse_int-show_ℤ len,
      )
      refl

pub fetch_branch :
    (h : FetchHeader) (len : ℤ)
    → IsWord h.topic
    → parse_fetch (fetch_text h len)
      ≡ ok (Response.replica_fetch_header (record h { payload_length = len }))
unfolding parse_fetch fetch_text
fetch_branch h len k =
    rw
      (
        split_max-join blank 4
            (codes "RPL"
              ∷ h.topic
              ∷ show_ℤ h.log_end_offset
              ∷ show_ℤ h.high_watermark
              ∷ show_ℤ len
              ∷ [])
            (
              omega arith,
              (k, (numeral_word h.log_end_offset, (numeral_word h.high_watermark, tt))),
            ),
        parse_int-show_ℤ h.log_end_offset,
        parse_int-show_ℤ h.high_watermark,
        parse_int-show_ℤ len,
      )
      refl

pub not_leader_branch :
    (id host : Text) (port : ℤ)
    → IsWord id
    → IsWord host
    → parse_not_leader (words (codes "NLC" ∷ id ∷ host ∷ show_ℤ port ∷ []))
      ≡ ok (Response.not_leader_controller id host port)
unfolding parse_not_leader
not_leader_branch id host port g h =
    rw
      (
        split_max-join blank 3 (codes "NLC" ∷ id ∷ host ∷ show_ℤ port ∷ [])
            (omega arith, (g, (h, tt))),
        parse_int-show_ℤ port,
      )
      refl

pub list_header_branch :
    (n : ℤ)
    → parse_list_header (words (codes "TML" ∷ show_ℤ n ∷ []))
      ≡ ok (Response.topic_meta_data_list_header n)
unfolding parse_list_header
list_header_branch n =
    rw (split_max-join blank 1 (codes "TML" ∷ show_ℤ n ∷ []) (omega arith, tt), parse_int-show_ℤ n)
      refl

-- The fields of metadata, behind anything, are parsed to it.
pub parse_metadata-fields :
    (m : TopicMetaData)
    → IsLine m
    → (parse_metadata (metadata_fields m) 0 ≡ ok m)
      × (parse_metadata (codes "TMD" ∷ metadata_fields m) 1 ≡ ok m)
unfolding parse_metadata metadata_fields
parse_metadata-fields m (_, _, _, h, _) = (
  rw
      (
        parse_int-show_ℤ m.leader_port,
        parse_int-show_ℤ m.version,
        parse_replicas-show_replicas m.replica_list h,
      )
      refl,
  rw
      (
        parse_int-show_ℤ m.leader_port,
        parse_int-show_ℤ m.version,
        parse_replicas-show_replicas m.replica_list h,
      )
      refl,
)

pub metadata_split :
    (m : TopicMetaData)
    → IsLine m
    → split_max blank 6 (words (codes "TMD" ∷ metadata_fields m)) ≡ codes "TMD" ∷ metadata_fields m
unfolding metadata_fields
metadata_split m (a, b, c, _, d) = split_max-join blank 6 _ (
  omega arith,
  (
    a,
    (
      b,
      (
        c,
        (
          numeral_word m.leader_port,
          (show_replicas-Lacks blank m.replica_list (omega arith) (omega arith) d, tt),
        ),
      ),
    ),
  ),
)

pub metadata_branch :
    (m : TopicMetaData)
    → IsLine m
    → parse_topic_metadata (words (codes "TMD" ∷ metadata_fields m))
      ≡ ok (Response.topic_meta_data m)
unfolding parse_topic_metadata
metadata_branch m h = rw (metadata_split m h, (parse_metadata-fields m h).1) refl
