-- ===== src/Network/Connection/TopicList.antt =====
-- network/controller.py and encoder.py: the topic list that a controller sends arrives.
use pylogstream.Prelude.{
  ℕ, zero, suc, ◌≡◌, refl, ap, ◌∙◌, sym, List, [], ◌∷◌, ◌++◌, append_assoc, true, Option, some,
  arith, ok, err, err-ne-ok, unknown_command, ok-injective, pos, ltb_ℤ, length, All,
}
use pylogstream.Text.{Text, Bytes}
use pylogstream.Text.Words.{be32}
use pylogstream.Text.Utf8.Parts.{IsAscii}
use pylogstream.Text.Utf8.{decode}
use pylogstream.Protocol.Packets.{Packet, Response, TopicMetaData, EncodedFrame}
use pylogstream.Protocol.Framer.{
  decode_length, encode_frame_inv, read_frame-encode_frame, decode_length-be32,
}
use pylogstream.Protocol.Encoder.Responses.{encode_response, metadata_payload}
use pylogstream.Protocol.Parser.Responses.{parse_response, parse_metadata_list_payload}
use pylogstream.Protocol.RoundTrip.{IsHeader, IsLine}
use pylogstream.Protocol.RoundTrip.Metadata.{
  IsOneLine, parse_metadata_list_payload-encode, announced-payload,
}
use pylogstream.Protocol.RoundTrip.Responses.{parse_response-encode_response, encode_response_lem}
use pylogstream.Replication.Fetcher.{read_exactly, sent}
use pylogstream.Replication.Fetcher.Answer.{read_exactly-append}
use pylogstream.Network.Connection.Read.{
  read_list, read_body, read_parsed, read_frame_data, read_response,
}

nothing_parsed : {p : Packet Response} → parse_response [] ≡ ok p → ⊥
nothing_parsed h = absurd (err-ne-ok (sym refused ∙ h))
  where
    refused : parse_response [] ≡ err unknown_command
    refused = unfold parse_response decode in refl

-- A frame that parses is not empty.
read_frame_data-parsed :
    (body stream : Bytes) (p : Packet Response)
    → parse_response body ≡ ok p
    → read_frame_data body stream ≡ read_body p stream
unfolding read_frame_data read_parsed
read_frame_data-parsed [] stream p h = absurd (nothing_parsed h)
read_frame_data-parsed (x ∷ body) stream p h = rw h refl

framed :
    (prefix body stream : Bytes) (p : Packet Response)
    → length prefix ≡ 4
    → decode_length prefix ≡ length body
    → parse_response body ≡ ok p
    → read_response (prefix ++ (body ++ stream)) ≡ read_body p stream
unfolding read_response
framed prefix body stream p four len parsed =
    let first : read_exactly (pos 4) (prefix ++ (body ++ stream)) ≡ ok (prefix, body ++ stream) =
      ap (λ n. read_exactly (pos n) (prefix ++ (body ++ stream))) (sym four)
      ∙ read_exactly-append prefix (body ++ stream) in
    rw (first, len, read_exactly-append body stream) (read_frame_data-parsed body stream p parsed)

module _ (header : Option Text) (metas : List TopicMetaData) where
  abbrev pub list_packet : Packet Response
  list_packet = record { header = header; body = Response.topic_meta_data_list metas }

  abbrev announcement : ℕ → Packet Response
  announcement n = record { header = header; body = Response.topic_meta_data_list_header (pos n) }

  -- The payload behind the announcement.
  read_announced :
      (n : ℕ) (payload rest : Bytes)
      → n ≡ length payload
      → parse_metadata_list_payload payload ≡ ok metas
      → read_body (announcement n) (payload ++ rest) ≡ ok (some list_packet, rest)
  unfolding read_body read_list parse_metadata_list_payload
  read_announced zero [] rest h e =
      ap
        (λ ms.
          ok (some (record { header = header; body = Response.topic_meta_data_list ms }), rest))
        (ok-injective e)
  read_announced zero (x ∷ payload) rest h e = absurd (omega (arith, h))
  read_announced (suc n) payload rest h e =
      let all : read_exactly (pos (suc n)) (payload ++ rest) ≡ ok (payload, rest) =
        ap (λ k. read_exactly (pos k) (payload ++ rest)) h ∙ read_exactly-append payload rest in
      let some_follow : ltb_ℤ (pos 0) (pos (suc n)) ≡ true = ground arith in
      rw (all, e, some_follow) refl

-- A topic list that the controller encodes in ASCII is read from a stream that begins with it: the list
-- and its header arrive, and what follows is left. The header's id is not empty and without `]`; no field
-- but the numbers holds a blank or a line break, no replica id a comma, and no replica list is the one
-- id `-`.
pub read_response-encode_response :
    (header : Option Text) (metas : List TopicMetaData) (f : EncodedFrame) (rest : Bytes)
    → IsHeader header
    → All IsLine metas
    → All IsOneLine metas
    → All IsAscii (metadata_payload metas)
    → encode_response (list_packet header metas) ≡ ok f
    → read_response (sent f ++ rest) ≡ ok (some (list_packet header metas), rest)
unfolding sent
read_response-encode_response header metas f rest hh lines one ascii e =
    let (body, _, v, (payload, encoded, follows, _)) =
      encode_response_lem (list_packet header metas) f e in
    let (_, framing) = encode_frame_inv body f.header v in
    let (_, q, _) = parse_response-encode_response (list_packet header metas) f [] hh tt e in
    let parsed : parse_response body
        ≡ ok (announcement header metas (length (metadata_payload metas))) =
      ap (λ (p : Bytes × Bytes). parse_response p.0)
        (sym (read_frame-encode_frame body f.header [] v))
      ∙ q in
    let len = (announced-payload metas payload encoded).1.1 ascii in
    let list = parse_metadata_list_payload-encode metas payload lines one encoded in
    rw follows (
      ap (λ t. read_response ((t ++ payload) ++ rest)) framing
      ∙ ap read_response (
          append_assoc (be32 (length body) ++ body) payload rest
          ∙ append_assoc (be32 (length body)) body (payload ++ rest))
      ∙ framed (be32 (length body)) body (payload ++ rest) _ refl (decode_length-be32 (length body))
          parsed
      ∙ read_announced header metas (length (metadata_payload metas)) payload rest len list)
