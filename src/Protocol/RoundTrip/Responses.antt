-- ===== src/Protocol/RoundTrip/Responses.antt =====
-- Responses that are encoded, framed and parsed.
use pylogstream.Prelude.{
  [], ◌∷◌, ◌++◌, ◌≡◌, refl, sym, ap, ◌∙◌, Option, none, some, ok, err, value_error, ◌>>=◌,
  >>=-eq-ok, ℤ, pos, length, append-nil, arith,
}
use pylogstream.Text.{Text, Bytes, codes}
use pylogstream.Text.Utf8.{encode, decode-encode}
use pylogstream.Text.Split.{join}
use pylogstream.Protocol.Framer.{encode_frame, read_frame, read_frame-encode_frame}
use pylogstream.Protocol.Packets.{Packet, Response, EncodedFrame}
use pylogstream.Protocol.Encoder.{bytes_frame, file_frame, encode_packet_header, metadata_fields}
use pylogstream.Protocol.Encoder.Responses.{
  message_text, fetch_text, metadata_payload, response_text, response_frame, frame_or_refuse,
  encode_response,
}
use pylogstream.Protocol.Parser.Responses.{
  parse_topic_metadata, parse_response_text, parse_response,
}
use pylogstream.Protocol.RoundTrip.{
  IsAcks, IsHeader, IsWord, IsTagged, IsLine, head-IsCapital, bytes_frame_lem, file_frame_lem,
  parse_packet_header-encode,
}
use pylogstream.Protocol.RoundTrip.ResponseBranches.{
  ack_branch, client_id_branch, fetch_offset_branch, error_branch, message_branch, fetch_branch,
  not_leader_branch, list_header_branch, metadata_branch,
}

-- What a response has to be like to be read back. The last three have no encoding.
abbrev pub IsAnswerable : Response → Type 0
IsAnswerable (Response.client_id id) = Unit
IsAnswerable Response.ping = Unit
IsAnswerable (Response.offset_ack topic offset acks) = IsWord topic × IsAcks acks
IsAnswerable (Response.pub_ack topic offset acks) = IsWord topic × IsAcks acks
IsAnswerable (Response.fetch_offset topic offset) = IsWord topic
IsAnswerable (Response.error code message) = Unit
IsAnswerable (Response.message topic payload) = IsWord topic
IsAnswerable (Response.file topic file_path offset len) = IsWord topic
IsAnswerable (Response.mmap topic buffer) = IsWord topic
IsAnswerable (Response.replica_fetch_bytes h payload) = IsWord h.topic
IsAnswerable (Response.replica_fetch_mmap h buffer) = IsWord h.topic
IsAnswerable (Response.replica_fetch_file h file_path offset len) = IsWord h.topic
IsAnswerable (Response.topic_meta_data m) = IsLine m
IsAnswerable (Response.topic_meta_data_list metas) = Unit
IsAnswerable Response.controller_ping = Unit
IsAnswerable (Response.not_leader_controller leader_id leader_host leader_port) =
    IsWord leader_id × IsWord leader_host
IsAnswerable (Response.message_header topic len) = ⊥
IsAnswerable (Response.replica_fetch_header h) = ⊥
IsAnswerable (Response.topic_meta_data_list_header len) = ⊥

-- The response that is read from the frame: a header, where a payload or a part of a file follows.
abbrev pub received : Response → Response
received (Response.message topic payload) = Response.message_header topic (pos (length payload))
received (Response.file topic file_path offset len) = Response.message_header topic len
received (Response.mmap topic buffer) = Response.message_header topic (pos (length buffer))
received (Response.replica_fetch_bytes h payload) =
    Response.replica_fetch_header (record h { payload_length = pos (length payload) })
received (Response.replica_fetch_mmap h buffer) =
    Response.replica_fetch_header (record h { payload_length = pos (length buffer) })
received (Response.replica_fetch_file h file_path offset len) =
    Response.replica_fetch_header (record h { payload_length = len })
received (Response.topic_meta_data_list metas) =
    Response.topic_meta_data_list_header (pos (length (metadata_payload metas)))
received r = r

abbrev or_empty : Option Text → Text
or_empty none = []
or_empty (some t) = t

pub full_text : Response → Text
full_text r = or_empty (response_text r)

branch-full_text :
    (r : Response) → IsAnswerable r → parse_response_text (full_text r) ≡ ok (received r)
unfolding parse_response_text full_text response_text message_text fetch_text join metadata_fields
    parse_topic_metadata
branch-full_text (Response.client_id id) h = client_id_branch id
branch-full_text Response.ping h = refl
branch-full_text (Response.offset_ack topic offset acks) (h, k) =
    ack_branch Response.offset_ack (codes "OAK") topic offset acks (omega arith) h k
branch-full_text (Response.pub_ack topic offset acks) (h, k) =
    ack_branch Response.pub_ack (codes "ACK") topic offset acks (omega arith) h k
branch-full_text (Response.fetch_offset topic offset) h = fetch_offset_branch topic offset h
branch-full_text (Response.error code message) h = error_branch code message
branch-full_text (Response.message topic payload) h = message_branch topic _ h
branch-full_text (Response.file topic file_path offset len) h = message_branch topic len h
branch-full_text (Response.mmap topic buffer) h = message_branch topic _ h
branch-full_text (Response.replica_fetch_bytes f payload) h = fetch_branch f _ h
branch-full_text (Response.replica_fetch_mmap f buffer) h = fetch_branch f _ h
branch-full_text (Response.replica_fetch_file f file_path offset len) h = fetch_branch f len h
branch-full_text (Response.topic_meta_data m) h = metadata_branch m h
branch-full_text (Response.topic_meta_data_list metas) h = list_header_branch _
branch-full_text Response.controller_ping h = refl
branch-full_text (Response.not_leader_controller id host port) (g, h) =
    not_leader_branch id host port g h
branch-full_text (Response.message_header topic len) h = absurd h
branch-full_text (Response.replica_fetch_header f) h = absurd h
branch-full_text (Response.topic_meta_data_list_header len) h = absurd h

full_text-IsTagged : (r : Response) → IsAnswerable r → IsTagged (full_text r)
unfolding full_text response_text message_text fetch_text join
full_text-IsTagged (Response.message_header topic len) h = absurd h
full_text-IsTagged (Response.replica_fetch_header f) h = absurd h
full_text-IsTagged (Response.topic_meta_data_list_header len) h = absurd h
full_text-IsTagged (Response.topic_meta_data m) h = unfold metadata_fields in omega arith
full_text-IsTagged r h = omega arith

-- What follows the frame on the wire: a payload, or the part of a file that is sent.
abbrev pub IsFollowedBy : EncodedFrame → Response → Type 0
IsFollowedBy f (Response.message topic payload) = (f.payload ≡ some payload) × (f.file_path ≡ none)
IsFollowedBy f (Response.file topic file_path offset len) =
    (f.payload ≡ none)
    × (f.file_path ≡ some file_path)
    × (f.offset ≡ some offset)
    × (f.length ≡ some len)
IsFollowedBy f (Response.mmap topic buffer) = (f.payload ≡ some buffer) × (f.file_path ≡ none)
IsFollowedBy f (Response.replica_fetch_bytes h payload) =
    (f.payload ≡ some payload) × (f.file_path ≡ none)
IsFollowedBy f (Response.replica_fetch_mmap h buffer) =
    (f.payload ≡ some buffer) × (f.file_path ≡ none)
IsFollowedBy f (Response.replica_fetch_file h file_path offset len) =
    (f.payload ≡ none)
    × (f.file_path ≡ some file_path)
    × (f.offset ≡ some offset)
    × (f.length ≡ some len)
IsFollowedBy f (Response.topic_meta_data_list metas) =
    (payload : Bytes) × (encode (metadata_payload metas) ≡ ok payload)
    × (f.payload ≡ some payload)
    × (f.file_path ≡ none)
IsFollowedBy f r = (f.payload ≡ none) × (f.file_path ≡ none)

abbrev IsFrameOf : Text → EncodedFrame → Response → Type 0
IsFrameOf text f r =
    (body : Bytes) × (encode text ≡ ok body) × (encode_frame body ≡ ok f.header) × IsFollowedBy f r

plain_frame :
    (text : Text) (payload : Option Bytes) (f : EncodedFrame)
    → bytes_frame text [] payload ≡ ok f
    → (body : Bytes) × (encode text ≡ ok body)
      × (encode_frame body ≡ ok f.header)
      × ((f.payload ≡ payload) × (f.file_path ≡ none))
plain_frame text payload f h =
    let (body, u, v, p, q) = bytes_frame_lem text [] payload f h in
    (body, u, ap encode_frame (sym (append-nil body)) ∙ v, (p, q))

sent_file :
    (text path : Text) (offset len : ℤ) (f : EncodedFrame)
    → file_frame text path offset len ≡ ok f
    → (body : Bytes) × (encode text ≡ ok body)
      × (encode_frame body ≡ ok f.header)
      × ((f.payload ≡ none)
          × (f.file_path ≡ some path)
          × (f.offset ≡ some offset)
          × (f.length ≡ some len))
sent_file text path offset len f h =
    let (body, u, v, p, q, r, s) = file_frame_lem text path offset len f h in
    (body, u, v, (p, q, r, s))

response_frame_lem :
    (text : Text) (r : Response) (f : EncodedFrame)
    → response_frame text r ≡ ok f
    → IsFrameOf text f r
unfolding response_frame
response_frame_lem text (Response.message topic payload) f h = plain_frame text (some payload) f h
response_frame_lem text (Response.file topic path offset len) f h =
    sent_file text path offset len f h
response_frame_lem text (Response.mmap topic buffer) f h = plain_frame text (some buffer) f h
response_frame_lem text (Response.replica_fetch_bytes h payload) f k =
    plain_frame text (some payload) f k
response_frame_lem text (Response.replica_fetch_mmap h buffer) f k =
    plain_frame text (some buffer) f k
response_frame_lem text (Response.replica_fetch_file h path offset len) f k =
    sent_file text path offset len f k
response_frame_lem text (Response.topic_meta_data_list metas) f h =
    let (payload, e, k) = >>=-eq-ok (encode (metadata_payload metas)) _ h in
    let (body, u, v, (p, q)) = plain_frame text (some payload) f k in
    (body, u, v, (payload, e, p, q))
response_frame_lem text r f h = plain_frame text none f h

frame_or_refuse_lem :
    (head : Text) (r : Response) (o : Option Text) (f : EncodedFrame)
    → frame_or_refuse head r o ≡ ok f
    → IsFrameOf (head ++ or_empty o) f r
unfolding frame_or_refuse
frame_or_refuse_lem head r none f h = absurd (err_ne_ok h)
  where
    err_ne_ok : err value_error ≡ ok f → ⊥
    err_ne_ok k = cc
frame_or_refuse_lem head r (some t) f h = response_frame_lem (head ++ t) r f h

pub encode_response_lem :
    (resp : Packet Response) (f : EncodedFrame)
    → encode_response resp ≡ ok f
    → IsFrameOf (encode_packet_header resp.header ++ full_text resp.body) f resp.body
unfolding encode_response full_text
encode_response_lem resp f h = frame_or_refuse_lem _ resp.body (response_text resp.body) f h

parse_full_text :
    (header : Option Text) (t : Text) (body : Bytes)
    → IsHeader header
    → IsTagged t
    → encode (encode_packet_header header ++ t) ≡ ok body
    → parse_response body
      ≡ (parse_response_text t >>= λ r. ok (record { header = header; body = r }))
unfolding parse_response
parse_full_text header [] body hh ht e = absurd ht
parse_full_text header (a ∷ t) body hh ht e =
    let (rest, u, v) = parse_packet_header-encode header a t body hh (head-IsCapital a t ht) e in
    rw (v, decode-encode (a ∷ t) rest u) refl

-- A stream that begins with an encoded response holds one frame before the rest. The frame is parsed
-- to the response, or to the header that announces its payload, correlation id included; and the
-- encoded frame comes with the response's own payload or part of a file. The header's id is not empty
-- and without `]`; the fields of the response hold no separator.
pub parse_response-encode_response :
    (resp : Packet Response) (f : EncodedFrame) (rest : Bytes)
    → IsHeader resp.header
    → IsAnswerable resp.body
    → encode_response resp ≡ ok f
    → ((read_frame (f.header ++ rest)).1 ≡ rest)
      × (parse_response (read_frame (f.header ++ rest)).0
          ≡ ok (record { header = resp.header; body = received resp.body }))
      × IsFollowedBy f resp.body
parse_response-encode_response resp f rest hh a h =
    let (body, u, v, w) = encode_response_lem resp f h in
    rw (read_frame-encode_frame body f.header rest v) (
      refl,
      rw (parse_full_text resp.header _ body hh (full_text-IsTagged resp.body a) u)
          (rw (branch-full_text resp.body a) refl),
      w,
    )
