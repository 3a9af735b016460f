-- ===== src/Replication/Fetcher/Answer.antt =====
-- fetcher.py and encoder.py: a fetcher reads what its leader's answer holds.
use pylogstream.Prelude.{
  true, ◌≡◌, refl, ap, ◌∙◌, sym, [], ◌++◌, append_assoc, Option, arith, ok, pos, leb, length,
  length-append, take-append, drop-append,
}
use pylogstream.Text.{Text, Bytes}
use pylogstream.Text.Words.{be32}
use pylogstream.Protocol.Packets.{Packet, Response, FetchHeader, EncodedFrame}
use pylogstream.Protocol.Framer.{
  decode_length, encode_frame_inv, read_frame-encode_frame, decode_length-be32,
}
use pylogstream.Protocol.Encoder.Responses.{encode_response}
use pylogstream.Protocol.Parser.Responses.{parse_response}
use pylogstream.Protocol.RoundTrip.{IsHeader, IsWord}
use pylogstream.Protocol.RoundTrip.Responses.{parse_response-encode_response, encode_response_lem}
use pylogstream.Replication.Fetcher.{read_exactly, read_fetched, announced}

pub read_exactly-append : (xs ys : Bytes) → read_exactly (pos (length xs)) (xs ++ ys) ≡ ok (xs, ys)
unfolding read_exactly
read_exactly-append xs ys =
    let e : leb (length xs) (length (xs ++ ys)) ≡ true = ground (arith, length-append xs ys) in
    rw (e, take-append xs ys, drop-append xs ys) refl

read_framed :
    (prefix body payload rest : Bytes) (resp : Packet Response)
    → length prefix ≡ 4
    → decode_length prefix ≡ length body
    → parse_response body ≡ ok resp
    → announced resp.body ≡ ok (pos (length payload))
    → read_fetched (prefix ++ (body ++ (payload ++ rest))) ≡ ok (payload, rest)
unfolding read_fetched
read_framed prefix body payload rest resp four len parsed known =
    let first : read_exactly (pos 4) (prefix ++ (body ++ (payload ++ rest)))
        ≡ ok (prefix, body ++ (payload ++ rest)) =
      ap (λ n. read_exactly (pos n) (prefix ++ (body ++ (payload ++ rest)))) (sym four)
      ∙ read_exactly-append prefix (body ++ (payload ++ rest)) in
    rw
      (
        first,
        len,
        read_exactly-append body (payload ++ rest),
        parsed,
        known,
        read_exactly-append payload rest,
      )
      refl

module _ (header : Option Text) (h : FetchHeader) (payload : Bytes) (f : EncodedFrame) where
  -- An answer with copied bytes that a leader encodes, read by a fetcher from a stream that begins with
  -- it, gives the payload and leaves what follows. The topic and the id hold no separator.
  pub read_fetched-encode_response :
      (rest : Bytes)
      → IsHeader header
      → IsWord h.topic
      → encode_response (record { header = header; body = Response.replica_fetch_bytes h payload })
        ≡ ok f
      → read_fetched (f.header ++ (payload ++ rest)) ≡ ok (payload, rest)
  unfolding announced
  read_fetched-encode_response rest hh hw e =
      let resp : Packet Response = record {
        header = header;
        body = Response.replica_fetch_bytes h payload;
      } in
      let (body, _, v, _) = encode_response_lem resp f e in
      let (_, framed) = encode_frame_inv body f.header v in
      let (_, q, _) = parse_response-encode_response resp f [] hh hw e in
      let parsed =
        ap (λ (p : Bytes × Bytes). parse_response p.0)
          (sym (read_frame-encode_frame body f.header [] v))
        ∙ q in
      ap (λ t. read_fetched (t ++ (payload ++ rest))) framed
      ∙ ap read_fetched (append_assoc (be32 (length body)) body (payload ++ rest))
      ∙ read_framed (be32 (length body)) body payload rest _ refl (decode_length-be32 (length body))
          parsed refl
