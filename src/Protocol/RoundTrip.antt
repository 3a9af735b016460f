-- ===== src/Protocol/RoundTrip.antt =====
-- What the round trips of commands and of responses share: the packet header.
pub mod CommandBranches
pub mod ResponseBranches
pub mod Commands
pub mod Responses
pub mod Metadata
use mathlib.Core.List.{cons-ne-nil}
use pylogstream.Prelude.{
  ℕ, Bool, true, false, List, [], ◌∷◌, ◌++◌, ◌≡◌, ◌≢◌, refl, sym, ap, ◌∙◌, Option, none, some,
  Result, ok, ◌>>=◌, >>=-eq-ok, All, All-map, All-append, same_iff, ℤ, pos, negsuc, ◌⊎◌, inl, inr,
  arith, append_assoc, append-nil, ◌≤◌, ◌<◌,
}
use pylogstream.Text.{Text, Bytes, codes}
use pylogstream.Text.Utf8.{encode, decode, decode-encode}
use pylogstream.Text.Utf8.Parts.{encode-append_inv}
use pylogstream.Text.Split.{Lacks, join, split, split-join, partition, partition-append}
use pylogstream.Text.Decimal.{is_space, lstrip, show_ℕ, show_ℤ}
use pylogstream.Text.Decimal.RoundTrip.{IsNumeral, show_ℕ-IsNumeral, show_ℤ-IsNumeral}
use pylogstream.Text.Words.{blank}
use pylogstream.Protocol.Framer.{encode_frame}
use pylogstream.Protocol.Packets.{TopicMetaData, EncodedFrame}
use pylogstream.Protocol.Encoder.{
  comma, show_replicas, encode_packet_header, bytes_frame, file_frame,
}
use pylogstream.Protocol.Parser.{
  parse_replicas, strip_prefix, match_header, parse_packet_header, valid_acks,
}

-- A correlation id is not empty and holds no `]`.
abbrev pub IsHeader : Option Text → Type 0
IsHeader none = Unit
IsHeader (some id) = (id ≢ []) × Lacks b']' id

-- A capital letter.
abbrev pub IsCapital : ℕ → Type 0
IsCapital c = (b'A' ≤ c) × (c ≤ b'Z')

match_header-none : (c : ℕ) (t : Text) → IsCapital c → match_header (c ∷ t) ≡ none
unfolding match_header
match_header-none c t h = ground arith

match_header-some :
    (id t : Text) (c : ℕ)
    → id ≢ []
    → Lacks b']' id
    → IsCapital c
    → match_header (codes "[CRR=" ++ (id ++ (codes "] " ++ c ∷ t))) ≡ some (id, c ∷ t)
unfolding match_header
match_header-some [] t c h _ _ = absurd (h refl)
match_header-some (i ∷ id) t c _ k l =
    rw (partition-append b']' (i ∷ id) (b' ' ∷ c ∷ t) k) (ground arith)

numeral_ne_blank : (c : ℕ) → IsNumeral c → c ≢ blank
numeral_ne_blank c h = omega arith

parse_none :
    (c : ℕ) (t : Text) (body : Bytes)
    → IsCapital c
    → encode (c ∷ t) ≡ ok body
    → parse_packet_header body ≡ ok (none, body)
unfolding parse_packet_header
parse_none c t body hc e = rw (decode-encode (c ∷ t) body e, match_header-none c t hc) refl

head_none : (t : Text) → encode_packet_header none ++ t ≡ t
unfolding encode_packet_header
head_none t = refl

regroup :
    (id t : Text) → encode_packet_header (some id) ++ t ≡ codes "[CRR=" ++ (id ++ (codes "] " ++ t))
unfolding encode_packet_header
regroup id t = simp append_assoc

parse_some :
    (id : Text) (c : ℕ) (t : Text) (body rest : Bytes)
    → id ≢ []
    → Lacks b']' id
    → IsCapital c
    → encode (codes "[CRR=" ++ (id ++ (codes "] " ++ c ∷ t))) ≡ ok body
    → encode (c ∷ t) ≡ ok rest
    → parse_packet_header body ≡ ok (some id, rest)
unfolding parse_packet_header
parse_some id c t body rest hi hl hc e u =
    rw
      (
        decode-encode (codes "[CRR=" ++ (id ++ (codes "] " ++ c ∷ t))) body e,
        match_header-some id t c hi hl hc,
        u,
      )
      refl

pub numeral_word : (z : ℤ) → Lacks blank (show_ℤ z)
numeral_word z = All-map IsNumeral _ (show_ℤ z) numeral_ne_blank (show_ℤ-IsNumeral z)

pub ℕ_word : (n : ℕ) → Lacks blank (show_ℕ n)
ℕ_word n = All-map IsNumeral _ (show_ℕ n) numeral_ne_blank (show_ℕ-IsNumeral n)

-- The values that the parsers take for `acks`.
abbrev pub IsAcks : ℤ → Type 0
IsAcks z = (z ≡ negsuc 0) ⊎ (z ≡ pos 0) ⊎ (z ≡ pos 1)

pub valid_acks-show_ℤ : (z : ℤ) → IsAcks z → valid_acks (show_ℤ z) ≡ true
unfolding valid_acks show_ℤ
valid_acks-show_ℤ z (inl e) = rw e refl
valid_acks-show_ℤ z (inr (inl e)) = rw e refl
valid_acks-show_ℤ z (inr (inr e)) = rw e refl

-- What stands in a frame is the text, and the bytes behind it.
pub bytes_frame_lem :
    (text : Text) (tail : Bytes) (payload : Option Bytes) (f : EncodedFrame)
    → bytes_frame text tail payload ≡ ok f
    → (bytes : Bytes) × (encode text ≡ ok bytes)
      × (encode_frame (bytes ++ tail) ≡ ok f.header)
      × (f.payload ≡ payload)
      × (f.file_path ≡ none)
unfolding bytes_frame
bytes_frame_lem text tail payload f h =
    let (bytes, p, q) = >>=-eq-ok (encode text) _ h in
    let (header, u, v) = >>=-eq-ok (encode_frame (bytes ++ tail)) _ q in
    (bytes, p, ground arith, ground arith, ground arith)

pub file_frame_lem :
    (text path : Text) (offset len : ℤ) (f : EncodedFrame)
    → file_frame text path offset len ≡ ok f
    → (bytes : Bytes) × (encode text ≡ ok bytes)
      × (encode_frame bytes ≡ ok f.header)
      × (f.payload ≡ none)
      × (f.file_path ≡ some path)
      × (f.offset ≡ some offset)
      × (f.length ≡ some len)
unfolding file_frame
file_frame_lem text path offset len f h =
    let (bytes, p, q) = >>=-eq-ok (encode text) _ h in
    let (header, u, v) = >>=-eq-ok (encode_frame bytes) _ q in
    (bytes, p, ground arith, ground arith, ground arith, ground arith, ground arith)

-- The header of a packet, and what stands behind it, are read back.
pub parse_packet_header-encode :
    (h : Option Text) (c : ℕ) (t : Text) (body : Bytes)
    → IsHeader h
    → IsCapital c
    → encode (encode_packet_header h ++ c ∷ t) ≡ ok body
    → (rest : Bytes) × (encode (c ∷ t) ≡ ok rest) × (parse_packet_header body ≡ ok (h, rest))
parse_packet_header-encode none c t body hh hc e =
    let e' : encode (c ∷ t) ≡ ok body = ap encode (sym (head_none (c ∷ t))) ∙ e in
    (body, e', parse_none c t body hc e')
parse_packet_header-encode (some id) c t body (hi, hl) hc e =
    let (_, rest, _, u, _) = encode-append_inv (encode_packet_header (some id)) (c ∷ t) body e in
    (rest, u, parse_some id c t body rest hi hl hc (ap encode (sym (regroup id (c ∷ t))) ∙ e) u)

-- A text that begins with three capital letters.
abbrev pub IsTagged : Text → Type 0
IsTagged (a ∷ b ∷ c ∷ t) = IsCapital a × IsCapital b × IsCapital c
IsTagged _ = ⊥

pub head-IsCapital : (a : ℕ) (t : Text) → IsTagged (a ∷ t) → IsCapital a
head-IsCapital a [] h = absurd h
head-IsCapital a (b ∷ []) h = absurd h
head-IsCapital a (b ∷ c ∷ t) h = h.0

abbrev pub IsWord : Text → Type 0
IsWord = Lacks blank

-- A list of ids that is written with commas. The list of the one id `-` is written like an empty one.
abbrev pub IsIdList : List Text → Type 0
IsIdList rs = All (Lacks comma) rs × (rs ≢ codes "-" ∷ [])

join_ne_dash : (r : Text) (rs : List Text) → IsIdList (r ∷ rs) → join comma (r ∷ rs) ≢ codes "-"
join_ne_dash r rs (h, n) e =
    n (sym (split-join comma r rs h) ∙ ap (split comma) e ∙ (unfold split in refl))

pub parse_replicas-join :
    (rs : List Text) → rs ≢ [] → IsIdList rs → parse_replicas (join comma rs) ≡ rs
unfolding parse_replicas
parse_replicas-join [] h _ = absurd (h refl)
parse_replicas-join (r ∷ rs) _ (h, n) = ground (
  arith,
  same_iff (join comma (r ∷ rs)) (codes "-"),
  split-join comma r rs h,
  join_ne_dash r rs (h, n),
)

pub parse_replicas-show_replicas :
    (rs : List Text) → IsIdList rs → parse_replicas (show_replicas rs) ≡ rs
unfolding show_replicas
parse_replicas-show_replicas [] h = unfold parse_replicas in refl
parse_replicas-show_replicas (r ∷ rs) h = parse_replicas-join (r ∷ rs) (cons-ne-nil r rs) h

-- Texts without a character other than the separator, joined, are without it.
pub join-Lacks : (sep c : ℕ) (rs : List Text) → sep ≢ c → All (Lacks c) rs → Lacks c (join sep rs)
unfolding join
join-Lacks sep c [] n h = tt
join-Lacks sep c (r ∷ []) n h = h.0
join-Lacks sep c (r ∷ q ∷ rs) n (h, k) =
    All-append (λ d. d ≢ c) r (sep ∷ join sep (q ∷ rs)) h (n, join-Lacks sep c (q ∷ rs) n k)

pub show_replicas-Lacks :
    (c : ℕ) (rs : List Text) → comma ≢ c → b'-' ≢ c → All (Lacks c) rs → Lacks c (show_replicas rs)
unfolding show_replicas
show_replicas-Lacks c [] n m h = (m, tt)
show_replicas-Lacks c (r ∷ rs) n m h = join-Lacks comma c (r ∷ rs) n h

-- Metadata that can be written in a line: no field but for the numbers holds a blank.
abbrev pub IsLine : TopicMetaData → Type 0
IsLine m =
    IsWord m.topic
    × IsWord m.leader_id
    × IsWord m.leader_addr
    × IsIdList m.replica_list
    × All IsWord m.replica_list
