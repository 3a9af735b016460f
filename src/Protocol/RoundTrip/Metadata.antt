-- ===== src/Protocol/RoundTrip/Metadata.antt =====
-- The payload of a TML response: one line for each topic.
use pylogstream.Prelude.{
  ℕ, true, false, List, [], ◌∷◌, map, ◌≡◌, ◌≢◌, refl, sym, ap, ◌∙◌, ok, All, All_left, All_right,
  All-map, Bool-cases, inl, inr, same, same_iff, length, length-append, ◌↔◌, ℤ, ◌≤◌, arith,
}
use pylogstream.Text.{Text, Bytes}
use pylogstream.Text.Utf8.{encode, decode, decode-encode}
use pylogstream.Text.Utf8.Parts.{encode-ne-nil, encode-nil, length-encode, IsAscii, encode-IsAscii}
use pylogstream.Text.Split.{Lacks, join, split, split-join}
use pylogstream.Text.Words.{blank}
use pylogstream.Text.Decimal.{show_ℤ, is_space, strip}
use pylogstream.Text.Decimal.RoundTrip.{strip-eq-nil}
use pylogstream.Text.Decimal.RoundTrip.{show_ℤ_ink, show_ℤ-IsNumeral, IsNumeral}
use pylogstream.Protocol.Packets.{TopicMetaData}
use pylogstream.Protocol.Encoder.{metadata_fields}
use pylogstream.Protocol.Encoder.Responses.{newline, metadata_line, metadata_payload}
use pylogstream.Protocol.Parser.Responses.{parse_lines, parse_metadata_list_payload}
use pylogstream.Protocol.RoundTrip.{IsLine, join-Lacks, show_replicas-Lacks, numeral_word}
use pylogstream.Protocol.RoundTrip.ResponseBranches.{parse_metadata-fields}

-- No field of the metadata holds a line break.
abbrev pub IsOneLine : TopicMetaData → Type 0
IsOneLine m =
    Lacks newline m.topic
    × Lacks newline m.leader_id
    × Lacks newline m.leader_addr
    × All (Lacks newline) m.replica_list

line_words : (m : TopicMetaData) → IsLine m → split blank (metadata_line m) ≡ metadata_fields m
unfolding metadata_line metadata_fields
line_words m (a, b, c, _, d) = split-join blank _ _ (
  a,
  (
    b,
    (
      c,
      (
        numeral_word m.leader_port,
        (
          show_replicas-Lacks blank m.replica_list (omega arith) (omega arith) d,
          (numeral_word m.version, tt),
        ),
      ),
    ),
  ),
)

-- A line holds a port, so it is not blank.
line_ink : (m : TopicMetaData) → All (λ c. is_space c ≡ true) (metadata_line m) → ⊥
unfolding metadata_line metadata_fields join
line_ink m h =
    let P : ℕ → Type 0 = λ c. is_space c ≡ true in
    let after_topic = All_right P m.topic _ h in
    let after_id = All_right P m.leader_id _ after_topic.1 in
    let after_addr = All_right P m.leader_addr _ after_id.1 in
    show_ℤ_ink m.leader_port (All_left P (show_ℤ m.leader_port) _ after_addr.1)

not_blank : (m : TopicMetaData) → same (strip is_space (metadata_line m)) [] ≡ false
not_blank m = elim (Bool-cases (same (strip is_space (metadata_line m)) [])) [
  | inl e ↦ absurd (line_ink m (strip-eq-nil is_space _ ((same_iff _ []).0 e)))
  | inr e ↦ e
]

parse_lines-map :
    (ms : List TopicMetaData) → All IsLine ms → parse_lines (map metadata_line ms) ≡ ok ms
unfolding parse_lines
parse_lines-map [] h = refl
parse_lines-map (m ∷ ms) (h, hs) =
    rw (not_blank m, line_words m h, (parse_metadata-fields m h).0, parse_lines-map ms hs) refl

numeral_ne_newline : (c : ℕ) → IsNumeral c → c ≢ newline
numeral_ne_newline c h = omega arith

numeral_line : (z : ℤ) → Lacks newline (show_ℤ z)
numeral_line z = All-map IsNumeral _ (show_ℤ z) numeral_ne_newline (show_ℤ-IsNumeral z)

line_Lacks : (m : TopicMetaData) → IsOneLine m → Lacks newline (metadata_line m)
unfolding metadata_line metadata_fields
line_Lacks m (a, b, c, d) = join-Lacks blank newline _ (omega arith) (
  a,
  (
    b,
    (
      c,
      (
        numeral_line m.leader_port,
        (
          show_replicas-Lacks newline m.replica_list (omega arith) (omega arith) d,
          (numeral_line m.version, tt),
        ),
      ),
    ),
  ),
)

lines_Lacks :
    (ms : List TopicMetaData) → All IsOneLine ms → All (Lacks newline) (map metadata_line ms)
lines_Lacks [] h = tt
lines_Lacks (m ∷ ms) (h, hs) = (line_Lacks m h, lines_Lacks ms hs)

payload_lines :
    (m : TopicMetaData) (ms : List TopicMetaData)
    → All IsOneLine (m ∷ ms)
    → split newline (metadata_payload (m ∷ ms)) ≡ map metadata_line (m ∷ ms)
unfolding metadata_payload
payload_lines m ms h = split-join newline _ _ (lines_Lacks (m ∷ ms) h)

parse_payload-ne-nil :
    (text : Text) (payload : Bytes)
    → payload ≢ []
    → decode payload ≡ ok text
    → parse_metadata_list_payload payload ≡ parse_lines (split newline text)
unfolding parse_metadata_list_payload
parse_payload-ne-nil text [] h e = absurd (h refl)
parse_payload-ne-nil text (b ∷ payload) h e = rw e refl

text-ne-nil : (m : TopicMetaData) (ms : List TopicMetaData) → metadata_payload (m ∷ ms) ≢ []
unfolding metadata_payload join
text-ne-nil m [] h = line_ink m (rw h tt)
text-ne-nil m (q ∷ ms) h = absurd (
    omega (
      arith,
      ap length h,
      length-append (metadata_line m) (newline ∷ join newline (map metadata_line (q ∷ ms))),
    ))

empty_payload : (payload : Bytes) → encode (metadata_payload []) ≡ ok payload → payload ≡ []
unfolding metadata_payload join
empty_payload payload e = encode-nil payload e

payload-ne-nil :
    (m : TopicMetaData) (ms : List TopicMetaData) (payload : Bytes)
    → encode (metadata_payload (m ∷ ms)) ≡ ok payload
    → payload ≢ []
payload-ne-nil m ms payload e = encode-ne-nil _ payload (text-ne-nil m ms) e

-- The payload of a topic list is parsed to the list, the empty list included. No field but the
-- numbers holds a blank or a line break, no replica id a comma, and no replica list is the one id `-`.
pub parse_metadata_list_payload-encode :
    (ms : List TopicMetaData) (payload : Bytes)
    → All IsLine ms
    → All IsOneLine ms
    → encode (metadata_payload ms) ≡ ok payload
    → parse_metadata_list_payload payload ≡ ok ms
parse_metadata_list_payload-encode [] payload h k e =
    ap parse_metadata_list_payload (empty_payload payload e)
    ∙ (unfold parse_metadata_list_payload in refl)
parse_metadata_list_payload-encode (m ∷ ms) payload h k e =
    parse_payload-ne-nil (metadata_payload (m ∷ ms)) payload (payload-ne-nil m ms payload e)
      (decode-encode _ payload e)
    ∙ ap parse_lines (payload_lines m ms k)
    ∙ parse_lines-map (m ∷ ms) h

-- A TML header announces the number of characters of its payload, and the payload follows in bytes: it
-- announces at most as many bytes as follow, and exactly as many only if the payload is ASCII.
pub announced-payload :
    (ms : List TopicMetaData) (payload : Bytes)
    → encode (metadata_payload ms) ≡ ok payload
    → (length (metadata_payload ms) ≤ length payload)
      × ((length (metadata_payload ms) ≡ length payload) ↔ All IsAscii (metadata_payload ms))
announced-payload ms payload e =
    let (le, ascii) = length-encode (metadata_payload ms) payload e in
    (le, (ascii, λ h. ap length (ok_inj (sym (encode-IsAscii _ h) ∙ e))))
  where
    ok_inj : {x y : Bytes} → ok x ≡ ok y → x ≡ y
    ok_inj k = cc
