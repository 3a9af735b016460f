-- ===== src/Protocol/Parser.antt =====
-- parser.py: the packet header, and what the parsers of commands and of responses share.
pub mod Commands
pub mod Responses
pub mod Records
use pylogstream.Prelude.{
  ℕ, Bool, true, false, ◌||◌, List, [], ◌∷◌, Option, none, some, if◌then◌else◌, Result, ok, err,
  ◌>>=◌, value_error, index_error, or_raise, get_elem?, same, ◌==◌, ℤ,
}
use pylogstream.Text.{Text, Bytes, codes}
use pylogstream.Text.Utf8.{encode, decode}
use pylogstream.Text.Split.{partition, split, split_max}
use pylogstream.Text.Words.{blank}
use pylogstream.Text.Decimal.{parse_int, lstrip, is_space}
use pylogstream.Protocol.Encoder.{comma}

-- `text[len(start):]` if the text starts with `start`
unfoldable pub strip_prefix : Text → Text → Option Text
strip_prefix [] s = some s
strip_prefix (c ∷ p) [] = none
strip_prefix (c ∷ p) (d ∷ s) = let rest = strip_prefix p s in if c == d then rest else none

-- The id is one or more characters other than `]`.
nonempty_id : Option (Text × Text) → Option (Text × Text)
nonempty_id none = none
nonempty_id (some ([], rest)) = none
nonempty_id (some (c ∷ id, rest)) = some (c ∷ id, lstrip is_space rest)

match_id : Option Text → Option (Text × Text)
unfolding nonempty_id
match_id none = none
match_id (some s) = nonempty_id (partition b']' s)

-- `_HEADER_RE.match(text)`: the group, and the text from `match.end()` on
unfoldable pub match_header : Text → Option (Text × Text)
unfolding match_id strip_prefix partition lstrip is_space
match_header text = match_id (strip_prefix (codes "[CRR=") text)

header_or_data : Bytes → Option (Text × Text) → Result (Option Text × Bytes)
header_or_data bytes none = ok (none, bytes)
header_or_data bytes (some (id, rest)) = do remaining ← encode rest; ok (some id, remaining)

unfoldable pub parse_packet_header : Bytes → Result (Option Text × Bytes)
unfolding match_header header_or_data
parse_packet_header bytes = do text ← decode bytes; header_or_data bytes (match_header text)

-- `parts[i]`
abbrev pub part : List Text → ℕ → Result Text
part parts i = or_raise index_error (get_elem? parts i)

abbrev pub int_part : List Text → ℕ → Result ℤ
int_part parts i = part parts i >>= parse_int

-- `acks in {'-1', '0', '1'}`
unfoldable pub valid_acks : Text → Bool
valid_acks acks = same acks (codes "-1") || same acks (codes "0") || same acks (codes "1")

-- `parts[i].split(",") if parts[i] != "-" else []`
unfoldable pub parse_replicas : Text → List Text
parse_replicas s = if same s (codes "-") then [] else split comma s

abbrev pub fields : ℕ → Text → List Text
fields = split_max blank
