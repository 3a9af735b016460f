-- ===== src/Log/Registry.antt =====
-- segment_registry.py. Each operation holds the topic's lock from its first to its last line, so it is
-- one step on the registry.
pub mod Chain
pub mod Search
pub mod Lookup
pub mod Bisect
pub mod Valid
pub mod Grow
pub mod Progress
use pylogstream.Prelude.{
  text_eq, Error, ◌==◌, ℕ, zero, suc, ◌+◌, ◌-◌, ◌/◌, Bool, true, false, ◌||◌, not, List, [], ◌∷◌,
  ◌++◌, Option, none, some, if◌then◌else◌, ltb, leb, Result, ok, err, ◌>>=◌, value_error, key_error,
  index_error, topic_doesnt_exist, illegal_transition, or_raise, ℤ, pos, negsuc, ltb_ℤ, leb_ℤ,
  eqb_ℤ, length, get_elem?, set, replicate,
}
use pylogstream.Prelude.Dict.{Dict, get, put}
use pylogstream.Text.{Text, codes}
use pylogstream.Text.Decimal.{show_ℕ}
use pylogstream.Log.Segment.{SegmentMeta, SegmentState, get_end_offset, same_state, same_meta}

-- `loaded_at` is the default of `SegmentMeta.created_at`, which Python computes once, when it loads
-- the class.
pub record SegmentRegistry : Type 0 where
  pub log_dir : Text
  pub loaded_at : ℕ
  pub registry : Dict Text (List SegmentMeta)

-- f"{n:020d}"
pad : Text → Text
pad s = replicate (20 - length s) b'0' ++ s

unfoldable pub build_segment_path : Text → Text → ℕ → Text
unfolding pad
build_segment_path log_dir topic base_offset =
    log_dir ++ (b'/' ∷ topic ++ (b'/' ∷ pad (show_ℕ base_offset) ++ codes ".log"))

unfoldable pub new_segment : SegmentRegistry → Text → ℕ → SegmentMeta
unfolding build_segment_path
new_segment r topic base_offset = record {
  topic = topic;
  base_offset = base_offset;
  path = build_segment_path r.log_dir topic base_offset;
  state = SegmentState.active;
  created_at = r.loaded_at;
  size = 0;
}

-- `segments[-1]`
unfoldable pub last? : List SegmentMeta → Option SegmentMeta
last? [] = none
last? (s ∷ []) = some s
last? (s ∷ t ∷ ss) = last? (t ∷ ss)

abbrev pub put_segments : SegmentRegistry → Text → List SegmentMeta → SegmentRegistry
put_segments r topic ss = record r { registry = put r.registry topic ss }

-- `self.__registry[topic]`
abbrev pub segments_of : SegmentRegistry → Text → Error → Result (List SegmentMeta)
segments_of r topic missing = or_raise missing (get r.registry topic)

unfoldable pub append_behind :
    SegmentRegistry
    → Text
    → SegmentMeta
    → List SegmentMeta
    → SegmentMeta
    → Result (SegmentMeta × SegmentRegistry)
append_behind r topic segment ss previous =
    if ltb segment.base_offset (get_end_offset previous)
      || previous.base_offset == segment.base_offset
    then err value_error
    else ok (segment, put_segments r topic (ss ++ segment ∷ []))

unfoldable pub create_in :
    SegmentRegistry
    → Text
    → SegmentMeta
    → Option (List SegmentMeta)
    → Result (SegmentMeta × SegmentRegistry)
unfolding append_behind last?
create_in r topic segment none = ok (segment, put_segments r topic (segment ∷ []))
create_in r topic segment (some ss) =
    or_raise index_error (last? ss) >>= append_behind r topic segment ss

unfoldable pub create_segment : SegmentRegistry → Text → ℕ → Result (SegmentMeta × SegmentRegistry)
unfolding new_segment create_in
create_segment r topic base_offset =
    create_in r topic (new_segment r topic base_offset) (get r.registry topic)

-- The loop of `_find_segment_index`; `hi` is `r + 1`, and -1 is `none`. `mid` is always an index.
find_loop : ℕ → List SegmentMeta → ℤ → ℕ → ℕ → Option ℕ → Option ℕ
find_loop zero ss offset l hi i = i
find_loop (suc fuel) ss offset l hi i =
    let mid = (l + hi - 1) / 2 in
    let right = find_loop fuel ss offset (mid + 1) hi (some mid) in
    let left = find_loop fuel ss offset l mid i in
    if ltb l hi
    then elim (get_elem? ss mid) [
      | none ↦ i
      | some s ↦ if leb_ℤ (pos s.base_offset) offset then right else left
    ]
    else i

-- Each round makes the range smaller, so the length of the list is enough fuel.
unfoldable pub find_segment_index : List SegmentMeta → ℤ → Option ℕ
unfolding find_loop
find_segment_index ss offset = find_loop (length ss) ss offset 0 (length ss) none

-- `segments[i]`, where -1 is the last
unfoldable pub index : List SegmentMeta → Option ℕ → ℕ
index ss none = length ss - 1
index ss (some i) = i

-- The segment at an index, grown.
advance_at :
    SegmentRegistry → Text → List SegmentMeta → ℕ → ℕ → SegmentMeta → SegmentMeta × SegmentRegistry
advance_at r topic ss idx len old_meta =
    let new_meta = record old_meta { size = old_meta.size + len } in
    (new_meta, put_segments r topic (set ss idx new_meta))

unfoldable pub advance_offset :
    SegmentRegistry → SegmentMeta → ℕ → Result (SegmentMeta × SegmentRegistry)
unfolding find_segment_index index advance_at
advance_offset r meta len = do
  ss ← segments_of r meta.topic key_error
  let idx = index ss (find_segment_index ss (pos meta.base_offset))
  old_meta ← or_raise index_error (get_elem? ss idx)
  ok (advance_at r meta.topic ss idx len old_meta)

-- The segment that contains the offset, once it is found.
segment_at : List SegmentMeta → ℤ → Option ℕ → Result SegmentMeta
segment_at ss offset none = err value_error
segment_at ss offset (some i) = do
  s ← or_raise index_error (get_elem? ss i)
  if leb_ℤ (pos (get_end_offset s)) offset then err value_error else ok s

locate : List SegmentMeta → ℤ → SegmentMeta → Result SegmentMeta
unfolding find_segment_index segment_at
locate ss offset previous =
    if ltb_ℤ (pos (get_end_offset previous)) offset
    then err value_error
    else if eqb_ℤ offset (negsuc 0)
    then ok previous
    else segment_at ss offset (find_segment_index ss offset)

unfoldable pub get_segment : SegmentRegistry → Text → ℤ → Result SegmentMeta
unfolding last? locate
get_segment r topic offset = do
  ss ← segments_of r topic topic_doesnt_exist
  previous ← or_raise value_error (last? ss)
  locate ss offset previous

unfoldable pub get_segment_by_base_offset : SegmentRegistry → Text → ℕ → Result SegmentMeta
unfolding find_segment_index
get_segment_by_base_offset r topic base_offset = do
  ss ← segments_of r topic topic_doesnt_exist
  _ ← or_raise value_error (last? ss)
  i ← or_raise value_error (find_segment_index ss (pos base_offset))
  s ← or_raise index_error (get_elem? ss i)
  if s.base_offset == base_offset then ok s else err value_error

unfoldable pub list_segments : SegmentRegistry → Text → Result (List SegmentMeta)
list_segments r topic = segments_of r topic topic_doesnt_exist

in_state : SegmentState → List SegmentMeta → List SegmentMeta
in_state st [] = []
in_state st (s ∷ ss) = let rest = in_state st ss in if same_state s.state st then s ∷ rest else rest

unfoldable pub list_segments_by_state :
    SegmentRegistry → Text → SegmentState → Result (List SegmentMeta)
unfolding in_state same_state
list_segments_by_state r topic st = do
  ss ← segments_of r topic topic_doesnt_exist
  ok (in_state st ss)

-- `bisect_left` of the standard library on the base offsets.
bisect_loop : ℕ → List SegmentMeta → ℕ → ℕ → ℕ → ℕ
bisect_loop zero ss x lo hi = lo
bisect_loop (suc fuel) ss x lo hi =
    let mid = (lo + hi) / 2 in
    let right = bisect_loop fuel ss x (mid + 1) hi in
    let left = bisect_loop fuel ss x lo mid in
    if ltb lo hi
    then elim (get_elem? ss mid) [
      | none ↦ lo
      | some s ↦ if ltb s.base_offset x then right else left
    ]
    else lo

unfoldable pub bisect_left : List SegmentMeta → ℕ → ℕ
unfolding bisect_loop
bisect_left ss x = bisect_loop (length ss) ss x 0 (length ss)

unfoldable pub is_allowed : SegmentState → SegmentState → Bool
is_allowed SegmentState.active SegmentState.sealed = true
is_allowed SegmentState.sealed SegmentState.expired = true
is_allowed SegmentState.expired SegmentState.deleted = true
is_allowed _ _ = false

-- `segments.pop(i)`
unfoldable pub pop_at : List SegmentMeta → ℕ → List SegmentMeta
pop_at [] i = []
pop_at (s ∷ ss) zero = ss
pop_at (s ∷ ss) (suc i) = s ∷ pop_at ss i

-- The segment is registered: there is one at its index, and it is equal to it.
is_registered : SegmentMeta → Option SegmentMeta → Bool
unfolding same_meta
is_registered segment none = false
is_registered segment (some s) = same_meta s segment

unfoldable pub move_to :
    SegmentRegistry
    → List SegmentMeta
    → ℕ
    → SegmentMeta
    → SegmentState
    → SegmentMeta × SegmentRegistry
unfolding pop_at
move_to r ss idx segment SegmentState.deleted =
    (segment, put_segments r segment.topic (pop_at ss idx))
move_to r ss idx segment new_state =
    let moved = record segment { state = new_state } in
    (moved, put_segments r segment.topic (set ss idx moved))

progress_at :
    SegmentRegistry
    → List SegmentMeta
    → ℕ
    → SegmentMeta
    → SegmentState
    → Result (SegmentMeta × SegmentRegistry)
unfolding is_registered is_allowed move_to
progress_at r ss idx segment new_state =
    if not (is_registered segment (get_elem? ss idx))
    then err value_error
    else if not (is_allowed segment.state new_state)
    then err illegal_transition
    else ok (move_to r ss idx segment new_state)

unfoldable pub progress_state :
    SegmentRegistry → SegmentMeta → SegmentState → Result (SegmentMeta × SegmentRegistry)
unfolding bisect_left progress_at
progress_state r segment new_state = do
  ss ← segments_of r segment.topic value_error
  progress_at r ss (bisect_left ss segment.base_offset) segment new_state

unfoldable pub remove_segment :
    SegmentRegistry → SegmentMeta → Result (SegmentMeta × SegmentRegistry)
unfolding progress_state
remove_segment r segment = progress_state r segment SegmentState.deleted

unfoldable pub get_latest_offset : SegmentRegistry → Text → Result ℕ
unfolding last?
get_latest_offset r topic = do
  ss ← segments_of r topic topic_doesnt_exist
  s ← or_raise index_error (last? ss)
  ok (get_end_offset s)
