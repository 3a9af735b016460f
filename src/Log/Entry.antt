-- ===== src/Log/Entry.antt =====
-- segment_memory.py, class Entry: a segment's file, mapped into memory. A directory of files is a
-- dictionary from paths to contents, and a view of a file is the number of bytes that it covers: what
-- is written through one view of a file is seen through all of them.
pub mod Slices
pub mod RoundTrip
mod Tests
use pylogstream.Prelude.{
  [], ℕ, zero, suc, ◌+◌, ◌-◌, max, min, Bool, true, false, ◌++◌, Option, none, some, if◌then◌else◌,
  ltb, ◌==◌, Result, ok, err, ◌>>=◌, value_error, assertion_error, exception, or_raise, ℤ, pos,
  negsuc, ◌+ℤ◌, length, take, drop, replicate, text_eq,
}
use pylogstream.Prelude.Dict.{Dict, get, put}
use pylogstream.Prelude.Exec.{Done, Exec}
use pylogstream.Text.{Text, Bytes}
use pylogstream.Log.Segment.{SegmentMeta, is_mutable}

abbrev pub Files : Type 0
Files = Dict Text Bytes

-- `mv` is the length of the view, and none where there is no map of the file.
pub record Entry : Type 0 where
  pub filepath : Text
  pub mutable : Bool
  pub refcount : ℤ
  pub capacity : Option ℕ
  pub mv : Option ℕ
  pub init_segment_size : ℕ
  pub segment_size_inc : ℕ

unfoldable pub new_entry : SegmentMeta → ℕ → ℕ → Entry
unfolding is_mutable
new_entry meta init_segment_size segment_size_inc = record {
  filepath = meta.path;
  mutable = is_mutable meta;
  refcount = pos 0;
  capacity = none;
  mv = none;
  init_segment_size = init_segment_size;
  segment_size_inc = segment_size_inc;
}

-- What opening a file finds in it: a missing one is made, and is empty.
unfoldable pub content : Files → Text → Bytes
content files path = elim (get files path) [ none ↦ [] | some f ↦ f ]

-- `truncate` of the operating system: it cuts the file or fills it up with zeros.
unfoldable pub truncate : ℕ → Bytes → Bytes
truncate n f = take n f ++ replicate (n - length f) 0

-- An empty file has no map.
unfoldable pub map_file : Entry → Files → ℕ → Result Done × (Entry × Files)
map_file e files zero = (err value_error, (e, files))
map_file e files (suc n) = (ok tt, (record e { mv = some (suc n) }, files))

unfoldable pub open_file : Entry → Files → Bytes → Result Done × (Entry × Files)
unfolding map_file truncate
open_file e files f =
    let g = if length f == 0 then truncate e.init_segment_size f else f in
    map_file (record e { capacity = some (length g) }) (put files e.filepath g) (length g)

-- Only a file that is not loaded is opened.
unfoldable pub load_from : Entry → Files → Option ℕ → Result Done × (Entry × Files)
unfolding open_file content
load_from e files (some n) = (ok tt, (e, files))
load_from e files none = open_file e files (content files e.filepath)

unfoldable pub load : Exec (Entry × Files) Done
unfolding load_from
load (e, files) = load_from e files e.mv

-- Where a slice of a buffer of `n` bytes begins or ends: a negative index counts from the end.
unfoldable pub slice_index : ℕ → ℤ → ℕ
slice_index n (pos i) = min i n
slice_index n (negsuc i) = n - suc i

-- `b[i:j]`
unfoldable pub slice : Bytes → ℤ → ℤ → Bytes
unfolding slice_index
slice b i j =
    let start = slice_index (length b) i in take (slice_index (length b) j - start) (drop start b)

unfoldable pub read_bytes : ℤ → ℕ → Entry × Files → Result Bytes
unfolding slice content
read_bytes offset size (e, files) = do
  n ← or_raise assertion_error e.mv
  ok (slice (take n (content files e.filepath)) offset (offset +ℤ pos size))

-- The length of the view afterwards comes first. The new size is at least one step above the old one.
unfoldable pub grow : ℕ → ℕ → ℕ → Entry → Files → ℕ × Entry × Files
unfolding truncate content
grow required n c e files =
    let new_capacity = max required (e.segment_size_inc + c) in
    if ltb c required
    then (
      new_capacity,
      record e { capacity = some new_capacity; mv = some new_capacity },
      put files e.filepath (truncate new_capacity (content files e.filepath)),
    )
    else (n, e, files)

-- `b[offset : offset + len(msg)] = msg`
unfoldable pub overwrite : ℕ → Bytes → Bytes → Bytes
overwrite offset msg b = take offset b ++ (msg ++ drop (offset + length msg) b)

-- The slice of a view is as long as what is put there, or it is a ValueError.
unfoldable pub store : ℕ → Bytes → ℕ → Entry → Files → Result Done × (Entry × Files)
unfolding overwrite content
store offset msg n e files =
    if (min (offset + length msg) n - min offset n) == length msg
    then (ok tt, (e, put files e.filepath (overwrite offset msg (content files e.filepath))))
    else (err value_error, (e, files))

unfoldable pub write_in :
    ℕ → Bytes → Entry → Files → Option ℕ → Option ℕ → Bool → Result Done × (Entry × Files)
unfolding grow store
write_in offset msg e files none c w = (err assertion_error, (e, files))
write_in offset msg e files (some n) none w = (err assertion_error, (e, files))
write_in offset msg e files (some n) (some c) false = (err exception, (e, files))
write_in offset msg e files (some n) (some c) true =
    let (m, e', files') = grow (offset + length msg) n c e files in store offset msg m e' files'

unfoldable pub write : ℕ → Bytes → Exec (Entry × Files) Done
unfolding write_in
write offset msg (e, files) = write_in offset msg e files e.mv e.capacity e.mutable

-- The view and the map are given up; what was written is in the file.
unfoldable pub release : Entry → Entry
release e = record e { mv = none }
