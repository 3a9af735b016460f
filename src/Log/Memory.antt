-- ===== src/Log/Memory.antt =====
-- segment_memory.py, classes SegmentMemory and SegmentHandle. An entry is an object that the cache, the
-- cleanup queue and handles share: it stands in `entries`, and they hold its index.
pub mod Cache
pub mod Usable
pub mod Used
pub mod Held
pub mod Steps
mod Tests
use pylogstream.Prelude.{
  ℕ, zero, suc, ◌+◌, Bool, true, false, List, [], ◌∷◌, ◌++◌, Option, none, some, if◌then◌else◌, ltb,
  Result, ok, err, key_error, exception, ℤ, pos, ltb_ℤ, eqb_ℤ, ◌+ℤ◌, ◌-ℤ◌, length, get_elem?, set,
  text_eq,
}
use pylogstream.Prelude.Dict.{Dict, get, remove}
use pylogstream.Prelude.Exec.{Done, Exec, raise, ◌>>=◌}
use pylogstream.Text.{Text, Bytes}
use pylogstream.Log.Segment.{SegmentMeta, get_id}
use pylogstream.Log.Entry.{Entry, Files, new_entry, load, release}
use pylogstream.Log.Entry

-- The last pair of the cache is the one used last.
pub record SegmentMemory : Type 0 where
  pub files : Files
  pub entries : List Entry
  pub cache : Dict Text ℕ
  pub cleanup_queue : List ℕ
  pub capacity : ℕ
  pub init_segment_size : ℕ
  pub segment_size_inc : ℕ

unfoldable pub increment : Entry → Entry
increment e = record e { refcount = e.refcount +ℤ pos 1 }

unfoldable pub decrement : Entry → Entry
decrement e = record e { refcount = e.refcount -ℤ pos 1 }

-- `f` on the entry at an index.
unfoldable pub update_at : (Entry → Entry) → List Entry → ℕ → List Entry
update_at f [] i = []
update_at f (e ∷ es) zero = f e ∷ es
update_at f (e ∷ es) (suc i) = e ∷ update_at f es i

-- The entry of a key, made where there is none, with one more reference; its key is now the last.
unfoldable pub find_or_add : SegmentMeta → Text → Option ℕ → SegmentMemory → ℕ × SegmentMemory
unfolding increment update_at
find_or_add meta key none m = (
  length m.entries,
  record m {
    entries = m.entries ++ increment (new_entry meta m.init_segment_size m.segment_size_inc) ∷ [];
    cache = m.cache ++ (key, length m.entries) ∷ [];
  },
)
find_or_add meta key (some i) m = (
  i,
  record m {
    entries = update_at increment m.entries i;
    cache = remove m.cache key ++ (key, i) ∷ [];
  },
)

-- `popitem(last=False)` while the cache is too large: what stays, and the queue.
unfoldable pub evict_oldest : ℕ → Dict Text ℕ → List ℕ → Dict Text ℕ × List ℕ
evict_oldest capacity [] queue = ([], queue)
evict_oldest capacity ((key, i) ∷ cache) queue =
    let rest = evict_oldest capacity cache (queue ++ i ∷ []) in
    if ltb capacity (length ((key, i) ∷ cache)) then rest else ((key, i) ∷ cache, queue)

unfoldable pub cleanup_locked : SegmentMemory → SegmentMemory
unfolding evict_oldest
cleanup_locked m =
    let (cache, queue) = evict_oldest m.capacity m.cache m.cleanup_queue in
    record m { cache = cache; cleanup_queue = queue }

-- A method of an entry, on the entry at an index and the files.
unfoldable pub put_back :
    {A : Type 0} → ℕ → SegmentMemory → Result A × (Entry × Files) → Result A × SegmentMemory
put_back i m (r, (e, files)) = (r, record m { files = files; entries = set m.entries i e })

unfoldable pub run_entry :
    {A : Type 0}
    → ℕ
    → Exec (Entry × Files) A
    → Option Entry
    → SegmentMemory
    → Result A × SegmentMemory
unfolding put_back
run_entry i f none m = (err exception, m)
run_entry i f (some e) m = put_back i m (f (e, m.files))

unfoldable pub on_entry : {A : Type 0} → ℕ → Exec (Entry × Files) A → Exec SegmentMemory A
unfolding run_entry
on_entry i f m = run_entry i f (get_elem? m.entries i) m

-- The handle is the index of its entry.
unfoldable pub as_handle : ℕ → Result Done × SegmentMemory → Result ℕ × SegmentMemory
as_handle i (ok _, m) = (ok i, m)
as_handle i (err e, m) = (err e, m)

unfoldable pub acquire : SegmentMeta → Exec SegmentMemory ℕ
unfolding find_or_add cleanup_locked as_handle on_entry load get_id
acquire meta m =
    let (i, added) = find_or_add meta (get_id meta) (get m.cache (get_id meta)) m in
    as_handle i (on_entry i load (cleanup_locked added))

-- SegmentHandle.write and SegmentHandle.read_bytes
unfoldable pub write : ℕ → ℕ → Bytes → Exec SegmentMemory Done
unfolding on_entry Entry.write
write handle offset msg = on_entry handle (Entry.write offset msg)

unfoldable pub read_bytes : ℕ → ℤ → ℕ → Exec SegmentMemory Bytes
unfolding on_entry
read_bytes handle offset size =
    on_entry handle (λ (s : Entry × Files). (Entry.read_bytes offset size s, s))

-- SegmentHandle.release
unfoldable pub release_entry : ℕ → SegmentMemory → SegmentMemory
unfolding decrement update_at
release_entry i m = record m { entries = update_at decrement m.entries i }

unfoldable pub is_idle : Option Entry → Bool
is_idle none = false
is_idle (some e) = eqb_ℤ e.refcount (pos 0)

abbrev pub released : ℕ → SegmentMemory → SegmentMemory
released i m = record m { entries = update_at release m.entries i }

-- `wait_until_zero` and `release`: there is no next state while the entry has references.
unfoldable pub force_evict_entry : ℕ → SegmentMemory → Option SegmentMemory
unfolding is_idle update_at release
force_evict_entry i m = if is_idle (get_elem? m.entries i) then some (released i m) else none

unfoldable pub pop_key : Text → Option ℕ → Exec SegmentMemory ℕ
pop_key key none m = (err key_error, m)
pop_key key (some i) m = (ok i, record m { cache = remove m.cache key })

-- `force_evict` up to where it waits; `force_evict_entry` is the rest of it.
unfoldable pub force_evict : SegmentMeta → Exec SegmentMemory ℕ
unfolding pop_key get_id
force_evict meta m = pop_key (get_id meta) (get m.cache (get_id meta)) m

unfoldable pub is_used : Option Entry → Bool
is_used none = false
is_used (some e) = ltb_ℤ (pos 0) e.refcount

unfoldable pub try_evict_key : Text → Option ℕ → Exec SegmentMemory Bool
unfolding is_used update_at release
try_evict_key key none m = (err key_error, m)
try_evict_key key (some i) m =
    if is_used (get_elem? m.entries i)
    then (ok false, m)
    else (ok true, released i (record m { cache = remove m.cache key }))

unfoldable pub try_evict : SegmentMeta → Exec SegmentMemory Bool
unfolding try_evict_key get_id
try_evict meta m = try_evict_key (get_id meta) (get m.cache (get_id meta)) m

-- One round of the cleanup thread; it waits while the queue is empty.
unfoldable pub cleanup_queued : List ℕ → SegmentMemory → Option SegmentMemory
unfolding force_evict_entry
cleanup_queued [] m = none
cleanup_queued (i ∷ queue) m = force_evict_entry i (record m { cleanup_queue = queue })

unfoldable pub cleanup_thread : SegmentMemory → Option SegmentMemory
unfolding cleanup_queued
cleanup_thread m = cleanup_queued m.cleanup_queue m
