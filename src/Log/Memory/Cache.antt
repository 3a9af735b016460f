-- ===== src/Log/Memory/Cache.antt =====
-- The size and the order of the cache.
use pylogstream.Prelude.{
  ℕ, ◌≤◌, ◌<◌, ◌≡◌, refl, sym, ap, ◌∙◌, subst, inl, inr, arith, false, List, [], ◌∷◌, ◌++◌, Option,
  none, some, Result, ok, err, length, ltb, Bool-cases, text_eq, get_elem?,
}
use pylogstream.Prelude.Dict.{Dict, get, remove}
use pylogstream.Prelude.Exec.{Done, Exec}
use pylogstream.Text.{Text}
use pylogstream.Log.Segment.{SegmentMeta, get_id}
use pylogstream.Log.Entry.{Entry, Files, load}
use pylogstream.Log.Memory.{
  SegmentMemory, evict_oldest, run_entry, on_entry, put_back, cleanup_locked, as_handle,
  find_or_add, acquire,
}

evict_oldest-length :
    (capacity : ℕ) (c : Dict Text ℕ) (q : List ℕ) → length (evict_oldest capacity c q).0 ≤ capacity
unfolding evict_oldest
evict_oldest-length capacity [] q = omega arith
evict_oldest-length capacity ((k, i) ∷ c) q =
    ground (arith, evict_oldest-length capacity c (q ++ i ∷ []))

-- What is dropped from the front ends in the queue, and the pair at the end stays.
evict_oldest_last :
    (capacity : ℕ) (c : Dict Text ℕ) (p : Text × ℕ) (q : List ℕ)
    → 0 < capacity
    → (d : Dict Text ℕ) × ((evict_oldest capacity (c ++ p ∷ []) q).0 ≡ d ++ p ∷ [])
unfolding evict_oldest
evict_oldest_last capacity [] p q h =
    ([], let e : ltb capacity 1 ≡ false = ground arith in rw e refl)
evict_oldest_last capacity ((k, i) ∷ c) p q h =
    elim (Bool-cases (ltb capacity (length ((k, i) ∷ (c ++ p ∷ []))))) [
      | inl t ↦ rw t (evict_oldest_last capacity c p (q ++ i ∷ []) h)
      | inr t ↦ ((k, i) ∷ c, rw t refl)
    ]

as_handle_memory : (i : ℕ) (r : Result Done) (m : SegmentMemory) → (as_handle i (r, m)).1 ≡ m
unfolding as_handle
as_handle_memory i (ok _) m = refl
as_handle_memory i (err e) m = refl

run_entry_cache :
    {A : Type 0} (i : ℕ) (f : Exec (Entry × Files) A) (o : Option Entry) (m : SegmentMemory)
    → (run_entry i f o m).1.cache ≡ m.cache
unfolding run_entry put_back
run_entry_cache i f none m = refl
run_entry_cache i f (some e) m = refl

acquire_cache :
    (meta : SegmentMeta) (m : SegmentMemory)
    → (acquire meta m).1.cache
      ≡ (cleanup_locked (find_or_add meta (get_id meta) (get m.cache (get_id meta)) m).1).cache
unfolding acquire on_entry
acquire_cache meta m =
    let (i, added) = find_or_add meta (get_id meta) (get m.cache (get_id meta)) m in
    let n = cleanup_locked added in
    let run = run_entry i load (get_elem? n.entries i) n in
    ap (λ (k : SegmentMemory). k.cache) (as_handle_memory i run.0 run.1)
    ∙ run_entry_cache i load (get_elem? n.entries i) n

added_cache :
    (meta : SegmentMeta) (key : Text) (o : Option ℕ) (m : SegmentMemory)
    → (c : Dict Text ℕ) × ((find_or_add meta key o m).1.cache
        ≡ c ++ (key, (find_or_add meta key o m).0) ∷ [])
      × ((find_or_add meta key o m).1.capacity ≡ m.capacity)
unfolding find_or_add
added_cache meta key none m = (m.cache, refl, refl)
added_cache meta key (some i) m = (remove m.cache key, refl, refl)

cleanup_locked_cache :
    (m : SegmentMemory)
    → (cleanup_locked m).cache ≡ (evict_oldest m.capacity m.cache m.cleanup_queue).0
unfolding cleanup_locked
cleanup_locked_cache m = refl

-- The cache afterwards is what is left of one that ends with the segment's own entry.
acquire_cache_lem :
    (meta : SegmentMeta) (m : SegmentMemory)
    → (c : Dict Text ℕ) × (i : ℕ) × (q : List ℕ) × ((acquire meta m).1.cache
        ≡ (evict_oldest m.capacity (c ++ (get_id meta, i) ∷ []) q).0)
acquire_cache_lem meta m =
    let (i, added) = find_or_add meta (get_id meta) (get m.cache (get_id meta)) m in
    let (c, e, k) = added_cache meta (get_id meta) (get m.cache (get_id meta)) m in
    (
      c,
      i,
      added.cleanup_queue,
      acquire_cache meta m
          ∙ cleanup_locked_cache added
          ∙ ap (λ n. (evict_oldest n added.cache added.cleanup_queue).0) k
          ∙ ap (λ d. (evict_oldest m.capacity d added.cleanup_queue).0) e,
    )

-- Acquiring a segment, whether its file can be loaded or not, leaves at most `capacity` entries in the
-- cache.
pub acquire_cache-length :
    (meta : SegmentMeta) (m : SegmentMemory) → length (acquire meta m).1.cache ≤ m.capacity
acquire_cache-length meta m =
    let (c, i, q, e) = acquire_cache_lem meta m in
    subst (λ d. length d ≤ m.capacity) (sym e)
      (evict_oldest-length m.capacity (c ++ (get_id meta, i) ∷ []) q)

-- Where the capacity is not 0, the segment that was acquired is the last one in the cache, so it is
-- the last one that is evicted.
pub acquire_cache_last :
    (meta : SegmentMeta) (m : SegmentMemory)
    → 0 < m.capacity
    → (d : Dict Text ℕ) × (i : ℕ) × ((acquire meta m).1.cache ≡ d ++ (get_id meta, i) ∷ [])
acquire_cache_last meta m h =
    let (c, i, q, e) = acquire_cache_lem meta m in
    let (d, f) = evict_oldest_last m.capacity c (get_id meta, i) q h in (d, i, e ∙ f)
