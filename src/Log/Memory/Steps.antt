-- ===== src/Log/Memory/Steps.antt =====
-- A file stays loaded while it is in use.
use pylogstream.Prelude.{
  ℕ, ◌≡◌, ◌≤◌, refl, sym, ap, subst, inl, inr, arith, List, [], ◌∷◌, ◌++◌, some, Result, ok, err,
  Error, text_eq, get_elem?, ℤ, pos, ◌≤ℤ◌, Option-cases,
}
use pylogstream.Log.Entry
use pylogstream.Prelude.Dict.{get}
use pylogstream.Text.{Bytes}
use pylogstream.Log.Segment.{SegmentMeta, get_id}
use pylogstream.Log.Entry.{Entry, Files, load, new_entry}
use pylogstream.Log.Memory.{
  SegmentMemory, read_bytes, write, cleanup_thread, try_evict, force_evict, release_entry,
  force_evict_entry, acquire,
}
use pylogstream.Log.Memory.Used.{
  write-IsKept, on_entry-AreUsable, force_evict_entry-AreUsable, cleanup_queued-AreUsable,
  try_evict_key-AreUsable, pop_key_entries,
}
use pylogstream.Log.Memory.Usable.{IsMapped, IsUsable, AreUsable}
use pylogstream.Log.Memory.Held.{times, acquire-AreUsable, acquire-kept, release_entry-AreUsable}

-- What the owner of the segments, the holders of handles and the cleanup thread do, one method at a
-- time and in any order, with the handles that are acquired and not given back (a handle is the index of
-- its entry). Only a handle that is held is given back. An acquisition may raise.
pub data Step : SegmentMemory → List ℕ → SegmentMemory → List ℕ → Type 0 where
  acquired :
      (meta : SegmentMeta) (m m' : SegmentMemory) (hs : List ℕ) (i : ℕ)
      → acquire meta m ≡ (ok i, m')
      → Step m hs m' (i ∷ hs)
  raised :
      (meta : SegmentMeta) (m m' : SegmentMemory) (hs : List ℕ) (e : Error)
      → acquire meta m ≡ (err e, m')
      → Step m hs m' hs
  written :
      (handle offset : ℕ) (msg : Bytes) (m : SegmentMemory) (hs : List ℕ)
      → Step m hs (write handle offset msg m).1 hs
  read :
      (handle size : ℕ) (offset : ℤ) (m : SegmentMemory) (hs : List ℕ)
      → Step m hs (read_bytes handle offset size m).1 hs
  given_back :
      (handle : ℕ) (m : SegmentMemory) (xs ys : List ℕ)
      → Step m (xs ++ handle ∷ ys) (release_entry handle m) (xs ++ ys)
  popped :
      (meta : SegmentMeta) (m : SegmentMemory) (hs : List ℕ) → Step m hs (force_evict meta m).1 hs
  evicted :
      (i : ℕ) (m m' : SegmentMemory) (hs : List ℕ)
      → force_evict_entry i m ≡ some m'
      → Step m hs m' hs
  tried : (meta : SegmentMeta) (m : SegmentMemory) (hs : List ℕ) → Step m hs (try_evict meta m).1 hs
  cleaned : (m m' : SegmentMemory) (hs : List ℕ) → cleanup_thread m ≡ some m' → Step m hs m' hs

-- From a memory without entries and handles.
pub data Reach (m : SegmentMemory) : SegmentMemory → List ℕ → Type 0 where
  start : m.entries ≡ [] → Reach m m []
  later : {n k : SegmentMemory} {hs gs : List ℕ} → Reach m n hs → Step n hs k gs → Reach m k gs

Step-AreUsable :
    (m m' : SegmentMemory) (hs gs : List ℕ)
    → Step m hs m' gs
    → AreUsable (λ j. times j hs) m.entries
    → AreUsable (λ j. times j gs) m'.entries
unfolding write read_bytes force_evict try_evict cleanup_thread
Step-AreUsable m m' hs _ (Step.acquired meta _ _ _ i e) h = acquire-AreUsable meta m m' i hs e h
Step-AreUsable m m' hs _ (Step.raised meta _ _ _ x e) h =
    subst (λ (k : SegmentMemory). AreUsable (λ j. times j hs) k.entries)
      (ap (λ (p : Result ℕ × SegmentMemory). p.1) e) (acquire-kept meta m (λ j. times j hs) h)
Step-AreUsable m _ hs _ (Step.written handle offset msg _ _) h =
    on_entry-AreUsable (Entry.write offset msg) handle m (λ j. times j hs)
      (λ e. write-IsKept e m.files offset msg) h
Step-AreUsable m _ hs _ (Step.read handle size offset _ _) h =
    on_entry-AreUsable (λ (s : Entry × Files). (Entry.read_bytes offset size s, s)) handle m
      (λ j. times j hs) (λ e. (refl, λ k. k)) h
Step-AreUsable m _ _ _ (Step.given_back handle _ xs ys) h = release_entry-AreUsable handle xs ys m h
Step-AreUsable m _ hs _ (Step.popped meta _ _) h =
    subst (AreUsable (λ j. times j hs))
      (sym (pop_key_entries (get_id meta) (get m.cache (get_id meta)) m)) h
Step-AreUsable m m' hs _ (Step.evicted i _ _ _ e) h =
    force_evict_entry-AreUsable i m m' (λ j. times j hs) e h
Step-AreUsable m _ hs _ (Step.tried meta _ _) h =
    try_evict_key-AreUsable (get_id meta) (get m.cache (get_id meta)) m (λ j. times j hs) h
Step-AreUsable m m' hs _ (Step.cleaned _ _ _ e) h =
    cleanup_queued-AreUsable m.cleanup_queue m m' (λ j. times j hs) e h

Reach-AreUsable :
    {m n : SegmentMemory} {hs : List ℕ} → Reach m n hs → AreUsable (λ j. times j hs) n.entries
Reach-AreUsable (start e) = λ j. rw e refl
Reach-AreUsable (later {n} {k} {hs} {gs} r s) = Step-AreUsable n k hs gs s (Reach-AreUsable r)

-- However the methods follow one another from a memory without entries on, also where acquisitions raise:
-- the entry of each handle that is acquired and not given back has at least as many references as there
-- are such handles of it, and its file is loaded.
pub Reach-IsMapped :
    {m n : SegmentMemory} {hs : List ℕ} (i : ℕ)
    → Reach m n hs
    → 1 ≤ times i hs
    → (e : Entry) × (get_elem? n.entries i ≡ some e)
      × (pos (times i hs) ≤ℤ e.refcount)
      × IsMapped e.mv
Reach-IsMapped {m} {n} {hs} i r held = elim (Option-cases (get_elem? n.entries i)) [
  | inl t ↦
      let unheld : times i hs ≡ 0 = subst (IsUsable (times i hs)) t (Reach-AreUsable r i) in
      absurd (omega (arith, unheld))
  | inr (e, t) ↦
      let (p, q) : IsUsable (times i hs) (some e) =
        subst (IsUsable (times i hs)) t (Reach-AreUsable r i) in
      (e, t, p, q held)
]
