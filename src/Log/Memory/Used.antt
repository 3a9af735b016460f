-- ===== src/Log/Memory/Used.antt =====
-- The parts of the methods keep loaded what is in use.
use pylogstream.Prelude.{
  ◌≤◌, ◌==◌, ◌-◌, pos, min, ◌≤ℤ◌, err-ne-ok, ℕ, zero, suc, ◌+◌, ◌≡◌, refl, sym, subst, inl, inr,
  arith, Bool, true, false, List, [], ◌∷◌, Option, none, some, ok, length, ltb, Bool-cases, text_eq,
  get_elem?,
}
use pylogstream.Log.Entry
use pylogstream.Prelude.{ℤ, Option-cases}
use pylogstream.Prelude.Dict.{remove}
use pylogstream.Prelude.Exec.{Exec}
use pylogstream.Text.{Text, Bytes}
use pylogstream.Log.Entry.{
  release, grow, write_in, store, Entry, Files, load, load_from, open_file, map_file, content,
}
use pylogstream.Log.Memory.{
  ltb_ℤ, try_evict_key, eqb_ℤ, force_evict_entry, pop_key, is_used, cleanup_queued, is_idle,
  released, SegmentMemory, run_entry, on_entry, put_back,
}
use pylogstream.Log.Memory.Usable.{
  same_some, none_ne_some, IsMapped, IsUsable, AreUsable, set-AreUsable, update_at-set,
  update_at_missing,
}

pub map_file-IsMapped :
    (e : Entry) (files : Files) (n : ℕ)
    → (map_file e files n).0 ≡ ok tt
    → IsMapped (map_file e files n).1.0.mv
unfolding map_file
map_file-IsMapped e files zero h = absurd (err-ne-ok h)
map_file-IsMapped e files (suc n) h = tt

pub load_from-IsMapped :
    (e : Entry) (files : Files) (o : Option ℕ)
    → e.mv ≡ o
    → (load_from e files o).0 ≡ ok tt
    → IsMapped (load_from e files o).1.0.mv
unfolding load_from open_file
load_from-IsMapped e files (some n) k h = subst IsMapped (sym k) tt
load_from-IsMapped e files none k h = map_file-IsMapped _ _ _ h

-- What the methods of an entry keep: the references, and the map where there is one.
abbrev pub IsKept : Entry → Entry → Type 0
IsKept e e' = (e'.refcount ≡ e.refcount) × (IsMapped e.mv → IsMapped e'.mv)

pub store-IsKept :
    (e d : Entry) (files : Files) (offset n : ℕ) (msg : Bytes)
    → IsKept e d
    → IsKept e (store offset msg n d files).1.0
unfolding store
store-IsKept e d files offset n msg k =
    elim (Bool-cases ((min (offset + length msg) n - min offset n) == length msg)) [
      | inl t ↦ rw t k
      | inr t ↦ rw t k
    ]

pub grow-IsKept :
    (e : Entry) (files : Files) (required n c : ℕ) → IsKept e (grow required n c e files).1
unfolding grow
grow-IsKept e files required n c = elim (Bool-cases (ltb c required)) [
  | inl t ↦ rw t (refl, λ _. tt)
  | inr t ↦ rw t (refl, λ h. h)
]

pub write_in-IsKept :
    (e : Entry) (files : Files) (offset : ℕ) (msg : Bytes) (o c : Option ℕ) (w : Bool)
    → IsKept e (write_in offset msg e files o c w).1.0
unfolding write_in
write_in-IsKept e files offset msg none c w = (refl, λ h. h)
write_in-IsKept e files offset msg (some n) none w = (refl, λ h. h)
write_in-IsKept e files offset msg (some n) (some c) false = (refl, λ h. h)
write_in-IsKept e files offset msg (some n) (some c) true =
    store-IsKept e _ _ offset _ msg (grow-IsKept e files (offset + length msg) n c)

pub write-IsKept :
    (e : Entry) (files : Files) (offset : ℕ) (msg : Bytes)
    → IsKept e (Entry.write offset msg (e, files)).1.0
unfolding Entry.write
write-IsKept e files offset msg = write_in-IsKept e files offset msg e.mv e.capacity e.mutable

map_file-IsKept :
    (e d : Entry) (files : Files) (n : ℕ) → IsKept e d → IsKept e (map_file d files n).1.0
unfolding map_file
map_file-IsKept e d files zero k = k
map_file-IsKept e d files (suc n) (r, k) = (r, λ _. tt)

load_from-IsKept : (e : Entry) (files : Files) (o : Option ℕ) → IsKept e (load_from e files o).1.0
unfolding load_from open_file
load_from-IsKept e files (some n) = (refl, λ h. h)
load_from-IsKept e files none = map_file-IsKept e _ _ _ (refl, λ h. h)

pub load-IsKept : (e : Entry) (files : Files) → IsKept e (load (e, files)).1.0
unfolding load
load-IsKept e files = load_from-IsKept e files e.mv

pub IsKept-IsUsable : (e d : Entry) (n : ℕ) → IsKept e d → IsUsable n (some e) → IsUsable n (some d)
IsKept-IsUsable e d n (r, k) (h, p) = (subst (λ a. pos n ≤ℤ a) (sym r) h, λ q. k (p q))

-- A method that keeps each entry's references and map keeps every entry usable.
pub on_entry-AreUsable :
    {A : Type 0} (f : Exec (Entry × Files) A) (i : ℕ) (m : SegmentMemory) (n : ℕ → ℕ)
    → ((e : Entry) → IsKept e (f (e, m.files)).1.0)
    → AreUsable n m.entries
    → AreUsable n (on_entry i f m).1.entries
unfolding on_entry run_entry put_back
on_entry-AreUsable f i m n k h = elim (Option-cases (get_elem? m.entries i)) [
  | inl t ↦ rw t h
  | inr (e, t) ↦ rw t (
      set-AreUsable m.entries i e (f (e, m.files)).1.0 n n t h (λ j _. refl)
        (IsKept-IsUsable e (f (e, m.files)).1.0 (n i) (k e) (subst (IsUsable (n i)) t (h i))))
]

idle_refcount : (n : ℤ) → eqb_ℤ n (pos 0) ≡ true → n ≤ℤ pos 0
idle_refcount n h = ground arith

unused_refcount : (n : ℤ) → ltb_ℤ (pos 0) n ≡ false → n ≤ℤ pos 0
unused_refcount n h = ground arith

-- Nobody holds a handle of an entry without references.
release_unused :
    (e : Entry) (n : ℕ) → e.refcount ≤ℤ pos 0 → IsUsable n (some e) → IsUsable n (some (release e))
unfolding release
release_unused e n h (p, q) = (p, λ r. absurd (none_held e.refcount h p r))
  where
    none_held : (x : ℤ) → x ≤ℤ pos 0 → pos n ≤ℤ x → 1 ≤ n → ⊥
    none_held x h p r = ground arith

is_idle_lem : (o : Option Entry) → is_idle o ≡ true → (e : Entry) → o ≡ some e → e.refcount ≤ℤ pos 0
unfolding is_idle
is_idle_lem none t e h = cc
is_idle_lem (some d) t e h =
    let q : d ≡ e = cc in subst (λ (k : Entry). k.refcount ≤ℤ pos 0) q (idle_refcount d.refcount t)

is_used_lem :
    (o : Option Entry) → is_used o ≡ false → (e : Entry) → o ≡ some e → e.refcount ≤ℤ pos 0
unfolding is_used
is_used_lem none t e h = cc
is_used_lem (some d) t e h =
    let q : d ≡ e = cc in
    subst (λ (k : Entry). k.refcount ≤ℤ pos 0) q (unused_refcount d.refcount t)

pub released-AreUsable :
    (i : ℕ) (m : SegmentMemory) (n : ℕ → ℕ)
    → ((e : Entry) → get_elem? m.entries i ≡ some e → e.refcount ≤ℤ pos 0)
    → AreUsable n m.entries
    → AreUsable n (released i m).entries
released-AreUsable i m n k h = elim (Option-cases (get_elem? m.entries i)) [
  | inl t ↦ subst (AreUsable n) (sym (update_at_missing release m.entries i t)) h
  | inr (e, t) ↦ subst (AreUsable n) (sym (update_at-set release m.entries i e t)) (
      set-AreUsable m.entries i e (release e) n n t h (λ j _. refl)
        (release_unused e (n i) (k e t) (subst (IsUsable (n i)) t (h i))))
]

pub force_evict_entry-AreUsable :
    (i : ℕ) (m m' : SegmentMemory) (n : ℕ → ℕ)
    → force_evict_entry i m ≡ some m'
    → AreUsable n m.entries
    → AreUsable n m'.entries
unfolding force_evict_entry
force_evict_entry-AreUsable i m m' n e h = elim (Bool-cases (is_idle (get_elem? m.entries i))) [
  | inl t ↦
      let q : released i m ≡ m' = same_some (rw t at e) in
      subst (λ (k : SegmentMemory). AreUsable n k.entries) q
        (released-AreUsable i m n (is_idle_lem (get_elem? m.entries i) t) h)
  | inr t ↦ absurd (none_ne_some (rw t at e))
]

pub cleanup_queued-AreUsable :
    (q : List ℕ) (m m' : SegmentMemory) (n : ℕ → ℕ)
    → cleanup_queued q m ≡ some m'
    → AreUsable n m.entries
    → AreUsable n m'.entries
unfolding cleanup_queued
cleanup_queued-AreUsable [] m m' n e h = absurd (none_ne_some e)
cleanup_queued-AreUsable (i ∷ q) m m' n e h =
    force_evict_entry-AreUsable i (record m { cleanup_queue = q }) m' n e h

pub try_evict_key-AreUsable :
    (key : Text) (o : Option ℕ) (m : SegmentMemory) (n : ℕ → ℕ)
    → AreUsable n m.entries
    → AreUsable n (try_evict_key key o m).1.entries
unfolding try_evict_key
try_evict_key-AreUsable key none m n h = h
try_evict_key-AreUsable key (some i) m n h = elim (Bool-cases (is_used (get_elem? m.entries i))) [
  | inl t ↦ rw t h
  | inr t ↦ rw t (
      released-AreUsable i (record m { cache = remove m.cache key }) n
        (is_used_lem (get_elem? m.entries i) t) h)
]

pub pop_key_entries :
    (key : Text) (o : Option ℕ) (m : SegmentMemory) → (pop_key key o m).1.entries ≡ m.entries
unfolding pop_key
pop_key_entries key none m = refl
pop_key_entries key (some i) m = refl
