-- ===== src/Log/Memory/Held.antt =====
-- The entries of handles: what `acquire` and `release` leave of their references and files.
use pylogstream.Prelude.{
  ℕ, ◌+◌, ◌==◌, ◌≡◌, refl, sym, ap, ◌∙◌, subst, inl, inr, arith, List, [], ◌∷◌, ◌++◌, Option, none,
  some, Result, ok, err, err-ne-ok, ok-injective, text_eq, get_elem?, length, ℤ, pos, ◌+ℤ◌, ◌-ℤ◌,
  ◌≤ℤ◌, if◌then◌else◌, Option-cases,
}
use pylogstream.Prelude.Dict.{get}
use pylogstream.Prelude.Exec.{Done}
use pylogstream.Text.{Text}
use pylogstream.Log.Segment.{SegmentMeta, get_id}
use pylogstream.Log.Entry.{Entry, Files, load, new_entry}
use pylogstream.Log.Memory.{
  SegmentMemory, release_entry, increment, decrement, run_entry, on_entry, put_back, cleanup_locked,
  as_handle, find_or_add, acquire,
}
use pylogstream.Log.Memory.Used.{load_from-IsMapped, load-IsKept, on_entry-AreUsable}
use pylogstream.Log.Memory.Usable.{
  IsMapped, IsUsable, AreUsable, set-AreUsable, append-AreUsable, get_elem?-append, get_elem?-set,
  update_at-set, update_at_missing, same_some, none_ne_some,
}

abbrev pub one_if : ℕ → ℕ → ℕ
one_if i j = if i == j then 1 else 0

-- How many of the handles are of the entry at an index.
abbrev pub times : ℕ → List ℕ → ℕ
times j [] = 0
times j (i ∷ hs) = one_if i j + times j hs

times-remove : (j i : ℕ) (xs ys : List ℕ) → times j (xs ++ i ∷ ys) ≡ one_if i j + times j (xs ++ ys)
times-remove j i [] ys = refl
times-remove j i (x ∷ xs) ys = omega (arith, times-remove j i xs ys)

one_if_same : (i : ℕ) → one_if i i ≡ 1
one_if_same i = ground arith

one_if_other : (i j : ℕ) → (j ≡ i → ⊥) → one_if i j ≡ 0
one_if_other i j ne = ground arith

past_end : (es : List Entry) → get_elem? es (length es) ≡ none
past_end [] = refl
past_end (e ∷ es) = past_end es

more_ℤ : (n : ℕ) (x : ℤ) → pos n ≤ℤ x → (pos n ≤ℤ x +ℤ pos 1) × (pos (n + 1) ≤ℤ x +ℤ pos 1)
unfolding ◌+ℤ◌
more_ℤ n x h = (ground arith, ground arith)

less_ℤ : (n : ℕ) (x : ℤ) → pos (1 + n) ≤ℤ x → pos n ≤ℤ x -ℤ pos 1
unfolding ◌-ℤ◌
less_ℤ n x h = ground arith

-- The loading of an entry that was just added or referenced.
as_handle_ok :
    (i j : ℕ) (r : Result Done) (m n : SegmentMemory)
    → as_handle i (r, m) ≡ (ok j, n)
    → (i ≡ j) × (r ≡ ok tt) × (m ≡ n)
unfolding as_handle
as_handle_ok i j (ok tt) m n h = (
  ok-injective (ap (λ (p : Result ℕ × SegmentMemory). p.0) h),
  refl,
  ap (λ (p : Result ℕ × SegmentMemory). p.1) h,
)
as_handle_ok i j (err e) m n h = absurd (err-ne-ok (ap (λ (p : Result ℕ × SegmentMemory). p.0) h))

as_handle-memory : (i : ℕ) (r : Result Done) (m : SegmentMemory) → (as_handle i (r, m)).1 ≡ m
unfolding as_handle
as_handle-memory i (ok tt) m = refl
as_handle-memory i (err e) m = refl

load-IsMapped :
    (e : Entry) (files : Files) → (load (e, files)).0 ≡ ok tt → IsMapped (load (e, files)).1.0.mv
unfolding load
load-IsMapped e files h = load_from-IsMapped e files e.mv refl h

module _ (n : ℕ → ℕ) where
  -- The entry at an index has one reference more than it has handles.
  abbrev IsFound : ℕ → List Entry → Type 0
  IsFound i es =
      AreUsable n es × ((e : Entry) → get_elem? es i ≡ some e → pos (n i + 1) ≤ℤ e.refcount)

  find_or_add-IsFound :
      (meta : SegmentMeta) (key : Text) (o : Option ℕ) (m : SegmentMemory)
      → AreUsable n m.entries
      → IsFound (find_or_add meta key o m).0 (find_or_add meta key o m).1.entries
  unfolding find_or_add increment new_entry
  find_or_add-IsFound meta key none m h =
      let x = increment (new_entry meta m.init_segment_size m.segment_size_inc) in
      let unheld : n (length m.entries) ≡ 0 =
        subst (IsUsable (n (length m.entries))) (past_end m.entries) (h (length m.entries)) in
      let high = more_ℤ 0 (pos 0) (ground arith) in
      (
        append-AreUsable m.entries x n h (high.0, λ r. absurd (omega (arith, r))),
        λ e g.
            subst (λ (k : Entry). pos (n (length m.entries) + 1) ≤ℤ k.refcount)
              (same_some (sym (get_elem?-append m.entries x) ∙ g))
              (subst (λ a. pos (a + 1) ≤ℤ pos 0 +ℤ pos 1) (sym unheld) high.1),
      )
  find_or_add-IsFound meta key (some i) m h = elim (Option-cases (get_elem? m.entries i)) [
    | inl t ↦
        subst (IsFound i) (sym (update_at_missing increment m.entries i t))
          (h, λ e g. absurd (none_ne_some (sym t ∙ g)))
    | inr (x, t) ↦
        let held = subst (IsUsable (n i)) t (h i) in
        let high = more_ℤ (n i) x.refcount held.0 in
        subst (IsFound i) (sym (update_at-set increment m.entries i x t)) (
          set-AreUsable m.entries i x (increment x) n n t h (λ j _. refl) (high.0, held.1),
          λ e g.
              subst (λ (k : Entry). pos (n i + 1) ≤ℤ k.refcount)
                (same_some (sym (get_elem?-set m.entries i x (increment x) t) ∙ g)) high.1,
        )
  ]

  load_entry-AreUsable :
      (i : ℕ) (o : Option Entry) (m : SegmentMemory) (k : ℕ → ℕ)
      → get_elem? m.entries i ≡ o
      → IsFound i m.entries
      → (run_entry i load o m).0 ≡ ok tt
      → ((j : ℕ) → (j ≡ i → ⊥) → k j ≡ n j)
      → k i ≡ n i + 1
      → AreUsable k (run_entry i load o m).1.entries
  unfolding run_entry put_back
  load_entry-AreUsable i none m k g (h, high) loaded other more = absurd (err-ne-ok loaded)
  load_entry-AreUsable i (some e) m k g (h, high) loaded other more =
      let d = (load (e, m.files)).1.0 in
      let kept = load-IsKept e m.files in
      set-AreUsable m.entries i e d n k g h other (
        subst (λ a. pos (k i) ≤ℤ a) (sym kept.0)
            (subst (λ a. pos a ≤ℤ e.refcount) (sym more) (high e g)),
        λ _. load-IsMapped e m.files loaded,
      )

-- Among the handles that are held there is one more, where `acquire` returns it.
pub acquire-AreUsable :
    (meta : SegmentMeta) (m m' : SegmentMemory) (i : ℕ) (hs : List ℕ)
    → acquire meta m ≡ (ok i, m')
    → AreUsable (λ j. times j hs) m.entries
    → AreUsable (λ j. times j (i ∷ hs)) m'.entries
unfolding acquire on_entry cleanup_locked
acquire-AreUsable meta m m' i hs e h =
    let n : ℕ → ℕ = λ j. times j hs in
    let o = get m.cache (get_id meta) in
    let (f, added) = find_or_add meta (get_id meta) o m in
    let k = cleanup_locked added in
    let run = run_entry f load (get_elem? k.entries f) k in
    let (a, b, c) = as_handle_ok f i run.0 run.1 m' e in
    let found = find_or_add-IsFound n meta (get_id meta) o m h in
    let after =
      load_entry-AreUsable n f (get_elem? k.entries f) k (λ j. times j (f ∷ hs)) refl found b
        (λ j ne. omega (arith, one_if_other f j ne)) (omega (arith, one_if_same f)) in
    subst (λ (x : SegmentMemory). AreUsable (λ j. times j (i ∷ hs)) x.entries) c
      (subst (λ x. AreUsable (λ j. times j (x ∷ hs)) run.1.entries) a after)

-- Where it raises, the entry stays referenced.
pub acquire-kept :
    (meta : SegmentMeta) (m : SegmentMemory) (n : ℕ → ℕ)
    → AreUsable n m.entries
    → AreUsable n (acquire meta m).1.entries
unfolding acquire cleanup_locked
acquire-kept meta m n h =
    let o = get m.cache (get_id meta) in
    let (f, added) = find_or_add meta (get_id meta) o m in
    let k = cleanup_locked added in
    let run = on_entry f load k in
    subst (λ (x : SegmentMemory). AreUsable n x.entries) (sym (as_handle-memory f run.0 run.1))
      (on_entry-AreUsable load f k n (λ e. load-IsKept e k.files)
        (find_or_add-IsFound n meta (get_id meta) o m h).0)

pub release_entry-AreUsable :
    (i : ℕ) (xs ys : List ℕ) (m : SegmentMemory)
    → AreUsable (λ j. times j (xs ++ i ∷ ys)) m.entries
    → AreUsable (λ j. times j (xs ++ ys)) (release_entry i m).entries
unfolding release_entry decrement
release_entry-AreUsable i xs ys m h = elim (Option-cases (get_elem? m.entries i)) [
  | inl t ↦
      let unheld : times i (xs ++ i ∷ ys) ≡ 0 = subst (IsUsable (times i (xs ++ i ∷ ys))) t (h i) in
      absurd (omega (arith, unheld, times-remove i i xs ys, one_if_same i))
  | inr (x, t) ↦
      let held : IsUsable (times i (xs ++ i ∷ ys)) (some x) =
        subst (IsUsable (times i (xs ++ i ∷ ys))) t (h i) in
      let one_less : times i (xs ++ i ∷ ys) ≡ 1 + times i (xs ++ ys) =
        omega (arith, times-remove i i xs ys, one_if_same i) in
      subst (AreUsable (λ j. times j (xs ++ ys))) (sym (update_at-set decrement m.entries i x t)) (
        set-AreUsable m.entries i x (decrement x) (λ j. times j (xs ++ i ∷ ys))
          (λ j. times j (xs ++ ys)) t h
          (λ j ne. omega (arith, times-remove j i xs ys, one_if_other i j ne))
          (
            less_ℤ (times i (xs ++ ys)) x.refcount
                (subst (λ a. pos a ≤ℤ x.refcount) one_less held.0),
            λ r. held.1 (omega (arith, one_less)),
          ))
]
