-- ===== src/Replication/Waiters/Count.antt =====
-- leader.py: the methods of the queue neither lose nor change a waiter, also where they raise.
use pylogstream.Prelude.{
  subst, ℕ, zero, suc, ◌+◌, ◌-◌, ◌*◌, ◌/◌, ◌≡◌, refl, ap, ◌∙◌, sym, [], ◌∷◌, ◌++◌, Bool, true,
  false, Bool-cases, inl, inr, Option, none, some, Option-cases, Result, ok, err, err-ne-ok,
  ok-injective, arith, ltb, ◌==◌, length, get_elem?, set, take, if◌then◌else◌, index_error,
  or_raise,
}
use pylogstream.Prelude.Exec.{Exec, Done, pure, resume, ◌>>=◌, >>=-eq-ok}
use pylogstream.Prelude.Keeps.{Keeps, >>=-Keeps, if-Keeps, outside-Keeps, pure-Keeps}
use pylogstream.Replication.Waiters.{
  heappush, Waiter, Heap, less, at_index, put_at, sift_down, smaller_child, sift_to_leaf,
  replace_root, pop_last, pop_root, heappop,
}

abbrev pub one : Bool → ℕ
one true = 1
one false = 0

-- How many waiters have the property.
abbrev pub count : (Waiter → Bool) → Heap → ℕ
count P [] = 0
count P (w ∷ ws) = one (P w) + count P ws

get_elem?-set :
    (heap : Heap) (i j : ℕ) (a b : Waiter)
    → get_elem? heap i ≡ some a
    → get_elem? heap j ≡ some b
    → get_elem? (set heap j a) i ≡ some a
get_elem?-set [] i j a b h k = cc
get_elem?-set (w ∷ ws) zero zero a b h k = refl
get_elem?-set (w ∷ ws) zero (suc j) a b h k = h
get_elem?-set (w ∷ ws) (suc i) zero a b h k = h
get_elem?-set (w ∷ ws) (suc i) (suc j) a b h k = get_elem?-set ws i j a b h k

take_last :
    (heap : Heap) (n : ℕ) (w : Waiter)
    → length heap ≡ suc n
    → get_elem? heap n ≡ some w
    → heap ≡ take n heap ++ w ∷ []
take_last [] n w e h = absurd (omega (arith, e))
take_last (x ∷ []) zero w e h = (let q : x ≡ w = cc in ap (λ (y : Waiter). y ∷ []) q)
take_last (x ∷ []) (suc n) w e h = absurd (omega (arith, e))
take_last (x ∷ y ∷ ws) zero w e h = absurd (omega (arith, e))
take_last (x ∷ y ∷ ws) (suc n) w e h =
    ap (λ (l : Heap). x ∷ l) (take_last (y ∷ ws) n w (omega (arith, e)) h)

found_by_index : (o : Option Waiter) (w : Waiter) → or_raise index_error o ≡ ok w → o ≡ some w
found_by_index none w h = absurd (err-ne-ok h)
found_by_index (some x) w h = ap some (ok-injective h)

-- A method that changes nothing.
abbrev Unchanged : {A : Type 0} → Exec Heap A → Type 0
Unchanged = Keeps (λ (heap : Heap). heap)

at_index-Unchanged : (i : ℕ) → Unchanged (at_index i)
unfolding at_index
at_index-Unchanged i = record { kept = λ heap. refl }

smaller_child-Unchanged : (child_pos size : ℕ) → Unchanged (smaller_child child_pos size)
unfolding smaller_child
smaller_child-Unchanged child_pos size =
    if-Keeps (λ (heap : Heap). heap) (ltb (child_pos + 1) size)
      (>>=-Keeps (λ (heap : Heap). heap) (at_index-Unchanged child_pos)
        (λ left.
          >>=-Keeps (λ (heap : Heap). heap) (at_index-Unchanged (child_pos + 1))
            (λ right.
              >>=-Keeps (λ (heap : Heap). heap)
                (outside-Keeps (λ (heap : Heap). heap) (less left right))
                (λ smaller.
                  pure-Keeps (λ (heap : Heap). heap)
                    (if smaller then child_pos else child_pos + 1)))))
      (pure-Keeps (λ (heap : Heap). heap) child_pos)

module _ (P : Waiter → Bool) where
  count-append : (xs ys : Heap) → count P (xs ++ ys) ≡ count P xs + count P ys
  count-append [] ys = omega arith
  count-append (x ∷ xs) ys = omega (arith, count-append xs ys)

  count-set :
      (heap : Heap) (i : ℕ) (old new : Waiter)
      → get_elem? heap i ≡ some old
      → count P (set heap i new) + one (P old) ≡ count P heap + one (P new)
  count-set [] i old new h = cc
  count-set (w ∷ ws) zero old new h = let q : w ≡ old = cc in omega (arith, ap (λ x. one (P x)) q)
  count-set (w ∷ ws) (suc i) old new h = omega (arith, count-set ws i old new h)

  -- Two waiters that change places, which may be one.
  count_swapped :
      (heap : Heap) (i j : ℕ) (a b : Waiter)
      → get_elem? heap i ≡ some a
      → get_elem? heap j ≡ some b
      → count P (set (set heap j a) i b) ≡ count P heap
  count_swapped heap i j a b h k = omega (
    arith,
    count-set heap j b a k,
    count-set (set heap j a) i a b (get_elem?-set heap i j a b h k),
  )

  count-at_index :
      {A : Type 0} (i : ℕ) (next : Waiter → Exec Heap A) (heap : Heap)
      → ((w : Waiter) → get_elem? heap i ≡ some w → count P (next w heap).1 ≡ count P heap)
      → count P ((at_index i >>= next) heap).1 ≡ count P heap
  unfolding at_index
  count-at_index i next heap k = elim (Option-cases (get_elem? heap i)) [
    | inl e ↦ rw e refl
    | inr (w, e) ↦ rw e (k w e)
  ]

  unchanged_count :
      {A B : Type 0} (r : Result A) (next : A → Exec Heap B) (s heap : Heap)
      → s ≡ heap
      → ((a : A) → count P (next a heap).1 ≡ count P heap)
      → count P (resume r next s).1 ≡ count P heap
  unchanged_count (err e) next s heap q k = ap (count P) q
  unchanged_count (ok a) next s heap q k = ap (λ x. count P (next a x).1) q ∙ k a

  sift_down-count :
      (fuel pos : ℕ) (heap : Heap) → count P (sift_down fuel pos heap).1 ≡ count P heap
  unfolding sift_down put_at
  sift_down-count zero pos heap = refl
  sift_down-count (suc fuel) pos heap = elim (Bool-cases (pos == 0)) [
    | inl e ↦ rw e refl
    | inr e ↦ rw e (
        count-at_index pos _ heap (λ item g. count-at_index ((pos - 1) / 2) _ heap (λ parent h.
          unchanged_count (less item parent) _ heap heap refl
            (λ smaller. either smaller item parent g h (sift_down-count fuel ((pos - 1) / 2))))))
  ]
    where
      either :
          (smaller : Bool) (item parent : Waiter)
          → get_elem? heap pos ≡ some item
          → get_elem? heap ((pos - 1) / 2) ≡ some parent
          → ((x : Heap) → count P (sift_down fuel ((pos - 1) / 2) x).1 ≡ count P x)
          → count P
              ((if smaller
                  then (do
                    _ ← put_at ((pos - 1) / 2) item
                    _ ← put_at pos parent
                    sift_down fuel ((pos - 1) / 2))
                  else pure tt)
                heap).1
            ≡ count P heap
      either true item parent g h up =
          up (set (set heap ((pos - 1) / 2) item) pos parent)
          ∙ count_swapped heap pos ((pos - 1) / 2) item parent g h
      either false item parent g h up = refl

  sift_to_leaf-count :
      (fuel size pos : ℕ) (heap : Heap) → count P (sift_to_leaf fuel size pos heap).1 ≡ count P heap
  unfolding sift_to_leaf put_at
  sift_to_leaf-count zero size pos heap = refl
  sift_to_leaf-count (suc fuel) size pos heap = elim (Bool-cases (ltb (2 * pos + 1) size)) [
    | inr e ↦ rw e refl
    | inl e ↦ rw e (
        unchanged_count (smaller_child (2 * pos + 1) size heap).0 _
          (smaller_child (2 * pos + 1) size heap).1 heap
          ((smaller_child-Unchanged (2 * pos + 1) size).kept heap)
          (λ child. count-at_index pos _ heap (λ item g. count-at_index child _ heap (λ other h.
            sift_to_leaf-count fuel size child (set (set heap pos other) child item)
            ∙ count_swapped heap child pos other item h g))))
  ]

  replace_root-count :
      (root last w : Waiter) (size : ℕ) (ws rest : Heap)
      → replace_root root last size (root ∷ ws) ≡ (ok w, rest)
      → (root ≡ w) × (count P rest ≡ one (P last) + count P ws)
  unfolding replace_root put_at
  replace_root-count root last w size ws rest h =
      let (leaf, u, p, q) =
        >>=-eq-ok (sift_to_leaf size size 0) (λ leaf. sift_down leaf leaf >>= λ _. pure root)
          (last ∷ ws) rest h in
      let (d, v, x, y) = >>=-eq-ok (sift_down leaf leaf) (λ _. pure root) u rest q in
      (
        ok-injective (ap (λ (r : Result Waiter × Heap). r.0) y),
        ap (λ (r : Result Waiter × Heap). count P r.1) (sym y)
            ∙ ap (λ (r : Result Done × Heap). count P r.1) (sym x)
            ∙ sift_down-count leaf leaf u
            ∙ ap (λ (r : Result ℕ × Heap). count P r.1) (sym p)
            ∙ sift_to_leaf-count size size 0 (last ∷ ws),
      )

  -- What a removal takes is the first of the array, and all others stay.
  abbrev pub IsPopped : Heap → Waiter → Heap → Type 0
  IsPopped heap w rest = (get_elem? heap 0 ≡ some w) × (count P rest + one (P w) ≡ count P heap)

  pop_root-IsPopped :
      (last w : Waiter) (front rest : Heap)
      → pop_root last front ≡ (ok w, rest)
      → IsPopped (front ++ last ∷ []) w rest
  unfolding pop_root
  pop_root-IsPopped last w [] rest h =
      let e : last ≡ w = ok-injective (ap (λ (r : Result Waiter × Heap). r.0) h) in
      let f : [] ≡ rest = ap (λ (r : Result Waiter × Heap). r.1) h in
      (ap some e, omega (arith, ap (λ x. one (P x)) e, ap (count P) f))
  pop_root-IsPopped last w (root ∷ ws) rest h =
      let (e, f) = replace_root-count root last w (suc (length ws)) ws rest h in
      (ap some e, omega (arith, f, ap (λ x. one (P x)) e, count-append ws (last ∷ [])))

  pub heappop-IsPopped :
      (heap rest : Heap) (w : Waiter) → heappop heap ≡ (ok w, rest) → IsPopped heap w rest
  unfolding heappop pop_last at_index
  heappop-IsPopped [] rest w h = absurd (err-ne-ok (ap (λ (r : Result Waiter × Heap). r.0) h))
  heappop-IsPopped (x ∷ xs) rest w h =
      let (last, u, p, q) = >>=-eq-ok pop_last pop_root (x ∷ xs) rest h in
      let n : length (x ∷ xs) - 1 ≡ length xs = omega arith in
      let found =
        found_by_index (get_elem? (x ∷ xs) (length (x ∷ xs) - 1)) last
          (ap (λ (r : Result Waiter × Heap). r.0) p) in
      let split =
        take_last (x ∷ xs) (length xs) last refl (ap (get_elem? (x ∷ xs)) (sym n) ∙ found) in
      let left : take (length xs) (x ∷ xs) ≡ u =
        ap (λ i. take i (x ∷ xs)) (sym n) ∙ ap (λ (r : Result Waiter × Heap). r.1) p in
      subst (λ (l : Heap). IsPopped l w rest) (sym (split ∙ ap (λ (l : Heap). l ++ last ∷ []) left))
        (pop_root-IsPopped last w u rest q)

  -- An addition adds the waiter, also where two waiters cannot be compared.
  pub count-heappush :
      (w : Waiter) (heap : Heap) → count P (heappush w heap).1 ≡ count P heap + one (P w)
  unfolding heappush
  count-heappush w heap =
      sift_down-count (length heap) (length heap) (heap ++ w ∷ [])
      ∙ omega (arith, count-append heap (w ∷ []))
