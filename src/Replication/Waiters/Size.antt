-- ===== src/Replication/Waiters/Size.antt =====
-- leader.py: the methods of the queue keep its size, also where they raise.
use pylogstream.Prelude.{
  ℕ, zero, suc, ◌+◌, ◌-◌, ◌*◌, ◌/◌, ◌≡◌, refl, ◌∙◌, [], ◌∷◌, ◌++◌, arith, ltb, ◌==◌, length,
  length-set, length-append, length-take, if◌then◌else◌,
}
use pylogstream.Prelude.Exec.{Exec}
use pylogstream.Prelude.Keeps.{Keeps, >>=-Keeps, if-Keeps, outside-Keeps, pure-Keeps, resume-kept}
use pylogstream.Replication.Waiters.{
  Waiter, Heap, less, at_index, put_at, sift_down, heappush, smaller_child, sift_to_leaf,
  replace_root, pop_last, pop_root, heappop,
}

-- A method that leaves as many waiters as it finds.
abbrev KeepsSize : {A : Type 0} → Exec Heap A → Type 0
KeepsSize = Keeps length

at_index-Keeps : (i : ℕ) → KeepsSize (at_index i)
unfolding at_index
at_index-Keeps i = record { kept = λ heap. refl }

put_at-Keeps : (i : ℕ) (w : Waiter) → KeepsSize (put_at i w)
unfolding put_at
put_at-Keeps i w = record { kept = λ heap. length-set heap i w }

sift_down-Keeps : (fuel pos : ℕ) → KeepsSize (sift_down fuel pos)
unfolding sift_down
sift_down-Keeps zero pos = pure-Keeps length tt
sift_down-Keeps (suc fuel) pos = if-Keeps length (pos == 0) (pure-Keeps length tt) (
    >>=-Keeps length (at_index-Keeps pos) (λ item.
      >>=-Keeps length (at_index-Keeps ((pos - 1) / 2)) (λ parent.
        >>=-Keeps length (outside-Keeps length (less item parent)) (λ smaller.
          if-Keeps length smaller
            (>>=-Keeps length (put_at-Keeps ((pos - 1) / 2) item) (λ _.
              >>=-Keeps length (put_at-Keeps pos parent)
                (λ _. sift_down-Keeps fuel ((pos - 1) / 2))))
            (pure-Keeps length tt)))))

smaller_child-Keeps : (child_pos size : ℕ) → KeepsSize (smaller_child child_pos size)
unfolding smaller_child
smaller_child-Keeps child_pos size =
    if-Keeps length (ltb (child_pos + 1) size)
      (>>=-Keeps length (at_index-Keeps child_pos) (λ left.
        >>=-Keeps length (at_index-Keeps (child_pos + 1)) (λ right.
          >>=-Keeps length (outside-Keeps length (less left right))
            (λ smaller. pure-Keeps length (if smaller then child_pos else child_pos + 1)))))
      (pure-Keeps length child_pos)

sift_to_leaf-Keeps : (fuel size pos : ℕ) → KeepsSize (sift_to_leaf fuel size pos)
unfolding sift_to_leaf
sift_to_leaf-Keeps zero size pos = pure-Keeps length pos
sift_to_leaf-Keeps (suc fuel) size pos =
    if-Keeps length (ltb (2 * pos + 1) size)
      (>>=-Keeps length (smaller_child-Keeps (2 * pos + 1) size) (λ child.
        >>=-Keeps length (at_index-Keeps pos) (λ item.
          >>=-Keeps length (at_index-Keeps child) (λ other.
            >>=-Keeps length (put_at-Keeps pos other) (λ _.
              >>=-Keeps length (put_at-Keeps child item)
                (λ _. sift_to_leaf-Keeps fuel size child))))))
      (pure-Keeps length pos)

replace_root-Keeps : (root last : Waiter) (size : ℕ) → KeepsSize (replace_root root last size)
unfolding replace_root
replace_root-Keeps root last size = >>=-Keeps length (put_at-Keeps 0 last) (λ _.
    >>=-Keeps length (sift_to_leaf-Keeps size size 0)
      (λ leaf. >>=-Keeps length (sift_down-Keeps leaf leaf) (λ _. pure-Keeps length root)))

pub length-heappush :
    (item : Waiter) (heap : Heap) → length (heappush item heap).1 ≡ suc (length heap)
unfolding heappush
length-heappush item heap =
    (sift_down-Keeps (length heap) (length heap)).kept (heap ++ item ∷ [])
    ∙ length-append heap (item ∷ [])
    ∙ omega arith

pop_root-length : (last : Waiter) (heap : Heap) → length (pop_root last heap).1 ≡ length heap
unfolding pop_root
pop_root-length last [] = refl
pop_root-length last (root ∷ rest) =
    (replace_root-Keeps root last (suc (length rest))).kept (root ∷ rest)

pop_root-Keeps : (last : Waiter) → KeepsSize (pop_root last)
pop_root-Keeps last = record { kept = λ heap. pop_root-length last heap }

pop_last-length : (heap : Heap) → length (pop_last heap).1 ≡ length heap - 1
unfolding pop_last
pop_last-length heap = omega (arith, length-take (length heap - 1) heap)

pub length-heappop : (heap : Heap) → length (heappop heap).1 ≡ length heap - 1
unfolding heappop
length-heappop heap =
    resume-kept length (pop_last heap).0 pop_root (pop_last heap).1 pop_root-Keeps
    ∙ pop_last-length heap
