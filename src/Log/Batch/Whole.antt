-- ===== src/Log/Batch/Whole.antt =====
-- What the loop of `_calc_read_size` adds up, given the lengths of the records that it meets.
use pylogstream.Prelude.{
  ◌==◌, +ℤ_zero, ℕ, zero, suc, ◌+◌, ◌-◌, ◌≤◌, ◌<◌, ◌≡◌, ◌⊎◌, refl, sym, ap, ◌∙◌, inl, inr, arith,
  true, false, List, [], ◌∷◌, if◌then◌else◌, ltb, leb, Bool-cases, Result, ok, ◌>>=◌, ℤ, pos,
  pos_part, ◌+ℤ◌, length, take,
}
use pylogstream.Log.Batch.{calc_loop, at_least_one, calc_read_size}

-- The bytes of records of these lengths, each with its prefix.
abbrev pub total : List ℕ → ℕ
total [] = 0
total (n ∷ ns) = n + 4 + total ns

-- Records of these lengths stand one behind another, the first `c` bytes behind the offset.
abbrev pub IsFramed : (ℤ → Result ℕ) → ℤ → ℕ → List ℕ → Type 0
IsFramed size offset c [] = Unit
IsFramed size offset c (n ∷ ns) =
    (size (offset +ℤ pos c) ≡ ok n) × IsFramed size offset (c + (n + 4)) ns

-- The whole records that fit.
whole : ℕ → List ℕ → ℕ
whole room [] = 0
whole room (n ∷ ns) =
    let rest = whole (room - (n + 4)) ns in if leb (n + 4) room then n + 4 + rest else 0

calc_loop_done :
    (fuel : ℕ) (size : ℤ → Result ℕ) (offset : ℤ) (max_batch c batch : ℕ)
    → max_batch ≤ c
    → calc_loop fuel size offset max_batch c batch ≡ ok batch
unfolding calc_loop
calc_loop_done zero size offset max_batch c batch h = refl
calc_loop_done (suc fuel) size offset max_batch c batch h =
    let e : ltb c max_batch ≡ false = ground arith in rw e refl

calc_loop_next :
    (fuel : ℕ) (size : ℤ → Result ℕ) (offset : ℤ) (max_batch c batch n : ℕ)
    → c < max_batch
    → size (offset +ℤ pos c) ≡ ok n
    → calc_loop (suc fuel) size offset max_batch c batch
      ≡ calc_loop fuel size offset max_batch
          (c + (n + 4))
          (if leb (batch + n + 4) max_batch then batch + (n + 4) else batch)
unfolding calc_loop
calc_loop_next fuel size offset max_batch c batch n h e =
    let t : ltb c max_batch ≡ true = ground arith in rw (t, e) refl

calc_loop-whole :
    (fuel : ℕ) (size : ℤ → Result ℕ) (offset : ℤ) (max_batch c : ℕ) (ns : List ℕ)
    → IsFramed size offset c ns
    → max_batch ≤ c + total ns
    → max_batch ≤ c + fuel
    → calc_loop fuel size offset max_batch c c ≡ ok (c + whole (max_batch - c) ns)
unfolding whole
calc_loop-whole fuel size offset max_batch c [] f h k =
    calc_loop_done fuel size offset max_batch c c (omega arith) ∙ ap ok (omega arith)
calc_loop-whole zero size offset max_batch c (n ∷ ns) f h k =
    calc_loop_done zero size offset max_batch c c (omega arith) ∙ ap ok (ground arith)
calc_loop-whole (suc fuel) size offset max_batch c (n ∷ ns) f h k =
    elim (Bool-cases (ltb c max_batch)) [
      | inr t ↦
          calc_loop_done (suc fuel) size offset max_batch c c (ground arith) ∙ ap ok (ground arith)
      | inl t ↦
          calc_loop_next fuel size offset max_batch c c n (ground arith) f.0
          ∙ elim (Bool-cases (leb (c + n + 4) max_batch)) [
            | inl u ↦
                let v : leb (n + 4) (max_batch - c) ≡ true = ground arith in
                rw (u, v)
                  (calc_loop-whole fuel size offset max_batch (c + (n + 4)) ns f.1 (omega arith)
                      (omega arith)
                    ∙ ap ok (
                        let w : max_batch - (c + (n + 4)) ≡ max_batch - c - (n + 4) = omega arith in
                        ap (λ r. c + (n + 4) + whole r ns) w ∙ omega arith))
            | inr u ↦
                let v : leb (n + 4) (max_batch - c) ≡ false = ground arith in
                rw (u, v)
                  (calc_loop_done fuel size offset max_batch (c + (n + 4)) c (ground arith)
                    ∙ ap ok (omega arith))
          ]
    ]

-- The largest number of records that fit.
whole_lem :
    (room : ℕ) (ns : List ℕ)
    → (k : ℕ) × (whole room ns ≡ total (take k ns))
      × (total (take k ns) ≤ room)
      × ((k ≡ length ns) ⊎ (room < total (take (suc k) ns)))
unfolding whole
whole_lem room [] = (0, refl, omega arith, inl refl)
whole_lem room (n ∷ ns) = elim (Bool-cases (leb (n + 4) room)) [
  | inr t ↦ (0, rw t refl, omega arith, inr (ground arith))
  | inl t ↦
      let (k, a, b, c) = whole_lem (room - (n + 4)) ns in
      (
        suc k,
        rw t (omega (arith, a)),
        ground arith,
        elim c [ inl d ↦ inl (omega arith) | inr d ↦ inr (ground arith) ],
      )
]

at_least_one_lem :
    (size : ℤ → Result ℕ) (offset : ℤ) (n batch : ℕ)
    → size offset ≡ ok n
    → at_least_one size offset batch ≡ ok (if batch == 0 then n + 4 else batch)
unfolding at_least_one
at_least_one_lem size offset n batch h = elim (Bool-cases (batch == 0)) [
  | inl t ↦ rw (t, h) refl
  | inr t ↦ rw t refl
]

-- A batch is what fits, or the first record where nothing fits.
batch_lem :
    (room n : ℕ) (ns : List ℕ) (k batch : ℕ)
    → batch ≡ total (take k (n ∷ ns))
    → batch ≤ room
    → (k ≡ length (n ∷ ns)) ⊎ (room < total (take (suc k) (n ∷ ns)))
    → (j : ℕ) × ((if batch == 0 then n + 4 else batch) ≡ total (take (suc j) (n ∷ ns)))
      × ((total (take (suc j) (n ∷ ns)) ≤ room) ⊎ (j ≡ 0))
      × ((suc j ≡ length (n ∷ ns)) ⊎ (room < total (take (suc (suc j)) (n ∷ ns))))
batch_lem room n ns (suc k) batch a b c = (k, ground arith, inl (omega arith), c)
batch_lem room n [] zero batch a b c = (0, ground arith, inr refl, inl refl)
batch_lem room n (m ∷ ns) zero batch a b c = (0, ground arith, inr refl, inr (ground arith))

-- The size of a batch is that of a positive number of whole records from the offset on. They fit in the
-- size asked for, or it is one record; and one record more would not fit, where there is one.
pub calc_read_size-whole :
    (size : ℤ → Result ℕ) (offset max_batch : ℤ) (n : ℕ) (ns : List ℕ)
    → IsFramed size offset 0 (n ∷ ns)
    → pos_part max_batch ≤ total (n ∷ ns)
    → (k : ℕ) × (calc_read_size size offset max_batch ≡ ok (total (take (suc k) (n ∷ ns))))
      × ((total (take (suc k) (n ∷ ns)) ≤ pos_part max_batch) ⊎ (k ≡ 0))
      × ((suc k ≡ length (n ∷ ns)) ⊎ (pos_part max_batch < total (take (suc (suc k)) (n ∷ ns))))
unfolding calc_read_size
calc_read_size-whole size offset max_batch n ns f h =
    let m = pos_part max_batch in
    let (k, a, b, c) = whole_lem m (n ∷ ns) in
    let (j, d, e, g) = batch_lem m n ns k (whole m (n ∷ ns)) a (omega (arith, a, b)) c in
    let first : size offset ≡ ok n = ap size (sym (+ℤ_zero offset)) ∙ f.0 in
    let start : ◌≡◌ {A = Result ℕ} (ok (0 + whole (m - 0) (n ∷ ns))) (ok (whole m (n ∷ ns))) =
      let z : m - 0 ≡ m = omega arith in
      ap (λ r. ok (0 + whole r (n ∷ ns))) z ∙ ap ok (omega arith) in
    (
      j,
      ap (λ r. r >>= at_least_one size offset)
            (calc_loop-whole m size offset m 0 (n ∷ ns) f (omega (arith, h)) (omega arith) ∙ start)
          ∙ at_least_one_lem size offset n (whole m (n ∷ ns)) first
          ∙ ap ok d,
      e,
      g,
    )
