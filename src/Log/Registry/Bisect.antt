-- ===== src/Log/Registry/Bisect.antt =====
-- `bisect_left` on a chain finds the place of a base offset.
use pylogstream.Prelude.{
  ℕ, zero, suc, ◌+◌, ◌/◌, ◌≤◌, ◌<◌, ◌≡◌, refl, sym, ap, ◌∙◌, List, some, arith, length, get_elem?,
  get_elem?-lt, lt-get_elem?,
}
use native.Mathlib.Decide.{dec_lt}
use pylogstream.Log.Segment.{SegmentMeta}
use pylogstream.Log.Registry.{bisect_loop, bisect_left}
use pylogstream.Log.Registry.Chain.{IsChain, IsChain-get}

module _ (ss : List SegmentMeta) (x : ℕ) where
  -- The segment with base offset `x` stands in the range, if it stands anywhere at `i`.
  abbrev InRange : ℕ → ℕ → ℕ → Type 0
  InRange i lo hi = (lo ≤ i) × (i ≤ hi)

  bisect_right_step :
      (f lo hi : ℕ) (s : SegmentMeta)
      → lo < hi
      → get_elem? ss ((lo + hi) / 2) ≡ some s
      → s.base_offset < x
      → bisect_loop (suc f) ss x lo hi ≡ bisect_loop f ss x ((lo + hi) / 2 + 1) hi
  unfolding bisect_loop
  bisect_right_step f lo hi s p g b = ground arith

  bisect_left_step :
      (f lo hi : ℕ) (s : SegmentMeta)
      → lo < hi
      → get_elem? ss ((lo + hi) / 2) ≡ some s
      → x ≤ s.base_offset
      → bisect_loop (suc f) ss x lo hi ≡ bisect_loop f ss x lo ((lo + hi) / 2)
  unfolding bisect_loop
  bisect_left_step f lo hi s p g b = ground arith

  bisect_done : (f lo hi : ℕ) → ¬ (lo < hi) → bisect_loop f ss x lo hi ≡ lo
  unfolding bisect_loop
  bisect_done zero lo hi p = refl
  bisect_done (suc f) lo hi p = ground arith

  module _ (i : ℕ) (t : SegmentMeta) (chain : IsChain ss) (here : get_elem? ss i ≡ some t)
      (at : t.base_offset ≡ x) where
    before_x : (m : ℕ) (s : SegmentMeta) → get_elem? ss m ≡ some s → s.base_offset < x → m < i
    before_x m s g b = elim (dec_lt m i) [
      | yes p ↦ p
      | no p ↦ elim (dec_lt i m) [
        | yes q ↦ absurd (omega (arith, (IsChain-get ss i m t s chain q here g).1))
        | no q ↦
            let e : m ≡ i = omega arith in
            let k : some s ≡ some t = sym g ∙ ap (get_elem? ss) e ∙ here in absurd (ground arith)
      ]
    ]

    not_before_x : (m : ℕ) (s : SegmentMeta) → get_elem? ss m ≡ some s → x ≤ s.base_offset → i ≤ m
    not_before_x m s g b = elim (dec_lt m i) [
      | yes p ↦ absurd (omega (arith, (IsChain-get ss m i s t chain p g here).1))
      | no p ↦ omega arith
    ]

    bisect_loop_lem :
        (f lo hi : ℕ)
        → hi ≤ length ss
        → hi ≤ lo + f
        → InRange i lo hi
        → bisect_loop f ss x lo hi ≡ i
    bisect_loop_lem zero lo hi p q (a, b) = bisect_done zero lo hi (omega arith) ∙ omega arith
    bisect_loop_lem (suc f) lo hi p q (a, b) = elim (dec_lt lo hi) [
      | no h ↦ bisect_done (suc f) lo hi h ∙ omega arith
      | yes h ↦
          let m : ℕ = (lo + hi) / 2 in
          let (s, g) = get_elem?-lt ss m (omega arith) in
          elim (dec_lt s.base_offset x) [
            | yes c ↦
                bisect_right_step f lo hi s h g c
                ∙ bisect_loop_lem f (m + 1) hi p (omega arith) (omega (arith, before_x m s g c), b)
            | no c ↦
                bisect_left_step f lo hi s h g (omega arith)
                ∙ bisect_loop_lem f lo m (omega arith) (omega arith)
                    (a, not_before_x m s g (omega arith))
          ]
    ]

-- In a chain, bisection by the base offset of a segment gives the segment's index.
pub bisect_left_lem :
    (ss : List SegmentMeta) (i : ℕ) (t : SegmentMeta)
    → IsChain ss
    → get_elem? ss i ≡ some t
    → bisect_left ss t.base_offset ≡ i
unfolding bisect_left
bisect_left_lem ss i t chain here =
    bisect_loop_lem ss t.base_offset i t chain here refl (length ss) 0 (length ss) (omega arith)
      (omega arith) (omega arith, omega (arith, lt-get_elem? ss i t here))
