-- ===== src/Log/Registry/Search.antt =====
-- `_find_segment_index` and `bisect_left` on a chain.
use pylogstream.Prelude.{
  ℕ, zero, suc, ◌+◌, ◌-◌, ◌/◌, ◌≤◌, ◌<◌, ◌≡◌, ◌⊎◌, refl, List, Option, none, some, arith, sym, ap,
  ◌∙◌, subst, get_elem?-lt, lt-get_elem?, length, get_elem?, pos,
}
use native.Mathlib.Decide.{dec_lt, dec_le}
use pylogstream.Log.Segment.{SegmentMeta, get_end_offset}
use pylogstream.Log.Registry.{find_loop, find_segment_index}
use pylogstream.Log.Registry.Chain.{IsChain, IsChain-get}

-- What the loop knows of the bounds: all before `l` begin at the offset or before it, and all from `hi`
-- on begin behind it.
abbrev IsBelow : List SegmentMeta → ℕ → ℕ → Type 0
IsBelow ss x l = (j : ℕ) (s : SegmentMeta) → j < l → get_elem? ss j ≡ some s → s.base_offset ≤ x

abbrev IsAbove : List SegmentMeta → ℕ → ℕ → Type 0
IsAbove ss x hi = (j : ℕ) (s : SegmentMeta) → hi ≤ j → get_elem? ss j ≡ some s → x < s.base_offset

-- The last index before `l`.
abbrev last_before : ℕ → Option ℕ
last_before zero = none
last_before (suc l) = some l

same_base :
    (ss : List SegmentMeta) (x m : ℕ) (s : SegmentMeta) (j : ℕ) (t : SegmentMeta)
    → get_elem? ss m ≡ some s
    → get_elem? ss j ≡ some t
    → j ≡ m
    → t.base_offset ≡ s.base_offset
same_base ss x m s j t e g q =
    let p : some t ≡ some s = sym g ∙ ap (get_elem? ss) q ∙ e in ground arith

module _ (ss : List SegmentMeta) (x : ℕ) (chain : IsChain ss) where
  mid-IsBelow :
      (m : ℕ) (s : SegmentMeta) → get_elem? ss m ≡ some s → s.base_offset ≤ x → IsBelow ss x (m + 1)
  mid-IsBelow m s e b j t l g = elim (dec_lt j m) [
    | yes p ↦ omega (arith, (IsChain-get ss j m t s chain p g e).1)
    | no p ↦ let q : j ≡ m = omega arith in omega (arith, same_base ss x m s j t e g q)
  ]

  mid-IsAbove :
      (m : ℕ) (s : SegmentMeta) → get_elem? ss m ≡ some s → x < s.base_offset → IsAbove ss x m
  mid-IsAbove m s e b j t l g = elim (dec_lt m j) [
    | yes p ↦ omega (arith, (IsChain-get ss m j s t chain p e g).1)
    | no p ↦ let q : j ≡ m = omega arith in omega (arith, same_base ss x m s j t e g q)
  ]

  find_right :
      (f l hi : ℕ) (i : Option ℕ) (s : SegmentMeta)
      → l < hi
      → get_elem? ss ((l + hi - 1) / 2) ≡ some s
      → s.base_offset ≤ x
      → find_loop (suc f) ss (pos x) l hi i
        ≡ find_loop f ss (pos x) ((l + hi - 1) / 2 + 1) hi (some ((l + hi - 1) / 2))
  unfolding find_loop
  find_right f l hi i s p e b = ground arith

  find_left :
      (f l hi : ℕ) (i : Option ℕ) (s : SegmentMeta)
      → l < hi
      → get_elem? ss ((l + hi - 1) / 2) ≡ some s
      → x < s.base_offset
      → find_loop (suc f) ss (pos x) l hi i ≡ find_loop f ss (pos x) l ((l + hi - 1) / 2) i
  unfolding find_loop
  find_left f l hi i s p e b = ground arith

  find_done : (f l hi : ℕ) (i : Option ℕ) → ¬ (l < hi) → find_loop f ss (pos x) l hi i ≡ i
  unfolding find_loop
  find_done zero l hi i p = refl
  find_done (suc f) l hi i p = ground arith

  -- The result splits the list: what is before `k` begins at the offset or before it, the rest behind.
  abbrev IsSplit : Option ℕ → Type 0
  IsSplit r = (k : ℕ) × (r ≡ last_before k) × IsBelow ss x k × IsAbove ss x k × (k ≤ length ss)

  find_loop-IsSplit :
      (f l hi : ℕ) (i : Option ℕ)
      → hi ≤ length ss
      → l ≤ hi
      → hi ≤ l + f
      → IsBelow ss x l
      → IsAbove ss x hi
      → i ≡ last_before l
      → IsSplit (find_loop f ss (pos x) l hi i)
  find_loop-IsSplit zero l hi i p q r below above e = (
    l,
    find_done zero l hi i (omega arith) ∙ e,
    below,
    (λ j s h g. above j s (omega arith) g),
    omega arith,
  )
  find_loop-IsSplit (suc f) l hi i p q r below above e = elim (dec_lt l hi) [
    | no t ↦ (
      l,
      find_done (suc f) l hi i t ∙ e,
      below,
      (λ j s h g. above j s (omega arith) g),
      omega arith,
    )
    | yes t ↦
        let m : ℕ = (l + hi - 1) / 2 in
        let (s, g) = get_elem?-lt ss m (omega arith) in
        let next : suc m ≡ m + 1 = omega arith in
        elim (dec_le s.base_offset x) [
          | yes b ↦ subst IsSplit (sym (find_right f l hi i s t g b)) (
              find_loop-IsSplit f (m + 1) hi (some m) p (omega arith) (omega arith)
                (mid-IsBelow m s g b) above (ap last_before next))
          | no b ↦ subst IsSplit (sym (find_left f l hi i s t g (omega arith))) (
              find_loop-IsSplit f l m i (omega arith) (omega arith) (omega arith) below
                (mid-IsAbove m s g (omega arith)) e)
        ]
  ]

  find_segment_index-IsSplit : IsSplit (find_segment_index ss (pos x))
  unfolding find_segment_index
  find_segment_index-IsSplit =
      find_loop-IsSplit (length ss) 0 (length ss) none (omega arith) (omega arith) (omega arith)
        (λ j s h g. absurd (omega arith)) (λ j s h g. absurd (omega (arith, lt-get_elem? ss j s g)))
        refl

-- What an index means: the segment at it is the last one that begins at the offset or before it; where
-- there is no index, every segment begins behind the offset.
abbrev pub Finds : List SegmentMeta → ℕ → Option ℕ → Type 0
Finds ss x none = (j : ℕ) (t : SegmentMeta) → get_elem? ss j ≡ some t → x < t.base_offset
Finds ss x (some i) =
    (s : SegmentMeta) × (get_elem? ss i ≡ some s)
    × (s.base_offset ≤ x)
    × ((j : ℕ) (t : SegmentMeta) → i < j → get_elem? ss j ≡ some t → x < t.base_offset)

Finds-last_before :
    (ss : List SegmentMeta) (x k : ℕ)
    → IsBelow ss x k
    → IsAbove ss x k
    → k ≤ length ss
    → Finds ss x (last_before k)
Finds-last_before ss x zero below above p = λ j t g. above j t (omega arith) g
Finds-last_before ss x (suc i) below above p =
    let (s, g) = get_elem?-lt ss i (omega arith) in
    (s, g, below i s (omega arith) g, λ j t l h. above j t (omega arith) h)

-- The binary search is right on every list of segments that is in order, the empty one included: its
-- fuel suffices and no index is out of range.
pub find_segment_index_lem :
    (ss : List SegmentMeta) (x : ℕ) → IsChain ss → Finds ss x (find_segment_index ss (pos x))
find_segment_index_lem ss x chain =
    let (k, e, below, above, p) = find_segment_index-IsSplit ss x chain in
    subst (Finds ss x) (sym e) (Finds-last_before ss x k below above p)

-- The segment of a chain that contains an offset is the one that is found.
pub find_segment_index-contains :
    (ss : List SegmentMeta) (x i : ℕ) (s : SegmentMeta)
    → IsChain ss
    → get_elem? ss i ≡ some s
    → s.base_offset ≤ x
    → (x < get_end_offset s) ⊎ (x ≡ s.base_offset)
    → find_segment_index ss (pos x) ≡ some i
find_segment_index-contains ss x i s chain g b c =
    let (k, e, below, above, p) = find_segment_index-IsSplit ss x chain in
    e ∙ ap last_before (split_point k below above p)
  where
    split_point : (k : ℕ) → IsBelow ss x k → IsAbove ss x k → k ≤ length ss → k ≡ suc i
    split_point k below above p = elim (dec_lt i k) [
      | no q ↦ absurd (omega (arith, above i s (omega arith) g))
      | yes q ↦ elim (dec_lt (suc i) k) [
        | no r ↦ omega arith
        | yes r ↦
            let (t, h) = get_elem?-lt ss (suc i) (omega arith) in
            absurd (
              omega
                (arith, below (suc i) t r h, IsChain-get ss i (suc i) s t chain (omega arith) g h))
      ]
    ]
