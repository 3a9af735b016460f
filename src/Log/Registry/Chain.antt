-- ===== src/Log/Registry/Chain.antt =====
-- The order of a topic's segments: each begins behind the one before it and not inside it.
use pylogstream.Prelude.{
  ℕ, zero, suc, ◌≤◌, ◌<◌, ◌≡◌, refl, List, [], ◌∷◌, ◌++◌, some, arith, length, get_elem?, set,
}
use pylogstream.Log.Segment.{SegmentMeta, get_end_offset}
use pylogstream.Log.Registry.{last?, pop_at}

-- Two neighbours: no overlap, and no common base offset.
abbrev pub IsBefore : SegmentMeta → SegmentMeta → Type 0
IsBefore s t = (get_end_offset s ≤ t.base_offset) × (s.base_offset < t.base_offset)

abbrev pub IsChain : List SegmentMeta → Type 0
IsChain [] = Unit
IsChain (s ∷ []) = Unit
IsChain (s ∷ t ∷ ss) = IsBefore s t × IsChain (t ∷ ss)

pub IsChain-tail : (s : SegmentMeta) (ss : List SegmentMeta) → IsChain (s ∷ ss) → IsChain ss
IsChain-tail s [] h = tt
IsChain-tail s (t ∷ ss) h = h.1

-- Of two segments in a chain the earlier one ends before the later one begins.
pub IsChain-get :
    (ss : List SegmentMeta) (i j : ℕ) (s t : SegmentMeta)
    → IsChain ss
    → i < j
    → get_elem? ss i ≡ some s
    → get_elem? ss j ≡ some t
    → IsBefore s t
IsChain-get [] i j s t h l a b = cc
IsChain-get (u ∷ []) i zero s t h l a b = elim l [ ]
IsChain-get (u ∷ []) i (suc j) s t h l a b = cc
IsChain-get (u ∷ v ∷ ss) i zero s t h l a b = elim l [ ]
IsChain-get (u ∷ v ∷ ss) zero (suc zero) s t h l a b = ground arith
IsChain-get (u ∷ v ∷ ss) zero (suc (suc j)) s t h l a b =
    ground (arith, IsChain-get (v ∷ ss) zero (suc j) v t h.1 (omega arith) refl b)
IsChain-get (u ∷ v ∷ ss) (suc i) (suc j) s t h l a b =
    IsChain-get (v ∷ ss) i j s t h.1 (omega arith) a b

-- A new segment behind the last one keeps the chain.
pub IsChain-append :
    (ss : List SegmentMeta) (s t : SegmentMeta)
    → IsChain ss
    → last? ss ≡ some s
    → IsBefore s t
    → IsChain (ss ++ t ∷ [])
unfolding last?
IsChain-append [] s t h e b = tt
IsChain-append (u ∷ []) s t h e b = ground arith
IsChain-append (u ∷ v ∷ ss) s t h e b = (h.0, IsChain-append (v ∷ ss) s t h.1 e b)

-- A segment that takes the place of one at the same base offset, and is not longer.
pub IsChain-set :
    (ss : List SegmentMeta) (i : ℕ) (s t : SegmentMeta)
    → IsChain ss
    → get_elem? ss i ≡ some s
    → t.base_offset ≡ s.base_offset
    → t.size ≤ s.size
    → IsChain (set ss i t)
IsChain-set [] i s t h e p q = tt
IsChain-set (u ∷ []) zero s t h e p q = tt
IsChain-set (u ∷ []) (suc i) s t h e p q = tt
IsChain-set (u ∷ v ∷ ss) zero s t h e p q = ground arith
IsChain-set (u ∷ v ∷ ss) (suc zero) s t h e p q =
    ground (arith, IsChain-set (v ∷ ss) zero s t h.1 e p q)
IsChain-set (u ∷ v ∷ ss) (suc (suc i)) s t h e p q =
    (h.0, IsChain-set (v ∷ ss) (suc i) s t h.1 e p q)

-- The last segment may grow.
pub IsChain-grow_last :
    (ss : List SegmentMeta) (i : ℕ) (s t : SegmentMeta)
    → IsChain ss
    → get_elem? ss i ≡ some s
    → suc i ≡ length ss
    → t.base_offset ≡ s.base_offset
    → IsChain (set ss i t)
IsChain-grow_last [] i s t h e l p = tt
IsChain-grow_last (u ∷ []) zero s t h e l p = tt
IsChain-grow_last (u ∷ []) (suc i) s t h e l p = tt
IsChain-grow_last (u ∷ v ∷ ss) zero s t h e l p = absurd (omega arith)
IsChain-grow_last (u ∷ v ∷ []) (suc zero) s t h e l p = ground arith
IsChain-grow_last (u ∷ v ∷ []) (suc (suc i)) s t h e l p = absurd (omega arith)
IsChain-grow_last (u ∷ v ∷ w ∷ ss) (suc zero) s t h e l p = absurd (omega arith)
IsChain-grow_last (u ∷ v ∷ w ∷ ss) (suc (suc i)) s t h e l p =
    (h.0, IsChain-grow_last (v ∷ w ∷ ss) (suc i) s t h.1 e (omega arith) p)

-- A segment may be taken out.
pub IsChain-pop_at : (ss : List SegmentMeta) (i : ℕ) → IsChain ss → IsChain (pop_at ss i)
unfolding pop_at
IsChain-pop_at [] i h = tt
IsChain-pop_at (u ∷ ss) zero h = IsChain-tail u ss h
IsChain-pop_at (u ∷ []) (suc i) h = tt
IsChain-pop_at (u ∷ v ∷ []) (suc zero) h = tt
IsChain-pop_at (u ∷ v ∷ w ∷ ss) (suc zero) h = (omega arith, h.1.1)
IsChain-pop_at (u ∷ v ∷ ss) (suc (suc i)) h = (h.0, IsChain-pop_at (v ∷ ss) (suc i) h.1)
