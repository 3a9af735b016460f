-- ===== src/Log/Registry/Progress.antt =====
-- `progress_state` keeps the registry valid, and what it does with a registered segment.
use pylogstream.Prelude.{
  same_refl, All, zero, suc, [], ◌∷◌, ◌++◌, take, drop, ap, ◌⊎◌, false, ℕ, ◌≡◌, refl, List, Option,
  none, some, true, arith, subst, ok, err, value_error, illegal_transition, >>=-eq-ok, ok_pair,
  err-ne-ok, or_raise, or_raise-eq-ok, Bool-cases, inl, inr, get_elem?, set, text_eq,
}
use pylogstream.Prelude.Dict.{get, put}
use pylogstream.Log.Segment.{SegmentMeta, SegmentState, same_meta, same_state}
use pylogstream.Log.Registry.{
  SegmentRegistry, progress_at, bisect_left, is_registered, is_allowed, move_to, progress_state,
  put_segments, pop_at,
}
use pylogstream.Log.Registry.Chain.{IsChain, IsChain-set, IsChain-pop_at}
use pylogstream.Log.Registry.Bisect.{bisect_left_lem}
use pylogstream.Log.Registry.Valid.{IsOf, IsValid, put-IsValid, All-set, All-pop_at}

same_state_refl : (st : SegmentState) → same_state st st ≡ true
unfolding same_state
same_state_refl SegmentState.active = refl
same_state_refl SegmentState.sealed = refl
same_state_refl SegmentState.expired = refl
same_state_refl SegmentState.deleted = refl

same_meta_refl : (s : SegmentMeta) → same_meta s s ≡ true
unfolding same_meta
same_meta_refl s = rw (same_refl s.topic, same_refl s.path, same_state_refl s.state) (ground arith)

module _ (r : SegmentRegistry) (v : IsValid r) where
  registered_lem :
      (segment : SegmentMeta) (o : Option SegmentMeta)
      → is_registered segment o ≡ true
      → (s : SegmentMeta) × (o ≡ some s)
        × (segment.base_offset ≡ s.base_offset)
        × (segment.size ≡ s.size)
  unfolding is_registered same_meta
  registered_lem segment none h = cc
  registered_lem segment (some s) h = (s, refl, ground arith, ground arith)

  moved_to-IsValid :
      (ss : List SegmentMeta) (i : ℕ) (segment s : SegmentMeta) (st : SegmentState)
      → IsChain ss
      → All (IsOf segment.topic) ss
      → get_elem? ss i ≡ some s
      → segment.base_offset ≡ s.base_offset
      → segment.size ≡ s.size
      → IsValid (put_segments r segment.topic (set ss i (record segment { state = st })))
  moved_to-IsValid ss i segment s st chain named g b z =
      put-IsValid r segment.topic _ v (IsChain-set ss i s _ chain g b (omega arith))
        (All-set segment.topic ss i _ named refl)

  move_to-IsValid :
      (ss : List SegmentMeta) (i : ℕ) (segment s : SegmentMeta) (st : SegmentState)
      → IsChain ss
      → All (IsOf segment.topic) ss
      → get_elem? ss i ≡ some s
      → segment.base_offset ≡ s.base_offset
      → segment.size ≡ s.size
      → IsValid (move_to r ss i segment st).1
        × ((move_to r ss i segment st).0.base_offset ≡ segment.base_offset)
        × ((move_to r ss i segment st).0.size ≡ segment.size)
  unfolding move_to
  move_to-IsValid ss i segment s SegmentState.deleted chain named g b z = (
    put-IsValid r segment.topic _ v (IsChain-pop_at ss i chain)
        (All-pop_at segment.topic ss i named),
    refl,
    refl,
  )
  move_to-IsValid ss i segment s SegmentState.active chain named g b z =
      (moved_to-IsValid ss i segment s SegmentState.active chain named g b z, refl, refl)
  move_to-IsValid ss i segment s SegmentState.sealed chain named g b z =
      (moved_to-IsValid ss i segment s SegmentState.sealed chain named g b z, refl, refl)
  move_to-IsValid ss i segment s SegmentState.expired chain named g b z =
      (moved_to-IsValid ss i segment s SegmentState.expired chain named g b z, refl, refl)

  progress_at-IsValid :
      (ss : List SegmentMeta) (i : ℕ) (segment m : SegmentMeta) (st : SegmentState)
      (r' : SegmentRegistry)
      → IsChain ss
      → All (IsOf segment.topic) ss
      → progress_at r ss i segment st ≡ ok (m, r')
      → IsValid r'
        × (is_allowed segment.state st ≡ true)
        × (m.base_offset ≡ segment.base_offset)
        × (m.size ≡ segment.size)
  unfolding progress_at
  progress_at-IsValid ss i segment m st r' chain named h =
      elim (Bool-cases (is_registered segment (get_elem? ss i))) [
        | inr t ↦ absurd (err-ne-ok (rw t at h))
        | inl t ↦ elim (Bool-cases (is_allowed segment.state st)) [
          | inr u ↦ absurd (err-ne-ok (rw (t, u) at h))
          | inl u ↦
              let (a, b) = ok_pair (rw (t, u) at h) in
              let (s, g, p, q) = registered_lem segment (get_elem? ss i) t in
              let (x, y, z) = move_to-IsValid ss i segment s st chain named g p q in
              (
                subst IsValid b x,
                u,
                subst (λ (k : SegmentMeta). k.base_offset ≡ segment.base_offset) a y,
                subst (λ (k : SegmentMeta). k.size ≡ segment.size) a z,
              )
        ]
      ]

  -- A transition that succeeds is one of the three that are allowed; the segment keeps its offsets, and
  -- every topic's segments stay in order.
  pub progress_state-IsValid :
      (segment m : SegmentMeta) (st : SegmentState) (r' : SegmentRegistry)
      → progress_state r segment st ≡ ok (m, r')
      → IsValid r'
        × (is_allowed segment.state st ≡ true)
        × (m.base_offset ≡ segment.base_offset)
        × (m.size ≡ segment.size)
  unfolding progress_state
  progress_state-IsValid segment m st r' h =
      let (ss, e, k) = >>=-eq-ok (or_raise value_error (get r.registry segment.topic)) _ h in
      progress_at-IsValid ss (bisect_left ss segment.base_offset) segment m st r'
        (v.chains segment.topic ss (or_raise-eq-ok value_error (get r.registry segment.topic) e))
        (v.topics segment.topic ss (or_raise-eq-ok value_error (get r.registry segment.topic) e)) k

-- The three transitions.
abbrev pub IsNext : SegmentState → SegmentState → Type 0
IsNext SegmentState.active SegmentState.sealed = Unit
IsNext SegmentState.sealed SegmentState.expired = Unit
IsNext SegmentState.expired SegmentState.deleted = Unit
IsNext _ _ = ⊥

IsNext-cases :
    (a b : SegmentState)
    → (IsNext a b × (is_allowed a b ≡ true)) ⊎ ((IsNext a b → ⊥) × (is_allowed a b ≡ false))
unfolding is_allowed
IsNext-cases SegmentState.active SegmentState.sealed = inl (tt, refl)
IsNext-cases SegmentState.sealed SegmentState.expired = inl (tt, refl)
IsNext-cases SegmentState.expired SegmentState.deleted = inl (tt, refl)
IsNext-cases _ _ = inr ((λ h. h), refl)

-- What is returned, and what stands in the segment's place: a deleted segment is gone from the list.
abbrev pub moved : SegmentMeta → SegmentState → SegmentMeta
moved segment SegmentState.deleted = segment
moved segment st = record segment { state = st }

abbrev pub in_place : SegmentMeta → SegmentState → List SegmentMeta
in_place segment SegmentState.deleted = []
in_place segment st = record segment { state = st } ∷ []

set-take :
    (ss : List SegmentMeta) (i : ℕ) (s m : SegmentMeta)
    → get_elem? ss i ≡ some s
    → set ss i m ≡ take i ss ++ m ∷ drop (suc i) ss
set-take [] i s m h = cc
set-take (x ∷ ss) zero s m h = refl
set-take (x ∷ ss) (suc i) s m h = ap (λ (l : List SegmentMeta). x ∷ l) (set-take ss i s m h)

pop_at-take : (ss : List SegmentMeta) (i : ℕ) → pop_at ss i ≡ take i ss ++ drop (suc i) ss
unfolding pop_at
pop_at-take [] zero = refl
pop_at-take [] (suc i) = refl
pop_at-take (x ∷ ss) zero = refl
pop_at-take (x ∷ ss) (suc i) = ap (λ (l : List SegmentMeta). x ∷ l) (pop_at-take ss i)

module _ (r : SegmentRegistry) (ss : List SegmentMeta) (i : ℕ) (segment : SegmentMeta) where
  -- The registry with that in the segment's place.
  abbrev pub moved_in : SegmentState → SegmentRegistry
  moved_in st = record r {
    registry = put r.registry segment.topic (take i ss ++ (in_place segment st ++ drop (suc i) ss));
  }

  move_to-moved :
      (st : SegmentState)
      → get_elem? ss i ≡ some segment
      → move_to r ss i segment st ≡ (moved segment st, moved_in st)
  unfolding move_to
  move_to-moved SegmentState.deleted g =
      ap (λ l. (segment, put_segments r segment.topic l)) (pop_at-take ss i)
  move_to-moved SegmentState.active g =
      ap (λ l. (moved segment SegmentState.active, put_segments r segment.topic l))
        (set-take ss i segment (moved segment SegmentState.active) g)
  move_to-moved SegmentState.sealed g =
      ap (λ l. (moved segment SegmentState.sealed, put_segments r segment.topic l))
        (set-take ss i segment (moved segment SegmentState.sealed) g)
  move_to-moved SegmentState.expired g =
      ap (λ l. (moved segment SegmentState.expired, put_segments r segment.topic l))
        (set-take ss i segment (moved segment SegmentState.expired) g)

  -- A segment that is registered moves from active to sealed, from sealed to expired and from expired to
  -- deleted: it is returned with the new state and stands with it in its place, with the other segments
  -- as they were, or it is taken off the list and returned as it was if it is deleted. Any other
  -- transition is refused.
  pub progress_state-registered :
      (st : SegmentState)
      → IsValid r
      → get r.registry segment.topic ≡ some ss
      → get_elem? ss i ≡ some segment
      → (IsNext segment.state st
          × (progress_state r segment st ≡ ok (moved segment st, moved_in st)))
        ⊎ ((IsNext segment.state st → ⊥) × (progress_state r segment st ≡ err illegal_transition))
  unfolding progress_state progress_at is_registered
  progress_state-registered st v e g =
      let at = bisect_left_lem ss i segment (v.chains segment.topic ss e) g in
      elim (IsNext-cases segment.state st) [
        | inl (n, t) ↦
            inl (n, rw (e, at, g, same_meta_refl segment, t) (ap ok (move_to-moved st g)))
        | inr (n, t) ↦ inr (n, rw (e, at, g, same_meta_refl segment, t) refl)
      ]
