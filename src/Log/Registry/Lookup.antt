-- ===== src/Log/Registry/Lookup.antt =====
-- `get_segment` and `get_segment_by_base_offset`.
use pylogstream.Prelude.{
  Error, Option-cases, Bool-cases, ltb, ltb_ℤ, leb_ℤ, eqb_ℤ, ◌≤ℤ◌, true, false, zero, ◌+◌, ◌-◌, ◌/◌,
  ℕ, suc, ◌≤◌, ◌<◌, ◌≡◌, refl, sym, ap, ◌∙◌, ◌↔◌, inl, inr, List, [], ◌∷◌, Option, none, some,
  arith, ok, err, value_error, topic_doesnt_exist, ℤ, pos, negsuc, length, get_elem?, text_eq,
  lt-get_elem?,
}
use native.Mathlib.Decide.{dec_lt}
use pylogstream.Prelude.Dict.{get}
use pylogstream.Text.{Text}
use pylogstream.Log.Segment.{SegmentMeta, get_end_offset}
use pylogstream.Log.Registry.{
  SegmentRegistry, last?, find_segment_index, find_loop, segment_at, locate, get_segment,
}
use pylogstream.Log.Registry.Chain.{IsChain, IsChain-get}
use pylogstream.Log.Registry.Search.{Finds, find_segment_index_lem, find_segment_index-contains}

none-ne-some : {s : SegmentMeta} → ◌≡◌ {A = Option SegmentMeta} none (some s) → ⊥
none-ne-some k = cc

err_ok : {e : Error} {s : SegmentMeta} → err e ≡ ok s → ⊥
err_ok k = cc

pub last?-get_elem? :
    (ss : List SegmentMeta) (s : SegmentMeta)
    → last? ss ≡ some s
    → (i : ℕ) × (suc i ≡ length ss) × (get_elem? ss i ≡ some s)
unfolding last?
last?-get_elem? [] s h = absurd (none-ne-some h)
last?-get_elem? (t ∷ []) s h = (0, omega arith, h)
last?-get_elem? (t ∷ u ∷ ss) s h =
    let (i, p, q) = last?-get_elem? (u ∷ ss) s h in (suc i, omega arith, q)

last?-total :
    (ss : List SegmentMeta) (i : ℕ) (t : SegmentMeta)
    → get_elem? ss i ≡ some t
    → (s : SegmentMeta) × (last? ss ≡ some s)
unfolding last?
last?-total [] i t h = absurd (none-ne-some h)
last?-total (s ∷ []) i t h = (s, refl)
last?-total (s ∷ u ∷ ss) i t h = last?-total (u ∷ ss) 0 u refl

-- The segment at an index of the list contains the offset.
abbrev pub Contains : List SegmentMeta → ℕ → SegmentMeta → Type 0
Contains ss x s = (i : ℕ) × (get_elem? ss i ≡ some s) × (s.base_offset ≤ x) × (x < get_end_offset s)

abbrev pub ContainsOffset : List SegmentMeta → ℤ → SegmentMeta → Type 0
ContainsOffset ss offset s =
    (i : ℕ) × (get_elem? ss i ≡ some s)
    × (pos s.base_offset ≤ℤ offset)
    × (ltb_ℤ offset (pos (get_end_offset s)) ≡ true)

-- The search never goes right for a negative offset.
find_loop_negative :
    (fuel : ℕ) (ss : List SegmentMeta) (n l hi : ℕ) → find_loop fuel ss (negsuc n) l hi none ≡ none
unfolding find_loop
find_loop_negative zero ss n l hi = refl
find_loop_negative (suc fuel) ss n l hi = elim (Bool-cases (ltb l hi)) [
  | inr e ↦ rw e refl
  | inl e ↦ elim (Option-cases (get_elem? ss ((l + hi - 1) / 2))) [
    | inl g ↦ rw (e, g) refl
    | inr (s, g) ↦
        let low : leb_ℤ (pos s.base_offset) (negsuc n) ≡ false = ground arith in
        rw (e, g, low) (find_loop_negative fuel ss n l ((l + hi - 1) / 2))
  ]
]

locate_negative :
    (ss : List SegmentMeta) (n : ℕ) (previous : SegmentMeta)
    → locate ss (negsuc (suc n)) previous ≡ err value_error
unfolding locate segment_at find_segment_index
locate_negative ss n previous =
    let far : ltb_ℤ (pos (get_end_offset previous)) (negsuc (suc n)) ≡ false = ground arith in
    let other : eqb_ℤ (negsuc (suc n)) (negsuc 0) ≡ false = ground arith in
    rw (far, other, find_loop_negative (length ss) ss (suc n) 0 (length ss)) refl

segment_at_sound :
    (ss : List SegmentMeta) (x : ℕ) (r : Option ℕ) (s : SegmentMeta)
    → Finds ss x r
    → segment_at ss (pos x) r ≡ ok s
    → Contains ss x s
unfolding segment_at
segment_at_sound ss x none s f h = absurd (err_ok h)
segment_at_sound ss x (some i) s (t, g, b, _) h = (i, ground arith, ground arith, ground arith)

segment_at_complete :
    (ss : List SegmentMeta) (x i : ℕ) (s : SegmentMeta)
    → get_elem? ss i ≡ some s
    → x < get_end_offset s
    → segment_at ss (pos x) (some i) ≡ ok s
unfolding segment_at
segment_at_complete ss x i s g h = ground arith

locate_sound :
    (ss : List SegmentMeta) (x : ℕ) (s previous : SegmentMeta)
    → IsChain ss
    → locate ss (pos x) previous ≡ ok s
    → Contains ss x s
unfolding locate
locate_sound ss x s previous chain h =
    segment_at_sound ss x (find_segment_index ss (pos x)) s (find_segment_index_lem ss x chain)
      (ground arith)

locate_complete :
    (ss : List SegmentMeta) (x : ℕ) (s previous : SegmentMeta)
    → IsChain ss
    → x ≤ get_end_offset previous
    → Contains ss x s
    → locate ss (pos x) previous ≡ ok s
unfolding locate
locate_complete ss x s previous chain p (i, g, b, e) = ground (
  arith,
  find_segment_index-contains ss x i s chain g b (inl e),
  segment_at_complete ss x i s g e,
)

-- Nothing in a chain ends behind the last segment's end.
pub end-le-last :
    (ss : List SegmentMeta) (i : ℕ) (s previous : SegmentMeta)
    → IsChain ss
    → last? ss ≡ some previous
    → get_elem? ss i ≡ some s
    → get_end_offset s ≤ get_end_offset previous
end-le-last ss i s previous chain l g =
    let (k, p, q) = last?-get_elem? ss previous l in
    elim (dec_lt i k) [
      | yes h ↦ omega (arith, IsChain-get ss i k s previous chain h g q)
      | no h ↦
          let e : i ≡ k = omega (arith, lt-get_elem? ss i s g) in
          let t : some s ≡ some previous = sym g ∙ ap (get_elem? ss) e ∙ q in ground arith
    ]

module _ (r : SegmentRegistry) (topic : Text) (ss : List SegmentMeta)
    (found : get r.registry topic ≡ some ss) where
  get_segment-locate :
      (offset : ℤ) (previous : SegmentMeta)
      → last? ss ≡ some previous
      → get_segment r topic offset ≡ locate ss offset previous
  unfolding get_segment
  get_segment-locate offset previous l = rw (found, l) refl

  get_segment_empty : (offset : ℤ) → last? ss ≡ none → get_segment r topic offset ≡ err value_error
  unfolding get_segment
  get_segment_empty offset l = rw (found, l) refl

  natural_iff :
      (x : ℕ) (s : SegmentMeta)
      → IsChain ss
      → (get_segment r topic (pos x) ≡ ok s) ↔ Contains ss x s
  natural_iff x s chain = (sound, complete)
    where
      sound : get_segment r topic (pos x) ≡ ok s → Contains ss x s
      sound h = elim (Option-cases (last? ss)) [
        | inl l ↦ absurd (err_ok (sym (get_segment_empty (pos x) l) ∙ h))
        | inr (p, l) ↦ locate_sound ss x s p chain (sym (get_segment-locate (pos x) p l) ∙ h)
      ]

      complete : Contains ss x s → get_segment r topic (pos x) ≡ ok s
      complete (i, g, b, e) =
          let (p, l) = last?-total ss i s g in
          get_segment-locate (pos x) p l
          ∙ locate_complete ss x s p chain (omega (arith, end-le-last ss i s p chain l g))
              (i, g, b, e)

  -- No segment is found below -1.
  negative_err : (n : ℕ) (s : SegmentMeta) → get_segment r topic (negsuc (suc n)) ≡ ok s → ⊥
  negative_err n s h = elim (Option-cases (last? ss)) [
    | inl l ↦ err_ok (sym (get_segment_empty (negsuc (suc n)) l) ∙ h)
    | inr (p, l) ↦
        err_ok (sym (locate_negative ss n p) ∙ sym (get_segment-locate (negsuc (suc n)) p l) ∙ h)
  ]

  -- For a topic whose segments are in order, `get_segment` of any offset but -1, the other negative ones
  -- included, returns a segment exactly if that segment is registered and contains the offset.
  pub get_segment_iff :
      (offset : ℤ) (s : SegmentMeta)
      → (offset ≡ negsuc 0 → ⊥)
      → IsChain ss
      → (get_segment r topic offset ≡ ok s) ↔ ContainsOffset ss offset s
  get_segment_iff (pos x) s other chain =
      let (sound, complete) = natural_iff x s chain in
      (
        λ h. let (i, g, b, e) = sound h in (i, g, ground arith, ground arith),
        λ (i, g, b, e). complete (i, g, ground arith, ground arith),
      )
  get_segment_iff (negsuc zero) s other chain = absurd (other refl)
  get_segment_iff (negsuc (suc n)) s other chain =
      (λ h. absurd (negative_err n s h), λ (i, g, b, e). absurd (below b))
    where
      below : pos s.base_offset ≤ℤ negsuc (suc n) → ⊥
      below h = ground arith

  -- The offset -1 gives the last segment, whatever its size.
  pub get_segment_latest :
      (s : SegmentMeta) → last? ss ≡ some s → get_segment r topic (negsuc 0) ≡ ok s
  unfolding locate
  get_segment_latest s l = get_segment-locate (negsuc 0) s l ∙ ground arith

-- A topic that was never created.
pub get_segment_missing :
    (r : SegmentRegistry) (topic : Text) (offset : ℤ)
    → get r.registry topic ≡ none
    → get_segment r topic offset ≡ err topic_doesnt_exist
unfolding get_segment
get_segment_missing r topic offset h = rw h refl
