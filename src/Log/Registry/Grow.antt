-- ===== src/Log/Registry/Grow.antt =====
-- `create_segment` and `advance_offset` keep the registry valid.
use pylogstream.Prelude.{
  All-append, All, ℕ, ◌≡◌, refl, sym, ap, ◌∙◌, List, [], ◌∷◌, Option, none, some, false, arith,
  subst, ◌-◌, ◌+◌, ok, >>=-eq-ok, ok_pair, err-ne-ok, or_raise, or_raise-eq-ok, index_error, ltb,
  ◌||◌, ◌==◌, Bool-cases, inl, inr, length, get_elem?, set, text_eq, pos,
}
use pylogstream.Prelude.Dict.{get, get-put_self}
use pylogstream.Text.{Text}
use pylogstream.Log.Segment.{SegmentMeta, SegmentState, get_end_offset}
use pylogstream.Log.Registry.{
  SegmentRegistry, last?, new_segment, append_behind, create_in, create_segment, advance_at,
  find_segment_index, advance_offset, put_segments,
}
use pylogstream.Log.Registry.Chain.{IsChain, IsBefore, IsChain-append, IsChain-grow_last}
use pylogstream.Log.Registry.Search.{find_segment_index-contains}
use pylogstream.Log.Registry.Lookup.{last?-get_elem?}
use pylogstream.Log.Registry.Valid.{IsOf, IsValid, put-IsValid, All-set, All-get_elem?}

test-IsBefore :
    (s previous : SegmentMeta)
    → (ltb s.base_offset (get_end_offset previous) || previous.base_offset == s.base_offset) ≡ false
    → IsBefore previous s
test-IsBefore s previous h = ground arith

module _ (r : SegmentRegistry) (v : IsValid r) where
  append_behind-IsValid :
      (topic : Text) (s previous : SegmentMeta) (ss : List SegmentMeta) (m : SegmentMeta)
      (r' : SegmentRegistry)
      → IsChain ss
      → All (IsOf topic) ss
      → IsOf topic s
      → last? ss ≡ some previous
      → append_behind r topic s ss previous ≡ ok (m, r')
      → IsValid r' × (m ≡ s)
  unfolding append_behind
  append_behind-IsValid topic s p ss m r' chain named own last h =
      elim (Bool-cases (ltb s.base_offset (get_end_offset p) || p.base_offset == s.base_offset)) [
        | inl t ↦ absurd (err-ne-ok (rw t at h))
        | inr t ↦
            let (a, b) = ok_pair (rw t at h) in
            (
              subst IsValid b (
                  put-IsValid r topic _ v (IsChain-append ss p s chain last (test-IsBefore s p t))
                    (All-append (IsOf topic) ss (s ∷ []) named (own, tt))),
              sym a,
            )
      ]

  create_in-IsValid :
      (topic : Text) (s m : SegmentMeta) (o : Option (List SegmentMeta)) (r' : SegmentRegistry)
      → get r.registry topic ≡ o
      → IsOf topic s
      → create_in r topic s o ≡ ok (m, r')
      → IsValid r' × (m ≡ s)
  unfolding create_in
  create_in-IsValid topic s m none r' e own h =
      let (a, b) = ok_pair h in (subst IsValid b (put-IsValid r topic _ v tt (own, tt)), sym a)
  create_in-IsValid topic s m (some ss) r' e own h =
      let (p, l, k) = >>=-eq-ok (or_raise index_error (last? ss)) _ h in
      append_behind-IsValid topic s p ss m r' (v.chains topic ss e) (v.topics topic ss e) own
        (or_raise-eq-ok index_error (last? ss) l) k

  -- A segment that is created is an empty active one at the base offset asked for, and every topic's
  -- segments stay in order.
  pub create_segment-IsValid :
      (topic : Text) (base : ℕ) (m : SegmentMeta) (r' : SegmentRegistry)
      → create_segment r topic base ≡ ok (m, r')
      → IsValid r'
        × (m.base_offset ≡ base)
        × (m.size ≡ 0)
        × (m.state ≡ SegmentState.active)
        × (m.topic ≡ topic)
  unfolding create_segment
  create_segment-IsValid topic base m r' h =
      let (a, b) =
        create_in-IsValid topic (new_segment r topic base) m (get r.registry topic) r' refl refl
          h in
      (
        a,
        ap (λ (s : SegmentMeta). s.base_offset) b,
        ap (λ (s : SegmentMeta). s.size) b,
        ap (λ (s : SegmentMeta). s.state) b,
        ap (λ (s : SegmentMeta). s.topic) b,
      )

  advance_last :
      (meta last : SegmentMeta) (len i : ℕ) (ss : List SegmentMeta)
      → get r.registry meta.topic ≡ some ss
      → find_segment_index ss (pos meta.base_offset) ≡ some i
      → get_elem? ss i ≡ some last
      → advance_offset r meta len ≡ ok (advance_at r meta.topic ss i len last)
  unfolding advance_offset
  advance_last meta last len i ss e f g = rw (e, f) (rw g refl)

  -- Growing the segment at the base offset of a topic's last segment succeeds, makes that segment longer
  -- by the length given, and keeps every topic's segments in order.
  pub advance_offset-IsValid :
      (meta last : SegmentMeta) (len : ℕ) (ss : List SegmentMeta)
      → get r.registry meta.topic ≡ some ss
      → last? ss ≡ some last
      → meta.base_offset ≡ last.base_offset
      → (m : SegmentMeta) × (r' : SegmentRegistry) × (advance_offset r meta len ≡ ok (m, r'))
        × IsValid r'
        × (m ≡ record last { size = last.size + len })
        × (get r'.registry meta.topic ≡ some (set ss (length ss - 1) m))
  advance_offset-IsValid meta last len ss e l b =
      let (i, p, g) = last?-get_elem? ss last l in
      let chain = v.chains meta.topic ss e in
      let named = v.topics meta.topic ss e in
      let grown : SegmentMeta = record last { size = last.size + len } in
      (
        grown,
        put_segments r meta.topic (set ss i grown),
        advance_last meta last len i ss e
              (find_segment_index-contains ss meta.base_offset i last chain g (omega arith) (inr b))
              g
            ∙ (unfold advance_at in refl),
        put-IsValid r meta.topic _ v (IsChain-grow_last ss i last grown chain g p refl)
            (All-set meta.topic ss i grown named (All-get_elem? meta.topic ss i last named g)),
        refl,
        get-put_self r.registry meta.topic (set ss i grown)
            ∙ (let at : i ≡ length ss - 1 = omega arith in ap (λ k. some (set ss k grown)) at),
      )
