-- ===== src/Log/Registry/Valid.antt =====
-- What the operations of the registry keep: each topic has its own segments, in order.
use pylogstream.Prelude.{
  All, ℕ, zero, suc, ◌≡◌, ◌≢◌, sym, ap, ◌∙◌, List, [], ◌∷◌, some, false, arith, subst, Bool-cases,
  inl, inr, get_elem?, set, text_eq, same, same_iff,
}
use pylogstream.Prelude.Dict.{get-put_ne, get, put, get-put, get-put_self}
use pylogstream.Text.{Text}
use pylogstream.Log.Segment.{SegmentMeta}
use pylogstream.Log.Registry.{SegmentRegistry, pop_at, put_segments}
use pylogstream.Log.Registry.Chain.{IsChain}

-- A segment is kept under its topic.
abbrev pub IsOf : Text → SegmentMeta → Type 0
IsOf topic s = s.topic ≡ topic

get_empty : (t : Text) (us : List SegmentMeta) → get {V = List SegmentMeta} [] t ≡ some us → ⊥
unfolding get
get_empty t us h = cc

pub record IsValid (r : SegmentRegistry) : Type 0 where
  pub chains : (topic : Text) (ss : List SegmentMeta) → get r.registry topic ≡ some ss → IsChain ss
  pub topics :
      (topic : Text) (ss : List SegmentMeta) → get r.registry topic ≡ some ss → All (IsOf topic) ss

-- A registry without topics.
pub no_topics-IsValid :
    (log_dir : Text) (loaded_at : ℕ)
    → IsValid (record { log_dir = log_dir; loaded_at = loaded_at; registry = [] })
no_topics-IsValid log_dir loaded_at = record {
  chains = λ t us h. absurd (get_empty t us h);
  topics = λ t us h. absurd (get_empty t us h);
}

other : (s t : Text) → same s t ≡ false → s ≢ t
other s t h e = ground (arith, (same_iff s t).1 e)

-- One topic gets a chain of its segments, and the others keep theirs.
pub put-IsValid :
    (r : SegmentRegistry) (topic : Text) (ss : List SegmentMeta)
    → IsValid r
    → IsChain ss
    → All (IsOf topic) ss
    → IsValid (put_segments r topic ss)
put-IsValid r topic ss v c o = record {
  chains = λ t us h. ground (arith, get-put r.registry topic t ss, v.chains t us, c);
  topics = λ t us h. elim (Bool-cases (same topic t)) [
    | inl e ↦
        let p = (same_iff topic t).0 e in
        let g : some ss ≡ some us =
          sym (get-put_self r.registry topic ss) ∙ ap (get (put r.registry topic ss)) p ∙ h in
        let q : ss ≡ us = cc in subst (λ k. All (IsOf k) us) p (subst (All (IsOf topic)) q o)
    | inr e ↦ v.topics t us (sym (get-put_ne r.registry topic t ss (other topic t e)) ∙ h)
  ];
}

pub All-set :
    (topic : Text) (ss : List SegmentMeta) (i : ℕ) (s : SegmentMeta)
    → All (IsOf topic) ss
    → IsOf topic s
    → All (IsOf topic) (set ss i s)
All-set topic [] i s h k = tt
All-set topic (t ∷ ss) zero s h k = (k, h.1)
All-set topic (t ∷ ss) (suc i) s h k = (h.0, All-set topic ss i s h.1 k)

pub All-pop_at :
    (topic : Text) (ss : List SegmentMeta) (i : ℕ)
    → All (IsOf topic) ss
    → All (IsOf topic) (pop_at ss i)
unfolding pop_at
All-pop_at topic [] i h = tt
All-pop_at topic (t ∷ ss) zero h = h.1
All-pop_at topic (t ∷ ss) (suc i) h = (h.0, All-pop_at topic ss i h.1)

pub All-get_elem? :
    (topic : Text) (ss : List SegmentMeta) (i : ℕ) (s : SegmentMeta)
    → All (IsOf topic) ss
    → get_elem? ss i ≡ some s
    → IsOf topic s
All-get_elem? topic [] i s h g = cc
All-get_elem? topic (t ∷ ss) zero s h g = let q : t ≡ s = cc in subst (IsOf topic) q h.0
All-get_elem? topic (t ∷ ss) (suc i) s h g = All-get_elem? topic ss i s h.1 g
