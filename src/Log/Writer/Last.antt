-- ===== src/Log/Writer/Last.antt =====
-- The last segment of a topic, which the writer appends to.
use pylogstream.Prelude.{
  suc, Bool-cases, ltb, ◌||◌, ok_pair, ok-injective, ℕ, ◌-◌, ◌≡◌, refl, sym, ap, ◌∙◌, subst, inl,
  inr, arith, ◌==◌, List, [], ◌∷◌, ◌++◌, Option, none, some, Option-cases, Result, ok, err,
  err-ne-ok, or_raise, or_raise-eq-ok, topic_doesnt_exist, index_error, value_error, negsuc, length,
  set, text_eq, >>=-eq-ok,
}
use pylogstream.Prelude.Dict.{get, get-put_self}
use pylogstream.Prelude.Exec.{Exec}
use pylogstream.Text.{Text}
use pylogstream.Log.Segment.{SegmentMeta, get_end_offset}
use pylogstream.Log.Registry.{
  SegmentRegistry, last?, put_segments, get_segment, create_segment, create_in, append_behind,
  new_segment, get_latest_offset,
}
use pylogstream.Log.Registry.Lookup.{get_segment_latest}
use pylogstream.Log.Registry.Valid.{IsValid}
use pylogstream.Log.Registry.Grow.{create_segment-IsValid}
use pylogstream.Log.Reader.{LogState, on_memory, put_memory}
use pylogstream.Log.Writer.{put_registry, on_registry}

-- The last segment of a topic.
pub record HasLast (r : SegmentRegistry) (topic : Text) (m : SegmentMeta) : Type 0 where
  pub segments : List SegmentMeta
  pub found : get r.registry topic ≡ some segments
  pub last : last? segments ≡ some m

last?-append : (ss : List SegmentMeta) (s : SegmentMeta) → last? (ss ++ s ∷ []) ≡ some s
unfolding last?
last?-append [] s = refl
last?-append (t ∷ []) s = refl
last?-append (t ∷ u ∷ ss) s = last?-append (u ∷ ss) s

pub last?-cons :
    (t m : SegmentMeta) (ss : List SegmentMeta) → last? ss ≡ some m → last? (t ∷ ss) ≡ some m
unfolding last?
last?-cons t m [] h = cc
last?-cons t m (u ∷ ss) h = h

pub last?-set :
    (ss : List SegmentMeta) (s m : SegmentMeta)
    → last? ss ≡ some s
    → last? (set ss (length ss - 1) m) ≡ some m
unfolding last?
last?-set [] s m h = cc
last?-set (t ∷ []) s m h = refl
last?-set (t ∷ u ∷ ss) s m h =
    let e : suc (suc (length ss)) - 1 ≡ suc (suc (length ss) - 1) = omega arith in
    ap (λ i. last? (set (t ∷ u ∷ ss) i m)) e
    ∙ last?-cons t m (set (u ∷ ss) (suc (length ss) - 1) m) (last?-set (u ∷ ss) s m h)

pub get_latest_offset-HasLast :
    (r : SegmentRegistry) (topic : Text) (m : SegmentMeta)
    → HasLast r topic m
    → get_latest_offset r topic ≡ ok (get_end_offset m)
unfolding get_latest_offset
get_latest_offset-HasLast r topic m l = rw (l.found, l.last) refl

-- The offset -1 finds the last segment, or the topic does not exist.
pub get_segment-HasLast :
    (r : SegmentRegistry) (topic : Text) (m : SegmentMeta)
    → get_segment r topic (negsuc 0) ≡ ok m
    → HasLast r topic m
unfolding get_segment
get_segment-HasLast r topic m h =
    let (ss, a, k) = >>=-eq-ok (or_raise topic_doesnt_exist (get r.registry topic)) _ h in
    let (p, b, _) = >>=-eq-ok (or_raise value_error (last? ss)) _ k in
    let found = or_raise-eq-ok topic_doesnt_exist (get r.registry topic) a in
    let latest = or_raise-eq-ok value_error (last? ss) b in
    let q : ok p ≡ ok m = sym (get_segment_latest r topic ss found p latest) ∙ h in
    record { segments = ss; found = found; last = latest ∙ ap some cc }

two_errors : ◌≡◌ {A = Result SegmentMeta} (err value_error) (err topic_doesnt_exist) → ⊥
two_errors h = cc

pub get_segment-none :
    (r : SegmentRegistry) (topic : Text)
    → get_segment r topic (negsuc 0) ≡ err topic_doesnt_exist
    → get r.registry topic ≡ none
unfolding get_segment
get_segment-none r topic h = elim (Option-cases (get r.registry topic)) [
  | inl e ↦ e
  | inr (ss, e) ↦ elim (Option-cases (last? ss)) [
    | inl l ↦ absurd (two_errors (rw (e, l) at h))
    | inr (p, l) ↦ absurd (err-ne-ok (sym h ∙ get_segment_latest r topic ss e p l))
  ]
]

-- A segment that is created is the last one of its topic.
pub put-HasLast :
    (r r' : SegmentRegistry) (topic : Text) (ss : List SegmentMeta) (s m : SegmentMeta)
    → s ≡ m
    → put_segments r topic (ss ++ s ∷ []) ≡ r'
    → HasLast r' topic m
put-HasLast r r' topic ss s m a b =
    subst (λ k. HasLast k topic m) b
      (record {
        segments = ss ++ s ∷ [];
        found = get-put_self r.registry topic (ss ++ s ∷ []);
        last = last?-append ss s ∙ ap some a;
      })

pub create_in-HasLast :
    (r r' : SegmentRegistry) (topic : Text) (s m : SegmentMeta) (o : Option (List SegmentMeta))
    → create_in r topic s o ≡ ok (m, r')
    → HasLast r' topic m
unfolding create_in append_behind
create_in-HasLast r r' topic s m none h =
    let (a, b) = ok_pair h in put-HasLast r r' topic [] s m a b
create_in-HasLast r r' topic s m (some ss) h =
    let (p, l, k) = >>=-eq-ok (or_raise index_error (last? ss)) _ h in
    elim (Bool-cases (ltb s.base_offset (get_end_offset p) || p.base_offset == s.base_offset)) [
      | inl t ↦ absurd (err-ne-ok (rw t at k))
      | inr t ↦ let (a, b) = ok_pair (rw t at k) in put-HasLast r r' topic ss s m a b
    ]

pub put_registry-eq-ok :
    {A : Type 0} (x : Result (A × SegmentRegistry)) (s t : LogState) (a : A)
    → put_registry s x ≡ (ok a, t)
    → x ≡ ok (a, t.registry)
unfolding put_registry
put_registry-eq-ok (ok (b, r)) s t a h =
    let p : b ≡ a = ok-injective (ap (λ (k : Result _ × LogState). k.0) h) in
    let q : r ≡ t.registry = ap (λ (k : Result _ × LogState). k.1.registry) h in
    ap (λ c. ok (c, r)) p ∙ ap (λ c. ok (a, c)) q
put_registry-eq-ok (err e) s t a h = absurd (err-ne-ok (ap (λ (k : Result _ × LogState). k.0) h))

pub on_registry-eq-ok :
    {A : Type 0} (f : SegmentRegistry → Result (A × SegmentRegistry)) (s t : LogState) (a : A)
    → on_registry f s ≡ (ok a, t)
    → f s.registry ≡ ok (a, t.registry)
unfolding on_registry
on_registry-eq-ok f s t a h = put_registry-eq-ok (f s.registry) s t a h

pub on_memory_registry :
    {A : Type 0} (f : Exec _ A) (s t : LogState) (a : A)
    → on_memory f s ≡ (ok a, t)
    → t.registry ≡ s.registry
unfolding on_memory put_memory
on_memory_registry f s t a h = sym (ap (λ (k : Result _ × LogState). k.1.registry) h)

pub create_segment-HasLast :
    (r r' : SegmentRegistry) (topic : Text) (base : ℕ) (m : SegmentMeta)
    → IsValid r
    → create_segment r topic base ≡ ok (m, r')
    → IsValid r' × HasLast r' topic m × (get_end_offset m ≡ base)
unfolding create_segment
create_segment-HasLast r r' topic base m v h =
    let (v', b, z, _, _) = create_segment-IsValid r v topic base m r' h in
    (
      v',
      create_in-HasLast r r' topic (new_segment r topic base) m (get r.registry topic) h,
      omega (arith, b, z),
    )
