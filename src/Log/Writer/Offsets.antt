-- ===== src/Log/Writer/Offsets.antt =====
-- A write returns the end of its topic as it was, and the topic ends behind the record afterwards.
use pylogstream.Prelude.{
  ok_pair, ok-injective, ℕ, ◌+◌, ◌-◌, ◌≡◌, ◌⊎◌, refl, sym, ap, ◌∙◌, subst, inl, inr, arith, Bool,
  true, false, ◌&&◌, not, ◌==◌, ◌++◌, none, Result, Error, ok, err, err-ne-ok, negsuc, length,
  length-append, set, text_eq,
}
use pylogstream.Prelude.Dict.{get}
use pylogstream.Prelude.Exec.{Done, Exec}
use pylogstream.Prelude.Exec
use pylogstream.Text.{Text, Bytes}
use pylogstream.Text.Words.{to_bytes}
use pylogstream.Log.Segment.{
  SegmentMeta, SegmentState, SegmentPolicy, get_end_offset, get_file_end_offset, should_rollover,
}
use pylogstream.Log.Registry.{
  SegmentRegistry, get_segment, create_segment, advance_offset, progress_state, get_latest_offset,
}
use pylogstream.Log.Registry.Lookup.{get_segment_latest, last?-get_elem?}
use pylogstream.Log.Registry.Valid.{IsValid, All-get_elem?}
use pylogstream.Log.Registry.Grow.{advance_offset-IsValid}
use pylogstream.Log.Registry.Progress.{progress_state-IsValid}
use pylogstream.Log.Memory.{acquire}
use pylogstream.Log.Memory
use pylogstream.Log.Reader.{LogState, on_memory, look, with_handle}
use pylogstream.Log.Writer.{
  on_registry, active_segment, seal, rollover, maybe_rollover, write_record, write,
}
use pylogstream.Log.Writer.Last.{
  HasLast, last?-set, get_latest_offset-HasLast, get_segment-HasLast, get_segment-none,
  on_registry-eq-ok, on_memory_registry, create_segment-HasLast,
}

-- Where a topic ends, or 0 if it does not exist.
abbrev pub EndsAt : SegmentRegistry → Text → ℕ → Type 0
EndsAt r topic n = (get_latest_offset r topic ≡ ok n) ⊎ ((get r.registry topic ≡ none) × (n ≡ 0))

pub ok_state :
    {A : Type 0} {a b : A} {s t : LogState}
    → ◌≡◌ {A = Result A × LogState} (ok a, s) (ok b, t)
    → (a ≡ b) × (s ≡ t)
ok_state {A} h = (
  ok-injective (ap (λ (k : Result A × LogState). k.0) h),
  ap (λ (k : Result A × LogState). k.1) h,
)

err_state :
    {A : Type 0} {e : Error} {b : A} {s t : LogState}
    → ◌≡◌ {A = Result A × LogState} (err e, s) (ok b, t)
    → ⊥
err_state {A} h = err-ne-ok (ap (λ (k : Result A × LogState). k.0) h)

active_segment_lem :
    (s t : LogState) (topic : Text) (m : SegmentMeta) (o : Result SegmentMeta)
    → IsValid s.registry
    → get_segment s.registry topic (negsuc 0) ≡ o
    → active_segment topic o s ≡ (ok m, t)
    → IsValid t.registry × HasLast t.registry topic m × EndsAt s.registry topic (get_end_offset m)
unfolding active_segment
active_segment_lem s t topic m (ok x) v e h =
    let (a, b) = ok_state h in
    let l = get_segment-HasLast s.registry topic m (e ∙ ap ok a) in
    (
      subst (λ (k : LogState). IsValid k.registry) b v,
      subst (λ (k : LogState). HasLast k.registry topic m) b l,
      inl (get_latest_offset-HasLast s.registry topic m l),
    )
active_segment_lem s t topic m (err Error.topic_doesnt_exist) v e h =
    let c = on_registry-eq-ok (λ r. create_segment r topic 0) s t m h in
    let (v', l, z) = create_segment-HasLast s.registry t.registry topic 0 m v c in
    (v', l, inr (get_segment-none s.registry topic e, z))
active_segment_lem s t topic m (err _) v e h = absurd (err_state h)

seal_lem :
    (s u : LogState) (first : SegmentMeta) (base : ℕ)
    → IsValid s.registry
    → seal (ok first) s ≡ (ok base, u)
    → IsValid u.registry × (base ≡ get_end_offset first)
unfolding seal
seal_lem s u first base v h =
    let progress : Exec LogState SegmentMeta =
      on_registry (λ r. progress_state r first SegmentState.sealed) in
    let (x, w, p, q) = Exec.>>=-eq-ok progress (λ _. Exec.pure (get_end_offset first)) s u h in
    let (a, b) = ok_state q in
    let moved = on_registry-eq-ok (λ r. progress_state r first SegmentState.sealed) s w x p in
    let (v', _, _, _) =
      progress_state-IsValid s.registry v first x SegmentState.sealed w.registry moved in
    (subst (λ (k : LogState). IsValid k.registry) b v', sym a)

rollover_lem :
    (s t : LogState) (topic : Text) (first m : SegmentMeta)
    → IsValid s.registry
    → HasLast s.registry topic first
    → rollover topic s ≡ (ok m, t)
    → IsValid t.registry × HasLast t.registry topic m × (get_end_offset m ≡ get_end_offset first)
unfolding rollover
rollover_lem s t topic first m v l h =
    let create : ℕ → Exec LogState SegmentMeta =
      λ base. on_registry (λ r. create_segment r topic base) in
    let (base, u, p, q) =
      Exec.>>=-eq-ok (seal (get_segment s.registry topic (negsuc 0))) create s t h in
    let latest = get_segment_latest s.registry topic l.segments l.found first l.last in
    let (v', b) = seal_lem s u first base v (ap (λ o. seal o s) (sym latest) ∙ p) in
    let made = on_registry-eq-ok (λ r. create_segment r topic base) u t m q in
    let (v'', l', e) = create_segment-HasLast u.registry t.registry topic base m v' made in
    (v'', l', e ∙ b)

maybe_rollover_lem :
    (full : Bool) (s t : LogState) (topic : Text) (first m : SegmentMeta)
    → IsValid s.registry
    → HasLast s.registry topic first
    → maybe_rollover full topic first s ≡ (ok m, t)
    → IsValid t.registry × HasLast t.registry topic m × (get_end_offset m ≡ get_end_offset first)
unfolding maybe_rollover
maybe_rollover_lem true s t topic first m v l h = rollover_lem s t topic first m v l h
maybe_rollover_lem false s t topic first m v l h =
    let (a, b) = ok_state h in
    (
      subst (λ (k : LogState). IsValid k.registry) b v,
      subst (λ (k : LogState). HasLast k.registry topic m) b (subst (HasLast s.registry topic) a l),
      ap (λ (k : SegmentMeta). get_end_offset k) (sym a),
    )

advance_lem :
    (s t : LogState) (topic : Text) (meta x : SegmentMeta) (len : ℕ)
    → IsValid s.registry
    → HasLast s.registry topic meta
    → on_registry (λ r. advance_offset r meta len) s ≡ (ok x, t)
    → IsValid t.registry × (get_latest_offset t.registry topic ≡ ok (get_end_offset meta + len))
advance_lem s t topic meta x len v l h =
    let r = s.registry in
    let (i, _, g) = last?-get_elem? l.segments meta l.last in
    let own : meta.topic ≡ topic =
      All-get_elem? topic l.segments i meta (v.topics topic l.segments l.found) g in
    let (y, r', a, v', e, f) =
      advance_offset-IsValid r v meta meta len l.segments (ap (get r.registry) own ∙ l.found) l.last
        refl in
    let done = on_registry-eq-ok (λ k. advance_offset k meta len) s t x h in
    let (_, q) = ok_pair (sym a ∙ done) in
    let last : HasLast r' topic y = record {
      segments = set l.segments (length l.segments - 1) y;
      found = ap (get r'.registry) (sym own) ∙ f;
      last = last?-set l.segments meta y l.last;
    } in
    (
      subst IsValid q v',
      ap (λ k. get_latest_offset k topic) (sym q)
          ∙ get_latest_offset-HasLast r' topic y last
          ∙ ap ok (ap (λ (k : SegmentMeta). get_end_offset k) e ∙ omega arith),
    )

to_bytes-length : (n : ℕ) (p : Bytes) → to_bytes n ≡ ok p → length p ≡ 4
unfolding to_bytes
to_bytes-length n p h = ground arith

write_record_registry :
    (s t : LogState) (meta : SegmentMeta) (msg : Bytes) (a : Done)
    → write_record meta msg s ≡ (ok a, t)
    → t.registry ≡ s.registry
unfolding write_record
write_record_registry s t meta msg a h =
    let (handle, u, p, q) = Exec.>>=-eq-ok (on_memory (acquire meta)) _ s t h in
    on_memory_registry (with_handle handle (Memory.write handle (get_file_end_offset meta) msg)) u t
      a q
    ∙ on_memory_registry (acquire meta) s u handle p

look-eq-ok :
    {A : Type 0} (f : LogState → Result A) (s t : LogState) (a : A)
    → look f s ≡ (ok a, t)
    → (f s ≡ ok a) × (s ≡ t)
unfolding look
look-eq-ok f s t a h =
    (ap (λ (k : Result _ × LogState). k.0) h, ap (λ (k : Result _ × LogState). k.1) h)

-- The last two steps of a write.
finish_lem :
    (s t u : LogState) (topic : Text) (meta x : SegmentMeta) (msg : Bytes) (a : Done)
    → IsValid s.registry
    → HasLast s.registry topic meta
    → write_record meta msg s ≡ (ok a, t)
    → on_registry (λ r. advance_offset r meta (length msg)) t ≡ (ok x, u)
    → IsValid u.registry
      × (get_latest_offset u.registry topic ≡ ok (get_end_offset meta + length msg))
finish_lem s t u topic meta x msg a v l p q =
    let e = sym (write_record_registry s t meta msg a p) in
    advance_lem t u topic meta x (length msg) (subst IsValid e v)
      (subst (λ r. HasLast r topic meta) e l) q

-- A write that succeeds returns the offset where the topic ended, or 0 if the topic did not exist,
-- whether it rolls over to a new segment or not. Afterwards the topic ends behind the record, which is
-- the payload and four bytes, and every topic's segments are in order.
pub write-EndsAt :
    (policy : SegmentPolicy) (now : ℕ) (topic : Text) (payload : Bytes) (s t : LogState)
    (offset : ℕ)
    → IsValid s.registry
    → write policy now topic payload s ≡ (ok offset, t)
    → EndsAt s.registry topic offset
      × (get_latest_offset t.registry topic ≡ ok (offset + (4 + length payload)))
      × IsValid t.registry
unfolding write
write-EndsAt policy now topic payload s t offset v h =
    let (first, s1, a, h1) =
      Exec.>>=-eq-ok (active_segment topic (get_segment s.registry topic (negsuc 0))) _ s t h in
    let (prefix, s2, b, h2) = Exec.>>=-eq-ok (look (λ _. to_bytes (length payload))) _ s1 t h1 in
    let full = should_rollover policy first (4 + length payload) now && not (first.size == 0) in
    let (meta, s3, c, h3) = Exec.>>=-eq-ok (maybe_rollover full topic first) _ s2 t h2 in
    let (u, s4, d, h4) = Exec.>>=-eq-ok (write_record meta (prefix ++ payload)) _ s3 t h3 in
    let (x, s5, e, h5) =
      Exec.>>=-eq-ok (on_registry (λ r. advance_offset r meta (length (prefix ++ payload)))) _ s4 t
        h4 in
    let (offset_eq, end) = ok_state h5 in
    let (v1, l1, start) = active_segment_lem s s1 topic first _ v refl a in
    let (coded, same_state) = look-eq-ok (λ _. to_bytes (length payload)) s1 s2 prefix b in
    let (v3, l3, at) =
      maybe_rollover_lem full s2 s3 topic first meta
        (subst (λ (k : LogState). IsValid k.registry) same_state v1)
        (subst (λ (k : LogState). HasLast k.registry topic first) same_state l1) c in
    let (v5, ends) = finish_lem s3 s4 s5 topic meta x (prefix ++ payload) u v3 l3 d e in
    let size : length (prefix ++ payload) ≡ 4 + length payload =
      omega (arith, length-append prefix payload, to_bytes-length (length payload) prefix coded) in
    (
      subst (EndsAt s.registry topic) (sym at ∙ offset_eq) start,
      ap (λ (k : LogState). get_latest_offset k.registry topic) (sym end)
          ∙ ends
          ∙ ap ok (omega (arith, size, offset_eq)),
      subst (λ (k : LogState). IsValid k.registry) end v5,
    )
