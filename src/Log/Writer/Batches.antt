-- ===== src/Log/Writer/Batches.antt =====
-- A batch of writes: the records stand one behind another.
use pylogstream.Prelude.{
  ℕ, ◌+◌, ◌≡◌, refl, sym, ap, ◌∙◌, subst, inl, inr, List, [], ◌∷◌, none, ok, err, err-ne-ok,
  ok-injective, topic_doesnt_exist, length, text_eq,
}
use pylogstream.Prelude.Dict.{get}
use pylogstream.Prelude.Exec.{Exec}
use pylogstream.Prelude.Exec
use pylogstream.Text.{Text, Bytes}
use pylogstream.Log.Segment.{SegmentPolicy}
use pylogstream.Log.Registry.{SegmentRegistry, get_latest_offset}
use pylogstream.Log.Registry.Valid.{IsValid}
use pylogstream.Log.Reader.{LogState}
use pylogstream.Log.Writer.{write, write_batch}
use pylogstream.Log.Writer.Offsets.{EndsAt, ok_state, write-EndsAt}

-- Where the records begin, if the first one begins at `n`, and where the last one ends.
abbrev pub starts : ℕ → List (ℕ × Bytes) → List ℕ
starts n [] = []
starts n ((now, payload) ∷ batch) = n ∷ starts (n + (4 + length payload)) batch

abbrev pub end : ℕ → List (ℕ × Bytes) → ℕ
end n [] = n
end n ((now, payload) ∷ batch) = end (n + (4 + length payload)) batch

get_latest_offset_missing :
    (r : SegmentRegistry) (topic : Text)
    → get r.registry topic ≡ none
    → get_latest_offset r topic ≡ err topic_doesnt_exist
unfolding get_latest_offset
get_latest_offset_missing r topic h = rw h refl

-- A topic ends at one place only.
pub EndsAt-unique :
    (r : SegmentRegistry) (topic : Text) (m n : ℕ) → EndsAt r topic m → EndsAt r topic n → m ≡ n
EndsAt-unique r topic m n (inl a) (inl b) = ok-injective (sym a ∙ b)
EndsAt-unique r topic m n (inl a) (inr (b, _)) =
    absurd (err-ne-ok (sym (get_latest_offset_missing r topic b) ∙ a))
EndsAt-unique r topic m n (inr (a, _)) (inl b) =
    absurd (err-ne-ok (sym (get_latest_offset_missing r topic a) ∙ b))
EndsAt-unique r topic m n (inr (_, a)) (inr (_, b)) = a ∙ sym b

-- A batch whose writes succeed, to a topic which ends at `n`, or at 0 as a new one, gets the offsets at
-- which its records begin when they stand one behind another from `n` on, whatever segments they are in.
-- Afterwards the topic ends behind the last record, and every topic's segments are in order.
pub write_batch-starts :
    (policy : SegmentPolicy) (topic : Text) (batch : List (ℕ × Bytes)) (s t : LogState) (n : ℕ)
    (offsets : List ℕ)
    → IsValid s.registry
    → EndsAt s.registry topic n
    → write_batch policy topic batch s ≡ (ok offsets, t)
    → (offsets ≡ starts n batch) × EndsAt t.registry topic (end n batch) × IsValid t.registry
unfolding write_batch
write_batch-starts policy topic [] s t n offsets v e h =
    let (a, b) = ok_state h in
    (
      sym a,
      subst (λ (k : LogState). EndsAt k.registry topic n) b e,
      subst (λ (k : LogState). IsValid k.registry) b v,
    )
write_batch-starts policy topic ((now, payload) ∷ batch) s t n offsets v e h =
    let (offset, u, a, h1) = Exec.>>=-eq-ok (write policy now topic payload) _ s t h in
    let (rest, w, b, h2) = Exec.>>=-eq-ok (write_batch policy topic batch) _ u t h1 in
    let (begin, latest, v1) = write-EndsAt policy now topic payload s u offset v a in
    let at = EndsAt-unique s.registry topic n offset e begin in
    let next : EndsAt u.registry topic (n + (4 + length payload)) =
      inl (latest ∙ ap (λ k. ok (k + (4 + length payload))) (sym at)) in
    let (os, e2, v2) =
      write_batch-starts policy topic batch u w (n + (4 + length payload)) rest v1 next b in
    let (p, q) = ok_state h2 in
    (
      sym p ∙ ap (λ k. k ∷ rest) (sym at) ∙ ap (λ k. n ∷ k) os,
      subst (λ (k : LogState). EndsAt k.registry topic (end n ((now, payload) ∷ batch))) q e2,
      subst (λ (k : LogState). IsValid k.registry) q v2,
    )
