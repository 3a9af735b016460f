-- ===== src/Replication/Leader/Fetch.antt =====
-- leader.py, `handle`: what a fetch of a replica leaves with the leader.
use pylogstream.Prelude.{
  ◌<◌, ℕ, ◌≡◌, ◌≢◌, refl, ap, ◌∙◌, List, true, Bool-cases, inl, inr, arith, Result, ok, err, Error,
  ℤ, pos, leb_ℤ, some, or_raise, text_eq, >>=-eq-ok, or_raise-eq-ok, index_error, ok-injective,
  eqb_ℤ, if◌then◌else◌, ◌+◌,
}
use pylogstream.Prelude.Dict.{get, get-put_self, get-put_ne}
use pylogstream.Text.{Text}
use pylogstream.Protocol.Packets.{Command, Response}
use pylogstream.Metastore.Ring.{contains}
use pylogstream.Log.Segment.{SegmentMeta, get_end_offset}
use pylogstream.Log.Registry.{SegmentRegistry, get_segment, get_latest_offset, last?}
use pylogstream.Log.Registry.Chain.{IsChain}
use pylogstream.Log.Registry.Lookup.{get_segment_iff, end-le-last}
use pylogstream.Log.Reader.{LogState, look, read, read_bytes}
use pylogstream.Replication.Leader.{
  ReplicaLeader, Served, offset_of, set_offset, or_zero, get_log_end_offset, get_high_watermark,
  look_at_end, note_progress, on_leader, on_log, answer, answer_bytes, answer_file, serve, handle,
}

serve_lem :
    (topic : Text) (offset size : ℤ) (replica_id : Text) (now leo : ℕ) (hw : ℤ)
    (l m : ReplicaLeader) (log : LogState)
    → get_log_end_offset l log ≡ ok leo
    → get_high_watermark log l ≡ (ok hw, m)
    → serve topic offset size replica_id now (l, log) ≡ (
      (answer topic offset size leo hw log).0,
      ((note_progress replica_id offset leo now log m).1, (answer topic offset size leo hw log).1),
    )
unfolding serve on_leader on_log look_at_end note_progress
serve_lem topic offset size replica_id now leo hw l m log e h = rw (e, h) refl

-- The last segment ends at the end of the log.
last-latest :
    (r : SegmentRegistry) (topic : Text) (ss : List SegmentMeta) (leo : ℕ)
    → get r.registry topic ≡ some ss
    → get_latest_offset r topic ≡ ok leo
    → (p : SegmentMeta) × (last? ss ≡ some p) × (get_end_offset p ≡ leo)
unfolding get_latest_offset
last-latest r topic ss leo found h =
    let (p, a, b) =
      >>=-eq-ok (or_raise index_error (last? ss)) (λ s. ok (get_end_offset s)) (rw found at h) in
    (p, or_raise-eq-ok index_error (last? ss) a, ok-injective b)

-- No segment contains the end of the log.
no_segment-end :
    (r : SegmentRegistry) (topic : Text) (ss : List SegmentMeta) (leo : ℕ)
    → get r.registry topic ≡ some ss
    → IsChain ss
    → get_latest_offset r topic ≡ ok leo
    → (e : Error) × (get_segment r topic (pos leo) ≡ err e)
no_segment-end r topic ss leo found chain h = by_result (get_segment r topic (pos leo)) refl
  where
    at_end : (s : SegmentMeta) → get_segment r topic (pos leo) ≡ ok s → ⊥
    at_end s g =
        let (i, at, _, below) =
          (get_segment_iff r topic ss found (pos leo) s (λ e. absurd (ground arith)) chain).0 g in
        let before : leo < s.base_offset + s.size = ground arith in
        let (p, last, ends) = last-latest r topic ss leo found h in
        omega (arith, end-le-last ss i s p chain last at)

    by_result :
        (g : Result SegmentMeta)
        → get_segment r topic (pos leo) ≡ g
        → (e : Error) × (get_segment r topic (pos leo) ≡ err e)
    by_result (err e) k = (e, k)
    by_result (ok s) k = absurd (at_end s k)

answer_raises :
    (topic : Text) (offset size : ℤ) (leo : ℕ) (hw : ℤ) (log : LogState) (e : Error)
    → get_segment log.registry topic offset ≡ err e
    → answer topic offset size leo hw log ≡ (err e, log)
unfolding answer answer_bytes answer_file read read_bytes look
answer_raises topic offset size leo hw log e h = elim (Bool-cases (leb_ℤ size (pos 1024))) [
  | inl b ↦ rw (b, h) refl
  | inr b ↦ rw (b, h) refl
]

-- What the leader knows of a replica after its fetch.
note_progress-offset :
    (replica x : Text) (offset : ℤ) (leo now : ℕ) (log : LogState) (m : ReplicaLeader)
    → replica ≢ x
    → (offset_of (note_progress replica offset leo now log m).1 replica ≡ offset)
      × (offset_of (note_progress replica offset leo now log m).1 x ≡ offset_of m x)
unfolding note_progress set_offset offset_of or_zero
note_progress-offset replica x offset leo now log m n = elim (Bool-cases (eqb_ℤ offset (pos leo))) [
  | inl e ↦
      rw
        (
          e,
          get-put_self m.replica_offset replica offset,
          get-put_ne m.replica_offset replica x offset n,
        )
        (refl, refl)
  | inr e ↦
      rw
        (
          e,
          get-put_self m.replica_offset replica offset,
          get-put_ne m.replica_offset replica x offset n,
        )
        (refl, refl)
]

note_progress-time :
    (replica : Text) (offset : ℤ) (leo now : ℕ) (log : LogState) (m : ReplicaLeader)
    → get (note_progress replica offset leo now log m).1.replica_last_caugthup replica
      ≡ (if eqb_ℤ offset (pos leo) then some now else get m.replica_last_caugthup replica)
unfolding note_progress set_offset
note_progress-time replica offset leo now log m = elim (Bool-cases (eqb_ℤ offset (pos leo))) [
  | inl e ↦ rw (e, get-put_self m.replica_last_caugthup replica now) refl
  | inr e ↦ rw e refl
]

module _ (l m : ReplicaLeader) (log : LogState) (size : ℤ) (replica_id : Text) (now leo : ℕ)
    (hw : ℤ) (ends : get_log_end_offset l log ≡ ok leo)
    (watermark : get_high_watermark log l ≡ (ok hw, m))
    (listed : contains replica_id l.replica_list ≡ true) where
  handle_lem :
      (topic : Text) (offset : ℤ)
      → handle (Command.replica_fetch topic offset size replica_id) now (l, log) ≡ (
        (answer topic offset size leo hw log).0,
        (
          (note_progress replica_id offset leo now log m).1,
          (answer topic offset size leo hw log).1,
        ),
      )
  unfolding handle
  handle_lem topic offset =
      rw listed (serve_lem topic offset size replica_id now leo hw l m log ends watermark)

  -- A fetch of a replica in the list, from a topic that has a log and with the high watermark computed,
  -- leaves the leader with the offset that is asked for as that replica's, also where the read raises;
  -- any other replica's offset is as the watermark's computation left it; and the replica counts as
  -- caught up from now on exactly where it asked for the end of the log.
  pub handle-progress :
      (topic x : Text) (offset : ℤ)
      → replica_id ≢ x
      → (t : Served) × ((handle (Command.replica_fetch topic offset size replica_id) now (l, log)).1
          ≡ t)
        × (offset_of t.0 replica_id ≡ offset)
        × (offset_of t.0 x ≡ offset_of m x)
        × (get t.0.replica_last_caugthup replica_id
            ≡ (if eqb_ℤ offset (pos leo) then some now else get m.replica_last_caugthup replica_id))
  handle-progress topic x offset n =
      let (a, b) = note_progress-offset replica_id x offset leo now log m n in
      (
        _,
        ap (λ (p : Result Response × Served). p.1) (handle_lem topic offset),
        a,
        b,
        note_progress-time replica_id offset leo now log m,
      )

  -- For a topic whose segments are in order, a replica of the list that asks for the end of the log gets
  -- an exception, whatever the size; the leader has then recorded that it is caught up, and the log is
  -- as it was.
  pub handle_caught_up :
      (ss : List SegmentMeta)
      → get log.registry.registry l.topic ≡ some ss
      → IsChain ss
      → (e : Error) × (t : ReplicaLeader) × (handle
            (Command.replica_fetch l.topic (pos leo) size replica_id)
            now
            (l, log)
          ≡ (err e, (t, log)))
        × (get t.replica_last_caugthup replica_id ≡ some now)
  unfolding get_log_end_offset
  handle_caught_up ss found chain =
      let (e, k) = no_segment-end log.registry l.topic ss leo found chain ends in
      let noted = (note_progress replica_id (pos leo) leo now log m).1 in
      let rest : Result Response × LogState → Result Response × Served = λ p. (p.0, (noted, p.1)) in
      (
        e,
        noted,
        handle_lem l.topic (pos leo)
            ∙ ap rest (answer_raises l.topic (pos leo) size leo hw log e k),
        note_progress-time replica_id (pos leo) leo now log m
            ∙ (let b : eqb_ℤ (pos leo) (pos leo) ≡ true = ground arith in rw b refl),
      )
