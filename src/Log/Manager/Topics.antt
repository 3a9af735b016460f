-- ===== src/Log/Manager/Topics.antt =====
-- `create_topic`: a topic is made once.
use pylogstream.Prelude.{◌∷◌, ℕ, ◌≡◌, ◌⊎◌, refl, ap, ◌∙◌, inl, inr, [], none, ok, negsuc, text_eq}
use pylogstream.Prelude.Dict.{get}
use pylogstream.Text.{Text}
use pylogstream.Log.Segment.{SegmentMeta, get_end_offset}
use pylogstream.Log.Registry.{
  SegmentRegistry, create_segment, create_in, new_segment, put_segments, get_latest_offset,
}
use pylogstream.Log.Registry.Lookup.{get_segment_latest, get_segment_missing}
use pylogstream.Log.Registry.Valid.{IsValid}
use pylogstream.Log.Reader.{LogState}
use pylogstream.Log.Writer.{on_registry, put_registry}
use pylogstream.Log.Writer.Last.{HasLast, get_latest_offset-HasLast, create_segment-HasLast}
use pylogstream.Log.Writer.Offsets.{EndsAt}
use pylogstream.Log.Manager.{create_missing, create_topic}

create_segment_new :
    (r : SegmentRegistry) (topic : Text)
    → get r.registry topic ≡ none
    → (m : SegmentMeta) × (r' : SegmentRegistry) × (create_segment r topic 0 ≡ ok (m, r'))
unfolding create_segment create_in
create_segment_new r topic h =
    (new_segment r topic 0, put_segments r topic (new_segment r topic 0 ∷ []), rw h refl)

create_topic_existing :
    (s : LogState) (topic : Text) (m : SegmentMeta)
    → HasLast s.registry topic m
    → create_topic topic s ≡ (ok tt, s)
unfolding create_topic create_missing
create_topic_existing s topic m l =
    rw (get_segment_latest s.registry topic l.segments l.found m l.last) refl

create_topic_new :
    (s : LogState) (topic : Text) (m : SegmentMeta) (r' : SegmentRegistry)
    → get s.registry.registry topic ≡ none
    → create_segment s.registry topic 0 ≡ ok (m, r')
    → create_topic topic s ≡ (ok tt, record s { registry = r' })
unfolding create_topic create_missing on_registry put_registry
create_topic_new s topic m r' h c = rw (get_segment_missing s.registry topic (negsuc 0) h, c) refl

-- For a topic that does not exist or has a segment, `create_topic` succeeds: the topic ends where it
-- ended, or at 0 as a new one, every topic's segments are in order, and doing it again changes nothing.
pub create_topic_lem :
    (s : LogState) (topic : Text)
    → IsValid s.registry
    → (get s.registry.registry topic ≡ none) ⊎ ((m : SegmentMeta) × HasLast s.registry topic m)
    → (t : LogState) × (n : ℕ) × (create_topic topic s ≡ (ok tt, t))
      × EndsAt s.registry topic n
      × (get_latest_offset t.registry topic ≡ ok n)
      × IsValid t.registry
      × (create_topic topic t ≡ (ok tt, t))
create_topic_lem s topic v (inl h) =
    let (m, r', c) = create_segment_new s.registry topic h in
    let (v', l, e) = create_segment-HasLast s.registry r' topic 0 m v c in
    let t : LogState = record s { registry = r' } in
    (
      t,
      0,
      create_topic_new s topic m r' h c,
      inr (h, refl),
      get_latest_offset-HasLast r' topic m l ∙ ap ok e,
      v',
      create_topic_existing t topic m l,
    )
create_topic_lem s topic v (inr (m, l)) =
    let latest = get_latest_offset-HasLast s.registry topic m l in
    (
      s,
      get_end_offset m,
      create_topic_existing s topic m l,
      inl latest,
      latest,
      v,
      create_topic_existing s topic m l,
    )
