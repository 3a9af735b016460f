-- ===== src/Replication/Leader/Watermark.antt =====
-- leader.py: the high watermark.
use pylogstream.Prelude.{
  ℕ, ◌≡◌, refl, ap, ◌⊎◌, true, List, [], ◌∷◌, Bool-cases, inl, inr, arith, ℤ, pos, ◌≤ℤ◌, leb_ℤ,
  max_ℤ, same_iff, ok,
}
use pylogstream.Prelude.Dict.{get-put_self}
use pylogstream.Text.{Text}
use pylogstream.Metastore.Ring.{contains}
use pylogstream.Log.Reader.{LogState}
use pylogstream.Replication.Leader.{
  ReplicaLeader, least, least_in_sync, offset_of, set_offset, get_log_end_offset, or_zero,
  compute_high_watermark, raise_watermark, get_high_watermark,
}

-- The least value is at most the value of each item.
least-le :
    (f : Text → ℤ) (r x : Text) (xs : List Text) → contains r (x ∷ xs) ≡ true → least f x xs ≤ℤ f r
unfolding least contains
least-le f r x [] h = ground (arith, same_iff r x, ap f {x = r} {y = x})
least-le f r x (y ∷ ys) h = ground (arith, same_iff r x, ap f {x = r} {y = x}, least-le f r y ys)

-- Where the leader's log has an end, the watermark is computed, and raised to what was computed.
pub get_high_watermark-eq :
    (log : LogState) (l : ReplicaLeader) (leo : ℕ) (r : Text) (rs : List Text)
    → get_log_end_offset l log ≡ ok leo
    → l.in_sync_replica ≡ r ∷ rs
    → get_high_watermark log l
      ≡ raise_watermark
          (least (offset_of (set_offset l l.id (pos leo))) r rs)
          (set_offset l l.id (pos leo))
unfolding get_high_watermark compute_high_watermark least_in_sync
get_high_watermark-eq log l leo r rs h e = rw (h, e) refl

in_nothing : (r : Text) → contains r [] ≡ true → ⊥
unfolding contains
in_nothing r h = cc

-- The watermark is raised to what was computed, or it stays.
raised :
    (l : ReplicaLeader) (computed : ℤ) (r : Text)
    → computed ≤ℤ offset_of l r
    → (high_watermark : ℤ) × ((raise_watermark computed l).0 ≡ ok high_watermark)
      × ((raise_watermark computed l).1.high_watermark ≡ high_watermark)
      × (l.high_watermark ≤ℤ high_watermark)
      × ((high_watermark ≡ l.high_watermark)
          ⊎ (high_watermark ≤ℤ offset_of (raise_watermark computed l).1 r))
unfolding raise_watermark offset_of
raised l computed r h = elim (Bool-cases (leb_ℤ l.high_watermark computed)) [
  | inl e ↦ (max_ℤ l.high_watermark computed, refl, refl, ground arith, inr (ground arith))
  | inr e ↦ (max_ℤ l.high_watermark computed, refl, refl, ground arith, inl (ground arith))
]

-- The leader's own offset, once it is recorded.
offset_of-set_offset :
    (l : ReplicaLeader) (replica : Text) (offset : ℤ)
    → offset_of (set_offset l replica offset) replica ≡ offset
unfolding offset_of set_offset or_zero
offset_of-set_offset l replica offset = rw (get-put_self l.replica_offset replica offset) refl

module _ (log : LogState) (l : ReplicaLeader) (leo : ℕ)
    (ends : get_log_end_offset l log ≡ ok leo) where
  -- The leader with its own end.
  abbrev updated : ReplicaLeader
  updated = set_offset l l.id (pos leo)

  computed_from :
      (r : Text) (rs : List Text)
      → l.in_sync_replica ≡ rs
      → contains r rs ≡ true
      → (computed : ℤ) × (get_high_watermark log l ≡ raise_watermark computed updated)
        × (computed ≤ℤ offset_of updated r)
  computed_from r [] e h = absurd (in_nothing r h)
  computed_from r (x ∷ xs) e h = (
    least (offset_of updated) x xs,
    get_high_watermark-eq log l leo x xs ends e,
    least-le (offset_of updated) r x xs h,
  )

  -- Where the topic has a log and a replica is in sync: the high watermark is computed and stored, it is
  -- not less than the one before, and it is either the one before or at most the offset that is
  -- recorded for that replica.
  pub get_high_watermark_lem :
      (r : Text)
      → contains r l.in_sync_replica ≡ true
      → (high_watermark : ℤ) × ((get_high_watermark log l).0 ≡ ok high_watermark)
        × ((get_high_watermark log l).1.high_watermark ≡ high_watermark)
        × (l.high_watermark ≤ℤ high_watermark)
        × ((high_watermark ≡ l.high_watermark)
            ⊎ (high_watermark ≤ℤ offset_of (get_high_watermark log l).1 r))
  unfolding set_offset
  get_high_watermark_lem r member =
      let (computed, e, h) = computed_from r l.in_sync_replica refl member in
      rw e (raised updated computed r h)

  -- Where the topic has a log, the leader itself is in sync, and the high watermark is at most the end
  -- of the log: the new one lies between the one before and the end of the log.
  pub get_high_watermark_bounds :
      contains l.id l.in_sync_replica ≡ true
      → l.high_watermark ≤ℤ pos leo
      → (high_watermark : ℤ) × ((get_high_watermark log l).0 ≡ ok high_watermark)
        × (l.high_watermark ≤ℤ high_watermark)
        × (high_watermark ≤ℤ pos leo)
  unfolding raise_watermark set_offset
  get_high_watermark_bounds member below =
      let (computed, e, h) = computed_from l.id l.in_sync_replica refl member in
      let own : offset_of updated l.id ≡ pos leo = offset_of-set_offset l l.id (pos leo) in
      rw e (max_ℤ l.high_watermark computed, refl, ground arith, ground (arith, own))
