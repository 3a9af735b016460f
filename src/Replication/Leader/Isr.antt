-- ===== src/Replication/Leader/Isr.antt =====
-- leader.py, `_update_isr`: which replicas are in sync.
use pylogstream.Prelude.{
  ℕ, ◌-◌, ◌≤◌, ◌≡◌, ap, ◌∙◌, sym, Bool, true, ◌||◌, List, ◌∷◌, ◌++◌, arith, pos, ◌≤ℤ◌, leb_ℤ,
  length, take, drop, same, ok, Result, min, max, length-append, length-take, length-drop,
}
use pylogstream.Prelude.Exec.{Done}
use pylogstream.Text.{Text}
use pylogstream.Metastore.Ring.{contains}
use pylogstream.Replication.InSync.{remove_name, eligible}
use pylogstream.Replication.InSync.Closest.{
  closest, keep, fill_lem, eligible-closest, IsAscending, closest-IsAscending,
}
use pylogstream.Replication.InSync.Members.{
  contains-append, contains-closest, length-closest, contains-keep, keep-contains,
  contains-take-drop, contains-remove_name, length-remove_name, remove_name-total, length-keep,
}
use pylogstream.Replication.Leader.{ReplicaLeader, lag, new_isr, with_isr, update_isr}

-- The replicas that lag at most as much as the leader allows.
abbrev pub is_near : ReplicaLeader → ℕ → Text → Bool
is_near l now r = leb_ℤ (lag l now r) (pos l.max_isr_lag_ms)

-- The leader, the closest other replicas up to the minimum number, and the others that are near.
abbrev pub expected_isr : ReplicaLeader → ℕ → List Text → List Text
expected_isr l now others =
    let ranked = closest (lag l now) others in
    l.id ∷ take (l.min_isr_count - 1) ranked
    ++ keep (is_near l now) (drop (l.min_isr_count - 1) ranked)

module _ (l : ReplicaLeader) (now : ℕ) where
  new_isr_lem : (others : List Text) → new_isr l now others ≡ expected_isr l now others
  unfolding new_isr closest
  new_isr_lem others =
      let n = l.min_isr_count - 1 in
      let ranked = closest (lag l now) others in
      let joined : List Text × List Text → List Text =
        λ p. l.id ∷ p.0 ++ eligible (is_near l now) p.1 in
      ap joined (fill_lem ranked n)
      ∙ ap (λ (t : List Text). l.id ∷ take n ranked ++ t)
          (eligible-closest (lag l now) (pos l.max_isr_lag_ms) n others)

  -- Where the leader is in its own replica list, the update succeeds and changes the in-sync list only:
  -- to the leader, the replicas with the least lag up to the minimum number, and of the others, which
  -- are ranked by their lag, exactly those that lag at most as much as allowed.
  pub update_isr_lem :
      (others : List Text)
      → remove_name l.id l.replica_list ≡ ok others
      → (update_isr now l ≡ (ok tt, record l { in_sync_replica = expected_isr l now others }))
        × IsAscending (lag l now) (closest (lag l now) others)
  unfolding update_isr with_isr
  update_isr_lem others h = (updated, closest-IsAscending (lag l now) others)
    where
      with_list : List Text → Result Done × ReplicaLeader
      with_list isr = (ok tt, record l { in_sync_replica = isr })

      updated : update_isr now l ≡ with_list (expected_isr l now others)
      updated = rw h (ap with_list (new_isr_lem others))

  isr-eq :
      (others : List Text)
      → remove_name l.id l.replica_list ≡ ok others
      → (update_isr now l).1.in_sync_replica ≡ expected_isr l now others
  isr-eq others h =
      ap (λ (p : Result Done × ReplicaLeader). p.1.in_sync_replica) (update_isr_lem others h).0

  contains-expected_isr :
      (r : Text) (others : List Text)
      → contains r (expected_isr l now others) ≡ (
          same r l.id
          || (contains r (take (l.min_isr_count - 1) (closest (lag l now) others))
              || contains r
                  (keep (is_near l now) (drop (l.min_isr_count - 1) (closest (lag l now) others)))))
  unfolding contains
  contains-expected_isr r others = ap (λ b. same r l.id || b) (contains-append r _ _)

  module _ (listed : contains l.id l.replica_list ≡ true) where
    -- Where the leader is in its own replica list: after an update, every replica of the list that lags
    -- at most as much as the leader allows is in sync.
    pub update_isr-near :
        (r : Text)
        → contains r l.replica_list ≡ true
        → lag l now r ≤ℤ pos l.max_isr_lag_ms
        → contains r (update_isr now l).1.in_sync_replica ≡ true
    update_isr-near r member h =
        let (others, p) = remove_name-total l.id l.replica_list listed in
        let n = l.min_isr_count - 1 in
        let ranked = closest (lag l now) others in
        let close : is_near l now r ≡ true = ground arith in
        ap (contains r) (isr-eq others p)
        ∙ contains-expected_isr r others
        ∙ ground (
          arith,
          contains-remove_name r l.id l.replica_list others p,
          contains-closest (lag l now) r others,
          contains-take-drop r n ranked,
          contains-keep (is_near l now) r (drop n ranked) close,
        )

    -- Where the leader is in its own replica list: every replica that is in sync after an update is in
    -- the list.
    pub update_isr-members :
        (r : Text)
        → contains r (update_isr now l).1.in_sync_replica ≡ true
        → contains r l.replica_list ≡ true
    update_isr-members r h =
        let (others, p) = remove_name-total l.id l.replica_list listed in
        let n = l.min_isr_count - 1 in
        let ranked = closest (lag l now) others in
        let k =
          sym (contains-expected_isr r others) ∙ ap (contains r) (sym (isr-eq others p)) ∙ h in
        ground (
          arith,
          k,
          contains-remove_name r l.id l.replica_list others p,
          contains-closest (lag l now) r others,
          contains-take-drop r n ranked,
          keep-contains (is_near l now) r (drop n ranked),
        )

    -- Where the leader is in its own replica list: after an update at least the minimum number of
    -- replicas is in sync, or all that there are, one at least; and never more than there are.
    pub update_isr-length :
        (min (length l.replica_list) (max 1 l.min_isr_count)
          ≤ length (update_isr now l).1.in_sync_replica)
        × (length (update_isr now l).1.in_sync_replica ≤ length l.replica_list)
    update_isr-length =
        let (others, p) = remove_name-total l.id l.replica_list listed in
        let n = l.min_isr_count - 1 in
        let ranked = closest (lag l now) others in
        let kept = keep (is_near l now) (drop n ranked) in
        omega (
          arith,
          ap length (isr-eq others p),
          length-append (take n ranked) kept,
          length-take n ranked,
          length-drop n ranked,
          length-keep (is_near l now) (drop n ranked),
          length-closest (lag l now) others,
          length-remove_name l.id l.replica_list others p,
        )
