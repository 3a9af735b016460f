-- ===== src/Replication/Manager/Refines.antt =====
-- replication/manager.py: the manager keeps the metadata that the map of View has.
use pylogstream.Prelude.{
  ◌≡◌, refl, ap, ◌∙◌, sym, subst, Bool, true, false, Bool-cases, inl, inr, Option, none, some,
  Result, ok, leb_ℤ, same, same_iff, same_refl, text_eq, if◌then◌else◌,
}
use pylogstream.Prelude.Dict.{get, get-remove}
use pylogstream.Prelude.Exec.{Done}
use pylogstream.Text.{Text}
use pylogstream.Protocol.Packets.{TopicMetaData}
use pylogstream.Metastore.Ring.{contains}
use pylogstream.Replication.Manager.{
  TopicState, ReplicaManager, new_state, close_state, remove_found, remove_topic, start_new,
  apply_listed, apply_metadata,
}
use pylogstream.Replication.Manager.View.{
  meta_of, meta_in, view, same_meta, newer, spec, meant, compare_meta-same_meta, meta_of-new_state,
  Holds, start_new-Holds,
}

module _ (connect : Text → Result Done) (s : TopicState) where
  Holds-view :
      (m n : ReplicaManager)
      → Holds (meta_of s) (get n.topics) m
      → view m s.topic ≡ some (meta_of s)
  Holds-view m n h = let (t, found, e) = h.own in ap meta_in found ∙ ap some e

  apply_listed_own :
      (o : Option TopicState) (m : ReplicaManager)
      → get m.topics s.topic ≡ o
      → view (apply_listed connect s o m).1 s.topic ≡ some (newer (meta_of s) (meta_in o))
  unfolding apply_listed close_state
  apply_listed_own none m e = Holds-view (start_new connect s m).1 m (start_new-Holds connect s m)
  apply_listed_own (some old) m e = elim (Bool-cases (leb_ℤ s.version old.version)) [
    | inl older ↦ rw older (ap meta_in e)
    | inr fresh ↦ elim (Bool-cases (same_meta (meta_of s) (meta_of old))) [
      | inl alike ↦ rw (fresh, compare_meta-same_meta s old, alike) (ap meta_in e)
      | inr differ ↦
          let closed = close_state old m in
          rw (fresh, compare_meta-same_meta s old, differ)
            (Holds-view (start_new connect s closed).1 closed (start_new-Holds connect s closed))
    ]
  ]

  apply_listed_other :
      (k : Text) (o : Option TopicState) (m : ReplicaManager)
      → same s.topic k ≡ false
      → get (apply_listed connect s o m).1.topics k ≡ get m.topics k
  unfolding apply_listed close_state
  apply_listed_other k none m n = (start_new-Holds connect s m).others k n
  apply_listed_other k (some old) m n = elim (Bool-cases (leb_ℤ s.version old.version)) [
    | inl older ↦ rw older refl
    | inr fresh ↦ elim (Bool-cases (same_meta (meta_of s) (meta_of old))) [
      | inl alike ↦ rw (fresh, compare_meta-same_meta s old, alike) refl
      | inr differ ↦
          rw (fresh, compare_meta-same_meta s old, differ)
            ((start_new-Holds connect s (close_state old m)).others k n)
    ]
  ]

pub get-remove_topic :
    (topic k : Text) (m : ReplicaManager)
    → get (remove_topic topic m).topics k ≡ (if same topic k then none else get m.topics k)
unfolding remove_topic
get-remove_topic topic k m = by_topic (get m.topics topic) refl
  where
    by_topic :
        (o : Option TopicState)
        → get m.topics topic ≡ o
        → get (remove_found topic o m).topics k ≡ (if same topic k then none else get m.topics k)
    by_topic none e = elim (Bool-cases (same topic k)) [
      | inl q ↦ rw q (unfold remove_found in (ap (get m.topics) (sym ((same_iff topic k).0 q)) ∙ e))
      | inr q ↦ rw q (unfold remove_found in refl)
    ]
    by_topic (some s) e = unfold remove_found close_state in get-remove m.topics topic k

-- Whether it returns or raises, applying metadata changes the topics' metadata as the map of `spec` says:
-- only the topic named changes; it is gone where this broker is none of its replicas, and otherwise it
-- has the leader, replicas and version of the metadata, with this broker's role, if it was not there or
-- if the version is higher and more than the version differs.
pub apply_metadata-spec :
    (connect : Text → Result Done) (meta : TopicMetaData) (m : ReplicaManager) (k : Text)
    → view (apply_metadata connect meta m).1 k ≡ spec m.broker_id meta (view m) k
unfolding apply_metadata new_state
apply_metadata-spec connect meta m k = by_topic (same meta.topic k) refl
  where
    new : TopicState
    new = new_state m.broker_id meta

    found : Option TopicState
    found = get m.topics meta.topic

    listed :
        (b : Bool)
        → view
            (if b then apply_listed connect new found m else (ok tt, remove_topic meta.topic m)).1
            meta.topic
          ≡ (if b then some (newer (meant m.broker_id meta) (meta_in found)) else none)
    listed true =
        apply_listed_own connect new found m refl
        ∙ ap (λ x. some (newer x (meta_in found))) (meta_of-new_state m.broker_id meta)
    listed false =
        ap meta_in (get-remove_topic meta.topic meta.topic m)
        ∙ ap (λ b. meta_in (if b then none else found)) (same_refl meta.topic)

    other :
        (b : Bool)
        → same meta.topic k ≡ false
        → view
            (if b then apply_listed connect new found m else (ok tt, remove_topic meta.topic m)).1
            k
          ≡ view m k
    other true n = ap meta_in (apply_listed_other connect new k found m n)
    other false n =
        ap meta_in (get-remove_topic meta.topic k m)
        ∙ ap (λ b. meta_in (if b then none else get m.topics k)) n

    by_topic :
        (b : Bool)
        → same meta.topic k ≡ b
        → view (apply_metadata connect meta m).1 k ≡ (
            if b
            then (if contains m.broker_id meta.replica_list
                then some (newer (meant m.broker_id meta) (view m k))
                else none)
            else view m k)
    by_topic true e =
        subst
          (λ t. view (apply_metadata connect meta m).1 t ≡ (
            if contains m.broker_id meta.replica_list
            then some (newer (meant m.broker_id meta) (view m t))
            else none))
          ((same_iff meta.topic k).0 e) (listed (contains m.broker_id meta.replica_list))
    by_topic false e = other (contains m.broker_id meta.replica_list) e
