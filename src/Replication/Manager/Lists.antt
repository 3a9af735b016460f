-- ===== src/Replication/Manager/Lists.antt =====
-- replication/manager.py: a list of metadata is the whole of what a broker serves.
use pylogstream.Prelude.{
  ◌≡◌, refl, ap, ◌∙◌, sym, ◌⊎◌, List, [], ◌∷◌, Bool, true, false, Bool-cases, inl, inr, Option,
  none, some, Result, arith, same, same_iff, text_eq, if◌then◌else◌,
}
use pylogstream.Prelude.Dict.{Dict, get}
use pylogstream.Prelude.Exec.{Done}
use pylogstream.Prelude.Keeps.{Preserves, >>=-Preserves}
use pylogstream.Text.{Text}
use pylogstream.Protocol.Packets.{TopicMetaData}
use pylogstream.Metastore.Ring.{contains}
use pylogstream.Replication.Manager.{
  TopicState, ReplicaManager, remove_topic, apply_metadata, names_of, keys, remove_missing,
  apply_all, apply_metadata_list,
}
use pylogstream.Replication.Manager.View.{meta_in, view}
use pylogstream.Replication.Manager.Refines.{apply_metadata-spec, get-remove_topic}

get-keys : (d : Dict Text TopicState) (k : Text) → (get d k ≡ none) ⊎ (contains k (keys d) ≡ true)
unfolding get keys contains
get-keys [] k = inl refl
get-keys ((j, s) ∷ d) k = elim (Bool-cases (same j k)) [
  | inl e ↦ inr (ground (arith, same_iff j k, same_iff k j))
  | inr e ↦ elim (get-keys d k) [ inl n ↦ inl (rw e n) | inr c ↦ inr (ground arith) ]
]

module _ (k : Text) where
  abbrev IsAbsent : ReplicaManager → Type 0
  IsAbsent m = view m k ≡ none

  absent : (o : Option TopicState) → meta_in o ≡ none → o ≡ none
  absent none e = refl
  absent (some s) e = cc

  remove_topic-IsAbsent :
      (topic : Text) (m : ReplicaManager) → IsAbsent m → IsAbsent (remove_topic topic m)
  remove_topic-IsAbsent topic m h = ap meta_in (get-remove_topic topic k m) ∙ either (same topic k)
    where
      either : (b : Bool) → meta_in (if b then none else get m.topics k) ≡ none
      either true = refl
      either false = h

  remove_topic_self :
      (topic : Text) (m : ReplicaManager) → same topic k ≡ true → IsAbsent (remove_topic topic m)
  remove_topic_self topic m e =
      ap meta_in (get-remove_topic topic k m)
      ∙ ap (λ b. meta_in (if b then none else get m.topics k)) e

  module _ (names : List Text) (missing : contains k names ≡ false) where
    remove_if : Text → ReplicaManager → ReplicaManager
    remove_if j m = if contains j names then m else remove_topic j m

    remove_if-IsAbsent : (j : Text) (m : ReplicaManager) → IsAbsent m → IsAbsent (remove_if j m)
    unfolding remove_if
    remove_if-IsAbsent j m h = either (contains j names)
      where
        either : (b : Bool) → IsAbsent (if b then m else remove_topic j m)
        either true = h
        either false = remove_topic-IsAbsent j m h

    remove_if_self : (j : Text) (m : ReplicaManager) → same k j ≡ true → IsAbsent (remove_if j m)
    unfolding remove_if
    remove_if_self j m e =
        let named : k ≡ j = (same_iff k j).0 e in
        let n : contains j names ≡ false = ap (λ t. contains t names) (sym named) ∙ missing in
        rw n (remove_topic_self j m ((same_iff j k).1 (sym named)))

    remove_missing-IsAbsent :
        (ks : List Text) (m : ReplicaManager)
        → IsAbsent m ⊎ (contains k ks ≡ true)
        → IsAbsent (remove_missing names ks m)
    unfolding remove_missing remove_if contains
    remove_missing-IsAbsent [] m (inl h) = h
    remove_missing-IsAbsent [] m (inr h) = cc
    remove_missing-IsAbsent (j ∷ ks) m (inl h) =
        remove_missing-IsAbsent ks (remove_if j m) (inl (remove_if-IsAbsent j m h))
    remove_missing-IsAbsent (j ∷ ks) m (inr h) = elim (Bool-cases (same k j)) [
      | inl e ↦ remove_missing-IsAbsent ks (remove_if j m) (inl (remove_if_self j m e))
      | inr e ↦ remove_missing-IsAbsent ks (remove_if j m) (inr (ground arith))
    ]

  apply_metadata-IsAbsent :
      (connect : Text → Result Done) (meta : TopicMetaData) (m : ReplicaManager)
      → same meta.topic k ≡ false
      → IsAbsent m
      → IsAbsent (apply_metadata connect meta m).1
  apply_metadata-IsAbsent connect meta m n h = apply_metadata-spec connect meta m k ∙ rw n h

  apply_all-Absent :
      (connect : Text → Result Done) (metas : List TopicMetaData)
      → contains k (names_of metas) ≡ false
      → Preserves IsAbsent (apply_all connect metas)
  unfolding apply_all names_of contains
  apply_all-Absent connect [] n = record { preserved = λ m h. h }
  apply_all-Absent connect (meta ∷ metas) n =
      let other : same meta.topic k ≡ false =
        ground (arith, same_iff k meta.topic, same_iff meta.topic k) in
      >>=-Preserves IsAbsent
        (record { preserved = λ m. apply_metadata-IsAbsent connect meta m other })
        (λ _. apply_all-Absent connect metas (ground arith))

-- After a list of metadata is applied, even where that raises, a topic that the list does not name has no
-- state, whatever the manager served before.
pub apply_metadata_list-absent :
    (connect : Text → Result Done) (metas : List TopicMetaData) (m : ReplicaManager) (k : Text)
    → contains k (names_of metas) ≡ false
    → get (apply_metadata_list connect metas m).1.topics k ≡ none
unfolding apply_metadata_list
apply_metadata_list-absent connect metas m k n = absent k _ (
    (apply_all-Absent k connect metas n).preserved _ (
      remove_missing-IsAbsent k (names_of metas) n (keys m.topics) m
        (before (get-keys m.topics k))))
  where
    before :
        (get m.topics k ≡ none) ⊎ (contains k (keys m.topics) ≡ true)
        → (view m k ≡ none) ⊎ (contains k (keys m.topics) ≡ true)
    before (inl e) = inl (ap meta_in e)
    before (inr e) = inr e
