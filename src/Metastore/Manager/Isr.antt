-- ===== src/Metastore/Manager/Isr.antt =====
-- A topic's leader is in sync, or no replica is.
use pylogstream.Prelude.{
  ℕ, ◌+◌, ◌≡◌, refl, ap, ◌∙◌, Bool, true, false, List, ◌∷◌, Option, some, Result, ok, same_refl,
  text_eq,
}
use pylogstream.Prelude.Dict.{get, get-put_self}
use pylogstream.Prelude.Exec.{Done, Exec, pure, resume, ◌>>=◌}
use pylogstream.Text.{Text}
use pylogstream.Metastore.Ring.{contains}
use pylogstream.Metastore.Storage.{TopicMetadata, update_topic, put_topic}
use pylogstream.Metastore.Manager.{
  MetastoreManager, change, on_storage, put_storage, elect, elect_leader, keep_or_elect, update_isr,
  update_topic_isr,
}

update_topic_stored :
    (t old : TopicMetadata) (s : MetastoreManager)
    → get s.storage.topics t.topic ≡ some old
    → on_storage (update_topic t) s ≡ (ok tt, record s { storage = put_topic t s.storage })
unfolding on_storage put_storage update_topic
update_topic_stored t old s h = rw h refl

module _ (hash : Text → ℕ) (s : MetastoreManager) where
  keep_or_elect-contains :
      (t : TopicMetadata) (x : Text) (xs : List Text) (b : Bool)
      → t.isr_list ≡ x ∷ xs
      → contains t.leader_id (x ∷ xs) ≡ b
      → (leader : Text) × (keep_or_elect hash b t s.ring ≡ ok leader)
        × (contains leader (x ∷ xs) ≡ true)
  unfolding keep_or_elect elect_leader elect contains
  keep_or_elect-contains t x xs true e h = (t.leader_id, refl, h)
  keep_or_elect-contains t x xs false e h = (x, rw e refl, rw (same_refl x) refl)

  -- Reporting a list of replicas in sync that is not empty, for a topic that is stored under its name,
  -- succeeds: the topic has that list, the same replicas, the next version, and a leader of the list; and
  -- that is what is stored.
  pub update_topic_isr-contains :
      (old : TopicMetadata) (x : Text) (xs : List Text)
      → get s.storage.topics old.topic ≡ some old
      → (m : TopicMetadata) × (t : MetastoreManager) × (update_topic_isr hash old.topic (x ∷ xs) s
          ≡ (ok (some m), t))
        × (contains m.leader_id m.isr_list ≡ true)
        × (m.isr_list ≡ x ∷ xs)
        × (m.replica_list ≡ old.replica_list)
        × (m.version ≡ old.version + 1)
        × (get t.storage.topics old.topic ≡ some m)
  unfolding update_topic_isr update_isr change
  update_topic_isr-contains old x xs h =
      let changed : TopicMetadata = record old { isr_list = x ∷ xs } in
      let (leader, k, c) =
        keep_or_elect-contains changed x xs (contains old.leader_id (x ∷ xs)) refl refl in
      let m : TopicMetadata = record changed { leader_id = leader; version = old.version + 1 } in
      let s1 : MetastoreManager = record s { storage = put_topic changed s.storage } in
      let save_led : Text → Exec MetastoreManager (Option TopicMetadata) = λ l.
        let led : TopicMetadata = record changed { leader_id = l; version = old.version + 1 } in
        do _ ← on_storage (update_topic led); pure (some led)
      in let u =
          update_topic_stored m changed s1 (get-put_self s.storage.topics old.topic changed) in
        (
          m,
          record s1 { storage = put_topic m s1.storage },
          ap (λ o. update_isr hash (x ∷ xs) o s) h
              ∙ ap (λ r. resume r save_led s1) k
              ∙ ap (λ (p : Result Done × MetastoreManager). resume p.0 (λ _. pure (some m)) p.1) u,
          c,
          refl,
          refl,
          refl,
          get-put_self s1.storage.topics old.topic m,
        )
