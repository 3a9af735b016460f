-- ===== src/Metastore/Manager/Nodes.antt =====
-- manager.py: which brokers the metastore knows. Only a registration and a deregistration change it.
use pylogstream.Prelude.{
  ℕ, ◌+◌, same, ◌≡◌, refl, List, [], ◌∷◌, ◌++◌, Bool, true, false, Option, none, some, text_eq,
  if◌then◌else◌,
}
use pylogstream.Prelude.Dict.{Dict, remove}
use pylogstream.Prelude.Exec.{Exec}
use pylogstream.Prelude.Keeps.{Keeps, >>=-Keeps, outside-Keeps, pure-Keeps}
use pylogstream.Text.{Text}
use pylogstream.Metastore.Ring.{contains, get_replicas}
use pylogstream.Metastore.Storage.{
  BrokerNode, TopicMetadata, MetastoreStorage, add_topic, update_topic, update_topic-nodes,
  add_topic-nodes, get_topic, remove_node,
}
use pylogstream.Metastore.Manager.{
  MetastoreManager, without, first_or_nobody, put_storage, on_storage, change, save, new_replicas,
  new_leader, elect_leader, leave_topic, leave_topics, deregister_broker, register_new,
  register_topic, update_isr, update_topic_isr, keep_or_elect,
}

abbrev pub nodes_of : MetastoreManager → Dict Text BrokerNode
nodes_of m = m.storage.nodes

abbrev KeepsNodes : {A : Type 0} → Exec MetastoreManager A → Type 0
KeepsNodes = Keeps nodes_of

on_storage-Keeps :
    {A : Type 0} (f : Exec MetastoreStorage A)
    → ((s : MetastoreStorage) → (f s).1.nodes ≡ s.nodes)
    → KeepsNodes (on_storage f)
unfolding on_storage put_storage
on_storage-Keeps f k = record { kept = λ m. k m.storage }

change-Keeps : (t : TopicMetadata) → KeepsNodes (change t)
unfolding change
change-Keeps t = record { kept = λ m. refl }

module _ (hash : Text → ℕ) where
  save-Keeps : (b : Bool) (t : TopicMetadata) → KeepsNodes (save hash b t)
  unfolding save
  save-Keeps false t = pure-Keeps nodes_of []
  save-Keeps true t =
      let saved = record t { version = t.version + 1 } in
      >>=-Keeps nodes_of (on_storage-Keeps (update_topic saved) (update_topic-nodes saved))
        (λ _. pure-Keeps nodes_of (saved ∷ []))

  new_leader-Keeps :
      (b : Bool) (node_id : Text) (t : TopicMetadata) → KeepsNodes (new_leader hash b node_id t)
  unfolding new_leader
  new_leader-Keeps false node_id t = record { kept = λ m. refl }
  new_leader-Keeps true node_id t =
      let purged = record t { isr_list = without node_id t.isr_list } in
      record {
        kept = λ m.
            (>>=-Keeps nodes_of (change-Keeps purged) (λ _.
                >>=-Keeps nodes_of (outside-Keeps nodes_of (elect_leader hash purged m.ring))
                  (λ leader. pure-Keeps nodes_of (record purged { leader_id = leader })))).kept
              m;
      }

  leave_topic-Keeps :
      (node_id : Text) (any_active : Bool) (t : TopicMetadata)
      → KeepsNodes (leave_topic hash node_id any_active t)
  unfolding leave_topic
  leave_topic-Keeps node_id any_active t = record {
    kept = λ m.
        (>>=-Keeps nodes_of (outside-Keeps nodes_of (new_replicas hash node_id t any_active m))
            (λ replicas.
              let moved = record t { replica_list = replicas } in
              >>=-Keeps nodes_of (change-Keeps moved) (λ _.
                >>=-Keeps nodes_of (new_leader-Keeps (same t.leader_id node_id) node_id moved)
                  (λ led.
                    save-Keeps
                      (if contains node_id t.replica_list then true else same t.leader_id node_id)
                      led)))).kept
          m;
  }

  leave_topics-Keeps :
      (node_id : Text) (any_active : Bool) (ts : List TopicMetadata)
      → KeepsNodes (leave_topics hash node_id any_active ts)
  unfolding leave_topics
  leave_topics-Keeps node_id any_active [] = pure-Keeps nodes_of []
  leave_topics-Keeps node_id any_active (t ∷ ts) =
      >>=-Keeps nodes_of (leave_topic-Keeps node_id any_active t) (λ here.
        >>=-Keeps nodes_of (leave_topics-Keeps node_id any_active ts)
          (λ rest. pure-Keeps nodes_of (here ++ rest)))

  -- Whatever becomes of the topics, exactly the broker that leaves is taken off.
  pub deregister_broker-nodes :
      (node_id : Text) (m : MetastoreManager)
      → nodes_of (deregister_broker hash node_id m).1 ≡ remove m.storage.nodes node_id
  unfolding deregister_broker remove_node
  deregister_broker-nodes node_id m = (leave_topics-Keeps node_id _ _).kept _

  register_new-Keeps :
      (name : Text) (o : Option TopicMetadata) → KeepsNodes (register_new hash name o)
  unfolding register_new
  register_new-Keeps name (some t) = record { kept = λ m. refl }
  register_new-Keeps name none = record {
    kept = λ m.
        (>>=-Keeps nodes_of
            (outside-Keeps nodes_of (get_replicas hash name m.replicas_per_topic m.ring))
            (λ replicas.
              let t : TopicMetadata = record {
                topic = name;
                leader_id = first_or_nobody replicas;
                replica_list = replicas;
                isr_list = replicas;
                version = 1;
              } in
              >>=-Keeps nodes_of (on_storage-Keeps (add_topic t) (add_topic-nodes t))
                (λ _. pure-Keeps nodes_of t))).kept
          m;
  }

  pub register_topic-nodes :
      (name : Text) (m : MetastoreManager) → nodes_of (register_topic hash name m).1 ≡ nodes_of m
  unfolding register_topic
  register_topic-nodes name m = (register_new-Keeps name (get_topic name m.storage)).kept m

  update_isr-Keeps :
      (isr_list : List Text) (o : Option TopicMetadata) → KeepsNodes (update_isr hash isr_list o)
  unfolding update_isr
  update_isr-Keeps isr_list none = record { kept = λ m. refl }
  update_isr-Keeps isr_list (some t) =
      let changed = record t { isr_list = isr_list } in
      record {
        kept = λ m.
            (>>=-Keeps nodes_of (change-Keeps changed) (λ _.
                >>=-Keeps nodes_of
                  (outside-Keeps nodes_of
                    (keep_or_elect hash (contains t.leader_id isr_list) changed m.ring))
                  (λ leader.
                    let updated = record changed { leader_id = leader; version = t.version + 1 } in
                    >>=-Keeps nodes_of
                      (on_storage-Keeps (update_topic updated) (update_topic-nodes updated))
                      (λ _. pure-Keeps nodes_of (some updated))))).kept
              m;
      }

  pub update_topic_isr-nodes :
      (name : Text) (isr_list : List Text) (m : MetastoreManager)
      → nodes_of (update_topic_isr hash name isr_list m).1 ≡ nodes_of m
  unfolding update_topic_isr
  update_topic_isr-nodes name isr_list m =
      (update_isr-Keeps isr_list (get_topic name m.storage)).kept m
