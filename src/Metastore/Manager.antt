-- ===== src/Metastore/Manager.antt =====
-- manager.py, class MetastoreManager. The in-memory storage never waits, so each method is one step.
-- `hash` is the ring's.
pub mod Isr
pub mod Nodes
use pylogstream.Prelude.{
  ℕ, ◌+◌, Bool, true, false, ◌&&◌, List, [], ◌∷◌, ◌++◌, Option, none, some, if◌then◌else◌, ltb,
  ◌==◌, Result, ok, err, ℤ, length, same, text_eq,
}
use pylogstream.Prelude
use pylogstream.Prelude.Dict.{get}
use pylogstream.Prelude.Exec.{Done, Exec, pure, raise, outside, ◌>>=◌}
use pylogstream.Text.{Text}
use pylogstream.Metastore.Ring.{ConsistentHashRing, contains, get_replicas}
use pylogstream.Metastore.Ring
use pylogstream.Metastore.Storage.{
  BrokerNode, TopicMetadata, MetastoreStorage, put_topic, add_topic, update_topic, get_topic,
  get_all_topics, get_all_nodes,
}
use pylogstream.Metastore.Storage

pub record MetastoreManager : Type 0 where
  pub storage : MetastoreStorage
  pub ring : ConsistentHashRing
  pub replicas_per_topic : ℕ

unfoldable pub put_storage :
    {A : Type 0} → MetastoreManager → Result A × MetastoreStorage → Result A × MetastoreManager
put_storage s (r, t) = (r, record s { storage = t })

unfoldable pub on_storage : {A : Type 0} → Exec MetastoreStorage A → Exec MetastoreManager A
unfolding put_storage
on_storage f s = put_storage s (f s.storage)

-- A stored topic is changed in place.
unfoldable pub change : TopicMetadata → Exec MetastoreManager Done
change t s = (ok tt, record s { storage = put_topic t s.storage })

unfoldable pub or_nobody : Result (Option Text) → Result Text
or_nobody (ok none) = ok []
or_nobody (ok (some node)) = ok node
or_nobody (err e) = err e

unfoldable pub without : Text → List Text → List Text
without x [] = []
without x (y ∷ ys) = let rest = without x ys in if same y x then rest else y ∷ rest

unfoldable pub top_up : ℕ → List Text → List Text → List Text
unfolding contains
top_up count found [] = found
top_up count found (r ∷ rs) =
    let skip = top_up count found rs in
    let more = top_up count (found ++ r ∷ []) rs in
    if contains r found
    then skip
    else if length (found ++ r ∷ []) == count
    then found ++ r ∷ []
    else more

unfoldable pub first_or_nobody : List Text → Text
first_or_nobody [] = []
first_or_nobody (x ∷ xs) = x

unfoldable pub get_topic_metadata : Text → MetastoreManager → Option TopicMetadata
get_topic_metadata name s = get_topic name s.storage

unfoldable pub get_all : MetastoreManager → List TopicMetadata
get_all s = get_all_topics s.storage

unfoldable pub get_broker : Text → MetastoreManager → Option BrokerNode
get_broker node_id s = Storage.get_node node_id s.storage

module _ (hash : Text → ℕ) where
  unfoldable pub elect : ConsistentHashRing → Text → List Text → List Text → Result Text
  unfolding or_nobody Ring.get_node
  elect ring topic (x ∷ isr) replicas = ok x
  elect ring topic [] (x ∷ replicas) = ok x
  elect ring topic [] [] = or_nobody (Ring.get_node hash topic ring)

  unfoldable pub elect_leader : TopicMetadata → ConsistentHashRing → Result Text
  unfolding elect
  elect_leader t ring = elect ring t.topic t.isr_list t.replica_list

  unfoldable pub register_broker :
      Text → Text → ℤ → MetastoreManager → BrokerNode × MetastoreManager
  unfolding Storage.add_node Ring.add_node
  register_broker node_id host port s =
      let node : BrokerNode = record { node_id = node_id; host = host; port = port } in
      (
        node,
        record s {
          storage = Storage.add_node node s.storage;
          ring = Ring.add_node hash node_id s.ring;
        },
      )

  -- The replicas of a topic without the broker, filled up where brokers are left.
  unfoldable pub new_replicas : Text → TopicMetadata → Bool → MetastoreManager → Result (List Text)
  unfolding without top_up get_replicas
  new_replicas node_id t any_active s =
      let rest = without node_id t.replica_list in
      let fill : Result (List Text) =
        Prelude.◌>>=◌ (get_replicas hash t.topic s.replicas_per_topic s.ring)
          (λ rs. ok (top_up s.replicas_per_topic rest rs)) in
      if contains node_id t.replica_list
      then if ltb (length rest) s.replicas_per_topic && any_active then fill else ok rest
      else ok t.replica_list

  -- The leader after a broker has left, and the topic as it is stored meanwhile.
  unfoldable pub new_leader : Bool → Text → TopicMetadata → Exec MetastoreManager TopicMetadata
  unfolding change elect_leader without
  new_leader false node_id t s = (ok t, s)
  new_leader true node_id t s =
      let purged = record t { isr_list = without node_id t.isr_list } in
      (do
        _ ← change purged
        leader ← outside (elect_leader purged s.ring)
        pure (record purged { leader_id = leader }))
        s

  unfoldable pub save : Bool → TopicMetadata → Exec MetastoreManager (List TopicMetadata)
  unfolding on_storage update_topic
  save false t = pure []
  save true t = do
    _ ← on_storage (update_topic (record t { version = t.version + 1 }))
    pure (record t { version = t.version + 1 } ∷ [])

  unfoldable pub leave_topic :
      Text → Bool → TopicMetadata → Exec MetastoreManager (List TopicMetadata)
  unfolding new_replicas new_leader save change
  leave_topic node_id any_active t s =
      (do
        replicas ← outside (new_replicas node_id t any_active s)
        let moved = record t { replica_list = replicas }
        _ ← change moved
        led ← new_leader (same t.leader_id node_id) node_id moved
        save (if contains node_id t.replica_list then true else same t.leader_id node_id) led)
        s

  unfoldable pub leave_topics :
      Text → Bool → List TopicMetadata → Exec MetastoreManager (List TopicMetadata)
  unfolding leave_topic
  leave_topics node_id any_active [] = pure []
  leave_topics node_id any_active (t ∷ ts) = do
    here ← leave_topic node_id any_active t
    rest ← leave_topics node_id any_active ts
    pure (here ++ rest)

  is_any : List BrokerNode → Bool
  is_any [] = false
  is_any (_ ∷ _) = true

  unfoldable pub deregister_broker : Text → Exec MetastoreManager (List TopicMetadata)
  unfolding leave_topics is_any Storage.remove_node Ring.remove_node
  deregister_broker node_id s =
      let t : MetastoreManager = record s {
        storage = (Storage.remove_node node_id s.storage).1;
        ring = Ring.remove_node hash node_id s.ring;
      } in
      leave_topics node_id (is_any (get_all_nodes t.storage)) (get_all_topics t.storage) t

  unfoldable pub register_new : Text → Option TopicMetadata → Exec MetastoreManager TopicMetadata
  unfolding get_replicas on_storage add_topic first_or_nobody
  register_new name (some t) s = (ok t, s)
  register_new name none s =
      (do
        replicas ← outside (get_replicas hash name s.replicas_per_topic s.ring)
        let t : TopicMetadata = record {
          topic = name;
          leader_id = first_or_nobody replicas;
          replica_list = replicas;
          isr_list = replicas;
          version = 1;
        }
        _ ← on_storage (add_topic t)
        pure t)
        s

  unfoldable pub register_topic : Text → Exec MetastoreManager TopicMetadata
  unfolding register_new
  register_topic name s = register_new name (get_topic name s.storage) s

  -- The leader stays where it is in the new list.
  unfoldable pub keep_or_elect : Bool → TopicMetadata → ConsistentHashRing → Result Text
  unfolding elect_leader
  keep_or_elect true t ring = ok t.leader_id
  keep_or_elect false t ring = elect_leader t ring

  unfoldable pub update_isr :
      List Text → Option TopicMetadata → Exec MetastoreManager (Option TopicMetadata)
  unfolding change keep_or_elect on_storage update_topic contains
  update_isr isr_list none s = (ok none, s)
  update_isr isr_list (some t) s =
      let changed = record t { isr_list = isr_list } in
      (do
        _ ← change changed
        leader ← outside (keep_or_elect (contains t.leader_id isr_list) changed s.ring)
        let updated = record changed { leader_id = leader; version = t.version + 1 }
        _ ← on_storage (update_topic updated)
        pure (some updated))
        s

  unfoldable pub update_topic_isr : Text → List Text → Exec MetastoreManager (Option TopicMetadata)
  unfolding update_isr
  update_topic_isr name isr_list s = update_isr isr_list (get_topic name s.storage) s
