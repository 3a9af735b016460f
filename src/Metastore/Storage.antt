-- ===== src/Metastore/Storage.antt =====
-- models.py and the in-memory storage of storage.py. A method holds the storage's lock, so it is one
-- step. A stored topic is an object that the manager changes in place: the change is a `put`.
use pylogstream.Prelude.{
  ◌≡◌, refl, ℕ, List, [], ◌∷◌, Option, none, some, ok, err, value_error, ℤ, text_eq,
}
use pylogstream.Prelude.Dict.{Dict, get, put, remove}
use pylogstream.Prelude.Exec.{Done, Exec}
use pylogstream.Text.{Text}

pub record BrokerNode : Type 0 where
  pub node_id : Text
  pub host : Text
  pub port : ℤ

pub record TopicMetadata : Type 0 where
  pub topic : Text
  pub leader_id : Text
  pub replica_list : List Text
  pub isr_list : List Text
  pub version : ℕ

pub record MetastoreStorage : Type 0 where
  pub nodes : Dict Text BrokerNode
  pub topics : Dict Text TopicMetadata

-- `list(d.values())`
unfoldable pub values : {A : Type 0} → Dict Text A → List A
values [] = []
values ((_, v) ∷ d) = v ∷ values d

unfoldable pub add_node : BrokerNode → MetastoreStorage → MetastoreStorage
add_node node s = record s { nodes = put s.nodes node.node_id node }

unfoldable pub remove_node : Text → MetastoreStorage → Option BrokerNode × MetastoreStorage
remove_node node_id s = (get s.nodes node_id, record s { nodes = remove s.nodes node_id })

abbrev pub get_node : Text → MetastoreStorage → Option BrokerNode
get_node node_id s = get s.nodes node_id

abbrev pub get_all_nodes : MetastoreStorage → List BrokerNode
get_all_nodes s = values s.nodes

abbrev pub put_topic : TopicMetadata → MetastoreStorage → MetastoreStorage
put_topic t s = record s { topics = put s.topics t.topic t }

add_missing : TopicMetadata → Option TopicMetadata → Exec MetastoreStorage Done
add_missing t none s = (ok tt, put_topic t s)
add_missing t (some _) s = (err value_error, s)

unfoldable pub add_topic : TopicMetadata → Exec MetastoreStorage Done
unfolding add_missing
add_topic t s = add_missing t (get s.topics t.topic) s

update_found : TopicMetadata → Option TopicMetadata → Exec MetastoreStorage Done
update_found t none s = (err value_error, s)
update_found t (some _) s = (ok tt, put_topic t s)

unfoldable pub update_topic : TopicMetadata → Exec MetastoreStorage Done
unfolding update_found
update_topic t s = update_found t (get s.topics t.topic) s

unfoldable pub remove_topic : Text → MetastoreStorage → Option TopicMetadata × MetastoreStorage
remove_topic name s = (get s.topics name, record s { topics = remove s.topics name })

abbrev pub get_topic : Text → MetastoreStorage → Option TopicMetadata
get_topic name s = get s.topics name

abbrev pub get_all_topics : MetastoreStorage → List TopicMetadata
get_all_topics s = values s.topics

update_found-nodes :
    (t : TopicMetadata) (o : Option TopicMetadata) (s : MetastoreStorage)
    → (update_found t o s).1.nodes ≡ s.nodes
unfolding update_found
update_found-nodes t none s = refl
update_found-nodes t (some _) s = refl

pub update_topic-nodes :
    (t : TopicMetadata) (s : MetastoreStorage) → (update_topic t s).1.nodes ≡ s.nodes
unfolding update_topic
update_topic-nodes t s = update_found-nodes t (get s.topics t.topic) s

add_missing-nodes :
    (t : TopicMetadata) (o : Option TopicMetadata) (s : MetastoreStorage)
    → (add_missing t o s).1.nodes ≡ s.nodes
unfolding add_missing
add_missing-nodes t none s = refl
add_missing-nodes t (some _) s = refl

pub add_topic-nodes : (t : TopicMetadata) (s : MetastoreStorage) → (add_topic t s).1.nodes ≡ s.nodes
unfolding add_topic
add_topic-nodes t s = add_missing-nodes t (get s.topics t.topic) s
