-- ===== src/Metastore/Tests.antt =====
-- A metastore with one topic, and the theorems about the ring and the manager at it.
use pylogstream.Prelude.{◌+◌, ◌≡◌, refl, arith, true, [], ◌∷◌, some, ok, length, text_eq}
use pylogstream.Prelude.Dict.{get}
use pylogstream.Text.{codes}
use pylogstream.Metastore.Ring.{ConsistentHashRing, contains, add_node, remove_node}
use pylogstream.Metastore.Ring.Sorted.{IsSorted, add_node-IsSorted}
use pylogstream.Metastore.Storage.{TopicMetadata}
use pylogstream.Metastore.Manager.{MetastoreManager, update_topic_isr}
use pylogstream.Metastore.Manager.Isr.{update_topic_isr-contains}

abbrev ring : ConsistentHashRing
ring = record { replicas = 2; ring = (3, codes "b") ∷ []; sorted_keys = 3 ∷ 7 ∷ [] }

-- A hash by the length: all nodes of a broker collide.
add_node-IsSorted_example :
    IsSorted (add_node length (codes "a") ring).sorted_keys
    × IsSorted (remove_node length (codes "a") ring).sorted_keys
add_node-IsSorted_example = add_node-IsSorted length (codes "a") ring (omega arith, tt)

abbrev topic : TopicMetadata
topic = record {
  topic = codes "t";
  leader_id = codes "a";
  replica_list = codes "a" ∷ codes "b" ∷ [];
  isr_list = codes "a" ∷ codes "b" ∷ [];
  version = 1;
}

abbrev metastore : MetastoreManager
metastore = record {
  storage = record { nodes = []; topics = (codes "t", topic) ∷ [] };
  ring = ring;
  replicas_per_topic = 2;
}

topic_stored : get metastore.storage.topics topic.topic ≡ some topic
unfolding get
topic_stored = refl

-- The leader is no longer in sync.
update_topic_isr-contains_example :
    (m : TopicMetadata) × (t : MetastoreManager) × (update_topic_isr length
        (codes "t")
        (codes "b" ∷ [])
        metastore
      ≡ (ok (some m), t))
    × (contains m.leader_id m.isr_list ≡ true)
    × (m.isr_list ≡ codes "b" ∷ [])
    × (m.replica_list ≡ topic.replica_list)
    × (m.version ≡ topic.version + 1)
    × (get t.storage.topics topic.topic ≡ some m)
update_topic_isr-contains_example =
    update_topic_isr-contains length metastore topic (codes "b") [] topic_stored
