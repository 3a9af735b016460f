-- ===== src/Replication/Tests/Metadata.antt =====
-- A broker that leads a topic, and gets a list without it.
use pylogstream.Prelude.{◌≡◌, refl, false, [], ◌∷◌, none, Result, ok, pos, text_eq}
use pylogstream.Prelude.Dict.{get}
use pylogstream.Prelude.Exec.{Done}
use pylogstream.Text.{Text, codes}
use pylogstream.Protocol.Packets.{TopicMetaData}
use pylogstream.Metastore.Ring.{contains}
use pylogstream.Replication.Tests.{a, b, log}
use pylogstream.Replication.Manager.{
  ReplicaManager, apply_metadata, apply_metadata_list, names_of, leader_loop,
}
use pylogstream.Replication.Manager.View.{view, spec}
use pylogstream.Replication.Manager.Refines.{apply_metadata-spec}
use pylogstream.Replication.Manager.Lists.{apply_metadata_list-absent}
use pylogstream.Replication.Manager.Valid.{IsManaged}
use pylogstream.Replication.Manager.Steps.{
  Reach, start, later, metadata, Reach-IsManaged, leader_loop-returns,
}

abbrev broker : ReplicaManager
broker = record {
  broker_id = a;
  min_isr_count = 2;
  max_isr_lag_ms = 10;
  topics = [];
  log = log;
  told = [];
}

abbrev meta : TopicMetaData
meta = record {
  topic = codes "t";
  leader_id = a;
  leader_addr = codes "h";
  leader_port = pos 9;
  replica_list = a ∷ b ∷ [];
  version = pos 1;
}

abbrev connects : Text → Result Done
connects _ = ok tt

abbrev led : ReplicaManager
led = (apply_metadata connects meta broker).1

leads : Reach broker led
leads = later (start refl) (metadata connects meta)

Reach-IsManaged_example : IsManaged led
Reach-IsManaged_example = Reach-IsManaged leads

leader_loop-returns_example : (leader_loop (codes "t") 8 led).0 ≡ ok tt
leader_loop-returns_example = leader_loop-returns (codes "t") 8 leads

apply_metadata-spec_example : view led (codes "t") ≡ spec a meta (view broker) (codes "t")
apply_metadata-spec_example = apply_metadata-spec connects meta broker (codes "t")

not_named : contains (codes "t") (names_of (record meta { topic = codes "u" } ∷ [])) ≡ false
unfolding contains names_of
not_named = refl

apply_metadata_list-absent_example :
    get
      (apply_metadata_list connects (record meta { topic = codes "u" } ∷ []) led).1.topics
      (codes "t")
    ≡ none
apply_metadata_list-absent_example =
    apply_metadata_list-absent connects (record meta { topic = codes "u" } ∷ []) led (codes "t")
      not_named
