-- ===== src/Replication/Manager.antt =====
-- replication/manager.py. The methods wait only where a state is closed or a fetcher is created, and
-- nothing of the model changes there, so each method is one step. What comes of a connection to the
-- leader of a topic is the argument `connect`.
pub mod Valid
pub mod View
pub mod Refines
pub mod Lists
pub mod Steps
use pylogstream.Prelude.{
  ℕ, Bool, true, false, ◌&&◌, not, List, [], ◌∷◌, ◌++◌, Option, none, some, if◌then◌else◌, Result,
  ok, err, Error, ℤ, pos, leb_ℤ, eqb_ℤ, same, text_eq,
}
use pylogstream.Prelude.Dict.{Dict, get, put, remove}
use pylogstream.Prelude.Exec.{Done, Exec, pure, raise, outside, ◌>>=◌}
use pylogstream.Text.{Text}
use pylogstream.Protocol.Packets.{Command, Response, TopicMetaData}
use pylogstream.Log.Reader.{LogState}
use pylogstream.Log.Manager.{create_topic}
use pylogstream.Metastore.Ring.{contains}
use pylogstream.Replication.Fetcher.{ReplicaFetcher, new_fetcher}
use pylogstream.Replication.Leader.{ReplicaLeader, Served, new_leader, close, update_isr}
use pylogstream.Replication.Leader

pub data Role : Type 0 where
  leader follower : Role

-- `loop_task` is whether the task of the leader's loop was made.
pub record TopicState : Type 0 where
  pub topic : Text
  pub role : Role
  pub leader_id : Text
  pub leader_addr : Text
  pub leader_port : ℤ
  pub replicas : List Text
  pub version : ℤ
  pub leader : Option ReplicaLeader
  pub fetcher : Option ReplicaFetcher
  pub loop_task : Bool
  pub running : Bool

unfoldable pub same_role : Role → Role → Bool
same_role Role.leader Role.leader = true
same_role Role.follower Role.follower = true
same_role _ _ = false

unfoldable pub all_in : List Text → List Text → Bool
unfolding contains
all_in [] ys = true
all_in (x ∷ xs) ys = contains x ys && all_in xs ys

-- `set(xs) == set(ys)`
unfoldable pub same_set : List Text → List Text → Bool
unfolding all_in
same_set xs ys = all_in xs ys && all_in ys xs

unfoldable pub compare_meta : TopicState → TopicState → Bool
unfolding same_role same_set
compare_meta s other =
    same s.topic other.topic
    && same_role s.role other.role
    && same s.leader_id other.leader_id
    && same s.leader_addr other.leader_addr
    && eqb_ℤ s.leader_port other.leader_port
    && same_set s.replicas other.replicas

-- `told` are the futures of waiters that were given the exception when their leader was closed.
pub record ReplicaManager : Type 0 where
  pub broker_id : Text
  pub min_isr_count : ℕ
  pub max_isr_lag_ms : ℕ
  pub topics : Dict Text TopicState
  pub log : LogState
  pub told : List ℕ

unfoldable pub role_of : Bool → Role
role_of true = Role.leader
role_of false = Role.follower

unfoldable pub new_state : Text → TopicMetaData → TopicState
unfolding role_of
new_state broker_id meta = record {
  topic = meta.topic;
  role = role_of (same meta.leader_id broker_id);
  leader_id = meta.leader_id;
  leader_addr = meta.leader_addr;
  leader_port = meta.leader_port;
  replicas = meta.replica_list;
  version = meta.version;
  leader = none;
  fetcher = none;
  loop_task = false;
  running = false;
}

abbrev pub put_state : ReplicaManager → TopicState → ReplicaManager
put_state m s = record m { topics = put m.topics s.topic s }

unfoldable pub put_log :
    {A : Type 0} → ReplicaManager → Result A × LogState → Result A × ReplicaManager
put_log m (r, log) = (r, record m { log = log })

unfoldable pub on_log : {A : Type 0} → Exec LogState A → Exec ReplicaManager A
unfolding put_log
on_log f m = put_log m (f m.log)

unfoldable pub waiters : Option ReplicaLeader → List ℕ
unfolding close
waiters none = []
waiters (some l) = close l

-- The old state is not used again, so only what its waiters are told is left of it. None of them was
-- cancelled before, and the loop's task ends without an exception of its own.
unfoldable pub close_state : TopicState → ReplicaManager → ReplicaManager
unfolding waiters
close_state s m = record m { told = m.told ++ waiters s.leader }

unfoldable pub remove_found : Text → Option TopicState → ReplicaManager → ReplicaManager
unfolding close_state
remove_found topic none m = m
remove_found topic (some s) m =
    let closed = close_state s m in record closed { topics = remove closed.topics topic }

unfoldable pub remove_topic : Text → ReplicaManager → ReplicaManager
unfolding remove_found
remove_topic topic m = remove_found topic (get m.topics topic) m

unfoldable pub lead : TopicState → Exec ReplicaManager Done
unfolding new_leader
lead s m =
    (do
      l ← outside (new_leader s.topic m.broker_id s.replicas m.min_isr_count m.max_isr_lag_ms m.log)
      λ n. (ok tt, put_state n (record s { leader = some l; running = true; loop_task = true })))
      m

-- Any exception of the fetcher's creation is printed, and the state stays as it is.
unfoldable pub follow : TopicState → Result ReplicaFetcher → Exec ReplicaManager Done
follow s (ok f) m = (ok tt, put_state m (record s { fetcher = some f; running = true }))
follow s (err e) m = (ok tt, m)

unfoldable pub start_role : Role → (Text → Result Done) → TopicState → Exec ReplicaManager Done
unfolding lead follow new_fetcher
start_role Role.leader connect s m = lead s m
start_role Role.follower connect s m =
    follow s (new_fetcher s.topic m.broker_id (connect s.topic) m.log) m

unfoldable pub start_topic : (Text → Result Done) → TopicState → Exec ReplicaManager Done
unfolding start_role on_log create_topic
start_topic connect s = do _ ← on_log (create_topic s.topic); start_role s.role connect s

unfoldable pub start_new : (Text → Result Done) → TopicState → Exec ReplicaManager Done
unfolding start_topic
start_new connect s m = start_topic connect s (put_state m s)

unfoldable pub apply_listed :
    (Text → Result Done) → TopicState → Option TopicState → Exec ReplicaManager Done
unfolding start_new close_state compare_meta
apply_listed connect s none m = start_new connect s m
apply_listed connect s (some old) m =
    if leb_ℤ s.version old.version
    then (ok tt, m)
    else if compare_meta s old
    then (ok tt, m)
    else start_new connect s (close_state old m)

unfoldable pub apply_metadata : (Text → Result Done) → TopicMetaData → Exec ReplicaManager Done
unfolding apply_listed remove_topic new_state contains
apply_metadata connect meta m =
    if contains m.broker_id meta.replica_list
    then apply_listed connect (new_state m.broker_id meta) (get m.topics meta.topic) m
    else (ok tt, remove_topic meta.topic m)

unfoldable pub names_of : List TopicMetaData → List Text
names_of [] = []
names_of (meta ∷ metas) = meta.topic ∷ names_of metas

unfoldable pub keys : Dict Text TopicState → List Text
keys [] = []
keys ((k, _) ∷ d) = k ∷ keys d

unfoldable pub remove_missing : List Text → List Text → ReplicaManager → ReplicaManager
unfolding remove_topic contains
remove_missing names [] m = m
remove_missing names (k ∷ ks) m =
    remove_missing names ks (if contains k names then m else remove_topic k m)

unfoldable pub apply_all : (Text → Result Done) → List TopicMetaData → Exec ReplicaManager Done
unfolding apply_metadata
apply_all connect [] = pure tt
apply_all connect (meta ∷ metas) = do _ ← apply_metadata connect meta; apply_all connect metas

unfoldable pub apply_metadata_list :
    (Text → Result Done) → List TopicMetaData → Exec ReplicaManager Done
unfolding apply_all remove_missing names_of keys
apply_metadata_list connect metas m =
    apply_all connect metas (remove_missing (names_of metas) (keys m.topics) m)

unfoldable pub leader_of : Role → Option ReplicaLeader → Result ReplicaLeader
leader_of Role.leader (some l) = ok l
leader_of Role.leader none = err Error.exception
leader_of Role.follower l = err Error.exception

unfoldable pub leader_in : Option TopicState → Result ReplicaLeader
unfolding leader_of
leader_in none = err Error.exception
leader_in (some s) = leader_of s.role s.leader

unfoldable pub get_leader : Text → ReplicaManager → Result ReplicaLeader
unfolding leader_in
get_leader topic m = leader_in (get m.topics topic)

unfoldable pub remove_all : List Text → ReplicaManager → ReplicaManager
unfolding remove_topic
remove_all [] m = m
remove_all (k ∷ ks) m = remove_all ks (remove_topic k m)

unfoldable pub close_all : ReplicaManager → ReplicaManager
unfolding remove_all keys
close_all m = remove_all (keys m.topics) m

-- A leader that has changed, and the log after it.
unfoldable pub put_served :
    {A : Type 0} → TopicState → ReplicaManager → Result A × Served → Result A × ReplicaManager
put_served s m (r, (l, log)) =
    (r, put_state (record m { log = log }) (record s { leader = some l }))

unfoldable pub handle_by :
    Role → Option ReplicaLeader → TopicState → Command → ℕ → Exec ReplicaManager Response
unfolding put_served Leader.handle
handle_by Role.follower l s cmd now m = (err Error.exception, m)
handle_by Role.leader none s cmd now m = (err Error.assertion_error, m)
handle_by Role.leader (some l) s cmd now m = put_served s m (Leader.handle cmd now (l, m.log))

unfoldable pub handle_in : Option TopicState → Command → ℕ → Exec ReplicaManager Response
unfolding handle_by
handle_in none cmd now m = (err Error.exception, m)
handle_in (some s) cmd now m = handle_by s.role s.leader s cmd now m

-- `topic` is `cmd.topic`.
unfoldable pub handle : Text → Command → ℕ → Exec ReplicaManager Response
unfolding handle_in
handle topic cmd now m = handle_in (get m.topics topic) cmd now m

-- The new state of a leader after a round of its loop, and the list that is reported, if it changed.
unfoldable pub put_leader :
    TopicState → ReplicaManager → Result Done × ReplicaLeader → Result Done × ReplicaManager
put_leader s m (r, l) = (r, put_state m (record s { leader = some l }))

unfoldable pub loop_by : Role → Option ReplicaLeader → TopicState → ℕ → Exec ReplicaManager Done
unfolding put_leader update_isr
loop_by Role.follower l s now m = (ok tt, m)
loop_by Role.leader none s now m = (err Error.assertion_error, m)
loop_by Role.leader (some l) s now m = put_leader s m (update_isr now l)

unfoldable pub loop_in : Option TopicState → ℕ → Exec ReplicaManager Done
unfolding loop_by
loop_in none now m = (ok tt, m)
loop_in (some s) now m = if s.running then loop_by s.role s.leader s now m else (ok tt, m)

-- A round of `_leader_loop` of a topic. The coroutine of `on_isr_change` is made and never awaited, so
-- nothing is reported.
unfoldable pub leader_loop : Text → ℕ → Exec ReplicaManager Done
unfolding loop_in
leader_loop topic now m = loop_in (get m.topics topic) now m
