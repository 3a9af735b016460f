-- ===== src/Replication/Manager/View.antt =====
-- replication/manager.py: what the manager makes of metadata, against a map from topics to metadata.
use pylogstream.Prelude.{
  ◌≡◌, refl, ap, not, [], ◌∷◌, ◌∙◌, subst, List, Bool, true, false, Option, none, some, Result, ok,
  err, ℤ, leb_ℤ, same, text_eq, if◌then◌else◌, ◌&&◌, eqb_ℤ,
}
use pylogstream.Prelude.Dict.{get, put, get-put, get-put_self}
use pylogstream.Prelude.Exec.{Done, resume}
use pylogstream.Text.{Text}
use pylogstream.Protocol.Packets.{TopicMetaData}
use pylogstream.Metastore.Ring.{contains}
use pylogstream.Log.Reader.{LogState}
use pylogstream.Log.Manager.{create_topic}
use pylogstream.Replication.Fetcher.{ReplicaFetcher, new_fetcher}
use pylogstream.Replication.Leader.{ReplicaLeader, new_leader}
use pylogstream.Replication.Manager.{
  Role, TopicState, ReplicaManager, new_state, put_state, put_log, on_log, same_role, same_set,
  all_in, compare_meta, role_of, lead, follow, start_role, start_topic, start_new,
}

-- A topic's metadata, as a state keeps them.
pub record Meta : Type 0 where
  pub topic : Text
  pub role : Role
  pub leader_id : Text
  pub leader_addr : Text
  pub leader_port : ℤ
  pub replicas : List Text
  pub version : ℤ

abbrev pub meta_of : TopicState → Meta
meta_of s = record {
  topic = s.topic;
  role = s.role;
  leader_id = s.leader_id;
  leader_addr = s.leader_addr;
  leader_port = s.leader_port;
  replicas = s.replicas;
  version = s.version;
}

abbrev pub meta_in : Option TopicState → Option Meta
meta_in none = none
meta_in (some s) = some (meta_of s)

abbrev pub view : ReplicaManager → Text → Option Meta
view m k = meta_in (get m.topics k)

-- A topic's metadata as the broker with this id is to keep them.
abbrev pub meant : Text → TopicMetaData → Meta
meant broker_id meta = record {
  topic = meta.topic;
  role = if same meta.leader_id broker_id then Role.leader else Role.follower;
  leader_id = meta.leader_id;
  leader_addr = meta.leader_addr;
  leader_port = meta.leader_port;
  replicas = meta.replica_list;
  version = meta.version;
}

abbrev pub is_leader : Role → Bool
is_leader Role.leader = true
is_leader Role.follower = false

abbrev pub equal : Bool → Bool → Bool
equal true b = b
equal false b = not b

-- Every replica of the first list is in the second.
abbrev pub is_covered : List Text → List Text → Bool
is_covered [] ys = true
is_covered (x ∷ xs) ys = contains x ys && is_covered xs ys

-- The same but for the version, and the order and repetition of the replicas.
abbrev pub same_meta : Meta → Meta → Bool
same_meta a b =
    same a.topic b.topic
    && equal (is_leader a.role) (is_leader b.role)
    && same a.leader_id b.leader_id
    && same a.leader_addr b.leader_addr
    && eqb_ℤ a.leader_port b.leader_port
    && (is_covered a.replicas b.replicas && is_covered b.replicas a.replicas)

all_in-is_covered : (xs ys : List Text) → all_in xs ys ≡ is_covered xs ys
unfolding all_in
all_in-is_covered [] ys = refl
all_in-is_covered (x ∷ xs) ys = ap (λ b. contains x ys && b) (all_in-is_covered xs ys)

same_role-equal : (a b : Role) → same_role a b ≡ equal (is_leader a) (is_leader b)
unfolding same_role
same_role-equal Role.leader Role.leader = refl
same_role-equal Role.leader Role.follower = refl
same_role-equal Role.follower Role.leader = refl
same_role-equal Role.follower Role.follower = refl

pub compare_meta-same_meta :
    (s other : TopicState) → compare_meta s other ≡ same_meta (meta_of s) (meta_of other)
unfolding compare_meta same_set
compare_meta-same_meta s other =
    rw
      (
        same_role-equal s.role other.role,
        all_in-is_covered s.replicas other.replicas,
        all_in-is_covered other.replicas s.replicas,
      )
      refl

role_of-if : (b : Bool) → role_of b ≡ (if b then Role.leader else Role.follower)
unfolding role_of
role_of-if true = refl
role_of-if false = refl

pub meta_of-new_state :
    (broker_id : Text) (meta : TopicMetaData)
    → meta_of (new_state broker_id meta) ≡ meant broker_id meta
unfolding new_state
meta_of-new_state broker_id meta =
    ap (λ r. record (meant broker_id meta) { role = r })
      (role_of-if (same meta.leader_id broker_id))

abbrev pub newer : Meta → Option Meta → Meta
newer new none = new
newer new (some old) =
    if leb_ℤ new.version old.version then old else if same_meta new old then old else new

-- The map after metadata for a topic: without the topic, where this broker is none of its replicas; or
-- with the new metadata, where they have a higher version and differ in more than that.
abbrev pub spec : Text → TopicMetaData → (Text → Option Meta) → Text → Option Meta
spec broker_id meta before k =
    if same meta.topic k
    then (if contains broker_id meta.replica_list
        then some (newer (meant broker_id meta) (before k))
        else none)
    else before k

-- A topic's entry, as it stays while a state with metadata `x` is started.
pub record Holds (x : Meta) (other : Text → Option TopicState) (m : ReplicaManager) : Type 0 where
  pub own : (s : TopicState) × (get m.topics x.topic ≡ some s) × (meta_of s ≡ x)
  pub others : (k : Text) → same x.topic k ≡ false → get m.topics k ≡ other k

put_state-Holds :
    (x : Meta) (other : Text → Option TopicState) (m : ReplicaManager) (s : TopicState)
    → meta_of s ≡ x
    → ((k : Text) → same x.topic k ≡ false → get m.topics k ≡ other k)
    → Holds x other (put_state m s)
put_state-Holds x other m s e f =
    let named : s.topic ≡ x.topic = ap (λ (y : Meta). y.topic) e in
    record {
      own = (
        s,
        subst (λ t. get (put m.topics s.topic s) t ≡ some s) named
            (get-put_self m.topics s.topic s),
        e,
      );
      others = λ k n.
          get-put m.topics s.topic k s
          ∙ ap (λ b. if b then some s else get m.topics k) (ap (λ t. same t k) named ∙ n)
          ∙ f k n;
    }

module _ (other : Text → Option TopicState) (s : TopicState) where
  lead-Holds :
      (m : ReplicaManager) → Holds (meta_of s) other m → Holds (meta_of s) other (lead s m).1
  unfolding lead
  lead-Holds m h =
      by_leader (new_leader s.topic m.broker_id s.replicas m.min_isr_count m.max_isr_lag_ms m.log)
    where
      by_leader :
          (r : Result ReplicaLeader)
          → Holds
              (meta_of s)
              other
              (resume r
                (λ l k. (
                  ok tt,
                  put_state k (record s { leader = some l; running = true; loop_task = true }),
                ))
                m).1
      by_leader (err x) = h
      by_leader (ok l) =
          put_state-Holds (meta_of s) other m
            (record s { leader = some l; running = true; loop_task = true }) refl h.others

  follow-Holds :
      (m : ReplicaManager) (r : Result ReplicaFetcher)
      → Holds (meta_of s) other m
      → Holds (meta_of s) other (follow s r m).1
  unfolding follow
  follow-Holds m (err e) h = h
  follow-Holds m (ok f) h =
      put_state-Holds (meta_of s) other m (record s { fetcher = some f; running = true }) refl
        h.others

  start_role-Holds :
      (role : Role) (connect : Text → Result Done) (m : ReplicaManager)
      → Holds (meta_of s) other m
      → Holds (meta_of s) other (start_role role connect s m).1
  unfolding start_role
  start_role-Holds Role.leader connect m h = lead-Holds m h
  start_role-Holds Role.follower connect m h =
      follow-Holds m (new_fetcher s.topic m.broker_id (connect s.topic) m.log) h

  start_topic-Holds :
      (connect : Text → Result Done) (m : ReplicaManager)
      → Holds (meta_of s) other m
      → Holds (meta_of s) other (start_topic connect s m).1
  unfolding start_topic on_log put_log
  start_topic-Holds connect m h = by_log (create_topic s.topic m.log)
    where
      by_log :
          (p : Result Done × LogState)
          → Holds
              (meta_of s)
              other
              (resume p.0 (λ _. start_role s.role connect s) (record m { log = p.1 })).1
      by_log (err e, log) = record { own = h.own; others = h.others }
      by_log (ok d, log) =
          start_role-Holds s.role connect (record m { log = log })
            (record { own = h.own; others = h.others })

pub start_new-Holds :
    (connect : Text → Result Done) (s : TopicState) (m : ReplicaManager)
    → Holds (meta_of s) (get m.topics) (start_new connect s m).1
unfolding start_new
start_new-Holds connect s m =
    start_topic-Holds (get m.topics) s connect (put_state m s)
      (put_state-Holds (meta_of s) (get m.topics) m s refl (λ k n. refl))
