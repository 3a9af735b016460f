-- ===== src/Replication/Manager/Valid.antt =====
-- replication/manager.py: what holds of a broker's topics, whatever metadata arrive.
use pylogstream.Prelude.{
  subst, ◌≡◌, refl, sym, true, false, Option, none, some, Result, ok, err, All, text_eq,
}
use pylogstream.Prelude.Dict.{get}
use pylogstream.Prelude.Dict.Entries.{All-put, All-remove}
use pylogstream.Prelude.Exec.{Done, resume}
use pylogstream.Text.{Text}
use pylogstream.Metastore.Ring.{contains}
use pylogstream.Log.Reader.{LogState}
use pylogstream.Log.Manager.{create_topic}
use pylogstream.Replication.Fetcher.{new_fetcher}
use pylogstream.Replication.Leader.{ReplicaLeader, new_leader}
use pylogstream.Replication.Leader.Static.{static, new_leader-static}
use pylogstream.Replication.Manager.{
  Role, TopicState, ReplicaManager, put_state, put_log, on_log, close_state, remove_found,
  remove_topic, lead, follow, start_role, start_topic,
}

-- A state without a leader does not run; a leader is this broker's, for the state's topic and replicas.
abbrev pub IsLed : Text → TopicState → Option ReplicaLeader → Type 0
IsLed broker_id s none = s.running ≡ false
IsLed broker_id s (some l) = (s.role ≡ Role.leader) × (static l ≡ (s.topic, broker_id, s.replicas))

-- The broker is one of the topic's replicas, and nothing is fetched.
pub record IsServed (broker_id : Text) (p : Text × TopicState) : Type 0 where
  pub named : p.1.topic ≡ p.0
  pub member : contains broker_id p.1.replicas ≡ true
  pub led : IsLed broker_id p.1 p.1.leader
  pub alone : p.1.fetcher ≡ none

abbrev pub IsManaged : ReplicaManager → Type 0
IsManaged m = All (IsServed m.broker_id) m.topics

pub put_state-IsManaged :
    (m : ReplicaManager) (s : TopicState)
    → IsServed m.broker_id (s.topic, s)
    → IsManaged m
    → IsManaged (put_state m s)
put_state-IsManaged m s p h = All-put (IsServed m.broker_id) m.topics s.topic s p h

remove_found-IsManaged :
    (topic : Text) (o : Option TopicState) (m : ReplicaManager)
    → IsManaged m
    → IsManaged (remove_found topic o m)
unfolding remove_found close_state
remove_found-IsManaged topic none m h = h
remove_found-IsManaged topic (some s) m h = All-remove (IsServed m.broker_id) m.topics topic h

pub remove_topic-IsManaged :
    (topic : Text) (m : ReplicaManager) → IsManaged m → IsManaged (remove_topic topic m)
unfolding remove_topic
remove_topic-IsManaged topic m h = remove_found-IsManaged topic (get m.topics topic) m h

-- A state as it is made from metadata: nothing has been started.
pub record IsNew (broker_id : Text) (s : TopicState) : Type 0 where
  pub member : contains broker_id s.replicas ≡ true
  pub no_leader : s.leader ≡ none
  pub no_fetcher : s.fetcher ≡ none
  pub quiet : s.running ≡ false

pub IsNew-IsServed :
    (broker_id : Text) (s : TopicState) → IsNew broker_id s → IsServed broker_id (s.topic, s)
IsNew-IsServed broker_id s n = record {
  named = refl;
  member = n.member;
  led = subst (IsLed broker_id s) (sym n.no_leader) n.quiet;
  alone = n.no_fetcher;
}

lead-IsManaged :
    (s : TopicState) (m : ReplicaManager)
    → s.role ≡ Role.leader
    → IsNew m.broker_id s
    → IsManaged m
    → IsManaged (lead s m).1
unfolding lead
lead-IsManaged s m e n h =
    by_leader (new_leader s.topic m.broker_id s.replicas m.min_isr_count m.max_isr_lag_ms m.log)
      (λ l q.
        new_leader-static s.topic m.broker_id s.replicas m.min_isr_count m.max_isr_lag_ms m.log l q)
  where
    by_leader :
        (r : Result ReplicaLeader)
        → ((l : ReplicaLeader) → r ≡ ok l → static l ≡ (s.topic, m.broker_id, s.replicas))
        → IsManaged
            (resume r
              (λ l k. (
                ok tt,
                put_state k (record s { leader = some l; running = true; loop_task = true }),
              ))
              m).1
    by_leader (err x) f = h
    by_leader (ok l) f =
        put_state-IsManaged m (record s { leader = some l; running = true; loop_task = true })
          (record { named = refl; member = n.member; led = (e, f l refl); alone = n.no_fetcher }) h

-- Whatever comes of the connection, there is no fetcher.
follow-IsManaged :
    (s : TopicState) (m : ReplicaManager) (topic : Text) (c : Result Done) (log : LogState)
    → IsManaged m
    → IsManaged (follow s (new_fetcher topic m.broker_id c log) m).1
unfolding follow new_fetcher
follow-IsManaged s m topic (err e) log h = h
follow-IsManaged s m topic (ok d) log h = h

start_role-IsManaged :
    (role : Role) (connect : Text → Result Done) (s : TopicState) (m : ReplicaManager)
    → s.role ≡ role
    → IsNew m.broker_id s
    → IsManaged m
    → IsManaged (start_role role connect s m).1
unfolding start_role
start_role-IsManaged Role.leader connect s m e n h = lead-IsManaged s m e n h
start_role-IsManaged Role.follower connect s m e n h =
    follow-IsManaged s m s.topic (connect s.topic) m.log h

pub start_topic-IsManaged :
    (connect : Text → Result Done) (s : TopicState) (m : ReplicaManager)
    → IsNew m.broker_id s
    → IsManaged m
    → IsManaged (start_topic connect s m).1
unfolding start_topic on_log put_log
start_topic-IsManaged connect s m n h = by_log (create_topic s.topic m.log)
  where
    by_log :
        (p : Result Done × LogState)
        → IsManaged (resume p.0 (λ _. start_role s.role connect s) (record m { log = p.1 })).1
    by_log (err e, log) = h
    by_log (ok d, log) = start_role-IsManaged s.role connect s (record m { log = log }) refl n h
