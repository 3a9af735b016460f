-- ===== src/Replication/Manager/Steps.antt =====
-- replication/manager.py: the manager as a state machine.
use pylogstream.Prelude.{
  ℕ, ◌≡◌, refl, ap, ◌∙◌, sym, subst, List, [], ◌∷◌, Bool, true, false, Bool-cases, inl, inr, Option,
  none, some, Result, ok, leb_ℤ, All, text_eq, if◌then◌else◌,
}
use pylogstream.Prelude.Dict.{get}
use pylogstream.Prelude.Dict.Entries.{All-get}
use pylogstream.Prelude.Exec.{Done}
use pylogstream.Prelude.Keeps.{Preserves, >>=-Preserves}
use pylogstream.Text.{Text}
use pylogstream.Protocol.Packets.{Command, TopicMetaData}
use pylogstream.Metastore.Ring.{contains}
use pylogstream.Log.Reader.{LogState}
use pylogstream.Replication.InSync.Members.{remove_name-total}
use pylogstream.Replication.Leader.{ReplicaLeader, Served, update_isr, with_isr}
use pylogstream.Replication.Leader
use pylogstream.Replication.Leader.Static.{Static, static, handle-static, static-update_isr}
use pylogstream.Replication.Manager.{
  Role, TopicState, ReplicaManager, new_state, put_state, close_state, remove_topic, start_new,
  apply_listed, compare_meta, apply_metadata, names_of, keys, remove_missing, apply_all,
  apply_metadata_list, remove_all, close_all, put_served, handle_by, handle_in, handle, put_leader,
  loop_by, loop_in, leader_loop,
}
use pylogstream.Replication.Manager.Valid.{
  IsLed, IsServed, IsManaged, IsNew, put_state-IsManaged, remove_topic-IsManaged,
  start_topic-IsManaged, IsNew-IsServed,
}

start_new-IsManaged :
    (connect : Text → Result Done) (s : TopicState) (m : ReplicaManager)
    → IsNew m.broker_id s
    → IsManaged m
    → IsManaged (start_new connect s m).1
unfolding start_new
start_new-IsManaged connect s m n h =
    start_topic-IsManaged connect s (put_state m s) n
      (put_state-IsManaged m s (IsNew-IsServed m.broker_id s n) h)

apply_listed-IsManaged :
    (connect : Text → Result Done) (s : TopicState) (o : Option TopicState) (m : ReplicaManager)
    → IsNew m.broker_id s
    → IsManaged m
    → IsManaged (apply_listed connect s o m).1
unfolding apply_listed close_state
apply_listed-IsManaged connect s none m n h = start_new-IsManaged connect s m n h
apply_listed-IsManaged connect s (some old) m n h =
    elim (Bool-cases (leb_ℤ s.version old.version)) [
      | inl e ↦ rw e h
      | inr e ↦ elim (Bool-cases (compare_meta s old)) [
        | inl f ↦ rw (e, f) h
        | inr f ↦ rw (e, f) (start_new-IsManaged connect s (close_state old m) n h)
      ]
    ]

apply_metadata-IsManaged :
    (connect : Text → Result Done) (meta : TopicMetaData) (m : ReplicaManager)
    → IsManaged m
    → IsManaged (apply_metadata connect meta m).1
unfolding apply_metadata new_state
apply_metadata-IsManaged connect meta m h =
    elim (Bool-cases (contains m.broker_id meta.replica_list)) [
      | inl e ↦ rw e (
          apply_listed-IsManaged connect (new_state m.broker_id meta) (get m.topics meta.topic) m
            (record { member = e; no_leader = refl; no_fetcher = refl; quiet = refl }) h)
      | inr e ↦ rw e (remove_topic-IsManaged meta.topic m h)
    ]

apply_all-Preserves :
    (connect : Text → Result Done) (metas : List TopicMetaData)
    → Preserves IsManaged (apply_all connect metas)
unfolding apply_all
apply_all-Preserves connect [] = record { preserved = λ m h. h }
apply_all-Preserves connect (meta ∷ metas) =
    >>=-Preserves IsManaged (record { preserved = apply_metadata-IsManaged connect meta })
      (λ _. apply_all-Preserves connect metas)

remove_missing-IsManaged :
    (names ks : List Text) (m : ReplicaManager)
    → IsManaged m
    → IsManaged (remove_missing names ks m)
unfolding remove_missing
remove_missing-IsManaged names [] m h = h
remove_missing-IsManaged names (k ∷ ks) m h =
    remove_missing-IsManaged names ks (if contains k names then m else remove_topic k m)
      (kept_or_removed (contains k names))
  where
    kept_or_removed : (b : Bool) → IsManaged (if b then m else remove_topic k m)
    kept_or_removed true = h
    kept_or_removed false = remove_topic-IsManaged k m h

remove_all-IsManaged :
    (ks : List Text) (m : ReplicaManager) → IsManaged m → IsManaged (remove_all ks m)
unfolding remove_all
remove_all-IsManaged [] m h = h
remove_all-IsManaged (k ∷ ks) m h =
    remove_all-IsManaged ks (remove_topic k m) (remove_topic-IsManaged k m h)

module _ (m : ReplicaManager) (h : IsManaged m) (topic : Text) (s : TopicState)
    (found : get m.topics topic ≡ some s) where
  served : IsServed m.broker_id (topic, s)
  served = All-get (IsServed m.broker_id) m.topics topic s h found

  -- A leader in place of one with the same topic, id and list.
  replaced-IsManaged :
      (l new : ReplicaLeader) (log : LogState)
      → s.leader ≡ some l
      → static new ≡ static l
      → IsManaged (put_state (record m { log = log }) (record s { leader = some new }))
  replaced-IsManaged l new log e k =
      let (is_leader, kept) = subst (IsLed m.broker_id s) e served.led in
      put_state-IsManaged (record m { log = log }) (record s { leader = some new })
        (record {
          named = refl;
          member = served.member;
          led = (is_leader, k ∙ kept);
          alone = served.alone;
        })
        h

  handle_by-IsManaged :
      (role : Role) (o : Option ReplicaLeader) (cmd : Command) (now : ℕ)
      → s.leader ≡ o
      → IsManaged (handle_by role o s cmd now m).1
  unfolding handle_by put_served
  handle_by-IsManaged Role.follower o cmd now e = h
  handle_by-IsManaged Role.leader none cmd now e = h
  handle_by-IsManaged Role.leader (some l) cmd now e =
      let after = Leader.handle cmd now (l, m.log) in
      replaced-IsManaged l after.1.0 after.1.1 e (handle-static cmd now (l, m.log))

  loop_by-IsManaged :
      (role : Role) (o : Option ReplicaLeader) (now : ℕ)
      → s.leader ≡ o
      → IsManaged (loop_by role o s now m).1
  unfolding loop_by put_leader
  loop_by-IsManaged Role.follower o now e = h
  loop_by-IsManaged Role.leader none now e = h
  loop_by-IsManaged Role.leader (some l) now e =
      replaced-IsManaged l (update_isr now l).1 m.log e (static-update_isr now l)

handle-IsManaged :
    (topic : Text) (cmd : Command) (now : ℕ) (m : ReplicaManager)
    → IsManaged m
    → IsManaged (handle topic cmd now m).1
unfolding handle
handle-IsManaged topic cmd now m h = by_topic (get m.topics topic) refl
  where
    by_topic :
        (o : Option TopicState) → get m.topics topic ≡ o → IsManaged (handle_in o cmd now m).1
    by_topic none e = unfold handle_in in h
    by_topic (some s) e =
        unfold handle_in in handle_by-IsManaged m h topic s e s.role s.leader cmd now refl

leader_loop-IsManaged :
    (topic : Text) (now : ℕ) (m : ReplicaManager)
    → IsManaged m
    → IsManaged (leader_loop topic now m).1
unfolding leader_loop loop_in
leader_loop-IsManaged topic now m h = by_topic (get m.topics topic) refl
  where
    by_topic : (o : Option TopicState) → get m.topics topic ≡ o → IsManaged (loop_in o now m).1
    by_topic none e = h
    by_topic (some s) e = either s.running
      where
        either :
            (b : Bool) → IsManaged (if b then loop_by s.role s.leader s now m else (ok tt, m)).1
        either true = loop_by-IsManaged m h topic s e s.role s.leader now refl
        either false = h

-- What can happen to a manager. What else a broker does to its log is left open.
pub data Step (m : ReplicaManager) : ReplicaManager → Type 0 where
  metadata :
      (connect : Text → Result Done) (meta : TopicMetaData)
      → Step m (apply_metadata connect meta m).1
  metadata_list :
      (connect : Text → Result Done) (metas : List TopicMetaData)
      → Step m (apply_metadata_list connect metas m).1
  fetch : (topic : Text) (cmd : Command) (now : ℕ) → Step m (handle topic cmd now m).1
  round : (topic : Text) (now : ℕ) → Step m (leader_loop topic now m).1
  closed : (topic : Text) → Step m (remove_topic topic m)
  all_closed : Step m (close_all m)
  logged : (log : LogState) → Step m (record m { log = log })

pub data Reach (m : ReplicaManager) : ReplicaManager → Type 0 where
  start : m.topics ≡ [] → Reach m m
  later : {n p : ReplicaManager} → Reach m n → Step n p → Reach m p

Step-IsManaged : {m n : ReplicaManager} → Step m n → IsManaged m → IsManaged n
unfolding apply_metadata_list close_all
Step-IsManaged {m} (metadata connect meta) h = apply_metadata-IsManaged connect meta m h
Step-IsManaged {m} (metadata_list connect metas) h =
    (apply_all-Preserves connect metas).preserved
      (remove_missing (names_of metas) (keys m.topics) m)
      (remove_missing-IsManaged (names_of metas) (keys m.topics) m h)
Step-IsManaged {m} (fetch topic cmd now) h = handle-IsManaged topic cmd now m h
Step-IsManaged {m} (round topic now) h = leader_loop-IsManaged topic now m h
Step-IsManaged {m} (closed topic) h = remove_topic-IsManaged topic m h
Step-IsManaged {m} all_closed h = remove_all-IsManaged (keys m.topics) m h
Step-IsManaged (logged log) h = h

-- From a manager without topics, whatever metadata, fetches and rounds of its loops follow: every topic
-- is stored under its name and has the broker among its replicas; a state without a leader object does
-- not run; a leader object stands only where the broker leads, and is for that topic, the broker's id
-- and those replicas; and no topic has a fetcher.
pub Reach-IsManaged : {m n : ReplicaManager} → Reach m n → IsManaged n
Reach-IsManaged {m} (start e) = subst (All (IsServed m.broker_id)) (sym e) tt
Reach-IsManaged (later r st) = Step-IsManaged st (Reach-IsManaged r)

loop_by-ok :
    (m : ReplicaManager) (s : TopicState) (role : Role) (o : Option ReplicaLeader) (now : ℕ)
    → s.running ≡ true
    → contains m.broker_id s.replicas ≡ true
    → IsLed m.broker_id s o
    → (loop_by role o s now m).0 ≡ ok tt
unfolding loop_by put_leader update_isr with_isr
loop_by-ok m s Role.follower o now running member led = refl
loop_by-ok m s Role.leader none now running member led = let stopped : s.running ≡ false = led in cc
loop_by-ok m s Role.leader (some l) now running member led =
    let id : l.id ≡ m.broker_id = ap (λ (p : Static). p.1) led.1 in
    let list : l.replica_list ≡ s.replicas = ap (λ (p : Static). p.2) led.1 in
    let (others, e) =
      remove_name-total l.id l.replica_list ((λ i. contains (id i) (list i)) ∙ member) in
    rw e refl

-- In every state that a manager can get into, a round of the loop of any topic returns: the leader object
-- that it asserts is there, and finds itself among its replicas.
pub leader_loop-returns :
    {m n : ReplicaManager} (topic : Text) (now : ℕ)
    → Reach m n
    → (leader_loop topic now n).0 ≡ ok tt
unfolding leader_loop loop_in
leader_loop-returns {n} topic now r = by_topic (get n.topics topic) refl
  where
    by_topic : (o : Option TopicState) → get n.topics topic ≡ o → (loop_in o now n).0 ≡ ok tt
    by_topic none e = refl
    by_topic (some s) e = by_state s.running refl
      where
        served_here : IsServed n.broker_id (topic, s)
        served_here = served n (Reach-IsManaged r) topic s e

        by_state :
            (b : Bool)
            → s.running ≡ b
            → (if b then loop_by s.role s.leader s now n else (ok tt, n)).0 ≡ ok tt
        by_state true k = loop_by-ok n s s.role s.leader now k served_here.member served_here.led
        by_state false k = refl
