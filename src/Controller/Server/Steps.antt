-- ===== src/Controller/Server/Steps.antt =====
-- server.py: what a controller can get into when its tasks run in between one another.
use pylogstream.Prelude.{
  subst, ℕ, ◌≡◌, refl, ap, ◌∙◌, sym, ◌⊎◌, inl, inr, List, [], ◌∷◌, ◌++◌, Bool, true, false,
  Bool-cases, Option, none, some, ℤ, same, same_iff, text_eq, arith, if◌then◌else◌,
}
use pylogstream.Prelude.Dict.{get, get-remove}
use pylogstream.Text.{Text}
use pylogstream.Protocol.Packets.{Packet, Command, Response}
use pylogstream.Metastore.Ring.{contains}
use pylogstream.Metastore.Manager.{register_topic, deregister_broker}
use pylogstream.Metastore.Manager.Nodes.{register_topic-nodes, deregister_broker-nodes}
use pylogstream.Controller.Broadcast.{
  ActiveBroker, ControllerServer, put_manager, on_manager, record_sent, close_connection, take_off,
}
use pylogstream.Controller.Broadcast.Members.{is_some, IsActiveIfKnown, on_manager-Preserves}
use pylogstream.Controller.Server.{
  enter, refresh, change_isr, handle_command, finish, check_heartbeats,
}
use pylogstream.Controller.Server.Kept.{
  enter-Preserves, refresh-Preserves, change_isr-Preserves, command-Preserves, finish-Preserves,
  check_heartbeats-Safe,
}

-- The parts of the methods between their waits, and whole methods that are not interrupted. The list has
-- the brokers whose disconnection waits for the socket to close, between taking them off and
-- deregistering them.
pub data Step (hash : Text → ℕ) (alive : ℕ → Bool) (s : ControllerServer) (leaving : List Text)
    : ControllerServer → List Text → Type 0 where
  entered :
      (c now : ℕ) (id host : Text) (port : ℤ)
      → Step hash alive s leaving (enter hash alive c now id host port s).1 leaving
  refreshed :
      (c now : ℕ) (id : Text) → Step hash alive s leaving (refresh hash alive c now id s).1 leaving
  topic_added :
      (topic : Text)
      → Step hash alive s leaving (on_manager (register_topic hash topic) s).1 leaving
  isr_changed :
      (topic : Text) (isr : List Text)
      → Step hash alive s leaving (change_isr hash alive topic isr s).1 leaving
  told : (c : ℕ) (p : Packet Response) → Step hash alive s leaving (record_sent c p s).1 leaving
  closes : (c : ℕ) → Step hash alive s leaving (close_connection c s) leaving
  left :
      (id : Text) (b : ActiveBroker)
      → get s.active_brokers id ≡ some b
      → Step hash alive s leaving (take_off id b s) (id ∷ leaving)
  deregistered :
      (id : Text) (xs ys : List Text)
      → leaving ≡ xs ++ id ∷ ys
      → Step hash alive s leaving (on_manager (deregister_broker hash id) s).1 (xs ++ ys)
  command :
      (c now : ℕ) (id : Option Text) (p : Packet Command)
      → Step hash alive s leaving (handle_command hash alive c now id p s).1 leaving
  finished :
      (c : ℕ) (id : Option Text) → Step hash alive s leaving (finish hash alive c id s).1 leaving
  heartbeats : (now : ℕ) → Step hash alive s leaving (check_heartbeats hash alive now s).1 leaving

-- Which connections can be written to changes from step to step.
pub data Reach (hash : Text → ℕ) (s : ControllerServer)
    : ControllerServer → List Text → Type 0 where
  start : s.active_brokers ≡ [] → s.manager.storage.nodes ≡ [] → Reach hash s s []
  later :
      {t u : ControllerServer} {ls ms : List Text} (alive : ℕ → Bool)
      → Reach hash s t ls
      → Step hash alive t ls u ms
      → Reach hash s u ms

contains_first : (k id : Text) (ls : List Text) → same id k ≡ true → contains k (id ∷ ls) ≡ true
unfolding contains
contains_first k id ls h = ground (arith, same_iff id k, same_iff k id)

contains_later : (k id : Text) (ls : List Text) → contains k ls ≡ true → contains k (id ∷ ls) ≡ true
unfolding contains
contains_later k id ls h = ground arith

contains-remove :
    (k id : Text) (xs ys : List Text)
    → same id k ≡ false
    → contains k (xs ++ id ∷ ys) ≡ true
    → contains k (xs ++ ys) ≡ true
unfolding contains
contains-remove k id [] ys ne h = ground (arith, same_iff id k, same_iff k id)
contains-remove k id (x ∷ xs) ys ne h = elim (Bool-cases (same k x)) [
  | inl e ↦ ground arith
  | inr e ↦ let rest = contains-remove k id xs ys ne (ground arith) in ground (arith, rest)
]

module _ (hash : Text → ℕ) (k id : Text) (s : ControllerServer) where
  left-IsActiveIfKnown :
      (b : ActiveBroker) (leaving : List Text)
      → IsActiveIfKnown k leaving s
      → IsActiveIfKnown k (id ∷ leaving) (take_off id b s)
  unfolding take_off close_connection
  left-IsActiveIfKnown b leaving h known = elim (Bool-cases (same id k)) [
    | inl e ↦ inr (contains_first k id leaving e)
    | inr e ↦ elim (h known) [
      | inl active ↦ inl (ap is_some (get-remove s.active_brokers id k) ∙ rw e active)
      | inr leaves ↦ inr (contains_later k id leaving leaves)
    ]
  ]

  deregistered-IsActiveIfKnown :
      (xs ys : List Text)
      → IsActiveIfKnown k (xs ++ id ∷ ys) s
      → IsActiveIfKnown k (xs ++ ys) (on_manager (deregister_broker hash id) s).1
  unfolding on_manager put_manager
  deregistered-IsActiveIfKnown xs ys h known =
      let stays : is_some (if same id k then none else get s.manager.storage.nodes k) ≡ true =
        sym (ap is_some (get-remove s.manager.storage.nodes id k))
        ∙ sym (ap (λ d. is_some (get d k)) (deregister_broker-nodes hash id s.manager))
        ∙ known in
      other (same id k) refl stays
    where
      other :
          (t : Bool)
          → same id k ≡ t
          → is_some (if t then none else get s.manager.storage.nodes k) ≡ true
          → (is_some (get s.active_brokers k) ≡ true) ⊎ (contains k (xs ++ ys) ≡ true)
      other true e stays = cc
      other false e stays = elim (h stays) [
        | inl active ↦ inl active
        | inr leaves ↦ inr (contains-remove k id xs ys e leaves)
      ]

Step-IsActiveIfKnown :
    {hash : Text → ℕ} {alive : ℕ → Bool} {s t : ControllerServer} {ls ms : List Text} (k : Text)
    → Step hash alive s ls t ms
    → IsActiveIfKnown k ls s
    → IsActiveIfKnown k ms t
unfolding record_sent close_connection
Step-IsActiveIfKnown {hash} {alive} {s} {t} {ls} k (entered c now id host port) h =
    (enter-Preserves hash alive k ls c now id host port).preserved s h
Step-IsActiveIfKnown {hash} {alive} {s} {t} {ls} k (refreshed c now id) h =
    (refresh-Preserves hash alive k ls c now id).preserved s h
Step-IsActiveIfKnown {hash} {alive} {s} {t} {ls} k (topic_added topic) h =
    (on_manager-Preserves hash alive k ls (register_topic hash topic)
        (register_topic-nodes hash topic)).preserved
      s h
Step-IsActiveIfKnown {hash} {alive} {s} {t} {ls} k (isr_changed topic isr) h =
    (change_isr-Preserves hash alive k ls topic isr).preserved s h
Step-IsActiveIfKnown k (told c p) h = λ known. h known
Step-IsActiveIfKnown k (closes c) h = λ known. h known
Step-IsActiveIfKnown {hash} {alive} {s} {t} {ls} k (left id b e) h =
    left-IsActiveIfKnown hash k id s b ls h
Step-IsActiveIfKnown {hash} {alive} {s} k (deregistered id xs ys e) h =
    deregistered-IsActiveIfKnown hash k id s xs ys (subst (λ ls. IsActiveIfKnown k ls s) e h)
Step-IsActiveIfKnown {hash} {alive} {s} {t} {ls} k (command c now id p) h =
    (command-Preserves hash alive k ls c now id p.header p.body).preserved s h
Step-IsActiveIfKnown {hash} {alive} {s} {t} {ls} k (finished c id) h =
    (finish-Preserves hash alive k ls c id).preserved s h
Step-IsActiveIfKnown {hash} {alive} {s} {t} {ls} k (heartbeats now) h =
    check_heartbeats-Safe hash alive k ls now s h

-- However commands, registrations, disconnections and heartbeat checks, or the parts of them between their
-- waits for a socket, follow one another, and also where they raise: from a server without brokers on, a
-- broker that the metastore knows is among those that have a connection, or one of its disconnections
-- has yet to deregister it.
pub Reach-IsActiveIfKnown :
    {hash : Text → ℕ} {s t : ControllerServer} {leaving : List Text} (k : Text)
    → Reach hash s t leaving
    → IsActiveIfKnown k leaving t
unfolding get
Reach-IsActiveIfKnown k (start a n) = λ known. absurd (unknown (rw n at known))
  where
    unknown : false ≡ true → ⊥
    unknown e = cc
Reach-IsActiveIfKnown k (later alive r st) = Step-IsActiveIfKnown k st (Reach-IsActiveIfKnown k r)
