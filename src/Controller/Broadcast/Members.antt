-- ===== src/Controller/Broadcast/Members.antt =====
-- server.py: a broker that the metastore knows has a connection, or is being disconnected.
use pylogstream.Prelude.{
  ◌⊎◌, ℕ, suc, zero, ◌≡◌, ap, ◌∙◌, sym, List, [], ◌∷◌, Bool, true, false, Option, none, some,
  if◌then◌else◌, Result, ok, err, length, same, text_eq, inl, inr,
}
use pylogstream.Prelude.Dict.{Dict, get, remove, get-remove}
use pylogstream.Metastore.Ring.{contains}
use pylogstream.Prelude.Exec.{Exec, Done, resume}
use pylogstream.Prelude.Keeps.{
  Preserves, >>=-Preserves, if-Preserves, outside-Preserves, pure-Preserves,
}
use pylogstream.Text.{Text}
use pylogstream.Protocol.Packets.{Packet, Response}
use pylogstream.Protocol.Encoder.Responses.{encode_response}
use pylogstream.Metastore.Storage.{BrokerNode}
use pylogstream.Metastore.Manager.{MetastoreManager, deregister_broker}
use pylogstream.Metastore.Manager.Nodes.{nodes_of, deregister_broker-nodes}
use pylogstream.Controller.Broadcast.{
  ActiveBroker, ControllerServer, put_manager, on_manager, list_response, record_sent,
  close_connection, take_off, tell_all, disconnect_found, disconnect_with, disconnect_each,
  broadcast, broadcast_metadata, handle_broker_disconnect,
}

false-ne-true : false ≡ true → ⊥
false-ne-true e = cc

abbrev pub is_some {ℓ} : {A : Type ℓ} → Option A → Bool
is_some none = false
is_some (some _) = true

-- Where `y` is there, `x` is there, or `Q` holds.
abbrev pub Implies : {A B : Type 0} → Type 0 → Option A → Option B → Type 0
Implies Q x y = is_some y ≡ true → (is_some x ≡ true) ⊎ Q

-- The ids in `leaving` are those of brokers whose disconnection has taken them off, and has yet to
-- deregister them.
abbrev pub IsActiveIfKnown : Text → List Text → ControllerServer → Type 0
IsActiveIfKnown k leaving s =
    is_some (get s.manager.storage.nodes k) ≡ true
    → (is_some (get s.active_brokers k) ≡ true) ⊎ (contains k leaving ≡ true)

pub same-Implies :
    {A B C D : Type 0} (Q : Type 0) (x : Option A) (x' : Option B) (y : Option C) (y' : Option D)
    → is_some x ≡ is_some x'
    → is_some y ≡ is_some y'
    → Implies Q x y
    → Implies Q x' y'
same-Implies Q x x' y y' p q h =
    λ known. elim (h (q ∙ known)) [ inl active ↦ inl (sym p ∙ active) | inr leaves ↦ inr leaves ]

module _ (hash : Text → ℕ) (alive : ℕ → Bool) (k : Text) (leaving : List Text) where
  abbrev pub Safe : ControllerServer → Type 0
  Safe = IsActiveIfKnown k leaving

  abbrev pub PreservesSafe : {A : Type 0} → Exec ControllerServer A → Type 0
  PreservesSafe = Preserves Safe

  record_sent-Preserves : (c : ℕ) (p : Packet Response) → PreservesSafe (record_sent c p)
  unfolding record_sent
  record_sent-Preserves c p = record { preserved = λ s h. h }

  tell_all-Preserves :
      (p : Packet Response) (d : Dict Text ActiveBroker) → PreservesSafe (tell_all hash alive p d)
  unfolding tell_all
  tell_all-Preserves p [] = pure-Preserves Safe []
  tell_all-Preserves p ((id, b) ∷ d) =
      if-Preserves Safe (alive b.connection)
        (>>=-Preserves Safe (record_sent-Preserves b.connection p) (λ _. tell_all-Preserves p d))
        (>>=-Preserves Safe (tell_all-Preserves p d) (λ dead. pure-Preserves Safe (id ∷ dead)))

  -- A manager's method that keeps the brokers.
  pub on_manager-Preserves :
      {A : Type 0} (f : Exec MetastoreManager A)
      → ((m : MetastoreManager) → nodes_of (f m).1 ≡ nodes_of m)
      → PreservesSafe (on_manager f)
  unfolding on_manager put_manager
  on_manager-Preserves f e = record {
    preserved = λ s h known. h (ap (λ d. is_some (get d k)) (sym (e s.manager)) ∙ known);
  }

  removed :
      (id : Text) (x : Option ActiveBroker) (y : Option BrokerNode)
      → Implies (contains k leaving ≡ true) x y
      → Implies
          (contains k leaving ≡ true)
          (if same id k then none else x)
          (if same id k then none else y)
  removed id x y h = either (same id k)
    where
      either :
          (b : Bool)
          → Implies (contains k leaving ≡ true) (if b then none else x) (if b then none else y)
      either true = λ known. absurd (false-ne-true known)
      either false = h

  deregistered-Safe :
      (id : Text) (b : ActiveBroker) (s : ControllerServer)
      → Safe s
      → Safe (on_manager (deregister_broker hash id) (take_off id b s)).1
  unfolding on_manager put_manager take_off close_connection
  deregistered-Safe id b s h =
      let x = get s.active_brokers k in
      let y = get s.manager.storage.nodes k in
      let x' = get (remove s.active_brokers id) k in
      let y' = get (nodes_of (deregister_broker hash id s.manager).1) k in
      same-Implies (contains k leaving ≡ true) (if same id k then none else x) x'
        (if same id k then none else y) y' (sym (ap is_some (get-remove s.active_brokers id k)))
        (sym (
          ap (λ d. is_some (get d k)) (deregister_broker-nodes hash id s.manager)
          ∙ ap is_some (get-remove s.manager.storage.nodes id k)))
        (removed id x y h)

  module _ (again : Exec ControllerServer Done) (kept : PreservesSafe again) where
    disconnect_found-Safe :
        (id : Text) (o : Option ActiveBroker) (s : ControllerServer)
        → Safe s
        → Safe (disconnect_found hash alive again id o s).1
    unfolding disconnect_found
    disconnect_found-Safe id none s h = h
    disconnect_found-Safe id (some b) s h =
        after (on_manager (deregister_broker hash id) (take_off id b s)).0
          (deregistered-Safe id b s h)
      where
        after :
            {A : Type 0} (r : Result A)
            → Safe (on_manager (deregister_broker hash id) (take_off id b s)).1
            → Safe
                (resume r
                  (λ _. again)
                  (on_manager (deregister_broker hash id) (take_off id b s)).1).1
        after (err e) g = g
        after (ok _) g = kept.preserved _ g

    disconnect_with-Preserves : (id : Text) → PreservesSafe (disconnect_with hash alive again id)
    unfolding disconnect_with
    disconnect_with-Preserves id = record {
      preserved = λ s h. disconnect_found-Safe id (get s.active_brokers id) s h;
    }

    disconnect_each-Preserves :
        (ids : List Text) → PreservesSafe (disconnect_each hash alive again ids)
    unfolding disconnect_each
    disconnect_each-Preserves [] = pure-Preserves Safe tt
    disconnect_each-Preserves (id ∷ ids) =
        >>=-Preserves Safe (disconnect_with-Preserves id) (λ _. disconnect_each-Preserves ids)

  broadcast-Preserves : (fuel : ℕ) → PreservesSafe (broadcast hash alive fuel)
  unfolding broadcast
  broadcast-Preserves zero = record { preserved = λ s h. h }
  broadcast-Preserves (suc fuel) = record {
    preserved = λ s h.
        let p : Packet Response = record { header = none; body = list_response s.manager } in
        (>>=-Preserves Safe (outside-Preserves Safe (encode_response p)) (λ _.
            >>=-Preserves Safe (tell_all-Preserves p s.active_brokers) (λ dead.
              disconnect_each-Preserves (broadcast hash alive fuel) (broadcast-Preserves fuel)
                dead))).preserved
          s h;
  }

  pub broadcast_metadata-Preserves : PreservesSafe (broadcast_metadata hash alive)
  unfolding broadcast_metadata
  broadcast_metadata-Preserves = record {
    preserved = λ s h. (broadcast-Preserves (suc (length s.active_brokers))).preserved s h;
  }

  pub handle_broker_disconnect-Preserves :
      (id : Text) → PreservesSafe (handle_broker_disconnect hash alive id)
  unfolding handle_broker_disconnect
  handle_broker_disconnect-Preserves id = record {
    preserved = λ s h.
        let fuel = suc (length s.active_brokers) in
        (disconnect_with-Preserves (broadcast hash alive fuel) (broadcast-Preserves fuel)
            id).preserved
          s h;
  }
