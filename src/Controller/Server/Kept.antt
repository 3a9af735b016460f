-- ===== src/Controller/Server/Kept.antt =====
-- server.py: what the methods keep, also where they raise.
use pylogstream.Prelude.{
  inl, ℕ, ◌≡◌, refl, ap, ◌∙◌, sym, List, [], ◌∷◌, Bool, true, false, Option, none, some,
  if◌then◌else◌, ℤ, pos, same, same_iff, text_eq,
}
use pylogstream.Prelude.Dict.{get, put, get-put}
use pylogstream.Prelude.Keeps.{
  if-Preserves, outside-Preserves, Preserves, >>=-Preserves, pure-Preserves,
}
use pylogstream.Text.{Text, codes}
use pylogstream.Protocol.Packets.{Packet, Command, Response}
use pylogstream.Metastore.Storage.{BrokerNode, add_node}
use pylogstream.Metastore.Manager.{
  register_broker, register_topic, update_topic_isr, get_topic_metadata,
}
use pylogstream.Metastore.Manager.Nodes.{register_topic-nodes, update_topic_isr-nodes}
use pylogstream.Controller.Broadcast.{
  ActiveBroker, ControllerServer, put_manager, on_manager, topic_response, list_response,
  close_connection, set_active,
}
use pylogstream.Protocol.Encoder.Responses.{encode_response}
use pylogstream.Controller.Server.{
  stale, send_response, enter, register, beat, refresh, ping, add_topic, metadata_response,
  answer_metadata, change_isr, handle_command, finish, disconnect_stale, check_heartbeats,
}
use pylogstream.Metastore.Ring.{contains}
use pylogstream.Controller.Broadcast.Members.{
  same-Implies, Implies, is_some, IsActiveIfKnown, on_manager-Preserves,
  broadcast_metadata-Preserves, handle_broker_disconnect-Preserves,
}

module _ (hash : Text → ℕ) (alive : ℕ → Bool) (k : Text) (leaving : List Text) where
  abbrev IsSafe : ControllerServer → Type 0
  IsSafe = IsActiveIfKnown k leaving

  added :
      {A B : Type 0} (id : Text) (a : A) (b : B) (x : Option A) (y : Option B)
      → Implies (contains k leaving ≡ true) x y
      → Implies
          (contains k leaving ≡ true)
          (if same id k then some a else x)
          (if same id k then some b else y)
  added id a b x y h = either (same id k)
    where
      either :
          (t : Bool)
          → Implies (contains k leaving ≡ true) (if t then some a else x) (if t then some b else y)
      either true = λ _. inl refl
      either false = h

  send_response-Preserves :
      (c : ℕ) (header : Option Text) (resp : Response)
      → Preserves IsSafe (send_response hash alive c header resp)
  unfolding send_response
  send_response-Preserves c header resp =
      let p : Packet Response = record { header = header; body = resp } in
      >>=-Preserves IsSafe (outside-Preserves IsSafe (encode_response p)) (λ _.
        if-Preserves IsSafe (alive c) (record { preserved = λ s h. h })
          (record { preserved = λ s h. h }))

  pub enter-Preserves :
      (c now : ℕ) (id host : Text) (port : ℤ)
      → Preserves IsSafe (enter hash alive c now id host port)
  unfolding enter set_active on_manager put_manager register_broker add_node
  enter-Preserves c now id host port = record {
    preserved = λ s h.
        let node : BrokerNode = record { node_id = id; host = host; port = port } in
        let b : ActiveBroker = record {
          connection = c;
          last_heartbeat = now;
          host = host;
          port = port;
        } in
        let x = get s.active_brokers k in
        let y = get s.manager.storage.nodes k in
        same-Implies (contains k leaving ≡ true) (if same id k then some b else x)
          (get (put s.active_brokers id b) k) (if same id k then some node else y)
          (get (put s.manager.storage.nodes id node) k)
          (sym (ap is_some (get-put s.active_brokers id k b)))
          (sym (ap is_some (get-put s.manager.storage.nodes id k node))) (added id b node x y h);
  }

  register-Preserves :
      (c now : ℕ) (header : Option Text) (id host : Text) (port : ℤ)
      → Preserves IsSafe (register hash alive c now header id host port)
  unfolding register enter set_active on_manager put_manager
  register-Preserves c now header id host port = record {
    preserved = λ s h.
        let t = (enter hash alive c now id host port s).1 in
        (>>=-Preserves IsSafe (send_response-Preserves c header (list_response t.manager))
            (λ _. broadcast_metadata-Preserves hash alive k leaving)).preserved
          t ((enter-Preserves c now id host port).preserved s h);
  }

  beat-Safe :
      (c now : ℕ) (id : Text) (o : Option ActiveBroker) (s : ControllerServer)
      → get s.active_brokers id ≡ o
      → IsSafe s
      → IsSafe (beat hash alive c now id o s).1
  unfolding beat set_active
  beat-Safe c now id none s e h = h
  beat-Safe c now id (some b) s e h =
      let y = get s.manager.storage.nodes k in
      same-Implies (contains k leaving ≡ true) (get s.active_brokers k)
        (get (put s.active_brokers id new) k) y y
        (sym (ap is_some (get-put s.active_brokers id k new) ∙ either (same id k) refl)) refl h
    where
      new : ActiveBroker
      new = record b { connection = c; last_heartbeat = now }

      either :
          (t : Bool)
          → same id k ≡ t
          → is_some (if t then some new else get s.active_brokers k)
            ≡ is_some (get s.active_brokers k)
      either true q = sym (ap is_some (ap (get s.active_brokers) (sym ((same_iff id k).0 q)) ∙ e))
      either false q = refl

  pub refresh-Preserves : (c now : ℕ) (id : Text) → Preserves IsSafe (refresh hash alive c now id)
  unfolding refresh
  refresh-Preserves c now id = record {
    preserved = λ s h. beat-Safe c now id (get s.active_brokers id) s refl h;
  }

  ping-Preserves :
      (c now : ℕ) (header id : Option Text) → Preserves IsSafe (ping hash alive c now header id)
  unfolding ping
  ping-Preserves c now header none = send_response-Preserves c header Response.controller_ping
  ping-Preserves c now header (some id) =
      >>=-Preserves IsSafe (refresh-Preserves c now id)
        (λ _. send_response-Preserves c header Response.controller_ping)

  pub change_isr-Preserves :
      (topic : Text) (isr : List Text) → Preserves IsSafe (change_isr hash alive topic isr)
  unfolding change_isr
  change_isr-Preserves topic isr =
      >>=-Preserves IsSafe
        (on_manager-Preserves hash alive k leaving (update_topic_isr hash topic isr)
          (update_topic_isr-nodes hash topic isr))
        (λ _. pure-Preserves IsSafe tt)

  add_topic-Preserves :
      (c : ℕ) (header : Option Text) (topic : Text)
      → Preserves IsSafe (add_topic hash alive c header topic)
  unfolding add_topic
  add_topic-Preserves c header topic =
      >>=-Preserves IsSafe
        (on_manager-Preserves hash alive k leaving (register_topic hash topic)
          (register_topic-nodes hash topic))
        (λ t. record {
          preserved = λ s h.
              (>>=-Preserves IsSafe
                  (send_response-Preserves c header
                    (Response.topic_meta_data (topic_response s.manager t)))
                  (λ _. broadcast_metadata-Preserves hash alive k leaving)).preserved
                s h;
        })

  answer_metadata-Preserves :
      (c : ℕ) (header : Option Text) (topic : Text)
      → Preserves IsSafe (answer_metadata hash alive c header topic)
  unfolding answer_metadata
  answer_metadata-Preserves c header topic = record {
    preserved = λ s h.
        (send_response-Preserves c header (
            metadata_response hash alive s.manager topic
              (get_topic_metadata topic s.manager))).preserved
          s h;
  }

  pub command-Preserves :
      (c now : ℕ) (id header : Option Text) (cmd : Command)
      → Preserves IsSafe
          (handle_command hash alive c now id (record { header = header; body = cmd }))
  unfolding handle_command
  command-Preserves c now id header (Command.broker_register new host port) =
      register-Preserves c now header new host port
  command-Preserves c now id header (Command.controller_ping _) = ping-Preserves c now header id
  command-Preserves c now id header (Command.register_topic topic) =
      add_topic-Preserves c header topic
  command-Preserves c now id header (Command.metadata_request topic) =
      answer_metadata-Preserves c header topic
  command-Preserves c now id header (Command.isr_change topic isr) = change_isr-Preserves topic isr
  command-Preserves c now id header _ =
      send_response-Preserves c header
        (Response.error (pos 400) (codes "Invalid command for controller"))

  pub finish-Preserves : (c : ℕ) (id : Option Text) → Preserves IsSafe (finish hash alive c id)
  unfolding finish close_connection
  finish-Preserves c none = record { preserved = λ s h. h }
  finish-Preserves c (some []) = record { preserved = λ s h. h }
  finish-Preserves c (some (x ∷ id)) = record {
    preserved =
        λ s h. (handle_broker_disconnect-Preserves hash alive k leaving (x ∷ id)).preserved s h;
  }

  disconnect_stale-Preserves :
      (ids : List Text) → Preserves IsSafe (disconnect_stale hash alive ids)
  unfolding disconnect_stale
  disconnect_stale-Preserves [] = pure-Preserves IsSafe tt
  disconnect_stale-Preserves (id ∷ ids) =
      >>=-Preserves IsSafe (handle_broker_disconnect-Preserves hash alive k leaving id)
        (λ _. disconnect_stale-Preserves ids)

  pub check_heartbeats-Safe :
      (now : ℕ) (s : ControllerServer) → IsSafe s → IsSafe (check_heartbeats hash alive now s).1
  unfolding check_heartbeats
  check_heartbeats-Safe now s h =
      (disconnect_stale-Preserves (stale s.heartbeat_timeout now s.active_brokers)).preserved s h
