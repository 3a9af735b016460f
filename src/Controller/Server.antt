-- ===== src/Controller/Server.antt =====
-- server.py: the commands of a connection and the heartbeat check. Each method is a run of it in which no
-- other task runs while it waits for a socket; the parts between the waits (`enter`, `take_off`, a
-- deregistration, a write) are the steps of Server/Steps.antt, in any order.
pub mod Kept
pub mod Steps
use pylogstream.Prelude.{
  ℕ, zero, suc, ◌+◌, Bool, true, false, List, [], ◌∷◌, ◌++◌, Option, none, some, if◌then◌else◌, ltb,
  Result, ok, err, Error, ℤ, pos, length, text_eq,
}
use pylogstream.Prelude.Dict.{Dict, get, put, remove}
use pylogstream.Prelude.Exec.{Done, Exec, pure, raise, outside, ◌>>=◌}
use pylogstream.Text.{Text, Bytes, codes}
use pylogstream.Protocol.Packets.{Packet, Command, Response, TopicMetaData}
use pylogstream.Protocol.Encoder.Responses.{encode_response}
use pylogstream.Protocol.Parser.Commands.{parse_command}
use pylogstream.Metastore.Storage.{BrokerNode, TopicMetadata}
use pylogstream.Metastore.Manager.{
  MetastoreManager, get_topic_metadata, get_all, get_broker, register_broker, deregister_broker,
  register_topic, update_topic_isr,
}
use pylogstream.Controller.Broadcast.{
  ActiveBroker, ControllerServer, put_manager, on_manager, host_of, port_of, topic_response,
  topic_responses, list_response, record_sent, close_connection, take_off, set_active, tell_all,
  disconnect_found, disconnect_with, disconnect_each, broadcast, broadcast_metadata,
  handle_broker_disconnect,
}

unfoldable pub stale : ℕ → ℕ → Dict Text ActiveBroker → List Text
stale timeout now [] = []
stale timeout now ((broker_id, b) ∷ d) =
    let rest = stale timeout now d in
    if ltb (b.last_heartbeat + timeout) now then broker_id ∷ rest else rest

module _ (hash : Text → ℕ) (alive : ℕ → Bool) where
  -- The response goes out with the command's header.
  unfoldable pub send_response : ℕ → Option Text → Response → Exec ControllerServer Done
  unfolding record_sent encode_response
  send_response c header resp =
      let p : Packet Response = record { header = header; body = resp } in
      (do
        _ ← outside (encode_response p)
        if alive c then record_sent c p else raise Error.os_error)

  -- A registration up to where it writes its response.
  unfoldable pub enter : ℕ → ℕ → Text → Text → ℤ → Exec ControllerServer Done
  unfolding set_active on_manager register_broker
  enter c now broker_id host port = do
    _ ←
        set_active broker_id
          (record { connection = c; last_heartbeat = now; host = host; port = port })
    on_manager (λ m. (ok tt, (register_broker hash broker_id host port m).1))

  unfoldable pub register : ℕ → ℕ → Option Text → Text → Text → ℤ → Exec ControllerServer Done
  unfolding enter list_response send_response broadcast_metadata
  register c now header broker_id host port = do
    _ ← enter c now broker_id host port
    resp ← λ s. (ok (list_response s.manager), s)
    _ ← send_response c header resp
    broadcast_metadata hash alive

  unfoldable pub beat : ℕ → ℕ → Text → Option ActiveBroker → Exec ControllerServer Done
  unfolding set_active
  beat c now broker_id none = pure tt
  beat c now broker_id (some b) =
      set_active broker_id (record b { connection = c; last_heartbeat = now })

  unfoldable pub refresh : ℕ → ℕ → Text → Exec ControllerServer Done
  unfolding beat
  refresh c now broker_id s = beat c now broker_id (get s.active_brokers broker_id) s

  unfoldable pub ping : ℕ → ℕ → Option Text → Option Text → Exec ControllerServer Done
  unfolding refresh send_response
  ping c now header none = send_response c header Response.controller_ping
  ping c now header (some broker_id) = do
    _ ← refresh c now broker_id
    send_response c header Response.controller_ping

  unfoldable pub add_topic : ℕ → Option Text → Text → Exec ControllerServer Done
  unfolding on_manager register_topic topic_response send_response broadcast_metadata
  add_topic c header topic = do
    t ← on_manager (register_topic hash topic)
    resp ← λ s. (ok (topic_response s.manager t), s)
    _ ← send_response c header (Response.topic_meta_data resp)
    broadcast_metadata hash alive

  unfoldable pub metadata_response : MetastoreManager → Text → Option TopicMetadata → Response
  unfolding topic_response
  metadata_response m topic none =
      Response.error (pos 404) (codes "Topic " ++ (topic ++ codes " not found"))
  metadata_response m topic (some t) = Response.topic_meta_data (topic_response m t)

  unfoldable pub answer_metadata : ℕ → Option Text → Text → Exec ControllerServer Done
  unfolding metadata_response send_response get_topic_metadata
  answer_metadata c header topic s =
      send_response c header
        (metadata_response s.manager topic (get_topic_metadata topic s.manager)) s

  unfoldable pub change_isr : Text → List Text → Exec ControllerServer Done
  unfolding on_manager update_topic_isr
  change_isr topic isr_list = do _ ← on_manager (update_topic_isr hash topic isr_list); pure tt

  -- `broker_id` is the local variable of `handle_connection`; a registration sets it first.
  unfoldable pub broker_after : Option Text → Command → Option Text
  broker_after broker_id (Command.broker_register new host port) = some new
  broker_after broker_id cmd = broker_id

  unfoldable pub handle_command : ℕ → ℕ → Option Text → Packet Command → Exec ControllerServer Done
  unfolding register ping add_topic answer_metadata change_isr send_response
  handle_command c now broker_id p = elim p.body [
    | Command.broker_register new host port ↦ register c now p.header new host port
    | Command.controller_ping _ ↦ ping c now p.header broker_id
    | Command.register_topic topic ↦ add_topic c p.header topic
    | Command.metadata_request topic ↦ answer_metadata c p.header topic
    | Command.isr_change topic isr_list ↦ change_isr topic isr_list
    | _ ↦
        send_response c p.header (Response.error (pos 400) (codes "Invalid command for controller"))
  ]

  -- `finally`. An empty id counts as none.
  unfoldable pub finish : ℕ → Option Text → Exec ControllerServer Done
  unfolding close_connection handle_broker_disconnect
  finish c none s = (ok tt, close_connection c s)
  finish c (some []) s = (ok tt, close_connection c s)
  finish c (some (x ∷ id)) s = handle_broker_disconnect hash alive (x ∷ id) s

  -- The packets that a connection brings, each with the time, until one of them raises or the stream
  -- ends; after that the connection is finished in any case.
  unfoldable pub handle_packets : ℕ → Option Text → List (ℕ × Bytes) → Exec ControllerServer Done
  unfolding handle_command broker_after finish parse_command
  handle_packets c broker_id [] s = finish c broker_id s
  handle_packets c broker_id ((now, payload) ∷ rest) s = elim (parse_command payload false) [
    | err e ↦ finish c broker_id s
    | ok p ↦
        let q = handle_command c now broker_id p s in
        elim q.0 [
          | err e ↦ finish c (broker_after broker_id p.body) q.1
          | ok _ ↦ handle_packets c (broker_after broker_id p.body) rest q.1
        ]
  ]

  unfoldable pub disconnect_stale : List Text → Exec ControllerServer Done
  unfolding handle_broker_disconnect
  disconnect_stale [] = pure tt
  disconnect_stale (b ∷ bs) = do _ ← handle_broker_disconnect hash alive b; disconnect_stale bs

  -- A round of `_heartbeat_checker_loop`.
  unfoldable pub check_heartbeats : ℕ → Exec ControllerServer Done
  unfolding disconnect_stale stale
  check_heartbeats now s = disconnect_stale (stale s.heartbeat_timeout now s.active_brokers) s

  unfoldable pub connections : Dict Text ActiveBroker → List ℕ
  connections [] = []
  connections ((_, b) ∷ d) = b.connection ∷ connections d

  unfoldable pub close : ControllerServer → ControllerServer
  unfolding connections
  close s = record s { active_brokers = []; closed = s.closed ++ connections s.active_brokers }
