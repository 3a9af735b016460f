-- ===== src/Controller/Broadcast.antt =====
-- server.py: the state of the controller's server, and how it tells its brokers. There is no ZooKeeper:
-- the server is the leader, and its metastore is in memory. A connection is a number, and `alive` tells
-- whether writing to one succeeds; `hash` is the ring's.
pub mod Members
pub mod Reached
use pylogstream.Prelude.{
  ℕ, zero, suc, ◌+◌, Bool, true, false, List, [], ◌∷◌, ◌++◌, Option, none, some, if◌then◌else◌, ltb,
  Result, ok, err, Error, ℤ, pos, length, text_eq,
}
use pylogstream.Prelude.Dict.{Dict, get, put, remove}
use pylogstream.Prelude.Exec.{Done, Exec, pure, raise, outside, ◌>>=◌}
use pylogstream.Text.{Text, Bytes, codes}
use pylogstream.Protocol.Packets.{Packet, Command, Response, TopicMetaData}
use pylogstream.Protocol.Encoder.Responses.{encode_response}
use pylogstream.Protocol.Parser.Commands.{parse_command}
use pylogstream.Metastore.Storage.{BrokerNode, TopicMetadata}
use pylogstream.Metastore.Manager.{
  MetastoreManager, get_topic_metadata, get_all, get_broker, register_broker, deregister_broker,
  register_topic, update_topic_isr,
}

-- The tuple that `active_brokers` has for a broker.
pub record ActiveBroker : Type 0 where
  pub connection : ℕ
  pub last_heartbeat : ℕ
  pub host : Text
  pub port : ℤ

-- `sent` is what was written, with the connection, and `closed` the connections that were closed.
pub record ControllerServer : Type 0 where
  pub heartbeat_timeout : ℕ
  pub manager : MetastoreManager
  pub active_brokers : Dict Text ActiveBroker
  pub sent : List (ℕ × Packet Response)
  pub closed : List ℕ

unfoldable pub put_manager :
    {A : Type 0} → ControllerServer → Result A × MetastoreManager → Result A × ControllerServer
put_manager s (r, m) = (r, record s { manager = m })

unfoldable pub on_manager : {A : Type 0} → Exec MetastoreManager A → Exec ControllerServer A
unfolding put_manager
on_manager f s = put_manager s (f s.manager)

unfoldable pub host_of : Option BrokerNode → Text
host_of none = codes "0.0.0.0"
host_of (some node) = node.host

unfoldable pub port_of : Option BrokerNode → ℤ
port_of none = pos 0
port_of (some node) = node.port

unfoldable pub topic_response : MetastoreManager → TopicMetadata → TopicMetaData
unfolding get_broker host_of port_of
topic_response m t =
    let node = get_broker t.leader_id m in
    record {
      topic = t.topic;
      leader_id = t.leader_id;
      leader_addr = host_of node;
      leader_port = port_of node;
      replica_list = t.replica_list;
      version = pos t.version;
    }

unfoldable pub topic_responses : MetastoreManager → List TopicMetadata → List TopicMetaData
unfolding topic_response
topic_responses m [] = []
topic_responses m (t ∷ ts) = topic_response m t ∷ topic_responses m ts

unfoldable pub list_response : MetastoreManager → Response
unfolding topic_responses get_all
list_response m = Response.topic_meta_data_list (topic_responses m (get_all m))

unfoldable pub record_sent : ℕ → Packet Response → Exec ControllerServer Done
record_sent c p s = (ok tt, record s { sent = s.sent ++ (c, p) ∷ [] })

unfoldable pub close_connection : ℕ → ControllerServer → ControllerServer
close_connection c s = record s { closed = s.closed ++ c ∷ [] }

unfoldable pub take_off : Text → ActiveBroker → ControllerServer → ControllerServer
unfolding close_connection
take_off broker_id b s =
    close_connection b.connection (record s { active_brokers = remove s.active_brokers broker_id })

unfoldable pub set_active : Text → ActiveBroker → Exec ControllerServer Done
set_active broker_id b s = (ok tt, record s { active_brokers = put s.active_brokers broker_id b })

module _ (hash : Text → ℕ) (alive : ℕ → Bool) where
  -- The loop of `broadcast_metadata`: to every connection that can be written to, and the other brokers.
  unfoldable pub tell_all :
      Packet Response → Dict Text ActiveBroker → Exec ControllerServer (List Text)
  unfolding record_sent
  tell_all p [] = pure []
  tell_all p ((broker_id, b) ∷ d) =
      let told = (do _ ← record_sent b.connection p; tell_all p d) in
      let untold = (do dead ← tell_all p d; pure (broker_id ∷ dead)) in
      if alive b.connection then told else untold

  -- `again` is the broadcast that follows.
  unfoldable pub disconnect_found :
      Exec ControllerServer Done → Text → Option ActiveBroker → Exec ControllerServer Done
  unfolding take_off on_manager deregister_broker
  disconnect_found again broker_id none s = (ok tt, s)
  disconnect_found again broker_id (some b) s =
      (do _ ← on_manager (deregister_broker hash broker_id); again) (take_off broker_id b s)

  unfoldable pub disconnect_with : Exec ControllerServer Done → Text → Exec ControllerServer Done
  unfolding disconnect_found
  disconnect_with again broker_id s =
      disconnect_found again broker_id (get s.active_brokers broker_id) s

  unfoldable pub disconnect_each :
      Exec ControllerServer Done → List Text → Exec ControllerServer Done
  unfolding disconnect_with
  disconnect_each again [] = pure tt
  disconnect_each again (broker_id ∷ ids) = do
    _ ← disconnect_with again broker_id
    disconnect_each again ids

  -- A broadcast disconnects the brokers that it does not reach, and each disconnection broadcasts again.
  -- The fuel is how deep this goes.
  unfoldable pub broadcast : ℕ → Exec ControllerServer Done
  unfolding list_response tell_all disconnect_each encode_response
  broadcast zero s = (ok tt, s)
  broadcast (suc fuel) s =
      let again = broadcast fuel in
      let p : Packet Response = record { header = none; body = list_response s.manager } in
      (do
        _ ← outside (encode_response p)
        dead ← tell_all p s.active_brokers
        disconnect_each again dead)
        s

  -- With each level a broker is gone, so one level more than there are brokers is enough.
  unfoldable pub broadcast_metadata : Exec ControllerServer Done
  unfolding broadcast
  broadcast_metadata s = broadcast (suc (length s.active_brokers)) s

  unfoldable pub handle_broker_disconnect : Text → Exec ControllerServer Done
  unfolding disconnect_with broadcast
  handle_broker_disconnect broker_id s =
      disconnect_with (broadcast (suc (length s.active_brokers))) broker_id s
