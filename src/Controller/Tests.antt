-- ===== src/Controller/Tests.antt =====
-- A server with two brokers, one of which cannot be written to any more: the theorems at it.
use pylogstream.Prelude.{
  ℕ, ◌≡◌, refl, Bool, ◌==◌, [], ◌∷◌, none, some, ok, pos, length, text_eq, true,
}
use pylogstream.Prelude.Dict.{put, get, remove}
use pylogstream.Text.{Text, codes}
use pylogstream.Text.Utf8.{encode}
use pylogstream.Text.Split.{join}
use pylogstream.Text.Decimal.{show_ℤ}
use pylogstream.Text.Words.{to_bytes}
use pylogstream.Protocol.Framer.{encode_frame}
use pylogstream.Metastore.Storage.{values}
use pylogstream.Protocol.Packets.{Packet, Command}
use pylogstream.Controller.Broadcast.{
  ActiveBroker, ControllerServer, take_off, on_manager, broadcast_metadata,
}
use pylogstream.Controller.Broadcast.Reached.{IsReached, broadcast_metadata-IsReached}
use pylogstream.Controller.Broadcast.Members.{is_some, IsActiveIfKnown}
use pylogstream.Controller.Server.{handle_command, enter}
use pylogstream.Controller.Server.Steps.{
  Reach, start, later, command, left, entered, Reach-IsActiveIfKnown,
}
use pylogstream.Metastore.Manager.{deregister_broker}

abbrev empty : ControllerServer
empty = record {
  heartbeat_timeout = 10;
  manager = record {
    storage = record { nodes = []; topics = [] };
    ring = record { replicas = 1; ring = []; sorted_keys = [] };
    replicas_per_topic = 2;
  };
  active_brokers = [];
  sent = [];
  closed = [];
}

-- Only the first connection can be written to.
abbrev alive : ℕ → Bool
alive c = c == 1

abbrev registration : Text → Packet Command
registration id = record { header = none; body = Command.broker_register id (codes "h") (pos 9) }

abbrev registered : ControllerServer
registered = (handle_command length alive 1 0 none (registration (codes "a")) empty).1

abbrev active : ℕ → ActiveBroker
active c = record { connection = c; last_heartbeat = 0; host = codes "h"; port = pos 9 }

-- The broker's disconnection waits for its socket, and the broker has registered on a second connection.
abbrev waiting : ControllerServer
waiting =
    (enter length alive 2 0 (codes "a") (codes "h") (pos 9)
      (take_off (codes "a") (active 1) registered)).1

is_active : get registered.active_brokers (codes "a") ≡ some (active 1)
unfolding handle_command get put encode join show_ℤ to_bytes encode_frame values
is_active = refl

abbrev rejoined : ControllerServer
rejoined = (on_manager (deregister_broker length (codes "a")) waiting).1

reaches_waiting : Reach length empty waiting (codes "a" ∷ [])
reaches_waiting =
    later alive
      (later alive (later alive (start refl refl) (command 1 0 none (registration (codes "a"))))
        (left (codes "a") (active 1) is_active))
      (entered 2 0 (codes "a") (codes "h") (pos 9))

Reach-IsActiveIfKnown_example : IsActiveIfKnown (codes "a") (codes "a" ∷ []) waiting
Reach-IsActiveIfKnown_example = Reach-IsActiveIfKnown (codes "a") reaches_waiting

-- When the first disconnection goes on, it deregisters the broker that has come back: it is among the
-- active brokers, and the metastore does not know it.
rejoined_unknown :
    (is_some (get rejoined.active_brokers (codes "a")) ≡ true)
    × (get rejoined.manager.storage.nodes (codes "a") ≡ none)
unfolding handle_command enter take_off on_manager deregister_broker get put remove encode join
    show_ℤ to_bytes encode_frame values
rejoined_unknown = (refl, refl)

abbrev two : ControllerServer
two = record empty { active_brokers = (codes "a", active 1) ∷ (codes "bb", active 2) ∷ [] }

abbrev after : ControllerServer
after = (broadcast_metadata length alive two).1

returned : broadcast_metadata length alive two ≡ (ok tt, after)
unfolding broadcast_metadata encode join values show_ℤ encode_frame to_bytes remove get
returned = refl

broadcast_metadata-IsReached_example : IsReached length alive after
broadcast_metadata-IsReached_example = broadcast_metadata-IsReached length alive two after returned

one_left : after.active_brokers ≡ (codes "a", active 1) ∷ []
unfolding broadcast_metadata encode join values show_ℤ encode_frame to_bytes remove get
one_left = refl
