-- ===== src/Network/Connection/Tracked.antt =====
-- network/controller.py: the requests of a connection that are pending or settled.
use pylogstream.Prelude.{
  ℕ, ◌≡◌, ap, ◌∙◌, List, [], ◌∷◌, ◌++◌, append_assoc, Bool, true, false, Option, none, some,
  if◌then◌else◌, Result, ok, err, runtime_error, os_error, All, All-map, text_eq,
}
use pylogstream.Prelude.Dict.Entries.{All-put}
use pylogstream.Prelude.Exec.{Exec, Done}
use pylogstream.Prelude.Keeps.{Preserves, >>=-Preserves, outside-Preserves, pure-Preserves}
use pylogstream.Text.{Text}
use pylogstream.Protocol.Packets.{Packet, Command, Response}
use pylogstream.Protocol.Encoder.Commands.{encode_command}
use pylogstream.Replication.Manager.{ReplicaManager, apply_metadata, apply_metadata_list}
use pylogstream.Network.Connection.{
  Outcome, ControllerConnection, put_manager, on_manager, handle_disconnect, with_header, expect,
  write_if, write_command, register_expected, if_connected, send_command, handle_unsolicited,
}

-- A correlation id with the future that waits for its response.
abbrev pub Request : Type 0
Request = Text × ℕ

abbrev pub IsIn : Request → List Request → Type 0
IsIn r rs = (before : List Request) × (after : List Request) × (rs ≡ before ++ r ∷ after)

abbrev pub IsSettled : List Request → ℕ × Outcome → Type 0
IsSettled rs (future, Outcome.answered p) =
    (id : Text) × (p.header ≡ some id) × IsIn (id, future) rs
IsSettled rs (future, _) = (id : Text) × IsIn (id, future) rs

pub record IsTracked (rs : List Request) (s : ControllerConnection) : Type 0 where
  pub pending : All (λ r. IsIn r rs) s.pending_reads
  pub settled : All (IsSettled rs) s.settled

-- What a command asks for.
abbrev pub requests : Option Text → Bool → ℕ → List Request
requests none await_response future = []
requests (some id) await_response future = if await_response then (id, future) ∷ [] else []

longer : (rs new : List Request) (r : Request) → IsIn r rs → IsIn r (rs ++ new)
longer rs new r (before, after, e) =
    (before, after ++ new, ap (λ l. l ++ new) e ∙ append_assoc before (r ∷ after) new)

IsSettled-longer :
    (rs new : List Request) (x : ℕ × Outcome) → IsSettled rs x → IsSettled (rs ++ new) x
IsSettled-longer rs new (future, Outcome.answered p) (id, e, h) =
    (id, e, longer rs new (id, future) h)
IsSettled-longer rs new (future, Outcome.lost) (id, h) = (id, longer rs new (id, future) h)
IsSettled-longer rs new (future, Outcome.cancelled) (id, h) = (id, longer rs new (id, future) h)

pub IsTracked-longer :
    (rs new : List Request) (s : ControllerConnection) → IsTracked rs s → IsTracked (rs ++ new) s
IsTracked-longer rs new s h = record {
  pending =
      All-map (λ r. IsIn r rs) (λ r. IsIn r (rs ++ new)) s.pending_reads (longer rs new) h.pending;
  settled =
      All-map (IsSettled rs) (IsSettled (rs ++ new)) s.settled (IsSettled-longer rs new) h.settled;
}

module _ (rs : List Request) where
  abbrev pub Tracked : ControllerConnection → Type 0
  Tracked = IsTracked rs

  if-Tracked :
      {A : Type 0} (b : Bool) (x y : Result A × ControllerConnection)
      → Tracked x.1
      → Tracked y.1
      → Tracked (if b then x else y).1
  if-Tracked true x y hx hy = hx
  if-Tracked false x y hx hy = hy

  pub if_state-Tracked :
      (b : Bool) {x y : ControllerConnection} → Tracked x → Tracked y → Tracked (if b then x else y)
  if_state-Tracked true hx hy = hx
  if_state-Tracked false hx hy = hy

  if_connected-Preserves : Preserves Tracked if_connected
  unfolding if_connected
  if_connected-Preserves = record {
    preserved = λ s h. if-Tracked s.connected (ok tt, s) (err runtime_error, s) h h;
  }

  write_if-Preserves :
      (alive : Bool) (cmd : Packet Command) → Preserves Tracked (write_if alive cmd)
  unfolding write_if
  write_if-Preserves alive cmd = record {
    preserved = λ s h.
        if-Tracked alive (ok tt, record s { sent = s.sent ++ cmd ∷ [] }) (err os_error, s)
          (record { pending = h.pending; settled = h.settled }) h;
  }

  write_command-Preserves :
      (alive : Bool) (cmd : Packet Command) → Preserves Tracked (write_command alive cmd)
  unfolding write_command
  write_command-Preserves alive cmd =
      >>=-Preserves Tracked (outside-Preserves Tracked (encode_command cmd true))
        (λ _. write_if-Preserves alive cmd)

  expect-IsTracked :
      (header : Option Text) (a : Bool) (future : ℕ) (s : ControllerConnection)
      → All (λ r. IsIn r rs) (requests header a future)
      → Tracked s
      → Tracked (expect header a future s).1
  unfolding expect
  expect-IsTracked none a future s known h = h
  expect-IsTracked (some id) true future s known h = record {
    pending = All-put (λ r. IsIn r rs) s.pending_reads id future known.0 h.pending;
    settled = h.settled;
  }
  expect-IsTracked (some id) false future s known h = h

  register_expected-Preserves :
      (cmd : Packet Command) (a : Bool) (future : ℕ)
      → All (λ r. IsIn r rs) (requests cmd.header a future)
      → Preserves Tracked (register_expected cmd a future)
  unfolding register_expected
  register_expected-Preserves cmd a future known = record {
    preserved = λ s h. expect-IsTracked cmd.header a future s known h;
  }

  pub send_command-Preserves :
      (alive : Bool) (id : Text) (future : ℕ) (cmd : Packet Command) (a : Bool)
      → All (λ r. IsIn r rs) (requests (with_header id a cmd).header a future)
      → Preserves Tracked (send_command alive id future cmd a)
  unfolding send_command
  send_command-Preserves alive id future cmd a known =
      >>=-Preserves Tracked if_connected-Preserves (λ _.
        >>=-Preserves Tracked (register_expected-Preserves (with_header id a cmd) a future known)
          (λ expected.
            >>=-Preserves Tracked (write_command-Preserves alive (with_header id a cmd))
              (λ _. pure-Preserves Tracked expected)))

  pub on_manager-Preserves :
      {A : Type 0} (f : Exec ReplicaManager A) → Preserves Tracked (on_manager f)
  unfolding on_manager put_manager
  on_manager-Preserves f = record {
    preserved = λ s h. record { pending = h.pending; settled = h.settled };
  }

  pub handle_disconnect-Preserves : Preserves Tracked handle_disconnect
  unfolding handle_disconnect
  handle_disconnect-Preserves = record {
    preserved =
        λ s h. if_state-Tracked s.connected (record { pending = h.pending; settled = h.settled }) h;
  }

  pub handle_unsolicited-Preserves :
      (connect : Text → Result Done) (r : Response)
      → Preserves Tracked (handle_unsolicited connect r)
  unfolding handle_unsolicited
  handle_unsolicited-Preserves connect (Response.not_leader_controller _ _ _) =
      handle_disconnect-Preserves
  handle_unsolicited-Preserves connect (Response.topic_meta_data meta) =
      on_manager-Preserves (apply_metadata connect meta)
  handle_unsolicited-Preserves connect (Response.topic_meta_data_list metas) =
      on_manager-Preserves (apply_metadata_list connect metas)
  handle_unsolicited-Preserves connect _ = pure-Preserves Tracked tt
