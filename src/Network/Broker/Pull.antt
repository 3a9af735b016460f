-- ===== src/Network/Broker/Pull.antt =====
-- network/broker.py: a pull is answered with records only below the high watermark.
use pylogstream.Prelude.{
  ℕ, ◌≡◌, refl, ap, ◌∙◌, sym, inl, inr, [], ◌∷◌, ◌++◌, Bool, true, false, Bool-cases, Option, none,
  some, if◌then◌else◌, Result, ok, err, arith, ℤ, pos, leb_ℤ, eqb_ℤ, ltb_ℤ, text_eq,
}
use pylogstream.Prelude.Dict.{get}
use pylogstream.Prelude.Exec.{Exec, Done, pure, ◌>>=◌, >>=-eq-ok}
use pylogstream.Prelude.Keeps.{Keeps}
use pylogstream.Text.{Text}
use pylogstream.Protocol.Packets.{Response}
use pylogstream.Log.Reader.{ReadResult, read, read_bytes}
use pylogstream.Replication.Leader.{ReplicaLeader, get_high_watermark}
use pylogstream.Replication.Manager.{TopicState, get_leader}
use pylogstream.Network.Broker.{
  Broker, Channel, Next, on_log, put_leader, out_of_range, not_leader, give_back, send_response,
  respond, send_file, push_message, pull_below, watermark_of, pull_from, pull,
}
use pylogstream.Network.Broker.Sent.{packet, send_response-sent}
use pylogstream.Network.Broker.Commands.{on_log-Keeps, watermark_of-Keeps}

-- A response that brings records.
abbrev pub HasRecords : Response → Type 0
HasRecords (Response.message topic []) = ⊥
HasRecords (Response.message topic (x ∷ xs)) = Unit
HasRecords (Response.file topic path offset length) = Unit
HasRecords (Response.error code message) = ⊥
HasRecords _ = ⊥

-- The topic is led here, and the offset is below its high watermark.
abbrev pub IsBelow : Text → ℤ → Broker → Type 0
IsBelow topic offset b =
    (l : ReplicaLeader) × (hw : ℤ) × (get_leader topic b.replicas ≡ ok l)
    × ((get_high_watermark b.replicas.log l).0 ≡ ok hw)
    × (ltb_ℤ offset hw ≡ true)

pub put_leader-result :
    {A : Type 0} (topic : Text) (o : Option TopicState) (b : Broker) (p : Result A × ReplicaLeader)
    → (put_leader topic o b p).0 ≡ p.0
unfolding put_leader
put_leader-result topic none b p = refl
put_leader-result topic (some s) b p = refl

module _ (c : ℕ) (channel : Channel) where
  -- The response that was sent between two states, of which `P` holds.
  abbrev pub Sends : (Response → Type 0) → Broker → Broker → Type 0
  Sends P b t = (r : Response) × (t.sent ≡ b.sent ++ (c, packet c r) ∷ []) × P r

  respond-sent :
      (P : Response → Type 0) (id : Text) (r : Response) (b t : Broker) (n : Next)
      → P r
      → respond c channel id r b ≡ (ok n, t)
      → Sends P b t
  unfolding respond
  respond-sent P id r b t n p h =
      let (d, u, q1, q2) =
        >>=-eq-ok (send_response c channel r) (λ _. pure (Next.go_on (some id))) b t h in
      (
        r,
        ap (λ (x : Result Next × Broker). x.1.sent) (sym q2)
            ∙ send_response-sent c channel r b u d q1,
        p,
      )

  -- After a read, the response.
  read-sent :
      {A : Type 0} (P : Response → Type 0) (f : Exec Broker A) (next : A → Exec Broker Done)
      (b t : Broker)
      → Keeps (λ (x : Broker). x.sent) f
      → ((a : A) (u : Broker) → next a u ≡ (ok tt, t) → Sends P u t)
      → (f >>= next) b ≡ (ok tt, t)
      → Sends P b t
  read-sent P f next b t k s h =
      let (a, u, q1, q2) = >>=-eq-ok f next b t h in
      let (r, e, p) = s a u q2 in
      (
        r,
        e
            ∙ ap (λ l. l ++ (c, packet c r) ∷ [])
                (ap (λ (x : Result _ × Broker). x.1.sent) (sym q1) ∙ k.kept b),
        p,
      )

  send_file-sent :
      (topic : Text) (res : ReadResult) (b t : Broker)
      → send_file c channel topic res b ≡ (ok tt, t)
      → (r : Response) × (t.sent ≡ b.sent ++ (c, packet c r) ∷ [])
  unfolding send_file give_back
  send_file-sent topic res b t h =
      let r : Response =
        Response.file topic res.file_slice.filepath res.file_slice.offset
          (pos res.file_slice.batch_size) in
      let u = (send_response c channel r b).1 in
      (
        r,
        ap (λ (x : Result Done × Broker). x.1.sent) (sym h)
            ∙ send_response-sent c channel r b u tt (ap (λ (x : Result Done × Broker). (x.0, u)) h),
      )

  push_message-sent :
      (P : Response → Type 0) (topic : Text) (offset size : ℤ) (b t : Broker)
      → ((r : Response) → P r)
      → push_message c channel topic offset size b ≡ (ok tt, t)
      → Sends P b t
  unfolding push_message
  push_message-sent P topic offset size b t p h = either (leb_ℤ size (pos 1024)) h
    where
      either :
          (small : Bool)
          → (if small
                then (do
                  res ← on_log (read_bytes topic offset size)
                  send_response c channel (Response.message topic res.payload))
                else (do res ← on_log (read topic offset size); send_file c channel topic res))
              b
            ≡ (ok tt, t)
          → Sends P b t
      either true q =
          read-sent P (on_log (read_bytes topic offset size)) _ b t (on_log-Keeps _)
            (λ res u e.
              (Response.message topic res.payload, send_response-sent c channel _ u t tt e, p _))
            q
      either false q =
          read-sent P (on_log (read topic offset size)) (λ res. send_file c channel topic res) b t
            (on_log-Keeps _) (λ res u e. let (r, g) = send_file-sent topic res u t e in (r, g, p r))
            q

  pushed-sent :
      (P : Response → Type 0) (id topic : Text) (offset size : ℤ) (b t : Broker) (n : Next)
      → ((r : Response) → P r)
      → (push_message c channel topic offset size >>= λ _. pure (Next.go_on (some id))) b
        ≡ (ok n, t)
      → Sends P b t
  pushed-sent P id topic offset size b t n p h =
      let (_, u, q1, q2) =
        >>=-eq-ok (push_message c channel topic offset size) (λ _. pure (Next.go_on (some id))) b t
          h in
      let (r, g, pr) = push_message-sent P topic offset size b u p q1 in
      (r, ap (λ (x : Result Next × Broker). x.1.sent) (sym q2) ∙ g, pr)

  pull_below-sent :
      (P : Response → Type 0) (id topic : Text) (offset size hw : ℤ) (b t : Broker) (n : Next)
      → P (Response.message topic [])
      → P (out_of_range hw)
      → (ltb_ℤ offset hw ≡ true → (r : Response) → P r)
      → pull_below c channel id topic offset size hw b ≡ (ok n, t)
      → Sends P b t
  unfolding pull_below
  pull_below-sent P id topic offset size hw b t n empty out below h =
      elim (Bool-cases (eqb_ℤ offset hw)) [
        | inl e ↦ respond-sent P id (Response.message topic []) b t n empty (rw e at h)
        | inr e ↦ elim (Bool-cases (leb_ℤ hw offset)) [
          | inl f ↦ respond-sent P id (out_of_range hw) b t n out (rw (e, f) at h)
          | inr f ↦ pushed-sent P id topic offset size b t n (below (ground arith)) (rw (e, f) at h)
        ]
      ]

  pull_from-sent :
      (id topic : Text) (offset size : ℤ) (b t : Broker) (n : Next) (o : Result ReplicaLeader)
      → get_leader topic b.replicas ≡ o
      → pull_from c channel o id topic offset size b ≡ (ok n, t)
      → Sends (λ r. HasRecords r → IsBelow topic offset b) b t
  unfolding pull_from not_leader out_of_range watermark_of
  pull_from-sent id topic offset size b t n (err e) led h =
      respond-sent _ id not_leader b t n (λ x. absurd x) h
  pull_from-sent id topic offset size b t n (ok l) led h =
      let (hw, u, q1, q2) =
        >>=-eq-ok (watermark_of topic l) (pull_below c channel id topic offset size) b t h in
      let high : (get_high_watermark b.replicas.log l).0 ≡ ok hw =
        sym (
          put_leader-result topic (get b.replicas.topics topic) b
            (get_high_watermark b.replicas.log l))
        ∙ ap (λ (x : Result ℤ × Broker). x.0) q1 in
      let (r, e, p) =
        pull_below-sent (λ r. HasRecords r → IsBelow topic offset b) id topic offset size hw u t n
          (λ x. absurd x) (λ x. absurd x) (λ below r _. (l, hw, led, high, below)) q2 in
      (
        r,
        e
            ∙ ap (λ k. k ++ (c, packet c r) ∷ [])
                (ap (λ (x : Result ℤ × Broker). x.1.sent) (sym q1)
                  ∙ (watermark_of-Keeps topic l).kept b),
        p,
      )

-- A pull that does not raise is answered with exactly one response, to the connection it came from, and
-- where this one has records, the broker leads the topic, and the offset is below the high watermark.
pub pull_lem :
    (c : ℕ) (channel : Channel) (id topic : Text) (offset size : ℤ) (b t : Broker) (n : Next)
    → pull c channel id topic offset size b ≡ (ok n, t)
    → Sends c channel (λ r. HasRecords r → IsBelow topic offset b) b t
unfolding pull
pull_lem c channel id topic offset size b t n h =
    pull_from-sent c channel id topic offset size b t n (get_leader topic b.replicas) refl h
