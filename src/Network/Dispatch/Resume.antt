-- ===== src/Network/Dispatch/Resume.antt =====
-- network/broker.py: how a write whose record is in the log goes on.
use pylogstream.Prelude.{
  none, ℕ, ◌≡◌, refl, ap, ◌∙◌, sym, inl, inr, Bool-cases, some, Result, ok, err, err-ne-ok, pos,
  negsuc, eqb_ℤ, text_eq,
}
use pylogstream.Replication.Leader.{ReplicaLeader, Wait, wait_for_hw}
use pylogstream.Network.Broker.{Broker, Channel, Write, Next, acknowledgement, respond, acknowledge}
use pylogstream.Network.Broker.Pull.{put_leader-result}
use pylogstream.Network.Broker.Kept.{send_response-Keeps}
use pylogstream.Network.Dispatch.{Option, Waiting, on_wait, written, put_waiting, resume_write}
use pylogstream.Prelude.Dict.{get, get-put_self}
use pylogstream.Prelude.Keeps.{Keeps, >>=-Keeps, pure-Keeps}
use pylogstream.Text.{Text}
use pylogstream.Protocol.Packets.{Packet, Response}
use pylogstream.Replication.Manager.{
  ReplicaManager, TopicState, Role, leader_of, leader_in, get_leader,
}
use pylogstream.Network.Broker.{put_leader, record_sent}
use pylogstream.Network.Dispatch.Acks.{IsDecided, written_lem}

abbrev replicas_of : Broker → ReplicaManager
replicas_of b = b.replicas

recorded : (c : ℕ) (p : Packet Response) (b : Broker) → (record_sent c p b).1.replicas ≡ b.replicas
unfolding record_sent
recorded c p b = refl

module _ (c : ℕ) (channel : Channel) where
  acknowledge-replicas :
      (w : Write) (offset : ℕ) → Keeps replicas_of (acknowledge c channel w offset)
  unfolding acknowledge respond
  acknowledge-replicas w offset =
      >>=-Keeps replicas_of
        (send_response-Keeps replicas_of recorded c channel (acknowledgement w w.committed offset))
        (λ _. pure-Keeps replicas_of (Next.go_on (some w.client_id)))

  on_wait-replicas :
      (w : Write) (offset : ℕ) (r : Result Wait) (l : ReplicaLeader) (b : Broker)
      → (on_wait c channel w offset (r, l) b).1.1.replicas ≡ b.replicas
  unfolding on_wait
  on_wait-replicas w offset (err e) l b = refl
  on_wait-replicas w offset (ok Wait.reached) l b = (acknowledge-replicas w offset).kept b
  on_wait-replicas w offset (ok (Wait.waits_for future)) l b = refl

  written-replicas :
      (w : Write) (offset : ℕ) (l : ReplicaLeader) (b : Broker)
      → (written c channel w offset (l, b)).1.1.replicas ≡ b.replicas
  unfolding written
  written-replicas w offset l b = elim (Bool-cases (eqb_ℤ w.acks (negsuc 0))) [
    | inl e ↦
        let asked = wait_for_hw (pos offset) b.next_future b.replicas.log l in
        rw e (on_wait-replicas w offset asked.0 asked.1 b)
    | inr e ↦ rw e ((acknowledge-replicas w offset).kept b)
  ]

  -- A leader that is changed in the manager is the one that the manager has then.
  put_leader-get_leader :
      {A : Type 0} (topic : Text) (o : Option TopicState) (b : Broker) (r : Result A)
      (l m : ReplicaLeader)
      → leader_in o ≡ ok l
      → (get_leader topic (put_leader topic o b (r, m)).1.replicas ≡ ok m)
        × ((put_leader topic o b (r, m)).1.sent ≡ b.sent)
  unfolding put_leader get_leader leader_in
  put_leader-get_leader topic none b r l m h = absurd (err-ne-ok h)
  put_leader-get_leader topic (some s) b r l m h = (
    ap leader_in (get-put_self b.replicas.topics topic (record s { leader = some m }))
        ∙ by_role s.role s.leader h,
    refl,
  )
    where
      by_role :
          (role : Role) (o : Option ReplicaLeader)
          → leader_of role o ≡ ok l
          → leader_of role (some m) ≡ ok m
      by_role Role.leader o k = unfold leader_of in refl
      by_role Role.follower o k = unfold leader_of in absurd (err-ne-ok k)

  -- A write whose record has been written at an offset, whose topic has the leader that was found before,
  -- and whose handling goes on without an error, is confirmed once to its connection: a publish with this
  -- offset, a commit with the offset it has committed. Where all in-sync replicas are to have it (-1
  -- acks), that is only if the high watermark of the topic's leader has reached the offset; otherwise
  -- nothing is sent, the connection waits for a future, and the queue of the topic's leader has one waiter
  -- more, with the offset and this future.
  pub resume_write_lem :
      (w : Write) (offset : ℕ) (l : ReplicaLeader) (b t : Broker) (n : Next)
      → get_leader w.topic b.replicas ≡ ok l
      → resume_write c channel w offset l b ≡ (ok n, t)
      → (m : ReplicaLeader) × (get_leader w.topic t.replicas ≡ ok m)
        × IsDecided c channel w offset l m n b t
  unfolding resume_write get_leader
  resume_write_lem w offset l b t n led h =
      let p = written c channel w offset (l, b) in put_back p.0 p.1.0 p.1.1 refl h
    where
      put_back :
          (r : Result Next) (m : ReplicaLeader) (u : Broker)
          → written c channel w offset (l, b) ≡ (r, (m, u))
          → put_waiting c channel w.topic (r, (m, u)) ≡ (ok n, t)
          → (m : ReplicaLeader) × (get_leader w.topic t.replicas ≡ ok m)
            × IsDecided c channel w offset l m n b t
      put_back r m u e k =
          let o = get u.replicas.topics w.topic in
          let kept : u.replicas ≡ b.replicas =
            ap (λ (x : Result Next × Waiting). x.1.1.replicas) (sym e)
            ∙ written-replicas w offset l b in
          let (leads, quiet) =
            put_leader-get_leader w.topic o u r l m
              (ap (λ (x : ReplicaManager). leader_in (get x.topics w.topic)) kept ∙ led) in
          let result : r ≡ ok n =
            sym (put_leader-result w.topic o u (r, m)) ∙ ap (λ (x : Result Next × Broker). x.0) k in
          let there : (put_leader w.topic o u (r, m)).1 ≡ t =
            ap (λ (x : Result Next × Broker). x.1) k in
          let sent : t.sent ≡ u.sent = ap (λ (x : Broker). x.sent) (sym there) ∙ quiet in
          let leader : get_leader w.topic t.replicas ≡ ok m =
            ap (λ (x : Broker). get_leader w.topic x.replicas) (sym there) ∙ leads in
          let decided =
            written_lem c channel w offset l m b u n
              (e ∙ ap (λ (x : Result Next). (x, (m, u))) result) in
          (
            m,
            leader,
            elim decided [
              | inl ((goes, s), high) ↦ inl ((goes, sent ∙ s), high)
              | inr ((future, waits, s, queued), all) ↦ inr ((future, waits, sent ∙ s, queued), all)
            ],
          )
