-- ===== src/Network/Dispatch/Acks.antt =====
-- network/broker.py: when a write is acknowledged.
use pylogstream.Prelude.{
  none, subst, ℕ, ◌≡◌, refl, ap, ◌∙◌, sym, ◌⊎◌, inl, inr, [], ◌∷◌, ◌++◌, true, false, Bool-cases,
  some, Result, ok, err, err-ne-ok, ok-injective, arith, ℤ, pos, negsuc, ◌≤ℤ◌, leb_ℤ, eqb_ℤ,
  eqb_ℤ_iff, text_eq,
}
use pylogstream.Prelude.Exec.{pure, ◌>>=◌, >>=-eq-ok}
use pylogstream.Log.Reader.{LogState}
use pylogstream.Replication.Waiters.{heappush}
use pylogstream.Replication.Leader.Waits.{IsQueued, wait_for_hw-IsQueued}
use pylogstream.Replication.Leader.{
  ReplicaLeader, Wait, compute_high_watermark, raise_watermark, get_high_watermark, on_queue,
  wait_until, wait_for_hw,
}
use pylogstream.Network.Broker.{
  Broker, Channel, Write, Next, acknowledgement, send_response, respond, acknowledge,
}
use pylogstream.Network.Broker.Sent.{packet, send_response-sent}
use pylogstream.Network.Dispatch.{Option, Waiting, on_wait, written}
use pylogstream.Text.{Text}
use pylogstream.Protocol.Packets.{Response}

-- What is computed as the high watermark is stored.
get_high_watermark-stored :
    (log : LogState) (l m : ReplicaLeader) (hw : ℤ)
    → get_high_watermark log l ≡ (ok hw, m)
    → m.high_watermark ≡ hw
unfolding get_high_watermark raise_watermark
get_high_watermark-stored log l m hw h =
    let (_, _, _, q) = >>=-eq-ok (compute_high_watermark log) raise_watermark l m h in
    ap (λ (x : Result ℤ × ReplicaLeader). x.1.high_watermark) (sym q)
    ∙ ok-injective (ap (λ (x : Result ℤ × ReplicaLeader). x.0) q)

wait_until-reached :
    (offset hw : ℤ) (future : ℕ) (l m : ReplicaLeader)
    → wait_until offset future hw l ≡ (ok Wait.reached, m)
    → (offset ≤ℤ hw) × (l ≡ m)
unfolding wait_until
wait_until-reached offset hw future l m h = elim (Bool-cases (leb_ℤ offset hw)) [
  | inl e ↦ (ground arith, ap (λ (x : Result Wait × ReplicaLeader). x.1) (rw e at h))
  | inr e ↦ absurd (waiting (rw e at h))
]
  where
    waiting :
        (on_queue (heappush (record { offset = offset; future = future })) >>= λ _.
        pure (Wait.waits_for future))
            l
          ≡ (ok Wait.reached, m)
        → ⊥
    waiting k =
        let (_, _, _, q) =
          >>=-eq-ok (on_queue (heappush (record { offset = offset; future = future })))
            (λ _. pure (Wait.waits_for future)) l m k in
        differs (ok-injective (ap (λ (x : Result Wait × ReplicaLeader). x.0) q))
      where
        differs : Wait.waits_for future ≡ Wait.reached → ⊥
        differs e = cc

wait_for_hw-reached :
    (offset : ℤ) (future : ℕ) (log : LogState) (l m : ReplicaLeader)
    → wait_for_hw offset future log l ≡ (ok Wait.reached, m)
    → offset ≤ℤ m.high_watermark
unfolding wait_for_hw
wait_for_hw-reached offset future log l m h =
    let (hw, u, p, q) = >>=-eq-ok (get_high_watermark log) (wait_until offset future) l m h in
    let (r, e) = wait_until-reached offset hw future u m q in
    subst (λ (k : ℤ). offset ≤ℤ k)
      (sym (get_high_watermark-stored log l u hw p)
        ∙ ap (λ (x : ReplicaLeader). x.high_watermark) e)
      r

-- A publish (no committed offset) is confirmed with the offset of its record, a commit with the offset
-- that it has committed.
abbrev pub confirmation : Option ℤ → Text → ℕ → ℤ → Response
confirmation none topic offset acks = Response.pub_ack topic (pos offset) acks
confirmation (some committed) topic offset acks = Response.offset_ack topic committed acks

acknowledgement-confirmation :
    (w : Write) (o : Option ℤ) (offset : ℕ)
    → acknowledgement w o offset ≡ confirmation o w.topic offset w.acks
unfolding acknowledgement
acknowledgement-confirmation w none offset = refl
acknowledgement-confirmation w (some x) offset = refl

module _ (c : ℕ) (channel : Channel) (w : Write) (offset : ℕ) where
  -- The write is confirmed to its connection, once, and the connection reads on.
  abbrev pub IsAcknowledged : Next → Broker → Broker → Type 0
  IsAcknowledged n b t =
      (n ≡ Next.go_on (some w.client_id))
      × (t.sent
          ≡ b.sent
            ++ (c, record { header = none; body = confirmation w.committed w.topic offset w.acks })
              ∷ [])

  -- Nothing is sent, and the connection waits for a future with which it is in the leader's queue.
  abbrev pub IsWaiting : ReplicaLeader → ReplicaLeader → Next → Broker → Broker → Type 0
  IsWaiting l m n b t =
      (future : ℕ) × (n ≡ Next.waits_replicated w offset future)
      × (t.sent ≡ b.sent)
      × IsQueued (record { offset = pos offset; future = future }) l m

  -- What a write comes to, with the leader before and after.
  abbrev pub IsDecided : ReplicaLeader → ReplicaLeader → Next → Broker → Broker → Type 0
  IsDecided l m n b t =
      (IsAcknowledged n b t × (w.acks ≡ negsuc 0 → pos offset ≤ℤ m.high_watermark))
      ⊎ (IsWaiting l m n b t × (w.acks ≡ negsuc 0))

  acknowledge-IsAcknowledged :
      (b t : Broker) (n : Next)
      → acknowledge c channel w offset b ≡ (ok n, t)
      → IsAcknowledged n b t
  unfolding acknowledge respond
  acknowledge-IsAcknowledged b t n h =
      let r = acknowledgement w w.committed offset in
      let (d, u, p, q) =
        >>=-eq-ok (send_response c channel r) (λ _. pure (Next.go_on (some w.client_id))) b t h in
      (
        sym (ok-injective (ap (λ (x : Result Next × Broker). x.0) q)),
        ap (λ (x : Result Next × Broker). x.1.sent) (sym q)
            ∙ send_response-sent c channel r b u d p
            ∙ ap (λ (k : Response). b.sent ++ (c, packet c k) ∷ [])
                (acknowledgement-confirmation w w.committed offset),
      )

  -- A result of the part after the leader, in which the leader stays.
  abbrev with_leader : ReplicaLeader → Result Next × Broker → Result Next × Waiting
  with_leader l p = (p.0, (l, p.1))

  beside :
      (l m : ReplicaLeader) (p : Result Next × Broker) (n : Next) (t : Broker)
      → with_leader l p ≡ (ok n, (m, t))
      → (p ≡ (ok n, t)) × (l ≡ m)
  beside l m p n t h = (
    ap (λ (x : Result Next × Waiting). (x.0, x.1.1)) h,
    ap (λ (x : Result Next × Waiting). x.1.0) h,
  )

  on_wait_lem :
      (r : Result Wait) (old l m : ReplicaLeader) (b t : Broker) (n : Next)
      → w.acks ≡ negsuc 0
      → (r ≡ ok Wait.reached → pos offset ≤ℤ l.high_watermark)
      → ((future : ℕ)
          → r ≡ ok (Wait.waits_for future)
          → IsQueued (record { offset = pos offset; future = future }) old l)
      → on_wait c channel w offset (r, l) b ≡ (ok n, (m, t))
      → IsDecided old m n b t
  unfolding on_wait
  on_wait_lem (err e) old l m b t n all high queued h =
      absurd (err-ne-ok (ap (λ (x : Result Next × Waiting). x.0) h))
  on_wait_lem (ok Wait.reached) old l m b t n all high queued h =
      let (e, same) = beside l m (acknowledge c channel w offset b) n t h in
      inl (
        acknowledge-IsAcknowledged b t n e,
        λ _. subst (λ (k : ReplicaLeader). pos offset ≤ℤ k.high_watermark) same (high refl),
      )
  on_wait_lem (ok (Wait.waits_for future)) old l m b t n all high queued h = inr (
    (
      future,
      sym (ok-injective (ap (λ (x : Result Next × Waiting). x.0) h)),
      ap (λ (x : Result Next × Waiting). x.1.1.sent) (sym h),
      subst (IsQueued (record { offset = pos offset; future = future }) old)
          (ap (λ (x : Result Next × Waiting). x.1.0) h) (queued future refl),
    ),
    all,
  )

-- The part that has the leader's object beside the broker.
pub written_lem :
    (c : ℕ) (channel : Channel) (w : Write) (offset : ℕ) (l m : ReplicaLeader) (b t : Broker)
    (n : Next)
    → written c channel w offset (l, b) ≡ (ok n, (m, t))
    → IsDecided c channel w offset l m n b t
unfolding written
written_lem c channel w offset l m b t n h = elim (Bool-cases (eqb_ℤ w.acks (negsuc 0))) [
  | inl e ↦
      let asked = wait_for_hw (pos offset) b.next_future b.replicas.log l in
      on_wait_lem c channel w offset asked.0 l asked.1 m b t n ((eqb_ℤ_iff w.acks (negsuc 0)).0 e)
        (λ r.
          wait_for_hw-reached (pos offset) b.next_future b.replicas.log l asked.1
            (ap (λ x. (x, asked.1)) r))
        (λ f r.
          wait_for_hw-IsQueued (pos offset) b.next_future f b.replicas.log l asked.1
            (ap (λ x. (x, asked.1)) r))
        (rw e at h)
  | inr e ↦
      let (p, same) =
        beside c channel w offset l m (acknowledge c channel w offset b) n t (rw e at h) in
      inl (
        acknowledge-IsAcknowledged c channel w offset b t n p,
        λ a. absurd (differs (sym e ∙ (eqb_ℤ_iff w.acks (negsuc 0)).1 a)),
      )
]
  where
    differs : false ≡ true → ⊥
    differs e = cc
