-- ===== src/Network/Broker/Sent.antt =====
-- network/broker.py: what a method sends to its connection.
use pylogstream.Prelude.{
  Option, some, none, ℕ, ◌≡◌, refl, ap, ◌∙◌, sym, ◌⊎◌, inl, inr, List, [], ◌∷◌, ◌++◌, Bool, true,
  false, none, if◌then◌else◌, Result, ok, err, err-ne-ok,
}
use pylogstream.Prelude.Exec.{Exec, Done, outside, resume, ◌>>=◌, >>=-eq-ok}
use pylogstream.Prelude.Keeps.{Keeps}
use pylogstream.Text.{Text}
use pylogstream.Protocol.Packets.{Packet, Response}
use pylogstream.Protocol.Encoder.Responses.{encode_response}
use pylogstream.Network.Broker.{
  Broker, Channel, write_frame, send_part, record_sent, send_packet, send_response,
}

abbrev pub Sent : Type 0
Sent = List (ℕ × Packet Response)

abbrev pub sent_of : Broker → Sent
sent_of b = b.sent

module _ (c : ℕ) where
  -- Nothing, or one response to the connection.
  abbrev pub IsOneMore : Sent → Sent → Type 0
  IsOneMore old new = (new ≡ old) ⊎ ((p : Packet Response) × (new ≡ old ++ (c, p) ∷ []))

  -- A method that sends at most one response, also where it raises.
  pub record SendsOne {A : Type 0} (f : Exec Broker A) : Type 0 where
    pub one : (b : Broker) → IsOneMore b.sent (f b).1.sent

  pub quiet-SendsOne : {A : Type 0} {f : Exec Broker A} → Keeps sent_of f → SendsOne f
  quiet-SendsOne k = record { one = λ b. inl (k.kept b) }

  pub if-SendsOne :
      {A : Type 0} (x : Bool) {f g : Exec Broker A}
      → SendsOne f
      → SendsOne g
      → SendsOne (if x then f else g)
  if-SendsOne true kf kg = kf
  if-SendsOne false kf kg = kg

  resume-SendsOne :
      {A B : Type 0} (old : Sent) (r : Result A) (next : A → Exec Broker B) (b : Broker)
      → IsOneMore old b.sent
      → ((a : A) → Keeps sent_of (next a))
      → IsOneMore old (resume r next b).1.sent
  resume-SendsOne old (err e) next b h k = h
  resume-SendsOne old (ok a) next b (inl q) k = inl ((k a).kept b ∙ q)
  resume-SendsOne old (ok a) next b (inr (p, q)) k = inr (p, (k a).kept b ∙ q)

  -- A response, and then nothing more.
  pub then_quiet :
      {A B : Type 0} {f : Exec Broker A} {next : A → Exec Broker B}
      → SendsOne f
      → ((a : A) → Keeps sent_of (next a))
      → SendsOne (f >>= next)
  then_quiet {f} {next} s k = record {
    one = λ b. resume-SendsOne b.sent (f b).0 next (f b).1 (s.one b) k;
  }

  kept_first :
      {A B : Type 0} (old : Sent) (r : Result A) (next : A → Exec Broker B) (b : Broker)
      → b.sent ≡ old
      → ((a : A) → SendsOne (next a))
      → IsOneMore old (resume r next b).1.sent
  kept_first old (err e) next b h k = inl h
  kept_first old (ok a) next b h k = after ((k a).one b)
    where
      after : IsOneMore b.sent (next a b).1.sent → IsOneMore old (next a b).1.sent
      after (inl q) = inl (q ∙ h)
      after (inr (p, q)) = inr (p, q ∙ ap (λ l. l ++ (c, p) ∷ []) h)

  pub quiet_then :
      {A B : Type 0} {f : Exec Broker A} {next : A → Exec Broker B}
      → Keeps sent_of f
      → ((a : A) → SendsOne (next a))
      → SendsOne (f >>= next)
  quiet_then {f} {next} s k = record {
    one = λ b. kept_first b.sent (f b).0 next (f b).1 (s.kept b) k;
  }

  record_sent-SendsOne : (p : Packet Response) → SendsOne (record_sent c p)
  unfolding record_sent
  record_sent-SendsOne p = record { one = λ b. inr (p, refl) }

  send_part-Keeps : (file_path : Option Text) → Keeps sent_of (send_part file_path)
  unfolding send_part
  send_part-Keeps none = record { kept = λ b. refl }
  send_part-Keeps (some []) = record { kept = λ b. refl }
  send_part-Keeps (some (x ∷ path)) = record { kept = λ b. refl }

  write_frame-SendsOne :
      (channel : Channel) (p : Packet Response) (file_path : Option Text)
      → SendsOne (write_frame c channel p file_path)
  unfolding write_frame
  write_frame-SendsOne Channel.broken p file_path = record { one = λ b. inl refl }
  write_frame-SendsOne Channel.without_file p file_path =
      then_quiet (record_sent-SendsOne p) (λ _. send_part-Keeps file_path)
  write_frame-SendsOne Channel.whole p file_path = record { one = (record_sent-SendsOne p).one }

  pub send_packet-SendsOne :
      (channel : Channel) (p : Packet Response) → SendsOne (send_packet c channel p)
  unfolding send_packet
  send_packet-SendsOne channel p =
      quiet_then (record { kept = λ b. refl })
        (λ frame. write_frame-SendsOne channel p frame.file_path)

  pub send_response-SendsOne :
      (channel : Channel) (r : Response) → SendsOne (send_response c channel r)
  unfolding send_response
  send_response-SendsOne channel r =
      send_packet-SendsOne channel (record { header = none; body = r })

  abbrev pub packet : Response → Packet Response
  packet r = record { header = none; body = r }

  part_sent :
      (file_path : Option Text) (b t : Broker) (d : Done)
      → send_part file_path b ≡ (ok d, t)
      → t.sent ≡ b.sent
  part_sent file_path b t d h =
      ap (λ (x : Result Done × Broker). x.1.sent) (sym h) ∙ (send_part-Keeps file_path).kept b

  frame_sent :
      (channel : Channel) (p : Packet Response) (file_path : Option Text) (b t : Broker) (d : Done)
      → write_frame c channel p file_path b ≡ (ok d, t)
      → t.sent ≡ b.sent ++ (c, p) ∷ []
  unfolding write_frame record_sent
  frame_sent Channel.broken p file_path b t d h =
      absurd (err-ne-ok (ap (λ (x : Result Done × Broker). x.0) h))
  frame_sent Channel.without_file p file_path b t d h =
      part_sent file_path (record b { sent = b.sent ++ (c, p) ∷ [] }) t d h
  frame_sent Channel.whole p file_path b t d h = ap (λ (x : Result Done × Broker). x.1.sent) (sym h)

  -- A response that goes out is the one that was to be sent.
  pub send_response-sent :
      (channel : Channel) (r : Response) (b t : Broker) (d : Done)
      → send_response c channel r b ≡ (ok d, t)
      → t.sent ≡ b.sent ++ (c, packet r) ∷ []
  unfolding send_response send_packet
  send_response-sent channel r b t d h =
      let (frame, u, p, q) =
        >>=-eq-ok (outside (encode_response (packet r)))
          (λ frame. write_frame c channel (packet r) frame.file_path) b t h in
      frame_sent channel (packet r) frame.file_path u t d q
      ∙ ap (λ (x : Result _ × Broker). x.1.sent ++ (c, packet r) ∷ []) (sym p)
