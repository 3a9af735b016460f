-- ===== src/Network/Broker/Kept.antt =====
-- network/broker.py: what a response leaves as it is.
use pylogstream.Prelude.{ℕ, ◌≡◌, refl, Option, none, some, []}
use pylogstream.Prelude.Keeps.{Keeps, >>=-Keeps, outside-Keeps}
use pylogstream.Text.{Text}
use pylogstream.Protocol.Packets.{Packet, Response}
use pylogstream.Protocol.Encoder.Responses.{encode_response}
use pylogstream.Network.Broker.{
  ◌∷◌, Broker, Channel, write_frame, send_part, record_sent, send_packet, send_response,
}

-- A part of the broker that a record of what is sent does not change.
module _ {P : Type 0} (part : Broker → P)
    (recorded : (c : ℕ) (p : Packet Response) (b : Broker)
      → part (record_sent c p b).1 ≡ part b) where
  send_part-Keeps : (file_path : Option Text) → Keeps part (send_part file_path)
  unfolding send_part
  send_part-Keeps none = record { kept = λ b. refl }
  send_part-Keeps (some []) = record { kept = λ b. refl }
  send_part-Keeps (some (x ∷ path)) = record { kept = λ b. refl }

  write_frame-Keeps :
      (c : ℕ) (channel : Channel) (p : Packet Response) (file_path : Option Text)
      → Keeps part (write_frame c channel p file_path)
  unfolding write_frame
  write_frame-Keeps c Channel.broken p file_path = record { kept = λ b. refl }
  write_frame-Keeps c Channel.without_file p file_path =
      >>=-Keeps part {f = record_sent c p} (record { kept = recorded c p })
        (λ _. send_part-Keeps file_path)
  write_frame-Keeps c Channel.whole p file_path = record { kept = recorded c p }

  pub send_packet-Keeps :
      (c : ℕ) (channel : Channel) (p : Packet Response) → Keeps part (send_packet c channel p)
  unfolding send_packet
  send_packet-Keeps c channel p =
      >>=-Keeps part (outside-Keeps part (encode_response p))
        (λ frame. write_frame-Keeps c channel p frame.file_path)

  pub send_response-Keeps :
      (c : ℕ) (channel : Channel) (r : Response) → Keeps part (send_response c channel r)
  unfolding send_response
  send_response-Keeps c channel r = send_packet-Keeps c channel (record { header = none; body = r })
