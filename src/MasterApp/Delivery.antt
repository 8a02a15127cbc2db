-- ===== src/MasterApp/Delivery.antt =====
-- The answers of MasterApp.cpp on their way: frame, encryption, decryption, and the frame again.
use solarbot_update.Base.{
  ℕ, zero, suc, ◌+◌, ◌-◌, ◌*◌, ◌/◌, ◌%◌, ◌≤◌, ◌<◌, ◌≡◌, refl, ap, ◌∙◌, arith, [], ◌∷◌, ◌++◌, Bytes,
  All, All-append, IsByte, some, length, take, drop, length-append, length-drop,
}
use solarbot_update.Frame.{
  Frame, command_ack, ping_ack, random_byte, frame_bytes, generate_frame,
  generate_command_ack_frame, generate_ping_ack_frame,
}
use solarbot_update.Frame.Decode.{Message, IsIdle}
use solarbot_update.Frame.Encode.{length-frame_bytes, frame_bytes-All}
use solarbot_update.Frame.Stream.{msg, Carries, frame_bytes-Carries, random_byte-ne}
use solarbot_update.Aes128.{decrypt}
use solarbot_update.Aes128.Block.{All-drop}
use solarbot_update.MasterApp.{Link, draws, send_frame, send_command_ack, send_ping_ack}
use solarbot_update.MasterApp.Sending.{IsReady, send-Sends}

take_over :
    (xs ys : Bytes) (n : ℕ) → length xs ≤ n → take n (xs ++ ys) ≡ xs ++ take (n - length xs) ys
take_over [] ys n h = ap (λ (k : ℕ). take k ys) (omega arith)
take_over (x ∷ xs) ys zero h = absurd (omega arith)
take_over (x ∷ xs) ys (suc n) h =
    ap (λ (t : Bytes). x ∷ t)
      (take_over xs ys n (omega arith)
        ∙ ap (λ (k : ℕ). xs ++ take k ys) {x = n - length xs} (omega arith))

take_all : (xs : Bytes) (n : ℕ) → length xs ≡ n → take n xs ≡ xs
take_all [] zero e = refl
take_all [] (suc n) e = absurd (omega arith)
take_all (x ∷ xs) zero e = absurd (omega arith)
take_all (x ∷ xs) (suc n) e = ap (λ (t : Bytes). x ∷ t) (take_all xs n (omega arith))

-- The link has sent one packet more. The client that decrypts it under the same key and hands the
-- bytes to an idle decoder gets the message `m` from them.
module _ {S : Type 0} (handle : S → Frame → S × Frame) where
  pub record Delivers (s : S) (d : Frame) (l l' : Link) (m : Message) : Type 0 where
    pub packet : Bytes
    pub frame : Bytes
    pub rest : Bytes
    pub sent : l'.sent ≡ l.sent ++ packet ∷ []
    pub in_buffer : length packet ≤ 528
    pub clear_text : decrypt l.expanded_keys packet (length packet / 16) ≡ frame ++ rest
    pub carries : Carries handle s d frame m
    pub ready : IsReady l'

  send_frame-Delivers :
      (s : S) (d : Frame) (l : Link) (out : Bytes) (m : Message)
      → IsReady l
      → length out ≤ 512
      → All IsByte out
      → Carries handle s d out m
      → Delivers s d l (send_frame l (some out)) m
  unfolding send_frame
  send_frame-Delivers s d l out m v h ho c =
      let written = record l { tx_buffer = out ++ drop (length out) l.tx_buffer } in
      let p =
        send-Sends written (length out)
          (record {
            buffer_size = omega (
              arith,
              v.buffer_size,
              length-append out (drop (length out) l.tx_buffer),
              length-drop (length out) l.tx_buffer,
            );
            bytes =
                All-append IsByte out (drop (length out) l.tx_buffer) ho
                  (All-drop (length out) l.tx_buffer v.bytes);
            keys = v.keys;
          })
          h in
      record {
        packet = p.packet;
        frame = out;
        rest = take (16 * (1 + length out / 16) - length out) (drop (length out) l.tx_buffer);
        sent = p.sent;
        in_buffer = p.in_buffer;
        clear_text =
            ap (decrypt l.expanded_keys p.packet) (omega (arith, p.packet_size))
            ∙ p.clear_text
            ∙ take_over out (drop (length out) l.tx_buffer) (16 * (1 + length out / 16))
                (omega arith);
        carries = c;
        ready = p.ready;
      }

  frame-Delivers :
      (s : S) (d : Frame) (l : Link) (rnd t i : ℕ) (payload : Bytes)
      → IsIdle d
      → IsReady l
      → random_byte (draws l) ≡ some rnd
      → t < 0x7D
      → i < 65536
      → length payload ≤ 246
      → All IsByte payload
      → Delivers s d l (send_frame l (generate_frame (draws l) 512 t i payload)) (msg t i payload)
  frame-Delivers s d l rnd t i payload idle v e ht hi hn hp = rw generated (
      send_frame-Delivers s d l (frame_bytes rnd t i payload) (msg t i payload) v
        (omega (arith, length-frame_bytes rnd t i payload ht))
        (frame_bytes-All rnd t i payload (random_byte-ne (draws l) rnd e).1 (omega arith) hi
          (omega arith) hp)
        (frame_bytes-Carries handle s rnd t i payload idle (random_byte-ne (draws l) rnd e).0
          (omega arith)))
    where
      generated : generate_frame (draws l) 512 t i payload ≡ some (frame_bytes rnd t i payload)
      generated = unfold generate_frame in ground (arith, e)

  -- An acknowledgement of at most 246 bytes reaches the client: one packet goes out, not longer than
  -- the buffer; decrypted under the same key, its bytes begin with a frame from which an idle decoder
  -- takes exactly the acknowledgement with the command's id and the message. The conditions: the
  -- buffer has its size, buffer, key and message are bytes, the id has 16 bits, and `rand` gives a
  -- number that ends the loop for the random byte.
  pub send_command_ack-Delivers :
      (s : S) (d : Frame) (l : Link) (rnd i : ℕ) (text : Bytes)
      → IsIdle d
      → IsReady l
      → random_byte (draws l) ≡ some rnd
      → i < 65536
      → length text ≤ 246
      → All IsByte text
      → Delivers s d l (send_command_ack l i text) (msg command_ack i text)
  unfolding send_command_ack generate_command_ack_frame
  send_command_ack-Delivers s d l rnd i text idle v e hi hn ht =
      rw (take_all text (length text % 65536) (omega arith))
        (frame-Delivers s d l rnd command_ack i text idle v e (omega arith) hi hn ht)

  -- The answer to a ping is delivered to an idle receiver too: where the link's buffer has its size,
  -- buffer and key are bytes, the id has 16 bits, and `rand` gives a number that ends the loop for the
  -- random byte.
  send_ping_ack-Delivers :
      (s : S) (d : Frame) (l : Link) (rnd i : ℕ)
      → IsIdle d
      → IsReady l
      → random_byte (draws l) ≡ some rnd
      → i < 65536
      → Delivers s d l (send_ping_ack l i) (msg ping_ack i [])
  unfolding send_ping_ack generate_ping_ack_frame
  send_ping_ack-Delivers s d l rnd i idle v e hi =
      frame-Delivers s d l rnd ping_ack i [] idle v e (omega arith) hi (omega arith) tt
