-- ===== src/Frame/Stream.antt =====
-- The two ends of the command link together: frames written one after another are read back as the
-- messages that they carry.
use solarbot_update.Base.{
  ◌*◌, ℕ, ◌+◌, ◌≤◌, ◌<◌, ◌≡◌, ◌≢◌, refl, ap, ◌∙◌, arith, List, [], ◌∷◌, ◌++◌, Bytes, All, length,
  some, append_assoc, inl, inr, map, Option-cases, foldl,
}
use solarbot_update.Crc16.{calculate}
use solarbot_update.Frame.{
  Frame, word_bytes, header_bytes, add_all, frame_bytes, random_byte, generate_frame,
}
use solarbot_update.Frame.Decode.{Message, message, drive, IsIdle}
use solarbot_update.Frame.RoundTrip.{
  started, drive_start, started-IsReading, read_header, after_frame, read_payload,
}

abbrev pub msg : ℕ → ℕ → Bytes → Message
msg t i payload = record { frame_type = t; frame_id = i; payload = payload }

pub random_byte-ne : (draws : List ℕ) (r : ℕ) → random_byte draws ≡ some r → (r ≢ 0x7E) × (r < 256)
unfolding random_byte
random_byte-ne [] r e = cc
random_byte-ne (x ∷ draws) r e = ground (arith, random_byte-ne draws r)

-- What the generator writes, when its buffer is large enough, is one frame behind some byte that is
-- not 0x7E.
pub record Generates (t i : ℕ) (payload out : Bytes) : Type 0 where
  pub rnd_byte : ℕ
  pub rnd_ne : rnd_byte ≢ 0x7E
  pub rnd_lt : rnd_byte < 256
  pub frame : out ≡ frame_bytes rnd_byte t i payload

pub generate_frame-Generates :
    (draws : List ℕ) (size t i : ℕ) (payload out : Bytes)
    → 2 * (10 + length payload) ≤ size
    → generate_frame draws size t i payload ≡ some out
    → Generates t i payload out
unfolding generate_frame
generate_frame-Generates draws size t i payload out h e = elim (Option-cases (random_byte draws)) [
  | inl n ↦ absurd (ground arith)
  | inr (r, s) ↦ record {
    rnd_byte = r;
    rnd_ne = (random_byte-ne draws r s).0;
    rnd_lt = (random_byte-ne draws r s).1;
    frame = ground arith;
  }
]

abbrev frame_tail : ℕ → ℕ → Bytes → Bytes
frame_tail t i payload =
    add_all (header_bytes t i (length payload))
    ++ (add_all payload ++ add_all (word_bytes (calculate payload)))

tail_regroup :
    (t i : ℕ) (payload rest : Bytes)
    → frame_tail t i payload ++ rest
      ≡ add_all (header_bytes t i (length payload))
        ++ (add_all payload ++ (add_all (word_bytes (calculate payload)) ++ rest))
tail_regroup t i payload rest = simp append_assoc

-- A message with the random byte that its frame begins with.
pub record Sent : Type 0 where
  pub rnd_byte : ℕ
  pub sent : Message

abbrev pub IsSendable : Sent → Type 0
IsSendable s = (s.rnd_byte ≢ 0x7E) × (length s.sent.payload ≤ 1014)

-- Frames one after another on the line.
unfoldable pub send_all : List Sent → Bytes
send_all [] = []
send_all (s ∷ ss) =
    frame_bytes s.rnd_byte s.sent.frame_type s.sent.frame_id s.sent.payload ++ send_all ss

module _ {S : Type 0} (handle : S → Frame → S × Frame) where
  -- `bytes` make an idle decoder complete exactly one frame, `m`, and be idle again; the loop then
  -- goes on behind them as the handler has left it.
  pub record Carries (s : S) (d : Frame) (bytes : Bytes) (m : Message) : Type 0 where
    pub after : Frame
    pub idle : IsIdle after
    pub content : message after ≡ m
    pub bounded : after.rx_payload_length ≤ 1014
    pub handled :
        (rest : Bytes)
        → drive handle s d (bytes ++ rest) ≡ drive handle (handle s after).0 (handle s after).1 rest

  pub frame_bytes-Carries :
      (s : S) (rnd t i : ℕ) (payload : Bytes) {d : Frame}
      → IsIdle d
      → rnd ≢ 0x7E
      → length payload ≤ 1014
      → Carries s d (frame_bytes rnd t i payload) (msg t i payload)
  unfolding frame_bytes
  frame_bytes-Carries s rnd t i payload {d = d} idle ne h =
      let head = read_header handle s t i (length payload) (started-IsReading idle) in
      let body = read_payload handle s t i payload idle h in
      record {
        after = after_frame t i payload d;
        idle = body.idle;
        content = body.content;
        bounded = body.bounded;
        handled = λ rest.
            drive_start handle s d rnd _ idle ne
            ∙ ap (drive handle s (started d)) (tail_regroup t i payload rest)
            ∙ head.1 (add_all payload ++ (add_all (word_bytes (calculate payload)) ++ rest))
            ∙ body.received rest;
      }

  -- A frame that `GenerateFrame` has written to a buffer that was large enough, with a payload of at
  -- most 1014 bytes, makes an idle decoder complete exactly that frame, with its type, its id and its
  -- payload, whatever bytes these hold; the decoder is idle again, and the loop goes on behind the
  -- frame.
  pub drive-generate_frame :
      (s : S) (draws : List ℕ) (size t i : ℕ) (payload out : Bytes) (d : Frame)
      → IsIdle d
      → length payload ≤ 1014
      → 2 * (10 + length payload) ≤ size
      → generate_frame draws size t i payload ≡ some out
      → Carries s d out (msg t i payload)
  drive-generate_frame s draws size t i payload out d idle h fits e =
      let g = generate_frame-Generates draws size t i payload out fits e in
      rw g.frame (frame_bytes-Carries s g.rnd_byte t i payload idle g.rnd_ne h)

  module _ (answer : S → Message → S)
      (by_message : (s : S) (d : Frame)
        → IsIdle d
        → d.rx_payload_length ≤ 1014
        → (handle s d).0 ≡ answer s (message d))
      (keeps_idle : (s : S) (d : Frame) → IsIdle d → IsIdle (handle s d).1) where
    -- Frames one after another, each with a random byte other than 0x7E and at most 1014 bytes of
    -- payload, whatever these are, are handled as exactly the messages sent, in their order. The
    -- decoder begins idle, and the handler, on an idle decoder with such a payload, goes by the
    -- message and leaves the decoder idle.
    pub drive-send_all :
        (ss : List Sent) (s : S) {d : Frame}
        → IsIdle d
        → All IsSendable ss
        → (drive handle s d (send_all ss)).0 ≡ foldl answer s (map (λ x. x.sent) ss)
    unfolding send_all
    drive-send_all [] s idle h = unfold drive in refl
    drive-send_all (x ∷ ss) s {d = d} idle (hx, h) =
        let c =
          frame_bytes-Carries s x.rnd_byte x.sent.frame_type x.sent.frame_id x.sent.payload {d = d}
            idle hx.0 hx.1 in
        ap (λ (r : S × Frame). r.0) (c.handled (send_all ss))
        ∙ drive-send_all ss (handle s c.after).0 (keeps_idle s c.after c.idle) h
        ∙ ap (λ (t : S). foldl answer t (map (λ y. y.sent) ss))
            (by_message s c.after c.idle c.bounded ∙ ap (answer s) c.content)
