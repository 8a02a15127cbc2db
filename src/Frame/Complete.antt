-- ===== src/Frame/Complete.antt =====
-- The two bytes at which the decoder of Frame.cpp checks a CRC.
use solarbot_update.Base.{
  ℕ, suc, ◌+◌, ◌<◌, ◌≡◌, ap, ◌∙◌, arith, Bool, true, false, [], ◌∷◌, ◌++◌, Bytes, length, take,
  length-append, set, length-set, take-set, ◌≤◌,
}
use solarbot_update.Crc16.{calculate}
use solarbot_update.Frame.{Frame, store, word_bytes, header_bytes}
use solarbot_update.Frame.Decode.{Message, message, IsIdle, IsReading, clear}
use solarbot_update.Frame.Fields.{header_in, payload_in}

-- The last byte of a header: its CRC is right and its fields are taken.
pub store_header :
    (t i n b : ℕ) {t' i' n' : ℕ} {bs : Bytes} {d : Frame}
    → IsReading t' i' n' bs d
    → length bs ≡ 7
    → bs ++ b ∷ [] ≡ header_bytes t i n
    → ((store (clear d) b).1 ≡ false) × IsReading t i n (bs ++ b ∷ []) (store (clear d) b).0
unfolding store
store_header t i n b {bs = bs} {d = d} r h e = ground (
  arith,
  header_in t i n (set d.frame_buffer d.frame_buffer_index b),
  length-set d.frame_buffer d.frame_buffer_index b,
  take-set d.frame_buffer d.frame_buffer_index b,
  length-append bs (b ∷ []),
)

-- The last byte of a frame: the payload's CRC is right and the frame is complete.
pub record Completes (m : Message) (r : Frame × Bool) : Type 0 where
  pub done : r.1 ≡ true
  pub idle : IsIdle r.0
  pub content : message r.0 ≡ m
  pub bounded : r.0.rx_payload_length ≤ 1014

pub store_last :
    (t i b : ℕ) (payload : Bytes) {bs : Bytes} {d : Frame}
    → IsReading t i (length payload) bs d
    → length payload + 9 < 1024
    → bs ++ b ∷ []
      ≡ header_bytes t i (length payload) ++ (payload ++ word_bytes (calculate payload))
    → Completes (record { frame_type = t; frame_id = i; payload = payload }) (store (clear d) b)
unfolding store
store_last t i b payload {bs = bs} {d = d} r h e = ground (
  arith,
  size,
  (payload_in t i (length payload) payload buf full).bytes,
  (payload_in t i (length payload) payload buf full).crc,
  length-set d.frame_buffer d.frame_buffer_index b,
)
  where
    buf : Bytes
    buf = set d.frame_buffer d.frame_buffer_index b

    size : length bs ≡ length payload + 9
    size =
        unfold header_bytes in
        omega (
          arith,
          length-append bs (b ∷ []),
          ap length e,
          length-append payload (word_bytes (calculate payload)),
        )

    full :
        take (8 + (length payload + 2)) (set d.frame_buffer d.frame_buffer_index b)
        ≡ header_bytes t i (length payload) ++ (payload ++ word_bytes (calculate payload))
    full =
        ap (λ (k : ℕ). take k buf) {y = suc d.frame_buffer_index} (omega (arith, size))
        ∙ take-set d.frame_buffer d.frame_buffer_index b (omega (arith, size))
        ∙ ap (λ (k : ℕ). take k d.frame_buffer ++ b ∷ []) r.index
        ∙ ap (λ (l : Bytes). l ++ b ∷ []) r.stored
        ∙ e
