-- ===== src/Frame/Safe.antt =====
-- What holds of the decoder of Frame.cpp whatever bytes arrive.
use solarbot_update.Base.{
  ℕ, ◌+◌, ◌≤◌, ◌<◌, ◌≡◌, refl, sym, ap, ◌∙◌, arith, bit_xor, true, false, Bytes, length, set, take,
  drop, length-set, take-set_above, if◌then◌else◌,
}
use solarbot_update.Crc16.{calculate}
use solarbot_update.Frame.{Frame, frame_buffer_size, word_at, store, decode_frame}
use solarbot_update.Frame.Fields.{word_at-take}

-- The header in the buffer, and the fields that were taken from it.
pub record HeaderTaken (d : Frame) : Type 0 where
  pub crc : word_at d.frame_buffer 6 ≡ calculate (take 6 d.frame_buffer)
  pub frame_type : d.rx_frame_type ≡ word_at d.frame_buffer 0
  pub frame_id : d.rx_frame_id ≡ word_at d.frame_buffer 2
  pub payload_length : d.rx_payload_length ≡ word_at d.frame_buffer 4

-- The buffer has its size, the index does not leave it, and behind the header the decoder works
-- with a header whose CRC is right.
pub record IsValid (d : Frame) : Type 0 where
  pub buffer_size : length d.frame_buffer ≡ frame_buffer_size
  pub index : d.frame_buffer_index ≤ frame_buffer_size
  pub header : d.decoding ≡ true → 8 ≤ d.frame_buffer_index → HeaderTaken d

-- What is known when `DecodeFrame` returns true.
pub record IsComplete (d : Frame) : Type 0 where
  pub header : HeaderTaken d
  pub payload_crc :
      calculate (take d.rx_payload_length (drop 8 d.frame_buffer))
      ≡ word_at d.frame_buffer (8 + d.rx_payload_length)
  pub in_buffer : d.rx_payload_length + 10 ≤ frame_buffer_size
  pub stopped : d.decoding ≡ false

-- A byte written behind the header leaves what was taken.
HeaderTaken-set :
    (d : Frame) (a : ℕ)
    → 8 ≤ d.frame_buffer_index
    → HeaderTaken d
    → HeaderTaken (record d { frame_buffer = set d.frame_buffer d.frame_buffer_index a })
HeaderTaken-set d a h t = record {
  crc = word 6 (omega arith) ∙ t.crc ∙ ap calculate (sym six);
  frame_type = t.frame_type ∙ sym (word 0 (omega arith));
  frame_id = t.frame_id ∙ sym (word 2 (omega arith));
  payload_length = t.payload_length ∙ sym (word 4 (omega arith));
}
  where
    buf : Bytes
    buf = set d.frame_buffer d.frame_buffer_index a

    six : take 6 (set d.frame_buffer d.frame_buffer_index a) ≡ take 6 d.frame_buffer
    six = take-set_above 6 d.frame_buffer d.frame_buffer_index a (omega arith)

    word :
        (i : ℕ)
        → i < 7
        → word_at (set d.frame_buffer d.frame_buffer_index a) i ≡ word_at d.frame_buffer i
    word i hi =
        word_at-take 8 i buf (take 8 d.frame_buffer)
          (take-set_above 8 d.frame_buffer d.frame_buffer_index a h) (omega arith)
        ∙ sym (word_at-take 8 i d.frame_buffer (take 8 d.frame_buffer) refl (omega arith))

store-IsValid :
    (d : Frame) (a : ℕ)
    → IsValid d
    → d.decoding ≡ true
    → IsValid (store d a).0 × ((store d a).1 ≡ true → IsComplete (store d a).0)
unfolding store
store-IsValid d a v on =
    ground (arith, length-set d.frame_buffer d.frame_buffer_index a, HeaderTaken-set d a, v.header)

clear-IsValid : {d : Frame} → IsValid d → IsValid (record d { escaping = false })
clear-IsValid v = record {
  buffer_size = v.buffer_size;
  index = v.index;
  header = λ on h.
      let t = v.header on h in
      record {
        crc = t.crc;
        frame_type = t.frame_type;
        frame_id = t.frame_id;
        payload_length = t.payload_length;
      };
}

decode_frame_step :
    (d : Frame) (a : ℕ)
    → IsValid d
    → IsValid (decode_frame d a).0 × ((decode_frame d a).1 ≡ true → IsComplete (decode_frame d a).0)
unfolding decode_frame
decode_frame_step d a v = ground (
  arith,
  λ (on : d.decoding ≡ true).
      store-IsValid (record d { escaping = false }) (if d.escaping then bit_xor a 0x20 else a)
        (clear-IsValid v) on,
  v.header,
)

-- Every byte keeps a valid decoder valid: the index stays within the 1024 bytes of the buffer, and
-- behind the header the decoder works with a header whose CRC is right.
pub decode_frame-IsValid : (d : Frame) (a : ℕ) → IsValid d → IsValid (decode_frame d a).0
decode_frame-IsValid d a v = (decode_frame_step d a v).0

-- When `DecodeFrame` returns true on a valid decoder, the CRCs of the header and of the payload are
-- right, the fields are those of the header, the whole frame lies in the buffer, and decoding has
-- stopped.
pub decode_frame-IsComplete :
    (d : Frame) (a : ℕ) → IsValid d → (decode_frame d a).1 ≡ true → IsComplete (decode_frame d a).0
decode_frame-IsComplete d a v h = (decode_frame_step d a v).1 h
