-- ===== src/Frame/Fields.antt =====
-- What the decoder's buffer holds once the bytes of a frame are in it.
use solarbot_update.Base.{
  ℕ, suc, ◌+◌, ◌*◌, ◌/◌, ◌%◌, ◌<◌, ◌≡◌, sym, ap, ap₂, ◌∙◌, arith, ◌++◌, Bytes, All, IsByte,
  All-append, length, get_or, take, drop, get_or-take, take-take, drop-take, take-append,
  get_or-drop, get_or-append_right,
}
use solarbot_update.Crc16.{calculate}
use solarbot_update.Crc16.Poly.{calculate-lt}
use solarbot_update.Frame.{word_at, word_bytes, header_fields, header_bytes}

-- Reading at a place of a known prefix.
pub word_at-take :
    (k i : ℕ) (buf bs : Bytes) → take k buf ≡ bs → suc i < k → word_at buf i ≡ word_at bs i
word_at-take k i buf bs e h =
    ap₂ (λ (x y : ℕ). x + 256 * y) (sym (get_or-take k buf i 0 (omega arith)))
      (sym (get_or-take k buf (i + 1) 0 (omega arith)))
    ∙ ap (λ (l : Bytes). word_at l i) e

word_bytes_lem : (w : ℕ) → w % 256 + 256 * (w / 256) ≡ w
word_bytes_lem w = omega arith

word_bytes-All : (w : ℕ) → w < 65536 → All IsByte (word_bytes w)
word_bytes-All w h = omega arith

module _ (t i n : ℕ) (ht : t < 65536) (hi : i < 65536) (hn : n < 65536) where
  pub header_fields-All : All IsByte (header_fields t i n)
  header_fields-All = omega arith

  pub header_crc-lt : calculate (header_fields t i n) < 65536
  header_crc-lt = calculate-lt (header_fields t i n) header_fields-All

  pub header_bytes-All : All IsByte (header_bytes t i n)
  unfolding header_bytes
  header_bytes-All =
      All-append IsByte (header_fields t i n) (word_bytes (calculate (header_fields t i n)))
        header_fields-All (word_bytes-All (calculate (header_fields t i n)) header_crc-lt)

-- A header that is whole in the buffer passes its check, and its fields are read back.
pub record HeaderIn (t i n : ℕ) (buf : Bytes) : Type 0 where
  pub crc : word_at buf 6 ≡ calculate (take 6 buf)
  pub frame_type : word_at buf 0 ≡ t
  pub frame_id : word_at buf 2 ≡ i
  pub payload_length : word_at buf 4 ≡ n

pub header_in : (t i n : ℕ) (buf : Bytes) → take 8 buf ≡ header_bytes t i n → HeaderIn t i n buf
unfolding header_bytes
header_in t i n buf e = record {
  crc =
      word_at-take 8 6 buf (header_bytes t i n) e (omega arith)
      ∙ word_bytes_lem (calculate (header_fields t i n))
      ∙ ap calculate (sym fields);
  frame_type = word_at-take 8 0 buf (header_bytes t i n) e (omega arith) ∙ word_bytes_lem t;
  frame_id = word_at-take 8 2 buf (header_bytes t i n) e (omega arith) ∙ word_bytes_lem i;
  payload_length = word_at-take 8 4 buf (header_bytes t i n) e (omega arith) ∙ word_bytes_lem n;
}
  where
    fields : take 6 buf ≡ header_fields t i n
    fields = sym (take-take 6 8 buf (omega arith)) ∙ ap (take 6) e

-- A payload and its CRC behind a header pass the check of the payload.
pub record PayloadIn (payload buf : Bytes) : Type 0 where
  pub bytes : take (length payload) (drop 8 buf) ≡ payload
  pub crc : word_at buf (8 + length payload) ≡ calculate payload

pub payload_in :
    (t i n : ℕ) (payload buf : Bytes)
    → take (8 + (length payload + 2)) buf
      ≡ header_bytes t i n ++ (payload ++ word_bytes (calculate payload))
    → PayloadIn payload buf
unfolding header_bytes
payload_in t i n payload buf e = record {
  bytes =
      sym (take-take (length payload) (length payload + 2) (drop 8 buf) (omega arith))
      ∙ ap (take (length payload)) behind
      ∙ take-append payload (word_bytes (calculate payload));
  crc =
      ap₂ (λ (x y : ℕ). x + 256 * y) (place (8 + length payload) 0 (omega arith) (omega arith))
        (place (8 + length payload + 1) 1 (omega arith) (λ i. 8 + length payload + 1))
      ∙ word_bytes_lem (calculate payload);
}
  where
    behind : take (length payload + 2) (drop 8 buf) ≡ payload ++ word_bytes (calculate payload)
    behind = sym (drop-take 8 (length payload + 2) buf) ∙ ap (drop 8) e

    place :
        (j k : ℕ)
        → k < 2
        → j ≡ 8 + length payload + k
        → get_or buf j 0 ≡ get_or (word_bytes (calculate payload)) k 0
    place j k h at_j =
        ap (λ (m : ℕ). get_or buf m 0) (omega arith)
        ∙ sym (get_or-drop 8 buf (length payload + k) 0)
        ∙ sym (get_or-take (length payload + 2) (drop 8 buf) (length payload + k) 0 (omega arith))
        ∙ ap (λ (l : Bytes). get_or l (length payload + k) 0) behind
        ∙ get_or-append_right payload (word_bytes (calculate payload)) k 0
