-- ===== src/Frame/Encode.antt =====
-- What `GenerateFrame` writes: how many bytes, and which.
use solarbot_update.Base.Bits.{bit_xor-lt}
use solarbot_update.Crc16.Poly.{calculate-lt}
use solarbot_update.Base.{
  All, All-append, IsByte, ◌||◌, ◌==◌, Bool-cases, inl, inr, ℕ, ◌+◌, ◌*◌, ◌/◌, ◌%◌, ◌≤◌, ◌<◌, ◌≡◌,
  arith, List, [], ◌∷◌, ◌++◌, Bytes, length, length-append, some, Option-cases, inl, inr,
}
use solarbot_update.Crc16.{calculate}
use solarbot_update.Frame.{
  add_with_escape, add_all, word_bytes, header_fields, header_bytes, frame_bytes, random_byte,
  generate_frame,
}

length-add_with_escape : (b : ℕ) → length (add_with_escape b) ≤ 2
unfolding add_with_escape
length-add_with_escape b = ground arith

length-add_all : (bs : Bytes) → length (add_all bs) ≤ 2 * length bs
unfolding add_all
length-add_all [] = omega arith
length-add_all (b ∷ bs) = omega (
  arith,
  length-append (add_with_escape b) (add_all bs),
  length-add_with_escape b,
  length-add_all bs,
)

plain : (b : ℕ) → b < 0x7D → length (add_with_escape b) ≡ 1
unfolding add_with_escape
plain b h = ground arith

-- The two bytes of a frame type below 0x7D are not escaped.
length-add_all_header : (t i n : ℕ) → t < 0x7D → length (add_all (header_bytes t i n)) ≤ 14
unfolding header_bytes add_all
length-add_all_header t i n h = omega (
  arith,
  plain (t % 256) (omega arith),
  plain (t / 256) (omega arith),
  length-append (add_with_escape (t % 256)) (add_with_escape (t / 256) ++ add_all rest),
  length-append (add_with_escape (t / 256)) (add_all rest),
  length-add_all rest,
)
  where
    rest : Bytes
    rest = i % 256 ∷ i / 256 ∷ n % 256 ∷ n / 256 ∷ word_bytes (calculate (header_fields t i n))

pub length-frame_bytes :
    (rnd t i : ℕ) (payload : Bytes)
    → t < 0x7D
    → length (frame_bytes rnd t i payload) ≤ 2 * (10 + length payload)
unfolding frame_bytes
length-frame_bytes rnd t i payload h = omega (
  arith,
  length-append (add_all (header_bytes t i (length payload)))
      (add_all payload ++ add_all (word_bytes (calculate payload))),
  length-append (add_all payload) (add_all (word_bytes (calculate payload))),
  length-add_all_header t i (length payload) h,
  length-add_all payload,
  length-add_all (word_bytes (calculate payload)),
)

-- For a frame type below 0x7D, which all types of the link are, `GenerateFrame` never writes past
-- the end of the buffer that it was given, whatever the id, the payload and the random numbers are.
pub length-generate_frame :
    (draws : List ℕ) (size t i : ℕ) (payload out : Bytes)
    → t < 0x7D
    → generate_frame draws size t i payload ≡ some out
    → length out ≤ size
unfolding generate_frame
length-generate_frame draws size t i payload out h e = elim (Option-cases (random_byte draws)) [
  | inl n ↦ ground arith
  | inr (r, s) ↦ ground (arith, length-frame_bytes r t i payload h)
]

add_with_escape-All : (b : ℕ) → b < 256 → All IsByte (add_with_escape b)
unfolding add_with_escape
add_with_escape-All b h = elim (Bool-cases (b == 0x7E || b == 0x7D)) [
  | inl e ↦ rw e (omega arith, (bit_xor-lt 8 b 0x20 h (omega arith), tt))
  | inr e ↦ rw e (h, tt)
]

add_all-All : (bs : Bytes) → All IsByte bs → All IsByte (add_all bs)
unfolding add_all
add_all-All [] h = tt
add_all-All (b ∷ bs) h =
    All-append IsByte (add_with_escape b) (add_all bs) (add_with_escape-All b h.0)
      (add_all-All bs h.1)

word_bytes-All : (w : ℕ) → w < 65536 → All IsByte (word_bytes w)
word_bytes-All w h = (omega arith, (omega arith, tt))

header_fields-All :
    (t i n : ℕ) → t < 65536 → i < 65536 → n < 65536 → All IsByte (header_fields t i n)
header_fields-All t i n ht hi hn =
    (omega arith, (omega arith, (omega arith, (omega arith, (omega arith, (omega arith, tt))))))

-- A frame of bytes is bytes.
pub frame_bytes-All :
    (rnd t i : ℕ) (payload : Bytes)
    → rnd < 256
    → t < 65536
    → i < 65536
    → length payload < 65536
    → All IsByte payload
    → All IsByte (frame_bytes rnd t i payload)
unfolding frame_bytes header_bytes
frame_bytes-All rnd t i payload hr ht hi hn hp =
    let fields = header_fields t i (length payload) in
    let fields_all = header_fields-All t i (length payload) ht hi hn in
    let header_all =
      All-append IsByte fields (word_bytes (calculate fields)) fields_all
        (word_bytes-All (calculate fields) (calculate-lt fields fields_all)) in
    (
      hr,
      (
        omega arith,
        All-append IsByte (add_all (header_bytes t i (length payload)))
            (add_all payload ++ add_all (word_bytes (calculate payload)))
            (add_all-All (header_bytes t i (length payload)) header_all)
            (All-append IsByte (add_all payload) (add_all (word_bytes (calculate payload)))
              (add_all-All payload hp)
              (add_all-All (word_bytes (calculate payload))
                (word_bytes-All (calculate payload) (calculate-lt payload hp)))),
      ),
    )
