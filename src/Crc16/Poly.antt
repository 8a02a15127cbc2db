-- ===== src/Crc16/Poly.antt =====
-- The table of CRC16.cpp against the bit-by-bit division by x^16 + x^15 + x^2 + 1.
use solarbot_update.Base.{
  ℕ, zero, suc, ◌+◌, ◌*◌, ◌/◌, ◌%◌, ◌<◌, ◌≡◌, refl, sym, ap, ap₂, ◌∙◌, arith, bit_xor, [], ◌∷◌,
  Bytes, All, IsByte, get_or, ◌==◌, all_below, agree_below, true,
}
use solarbot_update.Base.Bits.{bit_xor-lt, zero-bit_xor, shift_out, shift_out-bit_xor, bit_xor_high}
use solarbot_update.Crc16.{table, update, update_all, calculate}

-- Shift one bit out at the top, and take the polynomial off when it is a one.
unfoldable pub shift_bit : ℕ → ℕ
shift_bit c = bit_xor (2 * c % 65536) (c / 32768 * 0x8005)

unfoldable pub shift_bits : ℕ → ℕ → ℕ
unfolding shift_bit
shift_bits zero c = c
shift_bits (suc n) c = shift_bits n (shift_bit c)

-- The remainder after one more byte: the byte goes in at the top.
unfoldable pub divide_byte : ℕ → ℕ → ℕ
divide_byte crc byte = shift_bits 8 (bit_xor crc (byte * 256))

-- The remainder of a message.
unfoldable pub divide : ℕ → Bytes → ℕ
divide crc [] = crc
divide crc (b ∷ bs) = divide (divide_byte crc b) bs

shift_bit-shift_out : (c : ℕ) → shift_bit c ≡ shift_out 15 0x8005 c
unfolding shift_bit
shift_bit-shift_out c = ap (λ (t : ℕ). bit_xor t (c / 32768 * 0x8005)) (omega arith)

pub shift_bit-lt : (c : ℕ) → c < 65536 → shift_bit c < 65536
unfolding shift_bit
shift_bit-lt c h = bit_xor-lt 16 (2 * c % 65536) (c / 32768 * 0x8005) (omega arith) (omega arith)

shift_bit-bit_xor :
    (a b : ℕ)
    → a < 65536
    → b < 65536
    → shift_bit (bit_xor a b) ≡ bit_xor (shift_bit a) (shift_bit b)
shift_bit-bit_xor a b ha hb =
    shift_bit-shift_out (bit_xor a b)
    ∙ shift_out-bit_xor 15 0x8005 a b (omega arith) (omega arith)
    ∙ sym (ap₂ bit_xor (shift_bit-shift_out a) (shift_bit-shift_out b))

shift_bits-bit_xor :
    (n a b : ℕ)
    → a < 65536
    → b < 65536
    → shift_bits n (bit_xor a b) ≡ bit_xor (shift_bits n a) (shift_bits n b)
unfolding shift_bits
shift_bits-bit_xor zero a b ha hb = refl
shift_bits-bit_xor (suc n) a b ha hb =
    rw shift_bit-bit_xor
      (shift_bits-bit_xor n (shift_bit a) (shift_bit b) (shift_bit-lt a ha) (shift_bit-lt b hb))

shift_bits-lt : (n c : ℕ) → c < 65536 → shift_bits n c < 65536
unfolding shift_bits
shift_bits-lt zero c h = h
shift_bits-lt (suc n) c h = shift_bits-lt n (shift_bit c) (shift_bit-lt c h)

-- By evaluation: the table holds the remainders of the 256 high bytes, and a low byte is only moved.
table_check : all_below 256 (λ u. shift_bits 8 (u * 256) == get_or table u 0) ≡ true
unfolding all_below shift_bits table
table_check = refl

low_check : all_below 256 (λ l. shift_bits 8 l == l * 256) ≡ true
unfolding all_below shift_bits
low_check = refl

abbrev high_word : ℕ → ℕ
high_word u = shift_bits 8 (u * 256)

abbrev table_word : ℕ → ℕ
table_word u = get_or table u 0

shift_bits-fields :
    (u l : ℕ) → u < 256 → l < 256 → shift_bits 8 (u * 256 + l) ≡ bit_xor (l * 256) (table_word u)
shift_bits-fields u l hu hl =
    ap (shift_bits 8) joined
    ∙ shift_bits-bit_xor 8 l (u * 256) (omega arith) (omega arith)
    ∙ ap₂ bit_xor (agree_below 256 (shift_bits 8) (λ l. l * 256) l low_check hl)
        (agree_below 256 high_word table_word u table_check hu)
  where
    joined : u * 256 + l ≡ bit_xor l (u * 256)
    joined = omega (
      arith,
      bit_xor_high 8 0 u l (omega arith),
      ap (λ (t : ℕ). t * 256) (zero-bit_xor u),
      ap (λ (t : ℕ). bit_xor t (u * 256)) (low l),
    )
      where
        low : (n : ℕ) → 0 * 256 + n ≡ n
        low n = omega arith

-- One round of the table is one byte of the division.
update-divide_byte : (crc b : ℕ) → crc < 65536 → b < 256 → update crc b ≡ divide_byte crc b
unfolding update divide_byte
update-divide_byte crc b hc hb =
    ap₂ bit_xor (omega arith) (ap table_word (omega (arith, top)))
    ∙ sym (shift_bits-fields (bit_xor (crc / 256) b) (crc % 256) top (omega arith))
    ∙ ap (shift_bits 8) (sym (bit_xor_high 8 (crc / 256) b (crc % 256) (omega arith)) ∙ whole)
  where
    top : bit_xor (crc / 256) b < 256
    top = bit_xor-lt 8 (crc / 256) b (omega arith) hb

    whole : bit_xor (crc / 256 * 256 + crc % 256) (b * 256) ≡ bit_xor crc (b * 256)
    whole = ap (λ (t : ℕ). bit_xor t (b * 256)) (omega arith)

pub divide_byte-lt : (crc b : ℕ) → crc < 65536 → b < 256 → divide_byte crc b < 65536
unfolding divide_byte
divide_byte-lt crc b hc hb =
    shift_bits-lt 8 (bit_xor crc (b * 256)) (bit_xor-lt 16 crc (b * 256) hc (omega arith))

update_all-divide :
    (crc : ℕ) (bs : Bytes) → crc < 65536 → All IsByte bs → update_all crc bs ≡ divide crc bs
unfolding update_all divide
update_all-divide crc [] hc h = refl
update_all-divide crc (b ∷ bs) hc (hb, hs) =
    rw (update-divide_byte crc b hc hb)
      (update_all-divide (divide_byte crc b) bs (divide_byte-lt crc b hc hb) hs)

-- The CRC of the code is the remainder of the bit-by-bit division by the polynomial 0x8005, for
-- every message of bytes.
pub calculate-divide : (bs : Bytes) → All IsByte bs → calculate bs ≡ divide 0 bs
unfolding calculate
calculate-divide bs h = update_all-divide 0 bs (omega arith) h

pub divide-lt : (crc : ℕ) (bs : Bytes) → crc < 65536 → All IsByte bs → divide crc bs < 65536
unfolding divide
divide-lt crc [] hc h = hc
divide-lt crc (b ∷ bs) hc (hb, hs) =
    divide-lt (divide_byte crc b) bs (divide_byte-lt crc b hc hb) hs

-- The CRC is a 16-bit number.
pub calculate-lt : (bs : Bytes) → All IsByte bs → calculate bs < 65536
calculate-lt bs h = rw (calculate-divide bs h) (divide-lt 0 bs (omega arith) h)
