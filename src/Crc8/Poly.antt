-- ===== src/Crc8/Poly.antt =====
-- The table of CRC8.cpp against the bit-by-bit division by x^8 + x^2 + x + 1.
use solarbot_update.Base.{
  ℕ, zero, suc, ◌*◌, ◌/◌, ◌%◌, ◌<◌, ◌≡◌, refl, sym, ap, ap₂, ◌∙◌, arith, bit_xor, [], ◌∷◌, Bytes,
  All, IsByte, get_or, ◌==◌, all_below, agree_below, true,
}
use solarbot_update.Base.Bits.{
  bit_xor-lt, bit_xor-mod, bit_xor-div, bit_xor_double, bit_xor-zero, bit_xor_assoc, bit_xor_comm,
}
use solarbot_update.Crc8.{
  lookup_table, initial, update_high, update_low, update, update_all, calculate,
}

-- Shift one bit out at the top, and take the polynomial off when it is a one.
unfoldable pub shift_bit : ℕ → ℕ
shift_bit c = bit_xor (2 * c % 256) (c / 128 * 0x07)

unfoldable pub shift_bits : ℕ → ℕ → ℕ
unfolding shift_bit
shift_bits zero c = c
shift_bits (suc n) c = shift_bits n (shift_bit c)

-- The remainder of a message.
unfoldable pub remainder : ℕ → Bytes → ℕ
remainder crc [] = crc
remainder crc (b ∷ bs) = remainder (shift_bits 8 (bit_xor crc b)) bs

-- By evaluation: the two table steps on a byte 0 are eight shifts.
update_zero_check : all_below 256 (λ c. update c 0 == shift_bits 8 c) ≡ true
unfolding all_below update update_high update_low lookup_table shift_bits
update_zero_check = refl

shift_bits-lt : (n c : ℕ) → c < 256 → shift_bits n c < 256
unfolding shift_bits shift_bit
shift_bits-lt zero c h = h
shift_bits-lt (suc n) c h =
    shift_bits-lt n (shift_bit c)
      (bit_xor-lt 8 (2 * c % 256) (c / 128 * 0x07) (omega arith) (omega arith))

-- A nibble moved to the top half.
raise-bit_xor : (a b : ℕ) → bit_xor a b * 16 % 256 ≡ bit_xor (a * 16 % 256) (b * 16 % 256)
raise-bit_xor a b =
    omega (arith, bit_xor-mod 4 a b)
    ∙ sixteen (a % 16) (b % 16)
    ∙ ap₂ bit_xor (omega arith) (omega arith)
  where
    sixteen : (x y : ℕ) → 16 * bit_xor x y ≡ bit_xor (16 * x) (16 * y)
    sixteen x y = omega (
      arith,
      bit_xor_double x y,
      bit_xor_double (2 * x) (2 * y),
      bit_xor_double (2 * (2 * x)) (2 * (2 * y)),
      bit_xor_double (2 * (2 * (2 * x))) (2 * (2 * (2 * y))),
      ap₂ bit_xor (four x) (four y),
    )
      where
        four : (n : ℕ) → 2 * (2 * (2 * (2 * n))) ≡ 16 * n
        four n = omega arith

-- The byte can be put in before the first step.
update_high-bit_xor :
    (crc val : ℕ) → update_high (bit_xor crc val) 0 ≡ bit_xor (update_high crc val) (val * 16 % 256)
unfolding update_high
update_high-bit_xor crc val =
    ap₂ bit_xor (raise-bit_xor crc val) (ap entry (bit_xor-zero (bit_xor crc val)))
    ∙ bit_xor_assoc (crc * 16 % 256) (val * 16 % 256) (entry (bit_xor crc val))
    ∙ ap (bit_xor (crc * 16 % 256)) (bit_xor_comm (val * 16 % 256) (entry (bit_xor crc val)))
    ∙ sym (bit_xor_assoc (crc * 16 % 256) (entry (bit_xor crc val)) (val * 16 % 256))
  where
    entry : ℕ → ℕ
    entry x = get_or lookup_table (x / 16) 0

update_low-bit_xor :
    (crc val : ℕ) → update_low (bit_xor crc (val * 16 % 256)) 0 ≡ update_low crc val
unfolding update_low
update_low-bit_xor crc val =
    ap₂ bit_xor
      (raise-bit_xor crc (val * 16 % 256)
        ∙ ap (bit_xor (crc * 16 % 256)) (omega arith)
        ∙ bit_xor-zero (crc * 16 % 256))
      (ap (λ (i : ℕ). get_or lookup_table i 0)
        (ap (λ (t : ℕ). t % 16) (bit_xor-zero (bit_xor crc (val * 16 % 256) / 16))
          ∙ ap (λ (t : ℕ). t % 16) (bit_xor-div 4 crc (val * 16 % 256))
          ∙ bit_xor-mod 4 (crc / 16) (val * 16 % 256 / 16)
          ∙ ap (bit_xor (crc / 16 % 16)) (omega arith)
          ∙ sym (bit_xor-mod 4 (crc / 16) val)))

update-bit_xor : (crc val : ℕ) → update crc val ≡ update (bit_xor crc val) 0
unfolding update
update-bit_xor crc val = sym (
    ap (λ (t : ℕ). update_low t 0) (update_high-bit_xor crc val)
    ∙ update_low-bit_xor (update_high crc val) val)

update-shift_bits :
    (crc val : ℕ) → crc < 256 → val < 256 → update crc val ≡ shift_bits 8 (bit_xor crc val)
update-shift_bits crc val hc hv =
    update-bit_xor crc val
    ∙ agree_below 256 (λ c. update c 0) (shift_bits 8) (bit_xor crc val) update_zero_check
        (bit_xor-lt 8 crc val hc hv)

update_all-remainder :
    (crc : ℕ) (bs : Bytes) → crc < 256 → All IsByte bs → update_all crc bs ≡ remainder crc bs
unfolding update_all remainder
update_all-remainder crc [] hc h = refl
update_all-remainder crc (b ∷ bs) hc (hb, hs) = rw (update-shift_bits crc b hc hb) (
    update_all-remainder (shift_bits 8 (bit_xor crc b)) bs
      (shift_bits-lt 8 (bit_xor crc b) (bit_xor-lt 8 crc b hc hb)) hs)

-- The CRC that CRC8.cpp computes nibble by nibble from its table is, for every message of bytes, the
-- remainder of the bit-by-bit division by the polynomial 0x07, started at 0xFF.
pub calculate-remainder : (bs : Bytes) → All IsByte bs → calculate bs ≡ remainder initial bs
unfolding calculate
calculate-remainder bs h = update_all-remainder initial bs (omega arith) h
