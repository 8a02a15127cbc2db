-- ===== src/Crc16/Detect.antt =====
-- What the CRC of CRC16.cpp detects: the division is injective, in the register and in the byte.
use solarbot_update.Base.{
  ℕ, zero, suc, ◌*◌, ◌/◌, ◌%◌, ◌<◌, ◌≡◌, ◌≢◌, refl, sym, ap, ◌∙◌, arith, bit_xor, [], ◌∷◌, ◌++◌,
  Bytes, All, IsByte, All-append,
}
use solarbot_update.Base.Bits.{bit_xor_comm, bit_xor_cancel, bit_xor-mod_two, bit_xor-lt}
use solarbot_update.Crc16.{calculate}
use solarbot_update.Crc16.Poly.{
  shift_bit, shift_bits, divide_byte, divide, calculate-divide, shift_bit-lt, divide_byte-lt,
  divide-lt,
}

bit_xor_injective : (a b m : ℕ) → bit_xor a m ≡ bit_xor b m → a ≡ b
bit_xor_injective a b m e =
    sym (bit_xor_cancel a m) ∙ ap (λ (t : ℕ). bit_xor t m) e ∙ bit_xor_cancel b m

-- The polynomial is odd, so the lowest digit tells what was shifted out.
shift_bit-mod_two : (c : ℕ) → c < 65536 → shift_bit c % 2 ≡ c / 32768
unfolding shift_bit
shift_bit-mod_two c h = omega (arith, bit_xor-mod_two (2 * c % 65536) (c / 32768 * 0x8005))

shift_bit_injective : (a b : ℕ) → a < 65536 → b < 65536 → shift_bit a ≡ shift_bit b → a ≡ b
unfolding shift_bit
shift_bit_injective a b ha hb e = omega (arith, top, low)
  where
    top : a / 32768 ≡ b / 32768
    top = omega (arith, shift_bit-mod_two a ha, shift_bit-mod_two b hb, ap (λ (t : ℕ). t % 2) e)

    low : 2 * a % 65536 ≡ 2 * b % 65536
    low =
        bit_xor_injective (2 * a % 65536) (2 * b % 65536) (b / 32768 * 0x8005)
          (ap (λ (t : ℕ). bit_xor (2 * a % 65536) (t * 0x8005)) (sym top) ∙ e)

shift_bits_injective : (n a b : ℕ) → a < 65536 → b < 65536 → shift_bits n a ≡ shift_bits n b → a ≡ b
unfolding shift_bits
shift_bits_injective zero a b ha hb e = e
shift_bits_injective (suc n) a b ha hb e =
    shift_bit_injective a b ha hb
      (shift_bits_injective n (shift_bit a) (shift_bit b) (shift_bit-lt a ha) (shift_bit-lt b hb) e)

module _ (x y : ℕ) (hx : x < 65536) (hy : y < 65536) where
  divide_byte_injective : (b : ℕ) → b < 256 → divide_byte x b ≡ divide_byte y b → x ≡ y
  unfolding divide_byte
  divide_byte_injective b hb e = bit_xor_injective x y (b * 256) (
      shift_bits_injective 8 (bit_xor x (b * 256)) (bit_xor y (b * 256))
        (bit_xor-lt 16 x (b * 256) hx (omega arith)) (bit_xor-lt 16 y (b * 256) hy (omega arith)) e)

divide_byte_byte :
    (x a b : ℕ) → x < 65536 → a < 256 → b < 256 → divide_byte x a ≡ divide_byte x b → a ≡ b
unfolding divide_byte
divide_byte_byte x a b hx ha hb e = omega (arith, shifted)
  where
    mixed : bit_xor x (a * 256) ≡ bit_xor x (b * 256)
    mixed =
        shift_bits_injective 8 (bit_xor x (a * 256)) (bit_xor x (b * 256))
          (bit_xor-lt 16 x (a * 256) hx (omega arith)) (bit_xor-lt 16 x (b * 256) hx (omega arith))
          e

    shifted : a * 256 ≡ b * 256
    shifted =
        bit_xor_injective (a * 256) (b * 256) x
          (bit_xor_comm (a * 256) x ∙ mixed ∙ bit_xor_comm x (b * 256))

divide_injective :
    (bs : Bytes) (x y : ℕ)
    → x < 65536
    → y < 65536
    → All IsByte bs
    → divide x bs ≡ divide y bs
    → x ≡ y
unfolding divide
divide_injective [] x y hx hy h e = e
divide_injective (b ∷ bs) x y hx hy (hb, hs) e = divide_byte_injective x y hx hy b hb (
    divide_injective bs (divide_byte x b) (divide_byte y b) (divide_byte-lt x b hx hb)
      (divide_byte-lt y b hy hb) hs e)

divide-append : (xs ys : Bytes) (c : ℕ) → divide c (xs ++ ys) ≡ divide (divide c xs) ys
unfolding divide
divide-append [] ys c = refl
divide-append (x ∷ xs) ys c = divide-append xs ys (divide_byte c x)

-- Two messages of bytes that differ in one byte have different CRCs, wherever that byte stands.
pub calculate_one_byte :
    (before after : Bytes) (a b : ℕ)
    → All IsByte before
    → All IsByte after
    → a < 256
    → b < 256
    → a ≢ b
    → calculate (before ++ a ∷ after) ≢ calculate (before ++ b ∷ after)
calculate_one_byte before after a b hp hs ha hb ne e = ne (
    divide_byte_byte c a b hc ha hb (
      divide_injective after (divide_byte c a) (divide_byte c b) (divide_byte-lt c a hc ha)
        (divide_byte-lt c b hc hb) hs (sym (remainder a ha) ∙ e ∙ remainder b hb)))
  where
    c : ℕ
    c = divide 0 before

    hc : divide 0 before < 65536
    hc = divide-lt 0 before (omega arith) hp

    remainder :
        (x : ℕ)
        → x < 256
        → calculate (before ++ x ∷ after) ≡ divide (divide_byte (divide 0 before) x) after
    remainder x hx =
        calculate-divide (before ++ x ∷ after) (All-append IsByte before (x ∷ after) hp (hx, hs))
        ∙ divide-append before (x ∷ after) 0
        ∙ unfold divide in refl
