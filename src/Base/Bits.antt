-- ===== src/Base/Bits.antt =====
-- The laws of exclusive or, from the recursion on binary digits that the native operation means.
use Prim.Native.Nat.{
  ℕ, zero, suc, ◌+◌, ◌*◌, ◌/◌, ◌%◌, ◌^◌, ◌≤◌, ◌<◌, bit_xor, digits, differ, bit_xor-bitwise,
}
use mathlib.Core.Path.{◌≡◌, refl, ap, ap₂, ◌∙◌, sym}
use native.Mathlib.Nat.{pow-suc, one-le-pow}
use native.Mathlib.Omega.{arith}

abbrev xor_digits : ℕ → ℕ → ℕ → ℕ
xor_digits n a b = digits (λ y. y) differ n a b

-- Any bound that is large enough gives the same digits.
xor_digits_bound : (a b k l : ℕ) → a ≤ k → a ≤ l → xor_digits k a b ≡ xor_digits l a b
xor_digits_bound (suc a) b zero l h g = absurd (omega arith)
xor_digits_bound (suc a) b (suc k) zero h g = absurd (omega arith)
xor_digits_bound (suc a) b (suc k) (suc l) h g =
    omega (arith, xor_digits_bound (suc a / 2) (b / 2) k l (omega arith) (omega arith))
xor_digits_bound zero b (suc k) (suc l) h g = refl
xor_digits_bound zero b (suc k) zero h g = refl
xor_digits_bound zero b zero (suc l) h g = refl
xor_digits_bound zero b zero zero h g = refl

differ_lem : (x y : ℕ) → x < 2 → y < 2 → differ x y ≡ (x + y) % 2
differ_lem zero y p q = omega arith
differ_lem (suc zero) zero p q = refl
differ_lem (suc zero) (suc zero) p q = refl
differ_lem (suc zero) (suc (suc y)) p q = absurd (omega arith)
differ_lem (suc (suc x)) y p q = absurd (omega arith)

pub zero-bit_xor : (b : ℕ) → bit_xor 0 b ≡ b
zero-bit_xor b = bit_xor-bitwise 0 b

bit_xor_step : (a b : ℕ) → bit_xor a b ≡ bit_xor (a / 2) (b / 2) * 2 + (a + b) % 2
bit_xor_step zero b = omega (arith, zero-bit_xor b, zero-bit_xor (b / 2))
bit_xor_step (suc a) b = omega (
  arith,
  bit_xor-bitwise (suc a) b,
  bit_xor-bitwise (suc a / 2) (b / 2),
  xor_digits_bound (suc a / 2) (b / 2) a (suc a / 2) (omega arith) (omega arith),
  differ_lem (suc a % 2) (b % 2) (omega arith) (omega arith),
)

-- The lowest digit of an exclusive or is the parity of the sum.
pub bit_xor-mod_two : (a b : ℕ) → bit_xor a b % 2 ≡ (a + b) % 2
bit_xor-mod_two a b = omega (arith, bit_xor_step a b)

pub bit_xor-div_two : (a b : ℕ) → bit_xor a b / 2 ≡ bit_xor (a / 2) (b / 2)
bit_xor-div_two a b = omega (arith, bit_xor_step a b)

bit_xor_comm_fuel : (n a b : ℕ) → a ≤ n → b ≤ n → bit_xor a b ≡ bit_xor b a
bit_xor_comm_fuel zero zero zero p q = refl
bit_xor_comm_fuel zero (suc a) b p q = absurd (omega arith)
bit_xor_comm_fuel zero zero (suc b) p q = absurd (omega arith)
bit_xor_comm_fuel (suc n) a b p q = omega (
  arith,
  bit_xor_step a b,
  bit_xor_step b a,
  bit_xor_comm_fuel n (a / 2) (b / 2) (omega arith) (omega arith),
)

pub bit_xor_comm : (a b : ℕ) → bit_xor a b ≡ bit_xor b a
bit_xor_comm a b = bit_xor_comm_fuel (a + b) a b (omega arith) (omega arith)

pub bit_xor-zero : (a : ℕ) → bit_xor a 0 ≡ a
bit_xor-zero a = bit_xor_comm a 0 ∙ zero-bit_xor a

bit_xor_self_fuel : (n a : ℕ) → a ≤ n → bit_xor a a ≡ 0
bit_xor_self_fuel zero zero p = refl
bit_xor_self_fuel zero (suc a) p = absurd (omega arith)
bit_xor_self_fuel (suc n) a p =
    omega (arith, bit_xor_step a a, bit_xor_self_fuel n (a / 2) (omega arith))

pub bit_xor_self : (a : ℕ) → bit_xor a a ≡ 0
bit_xor_self a = bit_xor_self_fuel a a (omega arith)

bit_xor_assoc_fuel :
    (n a b c : ℕ) → a ≤ n → b ≤ n → c ≤ n → bit_xor (bit_xor a b) c ≡ bit_xor a (bit_xor b c)
bit_xor_assoc_fuel zero zero zero zero p q r = refl
bit_xor_assoc_fuel zero (suc a) b c p q r = absurd (omega arith)
bit_xor_assoc_fuel zero zero (suc b) c p q r = absurd (omega arith)
bit_xor_assoc_fuel zero zero zero (suc c) p q r = absurd (omega arith)
bit_xor_assoc_fuel (suc n) a b c p q r = omega (
  arith,
  bit_xor_step (bit_xor a b) c,
  bit_xor_step a (bit_xor b c),
  bit_xor-mod_two a b,
  bit_xor-mod_two b c,
  ap (λ (t : ℕ). bit_xor t (c / 2)) (bit_xor-div_two a b),
  ap (λ (t : ℕ). bit_xor (a / 2) t) (bit_xor-div_two b c),
  bit_xor_assoc_fuel n (a / 2) (b / 2) (c / 2) (omega arith) (omega arith) (omega arith),
)

pub bit_xor_assoc : (a b c : ℕ) → bit_xor (bit_xor a b) c ≡ bit_xor a (bit_xor b c)
bit_xor_assoc a b c = bit_xor_assoc_fuel (a + b + c) a b c (omega arith) (omega arith) (omega arith)

-- Applying the same mask twice gives the value back.
pub bit_xor_cancel : (a b : ℕ) → bit_xor (bit_xor a b) b ≡ a
bit_xor_cancel a b = bit_xor_assoc a b b ∙ ap (bit_xor a) (bit_xor_self b) ∙ bit_xor-zero a

-- (a ^ b) ^ (c ^ d) with the middle two exchanged.
pub bit_xor_middle :
    (a b c d : ℕ) → bit_xor (bit_xor a b) (bit_xor c d) ≡ bit_xor (bit_xor a c) (bit_xor b d)
bit_xor_middle a b c d =
    bit_xor_assoc a b (bit_xor c d)
    ∙ ap (bit_xor a) (
        sym (bit_xor_assoc b c d)
        ∙ ap (λ (t : ℕ). bit_xor t d) (bit_xor_comm b c)
        ∙ bit_xor_assoc c b d)
    ∙ sym (bit_xor_assoc a c (bit_xor b d))

-- `k` bits on both sides give `k` bits.
pub bit_xor-lt : (k a b : ℕ) → a < 2 ^ k → b < 2 ^ k → bit_xor a b < 2 ^ k
bit_xor-lt zero zero zero p q = omega arith
bit_xor-lt zero (suc a) b p q = absurd (omega arith)
bit_xor-lt zero zero (suc b) p q = absurd (omega arith)
bit_xor-lt (suc k) a b p q = omega (
  arith,
  pow-suc 2 k,
  bit_xor_step a b,
  bit_xor-lt k (a / 2) (b / 2) (omega (arith, pow-suc 2 k)) (omega (arith, pow-suc 2 k)),
)

mul-two-pow-suc : (m k : ℕ) → m * 2 ^ suc k ≡ 2 * (m * 2 ^ k)
mul-two-pow-suc m k = omega (arith, ap (λ (w : ℕ). m * w) (pow-suc 2 k))

halve : (p k r : ℕ) → (p * 2 ^ suc k + r) / 2 ≡ p * 2 ^ k + r / 2
halve p k r = omega (arith, mul-two-pow-suc p k)

lowest : (p : ℕ) → p * 2 ^ 0 + 0 ≡ p
lowest p = omega arith

-- Exclusive or works on the fields above and below bit `k` separately.
pub bit_xor_fields :
    (k p q a b : ℕ)
    → a < 2 ^ k
    → b < 2 ^ k
    → bit_xor (p * 2 ^ k + a) (q * 2 ^ k + b) ≡ bit_xor p q * 2 ^ k + bit_xor a b
bit_xor_fields zero p q zero zero h l = omega (arith, ap₂ bit_xor (lowest p) (lowest q))
bit_xor_fields zero p q (suc a) b h l = absurd (omega arith)
bit_xor_fields zero p q zero (suc b) h l = absurd (omega arith)
bit_xor_fields (suc k) p q a b h l = omega (
  arith,
  bit_xor_step (p * 2 ^ suc k + a) (q * 2 ^ suc k + b),
  ap₂ bit_xor (halve p k a) (halve q k b),
  bit_xor_step a b,
  mul-two-pow-suc p k,
  mul-two-pow-suc q k,
  mul-two-pow-suc (bit_xor p q) k,
  bit_xor_fields k p q (a / 2) (b / 2) (omega (arith, pow-suc 2 k)) (omega (arith, pow-suc 2 k)),
)

-- A field above bit `k` does not meet one below it.
pub bit_xor_high :
    (k p q a : ℕ) → a < 2 ^ k → bit_xor (p * 2 ^ k + a) (q * 2 ^ k) ≡ bit_xor p q * 2 ^ k + a
bit_xor_high k p q a h =
    ap (bit_xor (p * 2 ^ k + a)) (omega arith)
    ∙ bit_xor_fields k p q a 0 h (omega (arith, one-le-pow k 2))
    ∙ omega (arith, bit_xor-zero a)

split : (k a : ℕ) → a / 2 ^ k * 2 ^ k + a % 2 ^ k ≡ a
split k a = div-add-mod' a (2 ^ k)
  where
    div-add-mod' : (n m : ℕ) → n / m * m + n % m ≡ n
    div-add-mod' n m = omega arith

bit_xor_split :
    (k a b : ℕ)
    → bit_xor a b ≡ bit_xor (a / 2 ^ k) (b / 2 ^ k) * 2 ^ k + bit_xor (a % 2 ^ k) (b % 2 ^ k)
bit_xor_split k a b =
    sym (ap₂ bit_xor (split k a) (split k b))
    ∙ bit_xor_fields k (a / 2 ^ k) (b / 2 ^ k) (a % 2 ^ k) (b % 2 ^ k)
        (grind (arith, one-le-pow k 2)) (grind (arith, one-le-pow k 2))

low-lt : (k a b : ℕ) → bit_xor (a % 2 ^ k) (b % 2 ^ k) < 2 ^ k
low-lt k a b =
    bit_xor-lt k (a % 2 ^ k) (b % 2 ^ k) (grind (arith, one-le-pow k 2))
      (grind (arith, one-le-pow k 2))

-- A shift to the right, and a low mask, go through exclusive or.
pub bit_xor-div : (k a b : ℕ) → bit_xor a b / 2 ^ k ≡ bit_xor (a / 2 ^ k) (b / 2 ^ k)
bit_xor-div k a b = grind (arith, bit_xor_split k a b, low-lt k a b)

pub bit_xor-mod : (k a b : ℕ) → bit_xor a b % 2 ^ k ≡ bit_xor (a % 2 ^ k) (b % 2 ^ k)
bit_xor-mod k a b = omega (
  arith,
  bit_xor_split k a b,
  split k (bit_xor a b),
  ap (λ (t : ℕ). t * 2 ^ k) (bit_xor-div k a b),
)

-- A shift to the left by one digit goes through it too.
pub bit_xor_double : (a b : ℕ) → bit_xor (2 * a) (2 * b) ≡ 2 * bit_xor a b
bit_xor_double a b = omega (arith, bit_xor_step (2 * a) (2 * b), ap₂ bit_xor (half a) (half b))
  where
    half : (n : ℕ) → 2 * n / 2 ≡ n
    half n = omega arith

-- Taking a polynomial off by the digit that was shifted out is linear.
pub digit_mul_linear : (p x y : ℕ) → x < 2 → y < 2 → bit_xor x y * p ≡ bit_xor (x * p) (y * p)
digit_mul_linear p zero y hx hy =
    ap (λ (t : ℕ). t * p) (zero-bit_xor y)
    ∙ sym (zero-bit_xor (y * p))
    ∙ ap (λ (t : ℕ). bit_xor t (y * p)) (omega arith)
digit_mul_linear p (suc zero) zero hx hy =
    omega (arith, bit_xor-zero (1 * p), ap (λ (t : ℕ). bit_xor (1 * p) t) (nothing p))
  where
    nothing : (q : ℕ) → 0 * q ≡ 0
    nothing q = omega arith
digit_mul_linear p (suc zero) (suc zero) hx hy = omega (arith, bit_xor_self (1 * p))
digit_mul_linear p (suc zero) (suc (suc y)) hx hy = absurd (omega arith)
digit_mul_linear p (suc (suc x)) y hx hy = absurd (omega arith)

-- Shift a register of `k + 1` digits, and take the polynomial off when a one comes out.
abbrev pub shift_out : ℕ → ℕ → ℕ → ℕ
shift_out k p c = bit_xor (2 * (c % 2 ^ k)) (c / 2 ^ k * p)

pub shift_out-bit_xor :
    (k p a b : ℕ)
    → a / 2 ^ k < 2
    → b / 2 ^ k < 2
    → shift_out k p (bit_xor a b) ≡ bit_xor (shift_out k p a) (shift_out k p b)
shift_out-bit_xor k p a b ha hb =
    ap₂ bit_xor
      (ap (λ (t : ℕ). 2 * t) (bit_xor-mod k a b) ∙ sym (bit_xor_double (a % 2 ^ k) (b % 2 ^ k)))
      (ap (λ (t : ℕ). t * p) (bit_xor-div k a b) ∙ digit_mul_linear p (a / 2 ^ k) (b / 2 ^ k) ha hb)
    ∙ bit_xor_middle (2 * (a % 2 ^ k)) (2 * (b % 2 ^ k)) (a / 2 ^ k * p) (b / 2 ^ k * p)
