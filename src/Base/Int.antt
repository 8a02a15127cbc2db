-- ===== src/Base/Int.antt =====
-- Signed integers over the native numbers, as the program's `int`.
use Prim.Native.Nat.{ℕ, suc, ◌-◌, ◌%◌, ◌^◌, ◌+◌, ◌<◌}
use mathlib.Core.Path.{◌≡◌}
use native.Mathlib.Omega.{arith}
use Prim.Native.Nat.{◌<◌}
use mathlib.Core.Bool.{Bool, true, false, ◌&&◌}
use solarbot_update.Base.Tests.{ltb, leb, if◌then◌else◌}

-- `negsuc n` is -(n + 1).
pub data ℤ : Type 0 where
  pos : ℕ → ℤ
  negsuc : ℕ → ℤ

-- -n
abbrev pub neg : ℕ → ℤ
neg n = if ltb 0 n then negsuc (n - 1) else pos 0

-- a - b
abbrev pub minus_ℕ : ℕ → ℕ → ℤ
minus_ℕ a b = if ltb a b then negsuc (b - a - 1) else pos (a - b)

abbrev pub minus : ℤ → ℤ
minus (pos n) = neg n
minus (negsuc n) = pos (suc n)

-- The casts to `uint8_t`, `uint16_t` and `short`.
abbrev pub to_byte : ℤ → ℕ
to_byte (pos n) = n % 256
to_byte (negsuc n) = 255 - n % 256

abbrev pub to_word : ℤ → ℕ
to_word (pos n) = n % 65536
to_word (negsuc n) = 65535 - n % 65536

-- The cast to `uint32_t`.
abbrev pub to_u32 : ℤ → ℕ
to_u32 (pos n) = n % 2 ^ 32
to_u32 (negsuc n) = 2 ^ 32 - 1 - n % 2 ^ 32

abbrev pub to_short : ℤ → ℤ
to_short z = if ltb (to_word z) 32768 then pos (to_word z) else negsuc (65535 - to_word z)

-- The low 32 bits, as an `int`.
abbrev pub to_int : ℤ → ℤ
to_int z = if ltb (to_u32 z) (2 ^ 31) then pos (to_u32 z) else negsuc (2 ^ 32 - 1 - to_u32 z)

-- An `int` can hold it.
abbrev pub IsInt : ℤ → Type 0
IsInt (pos n) = n < 2 ^ 31
IsInt (negsuc n) = n < 2 ^ 31

pub to_int-IsInt : (z : ℤ) → IsInt z → to_int z ≡ z
to_int-IsInt (pos n) h = ground arith
to_int-IsInt (negsuc n) h = ground arith

abbrev pub is_one : ℤ → Bool
is_one (pos n) = leb n 1 && ltb 0 n
is_one (negsuc n) = false

abbrev pub is_zero : ℤ → Bool
is_zero (pos n) = leb n 0
is_zero (negsuc n) = false

-- a < b
abbrev pub ltb_ℤ : ℤ → ℤ → Bool
ltb_ℤ (pos a) (pos b) = ltb a b
ltb_ℤ (pos a) (negsuc b) = false
ltb_ℤ (negsuc a) (pos b) = true
ltb_ℤ (negsuc a) (negsuc b) = ltb b a

infixl 65 ◌+ℤ◌
unfoldable pub ◌+ℤ◌ : ℤ → ℤ → ℤ
pos a +ℤ pos b = pos (a + b)
pos a +ℤ negsuc b = minus_ℕ a (suc b)
negsuc a +ℤ pos b = minus_ℕ b (suc a)
negsuc a +ℤ negsuc b = negsuc (a + b + 1)
