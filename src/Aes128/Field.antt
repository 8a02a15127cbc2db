-- ===== src/Aes128/Field.antt =====
-- The multiplication tables of AES128.cpp against the arithmetic of the field with 256 elements.
use solarbot_update.Base.{
  ℕ, ◌*◌, ◌/◌, ◌%◌, ◌<◌, ◌≡◌, refl, sym, ap, ap₂, ◌∙◌, arith, bit_xor, true, ◌==◌, all_below,
  agree_below, ltb, all_below_every,
}
use solarbot_update.Base.Bits.{shift_out, shift_out-bit_xor, bit_xor-lt, bit_xor_middle}
use solarbot_update.Aes128.{look_up, s_box, inv_s_box, mul2, mul3, mul9, mul11, mul13, mul14}

-- Multiplication by x, modulo x^8 + x^4 + x^3 + x + 1.
unfoldable pub times_x : ℕ → ℕ
times_x a = shift_out 7 0x1b a

times_x-lt : (a : ℕ) → a < 256 → times_x a < 256
unfolding times_x
times_x-lt a h = bit_xor-lt 8 (2 * (a % 128)) (a / 128 * 0x1b) (omega arith) (omega arith)

-- A map of bytes to bytes that goes through exclusive or.
pub record IsLinear (f : ℕ → ℕ) : Type 0 where
  pub closed : (a : ℕ) → a < 256 → f a < 256
  pub additive : (a b : ℕ) → a < 256 → b < 256 → f (bit_xor a b) ≡ bit_xor (f a) (f b)

times_x-IsLinear : IsLinear times_x
unfolding times_x
times_x-IsLinear = record {
  closed = times_x-lt;
  additive = λ a b ha hb. shift_out-bit_xor 7 0x1b a b (omega arith) (omega arith);
}

identity-IsLinear : IsLinear (λ a. a)
identity-IsLinear = record { closed = λ a h. h; additive = λ a b ha hb. refl }

compose-IsLinear : {f g : ℕ → ℕ} → IsLinear f → IsLinear g → IsLinear (λ a. f (g a))
compose-IsLinear {f} {g} lf lg = record {
  closed = λ a h. lf.closed (g a) (lg.closed a h);
  additive = λ a b ha hb.
      ap f (lg.additive a b ha hb) ∙ lf.additive (g a) (g b) (lg.closed a ha) (lg.closed b hb);
}

sum-IsLinear : {f g : ℕ → ℕ} → IsLinear f → IsLinear g → IsLinear (λ a. bit_xor (f a) (g a))
sum-IsLinear {f} {g} lf lg = record {
  closed = λ a h. bit_xor-lt 8 (f a) (g a) (lf.closed a h) (lg.closed a h);
  additive = λ a b ha hb.
      ap₂ bit_xor (lf.additive a b ha hb) (lg.additive a b ha hb)
      ∙ bit_xor_middle (f a) (f b) (g a) (g b);
}

-- A table that agrees, by evaluation on the bytes, with a linear map is linear.
agree-IsLinear : (f g : ℕ → ℕ) → all_below 256 (λ a. f a == g a) ≡ true → IsLinear g → IsLinear f
agree-IsLinear f g check lg = record {
  closed = λ a h. let e = agree_below 256 f g a check h in omega (arith, e, lg.closed a h);
  additive = λ a b ha hb.
      agree_below 256 f g (bit_xor a b) check (bit_xor-lt 8 a b ha hb)
      ∙ lg.additive a b ha hb
      ∙ sym (ap₂ bit_xor (agree_below 256 f g a check ha) (agree_below 256 f g b check hb));
}

-- The multipliers of the two mixing steps.
abbrev pub by2 : ℕ → ℕ
by2 a = times_x a

abbrev pub by3 : ℕ → ℕ
by3 a = bit_xor (times_x a) a

abbrev pub by8 : ℕ → ℕ
by8 a = times_x (times_x (times_x a))

abbrev pub by9 : ℕ → ℕ
by9 a = bit_xor (by8 a) a

abbrev pub by11 : ℕ → ℕ
by11 a = bit_xor (by8 a) (by3 a)

abbrev pub by13 : ℕ → ℕ
by13 a = bit_xor (by8 a) (bit_xor (times_x (times_x a)) a)

abbrev pub by14 : ℕ → ℕ
by14 a = bit_xor (by8 a) (bit_xor (times_x (times_x a)) (times_x a))

by8-IsLinear : IsLinear by8
by8-IsLinear =
    compose-IsLinear times_x-IsLinear (compose-IsLinear times_x-IsLinear times_x-IsLinear)

by4-IsLinear : IsLinear (λ a. times_x (times_x a))
by4-IsLinear = compose-IsLinear times_x-IsLinear times_x-IsLinear

by3-IsLinear : IsLinear by3
by3-IsLinear = sum-IsLinear times_x-IsLinear identity-IsLinear

mul2_check : all_below 256 (λ a. look_up mul2 a == by2 a) ≡ true
unfolding all_below mul2 times_x
mul2_check = refl

pub mul2-IsLinear : IsLinear (look_up mul2)
mul2-IsLinear = agree-IsLinear (look_up mul2) by2 mul2_check times_x-IsLinear

mul3_check : all_below 256 (λ a. look_up mul3 a == by3 a) ≡ true
unfolding all_below mul3 times_x
mul3_check = refl

pub mul3-IsLinear : IsLinear (look_up mul3)
mul3-IsLinear = agree-IsLinear (look_up mul3) by3 mul3_check by3-IsLinear

mul9_check : all_below 256 (λ a. look_up mul9 a == by9 a) ≡ true
unfolding all_below mul9 times_x
mul9_check = refl

pub mul9-IsLinear : IsLinear (look_up mul9)
mul9-IsLinear =
    agree-IsLinear (look_up mul9) by9 mul9_check (sum-IsLinear by8-IsLinear identity-IsLinear)

mul11_check : all_below 256 (λ a. look_up mul11 a == by11 a) ≡ true
unfolding all_below mul11 times_x
mul11_check = refl

pub mul11-IsLinear : IsLinear (look_up mul11)
mul11-IsLinear =
    agree-IsLinear (look_up mul11) by11 mul11_check (sum-IsLinear by8-IsLinear by3-IsLinear)

mul13_check : all_below 256 (λ a. look_up mul13 a == by13 a) ≡ true
unfolding all_below mul13 times_x
mul13_check = refl

pub mul13-IsLinear : IsLinear (look_up mul13)
mul13-IsLinear =
    agree-IsLinear (look_up mul13) by13 mul13_check
      (sum-IsLinear by8-IsLinear (sum-IsLinear by4-IsLinear identity-IsLinear))

mul14_check : all_below 256 (λ a. look_up mul14 a == by14 a) ≡ true
unfolding all_below mul14 times_x
mul14_check = refl

pub mul14-IsLinear : IsLinear (look_up mul14)
mul14-IsLinear =
    agree-IsLinear (look_up mul14) by14 mul14_check
      (sum-IsLinear by8-IsLinear (sum-IsLinear by4-IsLinear times_x-IsLinear))

-- The six tables of the mixing steps are multiplication by 2, 3, 9, 11, 13 and 14 in the field of
-- AES, for every byte.
pub mul_tables :
    (a : ℕ)
    → a < 256
    → (look_up mul2 a ≡ by2 a)
      × (look_up mul3 a ≡ by3 a)
      × (look_up mul9 a ≡ by9 a)
      × (look_up mul11 a ≡ by11 a)
      × (look_up mul13 a ≡ by13 a)
      × (look_up mul14 a ≡ by14 a)
mul_tables a h = (
  agree_below 256 (look_up mul2) by2 a mul2_check h,
  agree_below 256 (look_up mul3) by3 a mul3_check h,
  agree_below 256 (look_up mul9) by9 a mul9_check h,
  agree_below 256 (look_up mul11) by11 a mul11_check h,
  agree_below 256 (look_up mul13) by13 a mul13_check h,
  agree_below 256 (look_up mul14) by14 a mul14_check h,
)

s_box_lt : all_below 256 (λ a. ltb (look_up s_box a) 256) ≡ true
unfolding all_below s_box inv_s_box
s_box_lt = refl

s_box_check : all_below 256 (λ a. look_up inv_s_box (look_up s_box a) == a) ≡ true
unfolding all_below s_box inv_s_box
s_box_check = refl

-- The S-boxes map bytes to bytes, and the second is the inverse of the first.
pub s_box-lt : (a : ℕ) → a < 256 → look_up s_box a < 256
s_box-lt a h = ground (arith, all_below_every 256 (λ a. ltb (look_up s_box a) 256) a s_box_lt h)

pub inv_s_box-s_box : (a : ℕ) → a < 256 → look_up inv_s_box (look_up s_box a) ≡ a
inv_s_box-s_box a h =
    agree_below 256 (λ a. look_up inv_s_box (look_up s_box a)) (λ a. a) a s_box_check h
