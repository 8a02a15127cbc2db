-- ===== src/Double.antt =====
-- The floating-point numbers, which the program takes from its platform: a parameter of the modules that
-- compute with them.
use solarbot_update.Base.{
  not, ◌&&◌, ◌^◌, if◌then◌else◌, ◌+ℤ◌, suc, ◌*◌, ◌/◌, Bool, ℤ, pos, negsuc, minus, neg, ltb_ℤ,
  Bytes,
}
use solarbot_update.Text.{atoi}

pub record Double : Type 1 where
  pub Value : Type 0
  pub of_int : ℤ → Value
  pub add : Value → Value → Value
  pub sub : Value → Value → Value
  pub mul : Value → Value → Value
  pub div : Value → Value → Value
  pub negate : Value → Value
  -- a < b
  pub less : Value → Value → Bool
  -- `atof` and `strtold`.
  pub parse : Bytes → Value
  pub equal : Value → Value → Bool
  -- The cast to `int`.
  pub truncate : Value → ℤ
  pub sin : Value → Value
  pub cos : Value → Value
  pub asin : Value → Value
  pub atan2 : Value → Value → Value
  pub sqrt : Value → Value
  -- M_PI and DBL_MAX.
  pub pi : Value
  pub dbl_max : Value

-- Whole numbers in their place, for runs: angles are small, and the radius of the earth is 1.
unfoldable pub mul_whole : ℤ → ℤ → ℤ
mul_whole (pos a) (pos b) = pos (a * b)
mul_whole (pos a) (negsuc b) = neg (a * suc b)
mul_whole (negsuc a) (pos b) = neg (suc a * b)
mul_whole (negsuc a) (negsuc b) = pos (suc a * suc b)

unfoldable pub div_whole : ℤ → ℤ → ℤ
div_whole (pos a) (pos b) = pos (a / b)
div_whole (pos a) (negsuc b) = neg (a / suc b)
div_whole (negsuc a) (pos b) = neg (suc a / b)
div_whole (negsuc a) (negsuc b) = pos (suc a / suc b)

abbrev pub whole : Double
whole = record {
  Value = ℤ;
  of_int = λ z. if ltb_ℤ (pos 100000) z then pos 1 else z;
  add = ◌+ℤ◌;
  sub = λ a b. a +ℤ minus b;
  mul = mul_whole;
  div = div_whole;
  negate = minus;
  less = ltb_ℤ;
  parse = atoi;
  equal = λ a b. not (ltb_ℤ a b) && not (ltb_ℤ b a);
  truncate = λ z. z;
  sin = λ z. z;
  cos = λ z. pos 1;
  asin = λ z. z;
  atan2 = λ y x. y;
  sqrt = λ z. z;
  pi = pos 3;
  dbl_max = pos (10 ^ 9);
}
