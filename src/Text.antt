-- ===== src/Text.antt =====
-- The texts of the serial lines: what the program takes from the C library to print and to read numbers.
pub mod Decimal
use solarbot_update.Base.{
  refl, ◌≡◌, ℕ, zero, suc, ◌+◌, ◌-◌, ◌*◌, ◌/◌, ◌%◌, ◌^◌, Bool, true, false, ◌&&◌, ◌||◌, Option,
  none, some, List, [], ◌∷◌, ◌++◌, Bytes, ltb, leb, ◌==◌, if◌then◌else◌, ℤ, pos, negsuc, minus, neg,
  ◌≡◌, not,
}

abbrev pub is_digit : ℕ → Bool
is_digit c = leb b'0' c && leb c b'9'

-- White space, as `isspace` has it.
abbrev pub is_space : ℕ → Bool
is_space c = c == 32 || (leb 9 c && leb c 13)

-- The number that the digits in front spell behind `n`.
unfoldable pub scan_digits : ℕ → Bytes → ℕ
scan_digits n [] = n
scan_digits n (c ∷ cs) = if is_digit c then scan_digits (n * 10 + (c - b'0')) cs else n

unfoldable pub skip_space : Bytes → Bytes
skip_space [] = []
skip_space (c ∷ cs) = if is_space c then skip_space cs else c ∷ cs

-- A sign, and what follows it; `read` reads the number.
abbrev pub signed : (Bytes → ℕ) → Bytes → ℤ
signed read [] = pos 0
signed read (c ∷ cs) =
    if c == b'-' then neg (read cs) else if c == b'+' then pos (read cs) else pos (read (c ∷ cs))

-- `atoi`. Outside the range of an `int` C leaves its result open; here it is the number itself.
unfoldable pub atoi : Bytes → ℤ
unfolding scan_digits skip_space
atoi text = signed (scan_digits 0) (skip_space text)

-- The value of a hexadecimal digit, in either case.
abbrev pub hex_value : ℕ → Option ℕ
hex_value c =
    if is_digit c
    then some (c - b'0')
    else if leb b'A' c && leb c b'F'
    then some (c - b'A' + 10)
    else if leb b'a' c && leb c b'f'
    then some (c - b'a' + 10)
    else none

unfoldable pub scan_hex : ℕ → Bytes → ℕ
scan_hex n [] = n
scan_hex n (c ∷ cs) = elim (hex_value c) [ some d ↦ scan_hex (n * 16 + d) cs | none ↦ n ]

-- A prefix 0x is skipped.
abbrev pub skip_prefix : Bytes → Bytes
skip_prefix (a ∷ b ∷ cs) = if a == b'0' && (b == b'x' || b == b'X') then cs else a ∷ b ∷ cs
skip_prefix cs = cs

-- `strtol(text, NULL, 16)`: the greatest `long` when the number is too large.
unfoldable pub strtol_hex : Bytes → ℤ
unfolding scan_hex skip_space
strtol_hex text =
    signed
      (λ cs. let n = scan_hex 0 (skip_prefix cs) in if ltb (2 ^ 63 - 1) n then 2 ^ 63 - 1 else n)
      (skip_space text)

-- Some character is no digit.
unfoldable pub digits_end : Bytes → Bool
digits_end [] = false
digits_end (c ∷ cs) = elim (hex_value c) [ some d ↦ digits_end cs | none ↦ true ]

-- The number that `strtol_hex` reads ends inside the text.
unfoldable pub hex_ends : Bytes → Bool
unfolding skip_space digits_end
hex_ends text = behind_sign (skip_space text)
  where
    behind_sign : Bytes → Bool
    behind_sign [] = false
    behind_sign (c ∷ cs) = digits_end (skip_prefix (if c == b'-' || c == b'+' then cs else c ∷ cs))

-- `strchr(p, c) + 1`: behind the first `c`. A text ends at a zero. `none` where no `c` is left: then
-- the source goes on at an address that means nothing.
unfoldable pub after : ℕ → Bytes → Option Bytes
after c [] = none
after c (x ∷ xs) = if x == c then some xs else if x == 0 then none else after c xs

-- `strncmp(text, prefix, n) == 0` for a prefix of `n` characters.
unfoldable pub starts_with : Bytes → Bytes → Bool
starts_with [] text = true
starts_with (c ∷ cs) [] = false
starts_with (c ∷ cs) (x ∷ xs) = c == x && starts_with cs xs

-- `strstr(text, pattern) != NULL`. A text ends at a zero.
unfoldable pub contains : Bytes → Bytes → Bool
unfolding starts_with
contains pattern [] = starts_with pattern []
contains pattern (x ∷ xs) = starts_with pattern (x ∷ xs) || (not (x == 0) && contains pattern xs)

abbrev pub comma : ℕ
comma = b','

-- The text from the first character on that is no digit.
unfoldable pub skip_digits : Bytes → Bytes
skip_digits [] = []
skip_digits (c ∷ cs) = if is_digit c then skip_digits cs else c ∷ cs

infixl 5 ◌>>=◌
abbrev pub ◌>>=◌ {ℓ κ} : {A : Type ℓ} {B : Type κ} → Option A → (A → Option B) → Option B
none >>= f = none
some a >>= f = f a

pub >>=-eq-some {ℓ κ} :
    {A : Type ℓ} {B : Type κ} (m : Option A) (f : A → Option B) {b : B}
    → (m >>= f) ≡ some b
    → (a : A) × (m ≡ some a) × (f a ≡ some b)
>>=-eq-some none f e = cc
>>=-eq-some (some a) f e = (a, refl, e)

pub >>=-congr {ℓ κ} :
    {A : Type ℓ} {B : Type κ} (m : Option A) (f g : A → Option B)
    → ((a : A) → m ≡ some a → f a ≡ g a)
    → (m >>= f) ≡ (m >>= g)
>>=-congr none f g h = refl
>>=-congr (some a) f g h = h a refl

-- `n` times: go behind the next comma.
unfoldable pub skip_fields : ℕ → Bytes → Option Bytes
skip_fields zero p = some p
skip_fields (suc n) p = do p' ← after comma p; skip_fields n p'

-- `n` times: go behind the next comma and read a number.
unfoldable pub read_fields : ℕ → Bytes → Option (List ℤ)
unfolding after atoi
read_fields zero p = some []
read_fields (suc n) p = do p' ← after comma p; rest ← read_fields n p'; some (atoi p' ∷ rest)

-- `%d`: the digits of a number, in front of `out`; the number itself is fuel enough.
unfoldable pub put_digits : ℕ → ℕ → Bytes → Bytes
put_digits zero n out = (b'0' + n % 10) ∷ out
put_digits (suc fuel) n out =
    let rest = put_digits fuel (n / 10) ((b'0' + n % 10) ∷ out) in
    if ltb n 10 then (b'0' + n) ∷ out else rest

unfoldable pub print_nat : ℕ → Bytes
unfolding put_digits
print_nat n = put_digits n n []

unfoldable pub print_int : ℤ → Bytes
unfolding print_nat
print_int (pos n) = print_nat n
print_int (negsuc n) = b'-' ∷ print_nat (suc n)

-- `sprintf` of a byte with `%02X`.
abbrev pub hex_char : ℕ → ℕ
hex_char n = if ltb n 10 then 0x30 + n else 0x37 + n

unfoldable pub hex_text : Bytes → Bytes
hex_text [] = []
hex_text (b ∷ bs) = hex_char (b / 16) ∷ hex_char (b % 16) ∷ hex_text bs
