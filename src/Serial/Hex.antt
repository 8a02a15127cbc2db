-- ===== src/Serial/Hex.antt =====
-- Hexadecimal numbers of two digits: what is printed is read back.
use solarbot_update.Base.{
  ℕ, ◌+◌, ◌-◌, ◌/◌, ◌%◌, ◌<◌, ◌≡◌, refl, ap, ◌∙◌, arith, false, none, some, [], ◌∷◌, ◌++◌, Bytes,
  ltb, ◌==◌, if◌then◌else◌, pos, to_byte, ◌*◌, ◌^◌, ◌||◌, true,
}
use solarbot_update.Text.{
  scan_hex, skip_space, strtol_hex, hex_text, hex_value, hex_char, skip_prefix, is_space, signed,
  digits_end, hex_ends,
}

-- A text that no digit of a hexadecimal number begins.
abbrev pub EndsHex : Bytes → Type 0
EndsHex [] = Unit
EndsHex (c ∷ cs) = hex_value c ≡ none

scan_hex-EndsHex : (n : ℕ) (rest : Bytes) → EndsHex rest → scan_hex n rest ≡ n
unfolding scan_hex
scan_hex-EndsHex n [] h = refl
scan_hex-EndsHex n (c ∷ cs) h = rw (h, scan_hex) refl

scan_hex_value :
    (n c d : ℕ) (cs : Bytes) → hex_value c ≡ some d → scan_hex n (c ∷ cs) ≡ scan_hex (n * 16 + d) cs
unfolding scan_hex
scan_hex_value n c d cs h = rw (h, scan_hex) refl

hex_value-hex_char : (d : ℕ) → d < 16 → hex_value (hex_char d) ≡ some d
hex_value-hex_char d h = ground arith

-- The number in front of which `strtol_hex` expects white space and a sign.
abbrev number : Bytes → ℕ
number cs = let n = scan_hex 0 (skip_prefix cs) in if ltb (2 ^ 63 - 1) n then 2 ^ 63 - 1 else n

plain_lem :
    (d : ℕ)
    → d < 16
    → (is_space (hex_char d) ≡ false)
      × ((hex_char d == b'-') ≡ false)
      × ((hex_char d == b'+') ≡ false)
      × ((hex_char d == b'x') ≡ false)
      × ((hex_char d == b'X') ≡ false)
plain_lem d h = (ground arith, ground arith, ground arith, ground arith, ground arith)

skip_space_plain : (c : ℕ) (cs : Bytes) → is_space c ≡ false → skip_space (c ∷ cs) ≡ c ∷ cs
unfolding skip_space
skip_space_plain c cs h = rw h refl

signed_plain :
    (read : Bytes → ℕ) (c : ℕ) (cs : Bytes)
    → (c == b'-') ≡ false
    → (c == b'+') ≡ false
    → signed read (c ∷ cs) ≡ pos (read (c ∷ cs))
signed_plain read c cs h k = rw h (rw k refl)

skip_prefix_plain :
    (c d : ℕ) (cs : Bytes)
    → (d == b'x') ≡ false
    → (d == b'X') ≡ false
    → skip_prefix (c ∷ d ∷ cs) ≡ c ∷ d ∷ cs
skip_prefix_plain c d cs h k = ground arith

scan_hex_two :
    (a b : ℕ) (rest : Bytes)
    → a < 16
    → b < 16
    → EndsHex rest
    → scan_hex 0 (hex_char a ∷ hex_char b ∷ rest) ≡ a * 16 + b
scan_hex_two a b rest ha hb hr =
    scan_digit 0 a (hex_char b ∷ rest) ha
    ∙ scan_digit (0 * 16 + a) b rest hb
    ∙ scan_hex-EndsHex ((0 * 16 + a) * 16 + b) rest hr
    ∙ omega arith
  where
    scan_digit :
        (n d : ℕ) (cs : Bytes) → d < 16 → scan_hex n (hex_char d ∷ cs) ≡ scan_hex (n * 16 + d) cs
    scan_digit n d cs h = scan_hex_value n (hex_char d) d cs (hex_value-hex_char d h)

-- Two printed digits are read back.
strtol-two :
    (a b : ℕ) (rest : Bytes)
    → a < 16
    → b < 16
    → EndsHex rest
    → strtol_hex (hex_char a ∷ hex_char b ∷ rest) ≡ pos (a * 16 + b)
unfolding strtol_hex
strtol-two a b rest ha hb hr =
    let (s, m, p, x, u) = plain_lem a ha in
    let (_, _, _, x', u') = plain_lem b hb in
    rw (skip_space_plain (hex_char a) (hex_char b ∷ rest) s) (
      rw (signed_plain number (hex_char a) (hex_char b ∷ rest) m p) (
        rw (skip_prefix_plain (hex_char a) (hex_char b) rest x' u')
          (rw (scan_hex_two a b rest ha hb hr) (ground arith))))

behind_sign_plain :
    (c : ℕ) (cs : Bytes)
    → (c == b'-') ≡ false
    → (c == b'+') ≡ false
    → (if c == b'-' || c == b'+' then cs else c ∷ cs) ≡ c ∷ cs
behind_sign_plain c cs h k = rw h (rw k refl)

digits_end-hex_char : (d : ℕ) (cs : Bytes) → d < 16 → digits_end (hex_char d ∷ cs) ≡ digits_end cs
unfolding digits_end
digits_end-hex_char d cs h = rw (hex_value-hex_char d h, digits_end) refl

-- A number of two printed digits ends in front of a line feed.
pub hex_ends-hex_text :
    (b : ℕ) (rest : Bytes) → b < 256 → hex_ends (hex_text (b ∷ []) ++ 10 ∷ rest) ≡ true
unfolding hex_ends hex_text
hex_ends-hex_text b rest h =
    let a = b / 16 in
    let d = b % 16 in
    let (s, m, p, x, u) = plain_lem a (omega arith) in
    let (_, _, _, x', u') = plain_lem d (omega arith) in
    rw (skip_space_plain (hex_char a) (hex_char d ∷ 10 ∷ rest) s) (
      rw (behind_sign_plain (hex_char a) (hex_char d ∷ 10 ∷ rest) m p) (
        rw (skip_prefix_plain (hex_char a) (hex_char d) (10 ∷ rest) x' u') (
          digits_end-hex_char a (hex_char d ∷ 10 ∷ rest) (omega arith)
          ∙ digits_end-hex_char d (10 ∷ rest) (omega arith))))

-- `%02X` and `strtol` are inverse on a byte.
pub strtol-hex_text :
    (b : ℕ) (rest : Bytes)
    → b < 256
    → EndsHex rest
    → to_byte (strtol_hex (hex_text (b ∷ []) ++ rest)) ≡ b
unfolding hex_text
strtol-hex_text b rest h hr =
    ap to_byte (strtol-two (b / 16) (b % 16) rest (omega arith) (omega arith) hr) ∙ omega arith
