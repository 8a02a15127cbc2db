-- ===== src/Telemetry/Fields.antt =====
-- The fields of a login: what is printed is read back.
use solarbot_update.Base.{
  not, Bool-cases, inl, inr, ℕ, suc, ◌+◌, ◌*◌, ◌/◌, ◌%◌, ◌<◌, ◌≡◌, ◌≢◌, refl, sym, ap, ap₂, ◌∙◌,
  arith, true, false, ◌&&◌, [], ◌∷◌, ◌++◌, Bytes, All, IsByte, length, get_or, length-append,
  append_assoc, append-nil, ◌==◌, all_below, all_below_every, agree_below, ltb,
}
use solarbot_update.MasterApp.{hex_digit, hex_to_byte, read_key}
use solarbot_update.Text.{comma, hex_char, hex_text}
use solarbot_update.Telemetry.{split}

-- The value of two digits printed.
hex_check : all_below 256 (λ b. hex_to_byte (hex_char (b / 16)) (hex_char (b % 16)) == b) ≡ true
unfolding all_below hex_to_byte hex_digit
hex_check = refl

pub hex_to_byte-hex_char :
    (b : ℕ) → b < 256 → hex_to_byte (hex_char (b / 16)) (hex_char (b % 16)) ≡ b
hex_to_byte-hex_char b h =
    agree_below 256 (λ b. hex_to_byte (hex_char (b / 16)) (hex_char (b % 16))) (λ b. b) b hex_check
      h

pub length-hex_text : (bs : Bytes) → length (hex_text bs) ≡ 2 * length bs
unfolding hex_text
length-hex_text [] = refl
length-hex_text (b ∷ bs) = omega (arith, length-hex_text bs)

hex_text_at :
    (pre : Bytes) (b : ℕ) (bs : Bytes)
    → (get_or (hex_text (pre ++ b ∷ bs)) (length pre * 2) 0 ≡ hex_char (b / 16))
      × (get_or (hex_text (pre ++ b ∷ bs)) (length pre * 2 + 1) 0 ≡ hex_char (b % 16))
unfolding hex_text
hex_text_at [] b bs = (refl, refl)
hex_text_at (p ∷ pre) b bs = (
  ap (λ (k : ℕ). get_or (hex_text (p ∷ (pre ++ b ∷ bs))) k 0) {y = suc (suc (length pre * 2))}
        (omega arith)
      ∙ (hex_text_at pre b bs).0,
  ap (λ (k : ℕ). get_or (hex_text (p ∷ (pre ++ b ∷ bs))) k 0) {y = suc (suc (length pre * 2 + 1))}
        (omega arith)
      ∙ (hex_text_at pre b bs).1,
)

read_key_from :
    (key pre : Bytes)
    → All IsByte key
    → read_key (length key) (length pre) (hex_text (pre ++ key)) ≡ key
unfolding read_key
read_key_from [] pre h = refl
read_key_from (b ∷ key) pre h =
    ap₂ ◌∷◌
      (ap₂ hex_to_byte (hex_text_at pre b key).0 (hex_text_at pre b key).1
        ∙ hex_to_byte-hex_char b h.0)
      (ap₂ (λ (i : ℕ) (t : Bytes). read_key (length key) i (hex_text t))
          (omega (arith, length-append pre (b ∷ []))) (sym (append_assoc pre (b ∷ []) key))
        ∙ read_key_from key (pre ++ b ∷ []) h.1)

-- A text without commas.
abbrev pub IsPlain : Bytes → Type 0
IsPlain = All (λ c. c ≢ comma)

pub split-append :
    (field xs rest : Bytes)
    → IsPlain xs
    → split field (xs ++ comma ∷ rest) ≡ (field ++ xs) ∷ split [] rest
unfolding split
split-append field [] rest h = ap (λ (f : Bytes). f ∷ split [] rest) (sym (append-nil field))
split-append field (x ∷ xs) rest h = rw (not_comma x h.0) (
    split-append (field ++ x ∷ []) xs rest h.1
    ∙ ap (λ (f : Bytes). f ∷ split [] rest) (append_assoc field (x ∷ []) xs))
  where
    not_comma : (c : ℕ) → c ≢ comma → (c == comma) ≡ false
    not_comma c n = ground arith

pub length-split : (field xs : Bytes) → 0 < length (split field xs)
unfolding split
length-split field [] = omega arith
length-split field (c ∷ cs) = elim (Bool-cases (c == comma)) [
  | inl e ↦ rw e (omega arith)
  | inr e ↦ rw e (length-split (field ++ c ∷ []) cs)
]

-- The digits of a key are read back to the key.
pub read_key-hex_text :
    (key : Bytes) → length key ≡ 16 → All IsByte key → read_key 16 0 (hex_text key) ≡ key
read_key-hex_text key e h =
    ap (λ (n : ℕ). read_key n 0 (hex_text key)) (sym e) ∙ read_key_from key [] h

-- A digit is a byte and no comma.
hex_char_check : all_below 16 (λ n. ltb (hex_char n) 0x80 && not (hex_char n == comma)) ≡ true
unfolding all_below
hex_char_check = refl

hex_char_lem : (n : ℕ) → n < 16 → (hex_char n < 256) × (hex_char n ≢ comma)
hex_char_lem n h =
    let e =
      all_below_every 16 (λ n. ltb (hex_char n) 0x80 && not (hex_char n == comma)) n hex_char_check
        h in
    (ground (arith, e), ground (arith, e))

pub hex_text-IsPlain : (bs : Bytes) → All IsByte bs → IsPlain (hex_text bs)
unfolding hex_text
hex_text-IsPlain [] h = tt
hex_text-IsPlain (b ∷ bs) h = (
  (hex_char_lem (b / 16) (omega (arith, h.0))).1,
  ((hex_char_lem (b % 16) (omega arith)).1, hex_text-IsPlain bs h.1),
)

pub hex_text-All : (bs : Bytes) → All IsByte bs → All IsByte (hex_text bs)
unfolding hex_text
hex_text-All [] h = tt
hex_text-All (b ∷ bs) h = (
  (hex_char_lem (b / 16) (omega (arith, h.0))).0,
  ((hex_char_lem (b % 16) (omega arith)).0, hex_text-All bs h.1),
)
