-- ===== src/Text/Decimal.antt =====
-- Printed numbers are read back.
use solarbot_update.Base.{
  ℕ, zero, suc, ◌+◌, ◌*◌, ◌/◌, ◌%◌, ◌^◌, ◌≤◌, ◌<◌, ◌≡◌, ◌≢◌, refl, sym, ap, ◌∙◌, arith, false, some,
  List, [], ◌∷◌, ◌++◌, Bytes, All, length, ltb, Bool-cases, inl, inr, ℤ, pos, negsuc, append_assoc,
  neg, All-append,
}
use solarbot_update.Text.{
  is_digit, scan_digits, skip_space, atoi, after, comma, read_fields, put_digits, print_nat,
  print_int,
}

abbrev pub IsDigit : ℕ → Type 0
IsDigit c = (b'0' ≤ c) × (c ≤ b'9')

put_digits-append :
    (f n : ℕ) (out rest : Bytes) → put_digits f n out ++ rest ≡ put_digits f n (out ++ rest)
unfolding put_digits
put_digits-append zero n out rest = refl
put_digits-append (suc f) n out rest = elim (Bool-cases (ltb n 10)) [
  | inl e ↦ rw e refl
  | inr e ↦ rw e (put_digits-append f (n / 10) ((b'0' + n % 10) ∷ out) rest)
]

pub scan_digit :
    (n d : ℕ) (cs : Bytes) → d < 10 → scan_digits n ((b'0' + d) ∷ cs) ≡ scan_digits (n * 10 + d) cs
unfolding scan_digits
scan_digit n d cs h = ground arith

scan_digits-put_digits :
    (f n : ℕ) (out : Bytes) → n ≤ f → scan_digits 0 (put_digits f n out) ≡ scan_digits n out
unfolding put_digits
scan_digits-put_digits zero n out h =
    scan_digit 0 (n % 10) out (omega arith) ∙ ap (λ (m : ℕ). scan_digits m out) (omega arith)
scan_digits-put_digits (suc f) n out h = elim (Bool-cases (ltb n 10)) [
  | inl e ↦
      rw e (scan_digit 0 n out (ground arith) ∙ ap (λ (m : ℕ). scan_digits m out) (omega arith))
  | inr e ↦ rw e (
      scan_digits-put_digits f (n / 10) ((b'0' + n % 10) ∷ out) (ground arith)
      ∙ scan_digit (n / 10) (n % 10) out (omega arith)
      ∙ ap (λ (m : ℕ). scan_digits m out) (omega arith))
]

-- A text that begins with a digit.
abbrev Begins : Bytes → Type 0
Begins text = (d : ℕ) × (cs : Bytes) × IsDigit d × (text ≡ d ∷ cs)

put_digits-Begins : (f n : ℕ) (out : Bytes) → Begins (put_digits f n out)
unfolding put_digits
put_digits-Begins zero n out = (b'0' + n % 10, out, (omega arith, omega arith), refl)
put_digits-Begins (suc f) n out = elim (Bool-cases (ltb n 10)) [
  | inl e ↦ rw e (b'0' + n, out, (omega arith, ground arith), refl)
  | inr e ↦ rw e (put_digits-Begins f (n / 10) ((b'0' + n % 10) ∷ out))
]

-- What does not go on with a digit.
abbrev pub Ends : Bytes → Type 0
Ends [] = Unit
Ends (c ∷ cs) = is_digit c ≡ false

pub scan_digits-Ends : (n : ℕ) (rest : Bytes) → Ends rest → scan_digits n rest ≡ n
unfolding scan_digits
scan_digits-Ends n [] h = refl
scan_digits-Ends n (c ∷ cs) h = rw h refl

pub atoi_digit : (d : ℕ) (cs : Bytes) → IsDigit d → atoi (d ∷ cs) ≡ pos (scan_digits 0 (d ∷ cs))
unfolding atoi skip_space
atoi_digit d cs h = ground arith

neg-suc : (n : ℕ) → neg (suc n) ≡ negsuc n
neg-suc n = ground arith

pub atoi-print_int : (z : ℤ) (rest : Bytes) → Ends rest → atoi (print_int z ++ rest) ≡ z
unfolding print_int print_nat atoi skip_space
atoi-print_int (pos n) rest h =
    let (d, cs, hd, e) = put_digits-Begins n n rest in
    ap atoi (put_digits-append n n [] rest ∙ e)
    ∙ atoi_digit d cs hd
    ∙ ap (λ (t : Bytes). pos (scan_digits 0 t)) (sym e)
    ∙ ap pos (scan_digits-put_digits n n rest (omega arith) ∙ scan_digits-Ends n rest h)
atoi-print_int (negsuc n) rest h =
    ap (λ (t : Bytes). atoi (b'-' ∷ t)) (put_digits-append (suc n) (suc n) [] rest)
    ∙ ap neg (
        scan_digits-put_digits (suc n) (suc n) rest (omega arith) ∙ scan_digits-Ends (suc n) rest h)
    ∙ neg-suc n

-- Every character of a printed number is one of a class that has the digits and the sign.
module _ {ℓ} (P : ℕ → Type ℓ) (digit : (c : ℕ) → IsDigit c → P c) (sign : P b'-') where
  put_digits-All : (f n : ℕ) (out : Bytes) → All P out → All P (put_digits f n out)
  unfolding put_digits
  put_digits-All zero n out h = (digit (b'0' + n % 10) (omega arith, omega arith), h)
  put_digits-All (suc f) n out h = elim (Bool-cases (ltb n 10)) [
    | inl e ↦ rw e (digit (b'0' + n) (omega arith, ground arith), h)
    | inr e ↦ rw e (
        put_digits-All f (n / 10) ((b'0' + n % 10) ∷ out)
          (digit (b'0' + n % 10) (omega arith, omega arith), h))
  ]

  pub print_int-All : (z : ℤ) → All P (print_int z)
  unfolding print_int print_nat
  print_int-All (pos n) = put_digits-All n n [] tt
  print_int-All (negsuc n) = (sign, put_digits-All (suc n) (suc n) [] tt)

-- A number below 10 ^ k has at most `k` digits.
length-put_digits :
    (k f n : ℕ) (out : Bytes)
    → n < 10 ^ suc k
    → n ≤ f
    → length (put_digits f n out) ≤ suc k + length out
unfolding put_digits
length-put_digits k zero n out lt le = omega arith
length-put_digits zero (suc f) n out lt le = ground arith
length-put_digits (suc k) (suc f) n out lt le = elim (Bool-cases (ltb n 10)) [
  | inl e ↦ rw e (omega arith)
  | inr e ↦ rw e (
      omega
        (arith, length-put_digits k f (n / 10) ((b'0' + n % 10) ∷ out) (omega arith) (omega arith)))
]

abbrev pub magnitude : ℤ → ℕ
magnitude (pos n) = n
magnitude (negsuc n) = suc n

pub length-print_int :
    (k : ℕ) (z : ℤ) → magnitude z < 10 ^ suc k → length (print_int z) ≤ suc (suc k)
unfolding print_int print_nat
length-print_int k (pos n) h = omega (arith, length-put_digits k n n [] h)
length-print_int k (negsuc n) h = omega (arith, length-put_digits k (suc n) (suc n) [] h)

-- Neither the character `c` nor the end of a text.
abbrev pub Lacks : ℕ → ℕ → Type 0
Lacks c x = (x ≢ c) × (x ≢ 0)

pub after-append :
    (c : ℕ) (xs rest : Bytes) → All (Lacks c) xs → after c (xs ++ c ∷ rest) ≡ some rest
unfolding after
after-append c [] rest h = ground arith
after-append c (x ∷ xs) rest h = ground (arith, after-append c xs rest h.1)

pub print_int-Lacks : (z : ℤ) → All (Lacks comma) (print_int z)
print_int-Lacks =
    print_int-All (Lacks comma) (λ c h. (λ e. omega arith, λ e. omega arith))
      (λ e. omega arith, λ e. omega arith)

-- The numbers, a comma in front of each.
unfoldable pub fields_text : List ℤ → Bytes
unfolding print_int
fields_text [] = []
fields_text (z ∷ zs) = comma ∷ (print_int z ++ fields_text zs)

pub fields_text-Ends : (zs : List ℤ) (rest : Bytes) → Ends rest → Ends (fields_text zs ++ rest)
unfolding fields_text
fields_text-Ends [] rest h = h
fields_text-Ends (z ∷ zs) rest h = refl

-- What is printed with commas is read back.
pub read_fields-fields_text :
    (zs : List ℤ) (head rest : Bytes)
    → All (Lacks comma) head
    → Ends rest
    → read_fields (length zs) (head ++ (fields_text zs ++ rest)) ≡ some zs
unfolding read_fields fields_text
read_fields-fields_text [] head rest hh hr = refl
read_fields-fields_text (z ∷ zs) head rest hh hr =
    rw (after-append comma head ((print_int z ++ fields_text zs) ++ rest) hh) (
      rw (append_assoc (print_int z) (fields_text zs) rest) (
        rw (read_fields-fields_text zs (print_int z) rest (print_int-Lacks z) hr) (
          ap (λ (v : ℤ). some (v ∷ zs))
            (atoi-print_int z (fields_text zs ++ rest) (fields_text-Ends zs rest hr)))))

module _ {ℓ} (P : ℕ → Type ℓ) (digit : (c : ℕ) → IsDigit c → P c) (sign : P b'-')
    (separator : P comma) where
  pub fields_text-All : (zs : List ℤ) → All P (fields_text zs)
  unfolding fields_text
  fields_text-All [] = tt
  fields_text-All (z ∷ zs) = (
    separator,
    All-append P (print_int z) (fields_text zs) (print_int-All P digit sign z) (fields_text-All zs),
  )
