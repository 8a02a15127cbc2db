-- ===== src/Serial/Checksum.antt =====
-- What VerifyChecksum accepts.
use solarbot_update.Base.{
  ℕ, zero, suc, ◌-◌, ◌≤◌, ◌<◌, ◌≡◌, ◌≢◌, refl, sym, ap, ◌∙◌, arith, Option, none, some, [], ◌∷◌,
  ◌++◌, Bytes, All, IsByte, length, bit_xor, foldl, ◌==◌, if◌then◌else◌, Bool-cases, inl, inr, ℤ,
  pos, to_byte, append_assoc, set, get_or, ◌⊎◌, length-set, drop,
}
use solarbot_update.Base.Bits.{bit_xor-lt, bit_xor_cancel, bit_xor_comm}
use solarbot_update.Text.{strtol_hex, hex_text, >>=-eq-some}
use solarbot_update.Serial.{scan, verify_checksum, checksum, seal, invalid_checksum, hex_ends}
use solarbot_update.Serial.Hex.{strtol-hex_text, hex_ends-hex_text}

-- The loop sums the characters in front of the first `*`.
scan-append :
    (n sum : ℕ) (body rest : Bytes)
    → All (λ c. c ≢ b'*') body
    → length body ≤ n
    → scan n sum (body ++ b'*' ∷ rest) ≡ some (foldl bit_xor sum body, rest)
unfolding scan
scan-append zero sum [] rest h le = refl
scan-append (suc n) sum [] rest h le = refl
scan-append zero sum (c ∷ body) rest h le = absurd (omega arith)
scan-append (suc n) sum (c ∷ body) rest h le =
    ground (arith, scan-append n (bit_xor sum c) body rest h.1 (omega arith))

pub foldl-IsByte :
    (sum : ℕ) (body : Bytes) → sum < 256 → All IsByte body → foldl bit_xor sum body < 256
foldl-IsByte sum [] hs h = hs
foldl-IsByte sum (c ∷ body) hs h = foldl-IsByte (bit_xor sum c) body (bit_xor-lt 8 sum c hs h.0) h.1

-- What the check says of a line whose sum is written behind its `*`.
pub verify_checksum-line :
    (size start : ℕ) (body : Bytes) (sum : ℕ) (rest : Bytes)
    → All (λ c. c ≢ b'*') body
    → length body ≤ size - 8
    → sum < 256
    → verify_checksum size (start ∷ (body ++ b'*' ∷ (hex_text (sum ∷ []) ++ 10 ∷ rest)))
      ≡ some (if checksum body == sum then pos 0 else invalid_checksum)
unfolding verify_checksum checksum
verify_checksum-line size start body sum rest hb le hs =
    rw (scan-append (size - 8) 0 body (hex_text (sum ∷ []) ++ 10 ∷ rest) hb le)
      (rw (hex_ends-hex_text sum rest hs) (rw (strtol-hex_text sum (10 ∷ rest) hs refl) refl))

foldl_differ :
    (sum sum' : ℕ) (body : Bytes) → foldl bit_xor sum body ≡ foldl bit_xor sum' body → sum ≡ sum'
foldl_differ sum sum' [] e = e
foldl_differ sum sum' (c ∷ body) e =
    let e' = foldl_differ (bit_xor sum c) (bit_xor sum' c) body e in
    sym (bit_xor_cancel sum c) ∙ ap (λ (v : ℕ). bit_xor v c) e' ∙ bit_xor_cancel sum' c

-- Another character at one place makes another sum.
foldl-set :
    (sum : ℕ) (body : Bytes) (i y : ℕ)
    → i < length body
    → foldl bit_xor sum (set body i y) ≡ foldl bit_xor sum body
    → get_or body i 0 ≡ y
foldl-set sum [] i y h e = absurd (omega arith)
foldl-set sum (c ∷ body) zero y h e =
    let e' = foldl_differ (bit_xor sum y) (bit_xor sum c) body e in
    sym (bit_xor_cancel c sum)
    ∙ ap (λ (v : ℕ). bit_xor v sum) (bit_xor_comm c sum ∙ sym e' ∙ bit_xor_comm sum y)
    ∙ bit_xor_cancel y sum
foldl-set sum (c ∷ body) (suc i) y h e = foldl-set (bit_xor sum c) body i y (omega arith) e

set-append : (xs ys : Bytes) (i y : ℕ) → i < length xs → set (xs ++ ys) i y ≡ set xs i y ++ ys
set-append [] ys i y h = absurd (omega arith)
set-append (x ∷ xs) ys zero y h = refl
set-append (x ∷ xs) ys (suc i) y h = ap (λ (l : Bytes). x ∷ l) (set-append xs ys i y (omega arith))

All-set {ℓ} : (P : ℕ → Type ℓ) (xs : Bytes) (i y : ℕ) → P y → All P xs → All P (set xs i y)
All-set P [] i y hy h = tt
All-set P (x ∷ xs) zero y hy h = (hy, h.1)
All-set P (x ∷ xs) (suc i) y hy h = (h.0, All-set P xs i y hy h.1)

pub seal_shape :
    (start : ℕ) (body rest : Bytes)
    → seal (start ∷ body) ++ rest
      ≡ start ∷ (body ++ b'*' ∷ (hex_text (checksum body ∷ []) ++ (10 ∷ rest)))
unfolding seal hex_text
seal_shape start body rest = ap (λ (l : Bytes). start ∷ l) (append_assoc body _ rest)

-- A line that `seal` closes is accepted, whatever follows it in the buffer, when it holds no other `*`
-- and fits the bound of the check.
pub verify_checksum-seal :
    (size start : ℕ) (body rest : Bytes)
    → All (λ c. c ≢ b'*') body
    → All IsByte body
    → length body ≤ size - 8
    → verify_checksum size (seal (start ∷ body) ++ rest) ≡ some (pos 0)
unfolding checksum
verify_checksum-seal size start body rest hb ho le =
    ap (verify_checksum size) (seal_shape start body rest)
    ∙ verify_checksum-line size start body (checksum body) rest hb le
        (foldl-IsByte 0 body (omega arith) ho)
    ∙ ground (arith)

set-seal :
    (start : ℕ) (body rest : Bytes) (i y : ℕ)
    → i < length body
    → set (seal (start ∷ body)) (suc i) y ++ rest
      ≡ start ∷ (set body i y ++ b'*' ∷ (hex_text (checksum body ∷ []) ++ (10 ∷ rest)))
unfolding seal hex_text
set-seal start body rest i y h =
    ap (λ (l : Bytes). (start ∷ l) ++ rest) (set-append body _ i y h)
    ∙ ap (λ (l : Bytes). start ∷ l) (append_assoc (set body i y) _ rest)

-- A sealed line in which one character of the body is replaced by another, which is no `*`, is refused,
-- whatever follows it in the buffer. The body holds no `*` and fits the bound of the check.
pub verify_checksum-set :
    (size start : ℕ) (body rest : Bytes) (i y : ℕ)
    → All (λ c. c ≢ b'*') body
    → All IsByte body
    → length body ≤ size - 8
    → i < length body
    → y ≢ b'*'
    → get_or body i 0 ≢ y
    → verify_checksum size (set (seal (start ∷ body)) (suc i) y ++ rest) ≡ some invalid_checksum
unfolding checksum
verify_checksum-set size start body rest i y hb ho le lt star ne =
    ap (verify_checksum size) (set-seal start body rest i y lt)
    ∙ verify_checksum-line size start (set body i y) (checksum body) rest
        (All-set _ body i y star hb) (omega (arith, length-set {0} body i y))
        (foldl-IsByte 0 body (omega arith) ho)
    ∙ refused (foldl bit_xor 0 (set body i y)) (foldl bit_xor 0 body)
        (λ e. ne (foldl-set 0 body i y lt e))
  where
    refused :
        (a b : ℕ)
        → a ≢ b
        → ◌≡◌ {A = Option ℤ}
            (some (if a == b then pos 0 else invalid_checksum))
            (some invalid_checksum)
    refused a b n = ground arith

-- The sum that the loop makes of a line is another one than the line names.
abbrev pub WrongSum : ℕ → Bytes → Type 0
WrongSum size buffer =
    (sum : ℕ) × (rest : Bytes) × (scan (size - 8) 0 (drop 1 buffer) ≡ some (sum, rest))
    × (sum ≢ to_byte (strtol_hex rest))

-- The check refuses a line only for its sum.
pub verify_checksum_refuses :
    (size : ℕ) (buffer : Bytes) (result : ℤ)
    → verify_checksum size buffer ≡ some result
    → (result ≡ pos 0) ⊎ ((result ≡ invalid_checksum) × WrongSum size buffer)
unfolding verify_checksum
verify_checksum_refuses size [] result e = absurd (ground (arith, e))
verify_checksum_refuses size (start ∷ message) result e =
    let (v, scanned, decided) = >>=-eq-some (scan (size - 8) 0 message) _ e in
    decide v.0 v.1 scanned decided
  where
    decide :
        (sum : ℕ) (rest : Bytes)
        → scan (size - 8) 0 message ≡ some (sum, rest)
        → (if hex_ends rest
            then some (if sum == to_byte (strtol_hex rest) then pos 0 else invalid_checksum)
            else none)
          ≡ some result
        → (result ≡ pos 0) ⊎ ((result ≡ invalid_checksum) × WrongSum size (start ∷ message))
    decide sum rest scanned h = elim (Bool-cases (sum == to_byte (strtol_hex rest))) [
      | inl same_sum ↦ inl (ground (arith, h, same_sum))
      | inr other ↦
          inr (ground (arith, h, other), (sum, rest, scanned, λ p. ground (arith, other, p)))
    ]
