-- ===== src/Aes128/State.antt =====
-- Each step of a round keeps a state of 16 bytes, and the steps of decryption undo those of
-- encryption.
use solarbot_update.Base.{
  ℕ, zero, suc, ◌+◌, ◌<◌, ◌≤◌, ◌≡◌, refl, sym, ap, ap₂, ◌∙◌, arith, List, [], ◌∷◌, ◌++◌, Bytes, All,
  All-append, IsByte, length, get_or, drop, map,
}
use solarbot_update.Base.Bits.{bit_xor-lt, bit_xor_cancel}
use solarbot_update.Aes128.{
  look_up, s_box, pick, mix_column, inverse_mix_column, mix_columns, inverse_mix_columns,
  shift_rows_encryption, shift_rows_decryption, sub_bytes_encryption, sub_bytes_decryption,
  add_round_key, sub_round_key, mul2, mul3,
}
use solarbot_update.Aes128.Field.{mul2-IsLinear, mul3-IsLinear, s_box-lt, inv_s_box-s_box}
use solarbot_update.Aes128.Columns.{xor4-lt, inverse-mix_column}

-- A state: 16 bytes.
pub record IsBlock (state : Bytes) : Type 0 where
  pub size : length state ≡ 16
  pub bytes : All IsByte state

pub get_or-lt : (xs : Bytes) (i : ℕ) → All IsByte xs → get_or xs i 0 < 256
get_or-lt [] i h = omega arith
get_or-lt (x ∷ xs) zero h = h.0
get_or-lt (x ∷ xs) (suc i) h = get_or-lt xs i h.1

pick-All : (xs : Bytes) (places : List ℕ) → All IsByte xs → All IsByte (pick xs places)
pick-All xs [] h = tt
pick-All xs (i ∷ places) h = (get_or-lt xs i h, pick-All xs places h)

abbrev pick_range : Bytes → ℕ → ℕ → Bytes
pick_range xs k zero = []
pick_range xs k (suc n) = get_or xs k 0 ∷ pick_range xs (suc k) n

drop_step : (xs : Bytes) (k : ℕ) → k < length xs → drop k xs ≡ get_or xs k 0 ∷ drop (suc k) xs
drop_step [] k h = absurd (omega arith)
drop_step (x ∷ xs) zero h = refl
drop_step (x ∷ xs) (suc k) h = drop_step xs k (omega arith)

pub drop_all : (xs : Bytes) (k : ℕ) → length xs ≤ k → drop k xs ≡ []
drop_all [] zero h = refl
drop_all [] (suc k) h = refl
drop_all (x ∷ xs) zero h = absurd (omega arith)
drop_all (x ∷ xs) (suc k) h = drop_all xs k (omega arith)

pick_range-drop : (n k : ℕ) (xs : Bytes) → k + n ≡ length xs → pick_range xs k n ≡ drop k xs
pick_range-drop zero k xs h = sym (drop_all xs k (omega arith))
pick_range-drop (suc n) k xs h =
    ap (λ (l : Bytes). get_or xs k 0 ∷ l) (pick_range-drop n (suc k) xs (omega arith))
    ∙ sym (drop_step xs k (omega arith))

-- A state is the list of its 16 bytes.
tabulated : {xs : Bytes} → IsBlock xs → pick_range xs 0 16 ≡ xs
tabulated {xs} b = pick_range-drop 16 0 xs (omega (arith, b.size))

pub shift_rows_decryption-encryption :
    {state : Bytes} → IsBlock state → shift_rows_decryption (shift_rows_encryption state) ≡ state
unfolding shift_rows_decryption shift_rows_encryption
shift_rows_decryption-encryption b = tabulated b

pub shift_rows-IsBlock : {state : Bytes} → IsBlock state → IsBlock (shift_rows_encryption state)
unfolding shift_rows_encryption
shift_rows-IsBlock {state} b = record {
  size = refl;
  bytes =
      pick-All state (0 ∷ 5 ∷ 10 ∷ 15 ∷ 4 ∷ 9 ∷ 14 ∷ 3 ∷ 8 ∷ 13 ∷ 2 ∷ 7 ∷ 12 ∷ 1 ∷ 6 ∷ 11 ∷ [])
        b.bytes;
}

mix_column-All :
    (a b c d : ℕ) → a < 256 → b < 256 → c < 256 → d < 256 → All IsByte (mix_column a b c d)
unfolding mix_column
mix_column-All a b c d ha hb hc hd =
    let a2 = mul2-IsLinear.closed a ha in
    let b2 = mul2-IsLinear.closed b hb in
    let c2 = mul2-IsLinear.closed c hc in
    let d2 = mul2-IsLinear.closed d hd in
    let a3 = mul3-IsLinear.closed a ha in
    let b3 = mul3-IsLinear.closed b hb in
    let c3 = mul3-IsLinear.closed c hc in
    let d3 = mul3-IsLinear.closed d hd in
    (
      xor4-lt (look_up mul2 a) (look_up mul3 b) c d a2 b3 hc hd,
      (
        xor4-lt a (look_up mul2 b) (look_up mul3 c) d ha b2 c3 hd,
        (
          xor4-lt a b (look_up mul2 c) (look_up mul3 d) ha hb c2 d3,
          (xor4-lt (look_up mul3 a) b c (look_up mul2 d) a3 hb hc d2, tt),
        ),
      ),
    )

pub mix_columns-IsBlock : {state : Bytes} → IsBlock state → IsBlock (mix_columns state)
unfolding mix_columns
mix_columns-IsBlock {state} b = record {
  size = refl;
  bytes =
      All-append IsByte (mixed 0 1 2 3) (mixed 4 5 6 7 ++ (mixed 8 9 10 11 ++ mixed 12 13 14 15))
        (mixed-All 0 1 2 3)
        (All-append IsByte (mixed 4 5 6 7) (mixed 8 9 10 11 ++ mixed 12 13 14 15)
          (mixed-All 4 5 6 7)
          (All-append IsByte (mixed 8 9 10 11) (mixed 12 13 14 15) (mixed-All 8 9 10 11)
            (mixed-All 12 13 14 15)));
}
  where
    byte : (i : ℕ) → get_or state i 0 < 256
    byte i = get_or-lt state i b.bytes

    mixed : ℕ → ℕ → ℕ → ℕ → Bytes
    mixed i j k l =
        mix_column (get_or state i 0) (get_or state j 0) (get_or state k 0) (get_or state l 0)

    mixed-All :
        (i j k l : ℕ)
        → All IsByte
            (mix_column (get_or state i 0) (get_or state j 0) (get_or state k 0) (get_or state l 0))
    mixed-All i j k l =
        mix_column-All (get_or state i 0) (get_or state j 0) (get_or state k 0) (get_or state l 0)
          (byte i) (byte j) (byte k) (byte l)

pub inverse-mix_columns :
    {state : Bytes} → IsBlock state → inverse_mix_columns (mix_columns state) ≡ state
unfolding inverse_mix_columns mix_columns
inverse-mix_columns {state} b =
    ap₂ ◌++◌ (unmixed 0 1 2 3)
      (ap₂ ◌++◌ (unmixed 4 5 6 7) (ap₂ ◌++◌ (unmixed 8 9 10 11) (unmixed 12 13 14 15)))
    ∙ tabulated b
  where
    byte : (i : ℕ) → get_or state i 0 < 256
    byte i = get_or-lt state i b.bytes

    unmixed :
        (i j k l : ℕ)
        → (let m =
              mix_column
                (get_or state i 0)
                (get_or state j 0)
                (get_or state k 0)
                (get_or state l 0) in
            inverse_mix_column (get_or m 0 0) (get_or m 1 0) (get_or m 2 0) (get_or m 3 0))
          ≡ get_or state i 0 ∷ get_or state j 0 ∷ get_or state k 0 ∷ get_or state l 0 ∷ []
    unmixed i j k l =
        inverse-mix_column (get_or state i 0) (get_or state j 0) (get_or state k 0)
          (get_or state l 0) (byte i) (byte j) (byte k) (byte l)

pub sub_bytes_decryption-encryption :
    (state : Bytes) → All IsByte state → sub_bytes_decryption (sub_bytes_encryption state) ≡ state
unfolding sub_bytes_decryption sub_bytes_encryption
sub_bytes_decryption-encryption [] h = refl
sub_bytes_decryption-encryption (x ∷ state) (hx, h) =
    ap₂ ◌∷◌ (inv_s_box-s_box x hx) (sub_bytes_decryption-encryption state h)

pub sub_bytes-IsBlock : {state : Bytes} → IsBlock state → IsBlock (sub_bytes_encryption state)
unfolding sub_bytes_encryption
sub_bytes-IsBlock {state} b = record { size = sizes state ∙ b.size; bytes = all state b.bytes }
  where
    sizes : (xs : Bytes) → length (map (look_up s_box) xs) ≡ length xs
    sizes [] = refl
    sizes (x ∷ xs) = ap suc (sizes xs)

    all : (xs : Bytes) → All IsByte xs → All IsByte (map (look_up s_box) xs)
    all [] h = tt
    all (x ∷ xs) (hx, h) = (s_box-lt x hx, all xs h)

pub sub_round_key-add_round_key :
    (state key : Bytes) → sub_round_key (add_round_key state key) key ≡ state
unfolding sub_round_key add_round_key
sub_round_key-add_round_key [] key = refl
sub_round_key-add_round_key (x ∷ state) [] = refl
sub_round_key-add_round_key (x ∷ state) (k ∷ key) =
    ap₂ ◌∷◌ (bit_xor_cancel x k) (sub_round_key-add_round_key state key)

pub length-add_round_key : (state key : Bytes) → length (add_round_key state key) ≡ length state
unfolding add_round_key
length-add_round_key [] key = refl
length-add_round_key (x ∷ state) [] = refl
length-add_round_key (x ∷ state) (k ∷ key) = ap suc (length-add_round_key state key)

pub add_round_key-All :
    (state key : Bytes) → All IsByte state → All IsByte key → All IsByte (add_round_key state key)
unfolding add_round_key
add_round_key-All [] key h hk = tt
add_round_key-All (x ∷ state) [] h hk = h
add_round_key-All (x ∷ state) (k ∷ key) (hx, h) (hk, hks) =
    (bit_xor-lt 8 x k hx hk, add_round_key-All state key h hks)

pub add_round_key-IsBlock :
    {state : Bytes} (key : Bytes)
    → IsBlock state
    → All IsByte key
    → IsBlock (add_round_key state key)
add_round_key-IsBlock {state} key b h = record {
  size = length-add_round_key state key ∙ b.size;
  bytes = add_round_key-All state key b.bytes h;
}
