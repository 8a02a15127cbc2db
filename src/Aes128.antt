-- ===== src/Aes128.antt =====
-- AES128.cpp: the cipher of the telemetry and command links. A state is a list of 16 bytes.
mod Tables
pub mod Field
pub mod Columns
pub mod State
pub mod Block
pub mod Key
mod Tests
unfoldable pub use Tables.{s_box, inv_s_box, mul2, mul3, mul9, mul11, mul13, mul14, rcon}
use solarbot_update.Base.{
  ℕ, zero, suc, ◌+◌, ◌-◌, ◌*◌, ◌%◌, bit_xor, List, [], ◌∷◌, ◌++◌, Bytes, get_or, take, drop, length,
  map, ◌==◌, if◌then◌else◌,
}

-- The byte of a table at an index.
abbrev pub look_up : List ℕ → ℕ → ℕ
look_up table x = get_or table x 0

-- `AddRoundKey`, and `SubRoundKey`, which has the same body: `state[i] ^= roundKey[i]`.
unfoldable pub add_round_key : Bytes → Bytes → Bytes
add_round_key [] key = []
add_round_key (x ∷ state) [] = x ∷ state
add_round_key (x ∷ state) (k ∷ key) = bit_xor x k ∷ add_round_key state key

unfoldable pub sub_round_key : Bytes → Bytes → Bytes
sub_round_key [] key = []
sub_round_key (x ∷ state) [] = x ∷ state
sub_round_key (x ∷ state) (k ∷ key) = bit_xor x k ∷ sub_round_key state key

-- `SubBytesEncryption`
unfoldable pub sub_bytes_encryption : Bytes → Bytes
sub_bytes_encryption = map (look_up s_box)

-- `SubBytesDescrytion`
unfoldable pub sub_bytes_decryption : Bytes → Bytes
sub_bytes_decryption = map (look_up inv_s_box)

-- The bytes of a state at the given places.
abbrev pub pick : Bytes → List ℕ → Bytes
pick state [] = []
pick state (i ∷ places) = get_or state i 0 ∷ pick state places

-- `ShiftRowsEncryption`
unfoldable pub shift_rows_encryption : Bytes → Bytes
shift_rows_encryption state =
    pick state (0 ∷ 5 ∷ 10 ∷ 15 ∷ 4 ∷ 9 ∷ 14 ∷ 3 ∷ 8 ∷ 13 ∷ 2 ∷ 7 ∷ 12 ∷ 1 ∷ 6 ∷ 11 ∷ [])

-- `ShiftRowsDescrytion`
unfoldable pub shift_rows_decryption : Bytes → Bytes
shift_rows_decryption state =
    pick state (0 ∷ 13 ∷ 10 ∷ 7 ∷ 4 ∷ 1 ∷ 14 ∷ 11 ∷ 8 ∷ 5 ∷ 2 ∷ 15 ∷ 12 ∷ 9 ∷ 6 ∷ 3 ∷ [])

-- The exclusive or of four bytes.
abbrev pub xor4 : ℕ → ℕ → ℕ → ℕ → ℕ
xor4 a b c d = bit_xor (bit_xor (bit_xor a b) c) d

-- Four bytes of `MixColumns`.
unfoldable pub mix_column : ℕ → ℕ → ℕ → ℕ → Bytes
mix_column a b c d =
    xor4 (look_up mul2 a) (look_up mul3 b) c d
    ∷ xor4 a (look_up mul2 b) (look_up mul3 c) d
    ∷ xor4 a b (look_up mul2 c) (look_up mul3 d)
    ∷ xor4 (look_up mul3 a) b c (look_up mul2 d)
    ∷ []

-- Four bytes of `InverseMixColumns`.
unfoldable pub inverse_mix_column : ℕ → ℕ → ℕ → ℕ → Bytes
inverse_mix_column a b c d =
    xor4 (look_up mul14 a) (look_up mul11 b) (look_up mul13 c) (look_up mul9 d)
    ∷ xor4 (look_up mul9 a) (look_up mul14 b) (look_up mul11 c) (look_up mul13 d)
    ∷ xor4 (look_up mul13 a) (look_up mul9 b) (look_up mul14 c) (look_up mul11 d)
    ∷ xor4 (look_up mul11 a) (look_up mul13 b) (look_up mul9 c) (look_up mul14 d)
    ∷ []

-- The four columns of a state, one after another.
abbrev pub by_columns : (ℕ → ℕ → ℕ → ℕ → Bytes) → Bytes → Bytes
by_columns f state = column 0 1 2 3 ++ (column 4 5 6 7 ++ (column 8 9 10 11 ++ column 12 13 14 15))
  where
    column : ℕ → ℕ → ℕ → ℕ → Bytes
    column i j k l = f (get_or state i 0) (get_or state j 0) (get_or state k 0) (get_or state l 0)

-- `MixColumns`
unfoldable pub mix_columns : Bytes → Bytes
unfolding mix_column
mix_columns = by_columns mix_column

-- `InverseMixColumns`
unfoldable pub inverse_mix_columns : Bytes → Bytes
unfolding inverse_mix_column
inverse_mix_columns = by_columns inverse_mix_column

-- `RoundEncrytion`
unfoldable pub round_encryption : Bytes → Bytes → Bytes
round_encryption state key =
    add_round_key (mix_columns (shift_rows_encryption (sub_bytes_encryption state))) key

-- `FinalRound`
unfoldable pub final_round : Bytes → Bytes → Bytes
final_round state key = add_round_key (shift_rows_encryption (sub_bytes_encryption state)) key

-- `RoundDescription`
unfoldable pub round_decryption : Bytes → Bytes → Bytes
round_decryption state key =
    sub_bytes_decryption (shift_rows_decryption (inverse_mix_columns (sub_round_key state key)))

-- `InitialRound`
unfoldable pub initial_round : Bytes → Bytes → Bytes
initial_round state key = sub_bytes_decryption (shift_rows_decryption (sub_round_key state key))

-- The 16 bytes from `expandedKeys + 16 * i`.
abbrev pub round_key : Bytes → ℕ → Bytes
round_key expanded_keys i = take 16 (drop (16 * i) expanded_keys)

-- The loop of `EncryptBlock`, at the counter `i` with the given rounds left.
unfoldable pub encryption_rounds : Bytes → ℕ → ℕ → Bytes → Bytes
encryption_rounds expanded_keys i zero state = state
encryption_rounds expanded_keys i (suc rounds) state =
    encryption_rounds expanded_keys (i + 1) rounds
      (round_encryption state (round_key expanded_keys (i + 1)))

-- `EncryptBlock`
unfoldable pub encrypt_block : Bytes → Bytes → Bytes
encrypt_block expanded_keys message =
    final_round
      (encryption_rounds expanded_keys 0 9 (add_round_key message (round_key expanded_keys 0)))
      (round_key expanded_keys 10)

-- The loop of `DecryptBlock`, whose counter goes down; here it is one more than the source's.
unfoldable pub decryption_rounds : Bytes → ℕ → Bytes → Bytes
decryption_rounds expanded_keys zero state = state
decryption_rounds expanded_keys (suc i) state =
    decryption_rounds expanded_keys i (round_decryption state (round_key expanded_keys (suc i)))

-- `DecryptBlock`
unfoldable pub decrypt_block : Bytes → Bytes → Bytes
decrypt_block expanded_keys message =
    sub_round_key
      (decryption_rounds expanded_keys 9 (initial_round message (round_key expanded_keys 10)))
      (round_key expanded_keys 0)

-- `Encrypt`: the bytes written for `blocks` blocks.
unfoldable pub encrypt : Bytes → Bytes → ℕ → Bytes
encrypt expanded_keys message zero = []
encrypt expanded_keys message (suc blocks) =
    encrypt_block expanded_keys (take 16 message) ++ encrypt expanded_keys (drop 16 message) blocks

-- `Decrypt`: the bytes written for `blocks` blocks.
unfoldable pub decrypt : Bytes → Bytes → ℕ → Bytes
decrypt expanded_keys message zero = []
decrypt expanded_keys message (suc blocks) =
    decrypt_block expanded_keys (take 16 message) ++ decrypt expanded_keys (drop 16 message) blocks

-- `KeyExpansionCore` on the four bytes of `in`.
unfoldable pub key_expansion_core : ℕ → Bytes → Bytes
key_expansion_core i word =
    bit_xor (look_up s_box (get_or word 1 0)) (look_up rcon i)
    ∷ look_up s_box (get_or word 2 0)
    ∷ look_up s_box (get_or word 3 0)
    ∷ look_up s_box (get_or word 0 0)
    ∷ []

-- The four bytes that one round of the loop of `SetKey` appends to the keys generated so far.
unfoldable pub next_word : Bytes → ℕ → Bytes
next_word keys rcon_iteration =
    let generated = length keys in
    let last = take 4 (drop (generated - 4) keys) in
    let core = if generated % 16 == 0 then key_expansion_core rcon_iteration last else last in
    add_round_key (take 4 (drop (generated - 16) keys)) core

-- The loop of `SetKey`, 4 bytes a round; `rconIteration` steps in the rounds that use it.
unfoldable pub expand_keys : ℕ → ℕ → Bytes → Bytes
expand_keys zero rcon_iteration keys = keys
expand_keys (suc rounds) rcon_iteration keys =
    expand_keys rounds (if length keys % 16 == 0 then rcon_iteration + 1 else rcon_iteration)
      (keys ++ next_word keys rcon_iteration)

-- `SetKey`: the 176 bytes of `expandedKeys`. From 16 bytes to 176 the loop makes 40 rounds.
unfoldable pub set_key : Bytes → Bytes
set_key input_key = expand_keys 40 1 (take 16 input_key)
