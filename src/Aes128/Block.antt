-- ===== src/Aes128/Block.antt =====
-- `DecryptBlock` undoes `EncryptBlock`, and `Decrypt` undoes `Encrypt`.
use solarbot_update.Base.{
  length-append, All-append, ℕ, zero, suc, ◌+◌, ◌*◌, ◌≤◌, ◌≡◌, refl, sym, ap, ap₂, ◌∙◌, arith, [],
  ◌∷◌, ◌++◌, Bytes, All, IsByte, length, take, drop, length-take, length-drop,
  take-append_of_length, drop-append_of_length, take-append-drop,
}
use solarbot_update.Aes128.{
  mix_columns, inverse_mix_columns, shift_rows_encryption, shift_rows_decryption,
  sub_bytes_encryption, sub_bytes_decryption, sub_round_key, round_encryption, round_decryption,
  final_round, initial_round, round_key, encryption_rounds, decryption_rounds, encrypt_block,
  decrypt_block, encrypt, decrypt,
}
use solarbot_update.Aes128.State.{
  IsBlock, drop_all, shift_rows_decryption-encryption, shift_rows-IsBlock, mix_columns-IsBlock,
  inverse-mix_columns, sub_bytes_decryption-encryption, sub_bytes-IsBlock,
  sub_round_key-add_round_key, add_round_key-IsBlock,
}

pub All-take : (n : ℕ) (xs : Bytes) → All IsByte xs → All IsByte (take n xs)
All-take zero xs h = tt
All-take (suc n) [] h = tt
All-take (suc n) (x ∷ xs) h = (h.0, All-take n xs h.1)

pub All-drop : (n : ℕ) (xs : Bytes) → All IsByte xs → All IsByte (drop n xs)
All-drop zero xs h = h
All-drop (suc n) [] h = tt
All-drop (suc n) (x ∷ xs) h = All-drop n xs h.1

pub take-IsBlock :
    (message : Bytes) → 16 ≤ length message → All IsByte message → IsBlock (take 16 message)
take-IsBlock message h hm = record {
  size = omega (arith, length-take 16 message);
  bytes = All-take 16 message hm;
}

module _ {state : Bytes} (key : Bytes) (b : IsBlock state) where
  round_decryption-encryption : round_decryption (round_encryption state key) key ≡ state
  unfolding round_decryption round_encryption
  round_decryption-encryption =
      let sub = sub_bytes-IsBlock b in
      let shifted = shift_rows-IsBlock sub in
      ap (λ (x : Bytes). sub_bytes_decryption (shift_rows_decryption (inverse_mix_columns x)))
        (sub_round_key-add_round_key
          (mix_columns (shift_rows_encryption (sub_bytes_encryption state))) key)
      ∙ ap (λ (x : Bytes). sub_bytes_decryption (shift_rows_decryption x))
          (inverse-mix_columns shifted)
      ∙ ap sub_bytes_decryption (shift_rows_decryption-encryption sub)
      ∙ sub_bytes_decryption-encryption state b.bytes

  initial-final_round : initial_round (final_round state key) key ≡ state
  unfolding initial_round final_round
  initial-final_round =
      ap (λ (x : Bytes). sub_bytes_decryption (shift_rows_decryption x))
        (sub_round_key-add_round_key (shift_rows_encryption (sub_bytes_encryption state)) key)
      ∙ ap sub_bytes_decryption (shift_rows_decryption-encryption (sub_bytes-IsBlock b))
      ∙ sub_bytes_decryption-encryption state b.bytes

  round_encryption-IsBlock : All IsByte key → IsBlock (round_encryption state key)
  unfolding round_encryption
  round_encryption-IsBlock h =
      add_round_key-IsBlock key (mix_columns-IsBlock (shift_rows-IsBlock (sub_bytes-IsBlock b))) h

  final_round-IsBlock : All IsByte key → IsBlock (final_round state key)
  unfolding final_round
  final_round-IsBlock h = add_round_key-IsBlock key (shift_rows-IsBlock (sub_bytes-IsBlock b)) h

module _ (keys : Bytes) (hk : All IsByte keys) where
  round_key-All : (i : ℕ) → All IsByte (round_key keys i)
  round_key-All i = All-take 16 (drop (16 * i) keys) (All-drop (16 * i) keys hk)

  encryption_rounds-IsBlock :
      (rounds i : ℕ) {state : Bytes}
      → IsBlock state
      → IsBlock (encryption_rounds keys i rounds state)
  unfolding encryption_rounds
  encryption_rounds-IsBlock zero i b = b
  encryption_rounds-IsBlock (suc rounds) i {state} b =
      encryption_rounds-IsBlock rounds (i + 1)
        (round_encryption-IsBlock (round_key keys (i + 1)) b (round_key-All (i + 1)))

  -- The rounds of decryption, from the counter at which those of encryption stop.
  decryption-encryption_rounds :
      (rounds i j : ℕ) {state : Bytes}
      → i + rounds ≡ j
      → IsBlock state
      → decryption_rounds keys j (encryption_rounds keys i rounds state)
        ≡ decryption_rounds keys i state
  unfolding encryption_rounds
  decryption-encryption_rounds zero i j {state} e b =
      ap (λ (n : ℕ). decryption_rounds keys n state) (omega arith)
  decryption-encryption_rounds (suc rounds) i j {state} e b =
      decryption-encryption_rounds rounds (i + 1) j (omega arith)
        (round_encryption-IsBlock (round_key keys (i + 1)) b (round_key-All (i + 1)))
      ∙ step (i + 1) (omega arith)
    where
      step :
          (n : ℕ)
          → n ≡ suc i
          → decryption_rounds keys n (round_encryption state (round_key keys n))
            ≡ decryption_rounds keys i state
      step n e' = rw e' (
          unfold decryption_rounds in
          ap (decryption_rounds keys i) (round_decryption-encryption (round_key keys (suc i)) b))

  -- Whatever the 176 bytes of the expanded key are, `DecryptBlock` gives back the 16 bytes that
  -- `EncryptBlock` has encrypted.
  pub decrypt_block-encrypt_block :
      {message : Bytes}
      → IsBlock message
      → decrypt_block keys (encrypt_block keys message) ≡ message
  unfolding decrypt_block encrypt_block
  decrypt_block-encrypt_block {message} b =
      let start = add_round_key-IsBlock (round_key keys 0) b (round_key-All 0) in
      ap (λ (x : Bytes). sub_round_key (decryption_rounds keys 9 x) (round_key keys 0))
        (initial-final_round (round_key keys 10) (encryption_rounds-IsBlock 9 0 start))
      ∙ ap (λ (x : Bytes). sub_round_key x (round_key keys 0))
          (decryption-encryption_rounds 9 0 9 refl start)
      ∙ unfold decryption_rounds in sub_round_key-add_round_key message (round_key keys 0)

  pub encrypt_block-IsBlock :
      {message : Bytes} → IsBlock message → IsBlock (encrypt_block keys message)
  unfolding encrypt_block
  encrypt_block-IsBlock b =
      final_round-IsBlock (round_key keys 10)
        (encryption_rounds-IsBlock 9 0
          (add_round_key-IsBlock (round_key keys 0) b (round_key-All 0)))
        (round_key-All 10)

  -- `Decrypt` gives back whole blocks that `Encrypt` has encrypted, however many there are.
  pub decrypt-encrypt :
      (blocks : ℕ) (message : Bytes)
      → length message ≡ 16 * blocks
      → All IsByte message
      → decrypt keys (encrypt keys message blocks) blocks ≡ message
  unfolding decrypt encrypt
  decrypt-encrypt zero message h hm = sym (drop_all message 0 (omega arith))
  decrypt-encrypt (suc blocks) message h hm =
      let first = take-IsBlock message (omega arith) hm in
      let coded = encrypt_block keys (take 16 message) in
      let later = encrypt keys (drop 16 message) blocks in
      let size = (encrypt_block-IsBlock first).size in
      ap₂ (λ (x y : Bytes). decrypt_block keys x ++ decrypt keys y blocks)
        (take-append_of_length 16 coded later size) (drop-append_of_length 16 coded later size)
      ∙ ap₂ ◌++◌ (decrypt_block-encrypt_block first) (
          decrypt-encrypt blocks (drop 16 message) (omega (arith, length-drop 16 message))
            (All-drop 16 message hm))
      ∙ take-append-drop 16 message

-- What `Encrypt` writes are whole blocks of bytes.
pub encrypt-IsBlocks :
    (keys : Bytes)
    → All IsByte keys
    → (blocks : ℕ) (message : Bytes) → length message ≡ 16 * blocks
    → All IsByte message
    → (length (encrypt keys message blocks) ≡ 16 * blocks)
      × All IsByte (encrypt keys message blocks)
unfolding encrypt
encrypt-IsBlocks keys hk zero message h hm = (refl, tt)
encrypt-IsBlocks keys hk (suc blocks) message h hm =
    let first = encrypt_block-IsBlock keys hk (take-IsBlock message (omega arith) hm) in
    let rest =
      encrypt-IsBlocks keys hk blocks (drop 16 message) (omega (arith, length-drop 16 message))
        (All-drop 16 message hm) in
    (
      omega (
        arith,
        length-append (encrypt_block keys (take 16 message))
            (encrypt keys (drop 16 message) blocks),
        first.size,
        rest.0,
      ),
      All-append IsByte (encrypt_block keys (take 16 message))
          (encrypt keys (drop 16 message) blocks) first.bytes rest.1,
    )
