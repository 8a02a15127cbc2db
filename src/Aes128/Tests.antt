-- ===== src/Aes128/Tests.antt =====
-- The cipher on the example of FIPS 197, appendix C.1.
use solarbot_update.Base.{
  ◌++◌, all_bytes, all_bytes_sound, ◌≡◌, refl, arith, [], ◌∷◌, Bytes, All, IsByte, length,
}
use solarbot_update.Aes128.{
  expand_keys, next_word, key_expansion_core, add_round_key, round_encryption, mix_columns,
  mix_column, shift_rows_encryption, sub_bytes_encryption, s_box, rcon, set_key, encrypt, decrypt,
  look_up, mul2, mul3, mul9, mul11, mul13, mul14,
}
use solarbot_update.Aes128.Field.{by2, by3, by9, by11, by13, by14, mul_tables}
use solarbot_update.Aes128.Key.{decrypt-encrypt-set_key}

abbrev key : Bytes
key = 0 ∷ 1 ∷ 2 ∷ 3 ∷ 4 ∷ 5 ∷ 6 ∷ 7 ∷ 8 ∷ 9 ∷ 10 ∷ 11 ∷ 12 ∷ 13 ∷ 14 ∷ 15 ∷ []

abbrev plain : Bytes
plain =
    0x00 ∷ 0x11 ∷ 0x22 ∷ 0x33 ∷ 0x44 ∷ 0x55 ∷ 0x66 ∷ 0x77 ∷ 0x88 ∷ 0x99 ∷ 0xAA ∷ 0xBB ∷ 0xCC ∷ 0xDD
    ∷ 0xEE ∷ 0xFF ∷ []

key-All : All IsByte key
unfolding all_bytes
key-All = all_bytes_sound key refl

plain-All : All IsByte plain
unfolding all_bytes
plain-All = all_bytes_sound plain refl

-- The round key of the first round.
abbrev first_key : Bytes
first_key =
    0xD6 ∷ 0xAA ∷ 0x74 ∷ 0xFD ∷ 0xD2 ∷ 0xAF ∷ 0x72 ∷ 0xFA ∷ 0xDA ∷ 0xA6 ∷ 0x78 ∷ 0xF1 ∷ 0xD6 ∷ 0xAB
    ∷ 0x76 ∷ 0xFE ∷ []

expand_keys_vector : expand_keys 4 1 key ≡ key ++ first_key
unfolding expand_keys next_word key_expansion_core add_round_key s_box rcon
expand_keys_vector = refl

round_encryption_vector :
    round_encryption (add_round_key plain key) first_key
    ≡ 0x89 ∷ 0xD8 ∷ 0x10 ∷ 0xE8 ∷ 0x85 ∷ 0x5A ∷ 0xCE ∷ 0x68 ∷ 0x2D ∷ 0x18 ∷ 0x43 ∷ 0xD8 ∷ 0xCB
      ∷ 0x12 ∷ 0x8F ∷ 0xE4 ∷ []
unfolding round_encryption add_round_key mix_columns mix_column shift_rows_encryption
    sub_bytes_encryption s_box mul2 mul3
round_encryption_vector = refl

decrypt-encrypt-set_key_example :
    (length (set_key key) ≡ 176) × (decrypt (set_key key) (encrypt (set_key key) plain 1) 1 ≡ plain)
decrypt-encrypt-set_key_example = decrypt-encrypt-set_key key plain 1 refl key-All refl plain-All

mul_tables_example :
    (look_up mul2 0x57 ≡ by2 0x57)
    × (look_up mul3 0x57 ≡ by3 0x57)
    × (look_up mul9 0x57 ≡ by9 0x57)
    × (look_up mul11 0x57 ≡ by11 0x57)
    × (look_up mul13 0x57 ≡ by13 0x57)
    × (look_up mul14 0x57 ≡ by14 0x57)
mul_tables_example = mul_tables 0x57 (omega arith)
