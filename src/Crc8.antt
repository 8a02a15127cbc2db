-- ===== src/Crc8.antt =====
-- CRC8.cpp: the nibble-driven CRC-8 that guards the frames of the head.
pub mod Poly
mod Tests
use solarbot_update.Base.{ℕ, ◌*◌, ◌/◌, ◌%◌, bit_xor, List, [], ◌∷◌, Bytes, get_or}

-- `CRC8_Lookup`
pub lookup_table : List ℕ
lookup_table =
    0x00 ∷ 0x07 ∷ 0x0E ∷ 0x09 ∷ 0x1C ∷ 0x1B ∷ 0x12 ∷ 0x15 ∷ 0x38 ∷ 0x3F ∷ 0x36 ∷ 0x31 ∷ 0x24 ∷ 0x23
    ∷ 0x2A ∷ 0x2D ∷ []

-- `CRC_Init`
abbrev pub initial : ℕ
initial = 0xFF

-- The first line of `CRC_Update`, on the high nibble of the byte. `crc` is an unsigned char.
pub update_high : ℕ → ℕ → ℕ
update_high crc val = bit_xor (crc * 16 % 256) (get_or lookup_table (bit_xor crc val / 16) 0)

-- The second line, on the low nibble.
pub update_low : ℕ → ℕ → ℕ
update_low crc val = bit_xor (crc * 16 % 256) (get_or lookup_table (bit_xor (crc / 16) val % 16) 0)

-- `CRC_Update`
unfoldable pub update : ℕ → ℕ → ℕ
unfolding update_high update_low
update crc val = update_low (update_high crc val) val

-- `GetCRC_Update`
unfoldable pub update_all : ℕ → Bytes → ℕ
update_all crc [] = crc
update_all crc (b ∷ bs) = update_all (update crc b) bs

-- `GetCRC`
unfoldable pub calculate : Bytes → ℕ
calculate bytes = update_all initial bytes
