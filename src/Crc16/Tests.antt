-- ===== src/Crc16/Tests.antt =====
-- The CRC of the command link on concrete messages.
use solarbot_update.Base.{all_bytes, all_bytes_sound, ◌≡◌, ◌≢◌, refl, arith, [], ◌∷◌, Bytes}
use solarbot_update.Crc16.{calculate}
use solarbot_update.Crc16.Poly.{divide, calculate-divide}
use solarbot_update.Crc16.Detect.{calculate_one_byte}

abbrev digits : Bytes
digits = 0x31 ∷ 0x32 ∷ 0x33 ∷ 0x34 ∷ 0x35 ∷ 0x36 ∷ 0x37 ∷ 0x38 ∷ 0x39 ∷ []

calculate-divide_example : calculate digits ≡ divide 0 digits
unfolding all_bytes
calculate-divide_example = calculate-divide digits (all_bytes_sound digits refl)

calculate_one_byte_example :
    calculate (0x31 ∷ 0x32 ∷ 0x33 ∷ []) ≢ calculate (0x31 ∷ 0x33 ∷ 0x33 ∷ [])
calculate_one_byte_example =
    calculate_one_byte (0x31 ∷ []) (0x33 ∷ []) 0x32 0x33 (omega arith, tt) (omega arith, tt)
      (omega arith) (omega arith) (omega arith)
