-- ===== src/Crc8/Tests.antt =====
-- The CRC of the head's frames on a concrete message.
use solarbot_update.Base.{all_bytes, all_bytes_sound, ◌≡◌, refl, [], ◌∷◌, Bytes}
use solarbot_update.Crc8.{initial, calculate}
use solarbot_update.Crc8.Poly.{remainder, calculate-remainder}

abbrev digits : Bytes
digits = 0x31 ∷ 0x32 ∷ 0x33 ∷ 0x34 ∷ 0x35 ∷ 0x36 ∷ 0x37 ∷ 0x38 ∷ 0x39 ∷ []

calculate-remainder_example : calculate digits ≡ remainder initial digits
unfolding all_bytes
calculate-remainder_example = calculate-remainder digits (all_bytes_sound digits refl)
