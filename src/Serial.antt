-- ===== src/Serial.antt =====
-- The lines that the boards on the serial ports send and get, as ControlUnit.cpp, PowerUnit.cpp,
-- LineNavigator.cpp and GPS.cpp of solarbot/ check them: the same VerifyChecksum stands in all four.
pub mod Hex
pub mod Checksum
pub mod Tests
use solarbot_update.Base.{
  ℕ, zero, suc, ◌+◌, ◌-◌, Bool, true, false, Option, none, some, List, [], ◌∷◌, ◌++◌, Bytes, length,
  drop, set, bit_xor, foldl, ◌==◌, if◌then◌else◌, ℤ, pos, negsuc, to_byte,
}
use solarbot_update.Text.{strtol_hex, hex_text, ◌>>=◌, hex_ends}

-- The codes of err.h.
abbrev pub invalid_checksum : ℤ
invalid_checksum = negsuc 15

abbrev pub read_error : ℤ
read_error = negsuc 18

abbrev pub read_timeout : ℤ
read_timeout = negsuc 19

abbrev pub checksum_error : ℤ
checksum_error = negsuc 20

abbrev pub invalid_frame : ℤ
invalid_frame = negsuc 21

-- The loop: at most `n` characters up to the `*`, which is skipped, as is the one at which it stops when
-- `n` are read. `none` when it reads behind the array.
unfoldable pub scan : ℕ → ℕ → Bytes → Option (ℕ × Bytes)
scan n sum [] = none
scan zero sum (p ∷ message) = some (sum, message)
scan (suc n) sum (p ∷ message) =
    if p == b'*' then some (sum, message) else scan n (bit_xor sum p) message

-- For a buffer of `size` bytes; the first character is skipped. `none` when the number of the sum goes on
-- to the end of what is there, behind which `strtol` reads further.
unfoldable pub verify_checksum : ℕ → Bytes → Option ℤ
unfolding scan strtol_hex hex_ends
verify_checksum size [] = none
verify_checksum size (start ∷ message) = do
  (sum, rest) ← scan (size - 8) 0 message
  (if hex_ends rest
      then some (if sum == to_byte (strtol_hex rest) then pos 0 else invalid_checksum)
      else none)

-- The loop that sums the characters of a line.
unfoldable pub checksum : Bytes → ℕ
checksum body = foldl bit_xor 0 body

-- The end of a line: `*`, the sum of what follows the first character, and a line feed.
unfoldable pub seal : Bytes → Bytes
unfolding checksum hex_text
seal text = text ++ b'*' ∷ (hex_text (checksum (drop 1 text) ∷ []) ++ 10 ∷ [])

-- What `select` and `read` bring: an error of the one or of the other, nothing in time, or some bytes.
pub data Wait : Type 0 where
  failed : Wait
  unread : Wait
  timed_out : Wait
  arrived : Bytes → Wait

-- `read` writes at the start of the buffer and leaves the rest.
abbrev pub read_into : Bytes → Bytes → Bytes
read_into buffer bytes = bytes ++ drop (length bytes) buffer
