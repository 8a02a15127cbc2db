-- ===== src/Head.antt =====
-- Head.cpp: the reception of `port_read` from the head's serial line. A frame is 0x7E, then the escaped
-- bytes of a length, of that many bytes, and of their CRC.
pub mod Reception
mod Tests
use solarbot_update.Base.{
  ℕ, ◌+◌, Bool, true, false, ◌&&◌, bit_xor, List, [], ◌∷◌, Bytes, set, leb, ◌==◌, if◌then◌else◌,
}
use solarbot_update.Crc8.{initial, update}

-- The fields of `Head` that `port_read` works on.
pub record Head : Type 0 where
  pub raw_frame : Bytes
  pub raw_frame_index : ℕ
  pub raw_frame_length : ℕ
  pub rxflag : Bool
  pub escaping : Bool
  pub crc : ℕ

-- `rx_raw_frame_size`, and the bound of the index, `port_rx_buffer_size`, which is the same.
abbrev pub raw_frame_size : ℕ
raw_frame_size = 100

-- A byte behind the length: one of the frame, after which the index goes round at the bound.
unfoldable pub store_byte : Head → ℕ → Head
store_byte h a = record h {
  raw_frame = set h.raw_frame h.raw_frame_index a;
  crc = update h.crc a;
  raw_frame_index =
      (if leb raw_frame_size (h.raw_frame_index + 1) then 0 else h.raw_frame_index + 1);
}

-- A decoded byte: the length, the CRC, or one of the frame.
unfoldable pub take_byte : Head → ℕ → Head
unfolding store_byte
take_byte h a =
    if h.raw_frame_index == 0 && h.raw_frame_length == 0
    then record h { raw_frame_length = a; crc = update h.crc a }
    else if h.raw_frame_index == h.raw_frame_length
    then record h { raw_frame_index = 0; rxflag = (if h.crc == a then true else h.rxflag) }
    else store_byte h a

-- The body of the loop of `port_read`, on one byte.
unfoldable pub receive : Head → ℕ → Head
unfolding take_byte
receive h a =
    if a == 0x7E
    then record h { raw_frame_index = 0; escaping = false; raw_frame_length = 0; crc = initial }
    else if a == 0x7D
    then record h { escaping = true }
    else take_byte (record h { escaping = false }) (if h.escaping then bit_xor a 0x20 else a)

-- The bytes of one `read`.
unfoldable pub receive_all : Head → Bytes → Head
receive_all h [] = h
receive_all h (a ∷ rest) = receive_all (receive h a) rest
