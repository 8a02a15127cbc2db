-- ===== src/Frame.antt =====
-- Frame.cpp: the framing of the command link. A frame is a random byte, 0x7E, then the escaped
-- bytes of an 8-byte header, of the payload and of the payload's CRC. Words are little-endian, as on
-- the program's machine.
pub mod Decode
pub mod Fields
pub mod Complete
pub mod RoundTrip
pub mod Safe
pub mod Encode
pub mod Stream
mod Tests
use mathlib.Core.Option
use solarbot_update.Base.{
  ℕ, ◌+◌, ◌*◌, ◌/◌, ◌%◌, bit_xor, Bool, true, false, not, ◌||◌, List, [], ◌∷◌, ◌++◌, Option, none,
  some, Bytes, length, get_or, set, take, drop, ltb, ◌==◌, if◌then◌else◌,
}
use solarbot_update.Crc16.{calculate}

-- The class `Frame`: its public fields and the flags of the decoder.
pub record Frame : Type 0 where
  pub rx_frame_type : ℕ
  pub rx_frame_id : ℕ
  pub rx_payload_length : ℕ
  pub frame_buffer : Bytes
  pub frame_buffer_index : ℕ
  pub escaping : Bool
  pub decoding : Bool

abbrev pub frame_buffer_size : ℕ
frame_buffer_size = 1024

-- A `uint16_t` read from the buffer.
abbrev pub word_at : Bytes → ℕ → ℕ
word_at buf i = get_or buf i 0 + 256 * get_or buf (i + 1) 0

-- At index 7 the header is complete: take its fields if its CRC is right, else stop decoding.
pub check_header : Frame → Frame
check_header d =
    if word_at d.frame_buffer 6 == calculate (take 6 d.frame_buffer)
    then record d {
      rx_frame_type = word_at d.frame_buffer 0;
      rx_frame_id = word_at d.frame_buffer 2;
      rx_payload_length = word_at d.frame_buffer 4;
    }
    else record d { decoding = false }

-- At the last byte: verify the payload's CRC. A wrong CRC leaves `decoding` on.
pub check_payload : Frame → Frame × Bool
check_payload d =
    if calculate (take d.rx_payload_length (drop 8 d.frame_buffer))
      == word_at d.frame_buffer (8 + d.rx_payload_length)
    then (record d { decoding = false }, true)
    else (d, false)

pub check : Frame → Frame × Bool
check d =
    if d.frame_buffer_index == 7
    then (check_header d, false)
    else if ltb 7 d.frame_buffer_index
    then (if d.frame_buffer_index == d.rx_payload_length + 9 then check_payload d else (d, false))
    else (d, false)

-- Store one decoded byte, check, and step the index; a full buffer stops the decoding.
unfoldable pub store : Frame → ℕ → Frame × Bool
unfolding check check_header check_payload
store d a =
    if ltb d.frame_buffer_index frame_buffer_size
    then (let (d', result) =
          check (record d { frame_buffer = set d.frame_buffer d.frame_buffer_index a }) in
        (record d' { frame_buffer_index = d'.frame_buffer_index + 1 }, result))
    else (record d { decoding = false }, false)

-- `Frame::DecodeFrame`: the new state, and whether this byte completes a frame.
unfoldable pub decode_frame : Frame → ℕ → Frame × Bool
decode_frame d a =
    if a == 0x7E
    then (record d { frame_buffer_index = 0; rx_payload_length = 0; decoding = true }, false)
    else if not d.decoding
    then (d, false)
    else if a == 0x7D
    then (record d { escaping = true }, false)
    else store (record d { escaping = false }) (if d.escaping then bit_xor a 0x20 else a)

-- `Frame::AddWithEscape`: the bytes that it appends to the buffer.
unfoldable pub add_with_escape : ℕ → Bytes
add_with_escape b = if b == 0x7E || b == 0x7D then 0x7D ∷ bit_xor b 0x20 ∷ [] else b ∷ []

unfoldable pub add_all : Bytes → Bytes
add_all [] = []
add_all (b ∷ bs) = add_with_escape b ++ add_all bs

-- The loop that draws `rand() % 256` until it is not 0x7E, on the numbers that `rand` returns.
-- `none` means that none of them ends the loop.
unfoldable pub random_byte : List ℕ → Option ℕ
random_byte [] = none
random_byte (r ∷ rs) = if r % 256 == 0x7E then random_byte rs else some (r % 256)

-- The two bytes of a `uint16_t` in memory.
abbrev pub word_bytes : ℕ → Bytes
word_bytes w = w % 256 ∷ w / 256 ∷ []

-- The header's bytes in front of its CRC.
abbrev pub header_fields : ℕ → ℕ → ℕ → Bytes
header_fields frame_type frame_id payload_length =
    word_bytes frame_type ++ word_bytes frame_id ++ word_bytes payload_length

pub header_bytes : ℕ → ℕ → ℕ → Bytes
header_bytes frame_type frame_id payload_length =
    let fields = header_fields frame_type frame_id payload_length in
    fields ++ word_bytes (calculate fields)

-- What `GenerateFrame` writes after its size check, for the payload bytes that it reads.
pub frame_bytes : ℕ → ℕ → ℕ → Bytes → Bytes
unfolding add_all add_with_escape header_bytes
frame_bytes rnd_byte frame_type frame_id payload =
    rnd_byte
    ∷ 0x7E
    ∷ (add_all (header_bytes frame_type frame_id (length payload))
        ++ (add_all payload ++ add_all (word_bytes (calculate payload))))

-- `Frame::GenerateFrame`: the bytes written to `buffer`, whose number is the value returned; no byte
-- if the buffer is too small. `payload` are the bytes `Payload[0..PayloadLength)`.
unfoldable pub generate_frame : List ℕ → ℕ → ℕ → ℕ → Bytes → Option Bytes
unfolding random_byte frame_bytes
generate_frame draws buffer_size frame_type frame_id payload =
    if ltb buffer_size (2 * (10 + length payload))
    then some []
    else Option.map (λ rnd. frame_bytes rnd frame_type frame_id payload) (random_byte draws)

-- `FramesTypes::FramesTypes`
abbrev pub ping : ℕ
ping = 0

abbrev pub ping_ack : ℕ
ping_ack = 1

abbrev pub command : ℕ
command = 2

abbrev pub command_ack : ℕ
command_ack = 3

-- `Frame::GeneratePingACKFrame`
unfoldable pub generate_ping_ack_frame : List ℕ → ℕ → ℕ → Option Bytes
unfolding generate_frame
generate_ping_ack_frame draws buffer_size id_frame =
    generate_frame draws buffer_size ping_ack id_frame []

-- `Frame::GenerateCommandACKFrame`: `msg.length()` is cut to a `uint16_t`.
unfoldable pub generate_command_ack_frame : List ℕ → ℕ → ℕ → Bytes → Option Bytes
unfolding generate_frame
generate_command_ack_frame draws buffer_size id_frame msg =
    generate_frame draws buffer_size command_ack id_frame (take (length msg % 65536) msg)
