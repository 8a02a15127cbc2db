-- ===== src/Frame/Tests.antt =====
-- Frames whose bytes need escapes, through the generator and the decoder.
use solarbot_update.Crc16.{calculate, update_all, update, table}
use solarbot_update.Base.{
  ap, ◌+◌, ◌%◌, ◌/◌, ℕ, ◌≡◌, refl, arith, true, false, List, [], ◌∷◌, ◌++◌, ◌≤◌, Bytes, length,
  replicate, length-replicate,
}
use solarbot_update.Frame.{
  store, check, check_header, check_payload, Frame, command, ping, frame_bytes, generate_frame,
  decode_frame,
}
use solarbot_update.Frame.Decode.{Message, message, drive, IsIdle}
use solarbot_update.Frame.Encode.{length-generate_frame}
use solarbot_update.Frame.Safe.{IsValid, IsComplete, decode_frame-IsValid, decode_frame-IsComplete}
use solarbot_update.Frame.Stream.{
  msg, Sent, send_all, Carries, drive-generate_frame, drive-send_all,
}

abbrev idle : Frame
idle = record {
  rx_frame_type = 0;
  rx_frame_id = 0;
  rx_payload_length = 0;
  frame_buffer = replicate 1024 0;
  frame_buffer_index = 0;
  escaping = false;
  decoding = false;
}

idle-IsIdle : IsIdle idle
idle-IsIdle = record {
  not_decoding = refl;
  not_escaping = refl;
  buffer_size = length-replicate {A = ℕ} 1024 0;
}

idle-IsValid : IsValid idle
idle-IsValid = record {
  buffer_size = length-replicate {A = ℕ} 1024 0;
  index = omega arith;
  header = λ on h. absurd (omega arith);
}

-- A handler that collects the messages.
collect : List Message → Frame → List Message × Frame
collect ms d = (ms ++ message d ∷ [], d)

abbrev flags : Bytes
flags = 0x7E ∷ 0x7D ∷ 0x20 ∷ []

drive-generate_frame_example :
    Carries collect [] idle (frame_bytes 5 command 7 flags) (msg command 7 flags)
unfolding generate_frame
drive-generate_frame_example =
    drive-generate_frame collect [] (0x7E ∷ 0x105 ∷ []) 40 command 7 flags
      (frame_bytes 5 command 7 flags) idle idle-IsIdle (omega arith) (omega arith) refl

abbrev two_sent : List Sent
two_sent =
    record { rnd_byte = 0x7D; sent = msg command 0x7E flags }
    ∷ record { rnd_byte = 1; sent = msg ping 2 [] }
    ∷ []

drive-send_all_example :
    (drive collect [] idle (send_all two_sent)).0 ≡ msg command 0x7E flags ∷ msg ping 2 [] ∷ []
unfolding collect
drive-send_all_example =
    drive-send_all collect (λ ms m. ms ++ m ∷ []) (λ ms d h b. refl) (λ ms d h. h) two_sent []
      idle-IsIdle ((omega arith, omega arith), ((omega arith, omega arith), tt))

length-generate_frame_example : length (frame_bytes 5 command 7 flags) ≤ 26
unfolding generate_frame
length-generate_frame_example =
    length-generate_frame (5 ∷ []) 26 command 7 flags (frame_bytes 5 command 7 flags) (omega arith)
      refl

-- The decoder just before the last byte of a frame without payload: a ping with the id 2.
abbrev last_byte : Frame
last_byte = record idle {
  rx_frame_id = 2;
  frame_buffer = 0 ∷ 0 ∷ 2 ∷ 0 ∷ 0 ∷ 0 ∷ header_crc % 256 ∷ header_crc / 256 ∷ replicate 1016 0;
  frame_buffer_index = 9;
  decoding = true;
}
  where
    header_crc : ℕ
    header_crc = calculate (0 ∷ 0 ∷ 2 ∷ 0 ∷ 0 ∷ 0 ∷ [])

last_byte-IsValid : IsValid last_byte
unfolding calculate update_all update table
last_byte-IsValid = record {
  buffer_size = ap (λ (n : ℕ). 8 + n) (length-replicate {A = ℕ} 1016 0);
  index = omega arith;
  header = λ on h. record { crc = refl; frame_type = refl; frame_id = refl; payload_length = refl };
}

decode_frame-IsValid_example : IsValid (decode_frame last_byte 0).0
decode_frame-IsValid_example = decode_frame-IsValid last_byte 0 last_byte-IsValid

decode_frame-IsComplete_example : IsComplete (decode_frame last_byte 0).0
unfolding decode_frame store check check_header check_payload calculate update_all update table
decode_frame-IsComplete_example = decode_frame-IsComplete last_byte 0 last_byte-IsValid refl
