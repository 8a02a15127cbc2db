-- ===== src/Head/Tests.antt =====
-- Frames from the head on concrete values.
use solarbot_update.Base.{
  ℕ, ◌≡◌, arith, true, false, [], ◌∷◌, Bytes, take, replicate, length-replicate,
}
use solarbot_update.Head.{Head, receive, receive_all}
use solarbot_update.Head.Reception.{IsValid, head_frame, receive-IsValid, receive_all-head_frame}

-- A decoder in the middle of something else.
abbrev busy : Head
busy = record {
  raw_frame = replicate 100 7;
  raw_frame_index = 99;
  raw_frame_length = 12;
  rxflag = false;
  escaping = true;
  crc = 3;
}

busy-IsValid : IsValid busy
busy-IsValid = record { array = length-replicate {A = ℕ} 100 7; index = omega arith }

receive-IsValid_example : IsValid (receive busy 5)
receive-IsValid_example = receive-IsValid busy 5 busy-IsValid

abbrev payload : Bytes
payload = 0x7E ∷ 0x7D ∷ 0 ∷ []

receive_all-head_frame_example :
    ((receive_all busy (head_frame payload)).rxflag ≡ true)
    × (take 3 (receive_all busy (head_frame payload)).raw_frame ≡ payload)
receive_all-head_frame_example =
    receive_all-head_frame busy payload busy-IsValid (omega arith) (omega arith)
