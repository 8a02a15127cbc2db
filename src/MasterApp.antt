-- ===== src/MasterApp.antt =====
-- MasterApp.cpp: the command link. The server hands an authenticated client to `ThreadClient`, whose
-- bytes `ParseRawRx` decodes; every command is executed and acknowledged over the same link.
pub mod Commands
pub mod Modes
pub mod Sending
pub mod Delivery
pub mod Server
mod Tests
pub mod Answers
use solarbot_update.Base.{
  ℕ, zero, suc, ◌+◌, ◌-◌, ◌*◌, ◌/◌, ◌%◌, Bool, true, false, ◌&&◌, ◌||◌, Option, none, some, List,
  [], ◌∷◌, ◌++◌, Bytes, length, get_or, set, take, drop, ltb, leb, ◌==◌, if◌then◌else◌, codes,
}
use solarbot_update.Frame.{Frame, generate_ping_ack_frame, generate_command_ack_frame}
use solarbot_update.Aes128.{encrypt}

-- What `ParseRawRx` answers with: the key schedule of `AES_Client`, `Client_Tx_Buffer`, and the packets
-- given to the socket. `rand n` are the numbers that `rand` returns while the answer number `n` is
-- generated.
pub record Link : Type 0 where
  pub expanded_keys : Bytes
  pub tx_buffer : Bytes
  pub sent : List Bytes
  pub rand : ℕ → List ℕ

-- `Client_Tx_Buffer_Size`; the array has 16 bytes more.
abbrev pub tx_buffer_size : ℕ
tx_buffer_size = 512

-- The padding loop of `Send`, with the rounds left.
unfoldable pub pad : ℕ → ℕ → Bytes → Bytes
pad zero i buffer = buffer
pad (suc rounds) i buffer = pad rounds (i + 1) (set buffer i 0)

-- `Send`, on `Client_Tx_Buffer`, which all its callers give it: pad, encrypt whole blocks in place,
-- and give them to the socket.
unfoldable pub send : Link → ℕ → Link
unfolding pad
send link len =
    let blocks = 1 + len / 16 in
    let padded = pad (16 * (blocks - 1) - len) len link.tx_buffer in
    let packet = encrypt link.expanded_keys padded blocks in
    record link { tx_buffer = packet ++ drop (16 * blocks) padded; sent = link.sent ++ packet ∷ [] }

-- What a generator writes at the start of the buffer, before the call of `Send`. A generator that
-- never ends, `none`, sends nothing.
unfoldable pub send_frame : Link → Option Bytes → Link
unfolding send
send_frame link none = link
send_frame link (some out) =
    send (record link { tx_buffer = out ++ drop (length out) link.tx_buffer }) (length out)

-- The numbers drawn for the next answer.
abbrev pub draws : Link → List ℕ
draws link = link.rand (length link.sent)

-- `SendCommandACK`
unfoldable pub send_command_ack : Link → ℕ → Bytes → Link
unfolding send_frame generate_command_ack_frame
send_command_ack link frame_id msg =
    send_frame link (generate_command_ack_frame (draws link) tx_buffer_size frame_id msg)

-- The answer of `ParseRawRx` to a ping.
unfoldable pub send_ping_ack : Link → ℕ → Link
unfolding send_frame generate_ping_ack_frame
send_ping_ack link frame_id =
    send_frame link (generate_ping_ack_frame (draws link) tx_buffer_size frame_id)

-- One digit of `Hex2Byte`: 0 for a character that is no digit.
unfoldable pub hex_digit : ℕ → ℕ
hex_digit c =
    if leb 0x30 c && ltb (c - 0x30) 0x0A
    then c - 0x30
    else if ltb 0x10 (c - 0x30) && ltb (c - 0x30) 0x17
    then c - 0x30 - 0x07
    else 0

-- `Hex2Byte`
unfoldable pub hex_to_byte : ℕ → ℕ → ℕ
unfolding hex_digit
hex_to_byte c d = (hex_digit c * 16 % 256 + hex_digit d) % 256

-- The loop that reads the 16 bytes of the client's key from its field, `i` from the start.
unfoldable pub read_key : ℕ → ℕ → Bytes → Bytes
unfolding hex_to_byte
read_key zero i field = []
read_key (suc rounds) i field =
    hex_to_byte (get_or field (i * 2) 0) (get_or field (i * 2 + 1) 0)
    ∷ read_key rounds (i + 1) field

-- The loop of `GenerateServerKey` that picks the key out of the 64 random bytes.
unfoldable pub pick_key : ℕ → ℕ → Bytes → Bytes
pick_key zero sv server_key = []
pick_key (suc rounds) sv server_key =
    get_or server_key sv 0 ∷ pick_key rounds (get_or server_key sv 0 / 4) server_key
