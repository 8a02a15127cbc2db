-- ===== src/Telemetry.antt =====
-- Telemetry.cpp: the handshake between a telemetry client and the server, both of which the class has.
-- `Hex2Byte` and the loop that picks a key out of 64 random bytes are the same code as in MasterApp.cpp.
pub mod Fields
pub mod Handshake
pub mod Admission
pub mod Frames
mod Tests
use solarbot_update.Text.{comma, hex_text}
use solarbot_update.Base.{
  ℕ, zero, suc, ◌+◌, ◌-◌, ◌*◌, ◌/◌, ◌%◌, Bool, true, false, ◌&&◌, Option, none, some, List, [], ◌∷◌,
  ◌++◌, Bytes, length, get_or, take, drop, replicate, ltb, ◌==◌, if◌then◌else◌, codes, same,
}
use solarbot_update.Aes128.{set_key, encrypt, decrypt}
use solarbot_update.MasterApp.{read_key, pick_key}

-- `ProcessorStatus`
pub data Status : Type 0 where
  starting : Status
  authenticating : Status
  working : Status

-- What `ThreadServer` keeps for a client: `ClientStatus`, `IsConnected`, `client_is_authenticated`,
-- the key schedule of `AES_Server`, and what it has written to the socket.
pub record Session : Type 0 where
  pub status : Status
  pub is_connected : Bool
  pub is_authenticated : Bool
  pub expanded_keys : Bytes
  pub written : List Bytes

-- The state in which `ThreadServer` begins with a client, after `accept`.
unfoldable pub accepted : Session → Session
accepted s = record s { status = starting; is_connected = true; is_authenticated = false }

-- `GenerateServerKey`, with the 64 random bytes, and what follows it: they are sent, and the session
-- waits for the login.
unfoldable pub offer_key : Session → Bytes → Session
offer_key s server_key = record s {
  expanded_keys = set_key (pick_key 16 11 server_key);
  written = s.written ++ server_key ∷ [];
  status = authenticating;
}

-- The loop over `getline`: the fields between the commas; `field` is what has been read of the
-- current one.
unfoldable pub split : Bytes → Bytes → List Bytes
split field [] = field ∷ []
split field (c ∷ cs) = if c == comma then field ∷ split [] cs else split (field ++ c ∷ []) cs

-- Whole blocks are decrypted in place; bytes behind them stay.
unfoldable pub decrypt_in_place : Bytes → Bytes → Bytes
decrypt_in_place keys coded =
    decrypt keys coded (length coded / 16) ++ drop (16 * (length coded / 16)) coded

-- `AuthenticateClient`
unfoldable pub authenticate_client : Bytes → Bytes → Bytes → Bytes → Bool
authenticate_client version frota user password = same version (codes "SolarBot")

-- A field by its number, for a number that the caller has checked.
abbrev pub at : List Bytes → ℕ → Bytes
at fields i = get_or fields i []

-- The login: with more than five fields, the right name, and a key of 32 characters, the session works
-- under that key; otherwise the client is dropped.
unfoldable pub log_in : Session → List Bytes → Session
log_in s fields =
    if ltb 5 (length fields)
      && (same (at fields 0) (codes "SolarBot") && (length (at fields 4) == 32))
    then (if authenticate_client (at fields 0) (at fields 1) (at fields 2) (at fields 3)
        then record s {
          expanded_keys = set_key (read_key 16 0 (at fields 4));
          status = working;
          is_authenticated = true;
        }
        else record s { is_connected = false })
    else record s { is_connected = false }

-- The first word of the client.
unfoldable pub greet : Session → Bytes → Bytes → Session
greet s server_key word =
    if same word (codes "SOLARBOT")
    then offer_key (record s { is_authenticated = false }) server_key
    else record s { is_authenticated = false; is_connected = false }

-- `Server_Rx_Buffer_Size`: a read brings no more.
abbrev pub server_rx_buffer_size : ℕ
server_rx_buffer_size = 512

-- One round of the loop of `ThreadServer` at a status, with the random bytes that `rand` gives in it
-- and what waits at the socket; `none` is an exception of the socket. A working session does not
-- read.
unfoldable pub round_at : Status → Session → Bytes → Option Bytes → Session
round_at starting s server_key none = record s { is_authenticated = false; is_connected = false }
round_at starting s server_key (some word) = greet s server_key word
round_at authenticating s server_key none = record s { is_connected = false }
round_at authenticating s server_key (some coded) =
    log_in s (split [] (decrypt_in_place s.expanded_keys (take server_rx_buffer_size coded)))
round_at working s server_key input = s

unfoldable pub server_round : Session → Bytes → Option Bytes → Session
unfolding round_at
server_round s server_key input = round_at s.status s server_key input

-- The client's login, as `ThreadTelemetricServer` prints it, with the key that it has drawn.
unfoldable pub login_text : Bytes → Bytes → Bytes → Bytes → Bytes
unfolding hex_text
login_text id user password key =
    codes "SolarBot"
    ++ comma
      ∷ (id
          ++ comma ∷ (user ++ comma ∷ (password ++ comma ∷ (hex_text key ++ comma ∷ codes "END"))))

-- The padding loop: zeros until the length is a multiple of 16, which takes at most 15.
unfoldable pub pad_text : Bytes → Bytes
pad_text text = text ++ replicate ((16 - length text % 16) % 16) 0

-- What the client writes after it has received the server's 64 bytes: the login under the key picked
-- out of them.
unfoldable pub client_login : Bytes → Bytes → Bytes → Bytes → Bytes → Bytes
client_login received id user password key =
    let text = pad_text (login_text id user password key) in
    encrypt (set_key (pick_key 16 11 received)) text (length text / 16)

-- The client's login, where its text, with the zero behind it, fits the 512 bytes that it is printed into;
-- otherwise the program writes past them, `none`.
unfoldable pub send_login : Bytes → Bytes → Bytes → Bytes → Bytes → Option Bytes
unfolding client_login
send_login received id user password key =
    if ltb (length (login_text id user password key)) 512
    then some (client_login received id user password key)
    else none
