-- ===== src/Telemetry/Tests.antt =====
-- A handshake on concrete values.
use solarbot_update.Base.{
  take, drop, ◌≡◌, refl, arith, true, false, some, [], ◌∷◌, Bytes, all_bytes, all_bytes_sound,
  replicate, codes, ap, length, List, ◌<◌,
}
use solarbot_update.Aes128.{set_key, decrypt}
use solarbot_update.Telemetry.Frames.{Output, transmit, transmit-decrypt}
use solarbot_update.Text.{hex_text}
use solarbot_update.Telemetry.{
  send_login, server_rx_buffer_size, log_in, login_text, authenticate_client, authenticating,
  working, Session, accepted, split, decrypt_in_place, server_round, client_login, greet, offer_key,
}
use solarbot_update.Telemetry.Handshake.{IsLogin, server_round-client_login, split-client_login}
use solarbot_update.Telemetry.Admission.{IsAdmitted, server_round-IsAdmitted}

abbrev fresh : Session
fresh = record {
  status = working;
  is_connected = false;
  is_authenticated = true;
  expanded_keys = [];
  written = [];
}

abbrev key : Bytes
key = replicate 16 0xAB

split_run : split [] (codes "a,,b") ≡ codes "a" ∷ [] ∷ codes "b" ∷ []
unfolding split
split_run = refl

hex_text_run : hex_text (0x0F ∷ 0xA9 ∷ []) ≡ codes "0FA9"
unfolding hex_text
hex_text_run = refl

names-IsLogin : IsLogin (codes "7") (codes "me") [] key
unfolding all_bytes
names-IsLogin = record {
  id_plain = (omega arith, tt);
  id_bytes = all_bytes_sound (codes "7") refl;
  user_plain = (omega arith, (omega arith, tt));
  user_bytes = all_bytes_sound (codes "me") refl;
  password_plain = tt;
  password_bytes = tt;
  key_size = refl;
  key_bytes = all_bytes_sound key refl;
}

names_fit : length (login_text (codes "7") (codes "me") [] key) < 512
unfolding login_text hex_text
names_fit = omega arith

server_round-client_login_example :
    (login : Bytes) × (send_login (replicate 64 5) (codes "7") (codes "me") [] key ≡ some login)
    × (server_round
          (server_round (accepted fresh) (replicate 64 5) (some (codes "SOLARBOT")))
          []
          (some login)
        ≡ record {
          status = working;
          is_connected = true;
          is_authenticated = true;
          expanded_keys = set_key key;
          written = replicate 64 5 ∷ [];
        })
unfolding all_bytes
server_round-client_login_example =
    server_round-client_login fresh (replicate 64 5) [] (codes "7") (codes "me") [] key
      (all_bytes_sound (replicate 64 5) refl) names-IsLogin names_fit

-- The session that has offered its key, and the login that it gets.
abbrev offered : Session
offered = server_round (accepted fresh) (replicate 64 5) (some (codes "SOLARBOT"))

abbrev login : Bytes
login = client_login (replicate 64 5) (codes "7") (codes "me") [] key

login_authenticates : (server_round offered [] (some login)).is_authenticated ≡ true
unfolding server_round greet offer_key all_bytes accepted log_in split login_text hex_text
    authenticate_client
login_authenticates =
    ap (λ (f : List Bytes). (log_in offered f).is_authenticated)
      (split-client_login (replicate 64 5) (all_bytes_sound (replicate 64 5) refl) names-IsLogin
        names_fit)

server_round-IsAdmitted_example :
    (offered.status ≡ authenticating)
    × IsAdmitted
        (split [] (decrypt_in_place offered.expanded_keys (take server_rx_buffer_size login)))
unfolding server_round greet offer_key accepted
server_round-IsAdmitted_example = server_round-IsAdmitted offered [] login refl login_authenticates

abbrev output : Output
output = record {
  server_flag = false;
  server_tx = [];
  raw = replicate 90 0;
  client_tx = replicate 90 0;
  has_client = true;
  server_keys = replicate 176 1;
  client_keys = replicate 176 2;
  client_written = [];
}

transmit-decrypt_example :
    (decrypt
        (replicate 176 1)
        (take 80 (drop 4 (take 86 (transmit output 1 (replicate 80 9) 80).raw)))
        5
      ≡ replicate 80 9)
    × ((transmit output 1 (replicate 80 9) 80).server_flag ≡ true)
    × ((packet : Bytes) × ((transmit output 1 (replicate 80 9) 80).client_written ≡ packet ∷ [])
        × (decrypt (replicate 176 2) (take 80 (drop 4 packet)) 5 ≡ replicate 80 9))
unfolding all_bytes
transmit-decrypt_example =
    transmit-decrypt output (replicate 80 9) refl refl (all_bytes_sound (replicate 176 1) refl)
      (all_bytes_sound (replicate 176 2) refl) refl (all_bytes_sound (replicate 80 9) refl)
