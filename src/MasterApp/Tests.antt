-- ===== src/MasterApp/Tests.antt =====
-- Commands and answers on concrete values.
use solarbot_update.Base.{
  zero, suc, ℕ, ◌≡◌, refl, arith, true, false, some, List, [], ◌∷◌, ◌++◌, ◌≤◌, Bytes, All, IsByte,
  all_bytes, all_bytes_sound, length, replicate, length-replicate, foldl, codes, suc, none, ap, ◌<◌,
  take, ◌⊎◌,
}
use solarbot_update.Frame.{Frame, command, command_ack, ping, random_byte}
use solarbot_update.Frame.Decode.{Message, message, IsIdle}
use solarbot_update.Frame.Stream.{msg, Sent, send_all}
use solarbot_update.MasterApp.{Link, send_command_ack}
use solarbot_update.MasterApp.Commands.{
  mode_line, standby, Rover, tokens, execute_command, parse_raw_rx,
}
use solarbot_update.MasterApp.Answers.{
  needed, answer_message, parse_raw_rx-send_all, execute_command-acknowledges,
}
use solarbot_update.MasterApp.Modes.{
  Stays, IsSteady, moves, execute_setmode-mode, execute_command-IsSteady,
}
use solarbot_update.MasterApp.Sending.{IsReady, Sends, send-Sends}
use solarbot_update.MasterApp.Delivery.{Delivers, send_command_ack-Delivers}
use solarbot_update.MasterApp.Server.{
  Server, Credentials, IsTrusted, is_trusted, admit, serve_at, serve, serve-IsTrusted,
}
use solarbot_update.MasterApp.{read_key, pick_key}
use solarbot_update.Text.{hex_text}
use solarbot_update.Telemetry.{
  server_rx_buffer_size, authenticating, split, decrypt_in_place, client_login, login_text,
}
use solarbot_update.Telemetry.Handshake.{IsLogin, split-client_login}
use solarbot_update.Aes128.{set_key}

abbrev link : Link
link = record {
  expanded_keys = replicate 176 1;
  tx_buffer = replicate 528 0;
  sent = [];
  rand = λ n. 0x7E ∷ 9 ∷ [];
}

replicate-All : (n b : ℕ) → b ≤ 255 → All IsByte (replicate n b)
replicate-All zero b h = tt
replicate-All (suc n) b h = (omega arith, replicate-All n b h)

link-IsReady : IsReady link
link-IsReady = record {
  buffer_size = length-replicate {A = ℕ} 528 0;
  bytes = replicate-All 528 0 (omega arith);
  keys = replicate-All 176 1 (omega arith);
}

abbrev idle : Frame
idle = record {
  rx_frame_type = 0;
  rx_frame_id = 0;
  rx_payload_length = 0;
  frame_buffer = replicate 1024 0;
  frame_buffer_index = 0;
  escaping = false;
  decoding = false;
}

idle-IsIdle : IsIdle idle
idle-IsIdle = record {
  not_decoding = refl;
  not_escaping = refl;
  buffer_size = length-replicate {A = ℕ} 1024 0;
}

abbrev rover : Rover
rover = record {
  mode = standby;
  navigating = false;
  start_waypoint_index = some 3;
  waypoint_count = 2;
  gps_resets = 0;
  gps2_resets = 0;
  power_written = [];
  outcomes = λ n. record {
    location_good = true;
    planner_started = true;
    loaded = true;
    loaded_count = 4;
    visual_ready = false;
    line_ready = true;
  };
  lost = false;
  link = link;
}

tokens_run : tokens [] (codes "SETMODE  waypoints ") ≡ codes "SETMODE" ∷ codes "waypoints" ∷ []
unfolding tokens
tokens_run = refl

abbrev sent_frames : List Sent
sent_frames =
    record { rnd_byte = 4; sent = msg command 1 (codes "SETMODE line") }
    ∷ record { rnd_byte = 0x7D; sent = msg ping 2 [] }
    ∷ []

parse_raw_rx-send_all_example :
    (parse_raw_rx rover idle (send_all sent_frames)).0
    ≡ foldl answer_message rover (msg command 1 (codes "SETMODE line") ∷ msg ping 2 [] ∷ [])
parse_raw_rx-send_all_example =
    parse_raw_rx-send_all sent_frames rover idle-IsIdle
      ((omega arith, omega arith), ((omega arith, omega arith), tt))

power_words : tokens [] (codes "POWER 1") ≡ codes "POWER" ∷ codes "1" ∷ []
unfolding tokens
power_words = refl

power_needs : needed (tokens [] (codes "POWER 1")) ≤ length (tokens [] (codes "POWER 1"))
unfolding tokens
power_needs = omega arith

execute_command-acknowledges_example :
    (msg : Bytes) × (length msg ≤ 64)
    × ((execute_command rover (codes "POWER 1") 7).link ≡ send_command_ack link 7 msg)
    × ((execute_command rover (codes "POWER 1") 7).lost ≡ false)
execute_command-acknowledges_example =
    execute_command-acknowledges rover (codes "POWER 1") 7 power_needs refl

-- A command without its second word ends the handling.
one_word_run : (execute_command rover (codes "RESET") 7).lost ≡ true
unfolding execute_command
one_word_run = refl

execute_setmode-mode_example :
    ((execute_command rover (codes "SETMODE line") 5).mode ≡ mode_line)
    × ((execute_command rover (codes "SETMODE line") 5).navigating
        ≡ moves (execute_command rover (codes "SETMODE line") 5).mode)
    × ((execute_command rover (codes "SETMODE line") 5).lost ≡ false)
execute_setmode-mode_example =
    execute_setmode-mode rover (codes "line") mode_line 5 (omega arith)
      (refl, (refl, (refl, (refl, tt)))) refl

execute_command-IsSteady_example :
    IsSteady (execute_command rover (codes "SETMODE waypoints") 5)
    ⊎ Stays rover (execute_command rover (codes "SETMODE waypoints") 5)
execute_command-IsSteady_example = execute_command-IsSteady rover (codes "SETMODE waypoints") 5

send-Sends_example : Sends link 40
send-Sends_example = send-Sends link 40 link-IsReady (omega arith)

collect : List Message → Frame → List Message × Frame
collect ms d = (ms ++ message d ∷ [], d)

send_command_ack-Delivers_example :
    Delivers collect [] idle link
      (send_command_ack link 5 (codes "OK"))
      (msg command_ack 5 (codes "OK"))
unfolding random_byte all_bytes
send_command_ack-Delivers_example =
    send_command_ack-Delivers collect [] idle link 9 5 (codes "OK") idle-IsIdle link-IsReady refl
      (omega arith) (omega arith) (all_bytes_sound (codes "OK") refl)

abbrev client_key : Bytes
client_key = replicate 16 0xAB

client-IsLogin : IsLogin (codes "7") (codes "me") [] client_key
unfolding all_bytes
client-IsLogin = record {
  id_plain = (omega arith, tt);
  id_bytes = all_bytes_sound (codes "7") refl;
  user_plain = (omega arith, (omega arith, tt));
  user_bytes = all_bytes_sound (codes "me") refl;
  password_plain = tt;
  password_bytes = tt;
  key_size = refl;
  key_bytes = all_bytes_sound client_key refl;
}

abbrev own : Credentials
own = record {
  cmd_version = codes "SolarBot";
  my_id = codes "7";
  cmd_user = codes "me";
  cmd_password = [];
}

-- The server that has offered a key made of the byte 5.
abbrev waiting : Server
waiting = record {
  status = authenticating;
  is_connected = true;
  is_authenticated = false;
  server_keys = set_key (pick_key 16 11 (replicate 64 5));
  client_keys = none;
  written = replicate 64 5 ∷ [];
}

abbrev coded_login : Bytes
coded_login = client_login (replicate 64 5) (codes "7") (codes "me") [] client_key

client_fits : length (login_text (codes "7") (codes "me") [] client_key) < 512
unfolding login_text hex_text
client_fits = omega arith

serve-IsTrusted_example :
    (authenticating ≡ authenticating)
    × IsTrusted own
        (split [] (decrypt_in_place waiting.server_keys (take server_rx_buffer_size coded_login)))
        (set_key (read_key 16 0 (hex_text client_key)))
unfolding serve serve_at admit is_trusted all_bytes split login_text hex_text
serve-IsTrusted_example =
    serve-IsTrusted own waiting [] coded_login (set_key (read_key 16 0 (hex_text client_key))) refl
      (ap (λ (f : List Bytes). (admit own waiting f).client_keys)
        (split-client_login (replicate 64 5) (all_bytes_sound (replicate 64 5) refl) client-IsLogin
          client_fits))
