-- ===== src/MasterApp/Server.antt =====
-- MasterApp.cpp: the rounds of `ThreadServer` for one client, up to the start of its thread. The fields
-- of a login and the decryption in place are the same code as in Telemetry.cpp.
use solarbot_update.Base.{
  ◌<◌, ◌≡◌, refl, arith, Bool, true, false, ◌&&◌, Option, none, some, List, [], ◌∷◌, ◌++◌, Bytes,
  length, ltb, ◌==◌, if◌then◌else◌, Bool-cases, inl, inr, codes, same, take, same_sound,
}
use solarbot_update.Aes128.{set_key}
use solarbot_update.MasterApp.{read_key, pick_key}
use solarbot_update.Telemetry.{
  Status, starting, authenticating, working, split, decrypt_in_place, at, server_rx_buffer_size,
}

-- What `ThreadServer` keeps for a client: `ClientStatus`, `IsConnected`, `client_is_authenticated`,
-- the key schedule of `AES_Server`, that of `AES_Client` once a client thread has been started, and
-- what has been written to the socket.
pub record Server : Type 0 where
  pub status : Status
  pub is_connected : Bool
  pub is_authenticated : Bool
  pub server_keys : Bytes
  pub client_keys : Option Bytes
  pub written : List Bytes

-- `CMD_version`, `MyID`, `CMD_user` and `CMD_password` of the rover.
pub record Credentials : Type 0 where
  pub cmd_version : Bytes
  pub my_id : Bytes
  pub cmd_user : Bytes
  pub cmd_password : Bytes

-- `AuthenticateClient`
unfoldable pub is_trusted : Credentials → Bytes → Bytes → Bytes → Bytes → Bool
is_trusted c version frota user password =
    same version c.cmd_version
    && (same frota c.my_id && (same user c.cmd_user && same password c.cmd_password))

-- The login: with more than five fields, a key of 32 characters and the rover's credentials, the client
-- gets its thread, under its key; otherwise it is dropped.
unfoldable pub admit : Credentials → Server → List Bytes → Server
unfolding is_trusted
admit c s fields =
    if ltb 5 (length fields) && (length (at fields 4) == 32)
    then (if is_trusted c (at fields 0) (at fields 1) (at fields 2) (at fields 3)
        then record s {
          status = working;
          is_authenticated = true;
          client_keys = some (set_key (read_key 16 0 (at fields 4)));
        }
        else record s { is_connected = false })
    else record s { is_connected = false }

-- The first word: `GenerateServerKey` with the 64 random bytes, which are sent.
unfoldable pub welcome : Server → Bytes → Bytes → Server
welcome s server_key word =
    if same word (codes "SOLARBOT")
    then record s {
      is_authenticated = false;
      server_keys = set_key (pick_key 16 11 server_key);
      written = s.written ++ server_key ∷ [];
      status = authenticating;
    }
    else record s { is_authenticated = false; is_connected = false }

-- One round at a status, with the random bytes that `rand` gives in it and what waits for `read`;
-- `none` is a failed read, after which the exception of the string's constructor drops the client.
unfoldable pub serve_at : Status → Credentials → Server → Bytes → Option Bytes → Server
unfolding admit welcome
serve_at starting c s server_key none = record s { is_authenticated = false; is_connected = false }
serve_at starting c s server_key (some word) = welcome s server_key word
serve_at authenticating c s server_key none = record s { is_connected = false }
serve_at authenticating c s server_key (some coded) =
    admit c s (split [] (decrypt_in_place s.server_keys (take server_rx_buffer_size coded)))
serve_at working c s server_key input = s

unfoldable pub serve : Credentials → Server → Bytes → Option Bytes → Server
unfolding serve_at
serve c s server_key input = serve_at s.status c s server_key input

-- The fields of a login with the rover's credentials, and the key schedule of the key in them.
pub record IsTrusted (c : Credentials) (fields : List Bytes) (keys : Bytes) : Type 0 where
  pub enough : 5 < length fields
  pub key_size : length (at fields 4) ≡ 32
  pub version : at fields 0 ≡ c.cmd_version
  pub frota : at fields 1 ≡ c.my_id
  pub user : at fields 2 ≡ c.cmd_user
  pub password : at fields 3 ≡ c.cmd_password
  pub key : set_key (read_key 16 0 (at fields 4)) ≡ keys

admit-IsTrusted :
    (c : Credentials) (s : Server) (fields : List Bytes) (keys : Bytes)
    → s.client_keys ≡ none
    → (admit c s fields).client_keys ≡ some keys
    → IsTrusted c fields keys
unfolding admit is_trusted
admit-IsTrusted c s fields keys old new =
    elim (Bool-cases (ltb 5 (length fields) && (length (at fields 4) == 32))) [
      | inl e ↦
          elim (Bool-cases (is_trusted c (at fields 0) (at fields 1) (at fields 2) (at fields 3))) [
            | inl f ↦ record {
              enough = ground arith;
              key_size = ground arith;
              version = same_sound (at fields 0) c.cmd_version (ground (arith, f));
              frota = same_sound (at fields 1) c.my_id (ground (arith, f));
              user = same_sound (at fields 2) c.cmd_user (ground (arith, f));
              password = same_sound (at fields 3) c.cmd_password (ground (arith, f));
              key = ground arith;
            }
            | inr f ↦ absurd (ground arith)
          ]
      | inr e ↦ absurd (ground arith)
    ]

welcome-client_keys :
    (s : Server) (server_key word : Bytes) → (welcome s server_key word).client_keys ≡ s.client_keys
unfolding welcome
welcome-client_keys s server_key word = elim (Bool-cases (same word (codes "SOLARBOT"))) [
  | inl e ↦ rw e refl
  | inr e ↦ rw e refl
]

-- A client gets its thread only while the server waits for the login, by bytes of which the first 512,
-- all that is read, decrypt under the server's key to more than five fields: the first is the version of
-- the commands, the second the rover's name, the third and the fourth its user and password, and the fifth
-- has 32 characters; the thread works under the key that these are read as.
pub serve-IsTrusted :
    (c : Credentials) (s : Server) (server_key coded keys : Bytes)
    → s.client_keys ≡ none
    → (serve c s server_key (some coded)).client_keys ≡ some keys
    → (s.status ≡ authenticating)
      × IsTrusted c
          (split [] (decrypt_in_place s.server_keys (take server_rx_buffer_size coded)))
          keys
unfolding serve serve_at
serve-IsTrusted c s server_key coded keys old new = by_status s.status refl new
  where
    by_status :
        (st : Status)
        → s.status ≡ st
        → (serve_at st c s server_key (some coded)).client_keys ≡ some keys
        → (s.status ≡ authenticating)
          × IsTrusted c
              (split [] (decrypt_in_place s.server_keys (take server_rx_buffer_size coded)))
              keys
    by_status starting e now =
        absurd (ground (arith, now, old, welcome-client_keys s server_key coded))
    by_status authenticating e now = (
      e,
      admit-IsTrusted c s
          (split [] (decrypt_in_place s.server_keys (take server_rx_buffer_size coded))) keys old
          now,
    )
    by_status working e now = absurd (ground (arith, now, old))
