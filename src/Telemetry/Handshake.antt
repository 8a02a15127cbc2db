-- ===== src/Telemetry/Handshake.antt =====
-- The handshake from both sides.
use solarbot_update.Base.{
  ◌+◌, ℕ, zero, suc, ◌-◌, ◌*◌, ◌/◌, ◌%◌, ◌≤◌, ◌<◌, ◌≡◌, refl, ap, ap₂, ◌∙◌, arith, true, some, List,
  [], ◌∷◌, ◌++◌, Bytes, All, All-append, IsByte, length, get_or, drop, replicate, length-append,
  length-replicate, append_assoc, append-nil, ltb, ◌==◌, codes, all_bytes, all_bytes_sound, take,
  lt→ltb,
}
use solarbot_update.Aes128.{set_key, encrypt, decrypt}
use solarbot_update.Aes128.State.{get_or-lt}
use solarbot_update.Aes128.Block.{decrypt-encrypt, encrypt-IsBlocks}
use solarbot_update.Aes128.Key.{set_key_lem}
use solarbot_update.MasterApp.{pick_key}
use solarbot_update.Text.{comma, hex_text}
use solarbot_update.Telemetry.{
  send_login, server_rx_buffer_size, working, Session, accepted, offer_key, split, decrypt_in_place,
  log_in, greet, server_round, login_text, pad_text, client_login, authenticate_client,
}
use solarbot_update.Telemetry.Fields.{
  IsPlain, split-append, length-split, length-hex_text, read_key-hex_text, hex_text-IsPlain,
  hex_text-All,
}

pick_key-IsKey :
    (rounds sv : ℕ) (server_key : Bytes)
    → All IsByte server_key
    → (length (pick_key rounds sv server_key) ≡ rounds) × All IsByte (pick_key rounds sv server_key)
unfolding pick_key
pick_key-IsKey zero sv server_key h = (refl, tt)
pick_key-IsKey (suc rounds) sv server_key h =
    let rest = pick_key-IsKey rounds (get_or server_key sv 0 / 4) server_key h in
    (omega (arith, rest.0), (get_or-lt server_key sv h, rest.1))

drop_whole : (n : ℕ) (xs : Bytes) → length xs ≤ n → drop n xs ≡ []
drop_whole zero [] h = refl
drop_whole zero (x ∷ xs) h = absurd (omega arith)
drop_whole (suc n) [] h = refl
drop_whole (suc n) (x ∷ xs) h = drop_whole n xs (omega arith)

-- Whole blocks come back as they were.
decrypt_in_place-encrypt :
    (keys text : Bytes) (blocks : ℕ)
    → All IsByte keys
    → length text ≡ 16 * blocks
    → All IsByte text
    → decrypt_in_place keys (encrypt keys text blocks) ≡ text
unfolding decrypt_in_place
decrypt_in_place-encrypt keys text blocks hk h ht =
    let coded = encrypt-IsBlocks keys hk blocks text h ht in
    ap₂ (λ (n : ℕ) (rest : Bytes). decrypt keys (encrypt keys text blocks) n ++ rest) {y = blocks}
      (omega (arith, coded.0))
      (drop_whole (16 * (length (encrypt keys text blocks) / 16)) (encrypt keys text blocks)
        (omega (arith, coded.0)))
    ∙ append-nil (decrypt keys (encrypt keys text blocks) blocks)
    ∙ decrypt-encrypt keys hk blocks text h ht

replicate-All : (n : ℕ) → All IsByte (replicate n 0)
replicate-All zero = tt
replicate-All (suc n) = (omega arith, replicate-All n)

pad_text-All : (text : Bytes) → All IsByte text → All IsByte (pad_text text)
unfolding pad_text
pad_text-All text h =
    All-append IsByte text (replicate ((16 - length text % 16) % 16) 0) h
      (replicate-All ((16 - length text % 16) % 16))

length-pad_text : (text : Bytes) → length (pad_text text) ≡ 16 * (length (pad_text text) / 16)
unfolding pad_text
length-pad_text text = omega (
  arith,
  length-append text (replicate ((16 - length text % 16) % 16) 0),
  length-replicate {A = ℕ} ((16 - length text % 16) % 16) 0,
)

pad_text_bound : (text : Bytes) → length (pad_text text) ≤ 16 * ((length text + 15) / 16)
unfolding pad_text
pad_text_bound text = omega (
  arith,
  length-append text (replicate ((16 - length text % 16) % 16) 0),
  length-replicate {A = ℕ} ((16 - length text % 16) % 16) 0,
)

-- What the parts of a login must be: bytes, and names without commas.
pub record IsLogin (id user password key : Bytes) : Type 0 where
  pub id_plain : IsPlain id
  pub id_bytes : All IsByte id
  pub user_plain : IsPlain user
  pub user_bytes : All IsByte user
  pub password_plain : IsPlain password
  pub password_bytes : All IsByte password
  pub key_size : length key ≡ 16
  pub key_bytes : All IsByte key

module _ {id user password key : Bytes} (l : IsLogin id user password key) where
  login_text-All : All IsByte (login_text id user password key)
  unfolding login_text all_bytes
  login_text-All =
      All-append IsByte (codes "SolarBot")
        (comma
          ∷ (id
              ++ comma
                ∷ (user ++ comma ∷ (password ++ comma ∷ (hex_text key ++ comma ∷ codes "END")))))
        (all_bytes_sound (codes "SolarBot") refl)
        (
          omega arith,
          All-append IsByte id
              (comma
                ∷ (user ++ comma ∷ (password ++ comma ∷ (hex_text key ++ comma ∷ codes "END"))))
              l.id_bytes
              (
                omega arith,
                All-append IsByte user
                    (comma ∷ (password ++ comma ∷ (hex_text key ++ comma ∷ codes "END")))
                    l.user_bytes
                    (
                      omega arith,
                      All-append IsByte password (comma ∷ (hex_text key ++ comma ∷ codes "END"))
                          l.password_bytes
                          (
                            omega arith,
                            All-append IsByte (hex_text key) (comma ∷ codes "END")
                                (hex_text-All key l.key_bytes)
                                (all_bytes_sound (comma ∷ codes "END") refl),
                          ),
                    ),
              ),
        )

  -- The server splits the login into the five parts, and what is behind the last of them.
  split-login_text :
      (rest : Bytes)
      → split [] (login_text id user password key ++ rest)
        ≡ codes "SolarBot" ∷ id ∷ user ∷ password ∷ hex_text key ∷ split [] (codes "END" ++ rest)
  unfolding login_text
  split-login_text rest =
      ap (split []) regroup
      ∙ split-append [] (codes "SolarBot") _ solarbot_plain
      ∙ ap (λ (t : List Bytes). codes "SolarBot" ∷ t)
          (split-append [] id _ l.id_plain
            ∙ ap (λ (t : List Bytes). id ∷ t)
                (split-append [] user _ l.user_plain
                  ∙ ap (λ (t : List Bytes). user ∷ t)
                      (split-append [] password _ l.password_plain
                        ∙ ap (λ (t : List Bytes). password ∷ t)
                            (split-append [] (hex_text key) _ (hex_text-IsPlain key l.key_bytes)))))
    where
      regroup :
          login_text id user password key ++ rest
          ≡ codes "SolarBot"
            ++ comma
              ∷ (id
                  ++ comma
                    ∷ (user
                        ++ comma
                          ∷ (password ++ comma ∷ (hex_text key ++ comma ∷ (codes "END" ++ rest)))))
      regroup = simp append_assoc

      solarbot_plain : IsPlain (codes "SolarBot")
      solarbot_plain = (
        omega arith,
        (
          omega arith,
          (
            omega arith,
            (omega arith, (omega arith, (omega arith, (omega arith, (omega arith, tt))))),
          ),
        ),
      )

  log_in-login_text :
      (s : Session) (rest : Bytes)
      → log_in s (split [] (login_text id user password key ++ rest))
        ≡ record s { expanded_keys = set_key key; status = working; is_authenticated = true }
  unfolding log_in authenticate_client
  log_in-login_text s rest =
      let long = length-split [] (codes "END" ++ rest) in
      let digits = length-hex_text key in
      ap (log_in s) (split-login_text rest)
      ∙ rw (enough (split [] (codes "END" ++ rest)) long) (
          rw (size (hex_text key) digits) (
            ap
              (λ (k : Bytes). record s {
                expanded_keys = set_key k;
                status = working;
                is_authenticated = true;
              })
              (read_key-hex_text key l.key_size l.key_bytes)))
    where
      enough :
          (more : List Bytes)
          → 0 < length more
          → ltb 5 (length (codes "SolarBot" ∷ id ∷ user ∷ password ∷ hex_text key ∷ more)) ≡ true
      enough more h = ground arith

      size : (digits : Bytes) → length digits ≡ 2 * length key → (length digits == 32) ≡ true
      size digits h = ground (arith, l.key_size)

take_short : (n : ℕ) (xs : Bytes) → length xs ≤ n → take n xs ≡ xs
take_short zero [] h = refl
take_short (suc n) [] h = refl
take_short zero (x ∷ xs) h = absurd (omega arith)
take_short (suc n) (x ∷ xs) h = ap (λ (l : Bytes). x ∷ l) (take_short n xs (omega arith))

-- A login whose text is below 512 bytes arrives whole, and the server reads its text.
received_login :
    {id user password key : Bytes} (server_key : Bytes)
    → All IsByte server_key
    → IsLogin id user password key
    → length (login_text id user password key) < 512
    → decrypt_in_place
        (set_key (pick_key 16 11 server_key))
        (take server_rx_buffer_size (client_login server_key id user password key))
      ≡ pad_text (login_text id user password key)
unfolding client_login
received_login {id} {user} {password} {key} server_key h l fits =
    let picked = pick_key-IsKey 16 11 server_key h in
    let keys = set_key (pick_key 16 11 server_key) in
    let text = pad_text (login_text id user password key) in
    let blocks = length text / 16 in
    let bytes = (set_key_lem (pick_key 16 11 server_key) picked.0 picked.1).1 in
    let plain = pad_text-All (login_text id user password key) (login_text-All l) in
    let whole = length-pad_text (login_text id user password key) in
    let coded = encrypt-IsBlocks keys bytes blocks text whole plain in
    ap (decrypt_in_place keys) (
      take_short server_rx_buffer_size (encrypt keys text blocks)
        (omega (arith, coded.0, whole, pad_text_bound (login_text id user password key))))
    ∙ decrypt_in_place-encrypt keys text blocks bytes whole plain

-- The fields that the server reads out of a client's login.
pub split-client_login :
    {id user password key : Bytes} (server_key : Bytes)
    → All IsByte server_key
    → IsLogin id user password key
    → length (login_text id user password key) < 512
    → split [] (
        decrypt_in_place
          (set_key (pick_key 16 11 server_key))
          (take server_rx_buffer_size (client_login server_key id user password key)))
      ≡ codes "SolarBot"
        ∷ id
        ∷ user
        ∷ password
        ∷ hex_text key
        ∷ split []
            (codes "END" ++ replicate ((16 - length (login_text id user password key) % 16) % 16) 0)
unfolding pad_text
split-client_login {id} {user} {password} {key} server_key h l fits =
    ap (split []) (received_login server_key h l fits)
    ∙ split-login_text l (replicate ((16 - length (login_text id user password key) % 16) % 16) 0)

-- A client that follows the protocol is let in: after `SOLARBOT` the server offers 64 bytes, and the
-- login that the client makes of them leaves the session working and authenticated under exactly the
-- key that the client has drawn, whatever the names, without commas, are, as long as the text of the login
-- is below 512 bytes.
pub server_round-client_login :
    (s : Session) (server_key more id user password key : Bytes)
    → All IsByte server_key
    → IsLogin id user password key
    → length (login_text id user password key) < 512
    → (login : Bytes) × (send_login server_key id user password key ≡ some login)
      × (server_round
            (server_round (accepted s) server_key (some (codes "SOLARBOT")))
            more
            (some login)
          ≡ record s {
            status = working;
            is_connected = true;
            is_authenticated = true;
            expanded_keys = set_key key;
            written = s.written ++ server_key ∷ [];
          })
unfolding server_round greet accepted offer_key pad_text send_login
server_round-client_login s server_key more id user password key h l fits =
    let text = login_text id user password key in
    let offered = offer_key (accepted s) server_key in
    (
      client_login server_key id user password key,
      rw (lt→ltb (length text) 512 fits) refl,
      ap (λ (t : Bytes). log_in offered (split [] t)) (received_login server_key h l fits)
          ∙ log_in-login_text l offered (replicate ((16 - length text % 16) % 16) 0),
    )
