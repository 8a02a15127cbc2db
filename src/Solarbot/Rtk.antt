-- ===== src/Solarbot/Rtk.antt =====
-- solarbot/Solarbot.cpp: ReadRTCMThread and SendAuthenticationToRTKServer, the corrections for the
-- receivers of positions. How the platform reads a byte as a `char` is the parameter `char`: some have
-- characters from -128 on, others from 0 on. The two printed coordinates are an input.
use solarbot_update.Base.{
  ℕ, zero, suc, ◌+◌, ◌-◌, ◌*◌, ◌/◌, ◌<◌, ◌≡◌, refl, ap, arith, Bool, false, ◌&&◌, Option, some,
  none, List, [], ◌∷◌, ◌++◌, Bytes, All, All-append, IsByte, length, get_or, replicate, codes, ltb,
  leb, ◌==◌, if◌then◌else◌, ℤ, pos, negsuc, neg, length-append, length-replicate, lt→ltb,
}
use solarbot_update.Text.{◌>>=◌, comma}
use solarbot_update.Serial.{read_into}
use solarbot_update.Aes128.{encrypt, decrypt, set_key}
use solarbot_update.Aes128.Key.{decrypt-encrypt-set_key}

pub record Identity : Type 0 where
  pub my_id : Bytes
  pub rtk_server_password : Bytes
  pub rtk_server_asking_base : Bytes
  -- Latitude and longitude with six decimals.
  pub latitude : Bytes
  pub longitude : Bytes

pub record Rtk : Type 0 where
  pub expanded_keys : Bytes
  pub tick_to_send_aloha : ℕ
  pub rx_buffer : Bytes
  -- What went to both receivers and to the server, the last first.
  pub to_gps : List Bytes
  pub to_server : List Bytes

unfoldable pub authentication_text : Identity → Bytes
authentication_text r =
    codes "ROV,"
    ++ (r.my_id
        ++ comma
          ∷ (r.rtk_server_password
              ++ comma ∷ (r.rtk_server_asking_base ++ comma ∷ (r.latitude ++ comma ∷ r.longitude))))

-- The number of blocks, and the text with zeros up to their end.
abbrev pub blocks : Bytes → ℕ
blocks text = 1 + length text / 16

abbrev pub pad_blocks : Bytes → Bytes
pad_blocks text = text ++ replicate (16 * blocks text - length text) 0

-- `none` when the text does not fit the 128 bytes that it is printed into, with the zero behind it.
unfoldable pub send_authentication : Identity → Rtk → Option Rtk
send_authentication r k =
    let text = authentication_text r in
    if ltb (length text) 128
    then some (record k {
      to_server = encrypt k.expanded_keys (pad_blocks text) (blocks text) ∷ k.to_server;
    })
    else none

-- `c / 4` is rounded towards 0.
abbrev quarter : ℤ → ℤ
quarter (pos n) = pos (n / 4)
quarter (negsuc n) = neg (suc n / 4)

-- The index sv + 4; `none` in front of the array.
abbrev index : ℤ → Option ℕ
index (pos n) = some (n + 4)
index (negsuc n) = if leb n 3 then some (3 - n) else none

module _ (char : ℕ → ℤ) where
  -- The loop that reads the bytes of the key.
  unfoldable pub extract_key : ℕ → ℤ → Bytes → Option Bytes
  extract_key zero sv buffer = some []
  extract_key (suc rounds) sv buffer = do
    i ← index sv
    rest ← extract_key rounds (quarter (char (get_or buffer i 0))) buffer
    some (get_or buffer i 0 ∷ rest)

  abbrev is_char : ℕ → ℤ → Bool
  is_char n (pos c) = c == n
  is_char n (negsuc c) = false

  -- A message of more than four bytes.
  unfoldable pub take_message : Identity → Bytes → Rtk → Option Rtk
  take_message r bytes k =
      let buffer = read_into k.rx_buffer bytes in
      if is_char 0xD3 (char (get_or buffer 0 0))
      then some (record k { rx_buffer = buffer; to_gps = bytes ∷ k.to_gps })
      else if is_char b'R' (char (get_or buffer 0 0))
          && (is_char b'O' (char (get_or buffer 1 0)) && is_char b'V' (char (get_or buffer 2 0)))
      then (do
        key ← extract_key 16 (pos 11) buffer
        send_authentication r (record k { rx_buffer = buffer; expanded_keys = set_key key }))
      else some (record k { rx_buffer = buffer })

  -- One round of the loop: a message, `[]` where `recvfrom` fails or times out.
  unfoldable pub rtk_round : Identity → Bytes → Rtk → Option Rtk
  rtk_round r bytes k =
      if ltb 4 (length bytes)
      then take_message r bytes k
      else if ltb 4 (k.tick_to_send_aloha + 1)
      then send_authentication r
          (record k { tick_to_send_aloha = 0; rx_buffer = read_into k.rx_buffer bytes })
      else some (record k {
        tick_to_send_aloha = k.tick_to_send_aloha + 1;
        rx_buffer = read_into k.rx_buffer bytes;
      })

get_or-IsByte : (xs : Bytes) (i : ℕ) → All IsByte xs → get_or xs i 0 < 256
get_or-IsByte [] i h = omega arith
get_or-IsByte (x ∷ xs) zero h = h.0
get_or-IsByte (x ∷ xs) (suc i) h = get_or-IsByte xs i h.1

length-pad_blocks : (text : Bytes) → length (pad_blocks text) ≡ 16 * blocks text
length-pad_blocks text = omega (
  arith,
  length-append text (replicate (16 * blocks text - length text) 0),
  length-replicate {A = ℕ} (16 * blocks text - length text) 0,
)

replicate-IsByte : (n : ℕ) → All IsByte (replicate n 0)
replicate-IsByte zero = tt
replicate-IsByte (suc n) = (omega arith, replicate-IsByte n)

module _ (char : ℕ → ℤ) (unsigned : (b : ℕ) → b < 256 → char b ≡ pos b) where
  extract_key_total :
      (rounds n : ℕ) (buffer : Bytes)
      → All IsByte buffer
      → (key : Bytes) × (extract_key char rounds (pos n) buffer ≡ some key)
        × (length key ≡ rounds)
        × All IsByte key
  unfolding extract_key
  extract_key_total zero n buffer h = ([], refl, refl, tt)
  extract_key_total (suc rounds) n buffer h =
      let b = get_or buffer (n + 4) 0 in
      let (key, e, size, bytes) = extract_key_total rounds (b / 4) buffer h in
      (
        b ∷ key,
        rw (unsigned b (get_or-IsByte buffer (n + 4) h)) (rw e refl),
        ap suc size,
        (get_or-IsByte buffer (n + 4) h, bytes),
      )

  -- Where characters have no sign, and the authentication fits the 128 bytes that it is printed into with
  -- the zero behind it: a message of at least five bytes that begins with ROV is answered at once. The 16
  -- bytes of the key are picked out of the receive buffer, in which a short message leaves the end of earlier
  -- ones. The answer is the authentication, and whoever has that key reads it back, with the zeros
  -- behind it; nothing goes to the receivers.
  pub rtk_round-request :
      (r : Identity) (a b : ℕ) (more : Bytes) (k : Rtk)
      → All IsByte (read_into k.rx_buffer (codes "ROV" ++ a ∷ b ∷ more))
      → All IsByte (authentication_text r)
      → length (authentication_text r) < 128
      → (key answer : Bytes) × (k' : Rtk) × (rtk_round char r (codes "ROV" ++ a ∷ b ∷ more) k
          ≡ some k')
        × (extract_key char 16 (pos 11) k'.rx_buffer ≡ some key)
        × (k'.expanded_keys ≡ set_key key)
        × (k'.to_server ≡ answer ∷ k.to_server)
        × (k'.to_gps ≡ k.to_gps)
        × (decrypt (set_key key) answer (blocks (authentication_text r))
            ≡ pad_blocks (authentication_text r))
  unfolding rtk_round take_message send_authentication
  rtk_round-request r a b more k h ht fits =
      let text = authentication_text r in
      let buffer = read_into k.rx_buffer (codes "ROV" ++ a ∷ b ∷ more) in
      let (key, e, size, bytes) = extract_key_total 16 11 buffer h in
      let padded =
        All-append IsByte text _ ht (replicate-IsByte (16 * blocks text - length text)) in
      (
        key,
        encrypt (set_key key) (pad_blocks text) (blocks text),
        record k {
          rx_buffer = buffer;
          expanded_keys = set_key key;
          to_server = encrypt (set_key key) (pad_blocks text) (blocks text) ∷ k.to_server;
        },
        rw (unsigned b'R' (omega arith)) (
            rw (unsigned b'O' (omega arith)) (
              rw (unsigned b'V' (omega arith)) (
                rw e (
                  rw (lt→ltb 4 (length (codes "ROV" ++ a ∷ b ∷ more)) (omega arith))
                    (rw (lt→ltb (length text) 128 fits) refl))))),
        e,
        refl,
        refl,
        refl,
        (decrypt-encrypt-set_key key (pad_blocks text) (blocks text) size bytes
            (length-pad_blocks text) padded).1,
      )
