-- ===== src/Telemetry/Frames.antt =====
-- Telemetry.cpp: `SendFrame`, to the telemetry server and to the client.
use solarbot_update.Base.{
  ℕ, ◌+◌, ◌/◌, ◌%◌, ◌≡◌, refl, ap, ◌∙◌, arith, Bool, true, false, not, List, [], ◌∷◌, ◌++◌, Bytes,
  All, IsByte, length, set, take, drop, take-take, take-set_above, take-append_of_length, ◌==◌,
  if◌then◌else◌,
}
use solarbot_update.Aes128.{encrypt, decrypt}
use solarbot_update.Aes128.Block.{decrypt-encrypt, encrypt-IsBlocks}

-- What `SendFrame` works on: the flag that keeps it off the buffer of the server's thread, that buffer
-- and the raw one, the client's buffer, whether a client is connected and authenticated, the key
-- schedules of both, and what has been written to the client.
pub record Output : Type 0 where
  pub server_flag : Bool
  pub server_tx : Bytes
  pub raw : Bytes
  pub client_tx : Bytes
  pub has_client : Bool
  pub server_keys : Bytes
  pub client_keys : Bytes
  pub client_written : List Bytes

-- The header, the five encrypted blocks and the two bytes of the CRC, 0x0273, written to a buffer.
unfoldable pub write_output : Bytes → ℕ → Bytes → ℕ → Bytes → Bytes
write_output keys frame_type bytes len buffer =
    set
      (set (0x7E ∷ len % 256 ∷ len / 256 ∷ frame_type ∷ (encrypt keys bytes 5 ++ drop 84 buffer))
        (4 + len) 0x73)
      (5 + len) 0x02

unfoldable pub to_server : Output → ℕ → Bytes → ℕ → Output
unfolding write_output
to_server o frame_type bytes len =
    if not o.server_flag
    then (let raw = write_output o.server_keys frame_type bytes len o.raw in
        record o {
          raw = raw;
          server_tx = take (len + 6) raw ++ drop (len + 6) o.server_tx;
          server_flag = true;
        })
    else o

unfoldable pub to_client : Output → ℕ → Bytes → ℕ → Output
unfolding write_output
to_client o frame_type bytes len =
    if o.has_client
    then (let buffer = write_output o.client_keys frame_type bytes len o.client_tx in
        record o {
          client_tx = buffer;
          client_written = o.client_written ++ take (len + 6) buffer ∷ [];
        })
    else o

-- `SendFrame`: only frames of the type 1 are sent.
unfoldable pub transmit : Output → ℕ → Bytes → ℕ → Output
unfolding to_server to_client
transmit o frame_type bytes len =
    if frame_type == 0x01
    then to_client (to_server o frame_type bytes len) frame_type bytes len
    else o

-- The blocks in a frame decrypt to the bytes.
written_blocks :
    (keys : Bytes) (bytes buffer : Bytes)
    → All IsByte keys
    → length bytes ≡ 80
    → All IsByte bytes
    → decrypt keys (take 80 (drop 4 (take 86 (write_output keys 1 bytes 80 buffer)))) 5 ≡ bytes
unfolding write_output
written_blocks keys bytes buffer hk h hb =
    let coded = encrypt keys bytes 5 in
    let body = coded ++ drop 84 buffer in
    ap (λ (t : Bytes). decrypt keys t 5)
      (take-take 80 82 (set (set body 80 0x73) 81 0x02) (omega arith)
        ∙ take-set_above 80 (set body 80 0x73) 81 0x02 (omega arith)
        ∙ take-set_above 80 body 80 0x73 (omega arith)
        ∙ take-append_of_length 80 coded (drop 84 buffer) (encrypt-IsBlocks keys hk 5 bytes h hb).0)
    ∙ decrypt-encrypt keys hk 5 bytes h hb

-- When the buffer of the server's thread is free and there is a client, a frame of the type 1 with 80
-- bytes takes that buffer's flag and is written to the client once; in the raw buffer and in the
-- client's packet, the five blocks behind the header of 4 bytes decrypt under the receiver's key to
-- exactly these bytes. The keys and the 80 are bytes.
pub transmit-decrypt :
    (o : Output) (bytes : Bytes)
    → o.server_flag ≡ false
    → o.has_client ≡ true
    → All IsByte o.server_keys
    → All IsByte o.client_keys
    → length bytes ≡ 80
    → All IsByte bytes
    → (decrypt o.server_keys (take 80 (drop 4 (take 86 (transmit o 1 bytes 80).raw))) 5 ≡ bytes)
      × ((transmit o 1 bytes 80).server_flag ≡ true)
      × ((packet : Bytes) × ((transmit o 1 bytes 80).client_written
            ≡ o.client_written ++ packet ∷ [])
          × (decrypt o.client_keys (take 80 (drop 4 packet)) 5 ≡ bytes))
unfolding transmit to_server to_client
transmit-decrypt o bytes free client ks kc h hb = rw free (
    rw client (
      written_blocks o.server_keys bytes o.raw ks h hb,
      refl,
      (
        take 86 (write_output o.client_keys 1 bytes 80 o.client_tx),
        refl,
        written_blocks o.client_keys bytes o.client_tx kc h hb,
      ),
    ))
