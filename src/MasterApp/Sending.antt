-- ===== src/MasterApp/Sending.antt =====
-- `Send` of MasterApp.cpp: what goes to the socket, and that it stays inside the buffer.
use solarbot_update.Base.{
  ℕ, zero, suc, ◌+◌, ◌-◌, ◌*◌, ◌/◌, ◌≤◌, ◌<◌, ◌≡◌, refl, sym, ap, ap₂, ◌∙◌, arith, [], ◌∷◌, ◌++◌,
  Bytes, All, All-append, IsByte, length, take, drop, length-take, length-drop, length-append,
  drop-take, take-take,
}
use solarbot_update.Aes128.{encrypt_block, encrypt, decrypt}
use solarbot_update.Aes128.Block.{encrypt-IsBlocks, All-take, All-drop, decrypt-encrypt}
use solarbot_update.MasterApp.{Link, pad, send}

-- The buffer has its 528 bytes, and buffer and keys hold bytes.
pub record IsReady (l : Link) : Type 0 where
  pub buffer_size : length l.tx_buffer ≡ 528
  pub bytes : All IsByte l.tx_buffer
  pub keys : All IsByte l.expanded_keys

-- Encryption reads no further than its blocks.
encrypt-take :
    (keys : Bytes) (blocks : ℕ) (message : Bytes)
    → encrypt keys message blocks ≡ encrypt keys (take (16 * blocks) message) blocks
unfolding encrypt
encrypt-take keys zero message = refl
encrypt-take keys (suc blocks) message =
    ap₂ (λ (x y : Bytes). encrypt_block keys x ++ y)
      (sym (take-take 16 (16 * suc blocks) message (omega arith)))
      (encrypt-take keys blocks (drop 16 message)
        ∙ ap (λ (t : Bytes). encrypt keys t blocks)
            (sym (drop-take 16 (16 * blocks) message)
              ∙ ap (λ (k : ℕ). drop 16 (take k message)) (omega arith)))

-- One packet, and what is in it.
pub record Sends (l : Link) (len : ℕ) : Type 0 where
  pub packet : Bytes
  pub sent : (send l len).sent ≡ l.sent ++ packet ∷ []
  pub packet_size : length packet ≡ 16 * (1 + len / 16)
  pub in_buffer : length packet ≤ 528
  pub covers : len < length packet
  pub clear_text :
      decrypt l.expanded_keys packet (1 + len / 16) ≡ take (16 * (1 + len / 16)) l.tx_buffer
  pub ready : IsReady (send l len)

-- The padding loop never runs.
pad_nothing : (len : ℕ) (buffer : Bytes) → pad (16 * (1 + len / 16 - 1) - len) len buffer ≡ buffer
unfolding pad
pad_nothing len buffer = ap (λ (k : ℕ). pad k len buffer) none_left
  where
    none_left : 16 * (1 + len / 16 - 1) - len ≡ 0
    none_left = omega arith

send_blocks :
    (l : Link) (len : ℕ)
    → send l len ≡ record l {
      tx_buffer =
          encrypt l.expanded_keys l.tx_buffer (1 + len / 16)
          ++ drop (16 * (1 + len / 16)) l.tx_buffer;
      sent = l.sent ++ encrypt l.expanded_keys l.tx_buffer (1 + len / 16) ∷ [];
    }
unfolding send
send_blocks l len =
    ap
      (λ (b : Bytes). record l {
        tx_buffer = encrypt l.expanded_keys b (1 + len / 16) ++ drop (16 * (1 + len / 16)) b;
        sent = l.sent ++ encrypt l.expanded_keys b (1 + len / 16) ∷ [];
      })
      (pad_nothing len l.tx_buffer)

length-plain :
    (l : Link) (len : ℕ)
    → IsReady l
    → len ≤ 512
    → length (take (16 * (1 + len / 16)) l.tx_buffer) ≡ 16 * (1 + len / 16)
length-plain l len v h = omega (arith, length-take (16 * (1 + len / 16)) l.tx_buffer, v.buffer_size)

-- `Send`, of at most 512 bytes of its buffer of 528, sends one packet: the fewest whole blocks that
-- hold more than these bytes. The packet lies inside the buffer, `Decrypt` under the same key gives
-- back the buffer's bytes, and the buffer keeps its size. In particular nothing is padded with zeros.
pub send-Sends : (l : Link) (len : ℕ) → IsReady l → len ≤ 512 → Sends l len
send-Sends l len v h =
    let blocks = 1 + len / 16 in
    let plain = take (16 * blocks) l.tx_buffer in
    let coded = encrypt l.expanded_keys l.tx_buffer blocks in
    let same_coded = encrypt-take l.expanded_keys blocks l.tx_buffer in
    let plain_size = length-plain l len v h in
    let sizes =
      encrypt-IsBlocks l.expanded_keys v.keys blocks plain plain_size
        (All-take (16 * blocks) l.tx_buffer v.bytes) in
    let coded_size = ap length same_coded ∙ sizes.0 in
    record {
      packet = coded;
      sent = ap (λ (t : Link). t.sent) (send_blocks l len);
      packet_size = coded_size;
      in_buffer = omega (arith, coded_size);
      covers = omega (arith, coded_size);
      clear_text =
          ap (λ (t : Bytes). decrypt l.expanded_keys t blocks) same_coded
          ∙ decrypt-encrypt l.expanded_keys v.keys blocks plain plain_size
              (All-take (16 * blocks) l.tx_buffer v.bytes);
      ready = rw (send_blocks l len) (record {
        buffer_size = omega (
          arith,
          length-append coded (drop (16 * blocks) l.tx_buffer),
          coded_size,
          length-drop (16 * blocks) l.tx_buffer,
          v.buffer_size,
        );
        bytes =
            All-append IsByte coded (drop (16 * blocks) l.tx_buffer) (rw same_coded sizes.1)
              (All-drop (16 * blocks) l.tx_buffer v.bytes);
        keys = v.keys;
      });
    }
