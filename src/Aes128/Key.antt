-- ===== src/Aes128/Key.antt =====
-- The key expansion of `SetKey`, and the cipher under a key.
use solarbot_update.Base.{
  ℕ, zero, suc, ◌+◌, ◌-◌, ◌*◌, ◌%◌, ◌<◌, ◌≤◌, ◌≡◌, refl, ◌∙◌, arith, ◌++◌, Bytes, All, All-append,
  IsByte, get_or, length, take, drop, length-take, length-drop, length-append, ◌==◌, false,
  if◌then◌else◌, all_below, all_below_every, ltb, true, Bool-cases, inl, inr, Bool,
}
use solarbot_update.Base.Bits.{bit_xor-lt}
use solarbot_update.Aes128.{
  look_up, s_box, rcon, key_expansion_core, next_word, expand_keys, set_key, encrypt, decrypt,
}
use solarbot_update.Aes128.Field.{s_box-lt}
use solarbot_update.Aes128.State.{get_or-lt, add_round_key-All, length-add_round_key}
use solarbot_update.Aes128.Block.{All-take, All-drop, decrypt-encrypt}

rcon_check : all_below 256 (λ i. ltb (look_up rcon i) 256) ≡ true
unfolding all_below rcon
rcon_check = refl

rcon-lt : (i : ℕ) → i < 256 → look_up rcon i < 256
rcon-lt i h = ground (arith, all_below_every 256 (λ i. ltb (look_up rcon i) 256) i rcon_check h)

key_expansion_core-All :
    (i : ℕ) (word : Bytes) → i < 256 → All IsByte word → All IsByte (key_expansion_core i word)
unfolding key_expansion_core
key_expansion_core-All i word hi h = (
  bit_xor-lt 8 (look_up s_box (get_or word 1 0)) (look_up rcon i) (boxed 1) (rcon-lt i hi),
  (boxed 2, (boxed 3, (boxed 0, tt))),
)
  where
    boxed : (k : ℕ) → look_up s_box (get_or word k 0) < 256
    boxed k = s_box-lt (get_or word k 0) (get_or-lt word k h)

-- What holds of the keys generated so far.
record AreKeys (n : ℕ) (keys : Bytes) : Type 0 where
  size : length keys ≡ n
  bytes : All IsByte keys

next_word-All : (keys : Bytes) (i : ℕ) → i < 256 → All IsByte keys → All IsByte (next_word keys i)
unfolding next_word
next_word-All keys i hi h =
    let last = All-take 4 (drop (length keys - 4) keys) (All-drop (length keys - 4) keys h) in
    let old = All-take 4 (drop (length keys - 16) keys) (All-drop (length keys - 16) keys h) in
    add_round_key-All (take 4 (drop (length keys - 16) keys)) core old
      (elim (Bool-cases (length keys % 16 == 0)) [
        | inl e ↦ rw e (key_expansion_core-All i (take 4 (drop (length keys - 4) keys)) hi last)
        | inr e ↦ rw e last
      ])
  where
    core : Bytes
    core =
        if length keys % 16 == 0
        then key_expansion_core i (take 4 (drop (length keys - 4) keys))
        else take 4 (drop (length keys - 4) keys)

length-next_word : (keys : Bytes) (i : ℕ) → 16 ≤ length keys → length (next_word keys i) ≡ 4
unfolding next_word
length-next_word keys i h =
    length-add_round_key (take 4 (drop (length keys - 16) keys)) _
    ∙ omega
        (arith, length-take 4 (drop (length keys - 16) keys), length-drop (length keys - 16) keys)

next_iteration-le : (b : Bool) (i : ℕ) → (if b then i + 1 else i) ≤ i + 1
next_iteration-le true i = omega arith
next_iteration-le false i = omega arith

expand_keys-AreKeys :
    (rounds i n m : ℕ) (keys : Bytes)
    → i + rounds < 256
    → 16 ≤ n
    → n + 4 * rounds ≡ m
    → AreKeys n keys
    → AreKeys m (expand_keys rounds i keys)
unfolding expand_keys
expand_keys-AreKeys zero i n m keys hi hn e k = record {
  size = omega (arith, k.size);
  bytes = k.bytes;
}
expand_keys-AreKeys (suc rounds) i n m keys hi hn e k =
    expand_keys-AreKeys rounds (if length keys % 16 == 0 then i + 1 else i) (n + 4) m
      (keys ++ next_word keys i) (omega (arith, next_iteration-le (length keys % 16 == 0) i))
      (omega arith) (omega arith)
      (record {
        size = omega (
          arith,
          k.size,
          length-append keys (next_word keys i),
          length-next_word keys i (omega (arith, k.size)),
        );
        bytes =
            All-append IsByte keys (next_word keys i) k.bytes
              (next_word-All keys i (omega arith) k.bytes);
      })

-- The expanded key of a 16-byte key is 176 bytes.
pub set_key_lem :
    (key : Bytes)
    → length key ≡ 16
    → All IsByte key
    → (length (set_key key) ≡ 176) × All IsByte (set_key key)
unfolding set_key
set_key_lem key h hk =
    let k =
      expand_keys-AreKeys 40 1 16 176 (take 16 key) (omega arith) (omega arith) refl
        (record { size = omega (arith, length-take 16 key); bytes = All-take 16 key hk }) in
    (k.size, k.bytes)

-- Under every 16-byte key, `Decrypt` gives back the whole blocks that `Encrypt` has encrypted under
-- the same key; the expanded key has the 176 bytes that its array holds.
pub decrypt-encrypt-set_key :
    (key message : Bytes) (blocks : ℕ)
    → length key ≡ 16
    → All IsByte key
    → length message ≡ 16 * blocks
    → All IsByte message
    → (length (set_key key) ≡ 176)
      × (decrypt (set_key key) (encrypt (set_key key) message blocks) blocks ≡ message)
decrypt-encrypt-set_key key message blocks h hk hm hb =
    let k = set_key_lem key h hk in (k.0, decrypt-encrypt (set_key key) k.1 blocks message hm hb)
