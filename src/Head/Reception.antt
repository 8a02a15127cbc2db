-- ===== src/Head/Reception.antt =====
-- What arrives from the head, and that no byte is written outside the frame's array.
use solarbot_update.Base.{
  ℕ, ◌+◌, ◌≤◌, ◌<◌, ◌≡◌, refl, sym, ap, ◌∙◌, arith, true, false, bit_xor, [], ◌∷◌, ◌++◌, Bytes,
  length, take, length-set, length-append, take-set, append_assoc, append-nil, ◌==◌, ==_iff,
  Bool-cases, inl, inr,
}
use solarbot_update.Crc8.{initial, update, update_all, calculate}
use solarbot_update.Frame.{add_with_escape, add_all}
use solarbot_update.Frame.RoundTrip.{add_all-append}
use solarbot_update.Head.{Head, store_byte, take_byte, receive, receive_all}

pub record IsValid (h : Head) : Type 0 where
  pub array : length h.raw_frame ≡ 100
  pub index : h.raw_frame_index < 100

-- Whatever byte arrives, the index stays inside the array of 100 bytes that the frame is written to.
pub receive-IsValid : (h : Head) (a : ℕ) → IsValid h → IsValid (receive h a)
unfolding receive store_byte take_byte
receive-IsValid h a v = ground (
  arith,
  length-set h.raw_frame h.raw_frame_index a,
  length-set h.raw_frame h.raw_frame_index (bit_xor a 0x20),
  v.array,
  v.index,
)

-- Inside a frame of the length `n`: `bs` has been decoded of it.
record IsReading (n : ℕ) (bs : Bytes) (h : Head) : Type 0 where
  array : length h.raw_frame ≡ 100
  index : h.raw_frame_index ≡ length bs
  size : h.raw_frame_length ≡ n
  crc : h.crc ≡ update_all initial (n ∷ bs)
  stored : take (length bs) h.raw_frame ≡ bs
  not_escaping : h.escaping ≡ false

-- An escaped byte arrives as the byte.
receive-add_with_escape :
    (h : Head) (b : ℕ) (rest : Bytes)
    → h.escaping ≡ false
    → receive_all h (add_with_escape b ++ rest)
      ≡ receive_all (take_byte (record h { escaping = false }) b) rest
unfolding receive_all receive add_with_escape
receive-add_with_escape h b rest e = elim (Bool-cases (b == 0x7E)) [
  | inl f ↦ let g : b ≡ 0x7E = (==_iff b 0x7E).0 f in rw g (ground arith)
  | inr f ↦ elim (Bool-cases (b == 0x7D)) [
    | inl g ↦ let k : b ≡ 0x7D = (==_iff b 0x7D).0 g in rw k (ground arith)
    | inr g ↦ ground arith
  ]
]

update_all-append :
    (crc : ℕ) (xs : Bytes) (b : ℕ) → update_all crc (xs ++ b ∷ []) ≡ update (update_all crc xs) b
unfolding update_all
update_all-append crc [] b = refl
update_all-append crc (x ∷ xs) b = update_all-append (update crc x) xs b

take_byte-IsReading :
    {n : ℕ} {bs : Bytes} {h : Head} (b : ℕ)
    → IsReading n bs h
    → length bs < n
    → n < 100
    → IsReading n (bs ++ b ∷ []) (take_byte (record h { escaping = false }) b)
unfolding take_byte store_byte
take_byte-IsReading {n} {bs} {h} b r lt small = ground (
  arith,
  length-set h.raw_frame h.raw_frame_index b,
  take-set h.raw_frame h.raw_frame_index b,
  update_all-append initial (n ∷ bs) b,
  length-append bs (b ∷ []),
  r.array,
  r.index,
  r.size,
  r.crc,
  r.stored,
)

-- The bytes of a payload one after another.
read_run :
    {n : ℕ} (xs rest : Bytes) {bs : Bytes} {h : Head}
    → IsReading n bs h
    → length bs + length xs ≤ n
    → n < 100
    → (h' : Head) × IsReading n (bs ++ xs) h'
      × (receive_all h (add_all xs ++ rest) ≡ receive_all h' rest)
unfolding add_all
read_run {n} [] rest {bs} {h} r le small = (h, rw (append-nil bs) r, refl)
read_run {n} (x ∷ xs) rest {bs} {h} r le small =
    let step = take_byte-IsReading x r (omega arith) small in
    let (h', read, e) = read_run xs rest step (omega (arith, length-append bs (x ∷ []))) small in
    (
      h',
      rw (sym (append_assoc bs (x ∷ []) xs)) read,
      ap (receive_all h) (append_assoc (add_with_escape x) (add_all xs) rest)
          ∙ receive-add_with_escape h x (add_all xs ++ rest) r.not_escaping
          ∙ e,
    )

-- The decoder once the start byte and the length have arrived.
abbrev first : Head → ℕ → Head
first h n = record h {
  raw_frame_index = 0;
  escaping = false;
  raw_frame_length = n;
  crc = update initial n;
}

first-IsReading : (h : Head) (n : ℕ) → IsValid h → 0 < n → IsReading n [] (first h n)
unfolding update_all
first-IsReading h n v some_bytes = record {
  array = v.array;
  index = refl;
  size = refl;
  crc = refl;
  stored = refl;
  not_escaping = refl;
}

-- What an encoder of the line sends for a payload: the length, the payload and the CRC of both.
abbrev pub head_frame : Bytes → Bytes
head_frame payload =
    0x7E ∷ add_all (length payload ∷ (payload ++ calculate (length payload ∷ payload) ∷ []))

begin :
    (h : Head) (payload : Bytes)
    → receive_all h (head_frame payload)
      ≡ receive_all
          (first h (length payload))
          (add_all payload ++ add_all (calculate (length payload ∷ payload) ∷ []))
unfolding receive_all receive add_all
begin h payload =
    receive-add_with_escape
      (record h { raw_frame_index = 0; escaping = false; raw_frame_length = 0; crc = initial })
      (length payload) (add_all (payload ++ calculate (length payload ∷ payload) ∷ [])) refl
    ∙ unfold take_byte in
      ap (receive_all (first h (length payload)))
        (add_all-append payload (calculate (length payload ∷ payload) ∷ []))

ending :
    (h : Head) (payload : Bytes)
    → IsReading (length payload) payload h
    → receive_all h (add_all (calculate (length payload ∷ payload) ∷ []))
      ≡ take_byte (record h { escaping = false }) (calculate (length payload ∷ payload))
unfolding receive_all add_all
ending h payload r =
    receive-add_with_escape h (calculate (length payload ∷ payload)) [] r.not_escaping

last_byte :
    (h : Head) (payload : Bytes)
    → IsReading (length payload) payload h
    → 0 < length payload
    → ((take_byte (record h { escaping = false }) (calculate (length payload ∷ payload))).rxflag
        ≡ true)
      × (take
            (length payload)
            (take_byte
              (record h { escaping = false })
              (calculate (length payload ∷ payload))).raw_frame
          ≡ payload)
unfolding take_byte calculate
last_byte h payload r some_bytes = ground (arith, r.index, r.size, r.crc, r.stored)

-- A frame of 1 to 99 bytes sets the flag, and the array then begins with its payload, whatever bytes
-- it holds and whatever has been received before.
pub receive_all-head_frame :
    (h : Head) (payload : Bytes)
    → IsValid h
    → 0 < length payload
    → length payload < 100
    → ((receive_all h (head_frame payload)).rxflag ≡ true)
      × (take (length payload) (receive_all h (head_frame payload)).raw_frame ≡ payload)
receive_all-head_frame h payload v some_bytes small =
    let (h', read, e) =
      read_run payload (add_all (calculate (length payload ∷ payload) ∷ []))
        {h = first h (length payload)} (first-IsReading h (length payload) v some_bytes)
        (omega arith) small in
    rw (begin h payload ∙ e ∙ ending h' payload read) (last_byte h' payload read some_bytes)
