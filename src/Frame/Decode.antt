-- ===== src/Frame/Decode.antt =====
-- How the decoder of Frame.cpp takes in the bytes of one frame.
use solarbot_update.Base.{
  ℕ, ◌+◌, ◌<◌, ◌≡◌, refl, ◌⊎◌, inl, inr, arith, Bool, true, false, [], ◌∷◌, ◌++◌, Bytes, length,
  take, drop, length-set, length-append, take-set, if◌then◌else◌, ◌==◌, Bool-cases, ==_iff, ◌≤◌,
  ◌∙◌, ap, append-nil, append_assoc,
}
use solarbot_update.Frame.{Frame, frame_buffer_size, store, decode_frame, add_with_escape, add_all}

-- A frame as a client of the decoder sees it.
pub record Message : Type 0 where
  pub frame_type : ℕ
  pub frame_id : ℕ
  pub payload : Bytes

-- What can be read of the decoder when `DecodeFrame` has returned true.
abbrev pub message : Frame → Message
message d = record {
  frame_type = d.rx_frame_type;
  frame_id = d.rx_frame_id;
  payload = take d.rx_payload_length (drop 8 d.frame_buffer);
}

-- The loop of a client: hand the bytes to `DecodeFrame` one by one, and handle each frame that it
-- completes. The handler may change the decoder, as `ParseRawRx` does.
module _ {S : Type 0} (handle : S → Frame → S × Frame) where
  unfoldable pub drive : S → Frame → Bytes → S × Frame
  drive s d [] = (s, d)
  drive s d (a ∷ rest) =
      let (d', done) = decode_frame d a in
      let handled = drive (handle s d').0 (handle s d').1 rest in
      let unfinished = drive s d' rest in if done then handled else unfinished

  -- The loop goes on behind a byte.
  abbrev pub resume : S → Frame × Bool → Bytes → S × Frame
  resume s (d, done) rest =
      if done then drive (handle s d).0 (handle s d).1 rest else drive s d rest

-- Between frames: nothing is being decoded and no escape is pending.
pub record IsIdle (d : Frame) : Type 0 where
  pub not_decoding : d.decoding ≡ false
  pub not_escaping : d.escaping ≡ false
  pub buffer_size : length d.frame_buffer ≡ frame_buffer_size

-- Inside a frame: `bs` are the bytes decoded so far, and the header's fields are `t`, `i` and `n`.
pub record IsReading (t i n : ℕ) (bs : Bytes) (d : Frame) : Type 0 where
  pub decoding : d.decoding ≡ true
  pub not_escaping : d.escaping ≡ false
  pub buffer_size : length d.frame_buffer ≡ frame_buffer_size
  pub index : d.frame_buffer_index ≡ length bs
  pub stored : take (length bs) d.frame_buffer ≡ bs
  pub frame_type : d.rx_frame_type ≡ t
  pub frame_id : d.rx_frame_id ≡ i
  pub payload_length : d.rx_payload_length ≡ n

-- The positions at which nothing is checked.
abbrev pub Quiet : ℕ → ℕ → Type 0
Quiet n k = (k < 7) ⊎ ((7 < k) × (k < n + 9))

abbrev pub clear : Frame → Frame
clear d = record d { escaping = false }

store-IsReading :
    {t i n : ℕ} {bs : Bytes} {d : Frame} (b : ℕ)
    → IsReading t i n bs d
    → Quiet n (length bs)
    → length bs < 1024
    → (store (clear d) b).1 ≡ false × IsReading t i n (bs ++ b ∷ []) (store (clear d) b).0
unfolding store
store-IsReading {bs = bs} {d = d} b r q h = ground (
  arith,
  length-set d.frame_buffer d.frame_buffer_index b,
  take-set d.frame_buffer d.frame_buffer_index b,
  length-append bs (b ∷ []),
)

-- The decoder after the bytes `bs` have been stored.
pub store_all : Frame → Bytes → Frame
store_all d [] = d
store_all d (b ∷ bs) = store_all (store (clear d) b).0 bs

-- The positions `k` to `k + m` are quiet.
abbrev pub QuietRun : ℕ → ℕ → ℕ → Type 0
QuietRun n k m = (k + m ≤ 7) ⊎ ((7 < k) × (k + m ≤ n + 9))

module _ {S : Type 0} (handle : S → Frame → S × Frame) (s : S) where
  -- An escaped byte is stored as the byte itself, whatever it is.
  pub drive-add_with_escape :
      (d : Frame) (b : ℕ) (rest : Bytes)
      → d.decoding ≡ true
      → d.escaping ≡ false
      → drive handle s d (add_with_escape b ++ rest) ≡ resume handle s (store (clear d) b) rest
  unfolding drive decode_frame add_with_escape
  drive-add_with_escape d b rest hd he = elim (Bool-cases (b == 0x7E)) [
    | inl e ↦ let e' : b ≡ 0x7E = (==_iff b 0x7E).0 e in rw e' (ground arith)
    | inr ne ↦ elim (Bool-cases (b == 0x7D)) [
      | inl e ↦ let e' : b ≡ 0x7D = (==_iff b 0x7D).0 e in rw e' (ground arith)
      | inr ne' ↦ ground arith
    ]
  ]

  -- A byte that is stored at a quiet position completes nothing.
  drive-Quiet :
      {t i n : ℕ} {bs : Bytes} {d : Frame} (b : ℕ) (rest : Bytes)
      → IsReading t i n bs d
      → Quiet n (length bs)
      → length bs < 1024
      → drive handle s d (add_with_escape b ++ rest) ≡ drive handle s (store (clear d) b).0 rest
  drive-Quiet {d = d} b rest r q h =
      drive-add_with_escape d b rest r.decoding r.not_escaping
      ∙ ap (λ (c : Bool). resume handle s ((store (clear d) b).0, c) rest)
          (store-IsReading b r q h).0

  pub record Reads (t i n : ℕ) (bs xs : Bytes) (d : Frame) : Type 0 where
    pub reading : IsReading t i n (bs ++ xs) (store_all d xs)
    pub received :
        (rest : Bytes)
        → drive handle s d (add_all xs ++ rest) ≡ drive handle s (store_all d xs) rest

  -- A run of escaped bytes over quiet positions is stored and completes nothing.
  pub read_run :
      (xs : Bytes) {t i n : ℕ} {bs : Bytes} {d : Frame}
      → IsReading t i n bs d
      → QuietRun n (length bs) (length xs)
      → length bs + length xs ≤ 1024
      → Reads t i n bs xs d
  unfolding store_all add_all
  read_run [] {bs = bs} r q h = record { reading = rw append-nil r; received = λ rest. refl }
  read_run (b ∷ xs) {n = n} {bs = bs} {d = d} r q h =
      let here : Quiet n (length bs) = omega arith in
      let step = store-IsReading b r here (omega arith) in
      let later =
        read_run xs step.1 (omega (arith, length-append bs (b ∷ [])))
          (omega (arith, length-append bs (b ∷ []))) in
      record {
        reading = rw (append_assoc bs (b ∷ []) xs) at later.reading;
        received = λ rest.
            ap (drive handle s d) (append_assoc (add_with_escape b) (add_all xs) rest)
            ∙ drive-Quiet b (add_all xs ++ rest) r here (omega arith)
            ∙ later.received rest;
      }
