-- ===== src/Frame/RoundTrip.antt =====
-- What `GenerateFrame` writes, `DecodeFrame` reads back.
use solarbot_update.Base.{
  ℕ, ◌/◌, ◌%◌, ◌≤◌, ◌≡◌, ◌≢◌, inl, inr, refl, ap, ◌∙◌, arith, Bool, true, [], ◌∷◌, ◌++◌, Bytes,
  length, length-append, append-nil, append_assoc,
}
use solarbot_update.Crc16.{calculate}
use solarbot_update.Frame.{
  Frame, store, decode_frame, word_bytes, header_fields, header_bytes, add_with_escape, add_all,
}
use solarbot_update.Frame.Decode.{
  message, drive, resume, IsIdle, IsReading, clear, store_all, read_run, drive-add_with_escape,
}
use solarbot_update.Frame.Complete.{store_header, store_last}

-- The start of a frame: the random byte is passed over, and 0x7E starts the header.
abbrev pub started : Frame → Frame
started d = record d { frame_buffer_index = 0; rx_payload_length = 0; decoding = true }

pub started-IsReading :
    {d : Frame} → IsIdle d → IsReading d.rx_frame_type d.rx_frame_id 0 [] (started d)
started-IsReading idle = ground arith

-- The first seven bytes of the header, and the eighth.
abbrev header_front : ℕ → ℕ → ℕ → Bytes
header_front t i n = header_fields t i n ++ calculate (header_fields t i n) % 256 ∷ []

abbrev header_last : ℕ → ℕ → ℕ → ℕ
header_last t i n = calculate (header_fields t i n) / 256

pub add_all-append : (xs ys : Bytes) → add_all (xs ++ ys) ≡ add_all xs ++ add_all ys
unfolding add_all
add_all-append [] ys = refl
add_all-append (x ∷ xs) ys = simp (add_all-append xs ys, append_assoc)

-- The decoder after a whole header.
pub after_header : ℕ → ℕ → ℕ → Frame → Frame
after_header t i n d = (store (clear (store_all d (header_front t i n))) (header_last t i n)).0

-- The decoder after a whole frame.
pub after_frame : ℕ → ℕ → Bytes → Frame → Frame
after_frame t i payload d =
    (store
      (clear (
        store_all (after_header t i (length payload) (started d))
          (payload ++ calculate payload % 256 ∷ [])))
      (calculate payload / 256)).0

length-header_bytes : (t i n : ℕ) → length (header_bytes t i n) ≡ 8
unfolding header_bytes
length-header_bytes t i n = refl

add_all_regroup :
    (xs : Bytes) (lo hi : ℕ) (rest : Bytes)
    → add_all xs ++ (add_all (lo ∷ hi ∷ []) ++ rest)
      ≡ add_all (xs ++ lo ∷ []) ++ (add_all (hi ∷ []) ++ rest)
unfolding add_all
add_all_regroup xs lo hi rest = simp (add_all-append, append_assoc, append-nil)

append_regroup :
    (hs xs : Bytes) (lo hi : ℕ) → (hs ++ (xs ++ lo ∷ [])) ++ hi ∷ [] ≡ hs ++ (xs ++ lo ∷ hi ∷ [])
append_regroup hs xs lo hi = simp append_assoc

module _ {S : Type 0} (handle : S → Frame → S × Frame) (s : S) where
  pub drive_start :
      (d : Frame) (rnd_byte : ℕ) (rest : Bytes)
      → IsIdle d
      → rnd_byte ≢ 0x7E
      → drive handle s d (rnd_byte ∷ 0x7E ∷ rest) ≡ drive handle s (started d) rest
  unfolding drive decode_frame
  drive_start d rnd_byte rest idle ne = ground arith

  -- One escaped byte, and what the decoder does with it.
  drive_last :
      {t i n : ℕ} {bs : Bytes} {d : Frame} (b : ℕ) (rest : Bytes)
      → IsReading t i n bs d
      → drive handle s d (add_all (b ∷ []) ++ rest) ≡ resume handle s (store (clear d) b) rest
  unfolding add_all
  drive_last {d = d} b rest r =
      ap (λ (l : Bytes). drive handle s d (l ++ rest)) (append-nil (add_with_escape b))
      ∙ drive-add_with_escape handle s d b rest r.decoding r.not_escaping

  pub read_header :
      (t i n : ℕ) {t' i' : ℕ} {d : Frame}
      → IsReading t' i' 0 [] d
      → IsReading t i n (header_bytes t i n) (after_header t i n d)
        × ((rest : Bytes)
            → drive handle s d (add_all (header_bytes t i n) ++ rest)
              ≡ drive handle s (after_header t i n d) rest)
  unfolding after_header header_bytes
  read_header t i n {d = d} r =
      let front = read_run handle s (header_front t i n) r (inl (omega arith)) (omega arith) in
      let last = store_header t i n (header_last t i n) front.reading refl refl in
      (
        last.1,
        λ rest.
            ap (λ (l : Bytes). drive handle s d (l ++ rest))
              (add_all-append (header_front t i n) (header_last t i n ∷ []))
            ∙ ap (drive handle s d) (
                append_assoc (add_all (header_front t i n)) (add_all (header_last t i n ∷ [])) rest)
            ∙ front.received (add_all (header_last t i n ∷ []) ++ rest)
            ∙ drive_last (header_last t i n) rest front.reading
            ∙ ap (λ (c : Bool). resume handle s (after_header t i n d, c) rest) last.0,
      )

  pub record ReadsFrame (t i : ℕ) (payload : Bytes) (d : Frame) : Type 0 where
    pub idle : IsIdle (after_frame t i payload d)
    pub content :
        message (after_frame t i payload d)
        ≡ record { frame_type = t; frame_id = i; payload = payload }
    pub bounded : (after_frame t i payload d).rx_payload_length ≤ 1014
    pub received :
        (rest : Bytes)
        → drive handle s
            (after_header t i (length payload) (started d))
            (add_all payload ++ (add_all (word_bytes (calculate payload)) ++ rest))
          ≡ resume handle s (after_frame t i payload d, true) rest

  pub read_payload :
      (t i : ℕ) (payload : Bytes) {d : Frame}
      → IsIdle d
      → length payload ≤ 1014
      → ReadsFrame t i payload d
  unfolding after_frame
  read_payload t i payload {d = d} idle h =
      let lo = calculate payload % 256 in
      let hi = calculate payload / 256 in
      let head = read_header t i (length payload) (started-IsReading idle) in
      let size = length-header_bytes t i (length payload) in
      let body =
        read_run handle s (payload ++ lo ∷ []) head.0
          (inr (omega (arith, size), omega (arith, size, length-append payload (lo ∷ []))))
          (omega (arith, size, length-append payload (lo ∷ []))) in
      let last =
        store_last t i hi payload body.reading (omega arith)
          (append_regroup (header_bytes t i (length payload)) payload lo hi) in
      record {
        idle = last.idle;
        content = last.content;
        bounded = last.bounded;
        received = λ rest.
            ap (drive handle s (after_header t i (length payload) (started d)))
              (add_all_regroup payload lo hi rest)
            ∙ body.received (add_all (hi ∷ []) ++ rest)
            ∙ drive_last hi rest body.reading
            ∙ ap (λ (c : Bool). resume handle s (after_frame t i payload d, c) rest) last.done;
      }
