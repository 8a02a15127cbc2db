-- ===== src/Gps/Loop.antt =====
-- When the loop of getLocation ends.
use solarbot_update.Base.{
  ℕ, ◌<◌, ◌≡◌, ◌≢◌, refl, sym, ap, ◌∙◌, arith, bit_or, true, false, Option, none, some, List, [],
  ◌∷◌, Bytes, All, ◌==◌, if◌then◌else◌, Bool-cases, inl, inr, ◌⊎◌, ◌↔◌,
}
use solarbot_update.Text.{◌>>=◌, >>=-eq-some}
use solarbot_update.Serial.{read_into}
use solarbot_update.Double.{Double}
use solarbot_update.Gps.{
  Location, nmea_get_message_type, nmea_parse_gpgga, nmea_parse_gprmc, take_sentence, take_read,
  read_sentences, get_location, nmea_gpgga, nmea_gprmc, nmea_completed, nmea_empty,
}
use solarbot_update.Gps.Sentences.{IsGga, IsRmc, kind-IsGga, kind-IsRmc}
use solarbot_update.Gps.Status.{marks, HasRmc, HasGga, marks-Marked, shift, unshift, same_kind}

-- What the buffer holds after each read that brings something.
unfoldable pub buffers : Bytes → List Bytes → List Bytes
buffers buffer [] = []
buffers buffer ([] ∷ reads) = buffers buffer reads
buffers buffer ((c ∷ cs) ∷ reads) =
    read_into buffer (c ∷ cs) ∷ buffers (read_into buffer (c ∷ cs)) reads

-- A sentence of a kind is among them.
unfoldable pub Arrives : (Bytes → Type 0) → List Bytes → Type 0
Arrives P [] = ⊥
Arrives P (b ∷ bs) = P b ⊎ Arrives P bs

-- The kind that the program takes a sentence for is among them.
abbrev Came : ℕ → List Bytes → Type 0
Came kind = Arrives (λ b. nmea_get_message_type b ≡ some kind)

Arrives-map :
    {P Q : Bytes → Type 0}
    → ((b : Bytes) → P b → Q b)
    → (bs : List Bytes) → Arrives P bs
    → Arrives Q bs
unfolding Arrives
Arrives-map f [] h = absurd h
Arrives-map f (b ∷ bs) (inl p) = inl (f b p)
Arrives-map f (b ∷ bs) (inr later) = inr (Arrives-map f bs later)

module _ (R : Double) where
  open R use {Value}

  -- The sentence has all the fields of its kind.
  unfoldable pub Parses : Bytes → Type 0
  Parses b = (loc : Location Value) (status : ℕ) → take_sentence R b status loc ≢ none

  abbrev marked : ℕ → Location Value → Option (ℕ × Location Value)
  marked status loc = some (status, loc)

  take_sentence-marks :
      (b : Bytes) (status : ℕ) (loc : Location Value) (status' : ℕ) (loc' : Location Value)
      → take_sentence R b status loc ≡ some (status', loc')
      → (kind : ℕ) × (nmea_get_message_type b ≡ some kind) × (status' ≡ marks kind status)
  unfolding take_sentence
  take_sentence-marks b status loc status' loc' e =
      let (kind, came, rest) = >>=-eq-some (nmea_get_message_type b) _ e in
      (kind, came, decided kind (nmea_parse_gpgga R b loc) (nmea_parse_gprmc R b loc) rest)
    where
      decided :
          (kind : ℕ) (gga rmc : Option (Location Value))
          → (if kind == nmea_gpgga
              then (gga >>= λ l. (marked (bit_or status nmea_gpgga) l))
              else if kind == nmea_gprmc
              then (rmc >>= λ l. (marked (bit_or status nmea_gprmc) l))
              else marked status loc)
            ≡ some (status', loc')
          → status' ≡ marks kind status
      decided kind none none = ground arith
      decided kind none (some l) = ground arith
      decided kind (some l) none = ground arith
      decided kind (some l) (some l') = ground arith

  -- The loop goes on with what a sentence leaves.
  stepped :
      (c : ℕ) (cs : Bytes) (reads : List Bytes) (buffer : Bytes) (status : ℕ) (loc : Location Value)
      (status' : ℕ) (loc' : Location Value)
      → (status == nmea_completed) ≡ false
      → take_sentence R (read_into buffer (c ∷ cs)) status loc ≡ some (status', loc')
      → read_sentences R ((c ∷ cs) ∷ reads) buffer status loc
        ≡ read_sentences R reads (read_into buffer (c ∷ cs)) status' loc'
  unfolding read_sentences take_read
  stepped c cs reads buffer status loc status' loc' going e = rw going (rw e refl)

  completed-bits :
      (status : ℕ) → status < 4 → HasRmc status → HasGga status → (status == nmea_completed) ≡ true
  completed-bits status h r g = ground arith

  -- Both kinds are marked or still come.
  abbrev Ready : ℕ → List Bytes → Type 0
  Ready status bs = (HasRmc status ⊎ Came nmea_gprmc bs) × (HasGga status ⊎ Came nmea_gpgga bs)

  Ready-step :
      (kind status : ℕ) (b : Bytes) (bs : List Bytes)
      → status < 4
      → nmea_get_message_type b ≡ some kind
      → Ready status (b ∷ bs)
      → Ready (marks kind status) bs
  unfolding Arrives
  Ready-step kind status b bs h e (r, g) =
      let m = marks-Marked kind status h in
      (
        shift m.keeps_rmc (λ k. m.sets_rmc (same_kind (nmea_get_message_type b) e k)) r,
        shift m.keeps_gga (λ k. m.sets_gga (same_kind (nmea_get_message_type b) e k)) g,
      )

  Ready-back :
      (kind status : ℕ) (b : Bytes) (bs : List Bytes)
      → status < 4
      → nmea_get_message_type b ≡ some kind
      → Ready (marks kind status) bs
      → Ready status (b ∷ bs)
  unfolding Arrives
  Ready-back kind status b bs h e (r, g) =
      let m = marks-Marked kind status h in
      (unshift (λ x. kinds (m.only_rmc x)) r, unshift (λ x. kinds (m.only_gga x)) g)
    where
      kinds : {A : Type 0} {k : ℕ} → A ⊎ (kind ≡ k) → A ⊎ (nmea_get_message_type b ≡ some k)
      kinds (inl a) = inl a
      kinds (inr p) = inr (e ∙ ap some p)

  stepped_nothing :
      (reads : List Bytes) (buffer : Bytes) (status : ℕ) (loc : Location Value)
      → (status == nmea_completed) ≡ false
      → read_sentences R ([] ∷ reads) buffer status loc ≡ read_sentences R reads buffer status loc
  unfolding read_sentences take_read
  stepped_nothing reads buffer status loc going = rw going refl

  completed_returns :
      (reads : List Bytes) (buffer : Bytes) (status : ℕ) (loc : Location Value)
      → (status == nmea_completed) ≡ true
      → read_sentences R reads buffer status loc ≡ some (buffer, loc)
  unfolding read_sentences
  completed_returns [] buffer status loc e = rw e refl
  completed_returns (bytes ∷ reads) buffer status loc e = rw e refl

  Ready-nil : (status : ℕ) → status < 4 → Ready status [] → (status == nmea_completed) ≡ true
  unfolding Arrives
  Ready-nil status h (inl r, inl g) = completed-bits status h r g
  Ready-nil status h (inl r, inr g) = absurd g
  Ready-nil status h (inr r, g) = absurd r

  -- A whole sentence is taken.
  taken :
      (b : Bytes) (status : ℕ) (loc : Location Value)
      → status < 4
      → Parses b
      → (kind : ℕ) × (loc' : Location Value) × (nmea_get_message_type b ≡ some kind)
        × (take_sentence R b status loc ≡ some (marks kind status, loc'))
  unfolding Parses
  taken b status loc h whole = from (take_sentence R b status loc) refl
    where
      from :
          (o : Option (ℕ × Location Value))
          → take_sentence R b status loc ≡ o
          → (kind : ℕ) × (loc' : Location Value) × (nmea_get_message_type b ≡ some kind)
            × (take_sentence R b status loc ≡ some (marks kind status, loc'))
      from none e = absurd (whole loc status e)
      from (some (status', loc')) e =
          let (kind, came, p) = take_sentence-marks b status loc status' loc' e in
          (kind, loc', came, e ∙ ap (λ n. some (n, loc')) p)

  -- With all sentences whole, the loop ends when both kinds have come.
  Ready-returns :
      (reads : List Bytes) (buffer : Bytes) (status : ℕ) (loc : Location Value)
      → status < 4
      → All Parses (buffers buffer reads)
      → Ready status (buffers buffer reads)
      → (out : Bytes × Location Value) × (read_sentences R reads buffer status loc ≡ some out)
  unfolding buffers
  Ready-returns [] buffer status loc h whole ready =
      ((buffer, loc), completed_returns [] buffer status loc (Ready-nil status h ready))
  Ready-returns ([] ∷ reads) buffer status loc h whole ready =
      elim (Bool-cases (status == nmea_completed)) [
        | inl e ↦ ((buffer, loc), completed_returns ([] ∷ reads) buffer status loc e)
        | inr e ↦
            let (out, p) = Ready-returns reads buffer status loc h whole ready in
            (out, stepped_nothing reads buffer status loc e ∙ p)
      ]
  Ready-returns ((c ∷ cs) ∷ reads) buffer status loc h whole ready =
      elim (Bool-cases (status == nmea_completed)) [
        | inl e ↦ ((buffer, loc), completed_returns ((c ∷ cs) ∷ reads) buffer status loc e)
        | inr e ↦
            let next = read_into buffer (c ∷ cs) in
            let (kind, loc', came, t) = taken next status loc h whole.0 in
            let m = marks-Marked kind status h in
            let (out, p) =
              Ready-returns reads next (marks kind status) loc' m.below whole.1
                (Ready-step kind status next (buffers next reads) h came ready) in
            (out, stepped c cs reads buffer status loc (marks kind status) loc' e t ∙ p)
      ]

  returned-Ready :
      (reads : List Bytes) (buffer : Bytes) (status : ℕ) (loc : Location Value)
      (out : Bytes × Location Value)
      → status < 4
      → All Parses (buffers buffer reads)
      → read_sentences R reads buffer status loc ≡ some out
      → Ready status (buffers buffer reads)
  unfolding buffers read_sentences
  returned-Ready [] buffer status loc out h whole e = elim (Bool-cases (status == nmea_completed)) [
    | inl p ↦ (inl (ground arith), inl (ground arith))
    | inr p ↦ absurd (ground arith)
  ]
  returned-Ready ([] ∷ reads) buffer status loc out h whole e =
      elim (Bool-cases (status == nmea_completed)) [
        | inl p ↦ (inl (ground arith), inl (ground arith))
        | inr p ↦
            returned-Ready reads buffer status loc out h whole
              (sym (stepped_nothing reads buffer status loc p) ∙ e)
      ]
  returned-Ready ((c ∷ cs) ∷ reads) buffer status loc out h whole e =
      elim (Bool-cases (status == nmea_completed)) [
        | inl p ↦ (inl (ground arith), inl (ground arith))
        | inr p ↦
            let next = read_into buffer (c ∷ cs) in
            let (kind, loc', came, t) = taken next status loc h whole.0 in
            let m = marks-Marked kind status h in
            Ready-back kind status next (buffers next reads) h came (
              returned-Ready reads next (marks kind status) loc' out m.below whole.1
                (sym (stepped c cs reads buffer status loc (marks kind status) loc' p t) ∙ e))
      ]

  get_location-Came :
      (reads : List Bytes) (buffer : Bytes) (loc : Location Value)
      → All Parses (buffers buffer reads)
      → ((out : Bytes × Location Value) × (get_location R reads buffer loc ≡ some out))
        ↔ (Came nmea_gprmc (buffers buffer reads) × Came nmea_gpgga (buffers buffer reads))
  unfolding get_location
  get_location-Came reads buffer loc whole = (
    λ r. both (
        returned-Ready reads buffer nmea_empty (record loc { status = b'I' }) r.0 (omega arith)
          whole r.1),
    λ c.
        Ready-returns reads buffer nmea_empty (record loc { status = b'I' }) (omega arith) whole
          (inr c.0, inr c.1),
  )
    where
      both :
          Ready nmea_empty (buffers buffer reads)
          → Came nmea_gprmc (buffers buffer reads) × Came nmea_gpgga (buffers buffer reads)
      both (inl r, g) = absurd (omega arith)
      both (inr r, inl g) = absurd (omega arith)
      both (inr r, inr g) = (r, g)

  -- Where no sentence breaks off in the middle, the loop ends exactly when, among the sentences that the
  -- reads leave in the buffer, one of each of the two kinds has come, with the name of its kind in it and
  -- with the sum that the check of the serial lines accepts; one with both names counts as GNGGA.
  pub get_location_lem :
      (reads : List Bytes) (buffer : Bytes) (loc : Location Value)
      → All Parses (buffers buffer reads)
      → ((out : Bytes × Location Value) × (get_location R reads buffer loc ≡ some out))
        ↔ (Arrives IsRmc (buffers buffer reads) × Arrives IsGga (buffers buffer reads))
  get_location_lem reads buffer loc whole =
      let (there, back) = get_location-Came reads buffer loc whole in
      let rmc = Arrives-map (λ b. (kind-IsRmc b).0) in
      let gga = Arrives-map (λ b. (kind-IsGga b).0) in
      (
        λ r. let (x, y) = there r in (rmc _ x, gga _ y),
        λ k.
            back (
              Arrives-map (λ b. (kind-IsRmc b).1) _ k.0,
              Arrives-map (λ b. (kind-IsGga b).1) _ k.1,
            ),
      )
