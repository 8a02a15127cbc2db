-- ===== src/Gps/Sentences.antt =====
-- The sentences that nmea_get_message_type tells apart.
use solarbot_update.Base.{
  [], refl, ◌-◌, if◌then◌else◌, ◌==◌, ℕ, Option, Bytes, Bool, ◌≡◌, ◌↔◌, pos, codes, some, true,
  false, arith, ◌∙◌, ◌∷◌, ap, none, ℤ, to_byte,
}
use solarbot_update.Text.{hex_ends, strtol_hex, contains, ◌>>=◌, >>=-eq-some}
use solarbot_update.Serial.{invalid_checksum, scan, verify_checksum, invalid_checksum}
use solarbot_update.Gps.{
  nmea_valid_checksum, nmea_get_message_type, serial_port_rx_buffer_size, nmea_empty, nmea_gpgga,
  nmea_gprmc, nmea_checksum_err, nmea_unknown,
}

-- The check of the serial lines accepts the sum.
abbrev pub HasRightSum : Bytes → Type 0
HasRightSum b = verify_checksum serial_port_rx_buffer_size b ≡ some (pos 0)

abbrev pub IsGga : Bytes → Type 0
IsGga b = HasRightSum b × (contains (codes "$GNGGA") b ≡ true)

abbrev pub IsRmc : Bytes → Type 0
IsRmc b =
    HasRightSum b × (contains (codes "$GNGGA") b ≡ false) × (contains (codes "$GNRMC") b ≡ true)

valid-HasRightSum : (b : Bytes) → (nmea_valid_checksum b ≡ some nmea_empty) ↔ HasRightSum b
unfolding nmea_valid_checksum verify_checksum
valid-HasRightSum [] = (λ e. absurd (ground (arith, e)), λ e. absurd (ground (arith, e)))
valid-HasRightSum (start ∷ message) = decide (scan (serial_port_rx_buffer_size - 8) 0 message)
  where
    by_sum :
        (ends right : Bool)
        → (◌≡◌ {A = Option ℕ}
            (if ends then some (if right then nmea_empty else nmea_checksum_err) else none)
            (some nmea_empty))
          ↔ (◌≡◌ {A = Option ℤ}
              (if ends then some (if right then pos 0 else invalid_checksum) else none)
              (some (pos 0)))
    by_sum true true = (λ e. refl, λ e. refl)
    by_sum true false = (λ e. absurd (ground (arith, e)), λ e. absurd (ground (arith, e)))
    by_sum false right = (λ e. absurd (ground (arith, e)), λ e. absurd (ground (arith, e)))

    decide :
        (scanned : Option (ℕ × Bytes))
        → (◌>>=◌ {B = ℕ} scanned (λ x.
              if hex_ends x.1
              then some (if x.0 == to_byte (strtol_hex x.1) then nmea_empty else nmea_checksum_err)
              else none)
            ≡ some nmea_empty)
          ↔ (◌>>=◌ {B = ℤ} scanned (λ x.
                if hex_ends x.1
                then some (if x.0 == to_byte (strtol_hex x.1) then pos 0 else invalid_checksum)
                else none)
              ≡ some (pos 0))
    decide none = (λ e. absurd (ground (arith, e)), λ e. absurd (ground (arith, e)))
    decide (some (sum, rest)) = by_sum (hex_ends rest) (sum == to_byte (strtol_hex rest))

-- What the names make of a sentence.
abbrev kind_of : ℕ → Bool → Bool → ℕ
kind_of valid gga rmc =
    if valid == nmea_empty
    then (if gga then nmea_gpgga else if rmc then nmea_gprmc else nmea_unknown)
    else nmea_checksum_err

kind_of-gga :
    (valid : ℕ) (gga rmc : Bool)
    → kind_of valid gga rmc ≡ nmea_gpgga
    → (valid ≡ nmea_empty) × (gga ≡ true)
kind_of-gga valid gga rmc e = ground (arith, e)

kind_of-rmc :
    (valid : ℕ) (gga rmc : Bool)
    → kind_of valid gga rmc ≡ nmea_gprmc
    → (valid ≡ nmea_empty) × (gga ≡ false) × (rmc ≡ true)
kind_of-rmc valid gga rmc e = ground (arith, e)

injected : (a b : ℕ) → ◌≡◌ {A = Option ℕ} (some a) (some b) → a ≡ b
injected a b e = ground (arith, e)

typed :
    (b : Bytes) (kind : ℕ)
    → nmea_get_message_type b ≡ some kind
    → (valid : ℕ) × (nmea_valid_checksum b ≡ some valid)
      × (kind_of valid (contains (codes "$GNGGA") b) (contains (codes "$GNRMC") b) ≡ kind)
unfolding nmea_get_message_type
typed b kind e =
    let (valid, summed, named) = >>=-eq-some (nmea_valid_checksum b) _ e in
    (valid, summed, injected _ kind named)

pub kind-IsGga : (b : Bytes) → (nmea_get_message_type b ≡ some nmea_gpgga) ↔ IsGga b
unfolding nmea_get_message_type
kind-IsGga b = (
  λ e.
      let (valid, summed, named) = typed b nmea_gpgga e in
      let (right, gga) =
        kind_of-gga valid (contains (codes "$GNGGA") b) (contains (codes "$GNRMC") b) named in
      ((valid-HasRightSum b).0 (summed ∙ ap some right), gga),
  λ h. rw ((valid-HasRightSum b).1 h.0) (rw (h.1) refl),
)

pub kind-IsRmc : (b : Bytes) → (nmea_get_message_type b ≡ some nmea_gprmc) ↔ IsRmc b
unfolding nmea_get_message_type
kind-IsRmc b = (
  λ e.
      let (valid, summed, named) = typed b nmea_gprmc e in
      let (right, gga, rmc) =
        kind_of-rmc valid (contains (codes "$GNGGA") b) (contains (codes "$GNRMC") b) named in
      ((valid-HasRightSum b).0 (summed ∙ ap some right), gga, rmc),
  λ h. rw ((valid-HasRightSum b).1 h.0) (rw (h.1) (rw (h.2) refl)),
)
