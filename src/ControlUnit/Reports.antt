-- ===== src/ControlUnit/Reports.antt =====
-- The reports of the driver: RealRead.
use solarbot_update.Base.{
  ℕ, ◌≤◌, ◌<◌, ◌≡◌, ◌≢◌, refl, sym, ap, ◌∙◌, arith, Bool, some, List, [], ◌∷◌, ◌++◌, Bytes, All,
  IsByte, length, drop, set, codes, if◌then◌else◌, ℤ, pos, set-append_right, lt→ltb, length-append,
  IsInt, to_int-IsInt,
}
use solarbot_update.Text.{◌>>=◌, hex_text}
use solarbot_update.Text.Decimal.{fields_text, fields_text-All, read_fields-fields_text}
use solarbot_update.Serial.{arrived, verify_checksum, seal, read_into, checksum}
use solarbot_update.Serial.Checksum.{seal_shape, verify_checksum-seal}
use solarbot_update.ControlUnit.{
  ControlUnit, DriverData, store_report, handle_line, handle_buffer, receive_line, set_status,
  real_read, port_rx_buffer_size,
}

abbrev pub flag : Bool → ℤ
flag b = if b then pos 1 else pos 0

-- The numbers of a report.
abbrev pub report_fields : DriverData → List ℤ
report_fields d =
    pos d.id_frame
    ∷ d.left_speed_pulses
    ∷ d.right_speed_pulses
    ∷ flag d.left_alarm
    ∷ flag d.right_alarm
    ∷ flag d.remote_controlled
    ∷ []

-- The line of a report, behind its `$`.
abbrev pub report_text : DriverData → Bytes
report_text d = codes "C01" ++ fields_text (report_fields d)

report_text-All {ℓ} :
    (P : ℕ → Type ℓ) (below : (c : ℕ) → 43 ≤ c → c < 128 → P c) (d : DriverData)
    → All P (report_text d)
report_text-All P below d = (
  below 67 (omega arith) (omega arith),
  (
    below 48 (omega arith) (omega arith),
    (
      below 49 (omega arith) (omega arith),
      fields_text-All P (λ c h. below c (omega arith) (omega arith))
          (below 45 (omega arith) (omega arith)) (below 44 (omega arith) (omega arith))
          (report_fields d),
    ),
  ),
)

store_report-report_fields :
    (now : ℕ) (d new : DriverData)
    → new.id_frame < 256
    → IsInt new.left_speed_pulses
    → IsInt new.right_speed_pulses
    → store_report now d (report_fields new) ≡ record new { status = d.status; last_update = now }
unfolding store_report
store_report-report_fields now d new h left right =
    ground
      (arith, to_int-IsInt new.left_speed_pulses left, to_int-IsInt new.right_speed_pulses right)

handle_line-report :
    (now : ℕ) (d new : DriverData) (rest : Bytes)
    → new.id_frame < 256
    → IsInt new.left_speed_pulses
    → IsInt new.right_speed_pulses
    → handle_line now (b'$' ∷ (report_text new ++ b'*' ∷ rest)) d
      ≡ some (record new { status = d.status; last_update = now })
unfolding handle_line
handle_line-report now d new rest h left right =
    rw
      (read_fields-fields_text (report_fields new) (codes "$C01") (b'*' ∷ rest) (ground arith) refl)
      (ap some (store_report-report_fields now d new h left right))

handle_buffer-report :
    (now : ℕ) (d new : DriverData) (rest : Bytes)
    → new.id_frame < 256
    → IsInt new.left_speed_pulses
    → IsInt new.right_speed_pulses
    → length (report_text new) ≤ 24
    → handle_buffer now (seal (b'$' ∷ report_text new) ++ rest) d
      ≡ some (record new { status = d.status; last_update = now }, pos 0)
unfolding handle_buffer
handle_buffer-report now d new rest h left right le =
    let line =
      b'$'
      ∷ (report_text new ++ b'*' ∷ (hex_text (checksum (report_text new) ∷ []) ++ (10 ∷ rest))) in
    let verified : verify_checksum port_rx_buffer_size line ≡ some (pos 0) =
      ap (verify_checksum port_rx_buffer_size) (sym (seal_shape b'$' (report_text new) rest))
      ∙ verify_checksum-seal port_rx_buffer_size b'$' (report_text new) rest
          (report_text-All (λ c. c ≢ b'*') (λ c l h. omega arith) new)
          (report_text-All IsByte (λ c l h. omega arith) new) le in
    rw (seal_shape b'$' (report_text new) rest) (
      rw verified (
        rw
          (handle_line-report now d new (hex_text (checksum (report_text new) ∷ []) ++ (10 ∷ rest))
            h left right)
          refl))

-- `read` brings a line into the buffer, and the zero stands behind it.
received :
    (line buffer : Bytes)
    → set (read_into buffer line) (length line) 0 ≡ line ++ set (drop (length line) buffer) 0 0
received line buffer = set-append_right line (drop (length line) buffer) 0

receive_line-handle_buffer :
    (now : ℕ) (line : Bytes) (u : ControlUnit) (d : DriverData) (result : ℤ)
    → 4 < length line
    → length line < port_rx_buffer_size
    → handle_buffer now (line ++ set (drop (length line) u.rx_buffer) 0 0) u.report
      ≡ some (d, result)
    → receive_line now line u
      ≡ some (
        record u { rx_buffer = set (read_into u.rx_buffer line) (length line) 0; report = d },
        result,
      )
unfolding receive_line
receive_line-handle_buffer now line u d result h fits e = rw (lt→ltb _ _ fits) (
    rw (lt→ltb _ _ h)
      (rw (ap (λ (b : Bytes). handle_buffer now b u.report) (received line u.rx_buffer) ∙ e) refl))

fits_buffer : (text : Bytes) → length text ≤ 24 → length (seal (b'$' ∷ text)) < port_rx_buffer_size
unfolding seal hex_text
fits_buffer text le = closed text _ _ le
  where
    closed :
        (xs : Bytes) (a b : ℕ)
        → length xs ≤ 24
        → length (b'$' ∷ (xs ++ b'*' ∷ a ∷ b ∷ 10 ∷ [])) < 32
    closed xs a b h = omega (arith, length-append xs (b'*' ∷ a ∷ b ∷ 10 ∷ []))

long_enough : (new : DriverData) → 4 < length (seal (b'$' ∷ report_text new))
unfolding seal
long_enough new = longer (fields_text (report_fields new)) _
  where
    longer : (xs ys : Bytes) → 4 < length (b'$' ∷ 67 ∷ 48 ∷ 49 ∷ (xs ++ b'*' ∷ ys))
    longer xs ys = omega (arith, length-append xs (b'*' ∷ ys))

-- A report of at most 24 bytes between `$` and `*`, with the right checksum, a byte for its id and an `int`
-- for each of its two numbers of pulses, brings its numbers, its alarms and the time of its arrival into the state, and the status says that all is well; what the
-- program has sent and whether the remote controller drives do not change.
pub real_read-report :
    (now : ℕ) (u : ControlUnit) (new : DriverData)
    → new.id_frame < 256
    → IsInt new.left_speed_pulses
    → IsInt new.right_speed_pulses
    → length (report_text new) ≤ 24
    → (u' : ControlUnit) × (real_read (arrived (seal (b'$' ∷ report_text new))) now u
        ≡ some (u', pos 0))
      × (u'.report ≡ record new { status = pos 0; last_update = now })
      × (u'.sent ≡ u.sent)
      × (u'.remote_controller_activate ≡ u.remote_controller_activate)
unfolding real_read
real_read-report now u new h left right le =
    let line = seal (b'$' ∷ report_text new) in
    let after_line = set (drop (length line) u.rx_buffer) 0 0 in
    let e =
      receive_line-handle_buffer now line u _ _ (long_enough new) (fits_buffer (report_text new) le)
        (handle_buffer-report now u.report new after_line h left right le) in
    (_, ap (λ o. o >>= λ outcome. some (set_status outcome)) e, refl, refl, refl)
