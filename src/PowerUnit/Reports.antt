-- ===== src/PowerUnit/Reports.antt =====
-- What a call of PowerUnit::Read leaves behind.
use solarbot_update.Base.{
  ℕ, ◌≤◌, ◌<◌, ◌≡◌, ◌≢◌, refl, sym, ap, ◌∙◌, arith, Bool, some, List, [], ◌∷◌, ◌++◌, Bytes, All,
  IsByte, length, drop, if◌then◌else◌, ℤ, pos, negsuc, lt→ltb, append_assoc, to_short, All-append,
  length-append, IsInt, to_int-IsInt,
}
use solarbot_update.Text.{read_fields, comma, hex_text, ◌>>=◌}
use solarbot_update.Text.Decimal.{fields_text, fields_text-All, read_fields-fields_text, Lacks}
use solarbot_update.Serial.{arrived, verify_checksum, seal, read_into, checksum}
use solarbot_update.Serial.Checksum.{seal_shape, verify_checksum-seal}
use solarbot_update.PowerUnit.{
  PowerUnit, PowerUnitData, store_report, handle_buffer, receive_line, read_line, read, await,
  cmd_reset, cmd_ok_accessories_on, port_rx_buffer_size, set_status,
}

-- A line that the loop passes over.
abbrev pub IsComment : Bytes → Type 0
IsComment [] = ⊥
IsComment (c ∷ cs) = (c ≡ b'#') × (0 < length cs)

-- What the buffer holds after some lines came one after another.
abbrev pub read_all : Bytes → List Bytes → Bytes
read_all buffer [] = buffer
read_all buffer (line ∷ lines) = read_all (read_into buffer line) lines

read_line-IsComment :
    (comments : List Bytes) (c : ℕ) (cs buffer : Bytes) (later : List Bytes)
    → All IsComment comments
    → c ≢ b'#'
    → read_line (comments ++ (c ∷ cs) ∷ later) buffer
      ≡ some (c ∷ cs, read_into (read_all buffer comments) (c ∷ cs))
unfolding read_line
read_line-IsComment [] c cs buffer later h n = ground arith
read_line-IsComment ([] ∷ comments) c cs buffer later h n = absurd h.0
read_line-IsComment ((x ∷ xs) ∷ comments) c cs buffer later h n =
    ground (arith, read_line-IsComment comments c cs (read_into buffer (x ∷ xs)) later h.1 n)

abbrev pub IsShort : ℤ → Type 0
IsShort (pos n) = n < 32768
IsShort (negsuc n) = n < 32768

to_short-IsShort : (z : ℤ) → IsShort z → to_short z ≡ z
to_short-IsShort (pos n) h = ground arith
to_short-IsShort (negsuc n) h = ground arith

-- Values that a report can hold.
abbrev pub Fits : PowerUnitData → Type 0
Fits d =
    (d.id_frame < 256)
    × IsInt d.panel_voltage
    × IsInt d.battery_voltage
    × IsShort d.panel_power
    × IsShort d.battery_power
    × IsShort d.electronic_power
    × IsShort d.left_power
    × IsShort d.right_power
    × IsShort d.accessories_power

-- The numbers of a report.
abbrev pub report_fields : PowerUnitData → List ℤ
report_fields d =
    pos d.id_frame
    ∷ d.panel_voltage
    ∷ d.battery_voltage
    ∷ d.panel_power
    ∷ d.battery_power
    ∷ d.electronic_power
    ∷ d.left_power
    ∷ d.right_power
    ∷ d.accessories_power
    ∷ (if d.stop_pressed then pos 1 else pos 0)
    ∷ []

store_report-report_fields :
    (d new : PowerUnitData)
    → Fits new
    → store_report d (report_fields new) ≡ record new { status = d.status }
unfolding store_report
store_report-report_fields d new
      (h, panel_v, battery_v, panel, battery, electronic, left, right, accessories) =
    ground (
      arith,
      to_int-IsInt new.panel_voltage panel_v,
      to_int-IsInt new.battery_voltage battery_v,
      to_short-IsShort new.panel_power panel,
      to_short-IsShort new.battery_power battery,
      to_short-IsShort new.electronic_power electronic,
      to_short-IsShort new.left_power left,
      to_short-IsShort new.right_power right,
      to_short-IsShort new.accessories_power accessories,
    )

-- A character of the name of a report.
abbrev pub IsName : ℕ → Type 0
IsName c = (c < 256) × (c ≢ b'*') × Lacks comma c

abbrev pub report_text : Bytes → PowerUnitData → Bytes
report_text name new = name ++ fields_text (report_fields new)

All-map {ℓ κ} :
    (P : ℕ → Type ℓ) (Q : ℕ → Type κ) (xs : Bytes) → ((c : ℕ) → P c → Q c) → All P xs → All Q xs
All-map P Q [] f h = tt
All-map P Q (x ∷ xs) f h = (f x h.0, All-map P Q xs f h.1)

handle_buffer-report :
    (name : Bytes) (d new : PowerUnitData) (rest : Bytes)
    → All IsName name
    → Fits new
    → length (report_text name new) ≤ 92
    → handle_buffer (seal (b'$' ∷ report_text name new) ++ rest) d
      ≡ some (record new { status = d.status }, pos 0)
unfolding handle_buffer
handle_buffer-report name d new rest hn hf le =
    let body = report_text name new in
    let closing = b'*' ∷ (hex_text (checksum body ∷ []) ++ (10 ∷ rest)) in
    let verified : verify_checksum port_rx_buffer_size (b'$' ∷ (body ++ closing)) ≡ some (pos 0) =
      ap (verify_checksum port_rx_buffer_size) (sym (seal_shape b'$' body rest))
      ∙ verify_checksum-seal port_rx_buffer_size b'$' body rest
          (All-append (λ c. c ≢ b'*') name _ (All-map IsName _ name (λ c h. h.1) hn)
            (fields_text-All _ (λ c h. omega arith) (omega arith) (omega arith)
              (report_fields new)))
          (All-append IsByte name _ (All-map IsName _ name (λ c h. h.0) hn) (
            fields_text-All _ (λ c h. omega arith) (omega arith) (omega arith) (report_fields new)))
          le in
    let fields : read_fields 10 (b'$' ∷ (body ++ closing)) ≡ some (report_fields new) =
      ap (λ (l : Bytes). read_fields 10 (b'$' ∷ l))
        (append_assoc name (fields_text (report_fields new)) closing)
      ∙ read_fields-fields_text (report_fields new) (b'$' ∷ name) closing
          ((λ e. omega arith, λ e. omega arith), All-map IsName _ name (λ c h. h.2) hn) refl in
    rw (seal_shape b'$' body rest) (
      rw verified (
        rw fields
          (ap (λ (r : PowerUnitData). some (r, pos 0)) (store_report-report_fields d new hf))))

longer : (xs ys : Bytes) → 4 < length xs → 4 < length (xs ++ ys)
longer xs ys h = omega (arith, length-append xs ys)

receive_line-handle_buffer :
    (c : ℕ) (cs : Bytes) (comments later : List Bytes) (u : PowerUnit) (d : PowerUnitData)
    (result : ℤ)
    → All IsComment comments
    → c ≢ b'#'
    → 4 < length (c ∷ cs)
    → handle_buffer ((c ∷ cs) ++ drop (length (c ∷ cs)) (read_all u.rx_buffer comments)) u.report
      ≡ some (d, result)
    → receive_line (comments ++ (c ∷ cs) ∷ later) u
      ≡ some (
        record u { rx_buffer = read_into (read_all u.rx_buffer comments) (c ∷ cs); report = d },
        result,
      )
unfolding receive_line
receive_line-handle_buffer c cs comments later u d result h n le e =
    rw (read_line-IsComment comments c cs u.rx_buffer later h n) (rw (lt→ltb _ _ le) (rw e refl))

long_enough : (name : Bytes) (new : PowerUnitData) → 4 < length (seal (b'$' ∷ report_text name new))
unfolding seal
long_enough name new = longer_tail (report_text name new) _ _ _
  where
    longer_tail : (xs : Bytes) (a b c : ℕ) → 4 < length (b'$' ∷ (xs ++ b'*' ∷ a ∷ b ∷ c ∷ []))
    longer_tail xs a b c = omega (arith, length-append xs (b'*' ∷ a ∷ b ∷ c ∷ []))

-- A call ends with the report in the state and the status 0 when the board, whatever comment lines it
-- sends first, sends a report with the right checksum, of at most 92 bytes between `$` and `*`, with numbers that the
-- program can hold (a byte for the id, an `int` for a voltage, 16 bits for a power). The
-- program has sent one command, which resets the motors exactly when it is asked to.
pub read-report :
    (reset_motors : Bool) (name : Bytes) (comments later : List Bytes) (u : PowerUnit)
    (new : PowerUnitData) (first : Bytes) (others : List Bytes)
    → All IsComment comments
    → All IsName name
    → Fits new
    → length (report_text name new) ≤ 92
    → first ∷ others ≡ comments ++ seal (b'$' ∷ report_text name new) ∷ later
    → (u' : PowerUnit) × (read reset_motors (arrived first) others u ≡ some (u', pos 0))
      × (u'.report ≡ record new { status = pos 0 })
      × (u'.sent ≡ u.sent ++ (if reset_motors then cmd_reset else cmd_ok_accessories_on))
unfolding read await seal
read-report reset_motors name comments later u new first others hc hn hf le e =
    let v = record u {
      sent = u.sent ++ (if reset_motors then cmd_reset else cmd_ok_accessories_on);
    } in
    let held = read_all u.rx_buffer comments in
    let line = seal (b'$' ∷ report_text name new) in
    let taken =
      receive_line-handle_buffer b'$' (drop 1 line) comments later v _ _ hc (λ e. omega arith)
        (long_enough name new)
        (handle_buffer-report name u.report new (drop (length line) held) hn hf le) in
    (
      _,
      ap (λ o. o >>= λ outcome. some (set_status outcome)) (ap (λ ls. receive_line ls v) e ∙ taken),
      refl,
      refl,
    )
