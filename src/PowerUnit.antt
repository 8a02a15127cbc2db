-- ===== src/PowerUnit.antt =====
-- solarbot/PowerUnit.cpp and PowerUnit.h: the board that feeds the rover, its report and the commands
-- that ask for it. A voltage is kept as the number of the line, which counts tenths of a volt.
pub mod Reports
pub mod Tests
use solarbot_update.Base.{
  ℕ, ◌+◌, Bool, true, false, ◌&&◌, Option, none, some, List, [], ◌∷◌, ◌++◌, Bytes, length, get_or,
  codes, ltb, ◌==◌, if◌then◌else◌, ℤ, pos, negsuc, to_byte, to_short, is_one, is_zero, to_int,
}
use solarbot_update.Text.{read_fields, ◌>>=◌}
use solarbot_update.Serial.{
  Wait, failed, unread, timed_out, arrived, read_into, verify_checksum, read_error, read_timeout,
  checksum_error, invalid_frame,
}

pub record PowerUnitData : Type 0 where
  pub status : ℤ
  pub id_frame : ℕ
  pub panel_voltage : ℤ
  pub battery_voltage : ℤ
  pub panel_power : ℤ
  pub battery_power : ℤ
  pub electronic_power : ℤ
  pub left_power : ℤ
  pub right_power : ℤ
  pub accessories_power : ℤ
  pub stop_pressed : Bool

pub record PowerUnit : Type 0 where
  pub report : PowerUnitData
  pub rx_buffer : Bytes
  pub sent : Bytes

abbrev pub port_rx_buffer_size : ℕ
port_rx_buffer_size = 100

unfoldable pub store_report : PowerUnitData → List ℤ → PowerUnitData
store_report d
      (id ∷ panel_v ∷ battery_v ∷ panel ∷ battery ∷ electronic ∷ left ∷ right ∷ accessories ∷ stop
        ∷ []) =
    record d {
      id_frame = to_byte id;
      panel_voltage = to_int panel_v;
      battery_voltage = to_int battery_v;
      panel_power = to_short panel;
      battery_power = to_short battery;
      electronic_power = to_short electronic;
      left_power = to_short left;
      right_power = to_short right;
      accessories_power = to_short accessories;
      stop_pressed = is_one (to_int stop);
    }
store_report d fields = d

-- The reads of one call, comment lines passed over: the last of them and the buffer behind it.
-- `none` while the port still has to bring a line.
unfoldable pub read_line : List Bytes → Bytes → Option (Bytes × Bytes)
read_line [] buffer = none
read_line (bytes ∷ later) buffer =
    let buffer' = read_into buffer bytes in
    let rest = read_line later buffer' in
    if ltb 1 (length bytes) && get_or buffer' 0 0 == b'#' then rest else some (bytes, buffer')

-- A line of more than four bytes.
unfoldable pub handle_buffer : Bytes → PowerUnitData → Option (PowerUnitData × ℤ)
handle_buffer buffer d = verify_checksum port_rx_buffer_size buffer >>= λ (result : ℤ).
    if is_zero result
    then (do fields ← read_fields 10 buffer; some (store_report d fields, pos 0))
    else some (d, checksum_error)

unfoldable pub receive_line : List Bytes → PowerUnit → Option (PowerUnit × ℤ)
receive_line lines u = read_line lines u.rx_buffer >>= λ (got : Bytes × Bytes).
    if ltb 4 (length got.0)
    then (do
      (d, result) ← handle_buffer got.1 u.report
      some (record u { rx_buffer = got.1; report = d }, result))
    else some (record u { rx_buffer = got.1 }, invalid_frame)

-- The command that resets the motors, and the one that keeps the accessories on.
abbrev pub cmd_reset : Bytes
cmd_reset = codes "$CMD,0,1*4B" ++ 10 ∷ []

abbrev pub cmd_ok_accessories_on : Bytes
cmd_ok_accessories_on = codes "$CMD,1,0*4B" ++ 10 ∷ []

abbrev set_status : PowerUnit × ℤ → PowerUnit × ℤ
set_status (u, result) = (record u { report = record u.report { status = result } }, result)

unfoldable pub await : Wait → List Bytes → PowerUnit → Option (PowerUnit × ℤ)
await unread later u = some (u, invalid_frame)
await failed later u = some (u, read_error)
await timed_out later u = some (u, read_timeout)
await (arrived bytes) later u = receive_line (bytes ∷ later) u

-- `later` holds what the further reads of this call bring.
unfoldable pub read : Bool → Wait → List Bytes → PowerUnit → Option (PowerUnit × ℤ)
read reset_motors wait later u = do
  outcome ←
      await wait later
        (record u { sent = u.sent ++ (if reset_motors then cmd_reset else cmd_ok_accessories_on) })
  some (set_status outcome)
