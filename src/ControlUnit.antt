-- ===== src/ControlUnit.antt =====
-- solarbot/ControlUnit.cpp and ControlUnit.h: the driver board of the two motors, its commands and its
-- reports. The speeds in m/s, the pulses times a constant, are left out, and so are the locks.
pub mod Commands
pub mod Reports
pub mod Errors
pub mod Tests
use solarbot_update.Base.{
  ℕ, ◌+◌, ◌-◌, Bool, true, false, Option, none, some, List, [], ◌∷◌, ◌++◌, Bytes, length, set,
  codes, ltb, if◌then◌else◌, ℤ, pos, negsuc, to_byte, is_one, is_zero, to_int,
}
use solarbot_update.Text.{starts_with, read_fields, print_int, ◌>>=◌}
use solarbot_update.Serial.{
  Wait, failed, unread, timed_out, arrived, read_into, verify_checksum, seal, read_error,
  read_timeout, invalid_frame,
}

pub record DriverData : Type 0 where
  pub status : ℤ
  pub id_frame : ℕ
  pub left_speed_pulses : ℤ
  pub right_speed_pulses : ℤ
  pub left_alarm : Bool
  pub right_alarm : Bool
  pub remote_controlled : Bool
  -- In milliseconds.
  pub last_update : ℕ

pub record ControlUnit : Type 0 where
  pub report : DriverData
  pub remote_controller_activate : Bool
  pub rx_buffer : Bytes
  -- What was written to the port so far.
  pub sent : Bytes

abbrev pub port_rx_buffer_size : ℕ
port_rx_buffer_size = 32

unfoldable pub store_report : ℕ → DriverData → List ℤ → DriverData
store_report now d (id ∷ left ∷ right ∷ left_alarm ∷ right_alarm ∷ remote ∷ []) = record d {
  id_frame = to_byte id;
  left_speed_pulses = to_int left;
  right_speed_pulses = to_int right;
  left_alarm = is_one (to_int left_alarm);
  right_alarm = is_one (to_int right_alarm);
  remote_controlled = is_one (to_int remote);
  last_update = now;
}
store_report now d fields = d

-- A line whose checksum is right. Of a line $A01 the numbers are only printed.
unfoldable pub handle_line : ℕ → Bytes → DriverData → Option DriverData
unfolding starts_with store_report
handle_line now buffer d =
    if starts_with (codes "$C01") buffer
    then (do fields ← read_fields 6 buffer; some (store_report now d fields))
    else if starts_with (codes "$A01") buffer
    then (do fields ← read_fields 4 buffer; some d)
    else some d

-- A line of more than four bytes. An error that the driver notifies is printed only.
unfoldable pub handle_buffer : ℕ → Bytes → DriverData → Option (DriverData × ℤ)
unfolding starts_with
handle_buffer now buffer d =
    if starts_with (codes "$ER") buffer
    then some (d, pos 0)
    else verify_checksum port_rx_buffer_size buffer >>= λ (result : ℤ).
        if is_zero result
        then (do d' ← handle_line now buffer d; some (d', result))
        else some (d, result)

-- The bytes of one `read`, and a zero behind them.
unfoldable pub take_bytes : ℕ → Bytes → ControlUnit → Option (ControlUnit × ℤ)
take_bytes now bytes u =
    let buffer = set (read_into u.rx_buffer bytes) (length bytes) 0 in
    if ltb 4 (length bytes)
    then (do
      (d, result) ← handle_buffer now buffer u.report
      some (record u { rx_buffer = buffer; report = d }, result))
    else some (record u { rx_buffer = buffer }, invalid_frame)

-- Where the bytes fill the buffer, the zero is written behind it: `none`.
unfoldable pub receive_line : ℕ → Bytes → ControlUnit → Option (ControlUnit × ℤ)
unfolding take_bytes
receive_line now bytes u =
    if ltb (length bytes) port_rx_buffer_size then take_bytes now bytes u else none

unfoldable pub set_status : ControlUnit × ℤ → ControlUnit × ℤ
set_status (u, result) = (record u { report = record u.report { status = result } }, result)

-- A failed `read` makes the program write its zero at the index -1: `none`.
unfoldable pub real_read : Wait → ℕ → ControlUnit → Option (ControlUnit × ℤ)
unfolding set_status
real_read unread now u = none
real_read failed now u = some (set_status (u, read_error))
real_read timed_out now u = some (set_status (u, read_timeout))
real_read (arrived bytes) now u = do outcome ← receive_line now bytes u; some (set_status outcome)

unfoldable pub write_port : Bytes → ControlUnit → ControlUnit
write_port bytes u = record u { sent = u.sent ++ bytes }

-- The line of a command for the motors.
unfoldable pub command_line : ℤ → ℤ → Bytes
command_line left right = seal (codes "$CMD," ++ (print_int left ++ (b',' ∷ print_int right)))

unfoldable pub direct_write : Wait → ℕ → ℤ → ℤ → ControlUnit → Option (ControlUnit × ℤ)
unfolding write_port set_status
direct_write wait now left right u = do
  outcome ← real_read wait now (write_port (command_line left right) u)
  some (set_status outcome)

unfoldable pub write : Wait → ℕ → ℤ → ℤ → ControlUnit → Option (ControlUnit × ℤ)
write wait now left right u =
    if u.remote_controller_activate then some (u, pos 0) else direct_write wait now left right u

unfoldable pub remote_controller_write : Wait → ℕ → ℤ → ℤ → ControlUnit → Option (ControlUnit × ℤ)
remote_controller_write wait now left right u =
    direct_write wait now left right (record u { remote_controller_activate = true })

-- The line of a command for the arm of the camera.
unfoldable pub arm_line : ℤ → ℤ → Bytes
arm_line vertical horizontal =
    seal (codes "$CAM,0," ++ (print_int vertical ++ (b',' ∷ print_int horizontal)))

unfoldable pub write_arm : ℤ → ℤ → ControlUnit → Option (ControlUnit × ℤ)
unfolding write_port
write_arm vertical horizontal u = some (write_port (arm_line vertical horizontal) u, pos 0)

abbrev pub get_line : Bytes
get_line = codes "$GET*56" ++ 10 ∷ []

-- `free`: the lock for writing was free. The board is asked when its last report is older than 800 ms.
unfoldable pub read : Bool → Wait → ℕ → ControlUnit → Option (ControlUnit × ℤ)
unfolding write_port
read free wait now u =
    if ltb 800 (now - u.report.last_update)
    then real_read wait now (if free then write_port get_line u else u)
    else some (u, pos 0)
