-- ===== src/ControlUnit/Tests.antt =====
-- The driver board at concrete lines.
use solarbot_update.Base.{
  ◌≡◌, refl, codes, some, pos, negsuc, ◌++◌, ◌∷◌, [], true, false, replicate, ◌≤◌, ◌+◌, arith,
  length, List,
}
use solarbot_update.Text.{print_int}
use solarbot_update.Serial.{verify_checksum, seal, arrived, timed_out, invalid_frame, read_timeout}
use solarbot_update.Text.Decimal.{fields_text}
use solarbot_update.ControlUnit
use solarbot_update.ControlUnit.{
  ControlUnit, DriverData, command_line, arm_line, real_read, direct_write, print_int,
}
use solarbot_update.ControlUnit.Commands.{
  command_line_lem, calls, Call, without_writes, calls-remote_controller_write,
}
use solarbot_update.ControlUnit.Reports.{real_read-report, report_text}
use solarbot_update.ControlUnit.Errors.{real_read_error, Unchanged, Cause}

abbrev pub idle : DriverData
idle = record {
  status = pos 0;
  id_frame = 0;
  left_speed_pulses = pos 0;
  right_speed_pulses = pos 0;
  left_alarm = false;
  right_alarm = false;
  remote_controlled = false;
  last_update = 0;
}

abbrev pub opened : ControlUnit
opened = record {
  report = idle;
  remote_controller_activate = false;
  rx_buffer = replicate 32 0;
  sent = [];
}

abbrev turning : DriverData
turning = record idle {
  id_frame = 7;
  left_speed_pulses = pos 120;
  right_speed_pulses = negsuc 119;
  right_alarm = true;
}

report_line : seal (36 ∷ report_text turning) ≡ codes "$C01,7,120,-120,0,1,0*69" ++ 10 ∷ []
unfolding seal fields_text
report_line = refl

command_line_lem_example :
    (verify_checksum 32 (command_line (pos 150) (negsuc 149) ++ 0 ∷ []) ≡ some (pos 0))
    × (length (command_line (pos 150) (negsuc 149)) + 1 ≤ 32)
    × (length (arm_line (negsuc 32767) (pos 32767)) + 1 ≤ 32)
command_line_lem_example =
    command_line_lem (pos 150) (negsuc 149) (negsuc 32767) (pos 32767) (0 ∷ []) (omega arith)
      (omega arith) (omega arith) (omega arith)

report_length : length (report_text turning) ≤ 24
unfolding fields_text
report_length = omega arith

real_read-report_example :
    (u' : ControlUnit) × (real_read (arrived (seal (36 ∷ report_text turning))) 1500 opened
      ≡ some (u', pos 0))
    × (u'.report ≡ record turning { status = pos 0; last_update = 1500 })
    × (u'.sent ≡ [])
    × (u'.remote_controller_activate ≡ false)
real_read-report_example =
    real_read-report 1500 opened turning (omega arith) (omega arith) (omega arith) report_length

abbrev short : ControlUnit
short = record opened {
  report = record idle { status = invalid_frame };
  rx_buffer = 36 ∷ 71 ∷ 10 ∷ replicate 29 0;
}

short_line : real_read (arrived (36 ∷ 71 ∷ 10 ∷ [])) 1500 opened ≡ some (short, invalid_frame)
unfolding real_read ControlUnit.receive_line
short_line = refl

real_read_error_example :
    Cause (arrived (36 ∷ 71 ∷ 10 ∷ [])) opened invalid_frame
    × (short.report.status ≡ invalid_frame)
    × Unchanged opened short
real_read_error_example =
    real_read_error (arrived (36 ∷ 71 ∷ 10 ∷ [])) 1500 opened short 21 short_line

abbrev driven : ControlUnit
driven = record opened {
  report = record idle { status = read_timeout };
  remote_controller_activate = true;
  sent = codes "$CMD,5,-5*67" ++ 10 ∷ [];
}

remote_drives :
    ControlUnit.remote_controller_write timed_out 9 (pos 5) (negsuc 4) opened
    ≡ some (driven, read_timeout)
unfolding ControlUnit.remote_controller_write direct_write real_read command_line print_int seal
remote_drives = refl

abbrev later_calls : List Call
later_calls = Call.write timed_out 10 (pos 90) (pos 90) ∷ Call.write_arm (pos 3) (pos 4) ∷ []

calls-remote_controller_write_example :
    (driven.sent ≡ [] ++ command_line (pos 5) (negsuc 4))
    × (calls later_calls driven ≡ calls (without_writes later_calls) driven)
calls-remote_controller_write_example =
    calls-remote_controller_write timed_out 9 (pos 5) (negsuc 4) opened driven read_timeout
      later_calls remote_drives tt
