-- ===== src/Solarbot/Controller.antt =====
-- solarbot/Solarbot.cpp: ReadRxControllerThread, which drives by the frames of the remote controller.
use solarbot_update.Base.{ℕ, Option, some, ◌==◌, if◌then◌else◌, ℤ, false}
use solarbot_update.Text.{◌>>=◌}
use solarbot_update.Serial.{Wait}
use solarbot_update.ControlUnit.{ControlUnit, remote_controller_write}

-- The fields of a frame that the thread reads.
pub record ControlFrame : Type 0 where
  pub left_speed : ℤ
  pub right_speed : ℤ
  pub command : ℕ
  pub value : ℕ

-- One frame; `wait` and `now` are for the report of the driver that the command waits for.
unfoldable pub take_control : Wait → ℕ → ControlFrame → ControlUnit → Option ControlUnit
take_control wait now f u =
    if f.command == 0x7302
    then (if f.value == 1
        then (do
          (u', result) ← remote_controller_write wait now f.left_speed f.right_speed u
          some u')
        else some (record u { remote_controller_activate = false }))
    else some u
