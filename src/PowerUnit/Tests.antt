-- ===== src/PowerUnit/Tests.antt =====
-- The power board at concrete lines.
use solarbot_update.Base.{
  ◌≡◌, refl, codes, pos, negsuc, ◌++◌, ◌∷◌, [], true, false, some, replicate, ◌≤◌, arith, Bytes,
  length,
}
use solarbot_update.Text.Decimal.{fields_text}
use solarbot_update.Serial.{seal, arrived}
use solarbot_update.PowerUnit.{PowerUnit, PowerUnitData, read, cmd_reset, cmd_ok_accessories_on}
use solarbot_update.PowerUnit.Reports.{read-report, report_text}

commands : (cmd_reset ≡ seal (codes "$CMD,0,1")) × (cmd_ok_accessories_on ≡ seal (codes "$CMD,1,0"))
unfolding seal
commands = (refl, refl)

abbrev idle : PowerUnitData
idle = record {
  status = pos 0;
  id_frame = 0;
  panel_voltage = pos 0;
  battery_voltage = pos 0;
  panel_power = pos 0;
  battery_power = pos 0;
  electronic_power = pos 0;
  left_power = pos 0;
  right_power = pos 0;
  accessories_power = pos 0;
  stop_pressed = false;
}

abbrev charging : PowerUnitData
charging = record idle {
  id_frame = 9;
  panel_voltage = pos 181;
  battery_voltage = pos 132;
  panel_power = pos 40;
  battery_power = negsuc 11;
  stop_pressed = true;
}

abbrev opened : PowerUnit
opened = record { report = idle; rx_buffer = replicate 101 0; sent = [] }

report_length : length (report_text (codes "PWR") charging) ≤ 92
unfolding fields_text
report_length = omega arith

abbrev started : Bytes
started = codes "#started"

read-report_example :
    (u' : PowerUnit) × (read true
        (arrived started)
        (seal (36 ∷ report_text (codes "PWR") charging) ∷ [])
        opened
      ≡ some (u', pos 0))
    × (u'.report ≡ record charging { status = pos 0 })
    × (u'.sent ≡ [] ++ cmd_reset)
read-report_example =
    read-report true (codes "PWR") (started ∷ []) [] opened charging started
      (seal (36 ∷ report_text (codes "PWR") charging) ∷ []) (omega arith) (omega arith)
      (omega arith) report_length refl
