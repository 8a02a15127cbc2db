-- ===== src/LineNavigator/Tests.antt =====
-- The sensor of lines at concrete values.
use solarbot_update.Base.{
  ◌∷◌, ◌≡◌, refl, pos, negsuc, replicate, Bytes, ℤ, [], codes, some, ◌<◌, length, arith,
}
use solarbot_update.Double.{whole}
use solarbot_update.Serial.{arrived, verify_checksum, read_into, seal}
use solarbot_update.Text.{read_fields}
use solarbot_update.LineNavigator.{LineNavigator, LineData, read}
use solarbot_update.LineNavigator.Places.{IsLimited, read_in_range}

abbrev sensor : LineNavigator ℤ
sensor = record {
  left_offset = pos 0;
  right_offset = pos 0;
  left_factor = pos 10;
  right_factor = pos 10;
  angle_factor = pos 40;
  rx_buffer = replicate 100 0;
  sent = [];
}

abbrev line_data : LineData ℤ
line_data = record {
  status = pos 0;
  id_frame = 0;
  raw_left = pos 0;
  raw_right = pos 0;
  left = pos 0;
  right = pos 0;
  angle = pos 0;
}

abbrev report : Bytes
report = seal (codes "$LIN,3,-5,900")

report_verified : verify_checksum 100 (read_into sensor.rx_buffer report) ≡ some (pos 0)
unfolding verify_checksum seal
report_verified = refl

report_read :
    read_fields 3 (read_into sensor.rx_buffer report) ≡ some (pos 3 ∷ negsuc 4 ∷ pos 900 ∷ [])
unfolding read_fields seal
report_read = refl

report_long : 4 < length report
unfolding seal
report_long = omega arith

read_in_range_example :
    (n' : LineNavigator ℤ) × (d' : LineData ℤ) × (read whole (arrived report) sensor line_data
      ≡ some (n', d', pos 0))
    × (d'.status ≡ pos 0)
    × (d'.raw_left ≡ negsuc 4)
    × (d'.raw_right ≡ pos 900)
    × IsLimited whole d'.angle
read_in_range_example =
    read_in_range whole report sensor line_data (pos 3) (negsuc 4) (pos 900) report_long
      report_verified report_read (refl, refl) (refl, refl)
