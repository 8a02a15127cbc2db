-- ===== src/Gps/Tests.antt =====
-- The receiver of positions at a concrete time.
use solarbot_update.Base.{
  ◌++◌, ◌≡◌, ◌↔◌, refl, arith, List, ◌∷◌, [], Bytes, codes, All, pos, some, inl, inr,
}
use solarbot_update.Gps.{
  Location, get_location, take_sentence, nmea_get_message_type, nmea_parse_gpgga, nmea_parse_gprmc,
  hour, minute, second, centisecond, parse_time,
}
use solarbot_update.Double.{whole}
use solarbot_update.Gps.Loop.{get_location_lem, Parses, Arrives, buffers}
use solarbot_update.Gps.Sentences.{IsGga, IsRmc}
use solarbot_update.Serial.{verify_checksum}
use solarbot_update.Text.{contains}
use solarbot_update.Gps.Clock.{time_text, clock-parse_time}

clock-parse_time_example :
    (hour (parse_time (time_text 9 41 7 50 (44 ∷ []))) ≡ 9)
    × (minute (parse_time (time_text 9 41 7 50 (44 ∷ []))) ≡ 41)
    × (second (parse_time (time_text 9 41 7 50 (44 ∷ []))) ≡ 7)
    × (centisecond (parse_time (time_text 9 41 7 50 (44 ∷ []))) ≡ 50)
clock-parse_time_example =
    clock-parse_time 9 41 7 50 (44 ∷ []) (omega arith) (omega arith) (omega arith) (omega arith)

abbrev gga : Bytes
gga = codes "$GNGGA,12,40,N,3,W,4,12,1,650,M,52,M,1,7*51" ++ 13 ∷ 10 ∷ []

abbrev rmc : Bytes
rmc = codes "$GNRMC,120000.00,A,40,N,003,W,1,90,010124*05" ++ 13 ∷ 10 ∷ []

abbrev reads : List Bytes
reads = gga ∷ [] ∷ rmc ∷ []

abbrev nowhere : Location whole.Value
nowhere = record {
  date = 0;
  time = 0;
  latitude = pos 0;
  longitude = pos 0;
  speed = pos 0;
  course = pos 0;
  status = b'I';
  quality = 0;
  satellites = 0;
  hdop = pos 0;
  altitude = pos 0;
  ondulation = pos 0;
  age = pos 0;
  station_id = pos 0;
}

gga-IsGga : IsGga gga
unfolding verify_checksum contains
gga-IsGga = (refl, refl)

gga-Parses : Parses whole gga
unfolding Parses take_sentence nmea_get_message_type nmea_parse_gpgga
gga-Parses loc status e = cc

rmc-Parses : Parses whole rmc
unfolding Parses take_sentence nmea_get_message_type nmea_parse_gprmc
rmc-Parses loc status e = cc

whole-reads : All (Parses whole) (buffers [] reads)
unfolding buffers
whole-reads = (gga-Parses, (rmc-Parses, tt))

get_location_lem_example :
    ((out : Bytes × Location whole.Value) × (get_location whole reads [] nowhere ≡ some out))
    ↔ (Arrives IsRmc (buffers [] reads) × Arrives IsGga (buffers [] reads))
get_location_lem_example = get_location_lem whole reads [] nowhere whole-reads

-- The loop ends on the two sentences.
get_location_run :
    (out : Bytes × Location whole.Value) × (get_location whole reads [] nowhere ≡ some out)
unfolding buffers Arrives verify_checksum contains
get_location_run =
    (get_location_lem whole reads [] nowhere whole-reads).1
      (inr (inl (refl, refl, refl)), inl gga-IsGga)
