-- ===== src/Gps.antt =====
-- solarbot/GPS.cpp and GPS.h: the receiver of positions. Its sentences come one for each `read`, and
-- their decimal numbers are read by the parameter `R`.
pub mod Clock
pub mod Status
pub mod Sentences
pub mod Loop
pub mod Tests
use solarbot_update.Base.{
  bit_or, ℕ, suc, ◌+◌, ◌-◌, ◌*◌, ◌/◌, ◌%◌, ◌^◌, Bool, true, false, ◌&&◌, ◌||◌, Option, none, some,
  List, [], ◌∷◌, ◌++◌, Bytes, get_or, drop, codes, ltb, leb, ◌==◌, if◌then◌else◌, ℤ, pos, negsuc,
  to_byte, to_u32, minus_ℕ,
}
use solarbot_update.Text.{
  is_digit, atoi, strtol_hex, contains, after, comma, skip_fields, skip_digits, ◌>>=◌, hex_ends,
}
use solarbot_update.Serial.{scan, read_into}
use solarbot_update.Double.{Double}

pub record Location (V : Type 0) : Type 0 where
  pub date : ℕ
  pub time : ℕ
  pub latitude : V
  pub longitude : V
  pub speed : V
  pub course : V
  pub status : ℕ
  pub quality : ℕ
  pub satellites : ℕ
  pub hdop : V
  pub altitude : V
  pub ondulation : V
  pub age : ℤ
  pub station_id : ℤ

abbrev pub serial_port_rx_buffer_size : ℕ
serial_port_rx_buffer_size = 255

abbrev pub nmea_empty : ℕ
nmea_empty = 0

abbrev pub nmea_gprmc : ℕ
nmea_gprmc = 1

abbrev pub nmea_gpgga : ℕ
nmea_gpgga = 2

abbrev pub nmea_completed : ℕ
nmea_completed = 3

abbrev pub nmea_unknown : ℕ
nmea_unknown = 0

abbrev pub nmea_checksum_err : ℕ
nmea_checksum_err = 0x80

-- Dates are day, month and year, times are hour, minute, second and hundredths, two digits each.
pub year : ℕ → ℕ
year date = 2000 + date % 100

pub month : ℕ → ℕ
month date = date / 100 % 100

pub day : ℕ → ℕ
day date = date / 10000 % 256

pub hour : ℕ → ℕ
hour time = time / 1000000 % 256

pub minute : ℕ → ℕ
minute time = time / 10000 % 100

pub second : ℕ → ℕ
second time = time / 100 % 100

pub centisecond : ℕ → ℕ
centisecond time = time % 100

unfoldable pub nmea_valid_checksum : Bytes → Option ℕ
unfolding scan strtol_hex hex_ends
nmea_valid_checksum [] = none
nmea_valid_checksum (start ∷ message) = do
  (sum, rest) ← scan (serial_port_rx_buffer_size - 8) 0 message
  (if hex_ends rest
      then some (if sum == to_byte (strtol_hex rest) then nmea_empty else nmea_checksum_err)
      else none)

unfoldable pub nmea_get_message_type : Bytes → Option ℕ
unfolding nmea_valid_checksum contains
nmea_get_message_type message = do
  valid ← nmea_valid_checksum message
  some (
      if valid == nmea_empty
      then (if contains (codes "$GNGGA") message
          then nmea_gpgga
          else if contains (codes "$GNRMC") message
          then nmea_gprmc
          else nmea_unknown)
      else nmea_checksum_err)

-- The digits behind the point of a time, up to two.
unfoldable pub hundredths : Bytes → ℕ
hundredths p =
    if get_or p 0 0 == b'.' && is_digit (get_or p 1 0)
    then 10 * (get_or p 1 0 - b'0') + (if is_digit (get_or p 2 0) then get_or p 2 0 - b'0' else 0)
    else 0

unfoldable pub parse_time : Bytes → ℕ
parse_time p = (100 * to_u32 (atoi p) + hundredths (skip_digits p)) % 2 ^ 32

module _ (R : Double) where
  open R use {Value, of_int, add, div, negate, parse}

  -- Two or three digits of degrees, the minutes behind them, and the letter of the hemisphere. The
  -- digits are characters of ASCII.
  unfoldable pub gps_to_degree : Bytes → ℕ → Value
  gps_to_degree buffer sing =
      let minutes = λ (k : ℕ). div (parse (drop k buffer)) (of_int (pos 60)) in
      let latitude =
        add (of_int (minus_ℕ (10 * get_or buffer 0 0 + get_or buffer 1 0) 528)) (minutes 2) in
      let longitude =
        add
          (of_int
            (minus_ℕ (100 * get_or buffer 0 0 + 10 * get_or buffer 1 0 + get_or buffer 2 0) 5328))
          (minutes 3) in
      if sing == b'N' || sing == b'S'
      then (if sing == b'S' then negate latitude else latitude)
      else if sing == b'E' || sing == b'W'
      then (if sing == b'W' then negate longitude else longitude)
      else of_int (pos 0)

  unfoldable pub nmea_parse_gpgga : Bytes → Location Value → Option (Location Value)
  unfolding skip_fields after
  nmea_parse_gpgga nmea loc = do
    p ← skip_fields 6 nmea
    p1 ← after comma p
    p2 ← after comma p1
    p3 ← after comma p2
    p5 ← skip_fields 2 p3
    p7 ← skip_fields 2 p5
    p8 ← after comma p7
    some (record loc {
      quality = to_byte (atoi p);
      satellites = to_byte (atoi p1);
      hdop = parse p2;
      altitude = parse p3;
      ondulation = parse p5;
      age = atoi p7;
      station_id = atoi p8;
    })

  -- Where there is a fix, the position of the sentence, else zero.
  abbrev position : ℕ → Bytes → Bytes → Value
  position status buffer sing =
      if status == b'A' then gps_to_degree buffer (get_or sing 0 0) else of_int (pos 0)

  unfoldable pub nmea_parse_gprmc : Bytes → Location Value → Option (Location Value)
  unfolding after
  nmea_parse_gprmc nmea loc = do
    p_time ← after comma nmea
    p_status ← after comma p_time
    lat_start ← after comma p_status
    lat_dir ← after comma lat_start
    lon_start ← after comma lat_dir
    lon_dir ← after comma lon_start
    p_speed ← after comma lon_dir
    p_course ← after comma p_speed
    p_date ← after comma p_course
    some (record loc {
      time = parse_time p_time;
      status = get_or p_status 0 0;
      latitude = position (get_or p_status 0 0) lat_start lat_dir;
      longitude = position (get_or p_status 0 0) lon_start lon_dir;
      speed = parse p_speed;
      course = parse p_course;
      date = to_u32 (atoi p_date);
    })

  -- The bits of `status` that the sentence in the buffer sets, and what it says.
  unfoldable pub take_sentence : Bytes → ℕ → Location Value → Option (ℕ × Location Value)
  take_sentence buffer status loc = nmea_get_message_type buffer >>= λ (kind : ℕ).
      if kind == nmea_gpgga
      then (do loc' ← nmea_parse_gpgga buffer loc; some (bit_or status nmea_gpgga, loc'))
      else if kind == nmea_gprmc
      then (do loc' ← nmea_parse_gprmc buffer loc; some (bit_or status nmea_gprmc, loc'))
      else some (status, loc)

  -- What one `read` brings: an error or the end of the file leaves all as it is.
  unfoldable pub take_read :
      Bytes → Bytes → ℕ → Location Value → Option (Bytes × ℕ × Location Value)
  take_read buffer [] status loc = some (buffer, status, loc)
  take_read buffer (c ∷ cs) status loc = do
    (status', loc') ← take_sentence (read_into buffer (c ∷ cs)) status loc
    some (read_into buffer (c ∷ cs), status', loc')

  -- The loop over what the reads bring, one after another. `none` where they end and the loop still
  -- waits, or where a sentence breaks off and the source follows a null pointer.
  unfoldable pub read_sentences :
      List Bytes → Bytes → ℕ → Location Value → Option (Bytes × Location Value)
  read_sentences [] buffer status loc =
      if status == nmea_completed then some (buffer, loc) else none
  read_sentences (bytes ∷ reads) buffer status loc =
      if status == nmea_completed
      then some (buffer, loc)
      else take_read buffer bytes status loc >>= λ (s : Bytes × ℕ × Location Value).
          read_sentences reads s.0 s.1 s.2

  unfoldable pub get_location :
      List Bytes → Bytes → Location Value → Option (Bytes × Location Value)
  get_location reads buffer loc =
      read_sentences reads buffer nmea_empty (record loc { status = b'I' })
