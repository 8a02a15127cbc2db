-- ===== src/LineNavigator.antt =====
-- solarbot/LineNavigator.cpp and LineNavigator.h: the sensor of lines. The two tables hold tenths; the
-- arithmetic on floating-point numbers is the parameter `R`.
pub mod Places
pub mod Tests
use solarbot_update.Base.{
  zero, suc, ℕ, ◌-◌, Bool, true, false, not, Option, none, some, List, [], ◌∷◌, ◌++◌, Bytes, length,
  get_or, ltb, if◌then◌else◌, ℤ, pos, negsuc, to_byte, is_zero, ltb_ℤ, suc, to_int,
}
use solarbot_update.Text.{read_fields, ◌>>=◌}
use solarbot_update.Serial.{
  Wait, failed, unread, timed_out, arrived, read_into, verify_checksum, read_error, read_timeout,
  checksum_error, invalid_frame,
}
use solarbot_update.Double.{Double}

abbrev pub left_raw_low : ℕ
left_raw_low = 541

abbrev pub left_raw_high : ℕ
left_raw_high = 766

abbrev pub right_raw_low : ℕ
right_raw_low = 588

abbrev pub right_raw_high : ℕ
right_raw_high = 763

unfoldable pub left_table : List ℕ
left_table =
    100 ∷ 95 ∷ 93 ∷ 90 ∷ 85 ∷ 83 ∷ 80 ∷ 78 ∷ 77 ∷ 75 ∷ 74 ∷ 73 ∷ 71 ∷ 70 ∷ 69 ∷ 68 ∷ 68 ∷ 67 ∷ 66
    ∷ 65 ∷ 64 ∷ 64 ∷ 63 ∷ 63 ∷ 62 ∷ 61 ∷ 61 ∷ 60 ∷ 60 ∷ 59 ∷ 59 ∷ 58 ∷ 58 ∷ 58 ∷ 57 ∷ 57 ∷ 56 ∷ 56
    ∷ 55 ∷ 55 ∷ 55 ∷ 55 ∷ 54 ∷ 54 ∷ 54 ∷ 54 ∷ 53 ∷ 53 ∷ 53 ∷ 53 ∷ 52 ∷ 52 ∷ 52 ∷ 52 ∷ 51 ∷ 51 ∷ 51
    ∷ 51 ∷ 50 ∷ 50 ∷ 50 ∷ 49 ∷ 49 ∷ 49 ∷ 49 ∷ 48 ∷ 48 ∷ 48 ∷ 48 ∷ 47 ∷ 47 ∷ 47 ∷ 46 ∷ 46 ∷ 46 ∷ 46
    ∷ 45 ∷ 45 ∷ 45 ∷ 45 ∷ 45 ∷ 45 ∷ 44 ∷ 44 ∷ 44 ∷ 44 ∷ 44 ∷ 44 ∷ 44 ∷ 44 ∷ 44 ∷ 44 ∷ 43 ∷ 43 ∷ 43
    ∷ 43 ∷ 43 ∷ 43 ∷ 43 ∷ 43 ∷ 43 ∷ 43 ∷ 42 ∷ 42 ∷ 42 ∷ 42 ∷ 42 ∷ 42 ∷ 42 ∷ 42 ∷ 42 ∷ 42 ∷ 41 ∷ 41
    ∷ 41 ∷ 41 ∷ 41 ∷ 41 ∷ 41 ∷ 41 ∷ 41 ∷ 41 ∷ 40 ∷ 40 ∷ 40 ∷ 40 ∷ 40 ∷ 40 ∷ 40 ∷ 40 ∷ 40 ∷ 40 ∷ 40
    ∷ 40 ∷ 40 ∷ 40 ∷ 39 ∷ 39 ∷ 39 ∷ 39 ∷ 39 ∷ 39 ∷ 39 ∷ 39 ∷ 39 ∷ 39 ∷ 39 ∷ 39 ∷ 39 ∷ 39 ∷ 39 ∷ 39
    ∷ 39 ∷ 39 ∷ 39 ∷ 39 ∷ 38 ∷ 38 ∷ 38 ∷ 38 ∷ 38 ∷ 38 ∷ 38 ∷ 38 ∷ 38 ∷ 38 ∷ 38 ∷ 38 ∷ 38 ∷ 38 ∷ 38
    ∷ 38 ∷ 38 ∷ 38 ∷ 38 ∷ 38 ∷ 37 ∷ 37 ∷ 37 ∷ 37 ∷ 37 ∷ 37 ∷ 37 ∷ 37 ∷ 37 ∷ 37 ∷ 37 ∷ 37 ∷ 37 ∷ 37
    ∷ 37 ∷ 37 ∷ 37 ∷ 37 ∷ 37 ∷ 37 ∷ 36 ∷ 36 ∷ 36 ∷ 36 ∷ 36 ∷ 36 ∷ 36 ∷ 36 ∷ 36 ∷ 36 ∷ 36 ∷ 36 ∷ 36
    ∷ 36 ∷ 36 ∷ 36 ∷ 36 ∷ 36 ∷ 36 ∷ 36 ∷ 35 ∷ 35 ∷ 35 ∷ 35 ∷ 35 ∷ 35 ∷ 35 ∷ 35 ∷ 35 ∷ []

unfoldable pub right_table : List ℕ
right_table =
    95 ∷ 90 ∷ 85 ∷ 80 ∷ 75 ∷ 70 ∷ 65 ∷ 60 ∷ 55 ∷ 55 ∷ 54 ∷ 54 ∷ 54 ∷ 54 ∷ 50 ∷ 50 ∷ 50 ∷ 50 ∷ 50
    ∷ 49 ∷ 49 ∷ 49 ∷ 49 ∷ 49 ∷ 49 ∷ 49 ∷ 49 ∷ 48 ∷ 48 ∷ 48 ∷ 48 ∷ 48 ∷ 48 ∷ 48 ∷ 48 ∷ 48 ∷ 47 ∷ 47
    ∷ 47 ∷ 47 ∷ 47 ∷ 47 ∷ 47 ∷ 47 ∷ 46 ∷ 46 ∷ 46 ∷ 46 ∷ 46 ∷ 46 ∷ 46 ∷ 46 ∷ 45 ∷ 45 ∷ 45 ∷ 45 ∷ 45
    ∷ 45 ∷ 45 ∷ 45 ∷ 44 ∷ 44 ∷ 44 ∷ 44 ∷ 44 ∷ 44 ∷ 44 ∷ 44 ∷ 43 ∷ 43 ∷ 43 ∷ 43 ∷ 43 ∷ 43 ∷ 43 ∷ 43
    ∷ 42 ∷ 42 ∷ 42 ∷ 42 ∷ 42 ∷ 42 ∷ 42 ∷ 41 ∷ 41 ∷ 41 ∷ 41 ∷ 41 ∷ 41 ∷ 41 ∷ 41 ∷ 40 ∷ 40 ∷ 40 ∷ 40
    ∷ 40 ∷ 40 ∷ 40 ∷ 40 ∷ 40 ∷ 40 ∷ 40 ∷ 40 ∷ 39 ∷ 39 ∷ 39 ∷ 39 ∷ 39 ∷ 39 ∷ 39 ∷ 39 ∷ 39 ∷ 39 ∷ 39
    ∷ 39 ∷ 39 ∷ 39 ∷ 39 ∷ 39 ∷ 38 ∷ 38 ∷ 38 ∷ 38 ∷ 38 ∷ 38 ∷ 38 ∷ 38 ∷ 38 ∷ 38 ∷ 38 ∷ 38 ∷ 38 ∷ 38
    ∷ 38 ∷ 38 ∷ 37 ∷ 37 ∷ 37 ∷ 37 ∷ 37 ∷ 37 ∷ 37 ∷ 37 ∷ 37 ∷ 37 ∷ 37 ∷ 37 ∷ 37 ∷ 37 ∷ 37 ∷ 37 ∷ 36
    ∷ 36 ∷ 36 ∷ 36 ∷ 36 ∷ 36 ∷ 36 ∷ 36 ∷ 36 ∷ 36 ∷ 36 ∷ 36 ∷ 36 ∷ 36 ∷ 36 ∷ 36 ∷ 35 ∷ 35 ∷ 35 ∷ 35
    ∷ 35 ∷ 35 ∷ 35 ∷ 35 ∷ []

-- A raw value, limited to the interval from `low` to below `high`.
unfoldable pub limit : ℕ → ℕ → ℤ → ℕ
limit low high (negsuc n) = low
limit low high (pos n) = if ltb n low then low else if not (ltb n high) then high - 1 else n

-- An element of an array, `none` where it has none.
unfoldable pub table_at : List ℕ → ℕ → Option ℕ
table_at [] i = none
table_at (tenths ∷ table) zero = some tenths
table_at (tenths ∷ table) (suc i) = table_at table i

abbrev pub port_rx_buffer_size : ℕ
port_rx_buffer_size = 100

pub record LineData (V : Type 0) : Type 0 where
  pub status : ℤ
  pub id_frame : ℕ
  pub raw_left : ℤ
  pub raw_right : ℤ
  pub left : V
  pub right : V
  pub angle : V

-- The settings that Init stores, and the state of the port.
pub record LineNavigator (V : Type 0) : Type 0 where
  pub left_offset : ℤ
  pub right_offset : ℤ
  pub left_factor : V
  pub right_factor : V
  pub angle_factor : V
  pub rx_buffer : Bytes
  pub sent : Bytes

module _ (R : Double) where
  open R use {Value, of_int, add, sub, mul, div, less}

  -- The entry of a table for a limited value; `none` in front of the table and behind it.
  unfoldable pub entry : List ℕ → ℕ → ℕ → Option Value
  unfolding table_at
  entry table low raw = if ltb raw low then none else (do
    tenths ← table_at table (raw - low)
    some (div (of_int (pos tenths)) (of_int (pos 10))))

  unfoldable pub limit_angle : Value → Value
  limit_angle angle =
      let upper = if less (of_int (pos 80)) angle then of_int (pos 80) else angle in
      if less upper (of_int (negsuc 79)) then of_int (negsuc 79) else upper

  unfoldable pub store_line :
      LineNavigator Value → LineData Value → List ℤ → Option (LineData Value)
  unfolding limit limit_angle entry
  store_line n d (id ∷ raw_left ∷ raw_right ∷ []) = do
    left_entry ← entry left_table left_raw_low (limit left_raw_low left_raw_high (to_int raw_left))
    right_entry ←
        entry right_table right_raw_low (limit right_raw_low right_raw_high (to_int raw_right))
    (let left = mul n.left_factor (add left_entry (of_int n.left_offset)) in
        let right = mul n.right_factor (add right_entry (of_int n.right_offset)) in
        some (record d {
          id_frame = to_byte id;
          raw_left = to_int raw_left;
          raw_right = to_int raw_right;
          left = left;
          right = right;
          angle = limit_angle (mul n.angle_factor (sub left right));
        }))
  store_line n d fields = some d

  -- A line of more than four bytes.
  unfoldable pub handle_buffer :
      Bytes → LineNavigator Value → LineData Value → Option (LineData Value × ℤ)
  handle_buffer buffer n d = verify_checksum port_rx_buffer_size buffer >>= λ (result : ℤ).
      if is_zero result
      then (do fields ← read_fields 3 buffer; d' ← store_line n d fields; some (d', pos 0))
      else some (d, checksum_error)

  unfoldable pub await : Wait → LineNavigator Value → LineData Value → Option (LineData Value × ℤ)
  await unread n d = some (d, invalid_frame)
  await failed n d = some (d, read_error)
  await timed_out n d = some (d, read_timeout)
  await (arrived bytes) n d =
      if ltb 4 (length bytes)
      then handle_buffer (read_into n.rx_buffer bytes) n d
      else some (d, invalid_frame)

  abbrev buffer_after : Wait → Bytes → Bytes
  buffer_after failed buffer = buffer
  buffer_after unread buffer = buffer
  buffer_after timed_out buffer = buffer
  buffer_after (arrived bytes) buffer = read_into buffer bytes

  unfoldable pub read :
      Wait
      → LineNavigator Value
      → LineData Value
      → Option (LineNavigator Value × LineData Value × ℤ)
  read wait n d = do
    (d', result) ← await wait n d
    some (
      record n { sent = n.sent ++ b'$' ∷ []; rx_buffer = buffer_after wait n.rx_buffer },
      record d' { status = result },
      result,
    )
