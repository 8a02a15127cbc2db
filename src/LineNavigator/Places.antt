-- ===== src/LineNavigator/Places.antt =====
-- The places of the tables that a report makes the program read.
use solarbot_update.Base.{
  ◌++◌, zero, suc, ℕ, ◌-◌, ◌<◌, ◌≤◌, ◌≡◌, refl, arith, false, length, ℤ, pos, negsuc, some, Bytes,
  ◌∷◌, ltb, suc, [], to_int, lt→ltb, to_byte,
}
use solarbot_update.Double.{Double}
use solarbot_update.Base.{List}
use solarbot_update.Text.{read_fields}
use solarbot_update.Serial.{verify_checksum, read_into, arrived}
use solarbot_update.LineNavigator.{
  LineNavigator, LineData, read, await, handle_buffer, store_line, entry, table_at,
  port_rx_buffer_size, left_table, right_table, limit, limit_angle, left_raw_low, left_raw_high,
  right_raw_low, right_raw_high,
}

length-left_table : length left_table ≡ 225
unfolding left_table
length-left_table = refl

length-right_table : length right_table ≡ 175
unfolding right_table
length-right_table = refl

limit-lt :
    (low high : ℕ) (raw : ℤ) → low < high → (low ≤ limit low high raw) × (limit low high raw < high)
unfolding limit
limit-lt low high (pos n) h = ground arith
limit-lt low high (negsuc n) h = ground arith

table_at_lem : (table : List ℕ) (i : ℕ) → i < length table → (t : ℕ) × (table_at table i ≡ some t)
unfolding table_at
table_at_lem [] i h = absurd (omega arith)
table_at_lem (t ∷ table) zero h = (t, refl)
table_at_lem (t ∷ table) (suc i) h = table_at_lem table i (omega arith)

module _ (R : Double) where
  open R use {of_int, less, div}

  entry_lem :
      (table : List ℕ) (low high : ℕ) (raw : ℤ)
      → low < high
      → high - low ≡ length table
      → (v : R.Value) × (entry R table low (limit low high raw) ≡ some v)
  unfolding entry
  entry_lem table low high raw h size =
      let (above, below) = limit-lt low high raw h in
      let (t, e) =
        table_at_lem table (limit low high raw - low) (omega (arith, above, below, size)) in
      (
        div (of_int (pos t)) (of_int (pos 10)),
        rw (not_below (limit low high raw) above) (rw e refl),
      )
    where
      not_below : (n : ℕ) → low ≤ n → ltb n low ≡ false
      not_below n le = ground arith

  -- The angle is neither above 80 nor below -80.
  abbrev pub IsLimited : R.Value → Type 0
  IsLimited angle =
      (less (of_int (pos 80)) angle ≡ false) × (less angle (of_int (negsuc 79)) ≡ false)

  limit_angle-IsLimited :
      (angle : R.Value)
      → IsLimited (of_int (pos 80))
      → IsLimited (of_int (negsuc 79))
      → IsLimited (limit_angle R angle)
  unfolding limit_angle
  limit_angle-IsLimited angle upper lower = (ground arith, ground arith)

  store_line_lem :
      (n : LineNavigator R.Value) (d : LineData R.Value) (id raw_left raw_right : ℤ)
      → IsLimited (of_int (pos 80))
      → IsLimited (of_int (negsuc 79))
      → (d' : LineData R.Value) × (store_line R n d (id ∷ raw_left ∷ raw_right ∷ []) ≡ some d')
        × (d'.raw_left ≡ to_int raw_left)
        × (d'.raw_right ≡ to_int raw_right)
        × IsLimited d'.angle
  unfolding store_line
  store_line_lem n d id raw_left raw_right upper lower =
      let (at_left, e) =
        entry_lem left_table left_raw_low left_raw_high (to_int raw_left) (omega arith)
          (omega (arith, length-left_table)) in
      let (at_right, e') =
        entry_lem right_table right_raw_low right_raw_high (to_int raw_right) (omega arith)
          (omega (arith, length-right_table)) in
      let left = R.mul n.left_factor (R.add at_left (of_int n.left_offset)) in
      let right = R.mul n.right_factor (R.add at_right (of_int n.right_offset)) in
      let angle = R.mul n.angle_factor (R.sub left right) in
      (
        record d {
          id_frame = to_byte id;
          raw_left = to_int raw_left;
          raw_right = to_int raw_right;
          left = left;
          right = right;
          angle = limit_angle R angle;
        },
        rw e (rw e' refl),
        refl,
        refl,
        limit_angle-IsLimited angle upper lower,
      )

  -- A report with the right checksum and three numbers is taken, whatever its raw values are, below or
  -- above the interval of the sensor too: the two tables are read at places that they have, the call
  -- returns 0, the raw values are those of the report, as `int`, and the angle is neither above 80 nor
  -- below -80. The comparison of the platform says of 80 and of -80 that each is so itself.
  pub read_in_range :
      (bytes : Bytes) (n : LineNavigator R.Value) (d : LineData R.Value) (id raw_left raw_right : ℤ)
      → 4 < length bytes
      → verify_checksum port_rx_buffer_size (read_into n.rx_buffer bytes) ≡ some (pos 0)
      → read_fields 3 (read_into n.rx_buffer bytes) ≡ some (id ∷ raw_left ∷ raw_right ∷ [])
      → IsLimited (of_int (pos 80))
      → IsLimited (of_int (negsuc 79))
      → (n' : LineNavigator R.Value) × (d' : LineData R.Value) × (read R (arrived bytes) n d
          ≡ some (n', d', pos 0))
        × (d'.status ≡ pos 0)
        × (d'.raw_left ≡ to_int raw_left)
        × (d'.raw_right ≡ to_int raw_right)
        × IsLimited d'.angle
  unfolding read await handle_buffer
  read_in_range bytes n d id raw_left raw_right long verified fields upper lower =
      let (d', e, left, right, limited) = store_line_lem n d id raw_left raw_right upper lower in
      (
        record n { sent = n.sent ++ b'$' ∷ []; rx_buffer = read_into n.rx_buffer bytes },
        record d' { status = pos 0 },
        rw (lt→ltb 4 (length bytes) long) (rw verified (rw fields (rw e refl))),
        refl,
        left,
        right,
        limited,
      )
