-- ===== src/Navigator/Load.antt =====
-- solarbot/Navigator.cpp: LoadWaypoints, on the lines of the file.
use solarbot_update.Base.{
  ℕ, zero, suc, ◌+◌, ◌-◌, true, false, ◌||◌, Option, none, some, List, [], ◌∷◌, ◌++◌, Bytes, length,
  get_or, drop, ◌==◌, if◌then◌else◌, ℤ, pos, negsuc,
}
use solarbot_update.Text.{atoi}
use solarbot_update.Double.{Double}
use solarbot_update.Navigator.{err_navigator_opening_file, Waypoint, Navigator}

module _ (R : Double) where
  open R use {Value, of_int, add, sub, mul, div, negate, less, parse, truncate, dbl_max}

  -- The numbers of one line `P`: the count of commas, the place of the last one, and the numbers so far.
  pub record Fields : Type 0 where
    pub comma_count : ℕ
    pub last_comma_index : ℕ
    pub latitude : Value
    pub longitude : Value

  -- A number that ends at the place `i` of the line: the third makes the waypoint.
  unfoldable pub take_number :
      Bytes → Fields → List (Waypoint Value) → Fields × List (Waypoint Value)
  take_number line f points =
      let text = drop (f.last_comma_index + 1) line in
      if f.comma_count == 0
      then (record f { comma_count = 1; latitude = parse text }, points)
      else if f.comma_count == 1
      then (record f { comma_count = 2; longitude = parse text }, points)
      else if f.comma_count == 2
      then (
        record f { comma_count = 3 },
        points ++ record { latitude = f.latitude; longitude = f.longitude; speed = atoi text } ∷ [],
      )
      else (record f { comma_count = f.comma_count + 1 }, points)

  -- The loop over the places of a line, `left` of them, from `i` on.
  unfoldable pub take_numbers :
      ℕ → ℕ → Bytes → Fields × List (Waypoint Value) → Fields × List (Waypoint Value)
  unfolding take_number
  take_numbers zero i line (f, points) = (f, points)
  take_numbers (suc left) i line (f, points) =
      let (f', points') = take_number line f points in
      take_numbers left (i + 1) line (
        if get_or line i 0 == b',' || i == length line - 1
        then (record f' { last_comma_index = i }, points')
        else (f, points))

  -- The state of the loop over the lines, with the numbers of the last line that had some.
  unfoldable pub take_line :
      Bytes → Navigator Value × Value × Value → Navigator Value × Value × Value
  unfolding take_numbers
  take_line [] (n, latitude, longitude) = (n, latitude, longitude)
  take_line (c ∷ cs) (n, latitude, longitude) =
      let (f, points) = take_numbers (length cs) 1 (c ∷ cs) (
        record {
          comma_count = 0;
          last_comma_index = 0;
          latitude = latitude;
          longitude = longitude;
        },
        n.waypoints,
      ) in
      if c == b'P'
      then (record n { waypoints = points }, f.latitude, f.longitude)
      else if c == b'S'
      then (record n { finding_path = false }, latitude, longitude)
      else if c == b'L'
      then (record n { loop_navigate = true }, latitude, longitude)
      else (n, latitude, longitude)

  unfoldable pub take_lines :
      List Bytes → Navigator Value × Value × Value → Navigator Value × Value × Value
  unfolding take_line
  take_lines [] s = s
  take_lines (line ∷ lines) s = take_lines lines (take_line line s)

  -- The lines of the file, `none` where it does not open.
  unfoldable pub load_waypoints : Option (List Bytes) → Navigator Value → Navigator Value × ℤ
  unfolding take_lines
  load_waypoints none n = (n, err_navigator_opening_file)
  load_waypoints (some lines) n =
      let (n', latitude, longitude) = take_lines lines (
        record n {
          waypoints_index = negsuc 0;
          waypoints_size = 0;
          waypoints = [];
          loop_navigate = false;
          finding_path = true;
        },
        of_int (pos 0),
        of_int (pos 0),
      ) in
      (record n' { waypoints_size = length n'.waypoints }, pos 0)
