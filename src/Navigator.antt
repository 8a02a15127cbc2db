-- ===== src/Navigator.antt =====
-- solarbot/Navigator.cpp and Navigator.h: the waypoints and the way from one to the next. The arithmetic
-- on floating-point numbers is the parameter `R`; distances and bearings are in Geodesy. The modes are in
-- MasterApp/Commands. Here is the state; Load reads the file, Motion drives, Nearest looks for the closest
-- point of the path, and Next goes from waypoint to waypoint.
pub mod Load
pub mod Motion
pub mod Nearest
pub mod Next
pub mod Kept
pub mod Known
pub mod Index
pub mod Tests
use solarbot_update.Base.{
  ℕ, zero, suc, ◌+◌, ◌-◌, ◌/◌, Bool, true, false, ◌&&◌, ◌||◌, not, Option, none, some, List, [],
  ◌∷◌, ◌++◌, Bytes, length, get_or, drop, ltb, leb, ◌==◌, if◌then◌else◌, ℤ, pos, negsuc, minus, neg,
  ltb_ℤ, ◌+ℤ◌,
}
use solarbot_update.Text.{atoi, ◌>>=◌}
use solarbot_update.Double.{Double}
use solarbot_update.Geodesy.{
  Point, Destination, get_destination, get_destination_point, distance_between,
  distance_between_points,
}
use solarbot_update.MasterApp.Commands.{Mode, standby, mode_waypoints, mode_visual, mode_line}

abbrev pub err_navigator_opening_file : ℤ
err_navigator_opening_file = negsuc 22

abbrev pub navigator_done : ℤ
navigator_done = negsuc 98

pub record Waypoint (V : Type 0) : Type 0 where
  pub latitude : V
  pub longitude : V
  pub speed : ℤ

pub record Navigator (V : Type 0) : Type 0 where
  pub waypoints_index : ℤ
  pub waypoints : List (Waypoint V)
  pub waypoints_size : ℕ
  pub loop_navigate : Bool
  pub finding_path : Bool
  pub start_waypoint : Waypoint V
  pub last_distance : V
  pub do_not_move : Bool
  pub mode : Mode
  pub motor_left : ℤ
  pub motor_right : ℤ
  pub eyes_angry : Bool
  pub eyes_left : Bool
  pub eyes_right : Bool
  pub fast_eyes_left : Bool
  pub fast_eyes_right : Bool

-- The eyes that Move shows.

abbrev pub is_none : ℤ → Bool
is_none (pos k) = false
is_none (negsuc k) = k == 0

module _ (R : Double) where
  open R use {Value, of_int, add, sub, mul, div, negate, less, parse, truncate, dbl_max}

  abbrev pub int : ℕ → Value
  int n = of_int (pos n)

  -- Where the rover is and where it looks.
  pub record Fix : Type 0 where
    pub latitude : Value
    pub longitude : Value
    pub heading : Value

  abbrev pub fix_point : Fix → Point Value
  fix_point w = record { lat = w.latitude; lon = w.longitude }

  abbrev pub waypoint_point : Waypoint Value → Point Value
  waypoint_point p = record { lat = p.latitude; lon = p.longitude }
