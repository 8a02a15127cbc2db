-- ===== src/Navigator/Tests.antt =====
-- A short way of the rover.
use solarbot_update.Base.{
  ◌+ℤ◌, ◌≡◌, refl, arith, false, some, List, [], ◌∷◌, Bytes, ℤ, pos, negsuc, codes,
}
use solarbot_update.Double.{whole, mul_whole, div_whole}
use solarbot_update.Text.{atoi}
use solarbot_update.Geodesy.{
  get_destination, get_destination_point, distance_between_points, degrees_to_radians,
}
use solarbot_update.MasterApp.Commands.{mode_waypoints}
use solarbot_update.Navigator.{Navigator, Waypoint, Fix}
use solarbot_update.Navigator.Load.{load_waypoints}
use solarbot_update.Navigator.Nearest.{find_closest_path_point}
use solarbot_update.Navigator.Index.{goto_all, goto_all-load_waypoints, IsValid, Finds}

abbrev pub nowhere : Waypoint ℤ
nowhere = record { latitude = pos 0; longitude = pos 0; speed = pos 0 }

abbrev pub parked : Navigator ℤ
parked = record {
  waypoints_index = negsuc 0;
  waypoints = [];
  waypoints_size = 0;
  loop_navigate = false;
  finding_path = false;
  start_waypoint = nowhere;
  last_distance = pos 1;
  do_not_move = false;
  mode = mode_waypoints;
  motor_left = pos 0;
  motor_right = pos 0;
  eyes_angry = false;
  eyes_left = false;
  eyes_right = false;
  fast_eyes_left = false;
  fast_eyes_right = false;
}

abbrev file : List Bytes
file = codes "#two points" ∷ codes "P120,0,1000x" ∷ codes "P240,0,900x" ∷ []

loaded_size : (load_waypoints whole (some file) parked).0.waypoints_size ≡ 2
unfolding load_waypoints
loaded_size = refl

abbrev here : Fix whole
here = record { latitude = pos 120; longitude = pos 0; heading = pos 0 }

abbrev ways : List (Fix whole)
ways = here ∷ here ∷ here ∷ []

here-Finds : Finds whole (load_waypoints whole (some file) parked).0.waypoints here
unfolding load_waypoints find_closest_path_point get_destination get_destination_point
    distance_between_points degrees_to_radians mul_whole div_whole atoi ◌+ℤ◌
here-Finds = refl

goto_all-load_waypoints_example :
    (n' : Navigator ℤ) × (goto_all whole ways (load_waypoints whole (some file) parked).0 ≡ some n')
    × IsValid whole n'
goto_all-load_waypoints_example =
    goto_all-load_waypoints whole file parked ways (omega arith) (rw loaded_size (omega arith))
      (here-Finds, (here-Finds, (here-Finds, tt)))
