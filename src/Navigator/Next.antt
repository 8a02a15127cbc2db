-- ===== src/Navigator/Next.antt =====
-- solarbot/Navigator.cpp: GotoNextWaypoint and GetCurrentWaypoint.
use solarbot_update.Base.{
  zero, suc, ◌&&◌, Option, none, some, List, [], ◌∷◌, if◌then◌else◌, ℤ, pos, negsuc, ltb_ℤ, ◌+ℤ◌,
}
use solarbot_update.Text.{◌>>=◌}
use solarbot_update.Double.{Double}
use solarbot_update.Geodesy.{distance_between}
use solarbot_update.Navigator.{navigator_done, Waypoint, Navigator, is_none, int, Fix, fix_point}
use solarbot_update.Navigator.Motion.{goto_waypoint}
use solarbot_update.Navigator.Nearest.{find_closest_path_point}

module _ (R : Double) where
  open R use {Value, of_int, add, sub, mul, div, negate, less, parse, truncate, dbl_max}

  -- The next waypoint, or the end of the way.
  unfoldable pub next_waypoint : Navigator Value → Navigator Value × ℤ
  next_waypoint n =
      let next = n.waypoints_index +ℤ pos 1 in
      if ltb_ℤ next (pos n.waypoints_size)
      then (record n { waypoints_index = next }, pos 0)
      else if n.loop_navigate
      then (record n { waypoints_index = pos 0 }, pos 0)
      else (n, navigator_done)

  -- The start of the path, looked for once.
  unfoldable pub find_start : Fix R → Navigator Value → Navigator Value
  unfolding find_closest_path_point
  find_start w n =
      let c = find_closest_path_point R (fix_point R w) n.waypoints_index n.waypoints in
      record n {
        waypoints_index = c.start_waypoint_index;
        start_waypoint = record {
          latitude = c.point.lat;
          longitude = c.point.lon;
          speed = pos 1000;
        };
      }

  -- Towards the start of the path.
  unfoldable pub approach : Fix R → Navigator Value → Navigator Value × ℤ
  unfolding find_start goto_waypoint
  approach w n =
      let n1 = if is_none n.waypoints_index then find_start w n else n in
      let d =
        distance_between R w.latitude w.longitude n1.start_waypoint.latitude
          n1.start_waypoint.longitude in
      let n2 =
        if less d (int R 3)
        then record n1 { start_waypoint = record n1.start_waypoint { speed = pos 300 } }
        else n1 in
      let (n3, going) = goto_waypoint R w n2.start_waypoint n2 in
      (record n3 { finding_path = n3.finding_path && going }, pos 0)

  -- `waypoints[index]`; `none` outside the vector.
  unfoldable pub get_waypoint : ℤ → List (Waypoint Value) → Option (Waypoint Value)
  get_waypoint (negsuc k) points = none
  get_waypoint (pos k) [] = none
  get_waypoint (pos zero) (p ∷ points) = some p
  get_waypoint (pos (suc k)) (p ∷ points) = get_waypoint (pos k) points

  -- Towards a waypoint, and to the next one where it is reached.
  unfoldable pub advance : Fix R → Waypoint Value → Navigator Value → Navigator Value × ℤ
  unfolding goto_waypoint next_waypoint
  advance w p n =
      let (n', going) = goto_waypoint R w p n in if going then (n', pos 0) else next_waypoint n'

  -- `none` where the index is outside the vector.
  unfoldable pub goto_next_waypoint : Fix R → Navigator Value → Option (Navigator Value × ℤ)
  unfolding approach advance get_waypoint
  goto_next_waypoint w n =
      if n.finding_path
      then some (approach w n)
      else (do p ← get_waypoint n.waypoints_index n.waypoints; some (advance w p n))

  unfoldable pub get_current_waypoint : Navigator Value → Option (Waypoint Value)
  unfolding get_waypoint
  get_current_waypoint n =
      if ltb_ℤ (negsuc 0) n.waypoints_index
      then get_waypoint n.waypoints_index n.waypoints
      else some (record { latitude = int R 0; longitude = int R 0; speed = pos 0 })
