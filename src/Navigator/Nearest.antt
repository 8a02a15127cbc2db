-- ===== src/Navigator/Nearest.antt =====
-- solarbot/Navigator.cpp: FindClosestPathPoint.
use solarbot_update.Base.{ℕ, zero, suc, ◌+◌, ◌-◌, List, [], ◌∷◌, if◌then◌else◌, ℤ, pos, negsuc}
use solarbot_update.Double.{Double}
use solarbot_update.Geodesy.{Point, get_destination, get_destination_point, distance_between_points}
use solarbot_update.Navigator.{Waypoint, int, waypoint_point}

module _ (R : Double) where
  open R use {Value, of_int, add, sub, mul, div, negate, less, parse, truncate, dbl_max}

  -- The closest point of the path so far, and the waypoint behind it.
  pub record Closest : Type 0 where
    pub point : Point Value
    pub start_waypoint_index : ℤ
    pub closest_distance : Value
    pub closest_distance_to_next_waypoint : Value

  unfoldable pub try_point : Point Value → Waypoint Value → ℕ → Point Value → Closest → Closest
  try_point mine p2 next point c =
      let d = distance_between_points R mine point in
      let dn = distance_between_points R point (waypoint_point R p2) in
      if less d c.closest_distance
      then (if less dn c.closest_distance_to_next_waypoint
          then record {
            point = point;
            start_waypoint_index = pos next;
            closest_distance = d;
            closest_distance_to_next_waypoint = dn;
          }
          else c)
      else c

  -- The points of a segment, a metre apart, from the `i`-th on.
  unfoldable pub try_points :
      ℕ → ℕ → Point Value → Waypoint Value → Waypoint Value → Value → ℕ → Closest → Closest
  unfolding try_point
  try_points zero i mine p1 p2 bearing next c = c
  try_points (suc rounds) i mine p1 p2 bearing next c =
      try_points rounds (i + 1) mine p1 p2 bearing next
        (try_point mine p2 next (get_destination_point R (waypoint_point R p1) (int R i) bearing) c)

  -- `steps` is rounded down, and the loop runs from 1 to below it.
  abbrev pub rounds_of : ℤ → ℕ
  rounds_of (pos steps) = steps - 1
  rounds_of (negsuc k) = 0

  unfoldable pub try_segment : Point Value → Waypoint Value → Waypoint Value → ℕ → Closest → Closest
  unfolding try_points
  try_segment mine p1 p2 next c =
      let d = get_destination R (waypoint_point R p1) (waypoint_point R p2) in
      try_points (rounds_of (truncate d.distance)) 1 mine p1 p2 d.bearing next
        (record c { closest_distance_to_next_waypoint = dbl_max })

  -- The segments of the path from the waypoint of the index `i` on; the last one leads to `first`.
  unfoldable pub try_segments :
      Point Value → Waypoint Value → ℕ → List (Waypoint Value) → Closest → Closest
  unfolding try_segment
  try_segments mine first i [] c = c
  try_segments mine first i (p ∷ []) c = try_segment mine p first 0 c
  try_segments mine first i (p ∷ q ∷ points) c =
      try_segments mine first (i + 1) (q ∷ points) (try_segment mine p q (i + 1) c)

  unfoldable pub find_closest_path_point : Point Value → ℤ → List (Waypoint Value) → Closest
  unfolding try_segments
  find_closest_path_point mine index points =
      let c : Closest = record {
        point = mine;
        start_waypoint_index = index;
        closest_distance = dbl_max;
        closest_distance_to_next_waypoint = dbl_max;
      } in
      elim points [ [] ↦ c | p ∷ ps ↦ try_segments mine p 0 (p ∷ ps) c ]
