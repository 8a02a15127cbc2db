-- ===== src/Navigator/Known.antt =====
-- The waypoint behind the closest point of the path.
use solarbot_update.Base.{
  ◌+◌, ℕ, zero, suc, ◌<◌, ◌≡◌, refl, arith, inl, inr, ◌⊎◌, List, [], ◌∷◌, length, if◌then◌else◌, ℤ,
  pos, negsuc, ◌≤◌,
}
use solarbot_update.Double.{Double}
use solarbot_update.Geodesy.{Point, distance_between_points, get_destination_point, get_destination}
use solarbot_update.Navigator.{Waypoint, int, waypoint_point}
use solarbot_update.Navigator.Nearest.{
  Closest, try_point, try_points, try_segment, try_segments, rounds_of, find_closest_path_point,
}
use solarbot_update.Navigator.Kept.{either}

abbrev pub InRange : ℤ → ℕ → Type 0
InRange (pos k) size = k < size
InRange (negsuc k) size = ⊥

module _ (R : Double) where
  open R use {Value, less, of_int, truncate, dbl_max}

  -- The index is the old one or that of a waypoint.
  abbrev pub Known : ℤ → ℕ → Closest R → Type 0
  Known old size c = (c.start_waypoint_index ≡ old) ⊎ InRange c.start_waypoint_index size

  try_point-Known :
      (mine : Point Value) (p2 : Waypoint Value) (next : ℕ) (point : Point Value) (c : Closest R)
      (old : ℤ) (size : ℕ)
      → next < size
      → Known old size c
      → Known old size (try_point R mine p2 next point c)
  unfolding try_point
  try_point-Known mine p2 next point c old size h k =
      let d = distance_between_points R mine point in
      let dn = distance_between_points R point (waypoint_point R p2) in
      let closer : Closest R = record {
        point = point;
        start_waypoint_index = pos next;
        closest_distance = d;
        closest_distance_to_next_waypoint = dn;
      } in
      let inner = less dn c.closest_distance_to_next_waypoint in
      either (Known old size) (less d c.closest_distance) (if inner then closer else c) c
        (λ _. either (Known old size) inner closer c (λ _. inr h) (λ _. k)) (λ _. k)

  try_points-Known :
      (rounds i : ℕ) (mine : Point Value) (p1 p2 : Waypoint Value) (bearing : Value) (next : ℕ)
      (c : Closest R) (old : ℤ) (size : ℕ)
      → next < size
      → Known old size c
      → Known old size (try_points R rounds i mine p1 p2 bearing next c)
  unfolding try_points
  try_points-Known zero i mine p1 p2 bearing next c old size h k = k
  try_points-Known (suc rounds) i mine p1 p2 bearing next c old size h k =
      try_points-Known rounds (i + 1) mine p1 p2 bearing next
        (try_point R mine p2 next (get_destination_point R (waypoint_point R p1) (int R i) bearing)
          c)
        old size h
        (try_point-Known mine p2 next
          (get_destination_point R (waypoint_point R p1) (int R i) bearing) c old size h k)

  try_segment-Known :
      (mine : Point Value) (p1 p2 : Waypoint Value) (next : ℕ) (c : Closest R) (old : ℤ) (size : ℕ)
      → next < size
      → Known old size c
      → Known old size (try_segment R mine p1 p2 next c)
  unfolding try_segment
  try_segment-Known mine p1 p2 next c old size h k =
      let d = get_destination R (waypoint_point R p1) (waypoint_point R p2) in
      try_points-Known (rounds_of R (truncate d.distance)) 1 mine p1 p2 d.bearing next
        (record c { closest_distance_to_next_waypoint = dbl_max }) old size h k

  try_segments-Known :
      (mine : Point Value) (first : Waypoint Value) (i : ℕ) (points : List (Waypoint Value))
      (c : Closest R) (old : ℤ) (size : ℕ)
      → 0 < size
      → i + length points ≤ size
      → Known old size c
      → Known old size (try_segments R mine first i points c)
  unfolding try_segments
  try_segments-Known mine first i [] c old size h le k = k
  try_segments-Known mine first i (p ∷ []) c old size h le k =
      try_segment-Known mine p first 0 c old size h k
  try_segments-Known mine first i (p ∷ q ∷ points) c old size h le k =
      try_segments-Known mine first (i + 1) (q ∷ points) (try_segment R mine p q (i + 1) c) old size
        h (omega arith) (try_segment-Known mine p q (i + 1) c old size (omega arith) k)

  pub find_closest-Known :
      (mine : Point Value) (old : ℤ) (points : List (Waypoint Value))
      → Known old (length points) (find_closest_path_point R mine old points)
  unfolding find_closest_path_point
  find_closest-Known mine old [] = inl refl
  find_closest-Known mine old (p ∷ ps) =
      try_segments-Known mine p 0 (p ∷ ps) _ old (length (p ∷ ps)) (omega arith) (omega arith)
        (inl refl)
