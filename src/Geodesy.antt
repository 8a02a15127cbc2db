-- ===== src/Geodesy.antt =====
-- solarbot/Navigator.cpp: distances, bearings and points on the earth, over the parameter `R` for
-- floating-point numbers.
use solarbot_update.Base.{ℕ, if◌then◌else◌, ℤ, pos, negsuc, ◌+ℤ◌, ◌%◌, neg, suc}
use solarbot_update.Double.{Double}

pub record Point (V : Type 0) : Type 0 where
  pub lat : V
  pub lon : V

pub record Destination (V : Type 0) : Type 0 where
  pub bearing : V
  pub distance : V

-- `z % 360`: the sign is that of `z`.
abbrev remainder_360 : ℤ → ℤ
remainder_360 (pos n) = pos (n % 360)
remainder_360 (negsuc n) = neg (suc n % 360)

module _ (R : Double) where
  open R use {
    Value, of_int, add, sub, mul, div, less, equal, truncate, sin, cos, asin, atan2, sqrt, pi,
  }

  abbrev int : ℕ → Value
  int n = of_int (pos n)

  unfoldable pub degrees_to_radians : Value → Value
  degrees_to_radians degree = div (mul degree pi) (int 180)

  -- The haversine of two places in degrees.
  unfoldable pub distance_between : Value → Value → Value → Value → Value
  unfolding degrees_to_radians
  distance_between lat1 long1 lat2 long2 =
      let lat1r = degrees_to_radians lat1 in
      let lon1r = degrees_to_radians long1 in
      let lat2r = degrees_to_radians lat2 in
      let lon2r = degrees_to_radians long2 in
      let u = sin (div (sub lat2r lat1r) (int 2)) in
      let v = sin (div (sub lon2r lon1r) (int 2)) in
      mul (mul (int 2) (int 6371000))
        (asin (sqrt (add (mul u u) (mul (mul (mul (cos lat1r) (cos lat2r)) v) v))))

  -- The source turns the degrees into radians here, and once more in the function above.
  unfoldable pub distance_between_points : Point Value → Point Value → Value
  unfolding distance_between
  distance_between_points p1 p2 =
      distance_between (degrees_to_radians p1.lat) (degrees_to_radians p1.lon)
        (degrees_to_radians p2.lat) (degrees_to_radians p2.lon)

  -- From radians, in whole degrees from 0 to 359.
  unfoldable pub bearing_to : Value → Value → Value → Value → Value
  bearing_to lat1 long1 lat2 long2 =
      let y = mul (cos lat2) (sin (sub long2 long1)) in
      let x =
        sub (mul (sin lat2) (cos lat1)) (mul (mul (sin lat1) (cos lat2)) (cos (sub long2 long1))) in
      if equal y (int 0)
      then (if less lat1 lat2 then int 0 else int 180)
      else of_int (remainder_360 (truncate (div (mul (atan2 y x) (int 180)) pi) +ℤ pos 360))

  unfoldable pub get_destination : Point Value → Point Value → Destination Value
  unfolding bearing_to
  get_destination from to =
      let lat1 = degrees_to_radians from.lat in
      let long1 = degrees_to_radians from.lon in
      let lat2 = degrees_to_radians to.lat in
      let long2 = degrees_to_radians to.lon in
      let u = sin (div (sub lat2 lat1) (int 2)) in
      let v = sin (div (sub long2 long1) (int 2)) in
      let ans = add (mul u u) (mul (mul (cos lat1) (cos lat2)) (mul v v)) in
      record {
        distance = mul (mul (int 2) (asin (sqrt ans))) (int 6371000);
        bearing = bearing_to lat1 long1 lat2 long2;
      }

  unfoldable pub get_destination_point : Point Value → Value → Value → Point Value
  get_destination_point from distance bearing =
      let rr = div distance (int 6371000) in
      let lat1 = degrees_to_radians from.lat in
      let lon1 = degrees_to_radians from.lon in
      let angle = degrees_to_radians bearing in
      let lat2 = asin (add (mul (sin lat1) (cos rr)) (mul (mul (cos lat1) (sin rr)) (cos angle))) in
      let lon2 = add lon1 (
        atan2 (mul (mul (sin angle) (sin rr)) (cos lat1))
          (sub (cos rr) (mul (sin lat1) (sin lat2)))) in
      record { lat = div (mul lat2 (int 180)) pi; lon = div (mul lon2 (int 180)) pi }

  unfoldable pub get_bearing : Point Value → Point Value → Value
  unfolding bearing_to
  get_bearing from to =
      bearing_to (degrees_to_radians from.lat) (degrees_to_radians from.lon)
        (degrees_to_radians to.lat) (degrees_to_radians to.lon)
