-- ===== src/Navigator/Motion.antt =====
-- solarbot/Navigator.cpp: Move and GotoWaypoint.
use solarbot_update.Base.{
  ℕ, suc, ◌/◌, Bool, true, false, ◌&&◌, Option, none, some, if◌then◌else◌, ℤ, pos, negsuc, minus,
  neg, ◌+ℤ◌,
}
use solarbot_update.Double.{Double}
use solarbot_update.Geodesy.{get_destination}
use solarbot_update.MasterApp.Commands.{Mode, mode_visual}
use solarbot_update.Navigator.{Waypoint, Navigator, int, Fix, fix_point, waypoint_point}

pub data Eyes : Type 0 where
  angry : Eyes
  look_l : Eyes
  look_r : Eyes
  arrow_left : Eyes
  arrow_right : Eyes

-- `speed / 2`, rounded towards 0.

abbrev pub half : ℤ → ℤ
half (pos n) = pos (n / 2)
half (negsuc n) = neg (suc n / 2)

abbrev pub is_mode_visual : Mode → Bool
is_mode_visual mode_visual = true
is_mode_visual m = false

abbrev pub speed_dir_contrarias : ℕ
speed_dir_contrarias = 500

module _ (R : Double) where
  open R use {Value, of_int, add, sub, mul, div, negate, less, parse, truncate, dbl_max}

  -- The rover may not move: it stops, and looks angry once.
  unfoldable pub stand : Navigator Value → Navigator Value × Option Eyes
  stand n = (
    record n {
      motor_left = pos 0;
      motor_right = pos 0;
      eyes_angry = true;
      eyes_left = false;
      eyes_right = false;
      fast_eyes_left = false;
      fast_eyes_right = false;
    },
    if n.eyes_angry then none else some angry,
  )

  -- How far the wheels differ, and up to which angle they turn the same way.
  unfoldable pub steering : Mode → ℤ → Value → Value × Value
  steering mode speed distance =
      if is_mode_visual mode
      then (int R 400, int R 90)
      else if less distance (int R 1)
      then (int R 400, int R 45)
      else (of_int (speed +ℤ minus (half speed)), int R 15)

  unfoldable pub normalize : Value → Value
  normalize angle =
      if less (int R 180) angle
      then sub angle (int R 360)
      else if less angle (negate (int R 180))
      then add angle (int R 360)
      else angle

  -- Both wheels forward, one of them slower.
  unfoldable pub bend : ℤ → Value → Value → Value → Navigator Value → Navigator Value × Option Eyes
  bend speed angle slow_angle steering_speed n =
      let change = truncate (mul (div angle slow_angle) steering_speed) in
      if less (int R 0) angle
      then (
        record n {
          motor_left = speed;
          motor_right = speed +ℤ minus change;
          eyes_right = true;
          eyes_left = false;
          fast_eyes_left = false;
          fast_eyes_right = false;
        },
        if n.eyes_right then none else some look_r,
      )
      else (
        record n {
          motor_left = speed +ℤ change;
          motor_right = speed;
          eyes_left = true;
          eyes_right = false;
          fast_eyes_left = false;
          fast_eyes_right = false;
        },
        if n.eyes_left then none else some look_l,
      )

  -- The wheels against each other.
  unfoldable pub turn : Value → Navigator Value → Navigator Value × Option Eyes
  turn angle n =
      if less (int R 0) angle
      then (
        record n {
          motor_left = pos speed_dir_contrarias;
          motor_right = neg speed_dir_contrarias;
          fast_eyes_right = true;
          fast_eyes_left = false;
          eyes_left = false;
          eyes_right = false;
        },
        if n.fast_eyes_right then none else some arrow_right,
      )
      else (
        record n {
          motor_left = neg speed_dir_contrarias;
          motor_right = pos speed_dir_contrarias;
          fast_eyes_left = true;
          fast_eyes_right = false;
          eyes_left = false;
          eyes_right = false;
        },
        if n.fast_eyes_left then none else some arrow_left,
      )

  -- The speeds that Move then writes to the driver stand in the state.
  unfoldable pub move : ℤ → Value → Value → Navigator Value → Navigator Value × Option Eyes
  unfolding stand steering normalize bend turn
  move speed angle distance n =
      let angle' = normalize angle in
      let (steering_speed, slow_angle) = steering n.mode speed distance in
      let calm = record n { eyes_angry = false } in
      if n.do_not_move
      then stand n
      else if less (negate slow_angle) angle' && less angle' slow_angle
      then bend speed angle' slow_angle steering_speed calm
      else turn angle' calm

  abbrev tenths : ℕ → Value
  tenths n = div (int R n) (int R 10)

  -- Whether the rover goes on to a point at that distance, and the distance that it remembers.
  unfoldable pub goes_on : Value → Value → Value → Value → Bool × Value
  goes_on distance bearing heading last_distance =
      let difference = sub bearing heading in
      let angle = if less difference (int R 0) then negate difference else difference in
      if less distance (tenths 1)
      then (false, int R 1)
      else if less distance (int R 1)
      then (if less (int R 45) angle
          then (false, last_distance)
          else if less (mul (tenths 12) last_distance) distance
          then (false, int R 1)
          else (true, distance))
      else (true, int R 1)

  -- The answer says whether the rover still goes on.
  unfoldable pub goto_waypoint : Fix R → Waypoint Value → Navigator Value → Navigator Value × Bool
  unfolding goes_on
  goto_waypoint w p n =
      let d = get_destination R (fix_point R w) (waypoint_point R p) in
      let (going, last) = goes_on d.distance d.bearing w.heading n.last_distance in
      let n' = record n { last_distance = last } in
      (if going then (move p.speed (sub d.bearing w.heading) d.distance n').0 else n', going)
