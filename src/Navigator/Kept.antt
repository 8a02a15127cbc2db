-- ===== src/Navigator/Kept.antt =====
-- What Move and GotoWaypoint leave alone.
use solarbot_update.Base.{◌≡◌, refl, Bool, true, false, Option, if◌then◌else◌, ℤ}
use solarbot_update.Double.{Double}
use solarbot_update.Navigator.{Navigator, Waypoint, Fix}
use solarbot_update.Navigator.Motion.{Eyes, stand, bend, turn, move, goto_waypoint}

-- A property of both branches, with the test.
pub either {ℓ κ} :
    {A : Type ℓ} (P : A → Type κ) (b : Bool) (x y : A)
    → (b ≡ true → P x)
    → (b ≡ false → P y)
    → P (if b then x else y)
either P true x y h k = h refl
either P false x y h k = k refl

module _ (R : Double) where
  open R use {Value, less, of_int, truncate, dbl_max}

  -- What moving leaves alone.
  abbrev pub Kept : Navigator Value → Navigator Value → Type 0
  Kept n n' =
      (n'.waypoints_index ≡ n.waypoints_index)
      × (n'.waypoints ≡ n.waypoints)
      × (n'.waypoints_size ≡ n.waypoints_size)
      × (n'.loop_navigate ≡ n.loop_navigate)
      × (n'.finding_path ≡ n.finding_path)

  if-Kept :
      (n : Navigator Value) (b : Bool) (x y : Navigator Value × Option Eyes)
      → Kept n x.0
      → Kept n y.0
      → Kept n (if b then x else y).0
  if-Kept n true x y h k = h
  if-Kept n false x y h k = k

  stand-Kept : (n : Navigator Value) → Kept n (stand R n).0
  unfolding stand
  stand-Kept n = (refl, refl, refl, refl, refl)

  bend-Kept :
      (n : Navigator Value) (speed : ℤ) (angle slow steering : Value)
      → Kept n (bend R speed angle slow steering n).0
  unfolding bend
  bend-Kept n speed angle slow steering =
      if-Kept n _ _ _ (refl, refl, refl, refl, refl) (refl, refl, refl, refl, refl)

  turn-Kept : (n : Navigator Value) (angle : Value) → Kept n (turn R angle n).0
  unfolding turn
  turn-Kept n angle = if-Kept n _ _ _ (refl, refl, refl, refl, refl) (refl, refl, refl, refl, refl)

  move-Kept :
      (n : Navigator Value) (speed : ℤ) (angle distance : Value)
      → Kept n (move R speed angle distance n).0
  unfolding move
  move-Kept n speed angle distance =
      let calm = record n { eyes_angry = false } in
      if-Kept n n.do_not_move _ _ (stand-Kept n)
        (if-Kept n _ _ _ (bend-Kept calm speed _ _ _) (turn-Kept calm _))

  pub goto_waypoint-Kept :
      (w : Fix R) (p : Waypoint Value) (n : Navigator Value) → Kept n (goto_waypoint R w p n).0
  unfolding goto_waypoint
  goto_waypoint-Kept w p n =
      one_of (goto_waypoint R w p n).1 _ _ (move-Kept _ p.speed _ _) (refl, refl, refl, refl, refl)
    where
      one_of :
          (b : Bool) (x y : Navigator Value) → Kept n x → Kept n y → Kept n (if b then x else y)
      one_of true x y h k = h
      one_of false x y h k = k
