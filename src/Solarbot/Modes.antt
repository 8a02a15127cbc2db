-- ===== src/Solarbot/Modes.antt =====
-- solarbot/Solarbot.cpp: InitModeWaypoint, InitModeVisual, InitModeLine, and how the program begins to
-- navigate. What files and devices answer is an input.
use solarbot_update.Base.{
  ℕ, ◌+◌, ◌<◌, ◌≡◌, refl, arith, Bool, true, false, not, Option, some, none, List, [], ◌∷◌, Bytes,
  ◌==◌, same, if◌then◌else◌, ℤ, pos, negsuc, is_zero, length, inl, inr, ◌⊎◌, ltb_ℤ,
}
use solarbot_update.MasterApp.Commands.{Mode, standby, mode_waypoints, mode_visual, mode_line}

abbrev pub err_opening_navigation_visual : ℤ
err_opening_navigation_visual = negsuc 25

abbrev pub err_opening_navigation_line : ℤ
err_opening_navigation_line = negsuc 26

abbrev pub err_not_found : ℤ
err_not_found = negsuc 28

-- The settings that the three functions read, and what `LoadWaypoints`, the camera navigator and the line
-- sensor answer.
pub record Setup : Type 0 where
  pub waypoints_file : Bytes
  pub navigation_camera : Bytes
  pub realsense_cameras : List Bytes
  pub load_waypoints : ℤ
  pub cam_init : Bool
  pub line_init : ℤ

pub record Initialized : Type 0 where
  pub mode_waypoint_initialized : Bool
  pub mode_visual_initialized : Bool
  pub mode_line_initialized : Bool
  pub camnavigator_cam_index : ℕ

unfoldable pub init_mode_waypoint : Setup → Initialized → Initialized × ℤ
init_mode_waypoint s i =
    if i.mode_waypoint_initialized
    then (i, pos 0)
    else if not (same s.waypoints_file [])
    then (if not (is_zero s.load_waypoints)
        then (i, s.load_waypoints)
        else (record i { mode_waypoint_initialized = true }, pos 0))
    else (i, err_not_found)

-- The index of the first camera of that name, counted from `i`.
unfoldable pub find_camera : Bytes → ℕ → List Bytes → Option ℕ
find_camera name i [] = none
find_camera name i (camera ∷ cameras) =
    if same camera name then some i else find_camera name (i + 1) cameras

unfoldable pub init_mode_visual : Setup → Initialized → Initialized × ℤ
init_mode_visual s i =
    if i.mode_visual_initialized
    then (i, pos 0)
    else if not s.cam_init
    then (i, err_opening_navigation_visual)
    else elim (find_camera s.navigation_camera 0 s.realsense_cameras) [
      | some k ↦ (record i { camnavigator_cam_index = k; mode_visual_initialized = true }, pos 0)
      | none ↦ (i, err_not_found)
    ]

unfoldable pub init_mode_line : Setup → Initialized → Initialized × ℤ
init_mode_line s i =
    if i.mode_line_initialized
    then (i, pos 0)
    else if not (is_zero s.line_init)
    then (i, err_opening_navigation_line)
    else (record i { mode_line_initialized = true }, pos 0)

unfoldable pub init_mode : Mode → Setup → Initialized → Initialized × ℤ
unfolding init_mode_waypoint init_mode_visual init_mode_line
init_mode mode_visual s i = init_mode_visual s i
init_mode mode_line s i = init_mode_line s i
init_mode mode_waypoints s i = init_mode_waypoint s i
init_mode standby s i = (i, pos 0)

abbrev is_standby : Mode → Bool
is_standby standby = true
is_standby m = false

-- Whether the rover navigates at the start; the program ends with the error where a mode cannot begin.
unfoldable pub begin : Mode → Setup → Initialized → Initialized × (Bool ⊎ ℤ)
unfolding init_mode
begin mode s i =
    let (i', result) = init_mode mode s i in
    (i', if is_zero result then inl (not (is_standby mode)) else inr result)

-- The best heading: that of the two receivers, else that of the compass; -1 is none.
unfoldable pub select_heading : ℤ → ℤ → ℤ
select_heading gps_heading compass_heading =
    if ltb_ℤ (negsuc 0) gps_heading then gps_heading else compass_heading

-- What one cycle navigates by.
pub data Move : Type 0 where
  no_move : Move
  show_no_position : Move
  to_waypoint : Move
  next_cam : Move
  by_line : Move

-- Under "Navigating": what is done in a mode, where `good` says that both positions are good.
unfoldable pub navigate : Bool → Mode → Bool → Move
navigate false mode good = no_move
navigate true mode_waypoints good = if good then to_waypoint else show_no_position
navigate true mode_visual good = next_cam
navigate true mode_line good = by_line
navigate true standby good = no_move

-- After `GotoNextWaypoint` answers `r`: whether the rover goes on, and its mode. Where it is done, the
-- source compares the mode with standby, and the mode stays.
unfoldable pub after_waypoint : ℤ → Mode → Bool × Mode
after_waypoint (pos n) mode = (true, mode)
after_waypoint (negsuc n) mode = (not (n == 98), mode)

-- Where the mode is ready, the camera that it names is one of the cameras.
abbrev pub IsValid : List Bytes → Initialized → Type 0
IsValid cameras i = i.mode_visual_initialized ≡ true → i.camnavigator_cam_index < length cameras

find_camera-lt :
    (name : Bytes) (i k : ℕ) (cameras : List Bytes)
    → find_camera name i cameras ≡ some k
    → k < i + length cameras
unfolding find_camera
find_camera-lt name i k [] e = cc
find_camera-lt name i k (camera ∷ cameras) e = ground (arith, find_camera-lt name (i + 1) k cameras)

visual_again :
    (s s' : Setup) (i i' : Initialized)
    → IsValid s.realsense_cameras i
    → init_mode_visual s i ≡ (i', pos 0)
    → (init_mode_visual s' i' ≡ (i', pos 0)) × IsValid s.realsense_cameras i'
unfolding init_mode_visual
visual_again s s' i i' h =
    elim (Option-cases (find_camera s.navigation_camera 0 s.realsense_cameras)) [
      | inl e ↦ rw e (λ p. ground arith)
      | inr (k, e) ↦
          rw e (λ p. ground (arith, find_camera-lt s.navigation_camera 0 k s.realsense_cameras e))
    ]
  where
    Option-cases : (o : Option ℕ) → (o ≡ none) ⊎ ((k : ℕ) × (o ≡ some k))
    Option-cases none = inl refl
    Option-cases (some k) = inr (k, refl)

-- A mode that has begun begins again at once, with no device or file asked, and the camera that the
-- program navigates by stays one of the cameras.
pub init_mode-again :
    (m : Mode) (s s' : Setup) (i i' : Initialized)
    → IsValid s.realsense_cameras i
    → init_mode m s i ≡ (i', pos 0)
    → (init_mode m s' i' ≡ (i', pos 0)) × IsValid s.realsense_cameras i'
unfolding init_mode
init_mode-again standby s s' i i' h e = (refl, ground arith)
init_mode-again mode_waypoints s s' i i' h e = ground arith
init_mode-again mode_visual s s' i i' h e = visual_again s s' i i' h e
init_mode-again mode_line s s' i i' h e = ground arith
