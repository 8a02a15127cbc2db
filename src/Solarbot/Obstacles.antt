-- ===== src/Solarbot/Obstacles.antt =====
-- solarbot/Solarbot.cpp, the part of the main loop under "DETECT OBJECT": what the cameras see stops the
-- rover and lets it go on. Times are readings of `clock` from five seconds before the start on, so that no
-- time that the program keeps is negative; one cycle reads the clock up to three times.
use solarbot_update.Base.{
  inl, inr, refl, ℕ, ◌+◌, ◌≤◌, ◌<◌, ◌≡◌, arith, Bool, true, false, ◌&&◌, ◌||◌, not, List, [], ◌∷◌,
  ◌++◌, All, Bytes, ltb, ◌==◌, same, codes, if◌then◌else◌, ◌*◌, ◌⊎◌,
}

-- Microseconds.
abbrev pub clocks_per_sec : ℕ
clocks_per_sec = 1000000

abbrev pub object_detection_time_to_stop : ℕ
object_detection_time_to_stop = 500000

abbrev pub object_detection_time_to_start : ℕ
object_detection_time_to_start = 3000000

-- What a detector finds in the zones of its camera; 65535 where there is nothing.
pub record Detection : Type 0 where
  pub camera_name : Bytes
  pub results : List ℕ

pub record Seen : Type 0 where
  pub critical_object_detected_count : ℕ
  pub look_left : Bool
  pub look_right : Bool

abbrev finds : List ℕ → Bool
finds [] = false
finds (r ∷ results) = not (r == 65535) || finds results

-- The loop over the detectors.
unfoldable pub detect : List Detection → Seen → Seen
detect [] seen = seen
detect (d ∷ detections) seen = detect detections (
    if finds d.results
    then record {
      critical_object_detected_count = seen.critical_object_detected_count + 1;
      look_left = seen.look_left || same d.camera_name (codes "Left");
      look_right = seen.look_right || same d.camera_name (codes "Right");
    }
    else seen)

abbrev pub nothing : Seen
nothing = record { critical_object_detected_count = 0; look_left = false; look_right = false }

pub record Watch : Type 0 where
  pub do_not_move : Bool
  pub last_object_detection_stop : ℕ
  pub last_object_detection_stop_filter : ℕ

-- The first and the second reading of the clock in a cycle, and what the detectors find.
pub record Cycle : Type 0 where
  pub first : ℕ
  pub second : ℕ
  pub detections : List Detection

abbrev pub is_critical : Cycle → Bool
is_critical c = ltb 0 (detect c.detections nothing).critical_object_detected_count

unfoldable pub watch : Watch → Cycle → Watch
unfolding detect
watch w c =
    if is_critical c
    then (if ltb (w.last_object_detection_stop_filter + object_detection_time_to_stop) c.first
        then record w { do_not_move = true; last_object_detection_stop = c.second }
        else w)
    else record w {
      last_object_detection_stop_filter = c.first;
      do_not_move =
          w.do_not_move
          && not (ltb (w.last_object_detection_stop + object_detection_time_to_start) c.second);
    }

unfoldable pub watch_all : Watch → List Cycle → Watch
unfolding watch
watch_all w [] = w
watch_all w (c ∷ cycles) = watch_all (watch w c) cycles

-- At the start at the time `now`: the filter has been clear for five seconds.
abbrev pub started : ℕ → Watch
started now = record {
  do_not_move = false;
  last_object_detection_stop = now + 5 * clocks_per_sec;
  last_object_detection_stop_filter = now;
}

-- Some zone of some camera holds an object.
unfoldable pub Sees : List Detection → Type 0
Sees [] = ⊥
Sees (d ∷ detections) = (finds d.results ≡ true) ⊎ Sees detections

-- No zone of any camera does.
abbrev pub IsClear : List Detection → Type 0
IsClear = All (λ d. finds d.results ≡ false)

-- What one detector adds.
abbrev count_one : Detection → Seen → Seen
count_one d seen =
    if finds d.results
    then record {
      critical_object_detected_count = seen.critical_object_detected_count + 1;
      look_left = seen.look_left || same d.camera_name (codes "Left");
      look_right = seen.look_right || same d.camera_name (codes "Right");
    }
    else seen

detect_count :
    (detections : List Detection) (seen : Seen)
    → seen.critical_object_detected_count ≤ (detect detections seen).critical_object_detected_count
unfolding detect
detect_count [] seen = omega arith
detect_count (d ∷ detections) seen = ground (arith, detect_count detections (count_one d seen))

detect-Sees :
    (detections : List Detection) (seen : Seen)
    → Sees detections
    → 0 < (detect detections seen).critical_object_detected_count
unfolding detect Sees
detect-Sees [] seen h = elim h [ ]
detect-Sees (d ∷ detections) seen (inl e) =
    ground (arith, detect_count detections (count_one d seen))
detect-Sees (d ∷ detections) seen (inr h) = detect-Sees detections (count_one d seen) h

detect-IsClear :
    (detections : List Detection) (seen : Seen) → IsClear detections → detect detections seen ≡ seen
unfolding detect
detect-IsClear [] seen h = refl
detect-IsClear (d ∷ detections) seen h = rw h.0 (detect-IsClear detections seen h.1)

is_critical-Sees : (c : Cycle) → Sees c.detections → is_critical c ≡ true
is_critical-Sees c h = ground (arith, detect-Sees c.detections nothing h)

is_critical-IsClear : (c : Cycle) → IsClear c.detections → is_critical c ≡ false
is_critical-IsClear c h = rw (detect-IsClear c.detections nothing h) refl

-- Objects that stay in sight until more than half a second after the last clear cycle stop the rover.
pub watch_all-stop :
    (w : Watch) (cycles : List Cycle) (c : Cycle)
    → All (λ c. Sees c.detections) cycles
    → Sees c.detections
    → w.last_object_detection_stop_filter + object_detection_time_to_stop < c.first
    → (watch_all w (cycles ++ c ∷ [])).do_not_move ≡ true
unfolding watch_all
watch_all-stop w [] c h seen late = ground (arith, is_critical-Sees c seen)
watch_all-stop w (d ∷ cycles) c h seen late =
    watch_all-stop (watch w d) cycles c h.1 seen (ground (arith, is_critical-Sees d h.0))

hold_from :
    (base : ℕ) (w : Watch) (cycles : List Cycle)
    → w.do_not_move ≡ true
    → base ≤ w.last_object_detection_stop
    → All (λ c. (base ≤ c.second) × (c.second ≤ base + object_detection_time_to_start)) cycles
    → (watch_all w cycles).do_not_move ≡ true
unfolding watch_all
hold_from base w [] stopped le h = stopped
hold_from base w (c ∷ cycles) stopped le h =
    hold_from base (watch w c) cycles (ground arith) (ground arith) h.1

-- A rover that stands because of an object stands on for three seconds, whatever the cameras see.
pub watch_all-hold :
    (w : Watch) (cycles : List Cycle)
    → w.do_not_move ≡ true
    → All
        (λ c.
          (w.last_object_detection_stop ≤ c.second)
          × (c.second ≤ w.last_object_detection_stop + object_detection_time_to_start))
        cycles
    → (watch_all w cycles).do_not_move ≡ true
watch_all-hold w cycles stopped h =
    hold_from w.last_object_detection_stop w cycles stopped (omega arith) h

-- A rover that saw nothing since it was stopped may move again in the first cycle whose clock is more
-- than three seconds past the stop.
pub watch_all-release :
    (w : Watch) (cycles : List Cycle) (c : Cycle)
    → All (λ c. IsClear c.detections) cycles
    → IsClear c.detections
    → w.last_object_detection_stop + object_detection_time_to_start < c.second
    → (watch_all w (cycles ++ c ∷ [])).do_not_move ≡ false
unfolding watch_all
watch_all-release w [] c h clear late = ground (arith, is_critical-IsClear c clear)
watch_all-release w (d ∷ cycles) c h clear late =
    watch_all-release (watch w d) cycles c h.1 clear (ground (arith, is_critical-IsClear d h.0))
