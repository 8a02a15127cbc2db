-- ===== src/MasterApp/Modes.antt =====
-- The navigation mode that a command leaves.
use solarbot_update.Text.{is_space}
use solarbot_update.Base.{
  All, append-nil, append_assoc, ◌++◌, ◌<◌, ◌≢◌, ◌⊎◌, sym, ap, ◌∙◌, length, same_sound, arith, ℕ,
  ◌≡◌, refl, Bool, true, false, List, [], ◌∷◌, Bytes, ltb, if◌then◌else◌, Bool-cases, inl, inr,
  codes, same,
}
use solarbot_update.MasterApp.Commands.{
  Mode, standby, mode_waypoints, mode_visual, mode_line, Rover, outcome, string_to_mode,
  execute_goto, execute_reset, set_mode, execute_setmode, execute_power, tokens, dispatch,
  execute_command, field,
}

abbrev pub moves : Mode → Bool
moves standby = false
moves mode_waypoints = true
moves mode_visual = true
moves mode_line = true

-- The rover navigates exactly when its mode is one of the three that move it.
pub record IsSteady (r : Rover) : Type 0 where
  pub steady : r.navigating ≡ moves r.mode

-- Whether the rover can enter a mode.
abbrev pub can_enter : Rover → Mode → Bool
can_enter r standby = true
can_enter r mode_waypoints = ltb 0 r.waypoint_count
can_enter r mode_visual = (outcome r).visual_ready
can_enter r mode_line = (outcome r).line_ready

abbrev Enters : Rover → Mode → Rover → Type 0
Enters r m r' =
    (r'.mode ≡ (if can_enter r m then m else standby))
    × (r'.navigating ≡ moves r'.mode)
    × (r'.lost ≡ r.lost)

set_mode-Enters : (r : Rover) (m : Mode) (i : ℕ) → Enters r m (set_mode r m i)
unfolding set_mode
set_mode-Enters r standby i = (refl, refl, refl)
set_mode-Enters r mode_waypoints i = elim (Bool-cases (ltb 0 r.waypoint_count)) [
  | inl e ↦ rw e (refl, refl, refl)
  | inr e ↦ rw e (refl, refl, refl)
]
set_mode-Enters r mode_visual i = elim (Bool-cases (outcome r).visual_ready) [
  | inl e ↦ rw e (refl, refl, refl)
  | inr e ↦ rw e (refl, refl, refl)
]
set_mode-Enters r mode_line i = elim (Bool-cases (outcome r).line_ready) [
  | inl e ↦ rw e (refl, refl, refl)
  | inr e ↦ rw e (refl, refl, refl)
]

-- The name of a mode: any other text names standby.
abbrev pub Names : Bytes → Mode → Type 0
Names text mode_line = text ≡ codes "line"
Names text mode_visual = text ≡ codes "visual"
Names text mode_waypoints = text ≡ codes "waypoints"
Names text standby = (text ≢ codes "line") × (text ≢ codes "visual") × (text ≢ codes "waypoints")

differ : (xs ys : Bytes) → xs ≢ ys → same xs ys ≡ false
differ xs ys n = elim (Bool-cases (same xs ys)) [
  | inl e ↦ absurd (n (same_sound xs ys e))
  | inr e ↦ e
]

string_to_mode-Names : (text : Bytes) (m : Mode) → Names text m → string_to_mode text ≡ m
unfolding string_to_mode
string_to_mode-Names text mode_line e = rw e refl
string_to_mode-Names text mode_visual e = rw e refl
string_to_mode-Names text mode_waypoints e = rw e refl
string_to_mode-Names text standby (line, visual, waypoints) =
    rw (differ text (codes "line") line) (
      rw (differ text (codes "visual") visual)
        (rw (differ text (codes "waypoints") waypoints) refl))

-- The last word of a text.
tokens_word :
    (w : ℕ) (word cs : Bytes)
    → All (λ c. is_space c ≡ false) cs
    → tokens (w ∷ word) cs ≡ (w ∷ (word ++ cs)) ∷ []
unfolding tokens
tokens_word w word [] h = ap (λ (l : Bytes). (w ∷ l) ∷ []) (sym (append-nil word))
tokens_word w word (c ∷ cs) h = rw h.0 (
    tokens_word w (word ++ c ∷ []) cs h.1
    ∙ ap (λ (l : Bytes). (w ∷ l) ∷ []) (append_assoc word (c ∷ []) cs))

tokens_one :
    (name : Bytes)
    → 0 < length name
    → All (λ c. is_space c ≡ false) name
    → tokens [] name ≡ name ∷ []
unfolding tokens
tokens_one [] long h = absurd (omega arith)
tokens_one (c ∷ cs) long h = rw h.0 (tokens_word c [] cs h.1)

tokens-setmode :
    (name : Bytes)
    → 0 < length name
    → All (λ c. is_space c ≡ false) name
    → tokens [] (codes "SETMODE " ++ name) ≡ codes "SETMODE" ∷ name ∷ []
unfolding tokens
tokens-setmode name long h =
    ap (λ (words : List Bytes). codes "SETMODE" ∷ words) (tokens_one name long h)

setmode_command :
    (r : Rover) (name : Bytes) (m : Mode) (i : ℕ)
    → 0 < length name
    → All (λ c. is_space c ≡ false) name
    → Names name m
    → execute_command r (codes "SETMODE " ++ name) i ≡ set_mode r m i
unfolding execute_command dispatch execute_setmode
setmode_command r name m i long h named =
    ap (λ (words : List Bytes). dispatch r words i) (tokens-setmode name long h)
    ∙ ap (λ (entered : Mode). set_mode r entered i) (string_to_mode-Names name m named)

-- The command SETMODE with one word enters the mode that the word names (`line`, `visual`, `waypoints`, and
-- with any other word standby) when there are waypoints for it or its device is ready, and standby in every
-- other case; afterwards the rover navigates exactly when it is not in standby, and the handling goes on.
pub execute_setmode-mode :
    (r : Rover) (name : Bytes) (m : Mode) (frame_id : ℕ)
    → 0 < length name
    → All (λ c. is_space c ≡ false) name
    → Names name m
    → ((execute_command r (codes "SETMODE " ++ name) frame_id).mode
        ≡ (if can_enter r m then m else standby))
      × ((execute_command r (codes "SETMODE " ++ name) frame_id).navigating
          ≡ moves (execute_command r (codes "SETMODE " ++ name) frame_id).mode)
      × ((execute_command r (codes "SETMODE " ++ name) frame_id).lost ≡ r.lost)
execute_setmode-mode r name m frame_id long h named =
    rw (setmode_command r name m frame_id long h named) (set_mode-Enters r m frame_id)

-- The mode, and whether the rover navigates, are as before.
abbrev pub Stays : Rover → Rover → Type 0
Stays r r' = (r'.mode ≡ r.mode) × (r'.navigating ≡ r.navigating)

-- A command leaves the rover steady or leaves it alone.
abbrev Settles : Rover → Rover → Type 0
Settles r r' = IsSteady r' ⊎ Stays r r'

goto-Settles : (r : Rover) (fields : List Bytes) (i : ℕ) → Settles r (execute_goto r fields i)
unfolding execute_goto string_to_mode
goto-Settles r fields i = elim (Bool-cases (outcome r).location_good) [
  | inl e ↦ elim (Bool-cases (ltb 6 (length fields))) [
    | inl h ↦ elim (Bool-cases (outcome r).planner_started) [
      | inl p ↦ elim (Bool-cases (outcome r).loaded) [
        | inl f ↦ rw e (rw h (rw p (rw f (inl (record { steady = refl })))))
        | inr f ↦ rw e (rw h (rw p (rw f (inr (refl, refl)))))
      ]
      | inr p ↦ rw e (rw h (rw p (inr (refl, refl))))
    ]
    | inr h ↦ rw e (rw h (inr (refl, refl)))
  ]
  | inr e ↦ rw e (inr (refl, refl))
]

reset-Settles : (r : Rover) (fields : List Bytes) (i : ℕ) → Settles r (execute_reset r fields i)
unfolding execute_reset
reset-Settles r fields i = elim (Bool-cases (ltb 1 (length fields))) [
  | inl h ↦ elim (Bool-cases (same (field fields 1) (codes "GPS"))) [
    | inl e ↦ rw h (rw e (inr (refl, refl)))
    | inr e ↦ rw h (rw e (inr (refl, refl)))
  ]
  | inr h ↦ rw h (inr (refl, refl))
]

setmode-Settles : (r : Rover) (fields : List Bytes) (i : ℕ) → Settles r (execute_setmode r fields i)
unfolding execute_setmode
setmode-Settles r fields i = elim (Bool-cases (ltb 1 (length fields))) [
  | inl h ↦
      rw h (inl (record { steady = (set_mode-Enters r (string_to_mode (field fields 1)) i).1 }))
  | inr h ↦ rw h (inr (refl, refl))
]

power-Settles : (r : Rover) (fields : List Bytes) (i : ℕ) → Settles r (execute_power r fields i)
unfolding execute_power
power-Settles r fields i = elim (Bool-cases (ltb 1 (length fields))) [
  | inl h ↦ rw h (inr (refl, refl))
  | inr h ↦ rw h (inr (refl, refl))
]

dispatch-Settles : (r : Rover) (words : List Bytes) (i : ℕ) → Settles r (dispatch r words i)
unfolding dispatch
dispatch-Settles r [] i = inr (refl, refl)
dispatch-Settles r (name ∷ rest) i = elim (Bool-cases (same name (codes "GOTO"))) [
  | inl e ↦ rw e (goto-Settles r (name ∷ rest) i)
  | inr e ↦ elim (Bool-cases (same name (codes "RESET"))) [
    | inl f ↦ rw e (rw f (reset-Settles r (name ∷ rest) i))
    | inr f ↦ elim (Bool-cases (same name (codes "SETMODE"))) [
      | inl g ↦ rw e (rw f (rw g (setmode-Settles r (name ∷ rest) i)))
      | inr g ↦ elim (Bool-cases (same name (codes "POWER"))) [
        | inl k ↦ rw e (rw f (rw g (rw k (power-Settles r (name ∷ rest) i))))
        | inr k ↦ rw e (rw f (rw g (rw k (inr (refl, refl)))))
      ]
    ]
  ]
]

-- From any state, also one in which the end of a route has stopped the rover without a change of its mode,
-- a command, whatever its text and however the devices answer, either leaves the rover navigating exactly
-- when its mode is one that moves it, or changes neither the mode nor whether it navigates.
pub execute_command-IsSteady :
    (r : Rover) (cmd : Bytes) (frame_id : ℕ)
    → IsSteady (execute_command r cmd frame_id) ⊎ Stays r (execute_command r cmd frame_id)
unfolding execute_command
execute_command-IsSteady r cmd frame_id = dispatch-Settles r (tokens [] cmd) frame_id
