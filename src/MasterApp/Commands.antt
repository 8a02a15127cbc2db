-- ===== src/MasterApp/Commands.antt =====
-- MasterApp.cpp: `ExecuteCommand` and its handlers, with what they change of the rover: Solarbot.cpp,
-- `setNavigationMode`, and Navigator.cpp, `String2Mode`.
use solarbot_update.Text.{is_space}
use solarbot_update.Base.{
  ℕ, ◌+◌, Bool, true, false, Option, none, List, [], ◌∷◌, ◌++◌, Bytes, length, get_or, set, drop,
  ltb, ◌==◌, if◌then◌else◌, codes, same,
}
use solarbot_update.Frame.{Frame, ping, command}
use solarbot_update.Frame.Decode.{drive}
use solarbot_update.MasterApp.{Link, send_command_ack, send_ping_ack}

-- `Navigator::Modes`
pub data Mode : Type 0 where
  standby : Mode
  mode_waypoints : Mode
  mode_visual : Mode
  mode_line : Mode

-- What the devices and files answer while a command runs: whether both positions are good, whether the
-- command line of the route planner fits its 255 bytes and `popen` starts it, whether
-- `LoadWaypoints` returns `OK` and how many waypoints it leaves, and whether `InitModeVisual` and
-- `InitModeLine` return 0.
pub record Outcome : Type 0 where
  pub location_good : Bool
  pub planner_started : Bool
  pub loaded : Bool
  pub loaded_count : ℕ
  pub visual_ready : Bool
  pub line_ready : Bool

-- The part of `Solarbot` that the commands read and change. `outcomes n` is what the devices answer
-- after `n` packets have been sent. In `start_waypoint_index`, `none` is -1.
pub record Rover : Type 0 where
  pub mode : Mode
  pub navigating : Bool
  pub start_waypoint_index : Option ℕ
  pub waypoint_count : ℕ
  pub gps_resets : ℕ
  pub gps2_resets : ℕ
  pub power_written : List Bytes
  pub outcomes : ℕ → Outcome
  -- An exception, or a read past the words of a command, has ended what handles the bytes.
  pub lost : Bool
  pub link : Link

-- `Navigator::String2Mode`
unfoldable pub string_to_mode : Bytes → Mode
string_to_mode s_mode =
    if same s_mode (codes "line")
    then mode_line
    else if same s_mode (codes "visual")
    then mode_visual
    else if same s_mode (codes "waypoints")
    then mode_waypoints
    else standby

-- `SendCommandACK`, on the whole state.
abbrev pub acknowledge : Rover → ℕ → Bytes → Rover
acknowledge r frame_id msg = record r { link = send_command_ack r.link frame_id msg }

abbrev pub outcome : Rover → Outcome
outcome r = r.outcomes (length r.link.sent)

-- `fields[i]`, for a number that is checked.
abbrev pub field : List Bytes → ℕ → Bytes
field fields i = get_or fields i []

-- `solarbot->navigator->Mode = Standby; solarbot->navigating = false`
abbrev pub stop : Rover → Rover
stop r = record r { mode = standby; navigating = false }

-- The words are read up to the number `last`; past the end the behaviour is undefined.
abbrev pub reading : Rover → List Bytes → ℕ → Rover → Rover
reading r fields last answer = if ltb last (length fields) then answer else record r { lost = true }

-- `ExecuteCommand_GOTO`. The route planner that it runs writes the file of waypoints; where `popen` fails,
-- an exception ends it.
unfoldable pub execute_goto : Rover → List Bytes → ℕ → Rover
execute_goto r fields frame_id =
    let o = outcome r in
    let loaded = record r { waypoint_count = o.loaded_count } in
    if o.location_good
    then reading r fields 6 (
        if o.planner_started
        then (if o.loaded
            then record (acknowledge (record loaded { start_waypoint_index = none }) frame_id
                (codes "OK")) { mode = string_to_mode (codes "waypoints"); navigating = true }
            else acknowledge loaded frame_id (codes "ERROR: Loading generated waypoints file"))
        else record r { lost = true })
    else acknowledge r frame_id (codes "ERROR: Current Location is not good")

-- `ExecuteCommand_RESET`
unfoldable pub execute_reset : Rover → List Bytes → ℕ → Rover
execute_reset r fields frame_id = reading r fields 1 (
    if same (field fields 1) (codes "GPS")
    then acknowledge (record r { gps_resets = r.gps_resets + 1; gps2_resets = r.gps2_resets + 1 })
        frame_id (codes "OK")
    else acknowledge r frame_id (codes "ERROR: Invalid RESET command"))

-- `ExecuteCommand_SETMODE`, after `String2Mode`.
unfoldable pub set_mode : Rover → Mode → ℕ → Rover
set_mode r mode_waypoints frame_id =
    if ltb 0 r.waypoint_count
    then acknowledge
        (record r { start_waypoint_index = none; mode = mode_waypoints; navigating = true })
        frame_id (codes "OK")
    else acknowledge (stop r) frame_id (codes "ERROR: There is not any waypoints")
set_mode r mode_visual frame_id =
    if (outcome r).visual_ready
    then acknowledge (record r { mode = mode_visual; navigating = true }) frame_id (codes "OK")
    else acknowledge (stop r) frame_id (codes "ERROR: InitModeVisual")
set_mode r mode_line frame_id =
    if (outcome r).line_ready
    then acknowledge (record r { mode = mode_line; navigating = true }) frame_id (codes "OK")
    else acknowledge (stop r) frame_id (codes "ERROR: InitModeLine")
set_mode r standby frame_id = acknowledge (stop r) frame_id (codes "OK")

-- `ExecuteCommand_SETMODE`
unfoldable pub execute_setmode : Rover → List Bytes → ℕ → Rover
unfolding string_to_mode
execute_setmode r fields frame_id =
    reading r fields 1 (set_mode r (string_to_mode (field fields 1)) frame_id)

-- `ExecuteCommand_POWER`
unfoldable pub execute_power : Rover → List Bytes → ℕ → Rover
execute_power r fields frame_id = reading r fields 1 (
    acknowledge (record r { power_written = r.power_written ++ field fields 1 ∷ [] }) frame_id
      (codes "OK"))

-- The words of a text; `word` is what has been read of the current one.
unfoldable pub tokens : Bytes → Bytes → List Bytes
tokens [] [] = []
tokens (w ∷ word) [] = (w ∷ word) ∷ []
tokens [] (c ∷ cs) = if is_space c then tokens [] cs else tokens (c ∷ []) cs
tokens (w ∷ word) (c ∷ cs) =
    if is_space c then (w ∷ word) ∷ tokens [] cs else tokens ((w ∷ word) ++ c ∷ []) cs

-- `ExecuteCommand`, on the words of the command.
unfoldable pub dispatch : Rover → List Bytes → ℕ → Rover
unfolding execute_goto execute_reset execute_setmode execute_power
dispatch r [] frame_id = acknowledge r frame_id (codes "ERROR: Parsing Command")
dispatch r (name ∷ arguments) frame_id =
    if same name (codes "GOTO")
    then execute_goto r (name ∷ arguments) frame_id
    else if same name (codes "RESET")
    then execute_reset r (name ∷ arguments) frame_id
    else if same name (codes "SETMODE")
    then execute_setmode r (name ∷ arguments) frame_id
    else if same name (codes "POWER")
    then execute_power r (name ∷ arguments) frame_id
    else acknowledge r frame_id (codes "ERROR: No Command")

-- `ExecuteCommand`
unfoldable pub execute_command : Rover → Bytes → ℕ → Rover
unfolding dispatch tokens
execute_command r cmd frame_id = dispatch r (tokens [] cmd) frame_id

-- The text up to the first 0.
unfoldable pub c_string : Bytes → Bytes
c_string [] = []
c_string (c ∷ cs) = if c == 0 then [] else c ∷ c_string cs

-- What `ParseRawRx` does with a frame that the decoder has completed; nothing once the handling is lost.
unfoldable pub handle_frame : Rover → Frame → Rover × Frame
unfolding execute_command
handle_frame r d =
    let terminated = record d { frame_buffer = set d.frame_buffer (d.rx_payload_length + 8) 0 } in
    if r.lost
    then (r, d)
    else if d.rx_frame_type == ping
    then (record r { link = send_ping_ack r.link d.rx_frame_id }, d)
    else if d.rx_frame_type == command
    then (execute_command r (c_string (drop 8 terminated.frame_buffer)) d.rx_frame_id, terminated)
    else (r, d)

-- `ParseRawRx`
unfoldable pub parse_raw_rx : Rover → Frame → Bytes → Rover × Frame
unfolding handle_frame
parse_raw_rx = drive handle_frame
