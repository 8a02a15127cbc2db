-- ===== src/MasterApp/Answers.antt =====
-- What the rover does with the frames of the remote control, and what every command leaves.
use solarbot_update.Base.{
  Bool, false, lt→ltb, true, ℕ, zero, suc, ◌+◌, ◌≤◌, ◌<◌, ◌≡◌, refl, ap, ◌∙◌, arith, List, [], ◌∷◌,
  Bytes, All, map, foldl, length, set, take, drop, length-set, ◌==◌, if◌then◌else◌, Bool-cases, inl,
  inr, codes, same, length-drop, ltb,
}
use solarbot_update.Frame.{Frame, ping, command}
use solarbot_update.Frame.Decode.{Message, message, IsIdle}
use solarbot_update.Frame.Stream.{Sent, IsSendable, send_all, drive-send_all}
use solarbot_update.MasterApp.{send_command_ack, send_ping_ack}
use solarbot_update.MasterApp.Commands.{
  Mode, standby, mode_waypoints, mode_visual, mode_line, Rover, outcome, string_to_mode,
  execute_goto, execute_reset, set_mode, execute_setmode, execute_power, tokens, dispatch,
  execute_command, c_string, handle_frame, parse_raw_rx, field,
}

-- What a message asks of the rover: a ping is answered, a command executed up to its first 0, and
-- any other message ignored; so is every message once a command has ended the handling.
abbrev pub answer_message : Rover → Message → Rover
answer_message r m =
    if r.lost
    then r
    else if m.frame_type == ping
    then record r { link = send_ping_ack r.link m.frame_id }
    else if m.frame_type == command
    then execute_command r (c_string m.payload) m.frame_id
    else r

drop-set : (k n : ℕ) (xs : Bytes) (v : ℕ) → drop k (set xs (k + n) v) ≡ set (drop k xs) n v
drop-set zero n xs v = ap (λ (i : ℕ). set xs i v) (omega arith)
drop-set (suc k) n [] v = refl
drop-set (suc k) n (x ∷ xs) v =
    ap (λ (i : ℕ). drop (suc k) (set (x ∷ xs) i v)) {y = suc (k + n)} (omega arith)
    ∙ drop-set k n xs v

-- Terminating a text at a place inside it cuts it there.
c_string-set : (n : ℕ) (xs : Bytes) → n < length xs → c_string (set xs n 0) ≡ c_string (take n xs)
unfolding c_string
c_string-set n [] h = absurd (omega arith)
c_string-set zero (x ∷ xs) h = refl
c_string-set (suc n) (x ∷ xs) h =
    ap (λ (t : Bytes). if x == 0 then [] else x ∷ t) (c_string-set n xs (omega arith))

command_text :
    (d : Frame)
    → IsIdle d
    → d.rx_payload_length ≤ 1014
    → c_string (drop 8 (set d.frame_buffer (d.rx_payload_length + 8) 0))
      ≡ c_string (take d.rx_payload_length (drop 8 d.frame_buffer))
command_text d idle h =
    ap (λ (i : ℕ). c_string (drop 8 (set d.frame_buffer i 0))) (omega arith)
    ∙ ap c_string (drop-set 8 d.rx_payload_length d.frame_buffer 0)
    ∙ c_string-set d.rx_payload_length (drop 8 d.frame_buffer)
        (omega (arith, idle.buffer_size, length-drop 8 d.frame_buffer))

handle_frame-answer_message :
    (r : Rover) (d : Frame)
    → IsIdle d
    → d.rx_payload_length ≤ 1014
    → (handle_frame r d).0 ≡ answer_message r (message d)
unfolding handle_frame
handle_frame-answer_message r d idle h =
    unless r.lost
      (if d.rx_frame_type == ping
        then (record r { link = send_ping_ack r.link d.rx_frame_id }, d)
        else if d.rx_frame_type == command
        then (
          execute_command r (c_string (drop 8 terminated)) d.rx_frame_id,
          record d { frame_buffer = terminated },
        )
        else (r, d))
      _
      (elim (Bool-cases (d.rx_frame_type == ping)) [
        | inl e ↦ rw e refl
        | inr e ↦ elim (Bool-cases (d.rx_frame_type == command)) [
          | inl f ↦
              rw e (
                rw f
                  (ap (λ (t : Bytes). execute_command r t d.rx_frame_id) (command_text d idle h)))
          | inr f ↦ rw e (rw f refl)
        ]
      ])
  where
    terminated : Bytes
    terminated = set d.frame_buffer (d.rx_payload_length + 8) 0

    unless :
        (b : Bool) (answered : Rover × Frame) (r' : Rover)
        → answered.0 ≡ r'
        → (if b then (r, d) else answered).0 ≡ (if b then r else r')
    unless true answered r' e = refl
    unless false answered r' e = e

handle_frame-IsIdle : (r : Rover) (d : Frame) → IsIdle d → IsIdle (handle_frame r d).1
unfolding handle_frame
handle_frame-IsIdle r d idle = elim (Bool-cases r.lost) [
  | inl l ↦ rw l idle
  | inr l ↦ elim (Bool-cases (d.rx_frame_type == ping)) [
    | inl e ↦ rw l (rw e idle)
    | inr e ↦ elim (Bool-cases (d.rx_frame_type == command)) [
      | inl f ↦ rw l (
          rw e (
            rw f (record {
              not_decoding = idle.not_decoding;
              not_escaping = idle.not_escaping;
              buffer_size =
                  length-set d.frame_buffer (d.rx_payload_length + 8) 0 ∙ idle.buffer_size;
            })))
      | inr f ↦ rw l (rw e (rw f idle))
    ]
  ]
]

-- `ParseRawRx`, with an idle decoder, on frames one after another, each with a random byte other than
-- 0x7E and at most 1014 bytes of payload, whatever these are, answers each ping and executes each
-- command in their order, up to a command that ends the handling by an exception or a read past its words,
-- and does nothing else.
pub parse_raw_rx-send_all :
    (ss : List Sent) (r : Rover) {d : Frame}
    → IsIdle d
    → All IsSendable ss
    → (parse_raw_rx r d (send_all ss)).0 ≡ foldl answer_message r (map (λ s. s.sent) ss)
unfolding parse_raw_rx
parse_raw_rx-send_all ss r idle h =
    drive-send_all handle_frame answer_message handle_frame-answer_message handle_frame-IsIdle ss r
      idle h

-- One acknowledgement, with the frame's id, is all that was sent, and the handling goes on.
abbrev Acknowledged : Rover → ℕ → Rover → Type 0
Acknowledged r frame_id r' =
    (msg : Bytes) × (length msg ≤ 64)
    × (r'.link ≡ send_command_ack r.link frame_id msg)
    × (r'.lost ≡ r.lost)

-- The number of words that a command must have: GOTO reads seven, RESET, SETMODE and POWER two.
abbrev pub needed : List Bytes → ℕ
needed [] = 0
needed (name ∷ arguments) =
    if same name (codes "GOTO")
    then 7
    else if same name (codes "RESET")
    then 2
    else if same name (codes "SETMODE")
    then 2
    else if same name (codes "POWER")
    then 2
    else 1

goto-Acknowledged :
    (r : Rover) (fields : List Bytes) (i : ℕ)
    → 6 < length fields
    → (outcome r).planner_started ≡ true
    → Acknowledged r i (execute_goto r fields i)
unfolding execute_goto
goto-Acknowledged r fields i h p = elim (Bool-cases (outcome r).location_good) [
  | inl e ↦ elim (Bool-cases (outcome r).loaded) [
    | inl f ↦ rw e (rw (lt→ltb _ _ h) (rw p (rw f (codes "OK", omega arith, refl, refl))))
    | inr f ↦ rw e (
        rw (lt→ltb _ _ h)
          (rw p (rw f (codes "ERROR: Loading generated waypoints file", omega arith, refl, refl))))
  ]
  | inr e ↦ rw e (codes "ERROR: Current Location is not good", omega arith, refl, refl)
]

reset-Acknowledged :
    (r : Rover) (fields : List Bytes) (i : ℕ)
    → 1 < length fields
    → Acknowledged r i (execute_reset r fields i)
unfolding execute_reset
reset-Acknowledged r fields i h = elim (Bool-cases (same (field fields 1) (codes "GPS"))) [
  | inl e ↦ rw (lt→ltb _ _ h) (rw e (codes "OK", omega arith, refl, refl))
  | inr e ↦ rw (lt→ltb _ _ h) (rw e (codes "ERROR: Invalid RESET command", omega arith, refl, refl))
]

set_mode-Acknowledged : (r : Rover) (m : Mode) (i : ℕ) → Acknowledged r i (set_mode r m i)
unfolding set_mode
set_mode-Acknowledged r standby i = (codes "OK", omega arith, refl, refl)
set_mode-Acknowledged r mode_waypoints i = elim (Bool-cases (ltb 0 r.waypoint_count)) [
  | inl e ↦ rw e (codes "OK", omega arith, refl, refl)
  | inr e ↦ rw e (codes "ERROR: There is not any waypoints", omega arith, refl, refl)
]
set_mode-Acknowledged r mode_visual i = elim (Bool-cases (outcome r).visual_ready) [
  | inl e ↦ rw e (codes "OK", omega arith, refl, refl)
  | inr e ↦ rw e (codes "ERROR: InitModeVisual", omega arith, refl, refl)
]
set_mode-Acknowledged r mode_line i = elim (Bool-cases (outcome r).line_ready) [
  | inl e ↦ rw e (codes "OK", omega arith, refl, refl)
  | inr e ↦ rw e (codes "ERROR: InitModeLine", omega arith, refl, refl)
]

setmode-Acknowledged :
    (r : Rover) (fields : List Bytes) (i : ℕ)
    → 1 < length fields
    → Acknowledged r i (execute_setmode r fields i)
unfolding execute_setmode
setmode-Acknowledged r fields i h =
    rw (lt→ltb _ _ h) (set_mode-Acknowledged r (string_to_mode (field fields 1)) i)

power-Acknowledged :
    (r : Rover) (fields : List Bytes) (i : ℕ)
    → 1 < length fields
    → Acknowledged r i (execute_power r fields i)
unfolding execute_power
power-Acknowledged r fields i h = rw (lt→ltb _ _ h) (codes "OK", omega arith, refl, refl)

dispatch-Acknowledged :
    (r : Rover) (words : List Bytes) (i : ℕ)
    → needed words ≤ length words
    → (outcome r).planner_started ≡ true
    → Acknowledged r i (dispatch r words i)
unfolding dispatch
dispatch-Acknowledged r [] i h p = (codes "ERROR: Parsing Command", omega arith, refl, refl)
dispatch-Acknowledged r (name ∷ rest) i h p = elim (Bool-cases (same name (codes "GOTO"))) [
  | inl e ↦ rw e (goto-Acknowledged r (name ∷ rest) i (ground (arith, h, e)) p)
  | inr e ↦ elim (Bool-cases (same name (codes "RESET"))) [
    | inl f ↦ rw e (rw f (reset-Acknowledged r (name ∷ rest) i (ground (arith, h, e, f))))
    | inr f ↦ elim (Bool-cases (same name (codes "SETMODE"))) [
      | inl g ↦
          rw e (rw f (rw g (setmode-Acknowledged r (name ∷ rest) i (ground (arith, h, e, f, g)))))
      | inr g ↦ elim (Bool-cases (same name (codes "POWER"))) [
        | inl k ↦ rw e (
            rw f
              (rw g (rw k (power-Acknowledged r (name ∷ rest) i (ground (arith, h, e, f, g, k))))))
        | inr k ↦ rw e (rw f (rw g (rw k (codes "ERROR: No Command", omega arith, refl, refl))))
      ]
    ]
  ]
]

-- A command with the words that it reads (seven for GOTO, two for RESET, SETMODE and POWER), whatever else
-- its text is, and whatever the devices answer, if only the route planner can be started, sends exactly one
-- acknowledgement, with the id of the command's frame and a message of at most 64 bytes, and nothing else;
-- no exception and no read past the words ends it. That POWER returns no string is left aside.
pub execute_command-acknowledges :
    (r : Rover) (cmd : Bytes) (frame_id : ℕ)
    → needed (tokens [] cmd) ≤ length (tokens [] cmd)
    → (outcome r).planner_started ≡ true
    → (msg : Bytes) × (length msg ≤ 64)
      × ((execute_command r cmd frame_id).link ≡ send_command_ack r.link frame_id msg)
      × ((execute_command r cmd frame_id).lost ≡ r.lost)
unfolding execute_command
execute_command-acknowledges r cmd frame_id h p =
    dispatch-Acknowledged r (tokens [] cmd) frame_id h p
