-- ===== src/ControlUnit/Commands.antt =====
-- The commands that the program sends to the driver: DirectWrite, Write, RemoteControllerWrite, WriteArm.
use solarbot_update.Base.{
  ℕ, suc, ◌+◌, ◌≤◌, ◌<◌, ◌^◌, ◌≡◌, ◌≢◌, refl, ap, ◌∙◌, arith, Bool, true, false, Option, some, List,
  [], ◌∷◌, ◌++◌, Bytes, All, All-append, IsByte, length, codes, if◌then◌else◌, ℤ, pos,
  length-append,
}
use solarbot_update.Text.{print_int, ◌>>=◌, >>=-eq-some, hex_text, >>=-congr}
use solarbot_update.Text.Decimal.{IsDigit, print_int-All, magnitude, length-print_int}
use solarbot_update.Serial.{Wait, verify_checksum, seal}
use solarbot_update.Serial.Checksum.{verify_checksum-seal}
use solarbot_update.ControlUnit
use solarbot_update.ControlUnit.{
  ControlUnit, command_line, arm_line, direct_write, real_read, write_port, set_status, get_line,
}
use solarbot_update.ControlUnit.Errors.{real_read_keeps}

-- The text of a command: a head and two numbers.
abbrev two_numbers : Bytes → ℤ → ℤ → Bytes
two_numbers head a b = head ++ (print_int a ++ (b',' ∷ print_int b))

two_numbers-All {ℓ} :
    (P : ℕ → Type ℓ) (head : Bytes) (a b : ℤ)
    → ((c : ℕ) → 43 ≤ c → c < 128 → P c)
    → All P head
    → All P (two_numbers head a b)
two_numbers-All P head a b below h =
    let digit : (c : ℕ) → IsDigit c → P c = λ c d. below c (omega arith) (omega arith) in
    let sign : P 45 = below 45 (omega arith) (omega arith) in
    All-append P head _ h (
      All-append P (print_int a) _ (print_int-All P digit sign a)
        (below 44 (omega arith) (omega arith), print_int-All P digit sign b))

length-two_numbers :
    (head : Bytes) (a b : ℤ) (k : ℕ)
    → magnitude a < 10 ^ suc k
    → magnitude b < 10 ^ suc k
    → length (two_numbers head a b) ≤ length head + k + k + 5
length-two_numbers head a b k ha hb = omega (
  arith,
  length-append head (print_int a ++ (b',' ∷ print_int b)),
  length-append (print_int a) (b',' ∷ print_int b),
  length-print_int k a ha,
  length-print_int k b hb,
)

verify_checksum-command_line :
    (left right : ℤ) (rest : Bytes)
    → magnitude left < 10 ^ 8
    → magnitude right < 10 ^ 8
    → verify_checksum 32 (command_line left right ++ rest) ≡ some (pos 0)
unfolding command_line
verify_checksum-command_line left right rest hl hr =
    verify_checksum-seal 32 b'$' (two_numbers (codes "CMD,") left right) rest
      (two_numbers-All (λ c. c ≢ b'*') (codes "CMD,") left right (λ c l h. omega arith)
        (omega arith))
      (two_numbers-All IsByte (codes "CMD,") left right (λ c l h. omega arith) (omega arith))
      (omega (arith, length-two_numbers (codes "CMD,") left right 7 hl hr))

length-seal : (start : ℕ) (body : Bytes) → length (seal (start ∷ body)) ≡ length body + 5
unfolding seal hex_text
length-seal start body = omega (arith, length-append body _)

-- A command for the motors, with speeds of at most eight digits, passes the check of the checksum
-- whatever follows it in the buffer. It and those for the arm, with speeds of 16 bits, fit the 32 bytes
-- of the buffer with the zero that `sprintf` puts behind them.
pub command_line_lem :
    (left right vertical horizontal : ℤ) (rest : Bytes)
    → magnitude left < 10 ^ 8
    → magnitude right < 10 ^ 8
    → magnitude vertical ≤ 32768
    → magnitude horizontal ≤ 32768
    → (verify_checksum 32 (command_line left right ++ rest) ≡ some (pos 0))
      × (length (command_line left right) + 1 ≤ 32)
      × (length (arm_line vertical horizontal) + 1 ≤ 32)
unfolding command_line arm_line
command_line_lem left right vertical horizontal rest hl hr hv hh = (
  verify_checksum-command_line left right rest hl hr,
  omega (
    arith,
    length-seal b'$' (two_numbers (codes "CMD,") left right),
    length-two_numbers (codes "CMD,") left right 7 hl hr,
  ),
  omega (
    arith,
    length-seal b'$' (two_numbers (codes "CAM,0,") vertical horizontal),
    length-two_numbers (codes "CAM,0,") vertical horizontal 4 (omega arith) (omega arith),
  ),
)

pub direct_write_keeps :
    (wait : Wait) (now : ℕ) (left right : ℤ) (u u' : ControlUnit) (result : ℤ)
    → direct_write wait now left right u ≡ some (u', result)
    → (u'.sent ≡ u.sent ++ command_line left right)
      × (u'.remote_controller_activate ≡ u.remote_controller_activate)
unfolding direct_write
direct_write_keeps wait now left right u u' result h =
    let (v, got, stored) =
      >>=-eq-some (real_read wait now (write_port (command_line left right) u)) _ h in
    keeps v.0 v.1 got stored
  where
    keeps :
        (v : ControlUnit) (r : ℤ)
        → real_read wait now (write_port (command_line left right) u) ≡ some (v, r)
        → ◌≡◌ {A = Option (ControlUnit × ℤ)} (some (set_status (v, r))) (some (u', result))
        → (u'.sent ≡ u.sent ++ command_line left right)
          × (u'.remote_controller_activate ≡ u.remote_controller_activate)
    keeps v r got stored =
        ground (arith, real_read_keeps wait now (write_port (command_line left right) u) v r)

-- The calls that the rest of the program makes.
pub data Call : Type 0 where
  write : Wait → ℕ → ℤ → ℤ → Call
  remote_controller_write : Wait → ℕ → ℤ → ℤ → Call
  write_arm : ℤ → ℤ → Call
  read : Bool → Wait → ℕ → Call
  -- ReadRxControllerThread of solarbot/Solarbot.cpp takes the controller out.
  release : Call

unfoldable pub call : Call → ControlUnit → Option (ControlUnit × ℤ)
call (write wait now left right) u = ControlUnit.write wait now left right u
call (remote_controller_write wait now left right) u =
    ControlUnit.remote_controller_write wait now left right u
call (write_arm vertical horizontal) u = ControlUnit.write_arm vertical horizontal u
call (read free wait now) u = ControlUnit.read free wait now u
call release u = some (record u { remote_controller_activate = false }, pos 0)

unfoldable pub calls : List Call → ControlUnit → Option ControlUnit
unfolding call
calls [] u = some u
calls (c ∷ cs) u = do (u', result) ← call c u; calls cs u'

-- All calls but those of `Write`, by which the program itself drives.
unfoldable pub without_writes : List Call → List Call
without_writes [] = []
without_writes (write wait now left right ∷ cs) = without_writes cs
without_writes (c ∷ cs) = c ∷ without_writes cs

-- No call takes the remote controller out.
abbrev pub IsHeld : List Call → Type 0
IsHeld [] = Unit
IsHeld (release ∷ cs) = ⊥
IsHeld (c ∷ cs) = IsHeld cs

call-remote :
    (c : Call) (u u' : ControlUnit) (result : ℤ)
    → IsHeld (c ∷ [])
    → u.remote_controller_activate ≡ true
    → call c u ≡ some (u', result)
    → u'.remote_controller_activate ≡ true
unfolding call ControlUnit.write ControlUnit.remote_controller_write ControlUnit.write_arm
    ControlUnit.read
call-remote (write wait now left right) u u' result k h = rw h (λ e. ground arith)
call-remote (remote_controller_write wait now left right) u u' result k h =
    λ e. (direct_write_keeps wait now left right _ u' result e).1
call-remote (write_arm vertical horizontal) u u' result k h = λ e. ground arith
call-remote (read free wait now) u u' result k h = λ e. ground (
  arith,
  real_read_keeps wait now u u' result,
  real_read_keeps wait now (write_port get_line u) u' result,
)
call-remote release u u' result k h = absurd k

write_remote :
    (wait : Wait) (now : ℕ) (left right : ℤ) (u : ControlUnit)
    → u.remote_controller_activate ≡ true
    → ControlUnit.write wait now left right u ≡ some (u, pos 0)
unfolding ControlUnit.write
write_remote wait now left right u h =
    ap (λ b. if b then some (u, pos 0) else direct_write wait now left right u) h

calls_remote :
    (cs : List Call) (u : ControlUnit)
    → IsHeld cs
    → u.remote_controller_activate ≡ true
    → calls cs u ≡ calls (without_writes cs) u
unfolding calls without_writes
calls_remote [] u k h = refl
calls_remote (write wait now left right ∷ cs) u k h =
    ap (λ o. o >>= λ x. calls cs x.0) (write_remote wait now left right u h) ∙ calls_remote cs u k h
calls_remote (remote_controller_write wait now left right ∷ cs) u k h =
    >>=-congr (call (remote_controller_write wait now left right) u) _ _ (λ v e.
      calls_remote cs v.0 k
        (call-remote (remote_controller_write wait now left right) u v.0 v.1 tt h e))
calls_remote (write_arm vertical horizontal ∷ cs) u k h =
    >>=-congr (call (write_arm vertical horizontal) u) _ _
      (λ v e. calls_remote cs v.0 k (call-remote (write_arm vertical horizontal) u v.0 v.1 tt h e))
calls_remote (read free wait now ∷ cs) u k h =
    >>=-congr (call (read free wait now) u) _ _
      (λ v e. calls_remote cs v.0 k (call-remote (read free wait now) u v.0 v.1 tt h e))
calls_remote (release ∷ cs) u k h = absurd k

-- Once the remote controller has written, it drives alone until it is taken out: whatever other calls
-- follow, those of `Write` among them might as well not be there. The first write sends its command.
pub calls-remote_controller_write :
    (wait : Wait) (now : ℕ) (left right : ℤ) (u u' : ControlUnit) (result : ℤ) (cs : List Call)
    → ControlUnit.remote_controller_write wait now left right u ≡ some (u', result)
    → IsHeld cs
    → (u'.sent ≡ u.sent ++ command_line left right) × (calls cs u' ≡ calls (without_writes cs) u')
unfolding ControlUnit.remote_controller_write
calls-remote_controller_write wait now left right u u' result cs h k =
    let (sent, driver) = direct_write_keeps wait now left right _ u' result h in
    (sent, calls_remote cs u' k driver)
