-- ===== src/ControlUnit/Errors.antt =====
-- The errors of RealRead, and what every reading leaves alone.
use solarbot_update.Base.{
  none, Bool, true, false, ℕ, ◌≡◌, arith, Option, some, Bytes, length, set, ltb, if◌then◌else◌, inl,
  inr, Bool-cases, ℤ, negsuc, ◌≤◌, codes, ◌<◌, ◌∙◌, ◌⊎◌, false, ap, is_zero, pos,
}
use solarbot_update.Text.{>>=-eq-some}
use solarbot_update.Serial.{
  arrived, Wait, failed, unread, timed_out, read_into, read_error, read_timeout, invalid_frame,
  invalid_checksum,
}
use solarbot_update.Serial.Checksum.{WrongSum, verify_checksum_refuses}
use solarbot_update.Text.{starts_with, ◌>>=◌}
use solarbot_update.Serial.{verify_checksum}
use solarbot_update.ControlUnit.{take_bytes, handle_line}
use solarbot_update.Base.{pos, refl}
use solarbot_update.ControlUnit.{
  ControlUnit, DriverData, handle_buffer, receive_line, set_status, real_read, port_rx_buffer_size,
}

-- All but the status and the buffer is as before.
abbrev pub Unchanged : ControlUnit → ControlUnit → Type 0
Unchanged u u' =
    (u'.report ≡ record u.report { status = u'.report.status })
    × (u'.sent ≡ u.sent)
    × (u'.remote_controller_activate ≡ u.remote_controller_activate)

-- The buffer when a line has come.
abbrev pub buffer_with : Bytes → ControlUnit → Bytes
buffer_with bytes u = set (read_into u.rx_buffer bytes) (length bytes) 0

-- What a line that is refused looks like: too short, or not an error of the driver's own and of a wrong
-- sum.
abbrev pub IsRefused : Bytes → ControlUnit → ℤ → Type 0
IsRefused bytes u result =
    ((length bytes ≤ 4) × (result ≡ invalid_frame))
    ⊎ ((4 < length bytes)
        × (starts_with (codes "$ER") (buffer_with bytes u) ≡ false)
        × (result ≡ invalid_checksum)
        × WrongSum port_rx_buffer_size (buffer_with bytes u))

-- What came when the answer is an error.
abbrev pub Cause : Wait → ControlUnit → ℤ → Type 0
Cause failed u result = result ≡ read_error
Cause unread u result = ⊥
Cause timed_out u result = result ≡ read_timeout
Cause (arrived bytes) u result = IsRefused bytes u result

handle_buffer_error :
    (now : ℕ) (buffer : Bytes) (d d' : DriverData) (n : ℕ)
    → handle_buffer now buffer d ≡ some (d', negsuc n)
    → (d' ≡ d)
      × (starts_with (codes "$ER") buffer ≡ false)
      × (negsuc n ≡ invalid_checksum)
      × WrongSum port_rx_buffer_size buffer
unfolding handle_buffer
handle_buffer_error now buffer d d' n = elim (Bool-cases (starts_with (codes "$ER") buffer)) [
  | inl e ↦ rw e (λ h. ground arith)
  | inr e ↦ rw e (λ h.
      let (result, verified, handled) =
        >>=-eq-some (verify_checksum port_rx_buffer_size buffer) _ h in
      let (kept, _, code, wrong) = decide result verified handled e in (kept, refl, code, wrong))
]
  where
    accepted :
        (result : ℤ)
        → ◌>>=◌ {B = DriverData × ℤ} (handle_line now buffer d) (λ d''. some (d'', result))
          ≡ some (d', negsuc n)
        → result ≡ negsuc n
    accepted result h =
        let (d'', handled, stored) = >>=-eq-some (handle_line now buffer d) _ h in
        ground (arith, stored)

    decide :
        (result : ℤ)
        → verify_checksum port_rx_buffer_size buffer ≡ some result
        → (if is_zero result
            then ◌>>=◌ {B = DriverData × ℤ} (handle_line now buffer d) (λ d''. some (d'', result))
            else some (d, result))
          ≡ some (d', negsuc n)
        → starts_with (codes "$ER") buffer ≡ false
        → (d' ≡ d)
          × (starts_with (codes "$ER") buffer ≡ false)
          × (negsuc n ≡ invalid_checksum)
          × WrongSum port_rx_buffer_size buffer
    decide (pos m) verified h e = elim (Bool-cases (is_zero (pos m))) [
      | inl z ↦ absurd (ground (arith, accepted (pos m)))
      | inr z ↦ absurd (ground arith)
    ]
    decide (negsuc m) verified h e =
        elim (verify_checksum_refuses port_rx_buffer_size buffer (negsuc m) verified) [
          | inl z ↦ absurd (ground (arith, z))
          | inr (code, wrong) ↦ (ground (arith, h), e, ground (arith, h, code), wrong)
        ]

take_bytes_error :
    (now : ℕ) (bytes : Bytes) (u u' : ControlUnit) (n : ℕ)
    → take_bytes now bytes u ≡ some (u', negsuc n)
    → (u'.report ≡ u.report)
      × (u'.sent ≡ u.sent)
      × (u'.remote_controller_activate ≡ u.remote_controller_activate)
      × IsRefused bytes u (negsuc n)
unfolding take_bytes
take_bytes_error now bytes u u' n = elim (Bool-cases (ltb 4 (length bytes))) [
  | inl e ↦ rw e (λ h.
      let (v, handled, stored) =
        >>=-eq-some (handle_buffer now (buffer_with bytes u) u.report) _ h in
      unchanged v.0 v.1 (ground arith) handled stored)
  | inr e ↦
      rw e (λ h. (ground arith, ground arith, ground arith, inl (ground arith, ground (arith, h))))
]
  where
    unchanged :
        (d : DriverData) (result : ℤ)
        → 4 < length bytes
        → handle_buffer now (buffer_with bytes u) u.report ≡ some (d, result)
        → ◌≡◌ {A = Option (ControlUnit × ℤ)}
            (some (record u { report = d; rx_buffer = buffer_with bytes u }, result))
            (some (u', negsuc n))
        → (u'.report ≡ u.report)
          × (u'.sent ≡ u.sent)
          × (u'.remote_controller_activate ≡ u.remote_controller_activate)
          × IsRefused bytes u (negsuc n)
    unchanged d result long handled stored =
        let same_result : result ≡ negsuc n = ground (arith, stored) in
        let (kept, own, code, wrong) =
          handle_buffer_error now (buffer_with bytes u) u.report d n
            (handled ∙ ap (λ r. some (d, r)) same_result) in
        (
          ground (arith, stored, kept),
          ground (arith, stored),
          ground (arith, stored),
          inr (long, own, code, wrong),
        )

receive_line-take_bytes :
    (now : ℕ) (bytes : Bytes) (u : ControlUnit) (out : ControlUnit × ℤ)
    → receive_line now bytes u ≡ some out
    → take_bytes now bytes u ≡ some out
unfolding receive_line
receive_line-take_bytes now bytes u out h =
    unless (ltb (length bytes) port_rx_buffer_size) (take_bytes now bytes u) h
  where
    unless :
        (b : Bool) (taken : Option (ControlUnit × ℤ))
        → (if b then taken else none) ≡ some out
        → taken ≡ some out
    unless true taken e = e
    unless false taken e = absurd (ground (arith, e))

-- When RealRead returns an error, it is one that fits what came from the port: that of a failed wait,
-- that of a timeout, or, for a line, that of four bytes or fewer, or that of a wrong sum, and then the
-- line is no error of the driver's own and the sum of its characters is not the one it names. The report
-- keeps all its values but the status, which is the error; nothing was sent, and who drives does not
-- change.
pub real_read_error :
    (wait : Wait) (now : ℕ) (u u' : ControlUnit) (n : ℕ)
    → real_read wait now u ≡ some (u', negsuc n)
    → Cause wait u (negsuc n) × (u'.report.status ≡ negsuc n) × Unchanged u u'
unfolding real_read set_status
real_read_error failed now u u' n h = ground arith
real_read_error unread now u u' n h = absurd (ground arith)
real_read_error timed_out now u u' n h = ground arith
real_read_error (arrived bytes) now u u' n h =
    let (v, got, stored) = >>=-eq-some (receive_line now bytes u) _ h in
    unchanged v.0 v.1 got stored
  where
    unchanged :
        (v : ControlUnit) (result : ℤ)
        → receive_line now bytes u ≡ some (v, result)
        → ◌≡◌ {A = Option (ControlUnit × ℤ)} (some (set_status (v, result))) (some (u', negsuc n))
        → IsRefused bytes u (negsuc n) × (u'.report.status ≡ negsuc n) × Unchanged u u'
    unchanged v result got stored =
        let same_result : result ≡ negsuc n = ground (arith, stored) in
        let (kept, silent, driver, refused) =
          take_bytes_error now bytes u v n
            (receive_line-take_bytes now bytes u _ got ∙ ap (λ r. some (v, r)) same_result) in
        (
          refused,
          ground (arith, stored),
          (
            ground (arith, stored, kept),
            ground (arith, stored, silent),
            ground (arith, stored, driver),
          ),
        )

take_bytes_keeps :
    (now : ℕ) (bytes : Bytes) (u u' : ControlUnit) (result : ℤ)
    → take_bytes now bytes u ≡ some (u', result)
    → (u'.sent ≡ u.sent) × (u'.remote_controller_activate ≡ u.remote_controller_activate)
unfolding take_bytes
take_bytes_keeps now bytes u u' result = elim (Bool-cases (ltb 4 (length bytes))) [
  | inl e ↦ rw e (λ h.
      let (v, handled, stored) = >>=-eq-some (handle_buffer now _ u.report) _ h in
      keeps v.0 v.1 stored)
  | inr e ↦ rw e (λ h. ground arith)
]
  where
    keeps :
        (d : DriverData) (r : ℤ)
        → ◌≡◌ {A = Option (ControlUnit × ℤ)}
            (some (
              record u {
                report = d;
                rx_buffer = set (read_into u.rx_buffer bytes) (length bytes) 0;
              },
              r,
            ))
            (some (u', result))
        → (u'.sent ≡ u.sent) × (u'.remote_controller_activate ≡ u.remote_controller_activate)
    keeps d r stored = ground arith

-- Reading sends nothing and leaves open who drives.
pub real_read_keeps :
    (wait : Wait) (now : ℕ) (u u' : ControlUnit) (result : ℤ)
    → real_read wait now u ≡ some (u', result)
    → (u'.sent ≡ u.sent) × (u'.remote_controller_activate ≡ u.remote_controller_activate)
unfolding real_read set_status
real_read_keeps failed now u u' result h = ground arith
real_read_keeps unread now u u' result h = absurd (ground arith)
real_read_keeps timed_out now u u' result h = ground arith
real_read_keeps (arrived bytes) now u u' result h =
    let (v, got, stored) = >>=-eq-some (receive_line now bytes u) _ h in keeps v.0 v.1 got stored
  where
    keeps :
        (v : ControlUnit) (r : ℤ)
        → receive_line now bytes u ≡ some (v, r)
        → ◌≡◌ {A = Option (ControlUnit × ℤ)} (some (set_status (v, r))) (some (u', result))
        → (u'.sent ≡ u.sent) × (u'.remote_controller_activate ≡ u.remote_controller_activate)
    keeps v r got stored =
        ground (arith, take_bytes_keeps now bytes u v r (receive_line-take_bytes now bytes u _ got))
