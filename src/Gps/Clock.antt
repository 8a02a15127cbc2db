-- ===== src/Gps/Clock.antt =====
-- The time of a sentence: from its text to its hours, minutes, seconds and hundredths.
use solarbot_update.Base.{ℕ, ◌+◌, ◌*◌, ◌/◌, ◌%◌, ◌<◌, ◌≡◌, refl, ap, ◌∙◌, arith, ◌∷◌, Bytes, pos}
use solarbot_update.Text.{atoi, skip_digits, scan_digits}
use solarbot_update.Text.Decimal.{scan_digit, atoi_digit, scan_digits-Ends}
use solarbot_update.Gps.{parse_time, hundredths, hour, minute, second, centisecond}

-- A number below 100 as two digits.
abbrev pub two : ℕ → Bytes → Bytes
two n rest = (b'0' + n / 10) ∷ (b'0' + n % 10) ∷ rest

-- hhmmss.cc
abbrev pub time_text : ℕ → ℕ → ℕ → ℕ → Bytes → Bytes
time_text h m s c rest = two h (two m (two s (b'.' ∷ two c rest)))

scan_two :
    (acc n : ℕ) (rest : Bytes)
    → n < 100
    → scan_digits acc (two n rest) ≡ scan_digits (acc * 100 + n) rest
scan_two acc n rest h =
    scan_digit acc (n / 10) _ (omega arith)
    ∙ scan_digit (acc * 10 + n / 10) (n % 10) rest (omega arith)
    ∙ ap (λ (k : ℕ). scan_digits k rest) (omega arith)

skip_digit : (d : ℕ) (rest : Bytes) → d < 10 → skip_digits ((b'0' + d) ∷ rest) ≡ skip_digits rest
unfolding skip_digits
skip_digit d rest h = ground arith

skip_two : (n : ℕ) (rest : Bytes) → n < 100 → skip_digits (two n rest) ≡ skip_digits rest
skip_two n rest h = skip_digit (n / 10) _ (omega arith) ∙ skip_digit (n % 10) rest (omega arith)

hundredths-two : (c : ℕ) (rest : Bytes) → c < 100 → hundredths (b'.' ∷ two c rest) ≡ c
unfolding hundredths
hundredths-two c rest h = ground arith

skip_digits_point : (rest : Bytes) → skip_digits (b'.' ∷ rest) ≡ b'.' ∷ rest
unfolding skip_digits
skip_digits_point rest = refl

parse_time-time_text :
    (h m s c : ℕ) (rest : Bytes)
    → h < 24
    → m < 60
    → s < 60
    → c < 100
    → parse_time (time_text h m s c rest) ≡ ((h * 100 + m) * 100 + s) * 100 + c
unfolding parse_time
parse_time-time_text h m s c rest hh hm hs hc =
    let fraction = b'.' ∷ two c rest in
    let number : atoi (time_text h m s c rest) ≡ pos ((h * 100 + m) * 100 + s) =
      atoi_digit (b'0' + h / 10) _ (omega arith, omega arith)
      ∙ ap pos (
          scan_two 0 h _ (omega arith)
          ∙ scan_two (0 * 100 + h) m _ (omega arith)
          ∙ scan_two ((0 * 100 + h) * 100 + m) s fraction (omega arith)
          ∙ scan_digits-Ends _ fraction refl
          ∙ omega arith) in
    let left : hundredths (skip_digits (time_text h m s c rest)) ≡ c =
      ap hundredths (
        skip_two h _ (omega arith)
        ∙ skip_two m _ (omega arith)
        ∙ skip_two s fraction (omega arith)
        ∙ skip_digits_point (two c rest))
      ∙ hundredths-two c rest hc in
    rw number (rw left (omega arith))

-- Of a time in the form hhmmss.cc the four functions give back the hours, minutes, seconds and
-- hundredths, whatever follows it in the sentence.
pub clock-parse_time :
    (h m s c : ℕ) (rest : Bytes)
    → h < 24
    → m < 60
    → s < 60
    → c < 100
    → (hour (parse_time (time_text h m s c rest)) ≡ h)
      × (minute (parse_time (time_text h m s c rest)) ≡ m)
      × (second (parse_time (time_text h m s c rest)) ≡ s)
      × (centisecond (parse_time (time_text h m s c rest)) ≡ c)
unfolding hour minute second centisecond
clock-parse_time h m s c rest hh hm hs hc =
    rw (parse_time-time_text h m s c rest hh hm hs hc)
      (omega arith, omega arith, omega arith, omega arith)
