-- ===== src/Gps/Status.antt =====
-- The status of getLocation: a bit for each of the two kinds of sentence.
use solarbot_update.Base.{
  ℕ, zero, suc, ◌/◌, ◌%◌, ◌<◌, ◌≡◌, arith, bit_or, Option, some, ◌==◌, if◌then◌else◌, inl, inr, ◌⊎◌,
}
use solarbot_update.Gps.{nmea_gpgga, nmea_gprmc}

-- What a sentence does to the status, for a status of two bits.
abbrev pub marks : ℕ → ℕ → ℕ
marks kind status =
    if kind == nmea_gpgga
    then bit_or status nmea_gpgga
    else if kind == nmea_gprmc
    then bit_or status nmea_gprmc
    else status

-- The bits of a status, one for each kind.
abbrev pub HasRmc : ℕ → Type 0
HasRmc status = status % 2 ≡ 1

abbrev pub HasGga : ℕ → Type 0
HasGga status = status / 2 ≡ 1

pub record Marked (kind status : ℕ) : Type 0 where
  pub below : marks kind status < 4
  pub keeps_rmc : HasRmc status → HasRmc (marks kind status)
  pub keeps_gga : HasGga status → HasGga (marks kind status)
  pub sets_rmc : kind ≡ nmea_gprmc → HasRmc (marks kind status)
  pub sets_gga : kind ≡ nmea_gpgga → HasGga (marks kind status)
  pub only_rmc : HasRmc (marks kind status) → HasRmc status ⊎ (kind ≡ nmea_gprmc)
  pub only_gga : HasGga (marks kind status) → HasGga status ⊎ (kind ≡ nmea_gpgga)

pub marks-Marked : (kind status : ℕ) → status < 4 → Marked kind status
marks-Marked kind zero h = ground arith
marks-Marked kind (suc zero) h = ground arith
marks-Marked kind (suc (suc zero)) h = ground arith
marks-Marked kind (suc (suc (suc zero))) h = ground arith
marks-Marked kind (suc (suc (suc (suc n)))) h = absurd (omega arith)

module _ {ℓ} {A B C D : Type ℓ} where
  pub shift : (A → B) → (C → B) → A ⊎ (C ⊎ D) → B ⊎ D
  shift f g (inl a) = inl (f a)
  shift f g (inr (inl c)) = inl (g c)
  shift f g (inr (inr d)) = inr d

  pub unshift : (B → A ⊎ C) → B ⊎ D → A ⊎ (C ⊎ D)
  unshift f (inl b) = elim (f b) [ inl a ↦ inl a | inr c ↦ inr (inl c) ]
  unshift f (inr d) = inr (inr d)

pub same_kind : {kind k : ℕ} (m : Option ℕ) → m ≡ some kind → m ≡ some k → kind ≡ k
same_kind m e e' = cc
