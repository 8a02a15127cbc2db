-- ===== src/Telemetry/Admission.antt =====
-- Who is let in by the server of Telemetry.cpp.
use solarbot_update.Base.{
  [], ◌<◌, ◌≡◌, refl, arith, true, false, ◌&&◌, some, List, Bytes, length, ltb, ◌==◌, Bool-cases,
  inl, inr, codes, same, [], same_sound, take,
}
use solarbot_update.Telemetry.{
  Status, starting, authenticating, working, Session, offer_key, split, decrypt_in_place, log_in,
  greet, round_at, server_round, at, authenticate_client, server_rx_buffer_size,
}

-- The fields of a login that is accepted.
pub record IsAdmitted (fields : List Bytes) : Type 0 where
  pub enough : 5 < length fields
  pub name : at fields 0 ≡ codes "SolarBot"
  pub key_size : length (at fields 4) ≡ 32

log_in-IsAdmitted :
    (s : Session) (fields : List Bytes)
    → s.is_authenticated ≡ false
    → (log_in s fields).is_authenticated ≡ true
    → IsAdmitted fields
unfolding log_in authenticate_client
log_in-IsAdmitted s fields old new =
    let test =
      ltb 5 (length fields)
      && (same (at fields 0) (codes "SolarBot") && (length (at fields 4) == 32)) in
    elim (Bool-cases test) [
      | inl e ↦ record {
        enough = ground arith;
        name = same_sound (at fields 0) (codes "SolarBot") (ground arith);
        key_size = ground arith;
      }
      | inr e ↦ absurd (ground arith)
    ]

greet-authenticated :
    (s : Session) (server_key word : Bytes) → (greet s server_key word).is_authenticated ≡ false
unfolding greet offer_key
greet-authenticated s server_key word = elim (Bool-cases (same word (codes "SOLARBOT"))) [
  | inl e ↦ rw e refl
  | inr e ↦ rw e refl
]

-- A session that is not authenticated becomes so only while it waits for the login, by bytes of
-- which the first 512, all that is read, decrypt under the offered key to more than five fields, the first
-- of them `SolarBot` and the fifth of 32 characters.
pub server_round-IsAdmitted :
    (s : Session) (server_key coded : Bytes)
    → s.is_authenticated ≡ false
    → (server_round s server_key (some coded)).is_authenticated ≡ true
    → (s.status ≡ authenticating)
      × IsAdmitted (split [] (decrypt_in_place s.expanded_keys (take server_rx_buffer_size coded)))
unfolding server_round
server_round-IsAdmitted s server_key coded old new = by_status s.status refl new
  where
    by_status :
        (st : Status)
        → s.status ≡ st
        → (round_at st s server_key (some coded)).is_authenticated ≡ true
        → (s.status ≡ authenticating)
          × IsAdmitted
              (split [] (decrypt_in_place s.expanded_keys (take server_rx_buffer_size coded)))
    by_status starting e now = absurd (cc (now, greet-authenticated s server_key coded))
    by_status authenticating e now = (
      e,
      log_in-IsAdmitted s
          (split [] (decrypt_in_place s.expanded_keys (take server_rx_buffer_size coded))) old now,
    )
    by_status working e now = absurd (cc (now, old))
