-- ===== src/Serial/Tests.antt =====
-- The checksum of the serial lines at concrete lines.
use solarbot_update.Base.{◌≡◌, refl, codes, some, pos, ◌++◌, ◌∷◌, [], Bytes, set, arith}
use solarbot_update.Serial.Checksum.{verify_checksum-set}
use solarbot_update.Serial.{verify_checksum, seal, invalid_checksum}

command_ok : seal (codes "$CMD,1,0") ≡ codes "$CMD,1,0*4B" ++ 10 ∷ []
unfolding seal
command_ok = refl

command_verifies : verify_checksum 100 (seal (codes "$CMD,0,1")) ≡ some (pos 0)
unfolding verify_checksum seal
command_verifies = refl

abbrev body : Bytes
body = codes "CMD,0,1"

verify_checksum-set_example :
    verify_checksum 100 (set (seal (36 ∷ body)) 5 49 ++ []) ≡ some invalid_checksum
verify_checksum-set_example =
    verify_checksum-set 100 36 body [] 4 49 (omega arith) (omega arith) (omega arith) (omega arith)
      (λ e. omega arith) (λ e. omega arith)
