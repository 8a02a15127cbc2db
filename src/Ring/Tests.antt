-- ===== src/Ring/Tests.antt =====
-- Runs of the circular buffer, with indices that wrap at 2 ^ 64.
use solarbot_update.Base.{
  ℕ, ◌≡◌, arith, true, none, some, List, [], ◌∷◌, ◌-◌, ◌^◌, replicate, length-replicate,
}
use solarbot_update.Ring.{Ring}
use solarbot_update.Ring.Refine.{IsValid}
use solarbot_update.Ring.Queue.{
  Call, put_call, get_call, fill_call, reset_call, len_call, accepted, got, filled, counted,
  nothing, run_ring, run_queue, call_queue, run_ring-run_queue,
}

abbrev start : Ring
start = record { buf = replicate 512 0; head = 2 ^ 64 - 1; tail = 2 ^ 64 - 1 }

start-IsValid : IsValid start
start-IsValid = record {
  storage = length-replicate {A = ℕ} 512 0;
  head_in = omega arith;
  tail_in = omega arith;
  len_in = omega arith;
}

abbrev calls : List Call
calls =
    get_call
    ∷ put_call 5
    ∷ put_call 6
    ∷ put_call 7
    ∷ get_call
    ∷ len_call
    ∷ fill_call 9
    ∷ put_call 8
    ∷ reset_call
    ∷ len_call
    ∷ []

run_ring-run_queue_example :
    run_ring start calls
    ≡ got none
      ∷ accepted true
      ∷ accepted true
      ∷ accepted true
      ∷ got (some 5)
      ∷ counted 2
      ∷ filled (6 ∷ 7 ∷ [])
      ∷ accepted true
      ∷ nothing
      ∷ counted 0
      ∷ []
unfolding run_queue call_queue
run_ring-run_queue_example = run_ring-run_queue calls start start-IsValid
