-- ===== src/Spectator/Tests.antt =====
-- A queue of 512 records whose write counter is about to wrap.
use cccaster_ver_b.Prelude.{◌≡◌, arith, List, ◌^◌, ◌∷◌, []}
use cccaster_ver_b.Spectator.Records.{Record}
use cccaster_ver_b.Spectator.Queue.{Queue, count}
use cccaster_ver_b.Spectator.Queue.Refine.{
  Call, call_push, call_input, call_pop, real_run, ideal_run, real_run-ideal,
}
use cccaster_ver_b.Spectator.Queue.Order.{contents}
use cccaster_ver_b.Spectator.Queue.Count.{IsBounded}

abbrev beat : Record
beat = record { size = 16; kind = 6; frame = 9; payload = λ i. 0 }

abbrev waiting : Queue
waiting = record { slots = λ i. beat; write = 0xffff_ffff; read = 0xffff_fff0 }

waiting-IsBounded : IsBounded 512 waiting
unfolding count
waiting-IsBounded = (omega arith, omega arith, omega arith)

abbrev calls : List Call
calls = call_push beat ∷ call_input 7 1 2 ∷ call_pop beat ∷ []

real_run-ideal_example : real_run 512 waiting calls ≡ ideal_run 512 (contents 512 waiting) calls
real_run-ideal_example =
    real_run-ideal 512 (2 ^ 23) waiting calls (omega arith) (omega arith) waiting-IsBounded
