-- ===== src/Wire/Probe/Tests.antt =====
-- A probe that goes there and back, and two launchers that become ready.
use cccaster_ver_b.Prelude.{◌⊎◌, ◌<◌, ◌≡◌, refl, true, arith, ◌^◌, ◌-◌}
use mathlib.Core.List.{Memᴰ}
use cccaster_ver_b.Wire.Probe.{Probe, is_ready, sent, receive}
use cccaster_ver_b.Wire.Probe.Roundtrip.{Fits}
use cccaster_ver_b.Wire.Probe.Pairing.{
  Side, Reach, start, restart, right_restarts, fresh, outgoing, send, take_in, begin, next,
  left_sends, right_sends, left_receives, right_receives, ready-paired,
}

abbrev probe : Probe
probe = record {
  sequence = 7;
  timestamp = 1_000_000;
  echoed_time = 2 ^ 64 - 1;
  processing_delay = 300;
  nonce = 77;
  echo_nonce = 0;
  extended = true;
}

probe-Fits : Fits probe
probe-Fits = record {
  sequence_bound = omega arith;
  timestamp_bound = omega arith;
  echoed_bound = omega arith;
  delay_bound = omega arith;
  nonce_bound = omega arith;
  echo_bound = omega arith;
  nonce_set = λ e. omega arith;
  nonce_unset = λ e. ground (arith, e);
}

abbrev left_fresh : Side
left_fresh = start 5

abbrev right_fresh : Side
right_fresh = start 6

abbrev first_probe : Probe
first_probe = outgoing (fresh 5) probe

abbrev right_knows : Side
right_knows = take_in right_fresh first_probe

abbrev second_probe : Probe
second_probe = outgoing right_knows.agreement probe

abbrev left_done : Side
left_done = send (take_in (send left_fresh probe) second_probe) probe

-- The host has answered, and starts again before the last answer reaches it.
abbrev right_again : Side
right_again = restart (send right_knows probe)

run : Reach 5 6 left_done right_again
unfolding receive sent
run =
    next
      (next
        (next
          (next (next (next begin (left_sends probe)) (right_receives first_probe (Memᴰ.head refl)))
            (right_sends probe))
          (left_receives second_probe (Memᴰ.head refl)))
        (left_sends probe))
      right_restarts

ready-paired_example :
    (left_done.agreement.peer_nonce ≡ 6)
    × ((right_again.agreement.peer_nonce ≡ 5)
        ⊎ ((right_again.agreement.peer_nonce ≡ 0) × (0 < right_again.restarts)))
    × ((p : Probe) × Memᴰ p left_done.log
        × (is_ready (sent (receive right_again.agreement p).1 5) ≡ true))
unfolding receive sent is_ready
ready-paired_example =
    ready-paired 5 6 left_done right_again (omega arith) (omega arith) (omega arith) run refl
