-- ===== src/Sync/Clock/Tests.antt =====
-- A concrete exchange: the other clock is 1000 ticks ahead, and the way back is slower.
use cccaster_ver_b.Prelude.{false, [], ◌∷◌, arith, refl}
use cccaster_ver_b.Prelude.Int.{pos, ◌≤ℤ◌, ◌+ℤ◌, ◌-ℤ◌}
use cccaster_ver_b.Sync.Clock.{NetplayClock, ModelCalls, add_ntp_sample_ticks, accepted, reset}
use cccaster_ver_b.Sync.Clock.Samples.{IsNear}
use cccaster_ver_b.Sync.Clock.Offset.{Exchange, run, theta-IsNear}

abbrev learning : ModelCalls (Unit {0})
learning = record {
  reset = tt;
  add_ticks = λ p local theta rtt. p;
  ready = λ p now. false;
  offset_ticks = λ p now. pos 0;
}

abbrev slow_back : Exchange
slow_back = record { t1 = pos 5_000; t2 = pos 6_300; t3 = pos 6_400; t4 = pos 5_900 }

abbrev quick : Exchange
quick = record { t1 = pos 9_000; t2 = pos 10_100; t3 = pos 10_200; t4 = pos 9_301 }

abbrev clock : NetplayClock (Unit {0})
clock = run learning (quick ∷ slow_back ∷ [])

theta-IsNear_example :
    IsNear (pos 1_000) clock.theta_ticks clock.best_rtt_ticks
    × (clock.best_rtt_ticks ≤ℤ (clock.samples 0).rtt)
unfolding run add_ntp_sample_ticks accepted reset ◌+ℤ◌ ◌-ℤ◌
theta-IsNear_example =
    theta-IsNear learning (pos 1_000) (slow_back ∷ []) quick 0 (omega arith) refl refl (omega arith)
