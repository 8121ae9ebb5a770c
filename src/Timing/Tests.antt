-- ===== src/Timing/Tests.antt =====
-- Concrete runs of the clocks.
use cccaster_ver_b.Prelude.{◌≡◌, ◌≤◌, ◌+◌, ◌*◌, ℕ, true, List, [], ◌∷◌, arith, max}
use cccaster_ver_b.Prelude.Int.{ℤ, pos, negsuc, ◌+ℤ◌}
use cccaster_ver_b.Timing.Cadence.{FrameCadence, clock_parts}
use cccaster_ver_b.Timing.Cadence.Exact.{advance_all, position, total, advance_all-position}
use cccaster_ver_b.Timing.Follower.{PhaseFollower}
use cccaster_ver_b.Timing.Follower.Bounds.{untrusted, untrusted_stops}
use cccaster_ver_b.Timing.Pacing.{NetworkPacing, update, valid, normal}
use cccaster_ver_b.Timing.Pacing.Range.{update-InRange}

abbrev cadence : FrameCadence
cadence = record { next = pos 5_000_000; fraction = pos 0; parts = pos 7 }

advance_all-position_example :
    position (advance_all cadence (pos 40 ∷ negsuc 2 ∷ []) 2) (clock_parts * max 1 2)
    ≡ position cadence (clock_parts * max 1 2) +ℤ total (pos 40 ∷ negsuc 2 ∷ [])
advance_all-position_example = advance_all-position cadence (pos 40 ∷ negsuc 2 ∷ []) 2

abbrev corrected : PhaseFollower
corrected = record {
  frame = 5;
  recovery_frame = 1;
  observation = 0;
  rate = pos 4_000_000;
  recovery_direction = pos 0;
}

abbrev frames : List (ℤ × ℕ)
frames =
    (pos 9, 6)
    ∷ (pos 9, 7)
    ∷ (pos 9, 8)
    ∷ (pos 9, 9)
    ∷ (pos 9, 10)
    ∷ (pos 9, 11)
    ∷ (pos 9, 12)
    ∷ (pos 9, 13)
    ∷ (pos 9, 14)
    ∷ (pos 9, 15)
    ∷ (pos 9, 16)
    ∷ (pos 9, 17)
    ∷ (pos 9, 18)
    ∷ (pos 9, 19)
    ∷ (pos 9, 20)
    ∷ []

untrusted_stops_example : (untrusted corrected frames 1).rate ≡ pos 0
untrusted_stops_example =
    untrusted_stops corrected frames 1 (ground arith) (omega arith, omega arith) (omega arith)

abbrev pacing : NetworkPacing
pacing = record { requested = normal; adjusted = pos 10; over_since = pos 20 }

update-InRange_example :
    (valid (update pacing (pos 90_000_000) (pos 5_000_000) (pos 1)).requested ≡ true)
    × ((update pacing (pos 90_000_000) (pos 5_000_000) (pos 1)).requested
        ≤ pacing.requested + 60_000)
    × (pacing.requested
        ≤ (update pacing (pos 90_000_000) (pos 5_000_000) (pos 1)).requested + 15_000)
update-InRange_example =
    update-InRange pacing (pos 90_000_000) (pos 5_000_000) (pos 1) (omega arith, omega arith)
