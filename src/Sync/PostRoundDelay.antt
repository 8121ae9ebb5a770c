-- ===== src/Sync/PostRoundDelay.antt =====
-- src/src/core_dll/sync/PostRoundDelay.hpp: after a round is decided the rollback frames become input
-- delay, without a frame number going back.
use cccaster_ver_b.Prelude.{
  ℕ, ◌+◌, ◌-◌, ◌≤◌, ◌≡◌, not, ◌&&◌, ◌||◌, ltb, ◌==◌, if◌then◌else◌, arith, min, max,
}

pub record PostRoundDelay : Type 0 where
  pub first : ℕ
  pub extra : ℕ

unfoldable pub reset : PostRoundDelay
reset = record { first = 0; extra = 0 }

unfoldable pub begin : PostRoundDelay → ℕ → ℕ → PostRoundDelay
begin d next rollback =
    if d.first == 0 && not (next == 0) && not (rollback == 0)
    then record { first = next; extra = rollback }
    else d

unfoldable pub source : PostRoundDelay → ℕ → ℕ
source d frame =
    if d.first == 0 || ltb frame d.first
    then frame
    else if ltb (frame - d.first) d.extra
    then d.first - 1
    else frame - d.extra

-- The input frame that a game frame reads is the frame itself before the start, then the last frame
-- before the start until the moved rollback frames have passed, and then lags by exactly those; it
-- never goes back, never skips one, and never lags by more.
pub source_steps :
    (d : PostRoundDelay) (frame : ℕ)
    → (source d frame
        ≡ (if d.first == 0 then frame else min frame (max (d.first - 1) (frame - d.extra))))
      × (source d frame ≤ source d (frame + 1))
      × (source d (frame + 1) ≤ source d frame + 1)
      × (frame ≤ source d frame + d.extra)
unfolding source
source_steps d frame = (ground arith, ground arith, ground arith, ground arith)
