-- ===== src/Timing/Follower.antt =====
-- src/src/core_dll/timing/PhaseFollower.hpp: a slow correction of the phase towards the adopted clock, at
-- most 15 million parts of a tick per frame, changed by at most one million per frame.
pub mod Bounds
use cccaster_ver_b.Prelude.{ℕ, ◌+◌, ◌*◌, ◌/◌, Bool, true, false, ◌==◌, if◌then◌else◌, max, not}
use cccaster_ver_b.Prelude.Int.{
  ℤ, pos, negsuc, ◌+ℤ◌, ◌-ℤ◌, ◌*ℤ◌, div_ℤ, clamp_ℤ, min_ℤ, ltb_ℤ, eqb_ℤ, pos_part, neg_part,
}
use cccaster_ver_b.Timing.Cadence.{clock_parts, clock_frame}

-- UINT32_MAX.
abbrev pub no_frame : ℕ
no_frame = 0xffff_ffff

pub record PhaseFollower : Type 0 where
  pub frame : ℕ
  pub recovery_frame : ℕ
  pub observation : ℕ
  pub rate : ℤ
  pub recovery_direction : ℤ

unfoldable pub reset : PhaseFollower
reset = record {
  frame = no_frame;
  recovery_frame = no_frame;
  observation = 0;
  rate = pos 0;
  recovery_direction = pos 0;
}

abbrev pub minus : ℕ → ℤ
minus n = pos 0 -ℤ pos n

unfoldable pub goal_parts : ℤ → Bool → ℕ → ℤ
goal_parts error_ticks trusted scale =
    let error = error_ticks *ℤ pos (max 1 scale) in
    if trusted
    then clamp_ℤ (div_ℤ (error *ℤ pos clock_parts) 600) (minus (15 * clock_parts))
        (pos (15 * clock_parts))
    else pos 0

-- The correction of this frame, and the new state. A frame is served once.
unfoldable pub update_parts : PhaseFollower → ℤ → ℕ → Bool → ℕ → ℤ × PhaseFollower
update_parts p error_ticks frame trusted scale =
    if frame == p.frame
    then (pos 0, p)
    else (let goal = goal_parts error_ticks trusted scale in
        let rate = p.rate +ℤ clamp_ℤ (goal -ℤ p.rate) (minus clock_parts) (pos clock_parts) in
        (rate, record p { frame = frame; rate = rate }))

magnitude : ℤ → ℕ
magnitude t = pos_part t + neg_part t

direction_of : ℤ → ℤ
direction_of t = if ltb_ℤ (pos 0) t then pos 1 else if ltb_ℤ t (pos 0) then negsuc 0 else pos 0

-- A large error that two observations agree on is made up at once, once a frame.
pub recovery_ticks : PhaseFollower → ℤ → ℕ → ℕ → ℕ → ℤ × PhaseFollower
unfolding magnitude direction_of
recovery_ticks p error_ticks frame observation scale =
    let seen = record p { observation = observation } in
    if observation == p.observation
    then (pos 0, p)
    else if ltb_ℤ (pos (magnitude error_ticks)) (pos (clock_frame / max 1 scale))
    then (pos 0, record seen { recovery_direction = pos 0 })
    else if not (eqb_ℤ (direction_of error_ticks) p.recovery_direction)
    then (pos 0, record seen { recovery_direction = direction_of error_ticks })
    else if p.recovery_frame == frame
    then (pos 0, seen)
    else (
      direction_of error_ticks
          *ℤ min_ℤ (pos (magnitude error_ticks) -ℤ pos (250 * 60 / max 1 scale))
              (pos (100_000 * 60 / max 1 scale)),
      record seen { recovery_frame = frame; rate = pos 0 },
    )
