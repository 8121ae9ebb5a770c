-- ===== src/Timing/Continuity/Tests.antt =====
-- A clock that follows the sound card's, loses it, and goes on.
use cccaster_ver_b.Prelude.{List, [], ◌∷◌, arith}
use cccaster_ver_b.Prelude.Int.{ℤ, pos, ◌≤ℤ◌, ◌+ℤ◌, ◌*ℤ◌, ◌-ℤ◌, max_ℤ, div_ℤ, mod_ℤ}
use cccaster_ver_b.Timing.Projection.{at_ticks, deadline_ticks}
use cccaster_ver_b.Timing.Projection.Deadline.{Crosses}
use cccaster_ver_b.Timing.Continuity.{
  new_clock, anchor, read_clock, start_at, run_on, advance, tune, first_audio,
}
use cccaster_ver_b.Timing.Continuity.Reads.{reads, reads-monotone, reads-deadline}

abbrev first : ℤ × ℤ
first = (pos 1_000, pos 500)

abbrev readings : List (ℤ × ℤ)
readings = (pos 20_000, pos 19_800) ∷ (pos 700_000, pos 0) ∷ []

reads-monotone_example :
    (reads (new_clock 1) (first ∷ [])).output
    ≤ℤ (reads (reads (new_clock 1) (first ∷ [])) readings).output
reads-monotone_example = reads-monotone 1 first [] readings

reads-deadline_example :
    Crosses
      (anchor (reads (new_clock 1) (first ∷ [])))
      (pos 2_000)
      (pos 1_500)
      (deadline_ticks (anchor (reads (new_clock 1) (first ∷ []))) 12 (pos 2_000) (pos 1_500))
unfolding at_ticks new_clock read_clock start_at run_on advance tune first_audio ◌+ℤ◌ ◌*ℤ◌ ◌-ℤ◌
    max_ℤ div_ℤ mod_ℤ
reads-deadline_example =
    reads-deadline 1 12 (first ∷ []) (pos 2_000) (pos 1_500) (omega arith) (omega arith)
