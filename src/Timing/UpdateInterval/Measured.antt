-- ===== src/Timing/UpdateInterval/Measured.antt =====
-- An armed update is measured once.
use cccaster_ver_b.Prelude.{ℕ, suc, ◌≡◌, Option, none, some, Bool, false, arith}
use cccaster_ver_b.Prelude.Int.{ℤ}
use cccaster_ver_b.Timing.UpdateInterval.{
  UpdateCadence, Sample, arm, capture, take, finalize, measure,
}

abbrev pub frame_of : Option Sample → ℕ
frame_of none = 0
frame_of (some s) = s.frame

-- From a state with no measurement left: an update that is armed for a frame and captured is handed
-- out once, for that frame; after that, capturing again without arming measures nothing.
pub capture-take :
    (u : UpdateCadence) (frame : ℕ) (play : Bool) (ticks later : ℤ)
    → u.raw_pending ≡ false
    → let c = capture (arm u (suc frame) play) ticks in
      (frame_of (take c).0 ≡ suc frame)
      × ((take c).1.pending ≡ false)
      × ((take (capture (take c).1 later)).0 ≡ none)
unfolding arm capture take finalize measure
capture-take u frame play ticks later h = (ground arith, ground arith, ground arith)
