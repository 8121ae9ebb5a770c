-- ===== src/Timeline/Steps/Once.antt =====
-- Several samplers race for a frame.
use cccaster_ver_b.Prelude.{
  Bool-cases, inl, inr, ap, ℕ, List, ◌<◌, ◌≡◌, true, false, some, arith, Bool, Option,
}
use cccaster_ver_b.Timeline.State.{World, Moment, Timeline, CaptureTarget}
use cccaster_ver_b.Timeline.Pump.{try_pump, is_stale}
use cccaster_ver_b.Timeline.Steps.{IsSound, Reach, here}
use cccaster_ver_b.Timeline.Steps.Run.{Reach-IsSound, Reach-Advances}
use cccaster_ver_b.Timeline.Steps.Pumps.{pump-Reach}

passed-is_stale :
    (target : CaptureTarget) (t : Timeline) → target.frame < t.next → is_stale target t ≡ true
unfolding is_stale
passed-is_stale target t h = ground arith

not_stale :
    (target : CaptureTarget) (t : Timeline) → is_stale target t ≡ false → target.frame ≡ t.next
unfolding is_stale
not_stale target t h = ground arith

same_world :
    {w w' : World} {a b : Bool}
    → ◌≡◌ {A = Option (Bool × World)} (some (a, w)) (some (b, w'))
    → w ≡ w'
same_world e = cc

try_stale :
    (counts : List ℕ) (target : CaptureTarget) (m : Moment) (w : World)
    → is_stale target w.timeline ≡ true
    → try_pump counts true target m w ≡ some (true, w)
unfolding try_pump
try_stale counts target m w h = rw h

-- With the lock, a call whose target is still the next frame is a run of steps; any other is none.
pub try_pump-Reach :
    (counts : List ℕ) (locked : Bool) (target : CaptureTarget) (m : Moment) (w w' : World)
    (b : Bool)
    → try_pump counts locked target m w ≡ some (b, w')
    → Reach w w'
unfolding try_pump
try_pump-Reach counts false target m w w' b e = rw (← same_world e) here
try_pump-Reach counts true target m w w' b e = elim (Bool-cases (is_stale target w.timeline)) [
  | inl stale ↦ rw (← same_world (rw stale at e)) here
  | inr live ↦ pump-Reach counts m w w' b (rw live at e)
]

-- A call that has sampled something had the next frame for its target.
sampled_target :
    (counts : List ℕ) (target : CaptureTarget) (m : Moment) (w w' : World) (b : Bool)
    → try_pump counts true target m w ≡ some (b, w')
    → w.timeline.next < w'.timeline.next
    → target.frame ≡ w.timeline.next
unfolding try_pump
sampled_target counts target m w w' b e h = elim (Bool-cases (is_stale target w.timeline)) [
  | inl stale ↦
      let q = ap (λ (v : World). v.timeline.next) (same_world (rw stale at e)) in
      absurd (omega arith)
  | inr live ↦ not_stale target w.timeline live
]

-- Outside of loading: when one sampler has sampled the frame of its target, every other sampler
-- with the same target changes nothing, whatever happened in the epoch meanwhile.
pub captured_once :
    (counts others : List ℕ) (target : CaptureTarget) (m l : Moment) (b : Bool) {w w' w'' : World}
    → IsSound w
    → try_pump counts true target m w ≡ some (b, w')
    → w.timeline.next < w'.timeline.next
    → Reach w' w''
    → try_pump others true target l w'' ≡ some (true, w'')
captured_once counts others target m l b {w} {w'} {w''} s e h r =
    let s' = Reach-IsSound s (try_pump-Reach counts true target m w w' b e) in
    let a = Reach-Advances s' r in
    let t = sampled_target counts target m w w' b e h in
    try_stale others target l w'' (passed-is_stale target w''.timeline (omega (arith, t, a.next)))
