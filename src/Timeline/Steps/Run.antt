-- ===== src/Timeline/Steps/Run.antt =====
-- Any run of steps of an epoch.
use cccaster_ver_b.Prelude.{
  ℕ, ◌+◌, ◌≤◌, ◌<◌, ◌≡◌, Bool, false, not, ◌&&◌, arith, refl, ◌==◌, ◌∙◌, ap, if_cases,
}
use cccaster_ver_b.Prelude.Words.{u32_mod}
use cccaster_ver_b.Sync.MatchInput.{ring_size, confirm_remote, try_get_local_input}
use cccaster_ver_b.Timeline.State.{World, Moment, is_loading, publish_schedule, is_in_game}
use cccaster_ver_b.Timeline.Control.{pause, resume, set_consumed}
use cccaster_ver_b.Timeline.Capture.{is_full, stop_full, adopt_period, capture}
use cccaster_ver_b.Timeline.Pump.{round, reschedule}
use cccaster_ver_b.Timeline.Steps.{
  Step, captures, adopts, publishes, stops, pauses, resumes, consumes, confirms, commands, IsSound,
  Reach, here, next, SettingsCommands,
}
use cccaster_ver_b.Timeline.Steps.Word.{published, published-lt}
use cccaster_ver_b.Timeline.Steps.Advance.{
  Advances, IsKept, IsRecorded, still, Advances-refl, Advances-trans, round_next, round_reads,
  round_sample, round_sample_self, other_slot, room_left,
}

-- The record of the frame that a round samples.
round-IsRecorded :
    (m : Moment) (fresh : Bool) (w : World)
    → IsSound w
    → IsRecorded (round m fresh w) w.timeline.next
round-IsRecorded m fresh w s = record {
  input = published m w;
  readable = round_reads m fresh w w.timeline.next s ∙ ground arith;
  sampled = round_sample_self m fresh w;
}

round-IsKept :
    (m : Moment) (fresh : Bool) (w : World) (f : ℕ)
    → IsSound w
    → f < w.timeline.next
    → w.timeline.next < f + ring_size
    → IsKept w (round m fresh w) f
round-IsKept m fresh w f s p q =
    let apart = other_slot f w.timeline.next p q in
    record {
      input = round_reads m fresh w f s ∙ ground arith;
      sample = round_sample m fresh w f apart;
    }

pub round_still :
    (m : Moment) (fresh : Bool) (w : World)
    → let t = (round m fresh w).timeline in
      (t.consumed ≡ w.timeline.consumed)
      × (t.generation ≡ w.timeline.generation)
      × (t.phase ≡ w.timeline.phase)
unfolding round capture reschedule
round_still m fresh w = (refl, refl, refl)

round-Advances :
    (m : Moment) (fresh : Bool) (w : World)
    → IsSound w
    → is_full w.timeline ≡ false
    → Advances w (round m fresh w)
round-Advances m fresh w s h =
    let room = room_left w.timeline s.playing h s.ordered s.small in
    let same = round_still m fresh w in
    let moved : (round m fresh w).timeline.next ≡ w.timeline.next + 1 =
      omega (arith, round_next m fresh w, room.0) in
    record {
      next = omega (arith, moved);
      consumed = omega (arith, same.0);
      generation = omega (arith, same.1);
      kept = λ f lt le. round-IsKept m fresh w f s lt (omega (arith, moved));
      recorded = λ f ge lt le.
          let e : w.timeline.next ≡ f = omega (arith, moved) in
          rw (← e) (round-IsRecorded m fresh w s);
    }

round_queued :
    (m : Moment) (fresh : Bool) (w : World)
    → (round m false w).settings.queued < u32_mod
    → (round m fresh w).settings.queued < u32_mod
unfolding round
round_queued m fresh w h = h

local_lane-confirm :
    (w : World) (frame input f : ℕ)
    → try_get_local_input (confirm_remote w.buffer frame input) f ≡ try_get_local_input w.buffer f
unfolding confirm_remote try_get_local_input
local_lane-confirm w frame input f = ground arith

-- What is kept with the frames, for the next step.
abbrev IsSame : World → World → Type 0
IsSame w w' =
    (w'.timeline.next ≡ w.timeline.next)
    × (w'.timeline.consumed ≡ w.timeline.consumed)
    × (w'.timeline.phase ≡ w.timeline.phase)
    × (w'.settings ≡ w.settings)

IsSound-same : (w w' : World) → IsSame w w' → IsSound w → IsSound w'
IsSound-same w w' (n, c, p, q) s = record {
  ordered = omega (arith, n, c, s.ordered);
  room = omega (arith, n, c, s.room);
  small = omega (arith, n, s.small);
  word = omega (arith, ap (λ (r : SettingsCommands). r.queued) q, s.word);
  playing = ap is_loading p ∙ s.playing;
}

round-IsSound :
    (m : Moment) (fresh : Bool) (w : World)
    → IsSound w
    → is_full w.timeline ≡ false
    → IsSound (round m fresh w)
round-IsSound m fresh w s h =
    let room = room_left w.timeline s.playing h s.ordered s.small in
    let same = round_still m fresh w in
    let moved : (round m fresh w).timeline.next ≡ w.timeline.next + 1 =
      omega (arith, round_next m fresh w, room.0) in
    record {
      ordered = omega (arith, moved, same.0, s.ordered);
      room = omega (arith, moved, same.0, room.1);
      small = omega (arith, moved, room.0);
      word = round_queued m fresh w (published-lt m w s.word).1;
      playing = ap is_loading same.2 ∙ s.playing;
    }

pub Step-IsSound : {w w' : World} → IsSound w → Step w w' → IsSound w'
unfolding publish_schedule stop_full pause set_consumed resume adopt_period
Step-IsSound s (captures {w} m fresh h) = round-IsSound m fresh w s h
Step-IsSound s (adopts {w} m) =
    if_cases IsSound (is_in_game w.timeline.phase) (IsSound-same w _ (refl, refl, refl, refl) s) s
Step-IsSound s (publishes {w}) = IsSound-same w (publish_schedule w) (refl, refl, refl, refl) s
Step-IsSound s (stops {w}) = IsSound-same w (stop_full w) (refl, refl, refl, refl) s
Step-IsSound s (pauses {w}) = IsSound-same w (pause w) (refl, refl, refl, refl) s
Step-IsSound s (resumes {w}) =
    if_cases IsSound (not w.timeline.overflow && not (w.timeline.base == 0))
      (IsSound-same w _ (refl, refl, refl, refl) s) s
Step-IsSound s (consumes {w} frame p q) = record {
  ordered = q;
  room = omega (arith, s.room, p);
  small = s.small;
  word = s.word;
  playing = s.playing;
}
Step-IsSound s (confirms {w} frame input) =
    IsSound-same w (record w { buffer = confirm_remote w.buffer frame input })
      (refl, refl, refl, refl) s
Step-IsSound s (commands {w} c h) = record {
  ordered = s.ordered;
  room = s.room;
  small = s.small;
  word = h;
  playing = s.playing;
}

Step-Advances : {w w' : World} → IsSound w → Step w w' → Advances w w'
unfolding publish_schedule stop_full pause set_consumed resume adopt_period
Step-Advances s (captures {w} m fresh h) = round-Advances m fresh w s h
Step-Advances s (adopts {w} m) =
    if_cases (Advances w) (is_in_game w.timeline.phase)
      (still w _ refl (λ f. refl) (omega arith) (omega arith)) (Advances-refl w)
Step-Advances s (publishes {w}) =
    still w (publish_schedule w) refl (λ f. refl) (omega arith) (omega arith)
Step-Advances s (stops {w}) = still w (stop_full w) refl (λ f. refl) (omega arith) (omega arith)
Step-Advances s (pauses {w}) = still w (pause w) refl (λ f. refl) (omega arith) (omega arith)
Step-Advances s (resumes {w}) =
    if_cases (Advances w) (not w.timeline.overflow && not (w.timeline.base == 0))
      (still w _ refl (λ f. refl) (omega arith) (omega arith)) (Advances-refl w)
Step-Advances s (consumes {w} frame p q) =
    still w (set_consumed w frame) refl (λ f. refl) p (omega arith)
Step-Advances s (confirms {w} frame input) =
    still w (record w { buffer = confirm_remote w.buffer frame input }) refl
      (λ f. local_lane-confirm w frame input f) (omega arith) (omega arith)
Step-Advances s (commands {w} c h) =
    still w (record w { settings = c }) refl (λ f. refl) (omega arith) (omega arith)

-- A run of steps, from a sound state.
run_on : {w w' : World} → IsSound w → Reach w w' → IsSound w' × Advances w w'
run_on {w} s here = (s, Advances-refl w)
run_on {w} s (next {u} {v} r st) =
    let (s', a) = run_on s r in (Step-IsSound s' st, Advances-trans w u v a (Step-Advances s' st))

pub Reach-IsSound : {w w' : World} → IsSound w → Reach w w' → IsSound w'
Reach-IsSound s r = (run_on s r).0

pub Reach-Advances : {w w' : World} → IsSound w → Reach w w' → Advances w w'
Reach-Advances s r = (run_on s r).1

-- Outside of loading, from a state on whose unconsumed frames fit into the ring, whatever the
-- sampler, the game and the network do in an epoch: each frame that is sampled is recorded under
-- its number with a readable input, none is left out, and until the game has consumed 32 frames
-- more, its input and the record of its sampling stay as they are.
pub frames_stay :
    {w w' w'' : World} (f : ℕ)
    → IsSound w
    → Reach w w'
    → Reach w' w''
    → w.timeline.next ≤ f
    → f < w'.timeline.next
    → w''.timeline.consumed ≤ f + 32
    → IsRecorded w' f × IsKept w' w'' f
frames_stay f s r r' later h c =
    let s' = Reach-IsSound s r in
    let s'' = Reach-IsSound s' r' in
    let a = Reach-Advances s r in
    let a' = Reach-Advances s' r' in
    (a.recorded f later h (omega (arith, s''.room, a'.next)), a'.kept f h (omega (arith, s''.room)))
