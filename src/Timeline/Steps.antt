-- ===== src/Timeline/Steps.antt =====
-- The steps of the two threads on the timeline, in any order: a sampler that holds the lock, the game
-- thread, the network thread that confirms inputs, and the window that makes requests. The steps
-- are finer than the calls, so that `SetConsumed` and a confirmation may come between two frames.
pub mod Word
pub mod Advance
pub mod Run
pub mod Pumps
pub mod Once
use cccaster_ver_b.Prelude.{ℕ, ◌+◌, ◌≤◌, ◌<◌, ◌≡◌, Bool, false}
use cccaster_ver_b.Prelude.Words.{u32_mod}
use cccaster_ver_b.Sync.MatchInput.{confirm_remote}
use cccaster_ver_b.Sync.Settings.{SettingsCommands}
use cccaster_ver_b.Timeline.State.{World, Moment, is_loading, publish_schedule}
use cccaster_ver_b.Timeline.Control.{pause, resume, set_consumed}
use cccaster_ver_b.Timeline.Capture.{is_full, stop_full, adopt_period}
use cccaster_ver_b.Timeline.Pump.{round}

-- The game consumes frames that were sampled, in order. What the window requests is a word.
pub data Step : World → World → Type 0 where
  captures :
      {w : World} (m : Moment) (fresh : Bool)
      → is_full w.timeline ≡ false
      → Step w (round m fresh w)
  adopts : {w : World} (m : Moment) → Step w (adopt_period m w)
  publishes : {w : World} → Step w (publish_schedule w)
  stops : {w : World} → Step w (stop_full w)
  pauses : {w : World} → Step w (pause w)
  resumes : {w : World} → Step w (resume w)
  consumes :
      {w : World} (frame : ℕ)
      → w.timeline.consumed ≤ frame
      → frame ≤ w.timeline.next
      → Step w (set_consumed w frame)
  confirms :
      {w : World} (frame input : ℕ)
      → Step w (record w { buffer = confirm_remote w.buffer frame input })
  commands :
      {w : World} (s : SettingsCommands) → s.queued < u32_mod → Step w (record w { settings = s })

pub data Reach (w : World) : World → Type 0 where
  here : Reach w w
  next : {u v : World} → Reach w u → Step u v → Reach w v

-- Outside of loading: the frames that are not consumed fit into the ring with 32 to spare.
pub record IsSound (w : World) : Type 0 where
  pub ordered : w.timeline.consumed ≤ w.timeline.next
  pub room : w.timeline.next ≤ w.timeline.consumed + 568
  pub small : w.timeline.next < u32_mod
  pub word : w.settings.queued < u32_mod
  pub playing : is_loading w.timeline.phase ≡ false
