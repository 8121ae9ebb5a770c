-- ===== src/Timing/Continuity/Reads.antt =====
-- Readings of the two clocks, one after the other.
use cccaster_ver_b.Prelude.{ℕ, ◌≡◌, ◌^◌, refl, ◌∙◌, true, List, [], ◌∷◌, arith}
use cccaster_ver_b.Prelude.Int.{ℤ, pos, ◌+ℤ◌, ◌-ℤ◌, ◌*ℤ◌, ◌≤ℤ◌, ◌<ℤ◌}
use cccaster_ver_b.Timing.Projection.{at_ticks, deadline_ticks}
use cccaster_ver_b.Timing.Projection.Deadline.{Crosses, deadline_ticks-Crosses}
use cccaster_ver_b.Timing.Continuity.{
  ClockContinuity, new_clock, start_at, advance, read_clock, anchor, run_on,
}
use cccaster_ver_b.Timing.Continuity.Tuned.{
  IsTuned, IsTuned-Tunes, Tunes-tune, IsTuned-advance, IsTuned-start_at,
}

-- The readings of both clocks, one after the other.
abbrev pub reads : ClockContinuity → List (ℤ × ℤ) → ClockContinuity
reads c [] = c
reads c (r ∷ rs) = reads (read_clock c r.0 r.1) rs

started : (c : ClockContinuity) (qpc : ℤ) → (start_at c qpc).initialized ≡ true
unfolding start_at
started c qpc = ground arith

start_again : (c : ClockContinuity) (qpc : ℤ) → c.initialized ≡ true → start_at c qpc ≡ c
unfolding start_at
start_again c qpc e = rw e refl

advance-initialized : (c : ClockContinuity) (qpc : ℤ) → (advance c qpc).initialized ≡ c.initialized
unfolding advance run_on
advance-initialized c qpc = refl

IsTuned-read :
    (c : ClockContinuity) (qpc audio : ℤ)
    → IsTuned c
    → IsTuned (read_clock c qpc audio) × ((read_clock c qpc audio).initialized ≡ true)
unfolding read_clock
IsTuned-read c qpc audio h =
    let a = IsTuned-advance (start_at c qpc) qpc (IsTuned-start_at c qpc h) in
    let t = Tunes-tune (advance (start_at c qpc) qpc) qpc audio a.0 in
    (
      IsTuned-Tunes (advance (start_at c qpc) qpc) _ t,
      t.6 ∙ advance-initialized (start_at c qpc) qpc ∙ started c qpc,
    )

read-later :
    (c : ClockContinuity) (qpc audio : ℤ)
    → IsTuned c
    → c.initialized ≡ true
    → c.output ≤ℤ (read_clock c qpc audio).output
unfolding read_clock
read-later c qpc audio h e =
    let a = IsTuned-advance c qpc h in
    rw (start_again c qpc e, (Tunes-tune (advance c qpc) qpc audio a.0).0) a.1

IsTuned-reads : (c : ClockContinuity) (rs : List (ℤ × ℤ)) → IsTuned c → IsTuned (reads c rs)
IsTuned-reads c [] h = h
IsTuned-reads c (r ∷ rs) h = IsTuned-reads (read_clock c r.0 r.1) rs (IsTuned-read c r.0 r.1 h).0

reads-initialized :
    (c : ClockContinuity) (rs : List (ℤ × ℤ))
    → IsTuned c
    → c.initialized ≡ true
    → (reads c rs).initialized ≡ true
reads-initialized c [] h e = e
reads-initialized c (r ∷ rs) h e =
    let t = IsTuned-read c r.0 r.1 h in reads-initialized (read_clock c r.0 r.1) rs t.0 t.1

reads-later :
    (c : ClockContinuity) (rs : List (ℤ × ℤ))
    → IsTuned c
    → c.initialized ≡ true
    → c.output ≤ℤ (reads c rs).output
reads-later c [] h e = omega arith
reads-later c (r ∷ rs) h e =
    let t = IsTuned-read c r.0 r.1 h in
    omega (arith, read-later c r.0 r.1 h e, reads-later (read_clock c r.0 r.1) rs t.0 t.1)

new-IsTuned : (units : ℕ) → IsTuned (new_clock units)
unfolding new_clock
new-IsTuned units = record {
  rate_bound = omega arith;
  fraction_bound = omega arith;
  stopped = λ e. refl;
}

-- Whatever the two clocks show, in any order of times: from the first reading on, the output of the
-- tuned clock never goes back.
pub reads-monotone :
    (units : ℕ) (first : ℤ × ℤ) (earlier later : List (ℤ × ℤ))
    → (reads (new_clock units) (first ∷ earlier)).output
      ≤ℤ (reads (reads (new_clock units) (first ∷ earlier)) later).output
reads-monotone units first earlier later =
    let t = IsTuned-read (new_clock units) first.0 first.1 (new-IsTuned units) in
    let c = read_clock (new_clock units) first.0 first.1 in
    reads-later (reads c earlier) later (IsTuned-reads c earlier t.0)
      (reads-initialized c earlier t.0 t.1)

-- Whatever the two clocks have shown, when the tuned clock is passed on and is asked for a deadline
-- at a time that is not before its last reading, with rounds enough for the range of the search: the
-- clock passes the target at that deadline.
pub reads-deadline :
    (units rounds : ℕ) (rs : List (ℤ × ℤ)) (target now : ℤ)
    → (anchor (reads (new_clock units) rs)).qpc ≤ℤ now
    → ((target -ℤ at_ticks (anchor (reads (new_clock units) rs)) now) *ℤ pos 2 +ℤ pos 4
        <ℤ pos (2 ^ rounds))
    → Crosses
        (anchor (reads (new_clock units) rs))
        target
        now
        (deadline_ticks (anchor (reads (new_clock units) rs)) rounds target now)
reads-deadline units rounds rs target now h n =
    let t = IsTuned-reads (new_clock units) rs (new-IsTuned units) in
    deadline_ticks-Crosses (anchor (reads (new_clock units) rs)) rounds target now
      (record { ppm_bound = t.rate_bound; fraction_bound = t.fraction_bound }) h n
