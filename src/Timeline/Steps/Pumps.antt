-- ===== src/Timeline/Steps/Pumps.antt =====
-- A whole call of the sampler is a run of steps, and it ends.
use cccaster_ver_b.Prelude.{
  ℕ, List, [], ◌∷◌, length, leb, ◌+◌, ◌<◌, ◌≡◌, ◌≤◌, ◌⊎◌, Bool, true, false, Option, none, some,
  arith, refl, not, ◌||◌, if◌then◌else◌, Bool-cases, inl, inr, if_cases, ap, ◌∙◌,
}
use mathlib.Core.Option
use cccaster_ver_b.Prelude.Int.{◌≤ℤ◌, ◌<ℤ◌}
use cccaster_ver_b.Timeline.State.{World, Moment, Timeline, publish_schedule, is_in_game}
use cccaster_ver_b.Timeline.Control.{set_consumed}
use cccaster_ver_b.Timeline.Capture.{is_full, stop_full, adopt_period, is_fresh}
use cccaster_ver_b.Timeline.Pump.{pump_ticks, rounds, round, is_due, consume}
use cccaster_ver_b.Timeline.Steps.{
  IsSound, Reach, here, next, captures, adopts, publishes, stops, consumes,
}
use cccaster_ver_b.Timeline.Steps.Advance.{room_left, round_next}
use cccaster_ver_b.Timeline.Steps.Run.{Reach-IsSound, Step-IsSound, round_still}

consume-Reach : (count : ℕ) {u w : World} → Reach u w → Reach u (consume count w)
unfolding consume
consume-Reach count {u} {w} r =
    elim (Bool-cases (leb (w.timeline.consumed + count) w.timeline.next)) [
      | inl some_left ↦
          rw some_left
            (next r (consumes (w.timeline.consumed + count) (omega arith) (ground arith)))
      | inr none_left ↦ rw none_left r
    ]

rounds-Reach :
    (counts : List ℕ) (m : Moment) (fresh : Bool) (u w w' : World)
    → Reach u w
    → rounds counts m fresh w ≡ some w'
    → Reach u w'
unfolding rounds
rounds-Reach [] m fresh u w w' r e = absurd (cc)
rounds-Reach (count ∷ counts) m fresh u w w' r e =
    let v = consume count w in
    let c = consume-Reach count r in
    elim (Bool-cases (is_due m v.timeline)) [
      | inr ahead ↦
          let e' : some (publish_schedule v) ≡ some w' = rw ahead at e in
          let q : publish_schedule v ≡ w' = cc in rw (← q) (next c publishes)
      | inl due ↦ elim (Bool-cases (is_full v.timeline)) [
        | inl full ↦
            let e' : some (stop_full v) ≡ some w' = rw (due, full) at e in
            let q : stop_full v ≡ w' = cc in rw (← q) (next c stops)
        | inr space ↦
            rounds-Reach counts m fresh u (round m fresh v) w' (next c (captures m fresh space))
              (rw (due, space) at e)
      ]
    ]

-- What a call answers.
abbrev answer : Option World → Option (Bool × World)
answer o = Option.map (λ w'. (true, w')) o

answer-some : (o : Option World) (b : Bool) (w' : World) → answer o ≡ some (b, w') → o ≡ some w'
answer-some none b w' e = cc
answer-some (some w) b w' e = cc

idle_answer :
    (w w' : World) (b : Bool)
    → ◌≡◌ {A = Option (Bool × World)} (some (false, w)) (some (b, w'))
    → w ≡ w'
idle_answer w w' b e = cc

pub pump-Reach :
    (counts : List ℕ) (m : Moment) (w w' : World) (b : Bool)
    → pump_ticks counts m w ≡ some (b, w')
    → Reach w w'
unfolding pump_ticks
pump-Reach counts m w w' b e =
    elim (Bool-cases (not w.timeline.active || not (is_due m w.timeline))) [
      | inl idle ↦ rw (← idle_answer w w' b (rw idle at e)) here
      | inr due ↦
          let e' : answer (rounds counts m (is_fresh m w.timeline) (adopt_period m w))
              ≡ some (b, w') =
            rw due at e in
          rounds-Reach counts m (is_fresh m w.timeline) w (adopt_period m w) w'
            (next here (adopts m)) (answer-some _ b w' e')
    ]

-- The test of the clock after the loop: the deadline lies ahead, or the sampler has stopped.
abbrev pub IsDone : Moment → World → Type 0
IsDone m w =
    ((w.timeline.overflow ≡ true) × (w.timeline.active ≡ false))
    ⊎ (m.now <ℤ w.timeline.cadence.next)

ahead : (m : Moment) (t : Timeline) → is_due m t ≡ false → m.now <ℤ t.cadence.next
unfolding is_due
ahead m t h = ground arith

abbrev pub total : List ℕ → ℕ
total [] = 0
total (count ∷ counts) = count + total counts

consume_still :
    (count : ℕ) (w : World)
    → ((consume count w).timeline.next ≡ w.timeline.next)
      × ((consume count w).timeline.consumed ≤ w.timeline.consumed + count)
unfolding consume set_consumed
consume_still count w =
    if_cases
      (λ (v : World).
        (v.timeline.next ≡ w.timeline.next) × (v.timeline.consumed ≤ w.timeline.consumed + count))
      (leb (w.timeline.consumed + count) w.timeline.next) (refl, omega arith) (refl, omega arith)

rounds_end :
    (counts : List ℕ) (m : Moment) (fresh : Bool) (w : World)
    → IsSound w
    → w.timeline.consumed + total counts + 568 < w.timeline.next + length counts
    → (w' : World) × (rounds counts m fresh w ≡ some w') × IsDone m w'
unfolding rounds stop_full publish_schedule
rounds_end [] m fresh w s h = absurd (omega (arith, h, s.room))
rounds_end (count ∷ counts) m fresh w s h =
    let v = consume count w in
    let still = consume_still count w in
    let sv = Reach-IsSound s (consume-Reach count here) in
    elim (Bool-cases (is_due m v.timeline)) [
      | inr later ↦ (publish_schedule v, rw later, inr (ahead m v.timeline later))
      | inl due ↦ elim (Bool-cases (is_full v.timeline)) [
        | inl full ↦ (stop_full v, rw (due, full), inl (refl, refl))
        | inr space ↦
            let room = room_left v.timeline sv.playing space sv.ordered sv.small in
            let rest =
              rounds_end counts m fresh (round m fresh v) (Step-IsSound sv (captures m fresh space))
                (omega (
                  arith,
                  round_next m fresh v,
                  room.0,
                  (round_still m fresh v).0,
                  still.0,
                  still.1,
                  h,
                )) in
            (rest.0, rw (due, space) rest.1, rest.2)
      ]
    ]

adopt_still :
    (m : Moment) (w : World)
    → ((adopt_period m w).timeline.next ≡ w.timeline.next)
      × ((adopt_period m w).timeline.consumed ≡ w.timeline.consumed)
unfolding adopt_period
adopt_still m w =
    if_cases
      (λ (v : World).
        (v.timeline.next ≡ w.timeline.next) × (v.timeline.consumed ≡ w.timeline.consumed))
      (is_in_game w.timeline.phase) (refl, refl) (refl, refl)

busy {ℓ} :
    {A : Type ℓ} (x : A) {y : A} {a d : Bool}
    → a ≡ true
    → d ≡ true
    → (if not a || not d then x else y) ≡ y
busy x p q = rw (p, q) refl

-- Outside of loading, with room in the ring: a call at a deadline or later ends within 569 rounds
-- and one more for each frame that the game consumes during the call, of those that were sampled, however
-- late it is and whatever it reads; then the next deadline lies ahead, or the sampler has stopped at the end
-- of the ring or of the epoch.
pub pump_ends :
    (counts : List ℕ) (m : Moment) (w : World)
    → IsSound w
    → 569 + total counts ≤ length counts
    → w.timeline.active ≡ true
    → w.timeline.cadence.next ≤ℤ m.now
    → (w' : World) × (pump_ticks counts m w ≡ some (true, w')) × IsDone m w'
unfolding pump_ticks is_due
pump_ends counts m w s h active due =
    let still = adopt_still m w in
    let rest =
      rounds_end counts m (is_fresh m w.timeline) (adopt_period m w) (Step-IsSound s (adopts m))
        (omega (arith, still.0, still.1, s.ordered, h)) in
    let run = ap answer rest.1 in (rest.0, busy _ active (ground arith) ∙ run, rest.2)
