-- ===== src/Timing/Display/Slots.antt =====
-- After a frame is shown the next one is not due yet, and every slot is shown or counted as missed.
use native.Mathlib.Nat.{
  zero-mul, zero-div, zero-mod, div-eq_of_lt, le-div_iff_mul-le, mul-le-mul_right,
  lt_of_mul-lt-mul_right, div-add-mod,
}
use cccaster_ver_b.Prelude.{
  ℕ, suc, ◌+◌, ◌-◌, ◌*◌, ◌/◌, ◌%◌, ◌≤◌, ◌<◌, ◌≡◌, ◌≢◌, refl, true, List, [], ◌∷◌, arith,
  if◌then◌else◌, ap, Bool-cases, inl, inr, ltb, ◌∙◌, sym,
}
use cccaster_ver_b.Timing.Display.{
  DisplayCadence, configure, is_due, presented, elapsed_slots, slot_time,
}

-- Splitting off whole periods is exact.
split_product : (a p n : ℕ) → p ≢ 0 → a / p * n * p + a % p * n ≡ a * n
split_product a p n h = grind (arith, ap (λ (t : ℕ). t * n) (div-add-mod a p))

elapsed-bounds :
    (a p n : ℕ)
    → p ≢ 0
    → ((a / p * n + a % p * n / p) * p ≤ a * n) × (a * n < (a / p * n + a % p * n / p + 1) * p)
elapsed-bounds a p n h = grind (arith, split_product a p n h)

time-bounds :
    (s p n : ℕ)
    → n ≢ 0
    → (s * p ≤ (s / n * p + (s % n * p + n - 1) / n) * n)
      × ((s / n * p + (s % n * p + n - 1) / n) * n < s * p + n)
time-bounds s p n h = grind (arith, split_product s n p h)

-- What holds between two frames: the next deadline is that of the next slot.
pub record IsOn (c : DisplayCadence) : Type 0 where
  pub numerator_set : c.numerator ≢ 0
  pub period_set : c.period ≢ 0
  pub deadline : c.next ≡ slot_time c c.slot

presented-IsOn : (c : DisplayCadence) (now : ℕ) → IsOn c → IsOn (presented c now)
unfolding presented is_due
presented-IsOn c now h = elim (Bool-cases (is_due c now)) [
  | inl e ↦
      rw e (record { numerator_set = h.numerator_set; period_set = h.period_set; deadline = refl })
  | inr e ↦ rw e h
]

-- The time of a slot since the epoch.
abbrev offset : DisplayCadence → ℕ → ℕ
offset c s =
    s / c.numerator * c.period + (s % c.numerator * c.period + c.numerator - 1) / c.numerator

slot_time-offset : (c : DisplayCadence) (s : ℕ) → slot_time c s ≡ c.epoch + offset c s
slot_time-offset c s = omega arith

due_offset :
    (c : DisplayCadence) (now : ℕ)
    → IsOn c
    → is_due c now ≡ true
    → (offset c c.slot ≤ now - c.epoch) × (c.epoch ≤ now)
unfolding is_due
due_offset c now h e = ground (arith, h.deadline, e, slot_time-offset c c.slot)

-- A frame that is due is not before the time of its slot, so no slot is counted twice.
slot-elapsed :
    (c : DisplayCadence) (now : ℕ) → IsOn c → is_due c now ≡ true → c.slot ≤ elapsed_slots c now
slot-elapsed c now h e =
    let less : c.slot < elapsed_slots c now + 1 = lt_of_mul-lt-mul_right c.period (
      omega (
        arith,
        (time-bounds c.slot c.period c.numerator h.numerator_set).0,
        (elapsed-bounds (now - c.epoch) c.period c.numerator h.period_set).1,
        mul-le-mul_right c.numerator (due_offset c now h e).0,
      )) in
    omega (arith, less)

-- After a frame is shown, the next deadline lies ahead, by no more than the time of one slot and one
-- tick.
pub presented-next :
    (c : DisplayCadence) (now : ℕ)
    → IsOn c
    → is_due c now ≡ true
    → (now < (presented c now).next)
      × ((presented c now).next * c.numerator < now * c.numerator + c.period + c.numerator)
unfolding presented
presented-next c now h e =
    let E = elapsed_slots c now in
    let delta = now - c.epoch in
    let d = due_offset c now h e in
    let t = time-bounds (suc E) c.period c.numerator h.numerator_set in
    let passed = elapsed-bounds delta c.period c.numerator h.period_set in
    let after : delta < offset c (suc E) =
      lt_of_mul-lt-mul_right c.numerator (omega (arith, t.0, passed.1)) in
    let near : (c.epoch + offset c (suc E)) * c.numerator
        < (c.epoch + delta) * c.numerator + c.period + c.numerator =
      grind (arith, t.1, passed.0) in
    let back : c.epoch + delta ≡ now = omega (arith, d.1) in
    rw e (
      omega (arith, slot_time-offset c (suc E), after, d.1),
      rw (slot_time-offset c (suc E)) (omega (arith, near, ap (λ (t : ℕ). t * c.numerator) back)),
    )

-- The attempts to show a frame, and how many of them were due.
abbrev pub run : DisplayCadence → List ℕ → DisplayCadence
run c [] = c
run c (now ∷ times) = run (presented c now) times

abbrev pub shown : DisplayCadence → List ℕ → ℕ
shown c [] = 0
shown c (now ∷ times) = (if is_due c now then 1 else 0) + shown (presented c now) times

counts :
    (slot missed elapsed : ℕ)
    → slot ≤ elapsed
    → (if ltb slot elapsed then missed + (elapsed - slot) else missed) + 1 + slot
      ≡ suc elapsed + missed
counts slot missed elapsed h = ground arith

presented-counted :
    (c : DisplayCadence) (now : ℕ)
    → IsOn c
    → (presented c now).missed + (if is_due c now then 1 else 0) + c.slot
      ≡ (presented c now).slot + c.missed
unfolding presented
presented-counted c now h = elim (Bool-cases (is_due c now)) [
  | inl e ↦
      let past = slot-elapsed c now h e in rw e (counts c.slot c.missed (elapsed_slots c now) past)
  | inr e ↦ rw e (omega arith)
]

run-counted :
    (c : DisplayCadence) (times : List ℕ)
    → IsOn c
    → (run c times).missed + shown c times + c.slot ≡ (run c times).slot + c.missed
run-counted c [] h = omega arith
run-counted c (now ∷ times) h =
    omega (
      arith,
      presented-counted c now h,
      run-counted (presented c now) times (presented-IsOn c now h),
    )

configured :
    (gcd : ℕ → ℕ → ℕ) (c : DisplayCadence) (n d now : ℕ)
    → (configure gcd c n d now).0 ≡ true
    → (n ≢ 0)
      × (d ≢ 0)
      × ((configure gcd c n d now).1.numerator ≡ n / gcd n d)
      × ((configure gcd c n d now).1.period ≡ 60_000_000 * (d / gcd n d))
      × ((configure gcd c n d now).1.next ≡ now)
      × ((configure gcd c n d now).1.epoch ≡ now)
      × ((configure gcd c n d now).1.slot ≡ 0)
      × ((configure gcd c n d now).1.missed ≡ 0)
unfolding configure
configured gcd c n d now e = ground (arith, e)

first_slot : (c : DisplayCadence) → c.numerator ≢ 0 → slot_time c 0 ≡ c.epoch
first_slot c h =
    let z : 0 / c.numerator ≡ 0 = zero-div c.numerator in
    let r : 0 % c.numerator ≡ 0 = zero-mod c.numerator in
    let q : (0 + c.numerator - 1) / c.numerator ≡ 0 = div-eq_of_lt (omega (arith, h)) in
    rw (z, r, zero-mul c.period) (omega (arith, q))

divisible : (g n : ℕ) → 0 < g → g ≤ n → n / g ≢ 0
divisible g n h k =
    let one_fits : 1 ≤ n / g = (le-div_iff_mul-le h).1 (omega (arith, k)) in omega (arith, one_fits)

pub configure-IsOn :
    (gcd : ℕ → ℕ → ℕ) (c : DisplayCadence) (n d now : ℕ)
    → (n ≢ 0 → d ≢ 0 → (0 < gcd n d) × (gcd n d ≤ n) × (gcd n d ≤ d))
    → (configure gcd c n d now).0 ≡ true
    → IsOn (configure gcd c n d now).1
      × ((configure gcd c n d now).1.slot ≡ 0)
      × ((configure gcd c n d now).1.missed ≡ 0)
unfolding configure
configure-IsOn gcd c n d now g e =
    let k = configured gcd c n d now e in
    let b = g k.0 k.1 in
    let n_set = divisible (gcd n d) n b.0 b.1 in
    (
      record {
        numerator_set = rw k.2 n_set;
        period_set = omega (arith, k.3, divisible (gcd n d) d b.0 b.2);
        deadline =
            rw k.6 (k.4 ∙ sym k.5 ∙ sym (first_slot (configure gcd c n d now).1 (rw k.2 n_set)));
      },
      k.6,
      k.7,
    )

-- On a display whose rate was accepted, with a divisor of the two numbers that is not greater than
-- either: whenever frames are offered, each slot that has passed was either shown or is counted as
-- missed, exactly once.
pub run-accounted :
    (gcd : ℕ → ℕ → ℕ) (c : DisplayCadence) (n d now : ℕ) (times : List ℕ)
    → (n ≢ 0 → d ≢ 0 → (0 < gcd n d) × (gcd n d ≤ n) × (gcd n d ≤ d))
    → (configure gcd c n d now).0 ≡ true
    → (run (configure gcd c n d now).1 times).slot
      ≡ shown (configure gcd c n d now).1 times + (run (configure gcd c n d now).1 times).missed
run-accounted gcd c n d now times g e =
    let k = configure-IsOn gcd c n d now g e in
    omega (arith, run-counted (configure gcd c n d now).1 times k.0, k.1, k.2)
