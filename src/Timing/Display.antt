-- ===== src/Timing/Display.antt =====
-- src/src/core_dll/timing/DisplayCadence.hpp: which refresh of the display a frame is for.
-- Times are ticks of a clock that is not negative; `now - epoch` is taken only when a frame is due,
-- and then `epoch` is not later. `gcd` is the library's.
pub mod Slots
mod Tests
use cccaster_ver_b.Prelude.{
  ℕ, suc, Bool, true, false, ◌+◌, ◌-◌, ◌*◌, ◌/◌, ◌%◌, not, ◌&&◌, ◌||◌, ltb, leb, ◌==◌,
  if◌then◌else◌,
}

pub record DisplayCadence : Type 0 where
  pub numerator : ℕ
  pub period : ℕ
  pub epoch : ℕ
  pub next : ℕ
  pub slot : ℕ
  pub missed : ℕ

module _ (gcd : ℕ → ℕ → ℕ) where
  unfoldable pub configure : DisplayCadence → ℕ → ℕ → ℕ → Bool × DisplayCadence
  configure c numerator denominator now =
      if numerator == 0 || denominator == 0
      then (false, c)
      else (let n = numerator / gcd numerator denominator in
          let d = denominator / gcd numerator denominator in
          if ltb 1_000_000 n || ltb 10_000 d || ltb n (20 * d) || ltb (1_000 * d) n
          then (false, c)
          else (
            true,
            record {
              numerator = n;
              period = 60_000_000 * d;
              epoch = now;
              next = now;
              slot = 0;
              missed = 0;
            },
          ))

unfoldable pub is_due : DisplayCadence → ℕ → Bool
is_due c now = not (c.numerator == 0) && leb c.next now

-- The slots that have passed, and the time of a slot, without large products.
abbrev pub elapsed_slots : DisplayCadence → ℕ → ℕ
elapsed_slots c now =
    let delta = now - c.epoch in
    delta / c.period * c.numerator + delta % c.period * c.numerator / c.period

abbrev pub slot_time : DisplayCadence → ℕ → ℕ
slot_time c slot =
    c.epoch
    + slot / c.numerator * c.period
    + (slot % c.numerator * c.period + c.numerator - 1) / c.numerator

unfoldable pub presented : DisplayCadence → ℕ → DisplayCadence
unfolding is_due
presented c now =
    if not (is_due c now)
    then c
    else (let elapsed = elapsed_slots c now in
        record c {
          missed = if ltb c.slot elapsed then c.missed + (elapsed - c.slot) else c.missed;
          slot = suc elapsed;
          next = slot_time c (suc elapsed);
        })
