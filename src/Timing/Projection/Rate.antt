-- ===== src/Timing/Projection/Rate.antt =====
-- How fast the projected clock runs: within a thousandth of the measured one.
use native.Mathlib.Nat.{div-add-mod, mul-le-mul_left}
use cccaster_ver_b.Prelude.{
  ℕ, zero, suc, ◌+◌, ◌*◌, ◌/◌, ◌%◌, ◌≤◌, ◌<◌, ◌≡◌, ◌≢◌, ◌⊎◌, inl, inr, refl, ap, arith, false,
  Bool-cases,
}
use cccaster_ver_b.Prelude.Int.{
  ℤ, pos, negsuc, pos_part, neg_part, ◌+ℤ◌, ◌-ℤ◌, ◌*ℤ◌, ◌≤ℤ◌, div_ℤ, mod_ℤ, max_ℤ, int_laws,
  div_ℤ_parts, eqb_ℤ, eq_of_parts, mul_pos_parts,
}
use cccaster_ver_b.Timing.Projection.{ClockAnchor, at_ticks, scaled}

pub one_sign : (a : ℤ) → (pos_part a ≡ 0) ⊎ (neg_part a ≡ 0)
one_sign (pos n) = inr refl
one_sign (negsuc n) = inl refl

-- What `ClockContinuity` keeps: at most 1000 parts in a million, and less than a whole tick over.
pub record Steady (c : ClockAnchor) : Type 0 where
  pub ppm_bound : pos_part c.ppm + neg_part c.ppm ≤ 1_000
  pub fraction_bound : pos_part c.fraction + neg_part c.fraction < 1_000_000

pub mul_parts :
    (q : ℕ) (p : ℤ)
    → (pos_part (pos q *ℤ p) ≡ q * pos_part p) × (neg_part (pos q *ℤ p) ≡ q * neg_part p)
unfolding ◌*ℤ◌
mul_parts q (pos n) = (ground arith, ground arith)
mul_parts q (negsuc n) = (ground arith, ground arith)

split_mul : (d n : ℕ) → 1_000_000 * (d / 1_000_000 * n) + d % 1_000_000 * n ≡ d * n
split_mul d n = grind (arith, ap (λ (t : ℕ). t * n) (div-add-mod d 1_000_000))

-- What is added to the measured time.
abbrev gain : ClockAnchor → ℕ → ℤ
gain c d =
    pos (d / 1_000_000) *ℤ c.ppm +ℤ div_ℤ (c.fraction +ℤ pos (d % 1_000_000) *ℤ c.ppm) 1_000_000

gain-bounds :
    (c : ClockAnchor) (d : ℕ)
    → (d * pos_part c.ppm + pos_part c.fraction + 1_000_000 * neg_part (gain c d)
        ≤ 1_000_000 * pos_part (gain c d) + d * neg_part c.ppm + neg_part c.fraction + 999_999)
      × (1_000_000 * pos_part (gain c d) + d * neg_part c.ppm + neg_part c.fraction
          ≤ d * pos_part c.ppm + pos_part c.fraction + 1_000_000 * neg_part (gain c d) + 999_999)
gain-bounds c d =
    let x = c.fraction +ℤ pos (d % 1_000_000) *ℤ c.ppm in
    omega (
      int_laws,
      mul_parts (d / 1_000_000) c.ppm,
      mul_parts (d % 1_000_000) c.ppm,
      split_mul d (pos_part c.ppm),
      split_mul d (neg_part c.ppm),
      div_ℤ_parts x 1_000_000,
      one_sign x,
    )

scaled-gain : (c : ClockAnchor) (d : ℕ) → scaled c (pos d) ≡ c.time +ℤ pos d +ℤ gain c d
unfolding div_ℤ mod_ℤ
scaled-gain c d =
    let x = c.fraction +ℤ pos (d % 1_000_000) *ℤ c.ppm in
    +ℤ_assoc_lem (c.time +ℤ pos d) (pos (d / 1_000_000) *ℤ c.ppm) (div_ℤ x 1_000_000)
  where
    +ℤ_assoc_lem : (a b e : ℤ) → a +ℤ b +ℤ e ≡ a +ℤ (b +ℤ e)
    +ℤ_assoc_lem a b e = omega int_laws

-- In `2 * k + 4` ticks the clock moves on by `k` or more.
pub scaled-progress :
    (c : ClockAnchor) (d k : ℕ)
    → Steady c
    → scaled c (pos d) +ℤ pos k ≤ℤ scaled c (pos (d + (2 * k + 4)))
scaled-progress c d k h =
    let m = 2 * k + 4 in
    let up : (d + m) * pos_part c.ppm ≡ d * pos_part c.ppm + m * pos_part c.ppm = grind arith in
    let down : (d + m) * neg_part c.ppm ≡ d * neg_part c.ppm + m * neg_part c.ppm = grind arith in
    let slow : m * neg_part c.ppm ≤ m * 1_000 = mul-le-mul_left m (omega (arith, h.ppm_bound)) in
    rw (scaled-gain c d, scaled-gain c (d + m))
      (omega (
        int_laws,
        gain-bounds c d,
        gain-bounds c (d + m),
        up,
        down,
        slow,
        h.ppm_bound,
        h.fraction_bound,
      ))

pub max_zero : (x : ℤ) → max_ℤ (pos 0) x ≡ pos (pos_part x)
unfolding max_ℤ
max_zero (pos n) = ground arith
max_zero (negsuc n) = ground arith

pub zero_or_not : (q : ℤ) → (q ≡ pos 0) ⊎ (q ≢ pos 0)
zero_or_not (pos zero) = inl refl
zero_or_not (pos (suc n)) = inr (λ e. omega (arith, ap pos_part e))
zero_or_not (negsuc n) = inr (λ e. omega (arith, ap neg_part e))

not_zero : (q : ℤ) → q ≢ pos 0 → eqb_ℤ q (pos 0) ≡ false
not_zero q h = elim (Bool-cases (eqb_ℤ q (pos 0))) [
  | inl e ↦ absurd (h (eq_of_parts q (pos 0) (ground (arith, e))))
  | inr e ↦ e
]

-- The clock once it has been measured.
pub at_ticks-scaled :
    (c : ClockAnchor) (now : ℤ)
    → c.qpc ≢ pos 0
    → at_ticks c now ≡ scaled c (pos (pos_part (now -ℤ c.qpc)))
unfolding at_ticks
at_ticks-scaled c now h = rw (not_zero c.qpc h, max_zero (now -ℤ c.qpc)) refl

-- The distance to the end of a search of length `2 * k + 4`.
pub ahead :
    (now qpc r : ℤ)
    → qpc ≤ℤ now
    → pos 0 ≤ℤ r
    → pos_part (now +ℤ r *ℤ pos 2 +ℤ pos 4 -ℤ qpc) ≡ pos_part (now -ℤ qpc) + (2 * pos_part r + 4)
ahead now qpc r h k = omega (
  int_laws,
  mul_pos_parts r 2,
  h,
  k,
  one_sign r,
  one_sign (now -ℤ qpc),
  one_sign (now +ℤ r *ℤ pos 2 +ℤ pos 4 -ℤ qpc),
)

-- Before it is measured, the clock is the processor's.
pub at_ticks-raw : (c : ClockAnchor) (now : ℤ) → c.qpc ≡ pos 0 → at_ticks c now ≡ now
unfolding at_ticks
at_ticks-raw c now h = rw h refl
