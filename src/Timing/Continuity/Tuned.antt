-- ===== src/Timing/Continuity/Tuned.antt =====
-- The tuned clock never runs backwards and stays within a thousandth of the processor's.
use native.Mathlib.Nat.{mul-le-mul_left}
use cccaster_ver_b.Prelude.{
  ℕ, ◌+◌, ◌≤◌, ◌<◌, ◌≡◌, inl, inr, refl, ◌∙◌, true, false, Bool-cases, arith, ◌||◌, ◌&&◌, if_cases,
  ◌*◌, not, ◌%◌, ◌/◌,
}
use cccaster_ver_b.Prelude.Int.{
  ℤ, pos, negsuc, pos_part, neg_part, ◌+ℤ◌, ◌-ℤ◌, ◌*ℤ◌, ◌≤ℤ◌, div_ℤ, mod_ℤ, clamp_ℤ, int_laws,
  mod_ℤ_parts, clamp_ℤ_bounds, ltb_ℤ, leb_ℤ, div_ℤ_parts,
}
use cccaster_ver_b.Timing.Projection.Rate.{one_sign, mul_parts, max_zero}
use cccaster_ver_b.Timing.Continuity.{
  ClockContinuity, fall_back, start_at, run_on, advance, first_audio, watch, control, follow, tune,
}

-- The rate and the rest are in their ranges; the rate is 0 once the clock has fallen back.
pub record IsTuned (c : ClockContinuity) : Type 0 where
  pub rate_bound : pos_part c.rate_ppm + neg_part c.rate_ppm ≤ 1_000
  pub fraction_bound : pos_part c.fraction + neg_part c.fraction < 1_000_000
  pub stopped : c.is_fallback ≡ true → c.rate_ppm ≡ pos 0

-- What tuning leaves alone.
abbrev pub Tunes : ClockContinuity → ClockContinuity → Type 0
Tunes c d =
    (d.output ≡ c.output)
    × (d.last_qpc ≡ c.last_qpc)
    × (pos_part d.rate_ppm + neg_part d.rate_ppm ≤ 1_000)
    × (pos_part d.fraction + neg_part d.fraction < 1_000_000)
    × (d.is_fallback ≡ true → d.rate_ppm ≡ pos 0)
    × (c.is_fallback ≡ true → d.is_fallback ≡ true)
    × (d.initialized ≡ c.initialized)

clamped :
    (v : ℤ)
    → pos_part (clamp_ℤ v (negsuc 999) (pos 1_000)) + neg_part (clamp_ℤ v (negsuc 999) (pos 1_000))
      ≤ 1_000
clamped v = omega (
  arith,
  clamp_ℤ_bounds v (negsuc 999) (pos 1_000) (omega arith),
  one_sign (clamp_ℤ v (negsuc 999) (pos 1_000)),
)

Tunes-watch : (c : ClockContinuity) (qpc audio : ℤ) → IsTuned c → Tunes c (watch c qpc audio)
unfolding watch fall_back
Tunes-watch c qpc audio h = ground (arith, h.rate_bound, h.fraction_bound, h.stopped)

Tunes-fall_back : (c : ClockContinuity) → Tunes c (fall_back c)
unfolding fall_back
Tunes-fall_back c = ground arith

Tunes-first_audio :
    (c : ClockContinuity) (qpc audio : ℤ) → IsTuned c → Tunes c (first_audio c qpc audio)
unfolding first_audio
Tunes-first_audio c qpc audio h = ground (arith, h.rate_bound, h.fraction_bound, h.stopped)

Tunes-control :
    (c : ClockContinuity) (qpc audio : ℤ)
    → IsTuned c
    → c.is_fallback ≡ false
    → Tunes c (control c qpc audio)
unfolding control fall_back
Tunes-control c qpc audio h open_ =
    ground (arith, h.fraction_bound, open_, clamped (div_ℤ (audio +ℤ c.offset -ℤ c.output) c.units))

pub IsTuned-Tunes : (c d : ClockContinuity) → Tunes c d → IsTuned d
IsTuned-Tunes c d t = record { rate_bound = t.2; fraction_bound = t.3; stopped = t.4 }

Tunes-trans : (c d e : ClockContinuity) → Tunes c d → Tunes d e → Tunes c e
Tunes-trans c d e s t = (t.0 ∙ s.0, t.1 ∙ s.1, t.2, t.3, t.4, λ f. t.5 (s.5 f), t.6 ∙ s.6)

Tunes-self : (c : ClockContinuity) → IsTuned c → Tunes c c
Tunes-self c h = (refl, refl, h.rate_bound, h.fraction_bound, h.stopped, λ f. f, refl)

Tunes-follow : (c : ClockContinuity) (qpc audio : ℤ) → IsTuned c → Tunes c (follow c qpc audio)
unfolding follow
Tunes-follow c qpc audio h =
    let w = watch c qpc audio in
    let t = Tunes-watch c qpc audio h in
    elim (Bool-cases (w.is_fallback || ltb_ℤ (qpc -ℤ w.control_qpc) (pos (10_000 * c.units)))) [
      | inl e ↦ rw e t
      | inr e ↦ rw e (
          Tunes-trans c w (control w qpc audio) t
            (Tunes-control w qpc audio (IsTuned-Tunes c w t) (ground (arith, e))))
    ]

lost :
    (c : ClockContinuity) (audio : ℤ)
    → (c.used_audio && leb_ℤ audio (pos 0)) ≡ true
    → leb_ℤ audio (pos 0) ≡ true
lost c audio e = ground (arith, e)

pub Tunes-tune : (c : ClockContinuity) (qpc audio : ℤ) → IsTuned c → Tunes c (tune c qpc audio)
unfolding tune
Tunes-tune c qpc audio h = elim (Bool-cases (c.used_audio && leb_ℤ audio (pos 0))) [
  | inl e ↦ rw (e, lost c audio e) (Tunes-fall_back c)
  | inr e ↦ rw e (elim (Bool-cases (leb_ℤ audio (pos 0) || c.is_fallback)) [
    | inl stop ↦ rw stop (Tunes-self c h)
    | inr on ↦ rw on (
        if_cases (λ d. Tunes c d) (not c.used_audio) (Tunes-first_audio c qpc audio h)
          (Tunes-follow c qpc audio h))
  ])
]

slower : (r : ℤ) → pos_part r + neg_part r ≤ 1_000 → neg_part r ≤ 1_000
slower r h = omega (arith, h)

-- In `d` ticks the output does not go back.
steady_gain :
    (f r : ℤ) (d : ℕ)
    → pos_part r + neg_part r ≤ 1_000
    → pos_part f + neg_part f < 1_000_000
    → pos 0
      ≤ℤ pos d
        +ℤ div_ℤ (pos d) 1_000_000 *ℤ r
        +ℤ div_ℤ (f +ℤ mod_ℤ (pos d) 1_000_000 *ℤ r) 1_000_000
unfolding div_ℤ mod_ℤ
steady_gain f r d hr hf =
    let x = f +ℤ pos (d % 1_000_000) *ℤ r in
    omega (
      int_laws,
      mul_parts (d / 1_000_000) r,
      mul_parts (d % 1_000_000) r,
      mul-le-mul_left (d / 1_000_000) (slower r hr),
      mul-le-mul_left (d % 1_000_000) (slower r hr),
      div_ℤ_parts x 1_000_000,
      one_sign x,
    )

rest_bound : (x : ℤ) → pos_part (mod_ℤ x 1_000_000) + neg_part (mod_ℤ x 1_000_000) < 1_000_000
rest_bound x = omega (arith, mod_ℤ_parts x 1_000_000, one_sign x)

add_nonneg : (a b : ℤ) → pos 0 ≤ℤ b → a ≤ℤ a +ℤ b
add_nonneg a b h = omega (int_laws, h)

-- Running on keeps the ranges and does not take the output back.
pub IsTuned-advance :
    (c : ClockContinuity) (qpc : ℤ)
    → IsTuned c
    → IsTuned (advance c qpc) × (c.output ≤ℤ (advance c qpc).output)
unfolding advance run_on
IsTuned-advance c qpc h = rw (max_zero (qpc -ℤ c.last_qpc)) (
  record { rate_bound = h.rate_bound; fraction_bound = rest_bound _; stopped = h.stopped },
  add_nonneg c.output _ (
      steady_gain c.fraction c.rate_ppm (pos_part (qpc -ℤ c.last_qpc)) h.rate_bound
        h.fraction_bound),
)

pub IsTuned-start_at : (c : ClockContinuity) (qpc : ℤ) → IsTuned c → IsTuned (start_at c qpc)
unfolding start_at
IsTuned-start_at c qpc h =
    if_cases (λ d. IsTuned d) c.initialized h
      (record { rate_bound = h.rate_bound; fraction_bound = h.fraction_bound; stopped = h.stopped })
