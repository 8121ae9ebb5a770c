-- ===== src/Sync/Clock/Samples.antt =====
-- The loop over the samples finds the one with the least round trip.
use cccaster_ver_b.Prelude.{
  ℕ, zero, suc, ◌<◌, ◌≡◌, ◌==◌, ◌&&◌, ◌||◌, arith, Bool-cases, inl, inr, if_cases,
}
use cccaster_ver_b.Prelude.Int.{ℤ, pos, ◌+ℤ◌, ◌*ℤ◌, ◌≤ℤ◌, ltb_ℤ, eqb_ℤ}
use cccaster_ver_b.Sync.Clock.{ThetaSample, Best, no_best, better, best_of, middle, clock_second}

-- Within half of the round trip, with half a tick for rounding.
abbrev pub IsNear : ℤ → ℤ → ℤ → Type 0
IsNear ahead theta rtt =
    (theta *ℤ pos 2 ≤ℤ ahead *ℤ pos 2 +ℤ rtt +ℤ pos 1)
    × (ahead *ℤ pos 2 ≤ℤ theta *ℤ pos 2 +ℤ rtt +ℤ pos 1)

-- What a sample, and the best of them, is known to be.
abbrev pub IsGood : ℤ → ThetaSample → Type 0
IsGood ahead s = IsNear ahead s.theta s.rtt × (s.rtt ≤ℤ pos clock_second)

abbrev pub IsBest : ℤ → ℕ → (ℕ → ThetaSample) → Best → Type 0
IsBest ahead n samples b = IsNear ahead b.theta b.rtt × ((i : ℕ) → i < n → b.rtt ≤ℤ (samples i).rtt)

better_rtt :
    (s : ThetaSample) (b : Best) → ((better s b).rtt ≤ℤ s.rtt) × ((better s b).rtt ≤ℤ b.rtt)
unfolding better
better_rtt s b = (ground arith, ground arith)

better-IsNear :
    (ahead : ℤ) (s : ThetaSample) (b : Best)
    → IsNear ahead s.theta s.rtt
    → IsNear ahead b.theta b.rtt
    → IsNear ahead (better s b).theta (better s b).rtt
unfolding better
better-IsNear ahead s b p q =
    if_cases (λ (r : Best). IsNear ahead r.theta r.rtt)
      (ltb_ℤ s.rtt b.rtt || (eqb_ℤ s.rtt b.rtt && ltb_ℤ b.mid (middle s.t1 s.t4))) p q

better_first :
    (s : ThetaSample)
    → s.rtt ≤ℤ pos clock_second
    → ((better s no_best).rtt ≡ s.rtt) × ((better s no_best).theta ≡ s.theta)
unfolding better
better_first s h = (ground arith, ground arith)

best_of-IsBest :
    (ahead : ℤ) (n : ℕ) (samples : ℕ → ThetaSample)
    → ((i : ℕ) → i < suc n → IsGood ahead (samples i))
    → IsBest ahead (suc n) samples (best_of (suc n) samples)
unfolding best_of
best_of-IsBest ahead zero samples good =
    let g = good 0 (omega arith) in
    let e = better_first (samples 0) g.1 in
    (rw (e.0, e.1) g.0, λ i h. (let z : i ≡ 0 = omega arith in rw (z, e.0) (omega arith)))
best_of-IsBest ahead (suc n) samples good =
    let s = samples (suc n) in
    let b = best_of (suc n) samples in
    let rest = best_of-IsBest ahead n samples (λ i h. good i (omega arith)) in
    let less = better_rtt s b in
    (
      better-IsNear ahead s b (good (suc n) (omega arith)).0 rest.0,
      λ i h. elim (Bool-cases (i == suc n)) [
        | inl last ↦ (let e : i ≡ suc n = ground arith in rw e less.0)
        | inr before ↦ (let r = rest.1 i (ground arith) in omega (arith, r, less.1))
      ],
    )

pub best_known :
    (ahead : ℤ) (n : ℕ) (samples : ℕ → ThetaSample) (i : ℕ)
    → ((i : ℕ) → i < n → IsGood ahead (samples i))
    → i < n
    → IsNear ahead (best_of n samples).theta (best_of n samples).rtt
      × ((best_of n samples).rtt ≤ℤ (samples i).rtt)
best_known ahead zero samples i good h = elim h [ ]
best_known ahead (suc n) samples i good h =
    let b = best_of-IsBest ahead n samples good in (b.0, b.1 i h)
