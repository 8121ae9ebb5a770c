-- ===== src/Timing/Pacing/Range.antt =====
-- The period that is asked for stays in range and moves gently.
use cccaster_ver_b.Prelude.{
  ℕ, ◌+◌, ◌-◌, ◌≤◌, ◌<◌, ◌≡◌, true, arith, Bool-cases, inl, inr, ◌*◌, min, ◌/◌, ap,
}
use native.Mathlib.Nat.{div-lt_iff_lt-mul}
use cccaster_ver_b.Prelude.Int.{ℤ, pos, pos_part, leb_ℤ, ◌+ℤ◌}
use cccaster_ver_b.Timing.Pacing.{
  NetworkPacing, normal, maximum, valid, update, towards, adjust, step_towards, target_of, required,
  budget,
}

abbrev pub InRange : ℕ → Type 0
InRange t = (normal ≤ t) × (t ≤ maximum)

target-InRange : (r : ℕ) → InRange (target_of r)
unfolding target_of
target-InRange r = ground arith

towards-moves :
    (p : NetworkPacing) (target : ℕ) (now : ℤ)
    → InRange p.requested
    → InRange target
    → InRange (towards p target now).requested
      × ((towards p target now).requested ≤ p.requested + 60_000)
      × (p.requested ≤ (towards p target now).requested + 15_000)
unfolding towards adjust step_towards
towards-moves p target now h k = (ground arith, ground arith, ground arith)

-- A request from `t` to `u` is gentle.
Gentle : ℕ → ℕ → Type 0
Gentle t u = InRange u × (u ≤ t + 60_000) × (t ≤ u + 15_000)

update-Gentle :
    (p : NetworkPacing) (now mean_rtt delay : ℤ)
    → InRange p.requested
    → Gentle p.requested (update p now mean_rtt delay).requested
unfolding update Gentle
update-Gentle p now m d h = elim (Bool-cases (leb_ℤ m (pos 0))) [
  | inl idle ↦ rw (idle, update) (h, omega arith, omega arith)
  | inr busy ↦
      rw (busy, update)
        (towards-moves p (target_of (required (pos_part m) (budget d))) now h
          (target-InRange (required (pos_part m) (budget d))))
]

-- Whatever the clock, the measured delay and the setting, an update keeps the requested period
-- between the normal one and 100 ms, and moves it by at most 1 ms up or 0.25 ms down.
pub update-InRange :
    (p : NetworkPacing) (now mean_rtt delay : ℤ)
    → InRange p.requested
    → (valid (update p now mean_rtt delay).requested ≡ true)
      × ((update p now mean_rtt delay).requested ≤ p.requested + 60_000)
      × (p.requested ≤ (update p now mean_rtt delay).requested + 15_000)
unfolding valid Gentle
update-InRange p now m d h = let g = update-Gentle p now m d h in (ground (arith, g.0), g.1, g.2)

div-le_of-lt : (b x : ℕ) → 0 < b → x < b * normal + b → x / b ≤ normal
div-le_of-lt b x p h =
    let q = (div-lt_iff_lt-mul {k = b} {x = x} {y = normal + 1} p).1 (omega arith) in omega arith

required_le : (rtt b : ℕ) → 0 < b → rtt * 30 ≤ b * normal → required rtt b ≤ normal
required_le rtt b p h = div-le_of-lt b (min rtt 6_000_000 * 30 + b - 1) p (omega arith)

towards-normal :
    (p : NetworkPacing) (now : ℤ) → p.requested ≡ normal → (towards p normal now).requested ≡ normal
unfolding towards adjust step_towards
towards-normal p now e = ground arith

target_normal : (r : ℕ) → r ≤ normal → target_of r ≡ normal
unfolding target_of
target_normal r h = ground arith

budget_pos : (d : ℕ) → budget (pos d) ≡ d + 7
unfolding ◌+ℤ◌
budget_pos d = ground arith

-- A network whose half round trip fits the delay and the normal rollback never slows the game down:
-- from the normal period, such an update keeps it.
pub update-normal :
    (p : NetworkPacing) (now : ℤ) (rtt d : ℕ)
    → p.requested ≡ normal
    → rtt * 30 ≤ (d + 7) * normal
    → (update p now (pos rtt) (pos d)).requested ≡ normal
unfolding update
update-normal p now rtt d e h = elim (Bool-cases (leb_ℤ (pos rtt) (pos 0))) [
  | inl idle ↦ rw (idle, update) e
  | inr busy ↦
      rw
        (
          busy,
          update,
          target_normal (required rtt (budget (pos d))) (
              required_le rtt (budget (pos d)) (omega arith)
                (let b = budget_pos d in omega (arith, ap (λ (t : ℕ). t * normal) b))),
        )
        (towards-normal p now e)
]
