-- ===== src/Timing/Follower/Bounds.antt =====
-- The correction is gentle.
use cccaster_ver_b.Prelude.{
  ℕ, ◌-◌, ◌*◌, ◌≤◌, ◌≡◌, ◌≢◌, Bool, true, false, List, [], ◌∷◌, ◌==◌, max, arith, Bool-cases,
  length, inl, inr,
}
use cccaster_ver_b.Prelude.Int.{
  ℤ, pos, ◌+ℤ◌, ◌-ℤ◌, ◌*ℤ◌, div_ℤ, clamp_ℤ, pos_part, neg_part, int_laws,
}
use cccaster_ver_b.Timing.Cadence.{clock_parts}
use cccaster_ver_b.Timing.Follower.{PhaseFollower, goal_parts, update_parts, minus}

-- |rate| is at most `n` parts.
abbrev pub Within : ℤ → ℕ → Type 0
Within r n = (pos_part r ≤ n) × (neg_part r ≤ n)

clamp-Within : (v : ℤ) (n : ℕ) → Within (clamp_ℤ v (minus n) (pos n)) n
unfolding clamp_ℤ ◌-ℤ◌
clamp-Within v n = ground arith

goal-Within : (e : ℤ) (t : Bool) (scale : ℕ) → Within (goal_parts e t scale) (15 * clock_parts)
unfolding goal_parts
goal-Within e false scale = omega arith
goal-Within e true scale =
    clamp-Within (div_ℤ (e *ℤ pos (max 1 scale) *ℤ pos clock_parts) 600) (15 * clock_parts)

-- A clamped step towards the goal.
step_towards :
    (r g : ℤ)
    → Within r (15 * clock_parts)
    → Within g (15 * clock_parts)
    → let s = clamp_ℤ (g -ℤ r) (minus clock_parts) (pos clock_parts) in
      Within (r +ℤ s) (15 * clock_parts) × Within s clock_parts
unfolding clamp_ℤ ◌+ℤ◌ ◌-ℤ◌
step_towards r g hr hg = (ground arith, ground arith)

-- The step that an update makes.
Gentle : ℤ → ℤ → Type 0
Gentle r r' = Within r' (15 * clock_parts) × Within (r' -ℤ r) clock_parts

Gentle-stay : (r : ℤ) → Within r (15 * clock_parts) → Gentle r r
unfolding Gentle ◌-ℤ◌
Gentle-stay r h = (h, ground arith)

Gentle-step :
    (r g : ℤ)
    → Within r (15 * clock_parts)
    → Within g (15 * clock_parts)
    → Gentle r (r +ℤ clamp_ℤ (g -ℤ r) (minus clock_parts) (pos clock_parts))
unfolding Gentle
Gentle-step r g h k =
    let s = clamp_ℤ (g -ℤ r) (minus clock_parts) (pos clock_parts) in
    let t = step_towards r g h k in let e : r +ℤ s -ℤ r ≡ s = omega int_laws in (t.0, rw e t.1)

-- One update changes the correction by at most a million parts, and keeps it within 15 million,
-- whatever the error, its trust and the scale.
pub update-Within :
    (p : PhaseFollower) (e : ℤ) (f : ℕ) (t : Bool) (scale : ℕ)
    → Within p.rate (15 * clock_parts)
    → Within (update_parts p e f t scale).1.rate (15 * clock_parts)
      × Within ((update_parts p e f t scale).1.rate -ℤ p.rate) clock_parts
unfolding update_parts Gentle
update-Within p e f t scale h = elim (Bool-cases (f == p.frame)) [
  | inl same ↦ rw (same, update_parts) (Gentle-stay p.rate h)
  | inr other ↦
      rw (other, update_parts) (Gentle-step p.rate (goal_parts e t scale) h (goal-Within e t scale))
]

-- `n` updates without trust, each of a new frame.
pub untrusted : PhaseFollower → List (ℤ × ℕ) → ℕ → PhaseFollower
untrusted p [] scale = p
untrusted p ((e, f) ∷ rest) scale = untrusted (update_parts p e f false scale).1 rest scale

-- Each frame differs from the one before it.
abbrev pub Fresh : ℕ → List (ℤ × ℕ) → Type 0
Fresh f [] = Unit {0}
Fresh f ((e, g) ∷ rest) = (g ≢ f) × Fresh g rest

untrusted_step :
    (p : PhaseFollower) (e : ℤ) (f scale n : ℕ)
    → f ≢ p.frame
    → Within p.rate n
    → ((update_parts p e f false scale).1.frame ≡ f)
      × Within (update_parts p e f false scale).1.rate (n - clock_parts)
unfolding update_parts goal_parts clamp_ℤ ◌+ℤ◌ ◌-ℤ◌
untrusted_step p e f scale n other h = (ground arith, ground arith)

untrusted-Within :
    (p : PhaseFollower) (us : List (ℤ × ℕ)) (scale n : ℕ)
    → Fresh p.frame us
    → Within p.rate n
    → Within (untrusted p us scale).rate (n - length us * clock_parts)
unfolding untrusted
untrusted-Within p [] scale n fresh h = omega arith
untrusted-Within p ((e, f) ∷ us) scale n fresh h =
    let s = untrusted_step p e f scale n fresh.0 h in
    let ih =
      untrusted-Within (update_parts p e f false scale).1 us scale (n - clock_parts)
        (rw s.0 fresh.1) s.1 in
    omega (arith, ih)

-- Once the clock is no longer trusted, fifteen frames stop the correction.
pub untrusted_stops :
    (p : PhaseFollower) (us : List (ℤ × ℕ)) (scale : ℕ)
    → Fresh p.frame us
    → Within p.rate (15 * clock_parts)
    → 15 ≤ length us
    → (untrusted p us scale).rate ≡ pos 0
untrusted_stops p us scale fresh h n =
    let w = untrusted-Within p us scale (15 * clock_parts) fresh h in omega (int_laws, w)
