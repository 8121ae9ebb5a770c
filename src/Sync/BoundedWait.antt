-- ===== src/Sync/BoundedWait.antt =====
-- src/src/core_dll/sync/BoundedWait.hpp: a wait with a deadline, over injected functions. What the
-- functions return in the round `n` of the loop is an observation, indexed by `n`.
use cccaster_ver_b.Prelude.{
  ℕ, zero, suc, ◌+◌, ◌≤◌, ◌≡◌, ◌≢◌, Bool, not, Option, none, some, if◌then◌else◌, Option-cases, inl,
  inr, arith,
}
use cccaster_ver_b.Prelude.Int.{ℤ, ◌-ℤ◌, ◌≤ℤ◌, leb_ℤ}

pub data WaitResult : Type 0 where
  ready cancelled disconnected timeout : WaitResult

pub record Observation : Type 0 where
  pub cancel : Bool
  pub alive : Bool
  pub clock : ℤ
  pub is_ready : Bool

-- One round, in the order of the tests.
unfoldable pub verdict : ℤ → ℤ → Observation → Option WaitResult
unfolding ◌-ℤ◌
verdict timeout_us started o =
    if o.cancel
    then some cancelled
    else if not o.alive
    then some disconnected
    else if leb_ℤ timeout_us (o.clock -ℤ started)
    then some timeout
    else if o.is_ready
    then some ready
    else none

module _ (timeout_us started : ℤ) (observe : ℕ → Observation) where
  -- `none` means that the rounds ran out.
  unfoldable pub wait_bounded : ℕ → ℕ → Option WaitResult
  wait_bounded zero n = none
  wait_bounded (suc rounds) n =
      let rest = wait_bounded rounds (n + 1) in
      elim (verdict timeout_us started (observe n)) [ some r ↦ some r | none ↦ rest ]

  verdict_late :
      (n : ℕ)
      → timeout_us ≤ℤ (observe n).clock -ℤ started
      → verdict timeout_us started (observe n) ≢ none
  unfolding verdict
  verdict_late n h = ground arith

  -- Rounds with no verdict, `d` of them from round `n` on.
  abbrev pub Silent : ℕ → ℕ → Type 0
  Silent n zero = Unit {0}
  Silent n (suc d) = (verdict timeout_us started (observe n) ≡ none) × Silent (n + 1) d

  abbrev pub Returns : ℕ → ℕ → Type 0
  Returns rounds n =
      (r : WaitResult) × (d : ℕ) × (d ≤ rounds)
      × (wait_bounded (suc rounds) n ≡ some r)
      × (verdict timeout_us started (observe (n + d)) ≡ some r)
      × Silent n d

  Returns-now :
      (rounds n : ℕ) (r : WaitResult)
      → verdict timeout_us started (observe n) ≡ some r
      → Returns rounds n
  unfolding wait_bounded
  Returns-now rounds n r e =
      let here : n + 0 ≡ n = omega arith in (r, 0, omega arith, rw (e, wait_bounded), rw here e, tt)

  Returns-later :
      (rounds n : ℕ)
      → verdict timeout_us started (observe n) ≡ none
      → Returns rounds (n + 1)
      → Returns (suc rounds) n
  unfolding wait_bounded
  Returns-later rounds n e (r, d, h, w, v, q) =
      let on : n + suc d ≡ n + 1 + d = omega arith in
      (r, suc d, omega arith, rw (e, wait_bounded) w, rw on v, (e, q))

  -- Once the clock has passed the deadline in the last of the rounds, the wait has returned by then;
  -- what it returns is the verdict of the first round that has one.
  pub wait-Returns :
      (rounds n : ℕ) → timeout_us ≤ℤ (observe (n + rounds)).clock -ℤ started → Returns rounds n
  wait-Returns zero n h = elim (Option-cases (verdict timeout_us started (observe n))) [
    | inl e ↦ absurd (verdict_late n (let here : n + 0 ≡ n = omega arith in rw here at h) e)
    | inr (r, e) ↦ Returns-now 0 n r e
  ]
  wait-Returns (suc rounds) n h = elim (Option-cases (verdict timeout_us started (observe n))) [
    | inl e ↦ Returns-later rounds n e (
        wait-Returns rounds (n + 1)
          (let on : n + suc rounds ≡ n + 1 + rounds = omega arith in rw on at h))
    | inr (r, e) ↦ Returns-now (suc rounds) n r e
  ]
