-- ===== src/Timing/Pacing.antt =====
-- src/src/core_dll/timing/NetworkPacing.hpp, the class NetworkPacing: the frame period that a player
-- asks for when the mean delay of the network exceeds the input delay and the normal rollback.
pub mod Range
use cccaster_ver_b.Prelude.{
  ℕ, ◌+◌, ◌-◌, ◌*◌, ◌/◌, Bool, not, ◌&&◌, ltb, leb, ◌==◌, if◌then◌else◌, min, max,
}
use cccaster_ver_b.Prelude.Int.{ℤ, pos, ◌+ℤ◌, ◌-ℤ◌, ltb_ℤ, leb_ℤ, eqb_ℤ, pos_part}

abbrev pub normal : ℕ
normal = 1_000_000

abbrev pub maximum : ℕ
maximum = 6_000_000

pub valid : ℕ → Bool
valid ticks = leb normal ticks && leb ticks maximum

-- One second is 60 million ticks.
abbrev pub clock_second : ℕ
clock_second = 60_000_000

-- 0.25 ms.
abbrev pub quantum : ℕ
quantum = 15_000

-- `default_rollback` of NetplaySettings.
abbrev pub default_rollback : ℕ
default_rollback = 7

pub record NetworkPacing : Type 0 where
  pub requested : ℕ
  pub adjusted : ℤ
  pub over_since : ℤ

pub reset : NetworkPacing
reset = record { requested = normal; adjusted = pos 0; over_since = pos 0 }

-- max(1, D + R)
abbrev pub budget : ℤ → ℕ
budget delay = max 1 (pos_part (delay +ℤ pos default_rollback))

-- Half the round trip, spread over the budget, rounded up to the quantum.
abbrev pub required : ℕ → ℕ → ℕ
required mean_rtt budget = (min mean_rtt 6_000_000 * 30 + budget - 1) / budget

pub target_of : ℕ → ℕ
target_of required =
    if leb required normal
    then normal
    else max normal (min maximum ((required + quantum - 1) / quantum * quantum))

abbrev is_zero : ℤ → Bool
is_zero t = eqb_ℤ t (pos 0)

-- The period moves up by at most 1 ms and down by at most 0.25 ms.
step_towards : NetworkPacing → ℕ → ℤ → NetworkPacing
step_towards p target now =
    let p' = record p { adjusted = now } in
    if ltb p.requested target
    then record p' { requested = p.requested + min (target - p.requested) 60_000 }
    else record p' { requested = p.requested - min (p.requested - target) 15_000 }

-- At most one step in 100 ms.
adjust : NetworkPacing → ℕ → ℤ → NetworkPacing
unfolding step_towards ◌-ℤ◌
adjust p target now =
    if not (is_zero p.adjusted) && ltb_ℤ (now -ℤ p.adjusted) (pos (clock_second / 10))
    then p
    else step_towards p target now

-- A higher target counts from half a second on.
towards : NetworkPacing → ℕ → ℤ → NetworkPacing
unfolding adjust ◌-ℤ◌
towards p target now =
    if ltb p.requested target
    then (let p' = if is_zero p.over_since then record p { over_since = now } else p in
        if ltb_ℤ (now -ℤ p'.over_since) (pos (clock_second / 2)) then p' else adjust p' target now)
    else adjust (record p { over_since = pos 0 }) target now

-- The new requested period stands in the state.
pub update : NetworkPacing → ℤ → ℤ → ℤ → NetworkPacing
unfolding ◌+ℤ◌
update p now mean_rtt delay =
    if leb_ℤ mean_rtt (pos 0)
    then p
    else towards p (target_of (required (pos_part mean_rtt) (budget delay))) now
