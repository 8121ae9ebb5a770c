-- ===== src/Timing/Projection.antt =====
-- src/src/core_dll/timing/ClockProjection.hpp: the clock between two of its measurements, and how
-- one thread passes it to another. Times are ticks of 1/60 of a microsecond, integers without wrap.
pub mod Rate
pub mod Deadline
pub mod Published
mod Tests
use cccaster_ver_b.Prelude.{
  ℕ, zero, suc, Bool, true, false, ◌+◌, ◌-◌, ◌*◌, ◌/◌, ◌%◌, not, List, [], ◌∷◌, ◌==◌, if◌then◌else◌,
  Option, none, some,
}
use cccaster_ver_b.Prelude.Int.{
  ℤ, pos, pos_part, ◌+ℤ◌, ◌-ℤ◌, ◌*ℤ◌, div_ℤ, mod_ℤ, max_ℤ, ltb_ℤ, leb_ℤ, eqb_ℤ,
}
use cccaster_ver_b.Prelude.Words.{add32}

pub record ClockAnchor : Type 0 where
  pub qpc : ℤ
  pub time : ℤ
  pub fraction : ℤ
  pub ppm : ℤ

-- `time + dt + dt / 1000000 * ppm + (fraction + dt % 1000000 * ppm) / 1000000`.
abbrev pub scaled : ClockAnchor → ℤ → ℤ
scaled c dt =
    c.time
    +ℤ dt
    +ℤ div_ℤ dt 1_000_000 *ℤ c.ppm
    +ℤ div_ℤ (c.fraction +ℤ mod_ℤ dt 1_000_000 *ℤ c.ppm) 1_000_000

unfoldable pub at_ticks : ClockAnchor → ℤ → ℤ
at_ticks c now = if eqb_ℤ c.qpc (pos 0) then now else scaled c (max_ℤ (pos 0) (now -ℤ c.qpc))

-- The loop of `DeadlineTicks`, on a number of rounds.
unfoldable pub search_tick : ClockAnchor → ℤ → ℕ → ℤ → ℤ → ℤ
unfolding at_ticks
search_tick c target zero low high = low
search_tick c target (suc rounds) low high =
    let middle = low +ℤ div_ℤ (high -ℤ low) 2 in
    let up = ltb_ℤ (at_ticks c middle) target in
    let rest =
      search_tick c target rounds (if up then middle +ℤ pos 1 else low)
        (if up then high else middle) in
    if ltb_ℤ low high then rest else low

unfoldable pub deadline_ticks : ClockAnchor → ℕ → ℤ → ℤ → ℤ
unfolding search_tick
deadline_ticks c rounds target now =
    let remaining = target -ℤ at_ticks c now in
    if leb_ℤ remaining (pos 0)
    then now
    else search_tick c target rounds now (now +ℤ remaining *ℤ pos 2 +ℤ pos 4)

-- The shared memory: two slots, and the number of the published one.
pub record Projection : Type 0 where
  pub even_slot : ClockAnchor
  pub odd_slot : ClockAnchor
  pub generation : ℕ

abbrev pub slot_of : Projection → ℕ → ClockAnchor
slot_of p generation = if generation % 2 == 0 then p.even_slot else p.odd_slot

pub data Field : Type 0 where
  qpc_field time_field fraction_field ppm_field : Field

abbrev pub set_field : ClockAnchor → Field → ℤ → ClockAnchor
set_field a qpc_field v = record a { qpc = v }
set_field a time_field v = record a { time = v }
set_field a fraction_field v = record a { fraction = v }
set_field a ppm_field v = record a { ppm = v }

-- The atomic stores of `Publish`, into the slot of a generation.
pub data Store : Type 0 where
  store_field : Field → (generation : ℕ) → ℤ → Store
  store_generation : ℕ → Store

unfoldable pub perform : Projection → Store → Projection
perform p (store_field f generation v) =
    if generation % 2 == 0
    then record p { even_slot = set_field p.even_slot f v }
    else record p { odd_slot = set_field p.odd_slot f v }
perform p (store_generation g) = record p { generation = g }

abbrev pub publish : Projection → ClockAnchor → List Store
publish p a =
    let next = add32 p.generation 1 in
    store_field qpc_field next a.qpc
    ∷ store_field time_field next a.time
    ∷ store_field fraction_field next a.fraction
    ∷ store_field ppm_field next a.ppm
    ∷ store_generation next
    ∷ []

-- One round of `Read`, its six loads at the moments `p0` to `p5`: the value, unless the generation
-- has changed meanwhile.
abbrev pub read_once :
    Projection → Projection → Projection → Projection → Projection → Projection → Bool × ClockAnchor
read_once p0 p1 p2 p3 p4 p5 = (
  p0.generation == p5.generation,
  record {
    qpc = (slot_of p1 p0.generation).qpc;
    time = (slot_of p2 p0.generation).time;
    fraction = (slot_of p3 p0.generation).fraction;
    ppm = (slot_of p4 p0.generation).ppm;
  },
)

-- The memory at the six loads of a round.
pub record Loads : Type 0 where
  pub first : Projection
  pub qpc : Projection
  pub time : Projection
  pub fraction : Projection
  pub ppm : Projection
  pub last : Projection

-- `Read` into the anchor that the reader has kept, with its rounds: only a reader that has none yet tries
-- again. `none` means that the rounds ran out.
unfoldable pub read_anchor : List Loads → ClockAnchor → Option ClockAnchor
read_anchor [] cached = none
read_anchor (l ∷ ls) cached =
    let rest = read_anchor ls cached in
    let (unchanged, value) = read_once l.first l.qpc l.time l.fraction l.ppm l.last in
    if unchanged then some value else if eqb_ℤ cached.qpc (pos 0) then rest else some cached
