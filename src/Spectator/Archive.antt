-- ===== src/Spectator/Archive.antt =====
-- src/src/core_dll/spectator/Stream.hpp, `Archive`: the latest `n` records, by their number. The
-- number of the match of a start record is read by a function.
use cccaster_ver_b.Prelude.{
  ℕ, ◌+◌, ◌-◌, ◌%◌, Bool, not, ◌&&◌, ◌||◌, leb, ltb, ◌==◌, if◌then◌else◌, Option, none, some, false,
  true,
}
use cccaster_ver_b.Prelude.Table.{set_at}
use cccaster_ver_b.Spectator.Records.{Record, copy_over, start_kind, selection_kind, selecting_kind}

pub record Archive : Type 0 where
  pub slots : ℕ → Record
  pub latest_match : ℕ
  pub head : ℕ
  pub start : ℕ

abbrev pub starts : Record → Bool
starts r = r.kind == start_kind || r.kind == selection_kind || r.kind == selecting_kind

module _ (n : ℕ) (revision_of : Record → ℕ) where
  pub append : Archive → Record → Archive
  append a r = record a {
    start = if starts r then a.head else a.start;
    latest_match = if starts r then revision_of r else a.latest_match;
    slots = set_at a.slots (a.head % n) (copy_over r (a.slots (a.head % n)));
    head = a.head + 1;
  }

pub get : ℕ → Archive → ℕ → Option Record
get n a cursor =
    if not (cursor == 0) && ltb cursor a.head && leb (a.head - cursor) n
    then some (a.slots (cursor % n))
    else none

abbrev is_some : Option Record → Bool
is_some none = false
is_some (some x) = true

-- Where a new spectator starts, 0 if nowhere.
pub join : ℕ → Archive → ℕ
unfolding get
join n a = if is_some (get n a a.start) then a.start else 0
