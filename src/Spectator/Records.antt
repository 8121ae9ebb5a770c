-- ===== src/Spectator/Records.antt =====
-- src/src/core_dll/spectator/Stream.hpp, `Record`: what is sent to spectators. A payload is its 32-bit
-- words; the sizes of the data types are those of the packed structures.
use cccaster_ver_b.Prelude.{ℕ, ◌+◌, ◌*◌, ltb, ◌==◌, if◌then◌else◌}

pub record Record : Type 0 where
  pub size : ℕ
  pub kind : ℕ
  pub frame : ℕ
  pub payload : ℕ → ℕ

abbrev pub start_kind : ℕ
start_kind = 1

abbrev pub epoch_kind : ℕ
epoch_kind = 2

abbrev pub input_kind : ℕ
input_kind = 3

abbrev pub result_kind : ℕ
result_kind = 4

abbrev pub retry_kind : ℕ
retry_kind = 5

abbrev pub heartbeat_kind : ℕ
heartbeat_kind = 6

abbrev pub selection_kind : ℕ
selection_kind = 7

abbrev pub emblem_kind : ℕ
emblem_kind = 8

abbrev pub selecting_kind : ℕ
selecting_kind = 9

-- `rng_size` and `emblem_size` are those of RngState and EmblemData.
pub expected_size : ℕ → ℕ → ℕ → ℕ
expected_size rng_size emblem_size kind =
    if kind == start_kind
    then 464
    else if kind == selection_kind
    then 464
    else if kind == selecting_kind
    then 464
    else if kind == epoch_kind
    then 12 + rng_size
    else if kind == input_kind
    then 20
    else if kind == result_kind
    then 28
    else if kind == retry_kind
    then 16
    else if kind == heartbeat_kind
    then 16
    else if kind == emblem_kind
    then 12 + emblem_size
    else 0

-- Copies the first `size` bytes of a record over another, for sizes that are multiples of 4 and at least
-- 12, as those of all kinds are: the header is copied whole.
abbrev pub copy_over : Record → Record → Record
copy_over r old = record r {
  payload = λ i. if ltb (12 + 4 * i) r.size then r.payload i else old.payload i;
}
