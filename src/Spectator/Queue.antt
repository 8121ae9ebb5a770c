-- ===== src/Spectator/Queue.antt =====
-- src/src/core_dll/spectator/Stream.hpp, `Queue`: one writer and one reader over two counters. The
-- size `n` is a power of two, so that `& (n - 1)` is the remainder.
pub mod Count
pub mod Order
pub mod Refine
use cccaster_ver_b.Prelude.{ℕ, ◌+◌, ◌%◌, Bool, true, false, ◌==◌, if◌then◌else◌, Option, none, some}
use cccaster_ver_b.Prelude.Table.{set_at}
use cccaster_ver_b.Prelude.Words.{add32, sub32}
use cccaster_ver_b.Spectator.Records.{Record, copy_over, input_kind}

pub record Queue : Type 0 where
  pub slots : ℕ → Record
  pub write : ℕ
  pub read : ℕ

unfoldable pub count : Queue → ℕ
count q = sub32 q.write q.read

module _ (n : ℕ) where
  -- The slot keeps the words of its payload behind the two inputs.
  pub push_input : Queue → ℕ → ℕ → ℕ → Bool × Queue
  push_input q frame p1 p2 =
      let old = q.slots (q.write % n) in
      let slot : Record = record {
        size = 20;
        kind = input_kind;
        frame = frame;
        payload = set_at (set_at old.payload 0 p1) 1 p2;
      } in
      if sub32 q.write q.read == n
      then (false, q)
      else (true, record q { slots = set_at q.slots (q.write % n) slot; write = add32 q.write 1 })

  pub push : Queue → Record → Bool × Queue
  push q r = if sub32 q.write q.read == n then (false, q) else (
    true,
    record q {
      slots = set_at q.slots (q.write % n) (copy_over r (q.slots (q.write % n)));
      write = add32 q.write 1;
    },
  )

  -- The caller's record is written over.
  pub pop : Queue → Record → Option Record × Queue
  pop q into =
      if q.read == q.write
      then (none, q)
      else (some (copy_over (q.slots (q.read % n)) into), record q { read = add32 q.read 1 })
