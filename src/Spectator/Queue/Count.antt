-- ===== src/Spectator/Queue/Count.antt =====
-- The number of records in the queue.
use cccaster_ver_b.Prelude.{
  ℕ, ◌+◌, ◌-◌, ◌%◌, ◌≤◌, ◌<◌, ◌≡◌, true, false, none, some, ◌==◌, if◌then◌else◌, arith,
}
use cccaster_ver_b.Prelude.Words.{u32_mod}
use cccaster_ver_b.Spectator.Records.{Record, copy_over}
use cccaster_ver_b.Spectator.Queue.{Queue, count, push, pop}

-- 32-bit counters, at most `n` apart.
abbrev pub IsBounded : ℕ → Queue → Type 0
IsBounded n q = (q.write < u32_mod) × (q.read < u32_mod) × (count q ≤ n)

-- In a queue within its bounds, also where the counters wrap: a push succeeds exactly if the queue
-- is not full, and then adds one record, or else changes nothing in the count; it keeps the bounds.
pub push-count :
    (n : ℕ) (q : Queue) (r : Record)
    → n < u32_mod - 1
    → IsBounded n q
    → ((push n q r).0 ≡ (if count q == n then false else true))
      × (count (push n q r).1 ≡ (if count q == n then n else count q + 1))
      × IsBounded n (push n q r).1
unfolding push count
push-count n q r h (a, b, c) =
    (ground arith, ground arith, (ground arith, ground arith, ground arith))

-- In a queue within its bounds: a pop fails exactly if the queue is empty, and else takes one record
-- away and leaves the slots alone; it keeps the bounds.
pub pop-count :
    (n : ℕ) (q : Queue) (into : Record)
    → IsBounded n q
    → ((pop n q into).0
        ≡ (if count q == 0 then none else some (copy_over (q.slots (q.read % n)) into)))
      × (count (pop n q into).1 ≡ count q - 1)
      × ((pop n q into).1.slots ≡ q.slots)
      × IsBounded n (pop n q into).1
unfolding pop count
pop-count n q into (a, b, c) =
    (ground arith, ground arith, ground arith, (ground arith, ground arith, ground arith))
