-- ===== src/Timing/Boundary/Tests.antt =====
-- A result is read while the next one is about to be written.
use cccaster_ver_b.Prelude.{◌≡◌, refl, [], arith}
use cccaster_ver_b.Prelude.Int.{pos, ◌≤ℤ◌}
use cccaster_ver_b.Timing.Boundary.{Sample, read_sample}
use cccaster_ver_b.Timing.Boundary.Whole.{
  Writer, Consistent, now, begins, begin_publish, read_sample-published,
}

abbrev result : Sample
result = record { due = pos 500; stamp = pos 503; entered = pos 501 }

abbrev resting : Writer
resting = record {
  slot = record { sequence = 4; sample = result };
  pending = [];
  target = result;
  published = result;
}

resting-Consistent : Consistent resting
resting-Consistent = (omega arith, (refl, refl))

abbrev begun : Writer
begun = begin_publish resting (record { due = pos 600; stamp = pos 601; entered = pos 600 })

read_sample-published_example :
    (result ≡ resting.published) × (result.due ≡ pos 500) × (pos 500 ≤ℤ result.stamp)
unfolding read_sample
read_sample-published_example =
    read_sample-published (pos 500) resting resting begun begun begun 0 0 0 0 result
      resting-Consistent now (begins _ now refl) now now (omega arith) refl
