-- ===== src/Timing/MeanDelay/Sums.antt =====
-- The running sum is the sum of the buckets.
use cccaster_ver_b.Prelude.{
  ℕ, ◌+◌, ◌*◌, ◌≤◌, ◌≡◌, refl, arith, suc, Bool-cases, Bool, zero, ◌==◌, ◌||◌, ltb, inl, inr, ◌/◌,
}
use native.Mathlib.Nat.{div-le_of_le-mul}
use cccaster_ver_b.Timing.MeanDelay.{
  MeanNetworkDelay, clear_bucket, reset, clear_from, add_sample, restart, add, mean, clock_second,
}

abbrev total : (ℕ → ℕ) → ℕ
total f = f 0 + f 1 + f 2 + f 3 + f 4 + f 5 + f 6 + f 7

-- The running sums are those of the eight buckets, and no bucket holds more than 6 s a sample.
pub record IsSummed (m : MeanNetworkDelay) : Type 0 where
  pub sums : m.sum ≡ total (λ i. (m.buckets i).sum)
  pub counts : m.count ≡ total (λ i. (m.buckets i).count)
  pub bounded : (i : ℕ) → (m.buckets i).sum ≤ (m.buckets i).count * 6_000_000

pub reset-IsSummed : IsSummed reset
unfolding reset
reset-IsSummed = record { sums = refl; counts = refl; bounded = λ i. omega arith }

restarted : (now epoch : ℕ) → IsSummed (record reset { started = now; epoch = epoch })
unfolding reset
restarted now epoch = record { sums = refl; counts = refl; bounded = λ i. omega arith }

clear-IsSummed : (m : MeanNetworkDelay) (i : ℕ) → IsSummed m → IsSummed (clear_bucket m i)
unfolding clear_bucket
clear-IsSummed m i v = record {
  sums = ground (arith, v.sums);
  counts = ground (arith, v.counts);
  bounded = λ j. ground (arith, v.bounded j);
}

clear_from-IsSummed :
    (rounds i : ℕ) (m : MeanNetworkDelay) → IsSummed m → IsSummed (clear_from rounds i m)
unfolding clear_from
clear_from-IsSummed zero i m v = v
clear_from-IsSummed (suc rounds) i m v =
    clear_from-IsSummed rounds (i + 1) (clear_bucket m i) (clear-IsSummed m i v)

sample-IsSummed :
    (m : MeanNetworkDelay) (epoch rtt : ℕ)
    → rtt ≤ 6_000_000
    → IsSummed m
    → IsSummed (add_sample m epoch rtt)
unfolding add_sample
sample-IsSummed m epoch rtt h v = record {
  sums = ground (arith, v.sums);
  counts = ground (arith, v.counts);
  bounded = λ j. ground (arith, v.bounded j);
}

restart-IsSummed :
    (m : MeanNetworkDelay) (now epoch : ℕ) → IsSummed m → IsSummed (restart m now epoch)
unfolding restart
restart-IsSummed m now epoch v = elim (Bool-cases (m.started == 0 || ltb epoch m.epoch)) [
  | inl fresh ↦ rw (fresh, restart) (restarted now epoch)
  | inr old ↦ rw (old, restart) v
]

ready-IsSummed : (m : MeanNetworkDelay) (b : Bool) → IsSummed m → IsSummed (record m { ready = b })
ready-IsSummed m b v = record { sums = v.sums; counts = v.counts; bounded = v.bounded }

-- Any measurement keeps the running sums equal to those of the eight buckets: what falls out of the
-- two seconds is taken out exactly once.
pub add-IsSummed : (m : MeanNetworkDelay) (now rtt : ℕ) → IsSummed m → IsSummed (add m now rtt)
unfolding add
add-IsSummed m now rtt v = elim (Bool-cases (rtt == 0 || ltb 6_000_000 rtt || now == 0)) [
  | inl skipped ↦ rw (skipped, add) v
  | inr counted ↦
      rw (counted, add)
        (ready-IsSummed _ _ (
          sample-IsSummed _ (now / (clock_second / 4)) rtt (ground arith)
            (clear_from-IsSummed _ _ _ (restart-IsSummed m now (now / (clock_second / 4)) v))))
]

-- The mean is at most 6 s.
pub mean_bounded : (m : MeanNetworkDelay) → IsSummed m → mean m ≤ 6_000_000
unfolding mean
mean_bounded m v =
    let all : m.sum ≤ m.count * 6_000_000 = omega (
      arith,
      v.sums,
      v.counts,
      v.bounded 0,
      v.bounded 1,
      v.bounded 2,
      v.bounded 3,
      v.bounded 4,
      v.bounded 5,
      v.bounded 6,
      v.bounded 7,
    ) in
    ground (arith, all, div-le_of_le-mul m.count {m = m.sum} {n = 6_000_000} all)
