-- ===== src/Timing/MeanDelay.antt =====
-- src/src/core_dll/timing/NetworkPacing.hpp, the class MeanNetworkDelay: the mean round trip over about
-- two seconds, in eight buckets of a quarter of a second. Round trips and times that count are
-- positive; `int64_t` values do not wrap.
pub mod Sums
use cccaster_ver_b.Prelude.{
  ℕ, zero, suc, ◌+◌, ◌-◌, ◌*◌, ◌/◌, ◌%◌, Bool, true, false, not, ◌&&◌, ◌||◌, ltb, leb, ◌==◌,
  if◌then◌else◌, min,
}
use cccaster_ver_b.Prelude.Table.{set_at}

abbrev pub clock_second : ℕ
clock_second = 60_000_000

pub record Bucket : Type 0 where
  pub sum : ℕ
  pub count : ℕ

abbrev pub no_samples : Bucket
no_samples = record { sum = 0; count = 0 }

pub record MeanNetworkDelay : Type 0 where
  pub buckets : ℕ → Bucket
  pub started : ℕ
  pub epoch : ℕ
  pub sum : ℕ
  pub count : ℕ
  pub ready : Bool

pub reset : MeanNetworkDelay
reset = record {
  buckets = λ i. no_samples;
  started = 0;
  epoch = 0;
  sum = 0;
  count = 0;
  ready = false;
}

pub mean : MeanNetworkDelay → ℕ
mean m = if m.ready && not (m.count == 0) then m.sum / m.count else 0

-- `sum_ -= old.sum; count_ -= old.count; old = {}`.
pub clear_bucket : MeanNetworkDelay → ℕ → MeanNetworkDelay
clear_bucket m i = record m {
  buckets = set_at m.buckets (i % 8) no_samples;
  sum = m.sum - (m.buckets (i % 8)).sum;
  count = m.count - (m.buckets (i % 8)).count;
}

-- The buckets `epoch + i` for the next `rounds` values of `i`.
pub clear_from : ℕ → ℕ → MeanNetworkDelay → MeanNetworkDelay
unfolding clear_bucket
clear_from zero i m = m
clear_from (suc rounds) i m = clear_from rounds (i + 1) (clear_bucket m i)

pub add_sample : MeanNetworkDelay → ℕ → ℕ → MeanNetworkDelay
add_sample m epoch rtt =
    let old = m.buckets (epoch % 8) in
    record m {
      epoch = epoch;
      buckets =
          set_at m.buckets (epoch % 8) (record { sum = old.sum + rtt; count = old.count + 1 });
      sum = m.sum + rtt;
      count = m.count + 1;
    }

pub restart : MeanNetworkDelay → ℕ → ℕ → MeanNetworkDelay
unfolding reset
restart m now epoch =
    if m.started == 0 || ltb epoch m.epoch then record reset { started = now; epoch = epoch } else m

pub add : MeanNetworkDelay → ℕ → ℕ → MeanNetworkDelay
unfolding restart
add m now rtt =
    if rtt == 0 || ltb 6_000_000 rtt || now == 0
    then m
    else (let epoch = now / (clock_second / 4) in
        let m₁ = restart m now epoch in
        let m₂ = add_sample (clear_from (min 8 (epoch - m₁.epoch)) (m₁.epoch + 1) m₁) epoch rtt in
        record m₂ { ready = leb (clock_second / 2) (now - m₂.started) })
