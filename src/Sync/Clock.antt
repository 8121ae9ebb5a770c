-- ===== src/Sync/Clock.antt =====
-- src/src/core_dll/sync/NetplayClock.cpp and NetplayClock.hpp: how far the other player's clock is ahead,
-- from the times of four events of an exchange. The model that is fitted to the samples works on
-- floating-point numbers and is given by its operations; so is the quadratic curve of `GetTickUs`.
-- Times are `int64_t`, which the test of their range keeps from wrapping. The store to the anchor in
-- the loop over the samples is left out: the anchor is set anew behind the loop.
pub mod Samples
pub mod Offset
mod Tests
use cccaster_ver_b.Prelude.{
  ℕ, zero, suc, ◌+◌, ◌*◌, ◌%◌, ◌/◌, Bool, true, false, not, ◌&&◌, ◌||◌, ltb, leb, ◌==◌,
  if◌then◌else◌, arith,
}
use cccaster_ver_b.Prelude.Int.{
  ℤ, pos, negsuc, ◌+ℤ◌, ◌-ℤ◌, div_ℤ, ltb_ℤ, leb_ℤ, ◌≤ℤ◌, eqb_ℤ, max_ℤ, min_ℤ, clamp_ℤ, pos_part,
  neg_part,
}
use cccaster_ver_b.Prelude.Table.{set_at}

abbrev pub int64_max : ℕ
int64_max = 0x7fff_ffff_ffff_ffff

abbrev pub clock_second : ℕ
clock_second = 60_000_000

abbrev pub sample_size : ℕ
sample_size = 30

abbrev pub stable_min : ℕ
stable_min = 10

pub record ThetaSample : Type 0 where
  pub t1 : ℤ
  pub t2 : ℤ
  pub t3 : ℤ
  pub t4 : ℤ
  pub rtt : ℤ
  pub theta : ℤ

abbrev pub no_sample : ThetaSample
no_sample = record { t1 = pos 0; t2 = pos 0; t3 = pos 0; t4 = pos 0; rtt = pos 0; theta = pos 0 }

-- PeerClockModel, as far as the clock calls it.
pub record ModelCalls (P : Type 0) : Type 0 where
  pub reset : P
  pub add_ticks : P → ℤ → ℤ → ℤ → P
  pub ready : P → ℤ → Bool
  pub offset_ticks : P → ℤ → ℤ

pub record NetplayClock (P : Type 0) : Type 0 where
  pub model : P
  pub anchor_ticks : ℤ
  pub samples : ℕ → ThetaSample
  pub sample_index : ℕ
  pub sample_count : ℕ
  pub theta_ticks : ℤ
  pub rtt_sample_serial : ℕ
  pub latest_rtt_ticks : ℤ
  pub best_rtt_ticks : ℤ
  pub baseline_theta_ticks : ℤ
  pub local_start_time_us : ℤ
  pub peer_start_time_us : ℤ

-- The half of a sample's round trip, on the own clock.
abbrev pub middle : ℤ → ℤ → ℤ
middle t1 t4 = t1 +ℤ div_ℤ (t4 -ℤ t1) 2

abbrev pub round_trip : ℤ → ℤ → ℤ → ℤ → ℤ
round_trip t1 t2 t3 t4 = t4 -ℤ t1 -ℤ (t3 -ℤ t2)

abbrev pub offset_of : ℤ → ℤ → ℤ → ℤ → ℤ
offset_of t1 t2 t3 t4 = div_ℤ (t2 -ℤ t1 +ℤ (t3 -ℤ t4)) 2

abbrev in_range : ℤ → Bool
in_range t = leb_ℤ (pos 0) t && leb_ℤ t (pos (int64_max / 4))

pub accepted : ℤ → ℤ → ℤ → ℤ → Bool
accepted t1 t2 t3 t4 =
    let rtt = round_trip t1 t2 t3 t4 in
    in_range t1
    && in_range t2
    && in_range t3
    && in_range t4
    && leb_ℤ (pos 0) rtt
    && leb_ℤ rtt (pos clock_second)
    && leb_ℤ t1 t4
    && leb_ℤ t2 t3

-- The loop over the samples: the least round trip, and of equal ones the latest.
pub record Best : Type 0 where
  pub rtt : ℤ
  pub theta : ℤ
  pub mid : ℤ

abbrev pub no_best : Best
no_best = record { rtt = pos int64_max; theta = pos 0; mid = negsuc int64_max }

pub better : ThetaSample → Best → Best
better s b =
    let mid = middle s.t1 s.t4 in
    if ltb_ℤ s.rtt b.rtt || (eqb_ℤ s.rtt b.rtt && ltb_ℤ b.mid mid)
    then record { rtt = s.rtt; theta = s.theta; mid = mid }
    else b

-- The samples below `n`, from the first one on.
pub best_of : ℕ → (ℕ → ThetaSample) → Best
best_of zero samples = no_best
best_of (suc n) samples = better (samples n) (best_of n samples)

module _ {P : Type 0} (calls : ModelCalls P) where
  pub reset : NetplayClock P
  reset = record {
    model = ModelCalls.reset calls;
    anchor_ticks = pos 0;
    samples = λ i. no_sample;
    sample_index = 0;
    sample_count = 0;
    theta_ticks = pos 0;
    rtt_sample_serial = 0;
    latest_rtt_ticks = pos 0;
    best_rtt_ticks = pos int64_max;
    baseline_theta_ticks = pos 0;
    local_start_time_us = pos 0;
    peer_start_time_us = pos 0;
  }

  -- The sample goes into the ring.
  store : NetplayClock P → ℤ → ℤ → ℤ → ℤ → NetplayClock P
  store c t1 t2 t3 t4 =
      let rtt = round_trip t1 t2 t3 t4 in
      let theta = offset_of t1 t2 t3 t4 in
      record c {
        rtt_sample_serial = c.rtt_sample_serial + 1;
        latest_rtt_ticks = rtt;
        model = calls.add_ticks c.model (middle t1 t4) theta rtt;
        samples =
            set_at c.samples c.sample_index
              (record { t1 = t1; t2 = t2; t3 = t3; t4 = t4; rtt = rtt; theta = theta });
        sample_index = (c.sample_index + 1) % sample_size;
        sample_count =
            if ltb c.sample_count sample_size then c.sample_count + 1 else c.sample_count;
      }

  -- The best sample counts, until the model is ready.
  adopt : NetplayClock P → ℤ → NetplayClock P
  unfolding best_of
  adopt c now =
      let best = best_of c.sample_count c.samples in
      record c {
        best_rtt_ticks = best.rtt;
        theta_ticks =
            if calls.ready c.model now then calls.offset_ticks c.model now else best.theta;
        anchor_ticks = now;
      }

  pub add_ntp_sample_ticks : NetplayClock P → ℤ → ℤ → ℤ → ℤ → NetplayClock P
  unfolding accepted store adopt
  add_ntp_sample_ticks c t1 t2 t3 t4 =
      if accepted t1 t2 t3 t4 then adopt (store c t1 t2 t3 t4) (middle t1 t4) else c

  pub estimate_peer_time_ticks : NetplayClock P → ℤ → ℤ
  estimate_peer_time_ticks c now =
      now +ℤ (if calls.ready c.model now then calls.offset_ticks c.model now else c.theta_ticks)

-- The correction of the frame length, in microseconds; `curve` is the quadratic part.
alpha : (ℕ → ℕ) → ℕ → ℕ
alpha curve distance =
    if leb distance 500 then 0 else if leb distance 16_666 then curve distance else 2_666

module _ {P : Type 0} where
  pub has_timing_estimate : NetplayClock P → Bool
  has_timing_estimate c = leb stable_min c.sample_count

  pub set_baseline_theta : NetplayClock P → NetplayClock P
  set_baseline_theta c = record c { baseline_theta_ticks = c.theta_ticks }

  pub set_local_start_time : NetplayClock P → ℤ → NetplayClock P
  set_local_start_time c us = record c { local_start_time_us = us }

  pub set_peer_start_time : NetplayClock P → ℤ → NetplayClock P
  set_peer_start_time c us = record c { peer_start_time_us = us -ℤ div_ℤ c.theta_ticks 60 }

  pub get_agreed_start_time : NetplayClock P → ℤ
  get_agreed_start_time c =
      if leb_ℤ c.local_start_time_us (pos 0) || leb_ℤ c.peer_start_time_us (pos 0)
      then pos 0
      else max_ℤ c.local_start_time_us c.peer_start_time_us

  pub get_tick_us : (ℕ → ℕ) → NetplayClock P → ℤ
  unfolding alpha
  get_tick_us curve c =
      let delta = div_ℤ (c.theta_ticks -ℤ c.baseline_theta_ticks) 60 in
      let correction = pos (alpha curve (pos_part delta + neg_part delta)) in
      let adjusted =
        if ltb_ℤ (pos 0) delta then pos 16_666 -ℤ correction else pos 16_666 +ℤ correction in
      if ltb c.sample_count 3 then pos 16_666 else max_ℤ (min_ℤ adjusted (pos 19_332)) (pos 14_000)

  -- The frame length stays between 14000 and 19332 microseconds, whatever the curve.
  get_tick_us_bounds :
      (curve : ℕ → ℕ) (c : NetplayClock P)
      → (pos 14_000 ≤ℤ get_tick_us curve c) × (get_tick_us curve c ≤ℤ pos 19_332)
  unfolding get_tick_us max_ℤ min_ℤ
  get_tick_us_bounds curve c = (ground arith, ground arith)
