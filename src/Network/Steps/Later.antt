-- ===== src/Network/Steps/Later.antt =====
-- The steps never take back what the peer has said.
use cccaster_ver_b.Prelude.{ℕ, ◌≤◌, ◌≡◌, true, arith}
use cccaster_ver_b.Prelude.Int.{ℤ}
use cccaster_ver_b.Network.Packet.{Payload}
use cccaster_ver_b.Network.Receiver.{Receiver}
use cccaster_ver_b.Network.Steps.{
  take_choices, take_seed, take_loading_skip, take_present_rollback, take_progress, take_inputs,
  take_phase,
}

-- `s` knows at least as much of the peer as `r`: no frame, epoch or phase has gone back, and a
-- closed session stays closed.
pub record Later {C : Type 0} (r s : Receiver C) : Type 0 where
  pub consumed : r.peer_consumed_frame ≤ s.peer_consumed_frame
  pub seed : r.peer_seed_epoch ≤ s.peer_seed_epoch
  pub skip : r.peer_loading_skip_epoch ≤ s.peer_loading_skip_epoch
  pub progress : r.peer_progress_token ≤ s.peer_progress_token
  pub frame : r.latest_peer_frame ≤ s.latest_peer_frame
  pub phase : r.peer_phase_base_frame ≤ s.peer_phase_base_frame
  pub start : r.peer_epoch_start.epoch ≤ s.peer_epoch_start.epoch
  pub closed : r.peer_closed ≡ true → s.peer_closed ≡ true

module _ {C : Type 0} where
  pub Later-refl : (r : Receiver C) → Later r r
  Later-refl r = record {
    consumed = omega arith;
    seed = omega arith;
    skip = omega arith;
    progress = omega arith;
    frame = omega arith;
    phase = omega arith;
    start = omega arith;
    closed = λ h. h;
  }

  pub Later-trans : (a b c : Receiver C) → Later a b → Later b c → Later a c
  Later-trans a b c p q = record {
    consumed = omega (arith, p.consumed, q.consumed);
    seed = omega (arith, p.seed, q.seed);
    skip = omega (arith, p.skip, q.skip);
    progress = omega (arith, p.progress, q.progress);
    frame = omega (arith, p.frame, q.frame);
    phase = omega (arith, p.phase, q.phase);
    start = omega (arith, p.start, q.start);
    closed = λ h. q.closed (p.closed h);
  }

  pub take_choices-Later : (r : Receiver C) (p : Payload) → Later r (take_choices r p)
  unfolding take_choices
  take_choices-Later r p = record {
    consumed = ground arith;
    seed = ground arith;
    skip = ground arith;
    progress = ground arith;
    frame = ground arith;
    phase = ground arith;
    start = ground arith;
    closed = λ h. ground arith;
  }

  pub take_seed-Later : (r : Receiver C) (p : Payload) → Later r (take_seed r p)
  unfolding take_seed
  take_seed-Later r p = record {
    consumed = ground arith;
    seed = ground arith;
    skip = ground arith;
    progress = ground arith;
    frame = ground arith;
    phase = ground arith;
    start = ground arith;
    closed = λ h. ground arith;
  }

  pub take_loading_skip-Later : (r : Receiver C) (p : Payload) → Later r (take_loading_skip r p)
  unfolding take_loading_skip
  take_loading_skip-Later r p = record {
    consumed = ground arith;
    seed = ground arith;
    skip = ground arith;
    progress = ground arith;
    frame = ground arith;
    phase = ground arith;
    start = ground arith;
    closed = λ h. ground arith;
  }

  pub take_present_rollback-Later :
      (r : Receiver C) (p : Payload) → Later r (take_present_rollback r p)
  unfolding take_present_rollback
  take_present_rollback-Later r p = record {
    consumed = ground arith;
    seed = ground arith;
    skip = ground arith;
    progress = ground arith;
    frame = ground arith;
    phase = ground arith;
    start = ground arith;
    closed = λ h. ground arith;
  }

  pub take_progress-Later :
      (r : Receiver C) (p : Payload) (kind : ℕ) (time : ℤ) → Later r (take_progress r p kind time)
  unfolding take_progress
  take_progress-Later r p kind time = record {
    consumed = ground arith;
    seed = ground arith;
    skip = ground arith;
    progress = ground arith;
    frame = ground arith;
    phase = ground arith;
    start = ground arith;
    closed = λ h. ground arith;
  }

  pub take_inputs-Later : (r : Receiver C) (p : Payload) → Later r (take_inputs r p)
  unfolding take_inputs
  take_inputs-Later r p = record {
    consumed = ground arith;
    seed = ground arith;
    skip = ground arith;
    progress = ground arith;
    frame = ground arith;
    phase = ground arith;
    start = ground arith;
    closed = λ h. ground arith;
  }

  pub take_phase-Later : (r : Receiver C) (p : Payload) (kind : ℕ) → Later r (take_phase r p kind)
  unfolding take_phase
  take_phase-Later r p kind = record {
    consumed = ground arith;
    seed = ground arith;
    skip = ground arith;
    progress = ground arith;
    frame = ground arith;
    phase = ground arith;
    start = ground arith;
    closed = λ h. ground arith;
  }
