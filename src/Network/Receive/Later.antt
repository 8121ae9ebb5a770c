-- ===== src/Network/Receive/Later.antt =====
-- Whatever packets arrive, the receiver never takes back what the peer has said.
use cccaster_ver_b.Prelude.{◌+◌, ltb, not, ◌||◌, ◌==◌}
use cccaster_ver_b.Network.Packet.{
  header_size, cc10_magic, wire_version, wire_extension, pkt_sync_tick, magic_of,
  is_session_close_packet, times_valid, inputs_valid,
}
use cccaster_ver_b.Network.Steps.{allow_bosses}
use cccaster_ver_b.Sync.EpochStart
use cccaster_ver_b.Sync.Selection
use cccaster_ver_b.Sync.Retry
use cccaster_ver_b.Prelude.{if_cases, refl, ℕ, Bool, true, List, [], ◌∷◌, arith}
use cccaster_ver_b.Prelude.Int.{ℤ}
use cccaster_ver_b.Sync.EpochStart.{newer_than}
use cccaster_ver_b.Network.Packet.{Payload, Datagram}
use cccaster_ver_b.Network.Receiver.{Receiver, ClockCalls}
use cccaster_ver_b.Network.Steps.Later.{
  Later, Later-refl, Later-trans, take_choices-Later, take_seed-Later, take_loading_skip-Later,
  take_present_rollback-Later, take_progress-Later, take_inputs-Later, take_phase-Later,
}
use cccaster_ver_b.Network.Steps.{
  take_choices, take_seed, take_loading_skip, take_present_rollback, take_progress, take_inputs,
  current_source,
}
use cccaster_ver_b.Network.Receive.{
  change_source, take_sample, take_schedule, take_epoch_start, take_signals, take_payload,
  take_valid, process_received_packet,
}

module _ {C : Type 0} (calls : ClockCalls C) (local_generation : ℕ) where
  take_sample-Later :
      (r : Receiver C) (p : Payload) (time : ℤ)
      → Later r (take_sample calls local_generation r p time)
  unfolding take_sample change_source
  take_sample-Later r p time = record {
    consumed = ground arith;
    seed = ground arith;
    skip = ground arith;
    progress = ground arith;
    frame = ground arith;
    phase = ground arith;
    start = ground arith;
    closed = λ h. ground arith;
  }

  take_schedule-Later :
      (r : Receiver C) (p : Payload) (current : Bool) (time : ℤ)
      → Later r (take_schedule calls local_generation r p current time)
  unfolding take_schedule
  take_schedule-Later r p current time = record {
    consumed = ground arith;
    seed = ground arith;
    skip = ground arith;
    progress = ground arith;
    frame = ground arith;
    phase = ground arith;
    start = ground arith;
    closed = λ h. ground arith;
  }

  take_epoch_start-Later :
      (r : Receiver C) (p : Payload) (time : ℤ)
      → Later r (take_epoch_start calls local_generation r p time)
  unfolding take_epoch_start newer_than
  take_epoch_start-Later r p time = record {
    consumed = ground arith;
    seed = ground arith;
    skip = ground arith;
    progress = ground arith;
    frame = ground arith;
    phase = ground arith;
    start = ground arith;
    closed = λ h. ground arith;
  }

  take_signals-Later :
      (r : Receiver C) (p : Payload) (current : Bool) (time : ℤ)
      → Later r (take_signals calls local_generation r p current time)
  unfolding take_signals
  take_signals-Later r p current time = record {
    consumed = ground arith;
    seed = ground arith;
    skip = ground arith;
    progress = ground arith;
    frame = ground arith;
    phase = ground arith;
    start = ground arith;
    closed = λ h. ground arith;
  }

  take_payload-Later :
      (r : Receiver C) (p : Payload) (kind : ℕ) (time : ℤ)
      → Later r (take_payload calls local_generation r p kind time)
  unfolding take_payload
  take_payload-Later r p kind time =
      let a = take_present_rollback r p in
      let b = take_loading_skip a p in
      let c = take_progress b p kind time in
      let d = take_sample calls local_generation c p time in
      let e = take_schedule calls local_generation d p (current_source c p) time in
      let f = take_epoch_start calls local_generation e p time in
      let g = take_signals calls local_generation f p (current_source c p) time in
      let h = take_inputs g p in
      Later-trans r c _
        (Later-trans r b c
          (Later-trans r a b (take_present_rollback-Later r p) (take_loading_skip-Later a p))
          (take_progress-Later b p kind time))
        (Later-trans c e _
          (Later-trans c d e (take_sample-Later c p time)
            (take_schedule-Later d p (current_source c p) time))
          (Later-trans e g _
            (Later-trans e f g (take_epoch_start-Later e p time)
              (take_signals-Later f p (current_source c p) time))
            (Later-trans g h _ (take_inputs-Later g p) (take_phase-Later h p kind))))

  flagged : (r : Receiver C) → Later r (record r { protocol_error = true })
  flagged r = record {
    consumed = omega arith;
    seed = omega arith;
    skip = omega arith;
    progress = omega arith;
    frame = omega arith;
    phase = omega arith;
    start = omega arith;
    closed = λ h. h;
  }

  closes : (r : Receiver C) → Later r (record r { peer_closed = true })
  closes r = record {
    consumed = omega arith;
    seed = omega arith;
    skip = omega arith;
    progress = omega arith;
    frame = omega arith;
    phase = omega arith;
    start = omega arith;
    closed = λ h. refl;
  }

  take_valid-Later :
      (r : Receiver C) (p : Payload) (kind : ℕ) (time : ℤ)
      → Later r (take_valid calls local_generation r p kind time)
  unfolding take_valid
  take_valid-Later r p kind time =
      let alive = record r { frames_since_last_recv = 0 } in
      let known = take_seed (take_choices alive p) p in
      let woken : Later r alive = record {
        consumed = omega arith;
        seed = omega arith;
        skip = omega arith;
        progress = omega arith;
        frame = omega arith;
        phase = omega arith;
        start = omega arith;
        closed = λ h. h;
      } in
      let learned = Later-trans r alive known woken (
        Later-trans alive (take_choices alive p) known (take_choices-Later alive p)
          (take_seed-Later (take_choices alive p) p)) in
      if_cases (Later r)
        (not (Selection.valid p.selection (allow_bosses r p))
          || not (EpochStart.valid p.epoch_start)
          || not (Retry.valid p.retry))
        woken
        (if_cases (Later r)
          (not (p.delay == r.delay_frames) || not (p.max_rollback == r.max_rollback))
          (Later-trans r known _ learned (flagged known))
          (Later-trans r known _ learned (take_payload-Later known p kind time)))

  pub process-Later :
      (size : ℕ) (r : Receiver C) (d : Datagram) (time : ℤ)
      → Later r (process_received_packet calls local_generation size r d time)
  unfolding process_received_packet
  process-Later size r d time =
      if_cases (Later r) (ltb d.size header_size || not (magic_of d == cc10_magic)) (Later-refl r) (
        if_cases (Later r) (not (d.header 6 == wire_version)) (flagged r) (
          if_cases (Later r) (is_session_close_packet d) (closes r) (
            if_cases (Later r) (r.peer_closed || not (d.header 5 == pkt_sync_tick)) (Later-refl r) (
              if_cases (Later r) (not (d.header 7 == wire_extension)) (flagged r) (
                if_cases (Later r)
                  (ltb d.size (header_size + size)
                    || not (times_valid d.payload time)
                    || not (inputs_valid d.payload))
                  (Later-refl r) (take_valid-Later r d.payload (d.header 4) time))))))

-- The packets of a session, each with the clock source and the time at which it is received.
pub record Arrival : Type 0 where
  pub datagram : Datagram
  pub generation : ℕ
  pub time : ℤ

pub receive_all : {C : Type 0} → ClockCalls C → ℕ → Receiver C → List Arrival → Receiver C
receive_all calls size r [] = r
receive_all calls size r (a ∷ rest) =
    receive_all calls size (process_received_packet calls a.generation size r a.datagram a.time)
      rest

-- Whatever datagrams arrive, repeated, reordered or malformed, and whatever the clock answers:
-- the consumed frame, the newest frame, the seed epoch, the skip epoch, the progress, the phase and
-- the epoch of the start that are known of the peer never go back, and a closed session stays closed.
pub receive_all-Later :
    {C : Type 0} (calls : ClockCalls C) (size : ℕ) (r : Receiver C) (arrivals : List Arrival)
    → Later r (receive_all calls size r arrivals)
unfolding receive_all
receive_all-Later calls size r [] = Later-refl r
receive_all-Later calls size r (a ∷ rest) =
    let s = process_received_packet calls a.generation size r a.datagram a.time in
    Later-trans r s _ (process-Later calls a.generation size r a.datagram a.time)
      (receive_all-Later calls size s rest)
