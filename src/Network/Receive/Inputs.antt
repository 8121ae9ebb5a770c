-- ===== src/Network/Receive/Inputs.antt =====
-- What a packet does to the ring of inputs.
use cccaster_ver_b.Prelude.{◌+◌, ltb, not, ◌||◌, ◌==◌}
use cccaster_ver_b.Network.Packet.{
  header_size, cc10_magic, wire_version, wire_extension, pkt_sync_tick, magic_of,
  is_session_close_packet, times_valid, inputs_valid,
}
use cccaster_ver_b.Network.Steps.{allow_bosses}
use cccaster_ver_b.Sync.EpochStart
use cccaster_ver_b.Sync.Selection
use cccaster_ver_b.Sync.Retry
use cccaster_ver_b.Prelude.{ℕ, ◌≡◌, refl, ◌∙◌, Bool, true, [], arith, ap, if_cases}
use cccaster_ver_b.Prelude.Int.{ℤ}
use cccaster_ver_b.Sync.MatchInput.History.{after}
use cccaster_ver_b.Network.Packet.{Payload, Datagram}
use cccaster_ver_b.Network.Receiver.{Receiver, ClockCalls}
use cccaster_ver_b.Network.Steps.{
  take_choices, take_seed, take_loading_skip, take_present_rollback, take_progress, take_inputs,
  current_source,
}
use cccaster_ver_b.Network.Steps.Inputs.{
  Confirmed, take_choices-buffer, take_seed-buffer, take_early-buffer, take_inputs-Confirmed,
  take_phase-buffer,
}
use cccaster_ver_b.Network.Receive.{
  change_source, take_sample, take_schedule, take_epoch_start, take_signals, take_payload,
  take_valid, process_received_packet,
}

module _ {C : Type 0} (calls : ClockCalls C) (generation : ℕ) where
  take_sample-buffer :
      (r : Receiver C) (p : Payload) (time : ℤ)
      → (take_sample calls generation r p time).buffer ≡ r.buffer
  unfolding take_sample change_source
  take_sample-buffer r p time = ground arith

  take_schedule-buffer :
      (r : Receiver C) (p : Payload) (current : Bool) (time : ℤ)
      → (take_schedule calls generation r p current time).buffer ≡ r.buffer
  unfolding take_schedule
  take_schedule-buffer r p current time = ground arith

  take_epoch_start-buffer :
      (r : Receiver C) (p : Payload) (time : ℤ)
      → (take_epoch_start calls generation r p time).buffer ≡ r.buffer
  unfolding take_epoch_start
  take_epoch_start-buffer r p time = ground arith

  take_signals-buffer :
      (r : Receiver C) (p : Payload) (current : Bool) (time : ℤ)
      → (take_signals calls generation r p current time).buffer ≡ r.buffer
  unfolding take_signals
  take_signals-buffer r p current time = ground arith

  take_payload-Confirmed :
      (r : Receiver C) (p : Payload) (kind : ℕ) (time : ℤ)
      → Confirmed p r.buffer (take_payload calls generation r p kind time).buffer
  unfolding take_payload
  take_payload-Confirmed r p kind time =
      let c = take_progress (take_loading_skip (take_present_rollback r p) p) p kind time in
      let d = take_sample calls generation c p time in
      let e = take_schedule calls generation d p (current_source c p) time in
      let f = take_epoch_start calls generation e p time in
      let g = take_signals calls generation f p (current_source c p) time in
      let same : g.buffer ≡ r.buffer =
        take_signals-buffer f p (current_source c p) time
        ∙ take_epoch_start-buffer e p time
        ∙ take_schedule-buffer d p (current_source c p) time
        ∙ take_sample-buffer c p time
        ∙ take_early-buffer r p kind time in
      let (cs, e', a) = take_inputs-Confirmed g p in
      (cs, take_phase-buffer (take_inputs g p) p kind ∙ e' ∙ ap (λ b. after b cs) same, a)

  -- `s` fits `r` after a packet.
  Fits : Payload → Receiver C → Receiver C → Type 0
  Fits p r s = Confirmed p r.buffer s.buffer

  stays : (p : Payload) (r s : Receiver C) → s.buffer ≡ r.buffer → Fits p r s
  unfolding Fits after
  stays p r s e = ([], e, tt)

  take_payload-Fits :
      (r known : Receiver C) (p : Payload) (kind : ℕ) (time : ℤ)
      → known.buffer ≡ r.buffer
      → Fits p r (take_payload calls generation known p kind time)
  unfolding Fits
  take_payload-Fits r known p kind time same =
      let (cs, e, a) = take_payload-Confirmed known p kind time in
      (cs, e ∙ ap (λ b. after b cs) same, a)

  take_valid-Fits :
      (r : Receiver C) (p : Payload) (kind : ℕ) (time : ℤ)
      → Fits p r (take_valid calls generation r p kind time)
  unfolding take_valid
  take_valid-Fits r p kind time =
      let alive = record r { frames_since_last_recv = 0 } in
      let known = take_seed (take_choices alive p) p in
      let same : known.buffer ≡ r.buffer =
        take_seed-buffer (take_choices alive p) p ∙ take_choices-buffer alive p in
      if_cases (Fits p r)
        (not (Selection.valid p.selection (allow_bosses r p))
          || not (EpochStart.valid p.epoch_start)
          || not (Retry.valid p.retry))
        (stays p r alive refl)
        (if_cases (Fits p r) _ (stays p r (record known { protocol_error = true }) same)
          (take_payload-Fits r known p kind time same))

  process-Fits :
      (size : ℕ) (r : Receiver C) (d : Datagram) (time : ℤ)
      → Fits d.payload r (process_received_packet calls generation size r d time)
  unfolding process_received_packet
  process-Fits size r d time =
      let P = Fits d.payload r in
      let stay : (s : Receiver C) → s.buffer ≡ r.buffer → P s = stays d.payload r in
      if_cases P (ltb d.size header_size || not (magic_of d == cc10_magic)) (stay r refl) (
        if_cases P (not (d.header 6 == wire_version))
          (stay (record r { protocol_error = true }) refl)
          (if_cases P (is_session_close_packet d) (stay (record r { peer_closed = true }) refl) (
            if_cases P (r.peer_closed || not (d.header 5 == pkt_sync_tick)) (stay r refl) (
              if_cases P (not (d.header 7 == wire_extension))
                (stay (record r { protocol_error = true }) refl)
                (if_cases P
                  (ltb d.size (header_size + size)
                    || not (times_valid d.payload time)
                    || not (inputs_valid d.payload))
                  (stay r refl) (take_valid-Fits r d.payload (d.header 4) time))))))

  -- A datagram of any content changes the ring of inputs by confirmations only, each of an input
  -- that the datagram carries, for the frame that it belongs to, and never for frame 0.
  pub process-Confirmed :
      (size : ℕ) (r : Receiver C) (d : Datagram) (time : ℤ)
      → Confirmed d.payload r.buffer (process_received_packet calls generation size r d time).buffer
  unfolding Fits
  process-Confirmed size r d time = process-Fits size r d time
