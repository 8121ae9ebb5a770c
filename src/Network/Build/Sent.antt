-- ===== src/Network/Build/Sent.antt =====
-- What a packet that is built says of the sender's inputs.
use cccaster_ver_b.Prelude.{
  ℕ, zero, suc, ◌+◌, ◌-◌, ◌≤◌, ◌<◌, ◌≡◌, ◌∙◌, sym, ap, Bool, true, some, Option-cases, arith, inl,
  inr, min,
}
use cccaster_ver_b.Prelude.Int.{ℤ}
use native.Mathlib.Decide.{ℕ_discrete}
use cccaster_ver_b.Prelude.Table.{set_at, set_at_self, set_at_ne}
use cccaster_ver_b.Sync.FrameSequence.{stride}
use cccaster_ver_b.Sync.MatchInput.{Buffer, try_get_local_input}
use cccaster_ver_b.Network.Packet.{inputs_valid}
use cccaster_ver_b.Network.Build.{
  Sender, phase_base, gather, build_payload, frame_to_send, repair_window_end,
}

-- The first `i` inputs are those of the ring, from `frame` down.
abbrev pub AreLocal : Buffer → ℕ → ℕ → (ℕ → ℕ) → Type 0
AreLocal b frame i inputs = (j : ℕ) → j < i → try_get_local_input b (frame - j) ≡ some (inputs j)

AreLocal-set :
    (b : Buffer) (frame i v : ℕ) (inputs : ℕ → ℕ)
    → AreLocal b frame i inputs
    → try_get_local_input b (frame - i) ≡ some v
    → AreLocal b frame (i + 1) (set_at inputs i v)
AreLocal-set b frame i v inputs h e j l = elim (ℕ_discrete j i) [
  | yes here ↦ rw here (e ∙ ap some (sym (set_at_self inputs i v)))
  | no other ↦ h j (omega arith) ∙ ap some (sym (set_at_ne inputs i j v (λ q. other (sym q))))
]

gather-AreLocal :
    (rounds i : ℕ) (b : Buffer) (frame : ℕ) (inputs : ℕ → ℕ)
    → AreLocal b frame i inputs
    → AreLocal b frame (gather rounds i b frame inputs).0 (gather rounds i b frame inputs).1
      × ((gather rounds i b frame inputs).0 ≤ i + rounds)
unfolding gather
gather-AreLocal zero i b frame inputs h = (h, omega arith)
gather-AreLocal (suc rounds) i b frame inputs h =
    elim (Option-cases (try_get_local_input b (frame - i))) [
      | inl e ↦ rw (e, gather) (h, omega arith)
      | inr (v, e) ↦
          let ih =
            gather-AreLocal rounds (i + 1) b frame (set_at inputs i v)
              (AreLocal-set b frame i v inputs h e) in
          rw (e, gather) (ih.0, omega (arith, ih.1))
    ]

-- Every input that a packet carries is the sender's own input of its frame, none is made up for a
-- missing one, and the packet passes the receiver's test on the number of inputs.
pub build_payload-AreLocal :
    (s : Sender) (frame : ℕ) (ready : Bool) (start : ℤ) (latest : Bool)
    → let p = build_payload s frame ready start latest in
      AreLocal s.buffer p.base_frame p.input_count p.inputs × (inputs_valid p ≡ true)
unfolding build_payload inputs_valid
build_payload-AreLocal s frame ready start latest =
    let newest = frame_to_send s frame latest in
    let g =
      gather-AreLocal (min newest 10) 0 s.buffer newest (λ i. 0) (λ j l. absurd (omega arith)) in
    (g.0, ground (arith, g.1))

-- While the peer has consumed a frame of the sender's epoch, and not the newest one: the window of
-- inputs that is sent for repair ends at a frame that the peer has not consumed, at most ten frames
-- behind what it has consumed, and never beyond the newest frame.
pub repair_window_end-bounds :
    (s : Sender) (frame base : ℕ)
    → phase_base s ≡ base
    → 0 < base
    → base ≤ frame
    → base ≤ s.peer_consumed_frame
    → s.peer_consumed_frame < base + stride
    → s.peer_consumed_frame < frame
    → (repair_window_end s frame ≤ frame)
      × (s.peer_consumed_frame < repair_window_end s frame)
      × (repair_window_end s frame ≤ s.peer_consumed_frame + 10)
unfolding repair_window_end
repair_window_end-bounds s frame base e a b c d f = (ground arith, ground arith, ground arith)
