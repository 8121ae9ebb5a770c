-- ===== src/Network/Delivery.antt =====
-- A packet from the sender's ring of inputs to the receiver's.
use cccaster_ver_b.Prelude.{ℕ, ◌-◌, ◌≡◌, Bool, some, List, [], ◌∷◌}
use cccaster_ver_b.Prelude.Int.{ℤ}
use cccaster_ver_b.Sync.MatchInput.{Buffer, try_get_local_input}
use cccaster_ver_b.Sync.MatchInput.History.{Call, confirms, after}
use cccaster_ver_b.Network.Packet.{Payload}
use cccaster_ver_b.Network.Receiver.{Receiver, ClockCalls}
use cccaster_ver_b.Network.Steps.Inputs.{AllCarried}
use cccaster_ver_b.Network.Receive.{process_received_packet}
use cccaster_ver_b.Network.Receive.Inputs.{process-Confirmed}
use cccaster_ver_b.Network.Build.{Sender, build_packet, build_packet-payload}
use cccaster_ver_b.Network.Build.Sent.{AreLocal, build_payload-AreLocal}

-- The call confirms the input that the buffer has written for its frame.
abbrev pub ConfirmsOwn : Buffer → Call → Type 0
ConfirmsOwn b c =
    (frame : ℕ) × (input : ℕ) × (c ≡ confirms frame input)
    × (try_get_local_input b frame ≡ some input)

abbrev pub AllOwn : Buffer → List Call → Type 0
AllOwn b [] = Unit {0}
AllOwn b (c ∷ cs) = ConfirmsOwn b c × AllOwn b cs

own_all :
    (b : Buffer) (p : Payload) (cs : List Call)
    → AreLocal b p.base_frame p.input_count p.inputs
    → AllCarried p cs
    → AllOwn b cs
own_all b p [] h a = tt
own_all b p (c ∷ cs) h ((j, less, _, e), a) =
    ((p.base_frame - j, p.inputs j, e, h j less), own_all b p cs h a)

-- A packet that one player builds and the other receives, in any state of both, changes the
-- receiver's ring by confirmations only, each of the input that the sender wrote for that frame.
pub delivers_own_inputs :
    {C : Type 0} (calls : ClockCalls C) (generation size : ℕ) (s : Sender) (r : Receiver C)
    (frame : ℕ) (ready : Bool) (start : ℤ) (latest : Bool) (time : ℤ)
    → (cs : List Call) × ((process_received_packet calls generation size r
          (build_packet size s frame ready start latest)
          time).buffer
        ≡ after r.buffer cs)
      × AllOwn s.buffer cs
delivers_own_inputs calls generation size s r frame ready start latest time =
    let d = build_packet size s frame ready start latest in
    let (cs, e, a) = process-Confirmed calls generation size r d time in
    let local : AreLocal s.buffer d.payload.base_frame d.payload.input_count d.payload.inputs =
      rw (build_packet-payload size s frame ready start latest)
        (build_payload-AreLocal s frame ready start latest).0 in
    (cs, e, own_all s.buffer d.payload cs local a)
