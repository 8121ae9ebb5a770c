-- ===== src/Network/Steps/Inputs.antt =====
-- The steps confirm inputs of the packet, and touch the ring of inputs in no other way.
use cccaster_ver_b.Prelude.{
  ℕ, zero, suc, ◌+◌, ◌-◌, ◌<◌, ◌≡◌, refl, sym, ◌∙◌, ap, ◌==◌, List, [], ◌∷◌, ◌++◌, arith,
  Bool-cases, inl, inr, ltb, ◌&&◌,
}
use cccaster_ver_b.Prelude.Int.{ℤ}
use cccaster_ver_b.Sync.MatchInput.{Buffer, confirm_remote}
use cccaster_ver_b.Sync.MatchInput.History.{Call, confirms, step, after}
use cccaster_ver_b.Network.Packet.{Payload}
use cccaster_ver_b.Network.Receiver.{Receiver}
use cccaster_ver_b.Network.Steps.{
  confirm_inputs, take_choices, take_seed, take_loading_skip, take_present_rollback, take_progress,
  take_inputs, take_phase, ltb,
}

-- A confirmation of an input that the packet carries for one of its frames, which is not frame 0.
abbrev pub Carries : Payload → Call → Type 0
Carries p c =
    (j : ℕ) × (j < p.input_count)
    × (0 < p.base_frame - j)
    × (c ≡ confirms (p.base_frame - j) (p.inputs j))

abbrev pub AllCarried : Payload → List Call → Type 0
AllCarried p [] = Unit {0}
AllCarried p (c ∷ cs) = Carries p c × AllCarried p cs

-- `t` is `b` after confirmations of inputs that the packet carries.
abbrev pub Confirmed : Payload → Buffer → Buffer → Type 0
Confirmed p b t = (cs : List Call) × (t ≡ after b cs) × AllCarried p cs

after-snoc : (b : Buffer) (cs : List Call) (c : Call) → after b (cs ++ c ∷ []) ≡ after (step b c) cs
unfolding after
after-snoc b [] c = refl
after-snoc b (d ∷ cs) c = ap (λ t. step t d) (after-snoc b cs c)

AllCarried-snoc :
    (p : Payload) (cs : List Call) (c : Call)
    → AllCarried p cs
    → Carries p c
    → AllCarried p (cs ++ c ∷ [])
AllCarried-snoc p [] c a h = (h, tt)
AllCarried-snoc p (d ∷ cs) c a h = (a.0, AllCarried-snoc p cs c a.1 h)

confirm_inputs-Confirmed :
    (count i : ℕ) (p : Payload) (b : Buffer)
    → i + count ≡ p.input_count
    → Confirmed p b (confirm_inputs count i p b)
unfolding confirm_inputs after step
confirm_inputs-Confirmed zero i p b h = ([], refl, tt)
confirm_inputs-Confirmed (suc count) i p b h = elim (Bool-cases (p.base_frame - i == 0)) [
  | inl end ↦ ([], rw (end, confirm_inputs), tt)
  | inr more ↦
      let (cs, e, a) =
        confirm_inputs-Confirmed count (i + 1) p (confirm_remote b (p.base_frame - i) (p.inputs i))
          (omega arith) in
      let c = confirms (p.base_frame - i) (p.inputs i) in
      (
        cs ++ c ∷ [],
        rw (more, confirm_inputs) (e ∙ sym (after-snoc b cs c)),
        AllCarried-snoc p cs c a (i, omega arith, ground arith, refl),
      )
]

module _ {C : Type 0} where
  pub take_choices-buffer : (r : Receiver C) (p : Payload) → (take_choices r p).buffer ≡ r.buffer
  unfolding take_choices
  take_choices-buffer r p = refl

  pub take_seed-buffer : (r : Receiver C) (p : Payload) → (take_seed r p).buffer ≡ r.buffer
  unfolding take_seed
  take_seed-buffer r p = ground arith

  -- The steps from the comparison of the settings to the clock.
  pub take_early-buffer :
      (r : Receiver C) (p : Payload) (kind : ℕ) (time : ℤ)
      → (take_progress (take_loading_skip (take_present_rollback r p) p) p kind time).buffer
        ≡ r.buffer
  unfolding take_progress take_loading_skip take_present_rollback
  take_early-buffer r p kind time = ground arith

  pub take_inputs-Confirmed :
      (r : Receiver C) (p : Payload) → Confirmed p r.buffer (take_inputs r p).buffer
  unfolding take_inputs after
  take_inputs-Confirmed r p = elim (Bool-cases (ltb 0 p.base_frame && ltb 0 p.input_count)) [
    | inl carried ↦
        rw (carried, take_inputs)
          (confirm_inputs-Confirmed p.input_count 0 p r.buffer (omega arith))
    | inr empty ↦ rw (empty, take_inputs) ([], refl, tt)
  ]

  pub take_phase-buffer :
      (r : Receiver C) (p : Payload) (kind : ℕ) → (take_phase r p kind).buffer ≡ r.buffer
  unfolding take_phase
  take_phase-buffer r p kind = ground arith
