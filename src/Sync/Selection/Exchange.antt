-- ===== src/Sync/Selection/Exchange.antt =====
-- What a receiver keeps of the other player's notices.
use cccaster_ver_b.Prelude.{ℕ, ◌≤◌, ◌<◌, ◌≡◌, ◌⊎◌, refl, Bool, true, List, [], ◌∷◌, arith}
use cccaster_ver_b.Sync.Selection.{SelectionState, valid, accept, character_valid, stage_valid}

pub accept_all : Bool → SelectionState → List SelectionState → SelectionState
accept_all allow_boss s [] = s
accept_all allow_boss s (m ∷ ms) = accept_all allow_boss (accept s m allow_boss).1 ms

-- `k` is not older than `s`, and acknowledges as much.
abbrev pub Extends : SelectionState → SelectionState → Type 0
Extends s k =
    (s.epoch < k.epoch) ⊎ ((s.epoch ≡ k.epoch) × (s.revision ≤ k.revision) × (s.ack ≤ k.ack))

accept-Extends : (s m : SelectionState) (b : Bool) → Extends s (accept s m b).1
unfolding accept
accept-Extends s m b = ground arith

Extends-trans : (a b c : SelectionState) → Extends a b → Extends b c → Extends a c
Extends-trans a b c p q = ground arith

-- The acknowledgement is not part of what `Valid` tests.
valid-ack : (s : SelectionState) (n : ℕ) (b : Bool) → valid (record s { ack = n }) b ≡ valid s b
unfolding valid character_valid stage_valid
valid-ack s n b = refl

accept-valid :
    (s m : SelectionState) (b : Bool) → valid s b ≡ true → valid (accept s m b).1 b ≡ true
unfolding accept
accept-valid s m b h = ground (arith, valid-ack m s.ack b, valid-ack m 0 b)

Extends-all :
    (s : SelectionState) (ms : List SelectionState) (b : Bool) → Extends s (accept_all b s ms)
unfolding accept_all
Extends-all s [] b = ground arith
Extends-all s (m ∷ ms) b =
    Extends-trans s (accept s m b).1 (accept_all b (accept s m b).1 ms) (accept-Extends s m b)
      (Extends-all (accept s m b).1 ms b)

accept_all-valid :
    (s : SelectionState) (ms : List SelectionState) (b : Bool)
    → valid s b ≡ true
    → valid (accept_all b s ms) b ≡ true
unfolding accept_all
accept_all-valid s [] b h = h
accept_all-valid s (m ∷ ms) b h = accept_all-valid (accept s m b).1 ms b (accept-valid s m b h)

-- Whatever notices arrive, in whatever order, a valid selection stays valid, its epoch and (within
-- an epoch) its revision do not go back, and within an epoch no acknowledgement is lost.
pub accept_all-Extends :
    (s : SelectionState) (ms : List SelectionState) (b : Bool)
    → valid s b ≡ true
    → (valid (accept_all b s ms) b ≡ true) × Extends s (accept_all b s ms)
accept_all-Extends s ms b h = (accept_all-valid s ms b h, Extends-all s ms b)
