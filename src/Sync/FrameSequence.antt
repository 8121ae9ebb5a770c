-- ===== src/Sync/FrameSequence.antt =====
-- src/src/core_dll/sync/FrameSequence.hpp: frame numbers of a session. Each epoch (a screen or a round)
-- has a block of 65536 numbers; the game thread consumes them one by one.
pub mod Order
use cccaster_ver_b.Prelude.{
  ℕ, ◌+◌, ◌-◌, ◌*◌, Bool, true, false, not, ◌&&◌, ◌||◌, ltb, leb, ◌==◌, if◌then◌else◌, ◌%◌,
}
use cccaster_ver_b.Prelude.Words.{add32, u32_mod, pack64}

abbrev pub stride : ℕ
stride = 65536

-- NetplaySettings::MaxDelay.
abbrev pub max_lookahead : ℕ
max_lookahead = 8

pub record FrameSequence : Type 0 where
  pub epoch : ℕ
  pub base : ℕ
  pub next : ℕ
  pub lookahead : ℕ

abbrev pub initial : FrameSequence
initial = record { epoch = 0; base = 0; next = 0; lookahead = 0 }

unfoldable pub begin : FrameSequence → ℕ → Bool × FrameSequence
begin s lookahead =
    if ltb max_lookahead lookahead || leb 65534 s.epoch
    then (false, s)
    else (let epoch = add32 s.epoch 1 in
        let base = (epoch * stride) % u32_mod in
        (true, record { epoch = epoch; base = base; next = add32 base 1; lookahead = lookahead }))

unfoldable pub capture : FrameSequence → ℕ
capture s = add32 s.next s.lookahead

unfoldable pub can_advance : FrameSequence → Bool
unfolding capture
can_advance s = ltb (capture s) ((s.base + stride - 1) % u32_mod)

unfoldable pub peer_entered_next_phase : FrameSequence → ℕ → ℕ → Bool
peer_entered_next_phase s peer_token phase =
    ltb 0 s.epoch && ltb s.epoch 65534 && peer_token == pack64 (add32 s.base stride) phase

unfoldable pub commit : FrameSequence → ℕ → Bool × FrameSequence
unfolding can_advance
commit s frame =
    if s.epoch == 0 || not (frame == s.next) || not (can_advance s)
    then (false, s)
    else (true, record s { next = add32 s.next 1 })
