-- ===== src/Rollback/Prediction/Window.antt =====
-- The frames that are run and not yet confirmed.
use cccaster_ver_b.Prelude.{ℕ, ◌+◌, ◌≤◌, ◌<◌, ◌≡◌, inl, inr, Bool-cases, ◌==◌, true, arith}
use cccaster_ver_b.Rollback.Prediction.{
  PredictionHistory, entry_of, owns, history_frames, reset, record_frame,
}

-- The frames that are run and not confirmed have their entries, and fit the ring.
pub record IsRecorded (h : PredictionHistory) : Type 0 where
  pub ahead : h.confirmed < h.next
  pub fits : h.next ≤ h.confirmed + 1 + history_frames
  pub own : (g : ℕ) → h.confirmed < g → g < h.next → owns (entry_of h g) g ≡ true

pub reset-IsRecorded : (first limit : ℕ) → 0 < first → IsRecorded (reset first limit)
unfolding reset
reset-IsRecorded first limit p = record {
  ahead = omega arith;
  fits = omega arith;
  own = λ g a b. absurd (omega arith);
}

-- Recording the next frame while fewer than 32 frames are unconfirmed.
pub record_frame-IsRecorded :
    (h : PredictionHistory) (frame local remote : ℕ)
    → h.next < h.confirmed + 1 + history_frames
    → IsRecorded h
    → IsRecorded (record_frame h frame local remote).1
unfolding record_frame
record_frame-IsRecorded h frame local remote room v = elim (Bool-cases (frame == h.next)) [
  | inr other ↦ rw (other, record_frame) v
  | inl same ↦
      rw (same, record_frame)
        (record {
          ahead = omega (arith, v.ahead);
          fits = omega (arith, room);
          own = λ g a b. ground (arith, v.own g a);
        })
]
