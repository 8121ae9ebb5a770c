-- ===== src/Rollback/Corrections.antt =====
-- src/src/core_dll/rollback/PredictionHistory.hpp, the functions with two readers: the player's own
-- inputs may be corrected too, before those of the other player arrive.
use cccaster_ver_b.Prelude.{
  ℕ, zero, suc, ◌+◌, ◌-◌, Bool, true, false, not, ◌&&◌, ◌||◌, Option, none, some, ◌==◌,
  if◌then◌else◌,
}
use cccaster_ver_b.Rollback.Prediction.{
  PredictionHistory, entry_of, put_entry, owns, get, can_predict, remote_or_zero, local_or_zero,
}

abbrev is_some : Option ℕ → Bool
is_some none = false
is_some (some x) = true

abbrev pub or_else : Option ℕ → ℕ → ℕ
or_else none d = d
or_else (some v) d = v

abbrev differs : Option ℕ → ℕ → Bool
differs none v = false
differs (some w) v = not (v == w)

module _ (read_local : ℕ → Option ℕ) (read_remote : ℕ → Option ℕ) where
  -- One round: what is read replaces what was used, and a frame with both inputs is confirmed if
  -- the one before it is.
  pub correct : PredictionHistory → ℕ → PredictionHistory
  correct h f =
      let e = entry_of h f in
      let h' = put_entry h f (record e {
        local = or_else (read_local f) e.local;
        remote = or_else (read_remote f) e.remote;
      }) in
      if is_some (read_local f) && is_some (read_remote f) && f == h.confirmed + 1
      then record h' { confirmed = f }
      else h'

  abbrev wrong : PredictionHistory → ℕ → Bool
  wrong h f =
      differs (read_local f) (entry_of h f).local || differs (read_remote f) (entry_of h f).remote

  pub reconcile_both_from : ℕ → ℕ → ℕ → PredictionHistory → ℕ × PredictionHistory
  unfolding correct
  reconcile_both_from zero f mismatch h = (mismatch, h)
  reconcile_both_from (suc rounds) f mismatch h =
      let rest =
        reconcile_both_from rounds (f + 1) (if wrong h f && mismatch == 0 then f else mismatch)
          (correct h f) in
      if not (owns (entry_of h f) f) then (f, h) else rest

  -- The mismatch, 0 if there is none.
  pub reconcile_both : PredictionHistory → ℕ × PredictionHistory
  unfolding reconcile_both_from
  reconcile_both h = reconcile_both_from (h.next - (h.confirmed + 1)) (h.confirmed + 1) 0 h

  both_read : ℕ → ℕ → Bool
  both_read zero f = true
  both_read (suc rounds) f =
      let rest = both_read rounds (f + 1) in
      if not (is_some (read_local f)) || not (is_some (read_remote f)) then false else rest

  pub ready_to_resume_both : PredictionHistory → Bool → Bool
  unfolding both_read
  ready_to_resume_both h allow_prediction =
      if allow_prediction && not (h.limit == 0) && not (can_predict h)
      then is_some (read_local (h.confirmed + 1)) && is_some (read_remote (h.confirmed + 1))
      else both_read (h.next - h.confirmed) (h.confirmed + 1)

  pub resolve_replay_both : PredictionHistory → ℕ → Option (ℕ × ℕ) × PredictionHistory
  resolve_replay_both h frame =
      let e = entry_of h frame in
      let before = get h (frame - 1) in
      let local = or_else (read_local frame) (local_or_zero before) in
      let remote = or_else (read_remote frame) (remote_or_zero before) in
      if not (owns e frame)
      then (none, h)
      else (some (local, remote), put_entry h frame (record e { local = local; remote = remote }))
