-- ===== src/Rollback/Prediction.antt =====
-- src/src/core_dll/rollback/PredictionHistory.hpp: what each frame was run with, until it is confirmed.
-- The readers of confirmed inputs are functions; frame numbers do not wrap.
pub mod Reconcile
pub mod Window
mod Tests
use cccaster_ver_b.Prelude.{
  ℕ, zero, suc, ◌+◌, ◌-◌, ◌%◌, Bool, true, false, not, ◌&&◌, ◌||◌, Option, none, some, ltb, leb,
  ◌==◌, if◌then◌else◌,
}
use cccaster_ver_b.Prelude.Table.{set_at}

-- NetplaySettings::RollbackHistoryFrames.
abbrev pub history_frames : ℕ
history_frames = 32

pub record Entry : Type 0 where
  pub frame : ℕ
  pub local : ℕ
  pub remote : ℕ
  pub valid : Bool

abbrev pub blank : Entry
blank = record { frame = 0; local = 0; remote = 0; valid = false }

pub record PredictionHistory : Type 0 where
  pub entries : ℕ → Entry
  pub first : ℕ
  pub next : ℕ
  pub confirmed : ℕ
  pub limit : ℕ

abbrev pub entry_of : PredictionHistory → ℕ → Entry
entry_of h frame = h.entries (frame % history_frames)

abbrev pub put_entry : PredictionHistory → ℕ → Entry → PredictionHistory
put_entry h frame e = record h { entries = set_at h.entries (frame % history_frames) e }

pub reset : ℕ → ℕ → PredictionHistory
reset first limit = record {
  entries = λ i. blank;
  first = first;
  next = first;
  confirmed = first - 1;
  limit = limit;
}

pub record_frame : PredictionHistory → ℕ → ℕ → ℕ → Bool × PredictionHistory
record_frame h frame local remote = if not (frame == h.next) then (false, h) else (
  true,
  record (put_entry h frame
      (record { frame = frame; local = local; remote = remote; valid = true })) {
        next = h.next + 1;
      },
)

-- The entry is the frame's own.
abbrev pub owns : Entry → ℕ → Bool
owns e frame = e.valid && e.frame == frame

pub get : PredictionHistory → ℕ → Option Entry
get h frame = if owns (entry_of h frame) frame then some (entry_of h frame) else none

module _ (read : ℕ → Option ℕ) where
  -- One round with the confirmed value of frame `f`: the first difference is kept.
  abbrev pub confirm_frame : PredictionHistory → ℕ → ℕ → PredictionHistory
  confirm_frame h f value = record (put_entry h f (record (entry_of h f) { remote = value })) {
    confirmed = f;
  }

  abbrev pub mark : PredictionHistory → ℕ → ℕ → ℕ → ℕ
  mark h f value mismatch =
      if not ((entry_of h f).remote == value) && mismatch == 0 then f else mismatch

  -- The loop over the frames that are run and not confirmed, `rounds` of them from `f` on.
  pub reconcile_from : ℕ → ℕ → ℕ → PredictionHistory → ℕ × PredictionHistory
  reconcile_from zero f mismatch h = (mismatch, h)
  reconcile_from (suc rounds) f mismatch h = elim (read f) [
    | none ↦ (mismatch, h)
    | some value ↦
        let rest =
          reconcile_from rounds (f + 1) (mark h f value mismatch) (confirm_frame h f value) in
        if not (owns (entry_of h f) f) then (f, h) else rest
  ]

  -- The mismatch, 0 if there is none.
  pub reconcile : PredictionHistory → ℕ × PredictionHistory
  unfolding reconcile_from
  reconcile h = reconcile_from (h.next - (h.confirmed + 1)) (h.confirmed + 1) 0 h

pub can_predict : PredictionHistory → Bool
can_predict h = leb (h.next - h.confirmed) h.limit

abbrev is_some : Option ℕ → Bool
is_some none = false
is_some (some x) = true

all_read : (ℕ → Option ℕ) → ℕ → ℕ → Bool
all_read read zero f = true
all_read read (suc rounds) f =
    let rest = all_read read rounds (f + 1) in if not (is_some (read f)) then false else rest

pub ready_to_resume : (ℕ → Option ℕ) → PredictionHistory → Bool → Bool
unfolding all_read can_predict
ready_to_resume read h allow_prediction =
    if allow_prediction && not (h.limit == 0) && not (can_predict h)
    then is_some (read (h.confirmed + 1))
    else (if not (all_read read (h.next - (h.confirmed + 1)) (h.confirmed + 1))
        then false
        else is_some (read h.next))

abbrev pub remote_or_zero : Option Entry → ℕ
remote_or_zero none = 0
remote_or_zero (some e) = e.remote

abbrev pub local_or_zero : Option Entry → ℕ
local_or_zero none = 0
local_or_zero (some e) = e.local

pub prediction : PredictionHistory → ℕ
unfolding get
prediction h = remote_or_zero (get h (h.next - 1))

pub local_prediction : PredictionHistory → ℕ
unfolding get
local_prediction h = local_or_zero (get h (h.next - 1))

pub needs_replay_snapshot : PredictionHistory → ℕ → Bool
needs_replay_snapshot h frame = ltb h.confirmed frame

abbrev or_else : Option ℕ → ℕ → ℕ
or_else none d = d
or_else (some v) d = v

-- The inputs of a frame that is run again: confirmed, or predicted from the frame before it.
pub resolve_replay : (ℕ → Option ℕ) → PredictionHistory → ℕ → Option (ℕ × ℕ) × PredictionHistory
unfolding get
resolve_replay read h frame =
    let e = entry_of h frame in
    let remote = or_else (read frame) (remote_or_zero (get h (frame - 1))) in
    if not (owns e frame)
    then (none, h)
    else (some (e.local, remote), put_entry h frame (record e { remote = remote }))
