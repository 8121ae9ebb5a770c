-- ===== src/Rollback/Prediction/Tests.antt =====
-- A mismatch in frame 2, found when the inputs of the frames 1 to 3 are confirmed.
use cccaster_ver_b.Prelude.{ℕ, Option, none, some, arith, inr, ◌==◌, if◌then◌else◌, leb}
use cccaster_ver_b.Rollback.Prediction.{
  PredictionHistory, reset, record_frame, reconcile, reconcile_from,
}
use cccaster_ver_b.Rollback.Prediction.Window.{
  IsRecorded, reset-IsRecorded, record_frame-IsRecorded,
}
use cccaster_ver_b.Rollback.Prediction.Reconcile.{Agrees, reconcile-Agrees}

abbrev arrived : ℕ → Option ℕ
arrived f = if leb 4 f then none else if f == 2 then some 8 else some 0

abbrev empty : PredictionHistory
empty = reset 1 7

abbrev one : PredictionHistory
one = (record_frame empty 1 5 0).1

abbrev two : PredictionHistory
two = (record_frame one 2 5 0).1

abbrev three : PredictionHistory
three = (record_frame two 3 5 0).1

one-IsRecorded : IsRecorded one
unfolding reset
one-IsRecorded =
    record_frame-IsRecorded empty 1 5 0 (omega arith) (reset-IsRecorded 1 7 (omega arith))

two-IsRecorded : IsRecorded two
unfolding reset record_frame
two-IsRecorded = record_frame-IsRecorded one 2 5 0 (omega arith) one-IsRecorded

three-IsRecorded : IsRecorded three
unfolding reset record_frame
three-IsRecorded = record_frame-IsRecorded two 3 5 0 (omega arith) two-IsRecorded

reconcile-Agrees_example : Agrees arrived three 1
unfolding reset record_frame reconcile reconcile_from
reconcile-Agrees_example =
    reconcile-Agrees arrived three 1 three-IsRecorded (inr (omega arith)) (omega arith)
      (omega arith)
