-- ===== src/Sync/Selection/Tests.antt =====
-- A newer notice of a selection, and then an older one that was late.
use cccaster_ver_b.Prelude.{◌≡◌, refl, true, false, List, [], ◌∷◌, arith}
use cccaster_ver_b.Sync.Selection.{
  accept, SelectionState, valid, is_boss, character_valid, stage_valid, character_cell,
}
use cccaster_ver_b.Sync.Selection.Rematch.{begin, restore, restore-valid}
use cccaster_ver_b.Sync.Selection.Exchange.{Extends, accept_all, accept_all-Extends}

abbrev choosing : SelectionState
choosing = record {
  epoch = 65536;
  revision = 3;
  ack = 0;
  selector = 0;
  character = 22;
  moon = 0;
  color = 0;
  confirmed = 0;
  stage = 0;
  stage_confirmed = 0;
  random_stage = 0;
  command_serial = 0;
  command = 0;
  command_ack = 0;
  delay = 2;
  rollback = 7;
}

abbrev notices : List SelectionState
notices = record choosing { revision = 5; ack = 2 } ∷ record choosing { revision = 4 } ∷ []

selection_notices_example :
    (valid (accept_all false choosing notices) false ≡ true)
    × Extends choosing (accept_all false choosing notices)
unfolding valid character_valid stage_valid is_boss
selection_notices_example = accept_all-Extends choosing notices false refl

abbrev chosen : SelectionState
chosen = record choosing { confirmed = 1; stage = 7; stage_confirmed = 1; random_stage = 1 }

restore-valid_example :
    let restored = restore (begin 0 true chosen choosing).1 131_072 true 12 in
    (valid restored false ≡ true) × (accept choosing restored false ≡ (true, restored))
unfolding valid is_boss character_valid stage_valid character_cell begin
restore-valid_example =
    restore-valid false 0 true chosen choosing choosing 131_072 12 refl (omega arith) refl
      (omega arith) (omega arith) (omega arith) (omega arith)
