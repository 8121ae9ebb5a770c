-- ===== src/Sync/Selection/Rematch.antt =====
-- src/src/core_dll/engine/StageRematch.hpp: when both players choose to play again on a stage drawn
-- anew, their characters are kept.
use cccaster_ver_b.Prelude.{
  ℕ, ◌%◌, ◌<◌, ◌≡◌, ◌≢◌, Bool, true, false, not, ◌&&◌, List, [], ◌∷◌, Option, none, some, ltb, leb,
  ◌==◌, if◌then◌else◌, arith, refl, Bool-cases, inl, inr, if_cases, ◌||◌,
}
use cccaster_ver_b.Sync.Selection.{
  accept, SelectionState, valid, character_valid, stage_valid, character_cell, is_boss, look_up,
  boss_cells, standard_cells, cell_count, is_some, max_delay, max_rollback, boss_moon,
}

abbrev pub no_selection : SelectionState
no_selection = record {
  epoch = 0;
  revision = 0;
  ack = 0;
  selector = 0;
  character = 0;
  moon = 0;
  color = 0;
  confirmed = 0;
  stage = 0;
  stage_confirmed = 0;
  random_stage = 0;
  command_serial = 0;
  command = 0;
  command_ack = 0;
  delay = 2;
  rollback = 7;
}

pub record StageRematch : Type 0 where
  pub active : Bool
  pub selection_epoch : ℕ
  pub saved : SelectionState

-- `result` is 0 for once more.
unfoldable pub begin : ℕ → Bool → (local peer : SelectionState) → Bool × StageRematch
begin result host local peer =
    let owner = if host then local else peer in
    let active = result == 0 && not (owner.stage_confirmed == 0) && not (owner.random_stage == 0) in
    (
      active,
      record {
        active = active;
        selection_epoch = 0;
        saved = if active then local else no_selection;
      },
    )

abbrev cell_word : Option ℕ → ℕ
cell_word none = 0xffff_ffff
cell_word (some cell) = cell

unfoldable pub restore : StageRematch → ℕ → Bool → ℕ → SelectionState
restore r epoch host stage =
    let kept : SelectionState = record no_selection {
      epoch = epoch;
      revision = 1;
      selector = cell_word (character_cell r.saved.character);
      character = r.saved.character;
      moon = r.saved.moon;
      color = r.saved.color;
      confirmed = 1;
      delay = r.saved.delay;
      rollback = r.saved.rollback;
    } in
    if host then record kept { stage = stage; stage_confirmed = 1; random_stage = 1 } else kept

-- Every cell lies below `bound`.
AllBelow : ℕ → List (ℕ × ℕ) → Type 0
AllBelow bound [] = Unit {0}
AllBelow bound (c ∷ rest) = (c.1 < bound) × AllBelow bound rest

Below : ℕ → Option ℕ → Type 0
Below bound none = Unit {0}
Below bound (some cell) = cell < bound

look_up-Below :
    (bound : ℕ) (cells : List (ℕ × ℕ)) (key : ℕ)
    → AllBelow bound cells
    → Below bound (look_up cells key)
unfolding AllBelow Below
look_up-Below bound [] key h = tt
look_up-Below bound (c ∷ rest) key h =
    if_cases (Below bound) (c.0 == key) {s = some c.1} h.0 (look_up-Below bound rest key h.1)

-- How many cells the screen has, with the bosses and without them.
abbrev shown : Bool → ℕ
shown bosses = if bosses then cell_count else 54

cell-Below :
    (bosses : Bool) (character : ℕ)
    → (is_boss character ≡ true → bosses ≡ true)
    → Below (shown bosses) (character_cell character)
unfolding character_cell AllBelow
cell-Below true character h =
    if_cases (Below cell_count) (is_boss character)
      (look_up-Below cell_count boss_cells character (omega arith))
      (look_up-Below cell_count standard_cells character (omega arith))
cell-Below false character h = elim (Bool-cases (is_boss character)) [
  | inl boss ↦ let e = h boss in absurd (cc)
  | inr other ↦ rw other (look_up-Below 54 standard_cells character (omega arith))
]

word_bound : (bound : ℕ) (o : Option ℕ) → Below bound o → is_some o ≡ true → cell_word o < bound
unfolding Below
word_bound bound none b e = ground (arith, e)
word_bound bound (some cell) b e = b

abbrev moon_fits : Bool → SelectionState → Bool
moon_fits bosses s =
    if is_boss s.character then bosses && s.moon == boss_moon s.character else ltb s.moon 3

boss_allowed :
    (bosses : Bool) (s : SelectionState)
    → moon_fits bosses s ≡ true
    → is_boss s.character ≡ true
    → bosses ≡ true
boss_allowed bosses s h b = ground (arith, h, b)

-- What a valid selection keeps.
saved_parts :
    (bosses : Bool) (s : SelectionState)
    → valid s bosses ≡ true
    → s.confirmed ≢ 0
    → (is_some (character_cell s.character) ≡ true)
      × (leb s.character 100 ≡ true)
      × (moon_fits bosses s ≡ true)
      × (ltb s.color 36 ≡ true)
      × (leb s.delay max_delay ≡ true)
      × (leb s.rollback max_rollback ≡ true)
unfolding valid character_valid stage_valid
saved_parts bosses s v c = ground (arith, v, c)

module _ (bosses : Bool) (saved : SelectionState) (v : valid saved bosses ≡ true)
    (c : saved.confirmed ≢ 0) (r : StageRematch) (e : r.saved ≡ saved) (epoch stage : ℕ) where
  restored-character :
      (host : Bool) → epoch % 65536 ≡ 0 → character_valid (restore r epoch host stage) bosses ≡ true
  unfolding character_valid restore
  restored-character host m =
      let p = saved_parts bosses saved v c in
      let b =
        word_bound (shown bosses) (character_cell saved.character)
          (cell-Below bosses saved.character (boss_allowed bosses saved p.2)) p.0 in
      let on_screen : ltb (cell_word (character_cell saved.character)) (shown bosses) ≡ true =
        ground (arith, b) in
      let whole : (epoch == 0 || (epoch % 65536 == 0 && true)) ≡ true = ground (arith, m) in
      elim (Bool-cases host) [
        | inl h ↦ rw (e, h, whole, on_screen, p.0, p.1, p.2, p.3) refl
        | inr h ↦ rw (e, h, whole, on_screen, p.0, p.1, p.2, p.3) refl
      ]

  restored-stage :
      (host : Bool) → stage ≢ 0 → stage < 100 → stage_valid (restore r epoch host stage) ≡ true
  unfolding stage_valid restore
  restored-stage host s t =
      let p = saved_parts bosses saved v c in
      let low : ltb stage 100 ≡ true = ground (arith, t) in
      let set : (stage == 0) ≡ false = ground (arith, s) in
      elim (Bool-cases host) [
        | inl h ↦ rw (e, h, low, set, p.4, p.5) refl
        | inr h ↦ rw (e, h, p.4, p.5) refl
      ]

  restored-valid :
      (host : Bool)
      → epoch % 65536 ≡ 0
      → stage ≢ 0
      → stage < 100
      → valid (restore r epoch host stage) bosses ≡ true
  unfolding valid
  restored-valid host m s t = rw (restored-character host m, restored-stage host s t) refl

active_saved :
    (result : ℕ) (host : Bool) (local peer : SelectionState)
    → (begin result host local peer).0 ≡ true
    → (begin result host local peer).1.saved ≡ local
unfolding begin
active_saved result host local peer h = rw h refl

newer_accepted :
    (known incoming : SelectionState) (bosses : Bool)
    → valid incoming bosses ≡ true
    → known.epoch < incoming.epoch
    → incoming.ack ≡ 0
    → accept known incoming bosses ≡ (true, incoming)
unfolding accept
newer_accepted known incoming bosses v n a =
    let late : ltb incoming.epoch known.epoch ≡ false = ground (arith, n) in
    let other : (incoming.epoch == known.epoch) ≡ false = ground (arith, n) in
    rw (v, late, other) (rw a refl)

restored-notice :
    (r : StageRematch) (epoch : ℕ) (host : Bool) (stage : ℕ)
    → ((restore r epoch host stage).epoch ≡ epoch) × ((restore r epoch host stage).ack ≡ 0)
unfolding restore
restored-notice r epoch true stage = (refl, refl)
restored-notice r epoch false stage = (refl, refl)

-- The own selection is valid and confirmed, with the bosses allowed or not, both players play once more on a
-- stage drawn anew, the next block of frames is a whole one and the stage exists. The selection that is
-- restored, of the host or the client, is valid; and the other player, who allows the same characters and
-- knows a selection of an earlier block of frames only, accepts it and keeps it as it is.
pub restore-valid :
    (bosses : Bool) (result : ℕ) (host : Bool) (local peer known : SelectionState) (epoch stage : ℕ)
    → valid local bosses ≡ true
    → local.confirmed ≢ 0
    → (begin result host local peer).0 ≡ true
    → epoch % 65536 ≡ 0
    → stage ≢ 0
    → stage < 100
    → known.epoch < epoch
    → let restored = restore (begin result host local peer).1 epoch host stage in
      (valid restored bosses ≡ true) × (accept known restored bosses ≡ (true, restored))
restore-valid bosses result host local peer known epoch stage v c h m s t n =
    let r = (begin result host local peer).1 in
    let good =
      restored-valid bosses local v c r (active_saved result host local peer h) epoch stage host m s
        t in
    let notice = restored-notice r epoch host stage in
    (
      good,
      newer_accepted known (restore r epoch host stage) bosses good (omega (arith, n, notice.0))
          notice.1,
    )
