-- ===== src/Scene/Score.antt =====
-- src/src/core_dll/engine/SessionScore.hpp: matches won in a session, counted from the scenes that the
-- game goes through.
pub mod Counting
use cccaster_ver_b.Prelude.{
  ℕ, ◌+◌, ◌%◌, ◌^◌, Bool, true, false, not, ◌&&◌, ◌||◌, ltb, leb, ◌==◌, if◌then◌else◌,
}
use cccaster_ver_b.Prelude.Words.{add32}

pub record MatchResultFacts : Type 0 where
  pub p1_rounds : ℕ
  pub p2_rounds : ℕ
  pub rounds_to_win : ℕ
  pub available : Bool

pub data ScoreScene : Type 0 where
  battle result character_select other : ScoreScene

pub record SessionScore : Type 0 where
  pub p1_wins : ℕ
  pub p2_wins : ℕ
  pub unresolved : ℕ
  pub revision : ℕ
  pub last_match_generation : ℕ
  pub active : Bool
  pub armed : Bool
  pub started_generation : ℕ
  pub closed_generation : ℕ

pub reset : Bool → SessionScore
reset enabled = record {
  p1_wins = 0;
  p2_wins = 0;
  unresolved = 0;
  revision = 0;
  last_match_generation = 0;
  active = enabled;
  armed = false;
  started_generation = 0;
  closed_generation = 0;
}

abbrev pub facts_valid : MatchResultFacts → Bool
facts_valid f =
    f.available
    && leb 1 f.rounds_to_win
    && leb f.rounds_to_win 5
    && leb f.p1_rounds f.rounds_to_win
    && leb f.p2_rounds f.rounds_to_win

-- Who won; with both or neither there the match is unresolved.
abbrev pub p1_won : MatchResultFacts → Bool
p1_won f = facts_valid f && f.p1_rounds == f.rounds_to_win

abbrev pub p2_won : MatchResultFacts → Bool
p2_won f = facts_valid f && f.p2_rounds == f.rounds_to_win

pub count_match : SessionScore → MatchResultFacts → SessionScore
count_match s f =
    let s' = record s { revision = (s.revision + 1) % 2 ^ 64 } in
    if p1_won f && not (p2_won f)
    then record s' { p1_wins = add32 s.p1_wins 1 }
    else if p2_won f && not (p1_won f)
    then record s' { p2_wins = add32 s.p2_wins 1 }
    else record s' { unresolved = add32 s.unresolved 1 }

pub observe_scene : ScoreScene → SessionScore → ℕ → MatchResultFacts → Bool × SessionScore
unfolding count_match
observe_scene ScoreScene.character_select s generation f = (false, record s { armed = false })
observe_scene ScoreScene.battle s generation f =
    if not s.armed && ltb s.closed_generation generation
    then (false, record s { armed = true; started_generation = generation })
    else (false, s)
observe_scene ScoreScene.result s generation f = if not s.armed then (false, s) else (
  true,
  count_match
      (record s {
        armed = false;
        closed_generation = generation;
        last_match_generation = s.started_generation;
      })
      f,
)
observe_scene ScoreScene.other s generation f = (false, s)

pub observe : SessionScore → ScoreScene → ℕ → MatchResultFacts → Bool → Bool × SessionScore
unfolding observe_scene
observe s scene generation f confirmed =
    if not s.active || not confirmed || generation == 0 || ltb generation s.closed_generation
    then (false, s)
    else observe_scene scene s generation f
