-- ===== src/Scene/Score/Counting.antt =====
-- No match is counted twice.
use cccaster_ver_b.Prelude.{
  ℕ, ◌+◌, ◌%◌, ◌^◌, ◌≤◌, ◌<◌, ◌≡◌, refl, Bool, true, false, List, [], ◌∷◌, if◌then◌else◌, arith,
  Bool-cases, inl, inr,
}
use cccaster_ver_b.Scene.Score.{
  SessionScore, MatchResultFacts, ScoreScene, reset, count_match, observe_scene, observe,
}

pub record Observation : Type 0 where
  pub scene : ScoreScene
  pub generation : ℕ
  pub facts : MatchResultFacts
  pub confirmed : Bool

pub step : SessionScore → Observation → SessionScore
step s o = (observe s o.scene o.generation o.facts o.confirmed).1

-- The generations of the matches that are counted, in order.
pub counted : SessionScore → List Observation → List ℕ
unfolding step
counted s [] = []
counted s (o ∷ os) =
    let rest = counted (step s o) os in
    if (observe s o.scene o.generation o.facts o.confirmed).0
    then (step s o).last_match_generation ∷ rest
    else rest

-- Generations do not go back.
abbrev pub Forward : ℕ → List Observation → Type 0
Forward g [] = Unit {0}
Forward g (o ∷ os) = (g ≤ o.generation) × Forward o.generation os

abbrev pub Increasing : ℕ → List ℕ → Type 0
Increasing g [] = Unit {0}
Increasing g (x ∷ xs) = (g < x) × Increasing x xs

-- Up to generation `g`: the last match counted is closed, and one that runs is newer.
record Inv (g : ℕ) (s : SessionScore) : Type 0 where
  past : s.closed_generation ≤ g
  closed : s.last_match_generation ≤ s.closed_generation
  running :
      s.armed ≡ true → (s.closed_generation < s.started_generation) × (s.started_generation ≤ g)

abbrev pub Sums : SessionScore → Type 0
Sums s = (s.p1_wins + s.p2_wins + s.unresolved) % 2 ^ 32 ≡ s.revision % 2 ^ 32

count-facts :
    (s : SessionScore) (f : MatchResultFacts)
    → ((count_match s f).armed ≡ s.armed)
      × ((count_match s f).closed_generation ≡ s.closed_generation)
      × ((count_match s f).last_match_generation ≡ s.last_match_generation)
      × ((count_match s f).started_generation ≡ s.started_generation)
unfolding count_match
count-facts s f = (ground arith, ground arith, ground arith, ground arith)

count-Sums : (s : SessionScore) (f : MatchResultFacts) → Sums s → Sums (count_match s f)
unfolding count_match
count-Sums s f h = ground arith

step-Inv :
    (s : SessionScore) (o : Observation) (g : ℕ)
    → g ≤ o.generation
    → Inv g s
    → Inv o.generation (step s o)
unfolding step observe observe_scene
step-Inv s o g h v = by_scene o.scene
  where
    by_scene : (c : ScoreScene) → Inv o.generation (observe s c o.generation o.facts o.confirmed).1
    by_scene ScoreScene.battle = ground (arith, v)
    by_scene ScoreScene.result = ground (
      arith,
      v,
      count-facts
          (record s {
            armed = false;
            closed_generation = o.generation;
            last_match_generation = s.started_generation;
          })
          o.facts,
    )
    by_scene ScoreScene.character_select = ground (arith, v)
    by_scene ScoreScene.other = ground (arith, v)

-- A count takes the running match; nothing else changes the last one counted.
step-last :
    (s : SessionScore) (o : Observation)
    → (step s o).last_match_generation ≡ (
        if (observe s o.scene o.generation o.facts o.confirmed).0
        then s.started_generation
        else s.last_match_generation)
unfolding step observe observe_scene
step-last s o = by_scene o.scene
  where
    by_scene :
        (c : ScoreScene)
        → (observe s c o.generation o.facts o.confirmed).1.last_match_generation ≡ (
            if (observe s c o.generation o.facts o.confirmed).0
            then s.started_generation
            else s.last_match_generation)
    by_scene ScoreScene.battle = ground arith
    by_scene ScoreScene.result = ground (
      arith,
      count-facts
          (record s {
            armed = false;
            closed_generation = o.generation;
            last_match_generation = s.started_generation;
          })
          o.facts,
    )
    by_scene ScoreScene.character_select = ground arith
    by_scene ScoreScene.other = ground arith

counts_armed :
    (s : SessionScore) (o : Observation)
    → (observe s o.scene o.generation o.facts o.confirmed).0 ≡ true
    → s.armed ≡ true
unfolding observe observe_scene
counts_armed s o = by_scene o.scene
  where
    by_scene :
        (c : ScoreScene) → (observe s c o.generation o.facts o.confirmed).0 ≡ true → s.armed ≡ true
    by_scene ScoreScene.battle h = ground arith
    by_scene ScoreScene.result h = ground arith
    by_scene ScoreScene.character_select h = ground arith
    by_scene ScoreScene.other h = ground arith

counted-Increasing :
    (s : SessionScore) (os : List Observation) (g : ℕ)
    → Inv g s
    → Forward g os
    → Increasing s.last_match_generation (counted s os)
unfolding counted
counted-Increasing s [] g v f = tt
counted-Increasing s (o ∷ os) g v f =
    let ih = counted-Increasing (step s o) os o.generation (step-Inv s o g f.0 v) f.1 in
    elim (Bool-cases (observe s o.scene o.generation o.facts o.confirmed).0) [
      | inl yes_ ↦ rw yes_ (
        omega
            (arith, (rw yes_ at (step-last s o)), v.closed, (v.running (counts_armed s o yes_)).0),
        ih,
      )
      | inr no_ ↦ rw no_ (rw (rw no_ at (step-last s o)) at ih)
    ]

reset-Inv : (enabled : Bool) → Inv 0 (reset enabled)
unfolding reset
reset-Inv enabled = record { past = omega arith; closed = omega arith; running = λ h. ground arith }

-- Over any run of scenes whose generations do not go back, from a new session on, the generations
-- of the matches that are counted rise strictly: no match is counted twice, however often the game
-- shows its result.
pub counted_once :
    (enabled : Bool) (os : List Observation)
    → Forward 0 os
    → Increasing 0 (counted (reset enabled) os)
unfolding reset
counted_once enabled os f = counted-Increasing (reset enabled) os 0 (reset-Inv enabled) f

step-Sums : (s : SessionScore) (o : Observation) → Sums s → Sums (step s o)
unfolding step observe observe_scene
step-Sums s o h = by_scene o.scene
  where
    by_scene : (c : ScoreScene) → Sums (observe s c o.generation o.facts o.confirmed).1
    by_scene ScoreScene.battle = ground (arith, h)
    by_scene ScoreScene.result = ground (
      arith,
      h,
      count-Sums
          (record s {
            armed = false;
            closed_generation = o.generation;
            last_match_generation = s.started_generation;
          })
          o.facts h,
    )
    by_scene ScoreScene.character_select = ground (arith, h)
    by_scene ScoreScene.other = ground (arith, h)

pub step_all : SessionScore → List Observation → SessionScore
step_all s [] = s
step_all s (o ∷ os) = step_all (step s o) os

all-Sums : (s : SessionScore) (os : List Observation) → Sums s → Sums (step_all s os)
unfolding step_all
all-Sums s [] h = h
all-Sums s (o ∷ os) h = all-Sums (step s o) os (step-Sums s o h)

-- From a new session on, whatever scenes are observed: the wins of both players and the unresolved
-- matches add up to the number of matches counted, modulo 2 ^ 32.
pub wins_add_up : (enabled : Bool) (os : List Observation) → Sums (step_all (reset enabled) os)
unfolding reset
wins_add_up enabled os = all-Sums (reset enabled) os refl
