-- ===== src/Peer/Admission.antt =====
-- src/src/p2p/Protocol.cpp, `Admission`: how many requests of strangers a host answers.
-- `now` is in seconds since 1970. A request that comes is pushed at the end of `times`.
pub mod Rate
mod Tests
use cccaster_ver_b.Prelude.{
  ℕ, suc, Bool, true, false, ◌+◌, not, ◌&&◌, ◌||◌, List, [], ◌∷◌, ◌++◌, length, leb, ◌==◌,
  if◌then◌else◌,
}
use cccaster_ver_b.Peer.Text.{unhex}

pub record Admission : Type 0 where
  pub seen : List (List ℕ)
  pub times : List ℕ
  pub answers : ℕ

abbrev pub no_requests : Admission
no_requests = record { seen = []; times = []; answers = 0 }

abbrev pub same_text : List ℕ → List ℕ → Bool
same_text [] [] = true
same_text [] (y ∷ ys) = false
same_text (x ∷ xs) [] = false
same_text (x ∷ xs) (y ∷ ys) = x == y && same_text xs ys

abbrev pub has_seen : List (List ℕ) → List ℕ → Bool
has_seen [] session = false
has_seen (s ∷ ss) session = same_text s session || has_seen ss session

-- The loop that drops the times of a minute ago and earlier from the front.
abbrev pub recent : List ℕ → ℕ → List ℕ
recent [] now = []
recent (t ∷ ts) now = let rest = recent ts now in if leb (t + 60) now then rest else t ∷ ts

abbrev pub refused : Admission → List ℕ → Bool
refused a session = not (length (unhex session) == 8) || has_seen a.seen session || leb 20 a.answers

unfoldable pub admit : Admission → List ℕ → ℕ → Bool × Admission
admit a session now =
    if refused a session
    then (false, a)
    else (let times = recent a.times now in
        if leb 6 (length times) then (false, record a { times = times }) else (
          true,
          record { seen = session ∷ a.seen; times = times ++ (now ∷ []); answers = suc a.answers },
        ))
