-- ===== src/Peer/Admission/Tests.antt =====
-- Two requests that are answered, and a repeated one that is not.
use cccaster_ver_b.Prelude.{ℕ, ◌≤◌, refl, List, [], ◌∷◌, length, arith}
use cccaster_ver_b.Peer.Admission.{Admission, no_requests, admit}
use cccaster_ver_b.Peer.Admission.Rate.{Run, Spaced, begin, answer, refuse, answers-Spaced}

-- "0011223344556677" and "0011223344556678".
abbrev session : ℕ → List ℕ
session last = 48 ∷ 48 ∷ 49 ∷ 49 ∷ 50 ∷ 50 ∷ 51 ∷ 51 ∷ 52 ∷ 52 ∷ 53 ∷ 53 ∷ 54 ∷ 54 ∷ 55 ∷ last ∷ []

abbrev one : Admission
one = (admit no_requests (session 55) 1_000).1

abbrev two : Admission
two = (admit one (session 55) 1_030).1

abbrev three : Admission
three = (admit two (session 56) 1_070).1

run : Run three (1_000 ∷ 1_070 ∷ []) 1_070
unfolding admit cccaster_ver_b.Peer.Text.unhex cccaster_ver_b.Peer.Text.pairs
run =
    answer (session 56) 1_070
      (refuse (session 55) 1_030 (answer (session 55) 1_000 begin (omega arith) refl) (omega arith)
        refl)
      (omega arith) refl

answers-Spaced_example : Spaced (1_000 ∷ 1_070 ∷ []) × (length {A = ℕ} (1_000 ∷ 1_070 ∷ []) ≤ 20)
answers-Spaced_example = answers-Spaced three (1_000 ∷ 1_070 ∷ []) 1_070 run
