-- ===== src/Peer/Admission/Rate.antt =====
-- A host is not flooded: the rate of the requests that it answers.
use mathlib.Core.List.{append_assoc}
use cccaster_ver_b.Prelude.{
  ℕ, zero, suc, ◌+◌, ◌≤◌, ◌<◌, ◌≡◌, ◌⊎◌, inl, inr, true, false, Bool-cases, List, [], ◌∷◌, ◌++◌,
  some, length, length-append, get_elem?, arith, ap, sym, ◌∙◌, refl, leb,
}
use cccaster_ver_b.Peer.Admission.{Admission, no_requests, admit, recent}

-- The times of the requests that are answered in a run, in order. The clock does not run backwards.
pub data Run : Admission → List ℕ → ℕ → Type 0 where
  begin : Run no_requests [] 0
  refuse :
      {a : Admission} {answered : List ℕ} {last : ℕ} (session : List ℕ) (now : ℕ)
      → Run a answered last
      → last ≤ now
      → (admit a session now).0 ≡ false
      → Run (admit a session now).1 answered now
  answer :
      {a : Admission} {answered : List ℕ} {last : ℕ} (session : List ℕ) (now : ℕ)
      → Run a answered last
      → last ≤ now
      → (admit a session now).0 ≡ true
      → Run (admit a session now).1 (answered ++ (now ∷ [])) now

-- Of seven answers in a row, the last is a minute or more after the first.
abbrev pub Spaced : List ℕ → Type 0
Spaced answered =
    (i t u : ℕ) → get_elem? answered i ≡ some t → get_elem? answered (i + 6) ≡ some u → t + 60 ≤ u

abbrev Old : ℕ → List ℕ → Type 0
Old now [] = Unit {0}
Old now (t ∷ ts) = (t + 60 ≤ now) × Old now ts

Old-later : (last now : ℕ) (ts : List ℕ) → last ≤ now → Old last ts → Old now ts
Old-later last now [] h o = tt
Old-later last now (t ∷ ts) h o = (omega (arith, o.0), Old-later last now ts h o.1)

Old-append : (now : ℕ) (ts us : List ℕ) → Old now ts → Old now us → Old now (ts ++ us)
Old-append now [] us h k = k
Old-append now (t ∷ ts) us h k = (h.0, Old-append now ts us h.1 k)

Old-get : (now : ℕ) (ts : List ℕ) (i t : ℕ) → Old now ts → get_elem? ts i ≡ some t → t + 60 ≤ now
Old-get now [] i t h e = ground (arith, e)
Old-get now (x ∷ xs) zero t h e = ground (arith, e, h.0)
Old-get now (x ∷ xs) (suc i) t h e = Old-get now xs i t h.1 e

get_append_left : (xs ys : List ℕ) (i : ℕ) → i < length xs → get_elem? (xs ++ ys) i ≡ get_elem? xs i
get_append_left [] ys i h = absurd (omega (arith, h))
get_append_left (x ∷ xs) ys zero h = refl
get_append_left (x ∷ xs) ys (suc i) h = get_append_left xs ys i (omega (arith, h))

get-bound : (xs : List ℕ) (i t : ℕ) → get_elem? xs i ≡ some t → i < length xs
get-bound [] i t e = ground (arith, e)
get-bound (x ∷ xs) zero t e = omega arith
get-bound (x ∷ xs) (suc i) t e = omega (arith, get-bound xs i t e)

get_last : (xs : List ℕ) (v : ℕ) → get_elem? (xs ++ (v ∷ [])) (length xs) ≡ some v
get_last [] v = refl
get_last (x ∷ xs) v = get_last xs v

-- The loop drops times that are a minute old, from the front.
recent-split : (ts : List ℕ) (now : ℕ) → (old : List ℕ) × (ts ≡ old ++ recent ts now) × Old now old
recent-split [] now = ([], refl, tt)
recent-split (t ∷ ts) now = elim (Bool-cases (leb (t + 60) now)) [
  | inl e ↦
      let s = recent-split ts now in (t ∷ s.0, rw e (ap (λ r. t ∷ r) s.1), (ground (arith, e), s.2))
  | inr e ↦ ([], rw e refl, tt)
]

-- The entries of a list with one more at its end.
get-snoc :
    (xs : List ℕ) (v i u : ℕ)
    → get_elem? (xs ++ (v ∷ [])) i ≡ some u
    → (get_elem? xs i ≡ some u) ⊎ ((i ≡ length xs) × (u ≡ v))
get-snoc [] v zero u e = inr (refl, ground (arith, e))
get-snoc [] v (suc i) u e = ground (arith, e)
get-snoc (x ∷ xs) v zero u e = inl e
get-snoc (x ∷ xs) v (suc i) u e = elim (get-snoc xs v i u e) [
  | inl f ↦ inl f
  | inr f ↦ inr (ap suc f.0, f.1)
]

Spaced-next :
    (old new : List ℕ) (now : ℕ)
    → Spaced (old ++ new)
    → Old now old
    → length new ≤ 5
    → Spaced (old ++ new ++ (now ∷ []))
Spaced-next old new now s o h = λ i t u e f. elim (get-snoc (old ++ new) now (i + 6) u f) [
  | inl g ↦
      let b = get-bound (old ++ new) (i + 6) u g in
      s i t u (sym (get_append_left (old ++ new) (now ∷ []) i (omega (arith, b))) ∙ e) g
  | inr g ↦
      let i_old : i < length old = omega (arith, g.0, length-append old new, h) in
      let i_all : i < length (old ++ new) = omega (arith, length-append old new, i_old) in
      let below : t + 60 ≤ now = Old-get now old i t o (
        sym (get_append_left old new i i_old)
        ∙ sym (get_append_left (old ++ new) (now ∷ []) i i_all)
        ∙ e) in
      omega (arith, below, g.1)
]

record Inv (a : Admission) (answered : List ℕ) (last : ℕ) : Type 0 where
  old : List ℕ
  split : answered ≡ old ++ a.times
  is_old : Old last old
  spaced : Spaced answered
  counted : a.answers ≡ length answered
  few : a.answers ≤ 20

admit_answers :
    (a : Admission) (session : List ℕ) (now : ℕ)
    → (admit a session now).0 ≡ true
    → ((admit a session now).1.times ≡ recent a.times now ++ (now ∷ []))
      × ((admit a session now).1.answers ≡ suc a.answers)
      × (length (recent a.times now) ≤ 5)
      × (a.answers < 20)
unfolding admit
admit_answers a session now e = ground (arith, e)

admit_refuses :
    (a : Admission) (session : List ℕ) (now : ℕ)
    → (admit a session now).0 ≡ false
    → (((admit a session now).1.times ≡ a.times)
        ⊎ ((admit a session now).1.times ≡ recent a.times now))
      × ((admit a session now).1.answers ≡ a.answers)
unfolding admit
admit_refuses a session now e = ground (arith, e)

module _ (a : Admission) (answered : List ℕ) (last now : ℕ) (session : List ℕ) where
  -- Dropping the old times changes nothing of what is known.
  resplit :
      Inv a answered last
      → last ≤ now
      → (old : List ℕ) × (answered ≡ old ++ recent a.times now) × Old now old
  resplit v h =
      let r = recent-split a.times now in
      (
        v.old ++ r.0,
        v.split ∙ ap (λ ts. v.old ++ ts) r.1 ∙ sym (append_assoc v.old r.0 (recent a.times now)),
        Old-append now v.old r.0 (Old-later last now v.old h v.is_old) r.2,
      )

  Inv-answer :
      Inv a answered last
      → last ≤ now
      → (admit a session now).0 ≡ true
      → Inv (admit a session now).1 (answered ++ (now ∷ [])) now
  Inv-answer v h e =
      let r = resplit v h in
      let k = admit_answers a session now e in
      record {
        old = r.0;
        split =
            ap (λ ts. ts ++ (now ∷ [])) r.1
            ∙ append_assoc r.0 (recent a.times now) (now ∷ [])
            ∙ ap (λ ts. r.0 ++ ts) (sym k.0);
        is_old = r.2;
        spaced = rw r.1 (Spaced-next r.0 (recent a.times now) now (rw⁻¹ r.1 v.spaced) r.2 k.2);
        counted = omega (arith, k.1, v.counted, length-append answered (now ∷ []));
        few = omega (arith, k.1, k.3);
      }

  Inv-refuse :
      Inv a answered last
      → last ≤ now
      → (admit a session now).0 ≡ false
      → Inv (admit a session now).1 answered now
  Inv-refuse v h e =
      let k = admit_refuses a session now e in
      elim k.0 [
        | inl same ↦ record {
          old = v.old;
          split = v.split ∙ ap (λ ts. v.old ++ ts) (sym same);
          is_old = Old-later last now v.old h v.is_old;
          spaced = v.spaced;
          counted = k.1 ∙ v.counted;
          few = omega (arith, k.1, v.few);
        }
        | inr popped ↦
            let r = resplit v h in
            record {
              old = r.0;
              split = r.1 ∙ ap (λ ts. r.0 ++ ts) (sym popped);
              is_old = r.2;
              spaced = v.spaced;
              counted = k.1 ∙ v.counted;
              few = omega (arith, k.1, v.few);
            }
      ]

Inv-Run : {a : Admission} {answered : List ℕ} {last : ℕ} → Run a answered last → Inv a answered last
Inv-Run begin = record {
  old = [];
  split = refl;
  is_old = tt;
  spaced = λ i t u e f. ground (arith, e);
  counted = refl;
  few = omega arith;
}
Inv-Run (refuse {a} {answered} {last} session now r h e) =
    Inv-refuse a answered last now session (Inv-Run r) h e
Inv-Run (answer {a} {answered} {last} session now r h e) =
    Inv-answer a answered last now session (Inv-Run r) h e

-- Whatever requests arrive, as long as the clock does not run backwards: at most twenty are
-- answered, and of seven answers in a row the last comes a minute or more after the first.
pub answers-Spaced :
    (a : Admission) (answered : List ℕ) (last : ℕ)
    → Run a answered last
    → Spaced answered × (length answered ≤ 20)
answers-Spaced a answered last r = let v = Inv-Run r in (v.spaced, omega (arith, v.counted, v.few))
