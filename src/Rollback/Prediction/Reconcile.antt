-- ===== src/Rollback/Prediction/Reconcile.antt =====
-- The rollback starts at the first frame that was run with a wrong input.
use cccaster_ver_b.Prelude.{
  ℕ, zero, suc, ◌+◌, ◌-◌, ◌≤◌, ◌<◌, ◌≡◌, ◌≢◌, ◌⊎◌, inl, inr, refl, true, Option, none, some, arith,
  Option-cases, ◌∙◌, ap, sym,
}
use native.Mathlib.Decide.{ℕ_discrete}
use cccaster_ver_b.Rollback.Prediction.Window.{IsRecorded}
use cccaster_ver_b.Rollback.Prediction.{
  PredictionHistory, entry_of, owns, history_frames, reconcile_from, reconcile, confirm_frame, mark,
}

abbrev Frames : PredictionHistory → ℕ → ℕ → Type 0
Frames h f rounds = (g : ℕ) → f ≤ g → g < f + rounds → owns (entry_of h g) g ≡ true

module _ (read : ℕ → Option ℕ) where
  -- From frame `f` on the confirmed values agree with what the frames were run with, up to (and
  -- not at) frame `g`.
  abbrev pub Agrees : PredictionHistory → ℕ → Type 0
  Agrees h g = read g ≡ some (entry_of h g).remote

  abbrev pub Differs : PredictionHistory → ℕ → Type 0
  Differs h g = (v : ℕ) × (read g ≡ some v) × ((entry_of h g).remote ≢ v)

  confirm_frame-later :
      (h : PredictionHistory) (f v g : ℕ)
      → f < g
      → g < f + history_frames
      → entry_of (confirm_frame read h f v) g ≡ entry_of h g
  confirm_frame-later h f v g a b = ground arith

  Frames-confirm :
      (h : PredictionHistory) (f rounds v : ℕ)
      → suc rounds ≤ history_frames
      → Frames h f (suc rounds)
      → Frames (confirm_frame read h f v) (f + 1) rounds
  Frames-confirm h f rounds v q w g a b =
      rw (confirm_frame-later h f v g (omega arith) (omega arith)) (w g (omega arith) (omega arith))

  -- A round with a confirmed value goes on with the next frame.
  round :
      (rounds f m v : ℕ) (h : PredictionHistory)
      → read f ≡ some v
      → Frames h f (suc rounds)
      → reconcile_from read (suc rounds) f m h
        ≡ reconcile_from read rounds (f + 1) (mark read h f v m) (confirm_frame read h f v)
  unfolding reconcile_from
  round rounds f m v h e w = rw (e, reconcile_from) (rw (w f (omega arith) (omega arith)) refl)

  last_round :
      (rounds f m : ℕ) (h : PredictionHistory)
      → read f ≡ none
      → reconcile_from read (suc rounds) f m h ≡ (m, h)
  unfolding reconcile_from
  last_round rounds f m h e = rw (e, reconcile_from)

  -- A mismatch that is found stays, and the confirmed frame does not go back.
  mismatch_kept :
      (rounds f m : ℕ) (h : PredictionHistory)
      → h.confirmed + 1 ≡ f
      → rounds ≤ history_frames
      → Frames h f rounds
      → (m ≢ 0 → (reconcile_from read rounds f m h).0 ≡ m)
        × (h.confirmed ≤ (reconcile_from read rounds f m h).1.confirmed)
        × ((reconcile_from read rounds f m h).1.confirmed ≤ h.confirmed + rounds)
  unfolding reconcile_from
  mismatch_kept zero f m h c q w = (λ p. refl, omega arith, omega arith)
  mismatch_kept (suc rounds) f m h c q w = elim (Option-cases (read f)) [
    | inl e ↦ rw (last_round rounds f m h e) (λ p. refl, omega arith, omega arith)
    | inr (v, e) ↦
        let ih =
          mismatch_kept rounds (f + 1) (mark read h f v m) (confirm_frame read h f v) (omega arith)
            (omega arith) (Frames-confirm h f rounds v q w) in
        rw (round rounds f m v h e w)
          (λ p. ground (arith, ih.0), omega (arith, ih.1), omega (arith, ih.2))
  ]

  -- What the loop has found when it stops at the confirmed frame `c`: no mismatch, or the first.
  abbrev pub First : PredictionHistory → ℕ → ℕ → ℕ → Type 0
  First h f m c =
      ((m ≡ 0) ⊎ ((f ≤ m) × (m ≤ c) × Differs h m))
      × ((g : ℕ) → f ≤ g → g ≤ c → (m ≡ 0) ⊎ (g < m) → Agrees h g)

  First-confirm :
      (h : PredictionHistory) (f v m c : ℕ)
      → read f ≡ some v
      → (entry_of h f).remote ≡ v
      → c < f + history_frames
      → First (confirm_frame read h f v) (f + 1) m c
      → First h f m c
  First-confirm h f v m c e same b (found, agree) = (
    elim found [
      | inl z ↦ inl z
      | inr (lo, hi, d) ↦
          let keep : entry_of (confirm_frame read h f v) m ≡ entry_of h m =
            confirm_frame-later h f v m (omega arith) (omega arith) in
          inr (omega arith, hi, (d.0, d.1, rw keep at d.2))
    ],
    λ g a d o. elim (ℕ_discrete g f) [
      | yes here ↦ rw here (e ∙ ap some (sym same))
      | no other ↦
          let keep : entry_of (confirm_frame read h f v) g ≡ entry_of h g =
            confirm_frame-later h f v g (omega arith) (omega arith) in
          rw keep at (agree g (omega arith) d o)
    ],
  )

  First-differs :
      (h : PredictionHistory) (f v c : ℕ)
      → read f ≡ some v
      → (entry_of h f).remote ≢ v
      → f ≤ c
      → 0 < f
      → First h f f c
  First-differs h f v c e other b p =
      (inr (omega arith, b, (v, e, other)), λ g a d o. absurd (omega arith))

  mark_same : (h : PredictionHistory) (f v : ℕ) → (entry_of h f).remote ≡ v → mark read h f v 0 ≡ 0
  mark_same h f v e = ground arith

  mark_other : (h : PredictionHistory) (f v : ℕ) → (entry_of h f).remote ≢ v → mark read h f v 0 ≡ f
  mark_other h f v e = ground arith

  loop_First :
      (rounds f : ℕ) (h : PredictionHistory)
      → h.confirmed + 1 ≡ f
      → rounds ≤ history_frames
      → Frames h f rounds
      → First h f
          (reconcile_from read rounds f 0 h).0
          (reconcile_from read rounds f 0 h).1.confirmed
  unfolding reconcile_from
  loop_First zero f h c q w = (inl refl, λ g a b o. absurd (omega arith))
  loop_First (suc rounds) f h c q w = elim (Option-cases (read f)) [
    | inl e ↦ rw (last_round rounds f 0 h e) (inl refl, λ g a b o. absurd (omega arith))
    | inr (v, e) ↦
        let w' = Frames-confirm h f rounds v q w in
        let h' = confirm_frame read h f v in
        elim (ℕ_discrete (entry_of h f).remote v) [
          | yes same ↦
              rw (round rounds f 0 v h e w, mark_same h f v same)
                (First-confirm h f v _ _ e same
                  (omega
                    (arith, (mismatch_kept rounds (f + 1) 0 h' (omega arith) (omega arith) w').2))
                  (loop_First rounds (f + 1) h' (omega arith) (omega arith) w'))
          | no other ↦
              let k = mismatch_kept rounds (f + 1) f h' (omega arith) (omega arith) w' in
              rw (round rounds f 0 v h e w, mark_other h f v other, k.0 (omega arith))
                (First-differs h f v _ e other (omega (arith, k.1)) (omega arith))
        ]
  ]

  reconcile-First :
      (h : PredictionHistory)
      → IsRecorded h
      → First h (h.confirmed + 1) (reconcile read h).0 (reconcile read h).1.confirmed
  unfolding reconcile
  reconcile-First h v =
      loop_First (h.next - (h.confirmed + 1)) (h.confirmed + 1) h refl (omega (arith, v.fits))
        (λ g a b. v.own g (omega arith) (omega (arith, v.ahead)))

  -- A frame that `Reconcile` confirms, before the mismatch that it reports or with none reported,
  -- was run with the confirmed input. The unconfirmed frames have their entries before.
  pub reconcile-Agrees :
      (h : PredictionHistory) (g : ℕ)
      → IsRecorded h
      → ((reconcile read h).0 ≡ 0) ⊎ (g < (reconcile read h).0)
      → h.confirmed < g
      → g ≤ (reconcile read h).1.confirmed
      → Agrees h g
  reconcile-Agrees h g v o a b = (reconcile-First h v).1 g (omega arith) b o

  owns-confirm :
      (h : PredictionHistory) (f v g : ℕ)
      → owns (entry_of h g) g ≡ true
      → owns (entry_of (confirm_frame read h f v) g) g ≡ true
  owns-confirm h f v g e = ground arith

  -- What the loop leaves alone.
  Keeps : PredictionHistory → PredictionHistory → Type 0
  Keeps h k =
      (k.next ≡ h.next) × ((g : ℕ) → owns (entry_of h g) g ≡ true → owns (entry_of k g) g ≡ true)

  loop_Keeps :
      (rounds f m : ℕ) (h : PredictionHistory)
      → rounds ≤ history_frames
      → Frames h f rounds
      → Keeps h (reconcile_from read rounds f m h).1
  unfolding Keeps reconcile_from
  loop_Keeps zero f m h q w = (refl, λ g e. e)
  loop_Keeps (suc rounds) f m h q w = elim (Option-cases (read f)) [
    | inl e ↦ rw (last_round rounds f m h e) (refl, λ g e. e)
    | inr (v, e) ↦
        let ih =
          loop_Keeps rounds (f + 1) (mark read h f v m) (confirm_frame read h f v) (omega arith)
            (Frames-confirm h f rounds v q w) in
        rw (round rounds f m v h e w) (ih.0, λ g o. ih.1 g (owns-confirm h f v g o))
  ]

  -- After `Reconcile` the unconfirmed frames still have their entries.
  pub reconcile-IsRecorded :
      (h : PredictionHistory) → IsRecorded h → IsRecorded (reconcile read h).1
  unfolding reconcile Keeps
  reconcile-IsRecorded h v =
      let w : Frames h (h.confirmed + 1) (h.next - (h.confirmed + 1)) =
        λ g a b. v.own g (omega arith) (omega (arith, v.ahead)) in
      let k =
        loop_Keeps (h.next - (h.confirmed + 1)) (h.confirmed + 1) 0 h (omega (arith, v.fits)) w in
      let c =
        mismatch_kept (h.next - (h.confirmed + 1)) (h.confirmed + 1) 0 h refl
          (omega (arith, v.fits)) w in
      record {
        ahead = omega (arith, k.0, c.1, c.2, v.ahead);
        fits = omega (arith, k.0, c.1, c.2, v.fits);
        own = λ g a b. k.1 g (v.own g (omega (arith, c.1)) (omega (arith, k.0)));
      }
