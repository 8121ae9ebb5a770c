-- ===== src/Timing/Cadence/Exact.antt =====
-- No fraction of a tick is ever lost.
use cccaster_ver_b.Prelude.{ℕ, ◌*◌, ◌≡◌, List, [], ◌∷◌, max, ◌∙◌, ap}
use cccaster_ver_b.Prelude.Int.{
  ℤ, pos, pos_part, neg_part, ◌+ℤ◌, ◌*ℤ◌, div_ℤ, mod_ℤ, div-mod_ℤ, add_mul_ℤ, int_laws,
}
use cccaster_ver_b.Timing.Cadence.{FrameCadence, advance_corrected, clock_frame, clock_parts}

-- The deadline in parts of which `denominator` make a tick.
abbrev pub position : FrameCadence → ℕ → ℤ
position c denominator = c.next *ℤ pos denominator +ℤ c.parts

pub advance_all : FrameCadence → List ℤ → ℕ → FrameCadence
advance_all c [] scale = c
advance_all c (correction ∷ rest) scale =
    advance_all (advance_corrected c correction scale) rest scale

abbrev pub total : List ℤ → ℤ
total [] = pos 0
total (correction ∷ rest) = pos (clock_frame * clock_parts) +ℤ correction +ℤ total rest

regroup : (a b c d e : ℤ) → b +ℤ c ≡ d +ℤ e → a +ℤ b +ℤ c ≡ a +ℤ d +ℤ e
regroup a b c d e h = omega (int_laws, ap pos_part h, ap neg_part h)

advance-position :
    (c : FrameCadence) (k : ℤ) (scale : ℕ)
    → position (advance_corrected c k scale) (clock_parts * max 1 scale)
      ≡ position c (clock_parts * max 1 scale) +ℤ (pos (clock_frame * clock_parts) +ℤ k)
unfolding advance_corrected
advance-position c k scale =
    let d = clock_parts * max 1 scale in
    let p = c.parts +ℤ (pos (clock_frame * clock_parts) +ℤ k) in
    rw (add_mul_ℤ c.next (div_ℤ p d) d) (
      regroup (c.next *ℤ pos d) (div_ℤ p d *ℤ pos d) (mod_ℤ p d) c.parts
        (pos (clock_frame * clock_parts) +ℤ k) (div-mod_ℤ p d))

+ℤ_zero : (a : ℤ) → a ≡ a +ℤ pos 0
+ℤ_zero a = omega int_laws

+ℤ_assoc : (a b c : ℤ) → a +ℤ b +ℤ c ≡ a +ℤ (b +ℤ c)
+ℤ_assoc a b c = omega int_laws

-- Over any run of frames with any corrections, the deadline with its carried fraction moves by
-- exactly the sum of the corrected frame lengths: rounding never accumulates.
pub advance_all-position :
    (c : FrameCadence) (corrections : List ℤ) (scale : ℕ)
    → position (advance_all c corrections scale) (clock_parts * max 1 scale)
      ≡ position c (clock_parts * max 1 scale) +ℤ total corrections
unfolding advance_all
advance_all-position c [] scale = +ℤ_zero (position c (clock_parts * max 1 scale))
advance_all-position c (k ∷ rest) scale =
    advance_all-position (advance_corrected c k scale) rest scale
    ∙ ap (λ t. t +ℤ total rest) (advance-position c k scale)
    ∙ +ℤ_assoc (position c (clock_parts * max 1 scale)) _ (total rest)
