-- ===== src/Timing/Projection/Deadline.antt =====
-- The deadline that the search finds is one where the clock passes the target.
use cccaster_ver_b.Prelude.{
  ℕ, zero, suc, ◌+◌, ◌*◌, ◌^◌, ◌≡◌, ◌⊎◌, inl, inr, refl, true, false, Bool-cases, arith, ap, ◌∙◌,
}
use cccaster_ver_b.Prelude.Int.{
  ℤ, pos, ◌+ℤ◌, ◌-ℤ◌, ◌*ℤ◌, ◌≤ℤ◌, ◌<ℤ◌, div_ℤ, ltb_ℤ, int_laws, div_ℤ_parts, ltb_ℤ→lt, eq_of_parts,
  pos_part, neg_part, leb_ℤ, mul_pos_parts,
}
use cccaster_ver_b.Timing.Projection.Rate.{
  Steady, one_sign, at_ticks-scaled, at_ticks-raw, scaled-progress, zero_or_not, ahead,
}
use cccaster_ver_b.Timing.Projection.{ClockAnchor, at_ticks, search_tick, deadline_ticks, scaled}

-- The clock reaches the target at `r`, and has not reached it a tick before, unless `r` is `now`.
abbrev pub Crosses : ClockAnchor → (target now r : ℤ) → Type 0
Crosses c target now r =
    (target ≤ℤ at_ticks c r) × ((r ≡ now) ⊎ (at_ticks c (r -ℤ pos 1) <ℤ target))

abbrev middle : ℤ → ℤ → ℤ
middle low high = low +ℤ div_ℤ (high -ℤ low) 2

back : (a : ℤ) → a +ℤ pos 1 -ℤ pos 1 ≡ a
back a = omega int_laws

-- Both halves are half as long.
halfway :
    (low high : ℤ) (rounds : ℕ)
    → low <ℤ high
    → (high <ℤ low +ℤ pos (2 ^ suc rounds))
    → (low ≤ℤ middle low high)
      × (middle low high +ℤ pos 1 ≤ℤ high)
      × (middle low high <ℤ low +ℤ pos (2 ^ rounds))
      × (high <ℤ middle low high +ℤ pos 1 +ℤ pos (2 ^ rounds))
halfway low high rounds o d =
    let double : 2 ^ suc rounds ≡ 2 ^ rounds + 2 ^ rounds = omega arith in
    omega (double, int_laws, o, d, div_ℤ_parts (high -ℤ low) 2, one_sign (high -ℤ low))

module _ (c : ClockAnchor) (target now : ℤ) where
  -- The loop keeps the target between its bounds, and halves their distance.
  search_tick-Crosses :
      (rounds : ℕ) (low high : ℤ)
      → low ≤ℤ high
      → (high <ℤ low +ℤ pos (2 ^ rounds))
      → target ≤ℤ at_ticks c high
      → (low ≡ now) ⊎ (at_ticks c (low -ℤ pos 1) <ℤ target)
      → Crosses c target now (search_tick c target rounds low high)
  unfolding search_tick
  search_tick-Crosses zero low high o d t b =
      let same : high ≡ low = eq_of_parts high low (omega (int_laws, o, d)) in (rw⁻¹ same t, b)
  search_tick-Crosses (suc rounds) low high o d t b = elim (Bool-cases (ltb_ℤ low high)) [
    | inr e ↦
        let same : high ≡ low = eq_of_parts high low (ground (arith, o, e)) in rw e (rw⁻¹ same t, b)
    | inl e ↦
        let m = halfway low high rounds (ltb_ℤ→lt low high e) d in
        elim (Bool-cases (ltb_ℤ (at_ticks c (middle low high)) target)) [
          | inl u ↦
              rw (e, u)
                (search_tick-Crosses rounds (middle low high +ℤ pos 1) high m.1 m.3 t (
                  inr (
                    rw (back (middle low high))
                      (ltb_ℤ→lt (at_ticks c (middle low high)) target u))))
          | inr u ↦
              rw (e, u)
                (search_tick-Crosses rounds low (middle low high) m.0 m.2 (ground (arith, u)) b)
        ]
  ]

caught_up : (t a : ℤ) → leb_ℤ (t -ℤ a) (pos 0) ≡ true → t ≤ℤ a
caught_up t a e = let h : t -ℤ a ≤ℤ pos 0 = ground (arith, e) in omega (int_laws, h)

to_go : (r : ℤ) → leb_ℤ r (pos 0) ≡ false → pos 0 ≤ℤ r
to_go r e = ground (arith, e)

search_range : (now r : ℤ) → pos 0 ≤ℤ r → now ≤ℤ now +ℤ r *ℤ pos 2 +ℤ pos 4
search_range now r h = omega (int_laws, h, mul_pos_parts r 2)

search_length :
    (now r : ℤ) (n : ℕ)
    → (r *ℤ pos 2 +ℤ pos 4 <ℤ pos n)
    → (now +ℤ r *ℤ pos 2 +ℤ pos 4 <ℤ now +ℤ pos n)
search_length now r n h = omega (int_laws, h)

-- The upper bound of the search reaches the target.
high_reaches :
    (c : ClockAnchor) (target now : ℤ)
    → Steady c
    → c.qpc ≤ℤ now
    → pos 0 ≤ℤ target -ℤ at_ticks c now
    → target ≤ℤ at_ticks c (now +ℤ (target -ℤ at_ticks c now) *ℤ pos 2 +ℤ pos 4)
high_reaches c target now h o r =
    let rest = target -ℤ at_ticks c now in
    let high = now +ℤ rest *ℤ pos 2 +ℤ pos 4 in
    elim (zero_or_not c.qpc) [
      | inl z ↦ omega (
        int_laws,
        mul_pos_parts rest 2,
        r,
        ap pos_part (at_ticks-raw c now z),
        ap neg_part (at_ticks-raw c now z),
        ap pos_part (at_ticks-raw c high z),
        ap neg_part (at_ticks-raw c high z),
      )
      | inr z ↦
          let start : at_ticks c now ≡ scaled c (pos (pos_part (now -ℤ c.qpc))) =
            at_ticks-scaled c now z in
          let end : at_ticks c high
              ≡ scaled c (pos (pos_part (now -ℤ c.qpc) + (2 * pos_part rest + 4))) =
            at_ticks-scaled c high z ∙ ap (λ n. scaled c (pos n)) (ahead now c.qpc rest o r) in
          let more = scaled-progress c (pos_part (now -ℤ c.qpc)) (pos_part rest) h in
          omega (
            int_laws,
            more,
            r,
            one_sign rest,
            ap pos_part start,
            ap neg_part start,
            ap pos_part end,
            ap neg_part end,
          )
    ]

-- A clock with a rate and a rest in their ranges, asked at a time that is not before its
-- measurement, and with rounds enough to halve the range of the search: the deadline is one where
-- the clock passes the target.
pub deadline_ticks-Crosses :
    (c : ClockAnchor) (rounds : ℕ) (target now : ℤ)
    → Steady c
    → c.qpc ≤ℤ now
    → ((target -ℤ at_ticks c now) *ℤ pos 2 +ℤ pos 4 <ℤ pos (2 ^ rounds))
    → Crosses c target now (deadline_ticks c rounds target now)
unfolding deadline_ticks
deadline_ticks-Crosses c rounds target now h o n =
    elim (Bool-cases (leb_ℤ (target -ℤ at_ticks c now) (pos 0))) [
      | inl e ↦ rw e (caught_up target (at_ticks c now) e, inl refl)
      | inr e ↦
          let r = to_go (target -ℤ at_ticks c now) e in
          rw e (
            search_tick-Crosses c target now rounds now _
              (search_range now (target -ℤ at_ticks c now) r)
              (search_length now (target -ℤ at_ticks c now) (2 ^ rounds) n)
              (high_reaches c target now h o r) (inl refl))
    ]
