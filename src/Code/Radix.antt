-- ===== src/Code/Radix.antt =====
-- A number is written in one way only, without zeros in front.
use cccaster_ver_b.Prelude.{
  ℕ, zero, suc, ◌+◌, ◌*◌, ◌^◌, ◌/◌, ◌%◌, ◌≤◌, ◌<◌, ◌≡◌, List, [], ◌∷◌, length, ◌==◌, arith, refl,
  ap, ◌∙◌, sym, Bool-cases, inl, inr,
}
use native.Mathlib.Nat.{
  div-add-mod, add-mul-mod_self_left, mod-eq_of_lt, add-mul-div_left, div-eq_of_lt, pow-succ',
  pow-zero, mul-le-mul_left,
}
use cccaster_ver_b.Code.{spill, scale, convert}

abbrev pub value : ℕ → List ℕ → ℕ
value b [] = 0
value b (d ∷ ds) = d + b * value b ds

abbrev pub AllBelow : ℕ → List ℕ → Type 0
AllBelow b [] = Unit {0}
AllBelow b (d ∷ ds) = (d < b) × AllBelow b ds

-- The highest digit is not zero.
abbrev pub IsShort : List ℕ → Type 0
IsShort [] = Unit {0}
IsShort (d ∷ []) = 0 < d
IsShort (d ∷ e ∷ ds) = IsShort (e ∷ ds)

-- The places of another base, highest first.
abbrev pub horner : ℕ → ℕ → List ℕ → ℕ
horner f v [] = v
horner f v (x ∷ xs) = horner f (x + f * v) xs

module _ (b : ℕ) (two : 2 ≤ b) where
  split : (c : ℕ) → c % b + b * (c / b) ≡ c
  split c = grind (arith, div-add-mod)

  smaller : (c : ℕ) → 0 < c → c / b < c
  smaller c h = grind arith

  mod_below : (c : ℕ) → c % b < b
  mod_below c = grind arith

  value-spill : (n c : ℕ) → c ≤ n → value b (spill b n c) ≡ c
  unfolding spill
  value-spill zero c h = omega arith
  value-spill (suc n) c h = elim (Bool-cases (c == 0)) [
    | inl nothing ↦ rw nothing (ground arith)
    | inr more ↦
        let s = smaller c (ground arith) in rw (more, value-spill n (c / b) (omega arith)) (split c)
  ]

  value-scale : (f c : ℕ) (ds : List ℕ) → value b (scale f b c ds) ≡ c + f * value b ds
  unfolding scale
  value-scale f c [] = value-spill c c (omega arith) ∙ grind arith
  value-scale f c (d ∷ ds) =
      let c' = c + d * f in
      let e = value-scale f (c' / b) ds in let s = split c' in rw e (grind arith)

  spill-AllBelow : (n c : ℕ) → AllBelow b (spill b n c)
  unfolding spill
  spill-AllBelow zero c = tt
  spill-AllBelow (suc n) c = elim (Bool-cases (c == 0)) [
    | inl nothing ↦ rw nothing tt
    | inr more ↦ rw more (mod_below c, spill-AllBelow n (c / b))
  ]

  pub scale-AllBelow : (f c : ℕ) (ds : List ℕ) → AllBelow b (scale f b c ds)
  unfolding scale
  scale-AllBelow f c [] = spill-AllBelow c c
  scale-AllBelow f c (d ∷ ds) = (mod_below (c + d * f), scale-AllBelow f ((c + d * f) / b) ds)

  pub short_pos : (d : ℕ) (ds : List ℕ) → IsShort (d ∷ ds) → 0 < value b (d ∷ ds)
  short_pos d [] h = grind arith
  short_pos d (e ∷ ds) h = let r = short_pos e ds h in grind arith

  -- A digit in front of a short number, which is not zero itself if it stands alone.
  cons-IsShort : (x : ℕ) (xs : List ℕ) → IsShort xs → (value b xs ≡ 0 → 0 < x) → IsShort (x ∷ xs)
  cons-IsShort x [] h p = p refl
  cons-IsShort x (y ∷ ys) h p = h

  tail-IsShort : (d : ℕ) (ds : List ℕ) → IsShort (d ∷ ds) → IsShort ds
  tail-IsShort d [] h = tt
  tail-IsShort d (e ∷ ds) h = h

  last_digit : (c : ℕ) → 0 < c → c / b ≡ 0 → 0 < c % b
  last_digit c h z = let s = split c in let r = rw z at s in grind arith

  spill-IsShort : (n c : ℕ) → c ≤ n → IsShort (spill b n c)
  unfolding spill
  spill-IsShort zero c h = tt
  spill-IsShort (suc n) c h = elim (Bool-cases (c == 0)) [
    | inl nothing ↦ rw nothing tt
    | inr more ↦
        let s = smaller c (ground arith) in
        let v = value-spill n (c / b) (omega arith) in
        rw more (
          cons-IsShort (c % b) (spill b n (c / b)) (spill-IsShort n (c / b) (omega arith))
            (λ z. last_digit c (ground arith) (sym v ∙ z)))
  ]

  no_rest :
      (f c d : ℕ) (ds : List ℕ)
      → 0 < f
      → 0 < d + b * value b ds
      → (c + d * f) / b + f * value b ds ≡ 0
      → 0 < c + d * f
  no_rest f c d ds pf p z = let q : f * value b ds ≡ 0 = omega (arith, z) in grind arith

  pub scale-IsShort : (f c : ℕ) (ds : List ℕ) → 0 < f → IsShort ds → IsShort (scale f b c ds)
  unfolding scale
  scale-IsShort f c [] pf h = spill-IsShort c c (omega arith)
  scale-IsShort f c (d ∷ ds) pf h =
      let c' = c + d * f in
      let v = value-scale f (c' / b) ds in
      let p = short_pos d ds h in
      cons-IsShort (c' % b) (scale f b (c' / b) ds)
        (scale-IsShort f (c' / b) ds pf (tail-IsShort d ds h))
        (λ z.
          (let zero_sum : c' / b + f * value b ds ≡ 0 = sym v ∙ z in
            last_digit c' (no_rest f c d ds pf p zero_sum) (omega (arith, zero_sum))))

  digits_same : (x y u v : ℕ) → x < b → y < b → x + b * u ≡ y + b * v → (x ≡ y) × (u ≡ v)
  digits_same x y u v p q e =
      let r = ap (λ (t : ℕ). t % b) e in
      let w = ap (λ (t : ℕ). t / b) e in
      (
        grind (arith, add-mul-mod_self_left, mod-eq_of_lt),
        grind (arith, add-mul-div_left, div-eq_of_lt),
      )

  -- A number has one short form.
  pub unique :
      (xs ys : List ℕ)
      → AllBelow b xs
      → AllBelow b ys
      → IsShort xs
      → IsShort ys
      → value b xs ≡ value b ys
      → xs ≡ ys
  unique [] [] hx hy sx sy e = refl
  unique [] (y ∷ ys) hx hy sx sy e = let p = short_pos y ys sy in absurd (omega (arith, e))
  unique (x ∷ xs) [] hx hy sx sy e = let p = short_pos x xs sx in absurd (omega (arith, e))
  unique (x ∷ xs) (y ∷ ys) (hx, hxs) (hy, hys) sx sy e =
      let same = digits_same x y (value b xs) (value b ys) hx hy e in
      let rest = unique xs ys hxs hys (tail-IsShort x xs sx) (tail-IsShort y ys sy) same.1 in
      let head = same.0 in cc

  -- How large a number of so many digits is.
  pub value-lt : (ds : List ℕ) → AllBelow b ds → value b ds < b ^ length ds
  value-lt [] h = omega (arith, pow-zero b)
  value-lt (d ∷ ds) (h, hs) = let r = value-lt ds hs in grind (arith, pow-succ')

  pub value-ge : (d : ℕ) (ds : List ℕ) → IsShort (d ∷ ds) → b ^ length ds ≤ value b (d ∷ ds)
  value-ge d [] h = omega (arith, pow-zero b, h)
  value-ge d (e ∷ ds) h =
      let r = mul-le-mul_left b (value-ge e ds h) in omega (arith, pow-succ' b (length ds), r)

  pub value-convert :
      (f : ℕ) (ds xs : List ℕ) → value b (convert f b ds xs) ≡ horner f (value b ds) xs
  unfolding convert
  value-convert f ds [] = refl
  value-convert f ds (x ∷ xs) =
      value-convert f (scale f b x ds) xs ∙ ap (λ v. horner f v xs) (value-scale f x ds)

  pub convert-AllBelow : (f : ℕ) (ds xs : List ℕ) → AllBelow b ds → AllBelow b (convert f b ds xs)
  unfolding convert
  convert-AllBelow f ds [] h = h
  convert-AllBelow f ds (x ∷ xs) h = convert-AllBelow f (scale f b x ds) xs (scale-AllBelow f x ds)

  pub convert-IsShort : (f : ℕ) (ds xs : List ℕ) → 0 < f → IsShort ds → IsShort (convert f b ds xs)
  unfolding convert
  convert-IsShort f ds [] p h = h
  convert-IsShort f ds (x ∷ xs) p h =
      convert-IsShort f (scale f b x ds) xs p (scale-IsShort f x ds p h)
