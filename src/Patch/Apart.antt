-- ===== src/Patch/Apart.antt =====
-- Specifications that pass the check do not overlap.
use cccaster_ver_b.Prelude.{
  ℕ, ◌+◌, ◌≤◌, ◌<◌, ◌≡◌, ◌⊎◌, inl, inr, false, ltb, List, [], ◌∷◌, length, arith, Bool-cases,
}
use cccaster_ver_b.Prelude.Words.{u32_mod}
use cccaster_ver_b.Patch.Memory.{MemoryCalls}
use cccaster_ver_b.Patch.{
  Result, Spec, Checked, refused, saved, overlaps, any_overlap, is_bad, check_bytes, keep, check,
}

-- The bytes that are replaced, and the expected ones, end before the end of the address space.
abbrev pub IsFine : Spec → Type 0
IsFine s = (s.address + length s.expected < u32_mod) × (length s.replacement ≤ length s.expected)

abbrev pub IsApart : Spec → Spec → Type 0
IsApart s r =
    (s.address + length s.replacement ≤ r.address) ⊎ (r.address + length r.replacement ≤ s.address)

abbrev pub ApartFrom : Spec → List Spec → Type 0
ApartFrom s [] = Unit {0}
ApartFrom s (r ∷ rs) = IsApart s r × ApartFrom s rs

-- Each is apart from those before it.
abbrev pub AllApart : List Spec → List Spec → Type 0
AllApart before [] = Unit {0}
AllApart before (s ∷ specs) = ApartFrom s before × AllApart (s ∷ before) specs

abbrev AllFine : List Spec → Type 0
AllFine [] = Unit {0}
AllFine (s ∷ specs) = IsFine s × AllFine specs

abbrev pub AllWords : List Spec → Type 0
AllWords [] = Unit {0}
AllWords (s ∷ specs) = (s.address < u32_mod) × AllWords specs

overlaps-IsApart : (s r : Spec) → IsFine s → IsFine r → overlaps s r ≡ false → IsApart s r
unfolding overlaps
overlaps-IsApart s r f g h = elim (Bool-cases (ltb s.address (r.address + length r.expected))) [
  | inl before ↦ inl (ground arith)
  | inr after ↦ inr (ground arith)
]

any_overlap-ApartFrom :
    (s : Spec) (rs : List Spec) → IsFine s → AllFine rs → any_overlap s rs ≡ false → ApartFrom s rs
unfolding any_overlap
any_overlap-ApartFrom s [] f g h = tt
any_overlap-ApartFrom s (r ∷ rs) f (g, gs) h =
    (overlaps-IsApart s r f g (ground arith), any_overlap-ApartFrom s rs f gs (ground arith))

module _ {M : Type 0} (calls : MemoryCalls M) where
  abbrev pub ApartIf : List Spec → List Spec → Checked → Type 0
  ApartIf before specs (refused r) = Unit {0}
  ApartIf before specs (saved todo) = AllApart before specs

  fine : (m : M) (s : Spec) → s.address < u32_mod → is_bad calls m s ≡ false → IsFine s
  unfolding is_bad
  fine m s w h = ground arith

  keep-ApartIf :
      (before : List Spec) (s : Spec) (specs : List Spec) (read : List ℕ ⊎ Result) (rest : Checked)
      → ApartFrom s before
      → ApartIf (s ∷ before) specs rest
      → ApartIf before (s ∷ specs) (keep calls s read rest)
  unfolding keep
  keep-ApartIf before s specs (inr r) rest a p = tt
  keep-ApartIf before s specs (inl bytes) (refused r) a p = tt
  keep-ApartIf before s specs (inl bytes) (saved todo) a p = (a, p)

  pub check-ApartIf :
      (m : M) (before specs : List Spec)
      → AllWords specs
      → AllFine before
      → ApartIf before specs (check calls m before specs)
  unfolding check
  check-ApartIf m before [] w f = tt
  check-ApartIf m before (s ∷ specs) (w, ws) f = elim (Bool-cases (is_bad calls m s)) [
    | inl bad ↦ rw bad tt
    | inr good ↦ elim (Bool-cases (any_overlap s before)) [
      | inl clash ↦ rw (good, clash) tt
      | inr apart ↦
          let g = fine m s w good in
          let a = any_overlap-ApartFrom s before g f apart in
          let rest = check-ApartIf m (s ∷ before) specs ws (g, f) in
          rw (good, apart)
            (keep-ApartIf before s specs (check_bytes calls m s) (check calls m (s ∷ before) specs)
              a rest)
    ]
  ]
