-- ===== src/Patch/Rollback.antt =====
-- A patch that fails leaves the bytes as they were.
use cccaster_ver_b.Prelude.{
  ℕ, zero, suc, ◌+◌, ◌≤◌, ◌<◌, ◌≡◌, ◌⊎◌, inl, inr, Bool, true, false, not, ◌||◌, ◌==◌, ltb, List,
  [], ◌∷◌, length, take, refl, ap, ◌∙◌, arith, Bool-cases, Option-cases, if_cases,
}
use cccaster_ver_b.Patch.Memory.{MemoryCalls, Laws, slice, Outside}
use cccaster_ver_b.Patch.{Spec, Saved, write_bytes, put, put_back, restore_one, restore_all}

-- Slices of the memory.
length-slice : (c : ℕ → ℕ) (a n : ℕ) → length (slice c a n) ≡ n
length-slice c a zero = refl
length-slice c a (suc n) = ap suc (length-slice c (a + 1) n)

take-slice : (k n : ℕ) (c : ℕ → ℕ) (a : ℕ) → k ≤ n → take k (slice c a n) ≡ slice c a k
take-slice zero n c a h = refl
take-slice (suc k) zero c a h = absurd (omega arith)
take-slice (suc k) (suc n) c a h = ap (λ xs. c a ∷ xs) (take-slice k n c (a + 1) (omega arith))

pub slice_point :
    (n : ℕ) (c d : ℕ → ℕ) (a x : ℕ) → slice c a n ≡ slice d a n → a ≤ x → x < a + n → c x ≡ d x
slice_point zero c d a x e h k = absurd (omega arith)
slice_point (suc n) c d a x e h k = elim (Bool-cases (a == x)) [
  | inl here ↦ (let q : a ≡ x = ground arith in let p : c a ≡ d a = cc in rw (← q) p)
  | inr later ↦
      (let t : slice c (a + 1) n ≡ slice d (a + 1) n = cc in
        slice_point n c d (a + 1) x t (ground arith) (omega arith))
]

pub where_is : (x a n : ℕ) → Outside x a n ⊎ ((a ≤ x) × (x < a + n))
where_is x a n = elim (Bool-cases (ltb x a)) [
  | inl below ↦ inl (inl (ground arith))
  | inr from ↦ elim (Bool-cases (ltb x (a + n))) [
    | inl within ↦ inr (ground arith, ground arith)
    | inr above ↦ inl (inr (ground arith))
  ]
]

all_well : (a b d : Bool) → (not a || not b || not d) ≡ false → a ≡ true
all_well a b d h = ground arith

-- The bytes that a specification replaces.
abbrev pub Untouched : ℕ → Spec → Type 0
Untouched x s = Outside x s.address (length s.replacement)

abbrev pub AllUntouched : ℕ → List Saved → Type 0
AllUntouched x [] = Unit {0}
AllUntouched x (t ∷ ts) = Untouched x t.spec × AllUntouched x ts

-- What was saved are the bytes of `c`, at least as many as are replaced.
abbrev pub IsSaved : (ℕ → ℕ) → Saved → Type 0
IsSaved c t =
    (t.bytes ≡ slice c t.spec.address (length t.spec.expected))
    × (length t.spec.replacement ≤ length t.spec.expected)

abbrev pub AllSaved : (ℕ → ℕ) → List Saved → Type 0
AllSaved c [] = Unit {0}
AllSaved c (t ∷ ts) = IsSaved c t × AllSaved c ts

module _ {M : Type 0} (calls : MemoryCalls M) (content : M → ℕ → ℕ)
    (laws : Laws calls content) where
  write_bytes_memory :
      (m : M) (s : Spec) → (write_bytes calls m s).1 ≡ (calls.write m s.address s.replacement).1
  unfolding write_bytes
  write_bytes_memory m s = elim (Bool-cases (calls.write m s.address s.replacement).0) [
    | inr bad ↦ rw bad refl
    | inl done ↦
        (let m' = (calls.write m s.address s.replacement).1 in
          elim (Option-cases (calls.read m' s.address (length s.replacement))) [
            | inl nothing ↦ rw (done, nothing) refl
            | inr (bytes, some_bytes) ↦ rw (done, some_bytes) refl
          ])
  ]

  pub put_other :
      (m : M) (s : Spec) (p x : ℕ) → Untouched x s → content (put calls m s p).1 x ≡ content m x
  unfolding put write_bytes
  put_other m s p x h =
      let size = length s.replacement in
      let m1 = (write_bytes calls m s).1 in
      let m2 = (calls.restore_protection m1 s.address size p).1 in
      let written : content m1 x ≡ content m x =
        rw (write_bytes_memory m s) (laws.write_other m s.address s.replacement x h) in
      let protected : content m2 x ≡ content m x =
        laws.protect_bytes m1 s.address size p x ∙ written in
      elim (Bool-cases s.executable) [
        | inl code ↦ rw code (laws.flush_bytes m2 s.address size x ∙ protected)
        | inr plain ↦ rw plain protected
      ]

  -- Writing the old bytes back.
  abbrev old_of : Saved → List ℕ
  old_of t = take (length t.spec.replacement) t.bytes

  length-old :
      (c : ℕ → ℕ) (t : Saved)
      → IsSaved c t
      → old_of t ≡ slice c t.spec.address (length t.spec.replacement)
  length-old c t (e, h) =
      ap (take (length t.spec.replacement)) e
      ∙ take-slice (length t.spec.replacement) (length t.spec.expected) c t.spec.address h

  -- The memory after the bytes were written, or after the page could not be opened.
  put_back_memory :
      (m : M) (t : Saved)
      → let m1 =
          (calls.make_writable m t.spec.address (length t.spec.replacement) t.spec.executable).2 in
        let done = calls.write m1 t.spec.address (old_of t) in
        (((put_back calls m t).0 ≡ false) × ((put_back calls m t).1 ≡ m1))
        ⊎ (((put_back calls m t).1 ≡ done.1) × ((put_back calls m t).0 ≡ true → done.0 ≡ true))
  unfolding put_back
  put_back_memory m t =
      let size = length t.spec.replacement in
      let opened = calls.make_writable m t.spec.address size t.spec.executable in
      let done = calls.write opened.2 t.spec.address (old_of t) in
      elim (Bool-cases opened.0) [
        | inr shut ↦ inl (rw shut refl, rw shut refl)
        | inl can ↦ elim (Option-cases (calls.read done.1 t.spec.address size)) [
          | inl nothing ↦ inr (rw (can, nothing) refl, rw (can, nothing) (λ h. cc))
          | inr (bytes, some_bytes) ↦
              inr (rw (can, some_bytes) refl, rw (can, some_bytes) (λ h. ground arith))
        ]
      ]

  -- After the old bytes are back, a byte is the old one if it was replaced, or else as before.
  put_back_lem :
      (c : ℕ → ℕ) (m : M) (t : Saved) (x : ℕ)
      → IsSaved c t
      → (put_back calls m t).0 ≡ true
      → (content (put_back calls m t).1 x ≡ c x)
        ⊎ (Untouched x t.spec × (content (put_back calls m t).1 x ≡ content m x))
  put_back_lem c m t x s ok =
      let size = length t.spec.replacement in
      let a = t.spec.address in
      let m1 = (calls.make_writable m a size t.spec.executable).2 in
      let old = length-old c t s in
      let long : length (old_of t) ≡ size = ap length old ∙ length-slice c a size in
      elim (put_back_memory m t) [
        | inl (shut, _) ↦ cc
        | inr (same, wrote) ↦ elim (where_is x a size) [
          | inl out ↦
              let kept = laws.write_other m1 a (old_of t) x (rw long out) in
              inr (out, rw same (kept ∙ laws.writable_bytes m a size t.spec.executable x))
          | inr (from, below) ↦
              let own = laws.write_own m1 a (old_of t) (wrote ok) in
              let whole = rw long at own in
              inl (rw same (slice_point size _ c a x (whole ∙ old) from below))
        ]
      ]

  -- Protection and cache do not matter to the bytes.
  restore_one_lem :
      (m : M) (t : Saved) (x : ℕ)
      → (restore_one calls m t).0 ≡ false
      → ((put_back calls m t).0 ≡ true)
        × (content (restore_one calls m t).1 x ≡ content (put_back calls m t).1 x)
  unfolding restore_one
  restore_one_lem m t x h =
      let size = length t.spec.replacement in
      let a = t.spec.address in
      let m1 = (put_back calls m t).1 in
      let m2 = (calls.restore_protection m1 a size t.protection).1 in
      let last =
        if_cases (λ (r : Bool × M). content r.1 x ≡ content m2 x) t.spec.executable
          {s = calls.flush m2 a size} {t = (true, m2)} (laws.flush_bytes m2 a size x) refl in
      (all_well (put_back calls m t).0 _ _ h, last ∙ laws.protect_bytes m1 a size t.protection x)

  -- If nothing fails, all touched bytes are the old ones.
  pub restore_all_lem :
      (c : ℕ → ℕ) (ts : List Saved) (m : M) (x : ℕ)
      → AllSaved c ts
      → (AllUntouched x ts → content m x ≡ c x)
      → (restore_all calls m ts).0 ≡ false
      → content (restore_all calls m ts).1 x ≡ c x
  unfolding restore_all
  restore_all_lem c [] m x s same h = same tt
  restore_all_lem c (t ∷ ts) m x (s, ss) same h =
      let one = restore_one_lem m t x (ground arith) in
      let m1 = (restore_one calls m t).1 in
      restore_all_lem c ts m1 x ss
        (λ rest. elim (put_back_lem c m t x s one.0) [
          | inl old ↦ one.1 ∙ old
          | inr (out, kept) ↦ one.1 ∙ kept ∙ same (out, rest)
        ])
        (ground arith)
