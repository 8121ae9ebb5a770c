-- ===== src/Patch/Done.antt =====
-- A patch that succeeds.
use cccaster_ver_b.Prelude.{
  ℕ, zero, suc, ◌+◌, ◌≤◌, ◌<◌, ◌≡◌, inl, inr, Bool, true, false, not, ◌&&◌, List, [], ◌∷◌, length,
  refl, ◌∙◌, arith, Bool-cases, Option-cases, if_split, map,
}
use mathlib.Core.Path.{fun_ext}
use cccaster_ver_b.Patch.Memory.{MemoryCalls, Laws, slice}
use cccaster_ver_b.Patch.{
  restore, is_ok, Result, Spec, Saved, Checked, refused, saved, failure, check, write_bytes,
  first_error, put, install, finish, carry_out, apply,
}
use cccaster_ver_b.Patch.Rollback.{Untouched, put_other}
use cccaster_ver_b.Patch.Apart.{IsApart, ApartFrom, AllApart, AllWords, ApartIf, check-ApartIf}
use cccaster_ver_b.Patch.Failed.{IsPassed, check-IsPassed, finish_ok, finish_failed}

-- The replacement stands there.
abbrev pub Holds : (ℕ → ℕ) → Spec → Type 0
Holds c s = slice c s.address (length s.replacement) ≡ s.replacement

abbrev pub AllHold : (ℕ → ℕ) → List Spec → Type 0
AllHold c [] = Unit {0}
AllHold c (s ∷ specs) = Holds c s × AllHold c specs

abbrev pub NoneTouches : ℕ → List Spec → Type 0
NoneTouches x [] = Unit {0}
NoneTouches x (s ∷ specs) = Untouched x s × NoneTouches x specs

pub slice_same :
    (n : ℕ) (c d : ℕ → ℕ) (a : ℕ)
    → ((x : ℕ) → a ≤ x → x < a + n → c x ≡ d x)
    → slice c a n ≡ slice d a n
slice_same zero c d a h = refl
slice_same (suc n) c d a h =
    let head = h a (omega arith) (omega arith) in
    let tail = slice_same n c d (a + 1) (λ x p q. h x (omega arith) (omega arith)) in cc

both_ok :
    (r e : Result) (done : Bool)
    → is_ok e.error ≡ false
    → is_ok (first_error r done e).error ≡ true
    → is_ok r.error ≡ true
unfolding first_error
both_ok r e done bad h = elim (Bool-cases (not done && is_ok r.error)) [
  | inl failed ↦ (let wrong = rw failed at h in cc)
  | inr fine ↦ rw fine at h
]

abbrev specs_of : List Saved → List Spec
specs_of ts = map (λ (t : Saved). t.spec) ts

outside :
    (s r : Spec)
    → IsApart s r
    → (x : ℕ) → r.address ≤ x
    → x < r.address + length r.replacement
    → Untouched x s
outside s r (inl before) x from below = inr (omega arith)
outside s r (inr after) x from below = inl (omega arith)

module _ {M : Type 0} (calls : MemoryCalls M) (content : M → ℕ → ℕ)
    (laws : Laws calls content) where
  write_bytes-Holds :
      (m : M) (s : Spec)
      → is_ok (write_bytes calls m s).0.error ≡ true
      → Holds (content (write_bytes calls m s).1) s
  unfolding write_bytes failure
  write_bytes-Holds m s h = elim (Bool-cases (calls.write m s.address s.replacement).0) [
    | inr bad ↦ (let wrong = rw bad at h in cc)
    | inl done ↦
        (let m' = (calls.write m s.address s.replacement).1 in
          let own = laws.write_own m s.address s.replacement done in
          elim (Option-cases (calls.read m' s.address (length s.replacement))) [
            | inl nothing ↦ rw (done, nothing) own
            | inr (bytes, some_bytes) ↦ rw (done, some_bytes) own
          ])
  ]

  put-Holds :
      (m : M) (s : Spec) (p : ℕ)
      → is_ok (put calls m s p).0.error ≡ true
      → Holds (content (put calls m s p).1) s
  unfolding put write_bytes failure first_error
  put-Holds m s p h =
      let size = length s.replacement in
      let w = write_bytes calls m s in
      let m1 = w.1 in
      let back = calls.restore_protection m1 s.address size p in
      let m2 = back.1 in
      let r' = first_error w.0 back.0 (failure calls m2 s restore) in
      let one = fun_ext (laws.protect_bytes m1 s.address size p) in
      let two = fun_ext (laws.flush_bytes m2 s.address size) in
      elim (Bool-cases s.executable) [
        | inl code ↦
            let h' = both_ok r' _ _ refl (rw code at h) in
            let own = write_bytes-Holds m s (both_ok w.0 _ _ refl h') in rw (code, two, one) own
        | inr plain ↦
            let own = write_bytes-Holds m s (both_ok w.0 _ _ refl (rw plain at h)) in
            rw (plain, one) own
      ]

  -- What another specification replaces stays.
  apart-Holds :
      (m : M) (s r : Spec) (p : ℕ)
      → IsApart s r
      → Holds (content m) r
      → Holds (content (put calls m s p).1) r
  apart-Holds m s r p apart h =
      slice_same (length r.replacement) (content (put calls m s p).1) (content m) r.address
        (λ x from below. put_other calls content laws m s p x (outside s r apart x from below))
      ∙ h

  AllHold-put :
      (m : M) (s : Spec) (p : ℕ) (rs : List Spec)
      → ApartFrom s rs
      → AllHold (content m) rs
      → AllHold (content (put calls m s p).1) rs
  AllHold-put m s p [] a h = tt
  AllHold-put m s p (r ∷ rs) (a, more) (h, hs) =
      (apart-Holds m s r p a h, AllHold-put m s p rs more hs)

  AllHold-same :
      (m n : M) (rs : List Spec)
      → ((x : ℕ) → content n x ≡ content m x)
      → AllHold (content m) rs
      → AllHold (content n) rs
  AllHold-same m n rs e h = rw (fun_ext e) h

  -- A run that succeeds has installed them all, and touched nothing else.
  abbrev IsDone : M → List Spec → List Spec → Result × List Saved × M → Type 0
  IsDone m before specs (r, touched, m') =
      is_ok r.error ≡ true
      → AllHold (content m') before
        × AllHold (content m') specs
        × ((x : ℕ) → NoneTouches x specs → content m' x ≡ content m x)

  install-IsDone :
      (touched todo : List Saved) (m : M)
      → AllApart (specs_of touched) (specs_of todo)
      → AllHold (content m) (specs_of touched)
      → IsDone m (specs_of touched) (specs_of todo) (install calls touched todo m)
  unfolding install failure
  install-IsDone touched [] m a h = λ ok. (h, tt, λ x out. refl)
  install-IsDone touched (new ∷ todo) m (a, more) h =
      let s = new.spec in
      let opened = calls.make_writable m s.address (length s.replacement) s.executable in
      let done = put calls opened.2 s opened.1 in
      let touched' = record new { protection = opened.1 } ∷ touched in
      let still : (x : ℕ) → content opened.2 x ≡ content m x =
        λ x. laws.writable_bytes m s.address (length s.replacement) s.executable x in
      let before =
        AllHold-put opened.2 s opened.1 (specs_of touched) a
          (AllHold-same m opened.2 (specs_of touched) still h) in
      let P = IsDone m (specs_of touched) (s ∷ specs_of todo) in
      if_split P (not opened.0) (λ shut ok. cc)
        (λ can.
          if_split P (is_ok done.0.error)
            (λ fine ok.
              let own = put-Holds opened.2 s opened.1 fine in
              let rest = install-IsDone touched' todo done.1 more (own, before) ok in
              (
                rest.0.1,
                (rest.0.0, rest.1),
                λ x out.
                    rest.2 x out.1
                    ∙ put_other calls content laws opened.2 s opened.1 x out.0
                    ∙ still x,
              ))
            (λ bad ok. cc))

  finish_error :
      (r : Result) (touched : List Saved) (m : M)
      → is_ok (finish calls r touched m).0.error ≡ true
      → is_ok r.error ≡ true
  finish_error r touched m h = elim (Bool-cases (is_ok r.error)) [
    | inl fine ↦ fine
    | inr bad ↦ rw (finish_failed calls content laws r touched m bad) at h
  ]

  carry_out_done :
      (m : M) (specs : List Spec) (checked : Checked) (x : ℕ)
      → IsPassed calls content laws m specs checked
      → ApartIf calls [] specs checked
      → NoneTouches x specs
      → is_ok (carry_out calls m checked).0.error ≡ true
      → AllHold (content (carry_out calls m checked).1) specs
        × (content (carry_out calls m checked).1 x ≡ content m x)
  unfolding carry_out
  carry_out_done m specs (refused r) x p a out ok = cc
  carry_out_done m specs (saved todo) x (_, q) a out ok =
      let (r, touched, m') = install calls [] todo m in
      let fine = finish_error r touched m' ok in
      let done = install-IsDone [] todo m (rw (← q) at a) tt fine in
      rw (finish_ok calls content laws r touched m' fine)
        (rw q at done.1, done.2 x (rw (← q) at out))

  -- A call that succeeds, on a memory of 32-bit addresses: every replacement stands there, and a
  -- byte that no specification replaces is as it was before.
  pub apply_done :
      (m : M) (specs : List Spec) (x : ℕ)
      → AllWords specs
      → NoneTouches x specs
      → is_ok (apply calls m specs).0.error ≡ true
      → AllHold (content (apply calls m specs).1) specs
        × (content (apply calls m specs).1 x ≡ content m x)
  unfolding apply
  apply_done m specs x words out ok =
      carry_out_done m specs (check calls m [] specs) x
        (check-IsPassed calls content laws m [] specs) (check-ApartIf calls m [] specs words tt) out
        ok
