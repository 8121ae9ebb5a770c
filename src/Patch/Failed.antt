-- ===== src/Patch/Failed.antt =====
-- A patch that fails: what is installed until then, and the whole call.
use cccaster_ver_b.Prelude.{
  ℕ, ◌≤◌, ◌≡◌, ◌⊎◌, inl, inr, true, false, not, List, [], ◌∷◌, length, refl, ap, ◌∙◌, arith,
  Bool-cases, Option-cases, if_cases, map,
}
use cccaster_ver_b.Patch.Memory.{MemoryCalls, Laws, slice}
use cccaster_ver_b.Patch.{
  read, mismatch, is_ok, Result, success, Spec, Saved, Checked, refused, saved, same_bytes,
  any_overlap, invalid, failure, is_bad, check_bytes, keep, check, put, install, restore_all,
  finish, carry_out, apply,
}
use cccaster_ver_b.Patch.Rollback.{AllUntouched, AllSaved, put_other, restore_all_lem}

module _ {M : Type 0} (calls : MemoryCalls M) (content : M → ℕ → ℕ)
    (laws : Laws calls content) where
  -- The touched ones are saved, and all other bytes are those of `c`.
  abbrev pub IsTracked : (ℕ → ℕ) → Result × List Saved × M → Type 0
  IsTracked c (r, touched, m) =
      AllSaved c touched × ((x : ℕ) → AllUntouched x touched → content m x ≡ c x)

  install-IsTracked :
      (c : ℕ → ℕ) (touched todo : List Saved) (m : M)
      → AllSaved c todo
      → IsTracked c (success, touched, m)
      → IsTracked c (install calls touched todo m)
  unfolding install
  install-IsTracked c touched [] m s t = t
  install-IsTracked c touched (new ∷ todo) m (s, ss) (saved_before, same) =
      let sp = new.spec in
      let opened = calls.make_writable m sp.address (length sp.replacement) sp.executable in
      let done = put calls opened.2 sp opened.1 in
      let touched' = record new { protection = opened.1 } ∷ touched in
      let still : (x : ℕ) → content opened.2 x ≡ content m x =
        λ x. laws.writable_bytes m sp.address (length sp.replacement) sp.executable x in
      let after : IsTracked c (done.0, touched', done.1) = (
        (s, saved_before),
        λ x h. put_other calls content laws opened.2 sp opened.1 x h.0 ∙ still x ∙ same x h.1,
      ) in
      if_cases (IsTracked c) (not opened.0) (saved_before, λ x h. still x ∙ same x h)
        (if_cases (IsTracked c) (is_ok done.0.error)
          (install-IsTracked c touched' todo done.1 ss after) after)

  -- A check that passes has saved the bytes of all the specifications.
  abbrev pub IsPassed : M → List Spec → Checked → Type 0
  IsPassed m specs (refused r) = is_ok r.error ≡ false
  IsPassed m specs (saved todo) =
      AllSaved (content m) todo × (map (λ (t : Saved). t.spec) todo ≡ specs)

  bad_size :
      (m : M) (s : Spec) → is_bad calls m s ≡ false → length s.replacement ≤ length s.expected
  unfolding is_bad
  bad_size m s h = ground arith

  check_bytes_lem :
      (m : M) (s : Spec)
      → ((bytes : List ℕ) × (check_bytes calls m s ≡ inl bytes)
          × (bytes ≡ slice (content m) s.address (length s.expected)))
        ⊎ ((r : Result) × (check_bytes calls m s ≡ inr r) × (is_ok r.error ≡ false))
  unfolding check_bytes failure
  check_bytes_lem m s = elim (Option-cases (calls.read m s.address (length s.expected))) [
    | inl nothing ↦ inr (failure calls m s read, rw (nothing, check_bytes) refl, refl)
    | inr (bytes, some_bytes) ↦ elim (Bool-cases (same_bytes bytes s.expected)) [
      | inl same ↦ inl (
        bytes,
        rw (some_bytes, check_bytes, same) refl,
        laws.read_bytes m s.address (length s.expected) bytes some_bytes,
      )
      | inr other ↦ inr (
        record success { error = mismatch; address = s.address; name = s.name },
        rw (some_bytes, check_bytes, other) refl,
        refl,
      )
    ]
  ]

  keep-IsPassed :
      (m : M) (s : Spec) (bytes : List ℕ) (specs : List Spec) (rest : Checked)
      → bytes ≡ slice (content m) s.address (length s.expected)
      → length s.replacement ≤ length s.expected
      → IsPassed m specs rest
      → IsPassed m (s ∷ specs) (keep calls s (inl bytes) rest)
  unfolding keep
  keep-IsPassed m s bytes specs (refused r) e h p = p
  keep-IsPassed m s bytes specs (saved todo) e h (p, q) =
      (((e, h), p), ap (λ (ss : List Spec). s ∷ ss) q)

  pub check-IsPassed :
      (m : M) (before specs : List Spec) → IsPassed m specs (check calls m before specs)
  unfolding check keep invalid
  check-IsPassed m before [] = (tt, refl)
  check-IsPassed m before (s ∷ specs) = elim (Bool-cases (is_bad calls m s)) [
    | inl bad ↦ rw bad refl
    | inr fine ↦ elim (Bool-cases (any_overlap s before)) [
      | inl clash ↦ rw (fine, clash) refl
      | inr apart ↦ elim (check_bytes_lem m s) [
        | inr (r, e, failed) ↦ rw (fine, apart, e) failed
        | inl (bytes, e, read_now) ↦
            rw (fine, apart, e)
              (keep-IsPassed m s bytes specs (check calls m (s ∷ before) specs) read_now
                (bad_size m s fine) (check-IsPassed m (s ∷ before) specs))
      ]
    ]
  ]

  pub finish_ok :
      (r : Result) (touched : List Saved) (m : M)
      → is_ok r.error ≡ true
      → finish calls r touched m ≡ (r, m)
  unfolding finish
  finish_ok r touched m fine = rw fine refl

  pub finish_failed :
      (r : Result) (touched : List Saved) (m : M)
      → is_ok r.error ≡ false
      → finish calls r touched m ≡ (
        record r { rollback_failed = (restore_all calls m touched).0 },
        (restore_all calls m touched).1,
      )
  unfolding finish
  finish_failed r touched m bad = rw bad refl

  finish_lem :
      (c : ℕ → ℕ) (r : Result) (touched : List Saved) (m : M) (x : ℕ)
      → IsTracked c (r, touched, m)
      → is_ok (finish calls r touched m).0.error ≡ false
      → (finish calls r touched m).0.rollback_failed ≡ false
      → content (finish calls r touched m).1 x ≡ c x
  finish_lem c r touched m x (s, same) failed back = elim (Bool-cases (is_ok r.error)) [
    | inl fine ↦ (let wrong = rw (finish_ok r touched m fine) at failed in cc)
    | inr bad ↦
        (let e = finish_failed r touched m bad in
          rw e (restore_all_lem calls content laws c touched m x s (same x) (rw e at back)))
  ]

  carry_out_fails :
      (m : M) (specs : List Spec) (checked : Checked) (x : ℕ)
      → IsPassed m specs checked
      → is_ok (carry_out calls m checked).0.error ≡ false
      → (carry_out calls m checked).0.rollback_failed ≡ false
      → content (carry_out calls m checked).1 x ≡ content m x
  unfolding carry_out
  carry_out_fails m specs (refused r) x p failed back = refl
  carry_out_fails m specs (saved todo) x (p, _) failed back =
      let (r, touched, m') = install calls [] todo m in
      finish_lem (content m) r touched m' x
        (install-IsTracked (content m) [] todo m p (tt, λ y h. refl)) failed back

  -- A call that fails, at any of the specifications and in any of its steps, and does not report that
  -- the old bytes could not be restored: every byte of the memory is as it was before the call.
  pub apply_fails :
      (m : M) (specs : List Spec) (x : ℕ)
      → is_ok (apply calls m specs).0.error ≡ false
      → (apply calls m specs).0.rollback_failed ≡ false
      → content (apply calls m specs).1 x ≡ content m x
  unfolding apply
  apply_fails m specs x failed back =
      carry_out_fails m specs (check calls m [] specs) x (check-IsPassed m [] specs) failed back
