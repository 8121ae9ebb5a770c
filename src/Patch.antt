-- ===== src/Patch.antt =====
-- src/src/shared_contracts/CheckedPatch.hpp: several patches of the code of a running process, all or none.
-- The memory of the process is a parameter of the source, here a record of its operations.
-- Addresses have 32 bits; a text is its bytes.
pub mod Memory
pub mod Rollback
pub mod Failed
pub mod Apart
pub mod Done
mod Tests
use cccaster_ver_b.Prelude.{
  ℕ, ◌+◌, Bool, true, false, not, ◌&&◌, ◌||◌, ltb, ◌==◌, if◌then◌else◌, List, [], ◌∷◌, length, take,
  Option, none, some, ◌⊎◌, inl, inr,
}
use cccaster_ver_b.Prelude.Words.{add32}
use cccaster_ver_b.Patch.Memory.{MemoryCalls}

pub data Error : Type 0 where
  no_error invalid_spec read mismatch protect write verify restore flush : Error

abbrev pub is_ok : Error → Bool
is_ok no_error = true
is_ok _ = false

pub record Result : Type 0 where
  pub error : Error
  pub system_error : ℕ
  pub address : ℕ
  pub name : List ℕ
  pub rollback_failed : Bool

abbrev pub success : Result
success = record {
  error = no_error;
  system_error = 0;
  address = 0;
  name = [];
  rollback_failed = false;
}

pub record Spec : Type 0 where
  pub name : List ℕ
  pub address : ℕ
  pub expected : List ℕ
  pub replacement : List ℕ
  pub executable : Bool

-- What was read before, and once the page could be written its protection.
pub record Saved : Type 0 where
  pub spec : Spec
  pub bytes : List ℕ
  pub protection : ℕ

pub data Checked : Type 0 where
  refused : Result → Checked
  saved : List Saved → Checked

-- `memcmp`, on the length of the second list.
same_bytes : List ℕ → List ℕ → Bool
same_bytes xs [] = true
same_bytes [] (y ∷ ys) = false
same_bytes (x ∷ xs) (y ∷ ys) = x == y && same_bytes xs ys

pub overlaps : Spec → Spec → Bool
overlaps s r =
    ltb s.address (add32 r.address (length r.expected))
    && ltb r.address (add32 s.address (length s.expected))

any_overlap : Spec → List Spec → Bool
unfolding overlaps
any_overlap s [] = false
any_overlap s (r ∷ rs) = overlaps s r || any_overlap s rs

invalid : Spec → Result
invalid s = record success { error = invalid_spec; address = s.address; name = s.name }

-- The first error counts.
first_error : Result → Bool → Result → Result
first_error r done e = if not done && is_ok r.error then e else r

module _ {M : Type 0} (calls : MemoryCalls M) where
  pub failure : M → Spec → Error → Result
  failure m s e = record {
    error = e;
    system_error = calls.last_error m;
    address = s.address;
    name = s.name;
    rollback_failed = false;
  }

  is_bad : M → Spec → Bool
  is_bad m s =
      s.address == 0
      || length s.expected == 0
      || ltb 64 (length s.expected)
      || length s.replacement == 0
      || ltb (length s.expected) (length s.replacement)
      || ltb (add32 s.address (length s.expected)) s.address
      || not (calls.single_page m s.address (length s.expected))

  -- The bytes that stand there, or why they are not as expected.
  check_bytes : M → Spec → List ℕ ⊎ Result
  unfolding same_bytes failure
  check_bytes m s = elim (calls.read m s.address (length s.expected)) [
    | none ↦ inr (failure m s read)
    | some bytes ↦
        if same_bytes bytes s.expected
        then inl bytes
        else inr (record success { error = mismatch; address = s.address; name = s.name })
  ]

  -- The first refusal counts.
  keep : Spec → List ℕ ⊎ Result → Checked → Checked
  keep s (inr r) rest = refused r
  keep s (inl bytes) (refused r) = refused r
  keep s (inl bytes) (saved rest) =
      saved (record { spec = s; bytes = bytes; protection = 0 } ∷ rest)

  -- All specifications are checked before anything is written; those checked stand newest first.
  pub check : M → List Spec → List Spec → Checked
  unfolding invalid
  check m before [] = saved []
  check m before (s ∷ specs) =
      let rest = check m (s ∷ before) specs in
      if is_bad m s
      then refused (invalid s)
      else if any_overlap s before
      then refused (invalid s)
      else keep s (check_bytes m s) rest

  -- Write and read back.
  write_bytes : M → Spec → Result × M
  unfolding same_bytes failure
  write_bytes m s =
      let (written, m') = calls.write m s.address s.replacement in
      if not written
      then (failure m' s write, m')
      else elim (calls.read m' s.address (length s.replacement)) [
        | none ↦ (failure m' s verify, m')
        | some bytes ↦ (if same_bytes bytes s.replacement then success else failure m' s verify, m')
      ]

  -- The protection and the cache are put in order whether the bytes were written or not.
  pub put : M → Spec → ℕ → Result × M
  put m s protection =
      let size = length s.replacement in
      let (r, m1) = write_bytes m s in
      let (restored, m2) = calls.restore_protection m1 s.address size protection in
      let r' = first_error r restored (failure m2 s restore) in
      if s.executable
      then (let (flushed, m3) = calls.flush m2 s.address size in
          (first_error r' flushed (failure m3 s flush), m3))
      else (r', m2)

  -- The result, what was touched, newest first, and the memory.
  pub install : List Saved → List Saved → M → Result × List Saved × M
  unfolding failure
  install touched [] m = (success, touched, m)
  install touched (t ∷ todo) m =
      let s = t.spec in
      let (can, protection, m1) =
        calls.make_writable m s.address (length s.replacement) s.executable in
      let (r, m2) = put m1 s protection in
      let touched' = record t { protection = protection } ∷ touched in
      let rest = install touched' todo m2 in
      if not can
      then (failure m1 s protect, touched, m1)
      else if is_ok r.error
      then rest
      else (r, touched', m2)

  -- Whether the old bytes stand there again.
  put_back : M → Saved → Bool × M
  unfolding same_bytes
  put_back m t =
      let size = length t.spec.replacement in
      let old = take size t.bytes in
      let (can, ignored, m1) = calls.make_writable m t.spec.address size t.spec.executable in
      let (written, m2) = calls.write m1 t.spec.address old in
      if not can then (false, m1) else elim (calls.read m2 t.spec.address size) [
        | none ↦ (false, m2)
        | some bytes ↦ (written && same_bytes bytes old, m2)
      ]

  -- True if the old bytes, the protection or the cache could not be restored.
  pub restore_one : M → Saved → Bool × M
  restore_one m t =
      let size = length t.spec.replacement in
      let (ok, m1) = put_back m t in
      let (restored, m2) = calls.restore_protection m1 t.spec.address size t.protection in
      let (flushed, m3) =
        if t.spec.executable then calls.flush m2 t.spec.address size else (true, m2) in
      (not ok || not restored || not flushed, m3)

  pub restore_all : M → List Saved → Bool × M
  restore_all m [] = (false, m)
  restore_all m (t ∷ ts) =
      let (failed, m1) = restore_one m t in
      let (later, m2) = restore_all m1 ts in (failed || later, m2)

  pub finish : Result → List Saved → M → Result × M
  finish r touched m =
      if is_ok r.error
      then (r, m)
      else (let (failed, m') = restore_all m touched in (record r { rollback_failed = failed }, m'))

  pub carry_out : M → Checked → Result × M
  carry_out m (refused r) = (r, m)
  carry_out m (saved todo) = let (r, touched, m') = install [] todo m in finish r touched m'

  pub apply : M → List Spec → Result × M
  apply m specs = carry_out m (check m [] specs)
