-- ===== src/Patch/Tests.antt =====
-- A concrete process: two patches, and the protection of the second page cannot be put in order.
use cccaster_ver_b.Prelude.{
  ℕ, ◌+◌, ◌≡◌, ◌≢◌, true, false, not, ◌==◌, List, [], ◌∷◌, length, some, refl, ◌∙◌, arith,
}
use cccaster_ver_b.Prelude.Table.{set_at, set_at_self, set_at_ne}
use cccaster_ver_b.Patch.Memory.{MemoryCalls, Laws, slice, Outside}
use cccaster_ver_b.Patch.{
  Spec, apply, check, install, put, write_bytes, restore_all, restore_one, put_back, finish,
  carry_out, keep, check_bytes, is_bad, any_overlap, overlaps, same_bytes, first_error, failure,
}
use cccaster_ver_b.Patch.Failed.{apply_fails}
use cccaster_ver_b.Patch.Done.{apply_done, AllHold, slice_same}

record Process : Type 0 where
  pub bytes : ℕ → ℕ
  pub protected : ℕ

overwrite : (ℕ → ℕ) → ℕ → List ℕ → ℕ → ℕ
overwrite f a [] = f
overwrite f a (b ∷ bs) = set_at (overwrite f (a + 1) bs) a b

overwrite_other :
    (f : ℕ → ℕ) (a : ℕ) (bs : List ℕ) (x : ℕ) → Outside x a (length bs) → overwrite f a bs x ≡ f x
unfolding overwrite
overwrite_other f a [] x h = refl
overwrite_other f a (b ∷ bs) x h =
    let apart : a ≢ x = λ e. omega arith in
    let further : Outside x (a + 1) (length bs) = ground arith in
    set_at_ne (overwrite f (a + 1) bs) a x b apart ∙ overwrite_other f (a + 1) bs x further

overwrite_own : (f : ℕ → ℕ) (a : ℕ) (bs : List ℕ) → slice (overwrite f a bs) a (length bs) ≡ bs
unfolding overwrite
overwrite_own f a [] = refl
overwrite_own f a (b ∷ bs) =
    let g = overwrite f (a + 1) bs in
    let head = set_at_self g a b in
    let tail =
      slice_same (length bs) (set_at g a b) g (a + 1)
        (λ x p q. set_at_ne g a x b (λ e. omega arith)) in
    let rest = overwrite_own f (a + 1) bs in cc

-- The call with the number `bad` to restore a protection fails.
abbrev process : ℕ → MemoryCalls Process
process bad = record {
  last_error = λ m. 5;
  single_page = λ m a n. true;
  read = λ m a n. some (slice m.bytes a n);
  make_writable = λ m a n e. (true, 0x20, m);
  write = λ m a bs. (true, record m { bytes = overwrite m.bytes a bs });
  restore_protection =
      λ m a n p. (not (m.protected == bad), record m { protected = m.protected + 1 });
  flush = λ m a n. (true, m);
}

abbrev content : Process → ℕ → ℕ
content m = m.bytes

process-Laws : (bad : ℕ) → Laws (process bad) content
process-Laws bad = record {
  read_bytes = λ m a n bytes e. cc;
  writable_bytes = λ m a n e x. refl;
  write_other = λ m a bytes x h. overwrite_other m.bytes a bytes x h;
  write_own = λ m a bytes e. overwrite_own m.bytes a bytes;
  protect_bytes = λ m a n p x. refl;
  flush_bytes = λ m a n x. refl;
}

abbrev start : Process
start = record { bytes = λ x. 0x90; protected = 0 }

abbrev specs : List Spec
specs =
    record {
      name = [];
      address = 0x40_1000;
      expected = 0x90 ∷ 0x90 ∷ [];
      replacement = 0xeb ∷ 0x05 ∷ [];
      executable = true;
    }
    ∷ record {
      name = [];
      address = 0x40_1002;
      expected = 0x90 ∷ [];
      replacement = 0xc3 ∷ [];
      executable = false;
    }
    ∷ []

apply_fails_example : (apply (process 1) start specs).1.bytes 0x40_1001 ≡ start.bytes 0x40_1001
unfolding apply check install put write_bytes restore_all restore_one put_back finish carry_out keep
    check_bytes is_bad any_overlap overlaps same_bytes first_error failure overwrite
apply_fails_example =
    apply_fails (process 1) content (process-Laws 1) start specs 0x40_1001 refl refl

apply_done_example :
    AllHold (apply (process 9) start specs).1.bytes specs
    × ((apply (process 9) start specs).1.bytes 0x40_1003 ≡ start.bytes 0x40_1003)
unfolding apply check install put write_bytes restore_all restore_one put_back finish carry_out keep
    check_bytes is_bad any_overlap overlaps same_bytes first_error failure overwrite
apply_done_example =
    apply_done (process 9) content (process-Laws 9) start specs 0x40_1003 (omega arith)
      (omega arith) refl
