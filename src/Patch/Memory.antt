-- ===== src/Patch/Memory.antt =====
-- The memory of a process, as CheckedPatch.hpp uses it: what it calls, and what the calls do to the bytes.
use cccaster_ver_b.Prelude.{
  ℕ, zero, suc, ◌+◌, ◌≤◌, ◌<◌, ◌≡◌, ◌⊎◌, Bool, true, List, [], ◌∷◌, Option, some, length,
}

-- `make_writable` gives the old protection. A call that writes or protects returns the memory.
pub record MemoryCalls (M : Type 0) : Type 0 where
  pub last_error : M → ℕ
  pub single_page : M → ℕ → ℕ → Bool
  pub read : M → ℕ → ℕ → Option (List ℕ)
  pub make_writable : M → ℕ → ℕ → Bool → Bool × ℕ × M
  pub write : M → ℕ → List ℕ → Bool × M
  pub restore_protection : M → ℕ → ℕ → ℕ → Bool × M
  pub flush : M → ℕ → ℕ → Bool × M

-- The `n` bytes from an address on.
abbrev pub slice : (ℕ → ℕ) → ℕ → ℕ → List ℕ
slice bytes a zero = []
slice bytes a (suc n) = bytes a ∷ slice bytes (a + 1) n

abbrev pub Outside : ℕ → ℕ → ℕ → Type 0
Outside x a n = (x < a) ⊎ (a + n ≤ x)

-- A read that succeeds gives the bytes. A write changes no others, also where it fails half-way,
-- and all of its own where it succeeds. Protection and cache do not change the bytes.
pub record Laws {M : Type 0} (calls : MemoryCalls M) (content : M → ℕ → ℕ) : Type 0 where
  pub read_bytes :
      (m : M) (a n : ℕ) (bytes : List ℕ)
      → calls.read m a n ≡ some bytes
      → bytes ≡ slice (content m) a n
  pub writable_bytes :
      (m : M) (a n : ℕ) (e : Bool) (x : ℕ) → content (calls.make_writable m a n e).2 x ≡ content m x
  pub write_other :
      (m : M) (a : ℕ) (bytes : List ℕ) (x : ℕ)
      → Outside x a (length bytes)
      → content (calls.write m a bytes).1 x ≡ content m x
  pub write_own :
      (m : M) (a : ℕ) (bytes : List ℕ)
      → (calls.write m a bytes).0 ≡ true
      → slice (content (calls.write m a bytes).1) a (length bytes) ≡ bytes
  pub protect_bytes :
      (m : M) (a n p x : ℕ) → content (calls.restore_protection m a n p).1 x ≡ content m x
  pub flush_bytes : (m : M) (a n x : ℕ) → content (calls.flush m a n).1 x ≡ content m x
