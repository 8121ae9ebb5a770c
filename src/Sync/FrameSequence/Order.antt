-- ===== src/Sync/FrameSequence/Order.antt =====
-- Numbers do not wrap, and no number is consumed twice.
use cccaster_ver_b.Prelude.{
  ℕ, ◌+◌, ◌*◌, ◌≤◌, ◌<◌, ◌≡◌, refl, true, List, [], ◌∷◌, if◌then◌else◌, arith,
}
use cccaster_ver_b.Sync.FrameSequence.{FrameSequence, initial, stride, max_lookahead, begin, commit}

pub record IsValid (s : FrameSequence) : Type 0 where
  pub epochs : s.epoch ≤ 65534
  pub based : s.base ≡ s.epoch * stride
  pub near : s.lookahead ≤ max_lookahead
  pub idle : s.epoch ≡ 0 → s.next ≡ 0
  pub running : 0 < s.epoch → (s.base < s.next) × (s.next + s.lookahead < s.base + stride)

initial-IsValid : IsValid initial
initial-IsValid = record {
  epochs = omega arith;
  based = omega arith;
  near = omega arith;
  idle = λ e. refl;
  running = λ h. absurd (omega arith);
}

begin-IsValid : (s : FrameSequence) (l : ℕ) → IsValid s → IsValid (begin s l).1
unfolding begin
begin-IsValid s l v = ground arith

commit-IsValid : (s : FrameSequence) (frame : ℕ) → IsValid s → IsValid (commit s frame).1
unfolding commit
commit-IsValid s frame v = ground arith

pub data Call : Type 0 where
  begins commits : ℕ → Call

-- The state after a call, and the frame that it consumes, if any.
unfoldable pub step : FrameSequence → Call → FrameSequence
step s (begins l) = (begin s l).1
step s (commits f) = (commit s f).1

unfoldable pub consumed : FrameSequence → List Call → List ℕ
unfolding step
consumed s [] = []
consumed s (begins l ∷ cs) = consumed (step s (begins l)) cs
consumed s (commits f ∷ cs) =
    let rest = consumed (step s (commits f)) cs in if (commit s f).0 then f ∷ rest else rest

-- From `n` on, each number above the last.
abbrev pub Rising : ℕ → List ℕ → Type 0
Rising n [] = Unit {0}
Rising n (x ∷ xs) = (n ≤ x) × (x < 65535 * stride) × Rising (x + 1) xs

Rising-mono : {m n : ℕ} (xs : List ℕ) → m ≤ n → Rising n xs → Rising m xs
Rising-mono [] h r = tt
Rising-mono (x ∷ xs) h r = (omega arith, r.1, r.2)

begin-next : (s : FrameSequence) (l : ℕ) → IsValid s → s.next ≤ (begin s l).1.next
unfolding begin
begin-next s l v = ground arith

commit-next :
    (s : FrameSequence) (f : ℕ)
    → IsValid s
    → (commit s f).1.next ≡ (if (commit s f).0 then f + 1 else s.next)
unfolding commit
commit-next s f v = ground arith

commit-accepted :
    (s : FrameSequence) (f : ℕ)
    → IsValid s
    → (commit s f).0 ≡ true
    → (f ≡ s.next) × (f < 65535 * stride)
unfolding commit
commit-accepted s f v h = (ground arith, ground arith)

consumed-Rising : (s : FrameSequence) (cs : List Call) → IsValid s → Rising s.next (consumed s cs)
unfolding consumed
consumed-Rising s [] v = tt
consumed-Rising s (begins l ∷ cs) v =
    Rising-mono (consumed (begin s l).1 cs) (begin-next s l v)
      (consumed-Rising (begin s l).1 cs (begin-IsValid s l v))
consumed-Rising s (commits f ∷ cs) v =
    let rest = consumed-Rising (commit s f).1 cs (commit-IsValid s f v) in
    ground (arith, rest, commit-next s f v, commit-accepted s f v)

-- Whatever sequence of `Begin` and `Commit` calls follows the initial state, the frame numbers that
-- `Commit` accepts rise strictly and stay below 65535 * 65536, so that no 32-bit number wraps and
-- no frame is consumed twice.
pub consumed_once : (cs : List Call) → Rising 0 (consumed initial cs)
consumed_once cs = consumed-Rising initial cs initial-IsValid
