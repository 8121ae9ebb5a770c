-- ===== src/Sync/Retry/Agreement.antt =====
-- Notices may be lost, repeated or overtaken; the two players still leave with one result.
use cccaster_ver_b.Prelude.{
  ℕ, zero, suc, refl, take, ◌<◌, ◌≡◌, ◌⊎◌, inl, inr, sym, ◌∙◌, true, List, [], ◌∷◌, arith,
}
use cccaster_ver_b.Prelude.Int.{ℤ, pos}
use cccaster_ver_b.Sync.Retry.{RetrySelection, valid, accept, result, can_release, decide, unknown}

unfoldable pub accept_notices : RetrySelection → List RetrySelection → RetrySelection
accept_notices r [] = r
accept_notices r (m ∷ ms) = accept_notices (accept r m).1 ms

-- `k` knows what `r` knew: a later epoch, or the same with the decided fields kept.
abbrev pub Extends : RetrySelection → RetrySelection → Type 0
Extends r k =
    (r.epoch < k.epoch)
    ⊎ ((r.epoch ≡ k.epoch)
        × ((r.choice ≡ 0) ⊎ (k.choice ≡ r.choice))
        × ((r.ack ≡ 0) ⊎ (k.ack ≡ r.ack)))

accept-Extends : (r m : RetrySelection) → Extends r (accept r m).1
unfolding accept
accept-Extends r m = ground arith

Extends-trans : (a b c : RetrySelection) → Extends a b → Extends b c → Extends a c
Extends-trans a b c p q = ground arith

accept-valid : (r m : RetrySelection) → valid r ≡ true → valid (accept r m).1 ≡ true
unfolding accept
accept-valid r m h = ground arith

accept_notices-valid :
    (r : RetrySelection) (ms : List RetrySelection)
    → valid r ≡ true
    → valid (accept_notices r ms) ≡ true
unfolding accept_notices
accept_notices-valid r [] h = h
accept_notices-valid r (m ∷ ms) h = accept_notices-valid (accept r m).1 ms (accept-valid r m h)

Extends-all : (r : RetrySelection) (ms : List RetrySelection) → Extends r (accept_notices r ms)
unfolding accept_notices
Extends-all r [] = ground arith
Extends-all r (m ∷ ms) =
    Extends-trans r (accept r m).1 (accept_notices (accept r m).1 ms) (accept-Extends r m)
      (Extends-all (accept r m).1 ms)

-- Whatever notices arrive, in whatever order, the record stays valid, its epoch does not go back,
-- and a choice or an acknowledgement once decided stays as it is for the epoch.
pub accept_notices-Extends :
    (r : RetrySelection) (ms : List RetrySelection)
    → valid r ≡ true
    → (valid (accept_notices r ms) ≡ true) × Extends r (accept_notices r ms)
accept_notices-Extends r ms h = (accept_notices-valid r ms h, Extends-all r ms)

-- The frames of one player's screen, each with what is known of the other player and what the menu shows.
abbrev pub frames : RetrySelection → List (RetrySelection × ℤ) → RetrySelection
frames r [] = r
frames r ((peer, menu) ∷ rest) = frames (decide r peer menu) rest

-- The record of a player who enters the screen.
abbrev pub start : ℕ → RetrySelection
start base = record { epoch = base; choice = 0; ack = 0 }

-- Every notice shows the player's record after some of the frames, or is of an earlier epoch.
abbrev pub AllSent : ℕ → List (RetrySelection × ℤ) → List RetrySelection → Type 0
AllSent base menus [] = Unit {0}
AllSent base menus (m ∷ ms) =
    ((m.epoch < base) ⊎ ((i : ℕ) × (m ≡ frames (start base) (take i menus))))
    × AllSent base menus ms

-- `k` is later than `r`, and has its choice if that is decided and the epoch is the same.
abbrev Before : RetrySelection → RetrySelection → Type 0
Before r k = (r.epoch < k.epoch) ⊎ ((r.epoch ≡ k.epoch) × ((r.choice ≡ 0) ⊎ (k.choice ≡ r.choice)))

Before-trans : (a b c : RetrySelection) → Before a b → Before b c → Before a c
Before-trans a b c p q = ground arith

decide-Before : (r peer : RetrySelection) (menu : ℤ) → Before r (decide r peer menu)
unfolding decide
decide-Before r peer menu = ground arith

frames-Before : (r : RetrySelection) (menus : List (RetrySelection × ℤ)) → Before r (frames r menus)
frames-Before r [] = ground arith
frames-Before r ((peer, menu) ∷ rest) =
    Before-trans r (decide r peer menu) (frames (decide r peer menu) rest)
      (decide-Before r peer menu) (frames-Before (decide r peer menu) rest)

take-Before :
    (r : RetrySelection) (i : ℕ) (menus : List (RetrySelection × ℤ))
    → Before (frames r (take i menus)) (frames r menus)
take-Before r zero menus = frames-Before r menus
take-Before r (suc i) [] = ground arith
take-Before r (suc i) ((peer, menu) ∷ rest) = take-Before (decide r peer menu) i rest

decide_epoch : (r peer : RetrySelection) (menu : ℤ) → (decide r peer menu).epoch ≡ r.epoch
unfolding decide
decide_epoch r peer menu = refl

frames_epoch :
    (r : RetrySelection) (menus : List (RetrySelection × ℤ)) → (frames r menus).epoch ≡ r.epoch
frames_epoch r [] = refl
frames_epoch r ((peer, menu) ∷ rest) =
    frames_epoch (decide r peer menu) rest ∙ decide_epoch r peer menu

accept-Before : (k r m : RetrySelection) → Before r k → Before m k → Before (accept r m).1 k
unfolding accept
accept-Before k r m p q = ground arith

sent-Before :
    (base : ℕ) (menus : List (RetrySelection × ℤ)) (m : RetrySelection)
    → (m.epoch < base) ⊎ ((i : ℕ) × (m ≡ frames (start base) (take i menus)))
    → Before m (frames (start base) menus)
sent-Before base menus m h = elim h [
  | inl old ↦ inl (omega (arith, old, frames_epoch (start base) menus))
  | inr (i, e) ↦ rw e (take-Before (start base) i menus)
]

notices-Before :
    (base : ℕ) (menus : List (RetrySelection × ℤ)) (r : RetrySelection) (ms : List RetrySelection)
    → Before r (frames (start base) menus)
    → AllSent base menus ms
    → Before (accept_notices r ms) (frames (start base) menus)
unfolding accept_notices
notices-Before base menus r [] p h = p
notices-Before base menus r (m ∷ ms) p (q, qs) =
    notices-Before base menus (accept r m).1 ms
      (accept-Before (frames (start base) menus) r m p (sent-Before base menus m q)) qs

unknown-Before : (k : RetrySelection) → Before unknown k
unknown-Before k = ground arith

-- What a player who may leave has seen of the other.
Seen : RetrySelection → RetrySelection → Type 0
Seen a y =
    (a.epoch ≡ y.epoch)
    × (((result a y ≡ pos 1) × ((a.choice ≡ 2) ⊎ (y.choice ≡ 2)))
        ⊎ ((result a y ≡ pos 0) × (a.choice ≡ 1) × (y.choice ≡ 1)))

release-Seen : (a y : RetrySelection) → can_release a y ≡ true → Seen a y
unfolding can_release result Seen
release-Seen a y h = ground arith

decided_stays :
    (a k : RetrySelection) → Before a k → a.epoch ≡ k.epoch → (a.choice ≡ 0) ⊎ (k.choice ≡ a.choice)
decided_stays a k h e = ground arith

-- Records of one player in an epoch do not contradict each other.
same_result :
    (k l a b x y : RetrySelection)
    → Seen a y
    → Seen b x
    → (a.choice ≡ 0) ⊎ (k.choice ≡ a.choice)
    → (x.choice ≡ 0) ⊎ (k.choice ≡ x.choice)
    → (b.choice ≡ 0) ⊎ (l.choice ≡ b.choice)
    → (y.choice ≡ 0) ⊎ (l.choice ≡ y.choice)
    → result a y ≡ result b x
unfolding Seen
same_result k l a b x y (ey, p) (ex, q) ha hx hb hy = elim p [
  | inl (r, two) ↦ elim q [
    | inl (s, more) ↦ r ∙ sym s
    | inr (s, b_one, x_one) ↦ absurd (ground arith)
  ]
  | inr (r, a_one, y_one) ↦ elim q [
    | inl (s, two) ↦ absurd (ground arith)
    | inr (s, b_one, x_one) ↦ r ∙ sym s
  ]
]

-- Two players on the screen after a match, in the same epoch, with any runs of frames and menus. Each leaves
-- when its own record after some frames and what it has accepted of the other's notices allow it; the
-- notices are lost, repeated and reordered at will, and older ones may be among them. Then both leave with the
-- same result.
pub releases_agree :
    (base i j : ℕ) (mine theirs : List (RetrySelection × ℤ))
    (from_me from_them : List RetrySelection)
    → AllSent base mine from_me
    → AllSent base theirs from_them
    → can_release (frames (start base) (take i mine)) (accept_notices unknown from_them) ≡ true
    → can_release (frames (start base) (take j theirs)) (accept_notices unknown from_me) ≡ true
    → result (frames (start base) (take i mine)) (accept_notices unknown from_them)
      ≡ result (frames (start base) (take j theirs)) (accept_notices unknown from_me)
unfolding Seen
releases_agree base i j mine theirs from_me from_them ma mb p q =
    let k = frames (start base) mine in
    let l = frames (start base) theirs in
    let a = frames (start base) (take i mine) in
    let b = frames (start base) (take j theirs) in
    let x = accept_notices unknown from_me in
    let y = accept_notices unknown from_them in
    let ek = frames_epoch (start base) mine in
    let el = frames_epoch (start base) theirs in
    let ea = frames_epoch (start base) (take i mine) in
    let eb = frames_epoch (start base) (take j theirs) in
    let sa = release-Seen a y p in
    let sb = release-Seen b x q in
    same_result k l a b x y sa sb
      (decided_stays a k (take-Before (start base) i mine) (ea ∙ sym ek))
      (decided_stays x k (notices-Before base mine unknown from_me (unknown-Before k) ma)
        (sym sb.0 ∙ eb ∙ sym ek))
      (decided_stays b l (take-Before (start base) j theirs) (eb ∙ sym el))
      (decided_stays y l (notices-Before base theirs unknown from_them (unknown-Before l) mb)
        (sym sa.0 ∙ ea ∙ sym el))
