-- ===== src/Spectator/Queue/Refine.antt =====
-- A run of calls of the queue answers as a list of at most `n` records does.
use mathlib.Core.Option
use cccaster_ver_b.Prelude.{
  ℕ, suc, ◌+◌, ◌-◌, ◌*◌, ◌%◌, ◌<◌, ◌≡◌, ◌≢◌, ap, sym, refl, ◌∙◌, List, [], ◌∷◌, ◌++◌, length, Bool,
  true, false, Bool-cases, inl, inr, Option, none, some, ◌==◌, if◌then◌else◌, arith,
}
use cccaster_ver_b.Prelude.Table.{set_at}
use cccaster_ver_b.Prelude.Words.{u32_mod, add32}
use cccaster_ver_b.Spectator.Records.{Record, copy_over, input_kind}
use cccaster_ver_b.Spectator.Queue.{Queue, count, push, push_input, pop, set_at}
use cccaster_ver_b.Spectator.Queue.Count.{IsBounded}
use cccaster_ver_b.Spectator.Queue.Order.{
  cut, cut-copy_over, collect, contents, length-collect, collect-set,
}

pub data Call : Type 0 where
  call_push : Record → Call
  call_input : (frame p1 p2 : ℕ) → Call
  call_pop : (into : Record) → Call

pub data Answer : Type 0 where
  pushed : Bool → Answer
  popped : Option Record → Answer

abbrev pub real : ℕ → Queue → Call → Answer × Queue
real n q (call_push r) = (pushed (push n q r).0, (push n q r).1)
real n q (call_input frame p1 p2) =
    (pushed (push_input n q frame p1 p2).0, (push_input n q frame p1 p2).1)
real n q (call_pop into) = (popped (Option.map cut (pop n q into).0), (pop n q into).1)

-- The record of an input.
abbrev pub input_record : (frame p1 p2 : ℕ) → Record
input_record frame p1 p2 = record {
  size = 20;
  kind = input_kind;
  frame = frame;
  payload = λ i. if i == 1 then p2 else p1;
}

-- The list that the queue stands for.
abbrev pub append_one : ℕ → List Record → Record → Answer × List Record
append_one n xs r = if length xs == n then (pushed false, xs) else (pushed true, xs ++ (cut r ∷ []))

abbrev pub take_one : List Record → Answer × List Record
take_one [] = (popped none, [])
take_one (x ∷ xs) = (popped (some x), xs)

abbrev pub ideal : ℕ → List Record → Call → Answer × List Record
ideal n xs (call_push r) = append_one n xs r
ideal n xs (call_input frame p1 p2) = append_one n xs (input_record frame p1 p2)
ideal n xs (call_pop into) = take_one xs

abbrev Refines : ℕ → Answer × Queue → Answer × List Record → Type 0
Refines n a b = (a.0 ≡ b.0) × (contents n a.1 ≡ b.1) × IsBounded n a.1

module _ (n m : ℕ) (range : u32_mod ≡ n * m) (small : n < u32_mod - 1) (q : Queue)
    (h : IsBounded n q) where
  length-contents : length (contents n q) ≡ count q
  length-contents = length-collect n q.slots (count q) q.read

  write_position : q.write ≡ (q.read + count q) % u32_mod
  unfolding count
  write_position = omega (arith, h.0, h.1)

  -- The queue with a record at its write position.
  pub filled : Record → Queue
  filled v = record q { slots = set_at q.slots (q.write % n) v; write = add32 q.write 1 }

  filled-count : (v : Record) → count q ≢ n → count (filled v) ≡ suc (count q)
  unfolding count filled
  filled-count v d = omega (arith, h, small, d)

  filled-IsBounded : (v : Record) → count q ≢ n → IsBounded n (filled v)
  unfolding count filled
  filled-IsBounded v d = omega (arith, h, small, d)

  filled-contents :
      (v : Record) → count q ≢ n → contents n (filled v) ≡ contents n q ++ (cut v ∷ [])
  unfolding filled
  filled-contents v d =
      ap (λ k. collect n (set_at q.slots (q.write % n) v) k q.read) (filled-count v d)
      ∙ collect-set n m range q.slots v (count q) q.read q.write (omega (arith, h, d)) h.1
          write_position

  abbrev attempt : Record → Bool × Queue
  attempt v = if count q == n then (false, q) else (true, filled v)

  -- What `PushInput` leaves in its slot.
  abbrev written : (frame p1 p2 : ℕ) → Record
  written frame p1 p2 = record {
    size = 20;
    kind = input_kind;
    frame = frame;
    payload = set_at (set_at (q.slots (q.write % n)).payload 0 p1) 1 p2;
  }

  input_words :
      (frame p1 p2 k : ℕ)
      → (cut (written frame p1 p2)).payload k ≡ (cut (input_record frame p1 p2)).payload k
  input_words frame p1 p2 k = ground arith

  cut-written : (frame p1 p2 : ℕ) → cut (written frame p1 p2) ≡ cut (input_record frame p1 p2)
  cut-written frame p1 p2 =
      λ i. record (cut (input_record frame p1 p2)) { payload = λ k. input_words frame p1 p2 k i }

  Refines-append :
      (v r : Record)
      → cut v ≡ cut r
      → Refines n (pushed (attempt v).0, (attempt v).1) (append_one n (contents n q) r)
  Refines-append v r e = elim (Bool-cases (count q == n)) [
    | inl full ↦ rw (length-contents, full) (refl, refl, h)
    | inr room ↦
        let d : count q ≢ n = ground (arith, room) in
        rw (length-contents, room)
          (refl, filled-contents v d ∙ ap (λ x. contents n q ++ (x ∷ [])) e, filled-IsBounded v d)
  ]

  pop_position : (q.read ≡ q.write → count q ≡ 0) × (q.read ≢ q.write → count q ≡ suc (count q - 1))
  unfolding count
  pop_position = (λ e. omega (arith, h, e), λ d. omega (arith, h, d))

  -- The queue without its oldest record.
  emptied : Queue
  emptied = record q { read = add32 q.read 1 }

  emptied-count : q.read ≢ q.write → (count emptied ≡ count q - 1) × IsBounded n emptied
  unfolding count emptied
  emptied-count d = omega (arith, h, d)

  contents-emptied :
      q.read ≢ q.write → contents n q ≡ cut (q.slots (q.read % n)) ∷ contents n emptied
  unfolding emptied
  contents-emptied d =
      ap (λ k. collect n q.slots k q.read) (pop_position.1 d)
      ∙ ap (λ k. cut (q.slots (q.read % n)) ∷ collect n q.slots k (add32 q.read 1))
          (sym (emptied-count d).0)

  Refines-pop : (into : Record) → Refines n (real n q (call_pop into)) (take_one (contents n q))
  unfolding pop emptied
  Refines-pop into = elim (Bool-cases (q.read == q.write)) [
    | inl e ↦
        let f : contents n q ≡ [] =
          ap (λ k. collect n q.slots k q.read) (pop_position.0 (ground (arith, e))) in
        rw e (ap (λ xs. (take_one xs).0) (sym f), f ∙ ap (λ xs. (take_one xs).1) (sym f), h)
    | inr e ↦
        let d : q.read ≢ q.write = ground (arith, e) in
        let f = contents-emptied d in
        rw e (
          ap (λ x. popped (some x)) (cut-copy_over (q.slots (q.read % n)) into)
              ∙ ap (λ xs. (take_one xs).0) (sym f),
          ap (λ xs. (take_one xs).1) (sym f),
          (emptied-count d).1,
        )
  ]

  -- Every call does to the queue what it does to the list.
  Refines-real : (c : Call) → Refines n (real n q c) (ideal n (contents n q) c)
  unfolding push push_input count filled
  Refines-real (call_push r) =
      Refines-append (copy_over r (q.slots (q.write % n))) r
        (cut-copy_over r (q.slots (q.write % n)))
  Refines-real (call_input frame p1 p2) =
      Refines-append (written frame p1 p2) (input_record frame p1 p2) (cut-written frame p1 p2)
  Refines-real (call_pop into) = Refines-pop into

abbrev pub real_run : ℕ → Queue → List Call → List Answer
real_run n q [] = []
real_run n q (c ∷ cs) = (real n q c).0 ∷ real_run n (real n q c).1 cs

abbrev pub ideal_run : ℕ → List Record → List Call → List Answer
ideal_run n xs [] = []
ideal_run n xs (c ∷ cs) = (ideal n xs c).0 ∷ ideal_run n (ideal n xs c).1 cs

-- In a queue whose size divides 2 ^ 32 and is smaller, and whose counters are within their bounds,
-- also where they wrap: any sequence of pushes of records, pushes of inputs and pops gets the answers
-- that a list gets which takes at most that many records and gives the oldest first.
pub real_run-ideal :
    (n m : ℕ) (q : Queue) (calls : List Call)
    → u32_mod ≡ n * m
    → n < u32_mod - 1
    → IsBounded n q
    → real_run n q calls ≡ ideal_run n (contents n q) calls
real_run-ideal n m q [] range small h = refl
real_run-ideal n m q (c ∷ cs) range small h =
    let s = Refines-real n m range small q h c in
    let rest = real_run-ideal n m (real n q c).1 cs range small s.2 in
    λ i. s.0 i ∷ (rest ∙ ap (λ xs. ideal_run n xs cs) s.1) i
