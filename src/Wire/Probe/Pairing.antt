-- ===== src/Wire/Probe/Pairing.antt =====
-- Two launchers find each other over a network that delays, repeats, reorders and loses probes.
-- `outgoing` and the call of `Sent` after it are the sending part of the loop of
-- src/src/cli_launcher/network_wrapper/SessionNegotiator.cpp, and `restart` is what the host does there
-- when the other side does not get ready within 30 s.
use cccaster_ver_b.Prelude.{
  suc, ◌<◌, ℕ, ◌≡◌, ◌≢◌, ◌⊎◌, inl, inr, refl, sym, ◌∙◌, true, false, List, [], ◌∷◌, arith,
}
use mathlib.Core.List.{Memᴰ}
use mathlib.Core.List.Memᴰ
use cccaster_ver_b.Wire.Probe.{Probe, Agreement, receive, sent, is_ready}

-- What a launcher sends: `p` holds the stamps of time and the counter.
abbrev pub outgoing : Agreement → Probe → Probe
outgoing a p = record p { nonce = a.local_nonce; echo_nonce = a.peer_nonce; extended = true }

abbrev pub fresh : ℕ → Agreement
fresh nonce = record { local_nonce = nonce; peer_nonce = 0; echoed = false; reply_sent = false }

-- A launcher, all the probes that it has sent, and how often it has started again.
pub record Side : Type 0 where
  pub agreement : Agreement
  pub log : List Probe
  pub restarts : ℕ

abbrev pub send : Side → Probe → Side
send x p = record x {
  agreement = sent x.agreement x.agreement.peer_nonce;
  log = outgoing x.agreement p ∷ x.log;
}

abbrev pub take_in : Side → Probe → Side
take_in x p = record x { agreement = (receive x.agreement p).1 }

-- The host forgets the other side, and keeps its own session number.
abbrev pub restart : Side → Side
restart x = record x {
  agreement = record (x.agreement) { peer_nonce = 0; echoed = false; reply_sent = false };
  restarts = suc x.restarts;
}

-- Either side sends at any time, takes in any probe that the other has ever sent, and starts again
-- at any time. In the program only the host does the last, after 30 s; which side that is and when does
-- not matter here.
pub data Step (x y : Side) : Side → Side → Type 0 where
  left_sends : (p : Probe) → Step x y (send x p) y
  right_sends : (p : Probe) → Step x y x (send y p)
  left_receives : (p : Probe) → Memᴰ p y.log → Step x y (take_in x p) y
  right_receives : (p : Probe) → Memᴰ p x.log → Step x y x (take_in y p)
  left_restarts : Step x y (restart x) y
  right_restarts : Step x y x (restart y)

abbrev pub start : ℕ → Side
start nonce = record { agreement = fresh nonce; log = []; restarts = 0 }

-- From two fresh sides, with the session numbers `m` and `n`.
pub data Reach (m n : ℕ) : Side → Side → Type 0 where
  begin : Reach m n (start m) (start n)
  next : {x y x' y' : Side} → Reach m n x y → Step x y x' y' → Reach m n x' y'

-- A side that has `peer` for the number of the other knows that it is `n`, or has started again.
abbrev Learned : (peer n restarts : ℕ) → Type 0
Learned peer n restarts = (peer ≡ n) ⊎ (0 < restarts)

-- What a probe says that was sent by the side with number `m`, which takes `peer` for the number
-- of the other.
abbrev Honest : (m n peer restarts : ℕ) → Probe → Type 0
Honest m n peer restarts p =
    (p.nonce ≡ m) × ((p.echo_nonce ≡ 0) ⊎ ((p.echo_nonce ≡ n) × Learned peer n restarts))

-- `peer` and `restarts` are those of the other side.
record Knows (m n : ℕ) (x : Side) (peer restarts : ℕ) : Type 0 where
  own : x.agreement.local_nonce ≡ m
  other : (x.agreement.peer_nonce ≡ 0) ⊎ (x.agreement.peer_nonce ≡ n)
  honest : (p : Probe) → Memᴰ p x.log → Honest m n x.agreement.peer_nonce x.restarts p
  echoed : x.agreement.echoed ≡ true → Learned peer m restarts
  replied :
      x.agreement.reply_sent ≡ true
      → (x.agreement.peer_nonce ≡ n)
        × ((p : Probe) × Memᴰ p x.log × (p.extended ≡ true) × (p.echo_nonce ≡ n))

sent_frame :
    (a : Agreement) (echo : ℕ)
    → ((sent a echo).local_nonce ≡ a.local_nonce)
      × ((sent a echo).peer_nonce ≡ a.peer_nonce)
      × ((sent a echo).echoed ≡ a.echoed)
      × ((sent a echo).reply_sent ≡ true → (a.peer_nonce ≢ 0) ⊎ (a.reply_sent ≡ true))
unfolding sent
sent_frame a echo = ground arith

module _ (m n : ℕ) (m_set : m ≢ 0) (n_set : n ≢ 0) where
  receive_frame :
      (a : Agreement) (p : Probe) (peer restarts : ℕ)
      → a.local_nonce ≡ m
      → (a.peer_nonce ≡ 0) ⊎ (a.peer_nonce ≡ n)
      → (a.echoed ≡ true → Learned peer m restarts)
      → Honest n m peer restarts p
      → ((receive a p).1.local_nonce ≡ m)
        × (((receive a p).1.peer_nonce ≡ a.peer_nonce) ⊎ ((receive a p).1.peer_nonce ≡ n))
        × ((receive a p).1.reply_sent ≡ a.reply_sent)
        × ((receive a p).1.echoed ≡ true → Learned peer m restarts)
  unfolding receive
  receive_frame a p peer restarts own other e h = ground arith

  -- What is known stays true when the other side learns this one's number, or nothing.
  Knows-later :
      (x : Side) (peer peer' restarts restarts' : ℕ)
      → (Learned peer m restarts → Learned peer' m restarts')
      → Knows m n x peer restarts
      → Knows m n x peer' restarts'
  Knows-later x peer peer' restarts restarts' h k = record {
    own = k.own;
    other = k.other;
    honest = k.honest;
    echoed = λ e. h (k.echoed e);
    replied = k.replied;
  }

  Knows-send :
      (x : Side) (p : Probe) (peer restarts : ℕ)
      → Knows m n x peer restarts
      → Knows m n (send x p) peer restarts
  Knows-send x p peer restarts k =
      let f = sent_frame x.agreement x.agreement.peer_nonce in
      record {
        own = f.0 ∙ k.own;
        other = ground (arith, k.other, f.1);
        honest = λ q i. elim (Memᴰ.cases_cons i) [
          | inl e ↦ rw (e, f.1) (k.own, ground (arith, k.other))
          | inr j ↦ rw f.1 (k.honest q j)
        ];
        echoed = λ e. k.echoed (sym f.2 ∙ e);
        replied = λ e.
            let known : x.agreement.peer_nonce ≡ n = ground (arith, k.other, k.replied, f.3 e) in
            (f.1 ∙ known, (outgoing x.agreement p, Memᴰ.head refl, refl, known));
      }

  Knows-take_in :
      (x : Side) (p : Probe) (peer restarts : ℕ)
      → Knows m n x peer restarts
      → Honest n m peer restarts p
      → Knows m n (take_in x p) peer restarts
  Knows-take_in x p peer restarts k h =
      let f = receive_frame x.agreement p peer restarts k.own k.other k.echoed h in
      record {
        own = f.0;
        other = ground (arith, k.other, f.1);
        honest = λ q i. ground (arith, k.honest q i, f.1);
        echoed = f.3;
        replied = λ e. let r = k.replied (sym f.2 ∙ e) in (ground (arith, r.0, f.1), r.1);
      }

  Knows-restart :
      (x : Side) (peer restarts : ℕ)
      → Knows m n x peer restarts
      → Knows m n (restart x) peer restarts
  Knows-restart x peer restarts k = record {
    own = k.own;
    other = inl refl;
    honest = λ q i. ground (arith, k.honest q i);
    echoed = λ e. ground (arith, e);
    replied = λ e. ground (arith, e);
  }

-- Both sides at once.
abbrev Both : (m n : ℕ) → Side → Side → Type 0
Both m n x y =
    Knows m n x y.agreement.peer_nonce y.restarts × Knows n m y x.agreement.peer_nonce x.restarts

module _ (m n : ℕ) (m_set : m ≢ 0) (n_set : n ≢ 0) where
  -- One side acts: a call on the left keeps what both know.
  left_send : (x y : Side) (p : Probe) → Both m n x y → Both m n (send x p) y
  left_send x y p k = (
    Knows-send m n m_set n_set x p y.agreement.peer_nonce y.restarts k.0,
    Knows-later n m n_set m_set y _ _ x.restarts x.restarts
        (λ l. ground (arith, l, (sent_frame x.agreement x.agreement.peer_nonce).1)) k.1,
  )

  left_take_in : (x y : Side) (p : Probe) → Memᴰ p y.log → Both m n x y → Both m n (take_in x p) y
  left_take_in x y p i k =
      let h = k.1.honest p i in
      let f =
        receive_frame m n m_set n_set x.agreement p y.agreement.peer_nonce y.restarts k.0.own
          k.0.other k.0.echoed h in
      (
        Knows-take_in m n m_set n_set x p y.agreement.peer_nonce y.restarts k.0 h,
        Knows-later n m n_set m_set y _ _ x.restarts x.restarts (λ l. ground (arith, l, f.1)) k.1,
      )

  left_restart : (x y : Side) → Both m n x y → Both m n (restart x) y
  left_restart x y k = (
    Knows-restart m n m_set n_set x y.agreement.peer_nonce y.restarts k.0,
    Knows-later n m n_set m_set y _ _ x.restarts (suc x.restarts) (λ l. inr (omega arith)) k.1,
  )

abbrev swap : {m n : ℕ} {x y : Side} → Both m n x y → Both n m y x
swap k = (k.1, k.0)

module _ (m n : ℕ) (m_set : m ≢ 0) (n_set : n ≢ 0) where
  Inv-Step : {x y x' y' : Side} → Both m n x y → Step x y x' y' → Both m n x' y'
  Inv-Step {x} {y} k (left_sends p) = left_send m n m_set n_set x y p k
  Inv-Step {x} {y} k (right_sends p) = swap (left_send n m n_set m_set y x p (swap k))
  Inv-Step {x} {y} k (left_receives p i) = left_take_in m n m_set n_set x y p i k
  Inv-Step {x} {y} k (right_receives p i) = swap (left_take_in n m n_set m_set y x p i (swap k))
  Inv-Step {x} {y} k left_restarts = left_restart m n m_set n_set x y k
  Inv-Step {x} {y} k right_restarts = swap (left_restart n m n_set m_set y x (swap k))

  fresh-Knows : (a b : ℕ) → Knows a b (start a) 0 0
  fresh-Knows a b = record {
    own = refl;
    other = inl refl;
    honest = λ p i. elim i [ ];
    echoed = λ e. ground (arith, e);
    replied = λ e. ground (arith, e);
  }

  Inv-Reach : {x y : Side} → Reach m n x y → Both m n x y
  Inv-Reach begin = (fresh-Knows m n, fresh-Knows n m)
  Inv-Reach (next r s) = Inv-Step (Inv-Reach r) s

-- The answer that ends the search of the other side.
finish :
    (m n : ℕ) (a : Agreement) (p : Probe)
    → m ≢ 0
    → n ≢ 0
    → m ≢ n
    → a.local_nonce ≡ n
    → (a.peer_nonce ≡ 0) ⊎ (a.peer_nonce ≡ m)
    → p.extended ≡ true
    → p.nonce ≡ m
    → p.echo_nonce ≡ n
    → is_ready (sent (receive a p).1 m) ≡ true
unfolding receive sent is_ready
finish m n a p hm hn d own other x e f = ground arith

ready_parts : (a : Agreement) → is_ready a ≡ true → (a.echoed ≡ true) × (a.reply_sent ≡ true)
unfolding is_ready
ready_parts a h = ground arith

-- Two launchers with different session numbers that are not 0, which send probes of the longer form in any
-- order of sending and receiving, with probes lost, repeated and reordered, and each starting again at any time. When one
-- of them is ready, it has the other's number; the other has its number, or has started again and has none;
-- and among the probes that it has sent is one that makes the other ready as well, as soon as that
-- arrives and one more answer is sent.
pub ready-paired :
    (m n : ℕ) (x y : Side)
    → m ≢ 0
    → n ≢ 0
    → m ≢ n
    → Reach m n x y
    → is_ready x.agreement ≡ true
    → (x.agreement.peer_nonce ≡ n)
      × ((y.agreement.peer_nonce ≡ m) ⊎ ((y.agreement.peer_nonce ≡ 0) × (0 < y.restarts)))
      × ((p : Probe) × Memᴰ p x.log × (is_ready (sent (receive y.agreement p).1 m) ≡ true))
ready-paired m n x y hm hn d r h =
    let k = Inv-Reach m n hm hn r in
    let e = ready_parts x.agreement h in
    let q = k.0.replied e.1 in
    let learned = k.0.echoed e.0 in
    (
      q.0,
      ground (arith, learned, k.1.other),
      (
        q.1.0,
        q.1.1,
        finish m n y.agreement q.1.0 hm hn d k.1.own k.1.other q.1.2 (k.0.honest q.1.0 q.1.1).0
            q.1.3,
      ),
    )
