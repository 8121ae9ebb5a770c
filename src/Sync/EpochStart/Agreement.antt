-- ===== src/Sync/EpochStart/Agreement.antt =====
-- The two gates together, over a network that delays, repeats, reorders and loses notices.
use cccaster_ver_b.Prelude.{
  ℕ, ◌+◌, ◌≤◌, ◌<◌, ◌≡◌, ◌≢◌, refl, ◌⊎◌, true, false, List, [], ◌∷◌, arith, inl, ◌∙◌, inr, sym,
}
use cccaster_ver_b.Prelude.Int.{ℤ, pos, clamp_ℤ}
use cccaster_ver_b.Prelude.Words.{u32_mod}
use cccaster_ver_b.Sync.EpochStart.{
  EpochStart, Gate, Verdict, begin, update, host_offer, host_commit, client_accept, accepted,
  commit, committed, armed,
}

-- Every state that a gate has had may have been sent any number of times.
pub record System : Type 0 where
  pub host : Gate
  pub client : Gate
  pub from_host : List EpochStart
  pub from_client : List EpochStart

pub data In (m : EpochStart) : List EpochStart → Type 0 where
  here : {ms : List EpochStart} → In m (m ∷ ms)
  there : {k : EpochStart} {ms : List EpochStart} → In m ms → In m (k ∷ ms)

abbrev pub start : ℕ → System
start e = record {
  host = begin e;
  client = begin e;
  from_host = (begin e).local ∷ [];
  from_client = (begin e).local ∷ [];
}

abbrev pub host_turn : System → EpochStart → ℤ → ℤ → ℤ → Verdict × Gate
host_turn s m peer_local now rtt = update s.host true m peer_local now rtt

abbrev pub client_turn : System → EpochStart → ℤ → ℤ → ℤ → Verdict × Gate
client_turn s m peer_local now rtt = update s.client false m peer_local now rtt

-- One update of either side, at any time and with any notice of the other side. The host makes
-- fewer than 2 ^ 32 - 1 proposals in an epoch.
pub data Step (s : System) : System → Type 0 where
  host_steps :
      (m : EpochStart) (peer_local now rtt : ℤ)
      → In m s.from_client
      → s.host.local.serial + 1 < u32_mod
      → Step s (record s {
        host = (host_turn s m peer_local now rtt).1;
        from_host = (host_turn s m peer_local now rtt).1.local ∷ s.from_host;
      })
  client_steps :
      (m : EpochStart) (peer_local now rtt : ℤ)
      → In m s.from_host
      → Step s (record s {
        client = (client_turn s m peer_local now rtt).1;
        from_client = (client_turn s m peer_local now rtt).1.local ∷ s.from_client;
      })

pub data Reach (s : System) : System → Type 0 where
  done : Reach s s
  next : {t u : System} → Reach s t → Step t u → Reach s u

-- The same start of the same epoch.
abbrev pub Same : EpochStart → EpochStart → Type 0
Same a b = (a.epoch ≡ b.epoch) × (a.serial ≡ b.serial) × (a.host_ticks ≡ b.host_ticks)

abbrev HostSent : EpochStart → EpochStart → Type 0
HostSent h m =
    (m.epoch ≡ h.epoch) × (m.serial ≤ h.serial) × (m.stage ≡ commit → (h.stage ≡ commit) × Same m h)

abbrev ClientSent : EpochStart → EpochStart → Type 0
ClientSent c m = (m.epoch ≡ c.epoch) × (m.stage ≡ committed → (c.stage ≡ committed) × Same m c)

abbrev All : (EpochStart → Type 0) → List EpochStart → Type 0
All P [] = Unit {0}
All P (m ∷ ms) = P m × All P ms

All-In :
    (P : EpochStart → Type 0) (m : EpochStart) (ms : List EpochStart) → All P ms → In m ms → P m
All-In P m [] h i = elim i [ ]
All-In P m (k ∷ ms) h here = h.0
All-In P m (k ∷ ms) h (there i) = All-In P m ms h.1 i

All-map :
    (P Q : EpochStart → Type 0) (ms : List EpochStart)
    → ((m : EpochStart) → P m → Q m)
    → All P ms
    → All Q ms
All-map P Q [] f h = tt
All-map P Q (m ∷ ms) f h = (f m h.0, All-map P Q ms f h.1)

record Inv (h c : EpochStart) (from_host from_client : List EpochStart) : Type 0 where
  epochs : c.epoch ≡ h.epoch
  behind : c.serial ≤ h.serial
  sent_h : All (HostSent h) from_host
  sent_c : All (ClientSent c) from_client
  agreed : c.stage ≡ committed → (h.stage ≡ commit) × Same c h

-- What an update does to the host's notice: nothing, a new proposal, or the commit of the present
-- one, and only before the commit.
abbrev HostMove : EpochStart → EpochStart → Type 0
HostMove h k = (k ≡ h) ⊎ ((h.stage ≢ commit) × (k.epoch ≡ h.epoch) × (h.serial ≤ k.serial))

host_offer-move :
    (g : Gate) (now rtt : ℤ)
    → g.local.serial + 1 < u32_mod
    → HostMove g.local (host_offer g now rtt).local
unfolding host_offer
host_offer-move g now rtt h = ground arith

host_commit-move : (g : Gate) (m : EpochStart) → HostMove g.local (host_commit g m).local
unfolding host_commit
host_commit-move g m = ground arith

host-move :
    (g : Gate) (m : EpochStart) (peer_local now rtt : ℤ)
    → g.local.serial + 1 < u32_mod
    → HostMove g.local (update g true m peer_local now rtt).1.local
unfolding update
host-move g m peer_local now rtt h = ground (
  arith,
  host_offer-move g now (clamp_ℤ rtt (pos 0) (pos 60_000_000)) h,
  host_commit-move (host_offer g now (clamp_ℤ rtt (pos 0) (pos 60_000_000))) m,
)

-- What an update does to the client's notice.
abbrev ClientMove : EpochStart → EpochStart → EpochStart → Type 0
ClientMove m c k =
    (k ≡ c)
    ⊎ ((c.serial < m.serial) × (k.epoch ≡ c.epoch) × (k.serial ≡ m.serial) × (k.stage ≡ accepted))
    ⊎ ((m.stage ≡ commit)
        × (k.stage ≡ committed)
        × Same k m
        × (k.epoch ≡ c.epoch)
        × (c.stage ≢ committed))

client_accept-move :
    (g : Gate) (m : EpochStart) (peer_local now : ℤ)
    → m.epoch ≡ g.local.epoch
    → ClientMove m g.local (client_accept g m peer_local now).local
unfolding client_accept
client_accept-move g m peer_local now h = ground arith

client-move :
    (g : Gate) (m : EpochStart) (peer_local now rtt : ℤ)
    → ClientMove m g.local (update g false m peer_local now rtt).1.local
unfolding update client_accept
client-move g m peer_local now rtt = ground arith

HostSent-move :
    (h k m : EpochStart)
    → (h.stage ≢ commit) × (k.epoch ≡ h.epoch) × (h.serial ≤ k.serial)
    → HostSent h m
    → HostSent k m
HostSent-move h k m v s = (ground arith, omega arith, λ e. absurd (v.0 (s.2 e).0))

Inv-host :
    (h c k : EpochStart) (fh fc : List EpochStart)
    → HostMove h k
    → Inv h c fh fc
    → Inv k c (k ∷ fh) fc
Inv-host h c k fh fc (inl e) v = rw e (record {
  epochs = v.epochs;
  behind = v.behind;
  sent_h = ((refl, omega arith, λ e. (e, (refl, refl, refl))), v.sent_h);
  sent_c = v.sent_c;
  agreed = v.agreed;
})
Inv-host h c k fh fc (inr e) v = record {
  epochs = v.epochs ∙ sym e.1;
  behind = omega (arith, v.behind, e.2);
  sent_h = (
    (refl, omega arith, λ e. (e, (refl, refl, refl))),
    All-map (HostSent h) (HostSent k) fh (λ m. HostSent-move h k m e) v.sent_h,
  );
  sent_c = v.sent_c;
  agreed = λ p. absurd (e.0 (v.agreed p).0);
}

ClientSent-move :
    (c k m : EpochStart) → c.stage ≢ committed → k.epoch ≡ c.epoch → ClientSent c m → ClientSent k m
ClientSent-move c k m n e s = (s.0 ∙ sym e, λ p. absurd (n (s.1 p).0))

Inv-client :
    (h c k m : EpochStart) (fh fc : List EpochStart)
    → HostSent h m
    → ClientMove m c k
    → Inv h c fh fc
    → Inv h k fh (k ∷ fc)
Inv-client h c k m fh fc s (inl e) v = rw e (record {
  epochs = v.epochs;
  behind = v.behind;
  sent_h = v.sent_h;
  sent_c = ((refl, λ e. (e, (refl, refl, refl))), v.sent_c);
  agreed = v.agreed;
})
Inv-client h c k m fh fc s (inr (inl e)) v =
    let open_ : c.stage ≢ committed = λ p. absurd (omega (arith, (v.agreed p).1.1, e.0, s.1)) in
    record {
      epochs = e.1 ∙ v.epochs;
      behind = omega (arith, e.2, s.1);
      sent_h = v.sent_h;
      sent_c = (
        (refl, λ e. (e, (refl, refl, refl))),
        All-map (ClientSent c) (ClientSent k) fc (λ m. ClientSent-move c k m open_ e.1) v.sent_c,
      );
      agreed = λ p. absurd (omega (arith, p, e.3));
    }
Inv-client h c k m fh fc s (inr (inr e)) v =
    let now_ : (h.stage ≡ commit) × Same m h = s.2 e.0 in
    record {
      epochs = e.3 ∙ v.epochs;
      behind = omega (arith, e.2.1, now_.1.1);
      sent_h = v.sent_h;
      sent_c = (
        (refl, λ e. (e, (refl, refl, refl))),
        All-map (ClientSent c) (ClientSent k) fc (λ m. ClientSent-move c k m e.4 e.3) v.sent_c,
      );
      agreed = λ p. (now_.0, (e.2.0 ∙ now_.1.0, e.2.1 ∙ now_.1.1, e.2.2 ∙ now_.1.2));
    }

abbrev SystemInv : System → Type 0
SystemInv s = Inv s.host.local s.client.local s.from_host s.from_client

start-Inv : (e : ℕ) → SystemInv (start e)
unfolding begin
start-Inv e = record {
  epochs = refl;
  behind = omega arith;
  sent_h = ((refl, omega arith, λ p. absurd (omega arith)), tt);
  sent_c = ((refl, λ p. absurd (omega arith)), tt);
  agreed = λ p. absurd (omega arith);
}

Step-Inv : {s t : System} → Step s t → SystemInv s → SystemInv t
Step-Inv {s} (host_steps m pl now rtt i b) v =
    Inv-host _ _ _ _ _ (host-move s.host m pl now rtt b) v
Step-Inv {s} (client_steps m pl now rtt i) v =
    Inv-client _ _ _ m _ _ (All-In (HostSent s.host.local) m _ v.sent_h i)
      (client-move s.client m pl now rtt) v

Reach-Inv : {s t : System} → SystemInv s → Reach s t → SystemInv t
Reach-Inv v done = v
Reach-Inv v (next r st) = Step-Inv st (Reach-Inv v r)

host_armed :
    (g : Gate) (m : EpochStart) (pl now rtt : ℤ)
    → (update g true m pl now rtt).0 ≡ armed
    → let k = (update g true m pl now rtt).1.local in
      (m.stage ≡ committed) × (k.stage ≡ commit) × Same k m
unfolding update
host_armed g m pl now rtt h = ground arith

client_armed :
    (g : Gate) (m : EpochStart) (pl now rtt : ℤ)
    → (update g false m pl now rtt).0 ≡ armed
    → (m.stage ≡ commit) × Same (update g false m pl now rtt).1.local m
unfolding update client_accept
client_armed g m pl now rtt h = ground arith

-- In every state that the two gates reach from the start of an epoch, over a network that delays,
-- repeats, reorders and loses notices: if the host's update arms on a notice that the client has
-- sent, the client is committed to the very epoch, proposal and start tick that the host is. The
-- host makes fewer than 2 ^ 32 - 1 proposals.
pub host_armed_agree :
    (e : ℕ) (s : System) (m : EpochStart) (pl now rtt : ℤ)
    → Reach (start e) s
    → In m s.from_client
    → (update s.host true m pl now rtt).0 ≡ armed
    → (s.client.local.stage ≡ committed)
      × Same s.client.local (update s.host true m pl now rtt).1.local
host_armed_agree e s m pl now rtt r i h =
    let v = Reach-Inv (start-Inv e) r in
    let a = host_armed s.host m pl now rtt h in
    let c = (All-In (ClientSent s.client.local) m _ v.sent_c i).1 a.0 in
    (c.0, (sym c.1.0 ∙ sym a.2.0, sym c.1.1 ∙ sym a.2.1, sym c.1.2 ∙ sym a.2.2))

-- In every state that the two gates reach from the start of an epoch, over such a network: if the
-- client's update arms on a notice that the host has sent, the host has committed to the epoch,
-- proposal and start tick that the client then holds.
pub client_armed_agree :
    (e : ℕ) (s : System) (m : EpochStart) (pl now rtt : ℤ)
    → Reach (start e) s
    → In m s.from_host
    → (update s.client false m pl now rtt).0 ≡ armed
    → (s.host.local.stage ≡ commit) × Same (update s.client false m pl now rtt).1.local s.host.local
client_armed_agree e s m pl now rtt r i h =
    let v = Reach-Inv (start-Inv e) r in
    let a = client_armed s.client m pl now rtt h in
    let c = (All-In (HostSent s.host.local) m _ v.sent_h i).2 a.0 in
    (c.0, (a.1.0 ∙ c.1.0, a.1.1 ∙ c.1.1, a.1.2 ∙ c.1.2))
