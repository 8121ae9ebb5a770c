-- ===== src/Network/Receive/Closed.antt =====
-- What a packet does after the end of a session.
use cccaster_ver_b.Prelude.{
  ℕ, ◌≡◌, refl, ap, sym, inl, inr, Bool, Bool-cases, true, not, ◌&&◌, ◌||◌, ltb, ◌==◌,
  if◌then◌else◌,
}
use cccaster_ver_b.Prelude.Int.{ℤ}
use cccaster_ver_b.Network.Packet.{
  Datagram, header_size, cc10_magic, wire_version, magic_of, is_session_close_packet,
}
use cccaster_ver_b.Network.Receiver.{Receiver, ClockCalls}
use cccaster_ver_b.Network.Receive.{process_received_packet}

-- The datagram is one of this program, and of another version.
abbrev pub is_other_version : Datagram → Bool
is_other_version d =
    not (ltb d.size header_size || not (magic_of d == cc10_magic))
    && not (d.header 6 == wire_version)

module _ {C : Type 0} where
  closed_again : (r : Receiver C) → r.peer_closed ≡ true → record r { peer_closed = true } ≡ r
  closed_again r h = ap (λ b. record r { peer_closed = b }) (sym h)

  -- Once a session is closed, a datagram of another version of this program sets the protocol error and
  -- changes nothing else, and any other datagram changes nothing.
  pub closed_ignores :
      (calls : ClockCalls C) (generation size : ℕ) (r : Receiver C) (d : Datagram) (time : ℤ)
      → r.peer_closed ≡ true
      → process_received_packet calls generation size r d time
        ≡ (if is_other_version d then record r { protocol_error = true } else r)
  unfolding process_received_packet
  closed_ignores calls generation size r d time h =
      elim (Bool-cases (ltb d.size header_size || not (magic_of d == cc10_magic))) [
        | inl foreign ↦ rw foreign refl
        | inr known ↦ elim (Bool-cases (not (d.header 6 == wire_version))) [
          | inl other ↦ rw (known, other) refl
          | inr same ↦ elim (Bool-cases (is_session_close_packet d)) [
            | inl closing ↦ rw (known, same, closing) (closed_again r h)
            | inr no_notice ↦ rw (known, same, no_notice, h) refl
          ]
        ]
      ]
