-- ===== src/Lib.antt =====
-- CCCaster: netplay with rollback for a fighting game. Two copies of the game exchange the inputs
-- of each frame, run ahead with predicted inputs and correct themselves when the real ones arrive.
-- This library models the parts that decide what both players see. Theorems on single parts and on
-- pairs of them state what the two players agree on; there is none on the whole program.
--
-- Paths are from the root of the repository; the code stands under src/src.
--
-- Parts and files
--   Prelude: tests on numbers, integers as in C++ (division rounds to zero), 32-bit words, arrays of a
--     fixed size as functions of the index, bit masks.
--   Sync: what the two players exchange (src/src/core_dll/sync).
--     MatchInput: MatchInputBuffer.hpp, the ring of inputs by frame number. `write_local` is the list
--       of its atomic stores, so that a reader may run between any two.
--     FrameSequence: FrameSequence.hpp, frame numbers in blocks, one block for each screen or round.
--     EpochStart: EpochStart.hpp. `update` is EpochStartGate::Update; Agreement runs two gates against
--       each other over a network that delays, repeats, reorders and loses.
--     BoundedWait, PostRoundDelay, Settings (SettingsCommands.hpp), Selection (SelectionState.hpp),
--       Retry (RetrySelection.hpp): the files of these names. Selection.Rematch is StageRematch.hpp in
--       src/src/core_dll/engine.
--   Rollback: PredictionHistory.hpp in src/src/core_dll/rollback. It takes confirmed inputs from the
--     ring through a reader, which is a function here.
--   Timing: FrameCadence.hpp, PhaseFollower.hpp, NetworkPacing.hpp, UpdateCadence.hpp (UpdateInterval),
--     DisplayCadence.hpp (Display), BoundarySlot.hpp (Boundary), ClockContinuity.hpp and
--     ClockProjection.hpp (Projection) in src/src/core_dll/timing. Continuity tunes the clock, and its `anchor` is what Projection passes to
--     another thread: `publish` is the list of its atomic stores, with which the loads of a reader
--     interleave.
--   Network: SyncCodec.cpp in src/src/core_dll/network. Packet is the payload and its tests, Receive is
--     ProcessReceivedPacket, Build is BuildPacketInto, and Delivery puts both together. A packet feeds
--     the parts of Sync: it confirms inputs in MatchInput, and hands over notices of Selection, Retry
--     and EpochStart.
--   Scene: the input of a player on each screen, menus and the score, in src/src/core_dll/engine.
--   Spectator: the queue and the archive of Stream.hpp in src/src/core_dll/spectator.
--   Wire: datagrams byte by byte. Probe is StartupNegotiation.hpp and Close is SessionClosePacket.hpp in
--     src/src/shared_contracts, Route is RouteSelection.hpp in src/src/cli_launcher/network_wrapper.
--     Pairing lets two launchers find each other.
--   Peer: Protocol.cpp and Crypto.cpp in src/src/p2p. Text is codes and hexadecimal text, Admission the
--     requests that a host answers, Control the authenticated packets.
--   Emblem: PlayerEmblem.hpp in src/src/shared_contracts, the chunks of a picture and their receiver; Exchange
--     sends them.
--   Timeline: InputTimeline.cpp in src/src/core_dll/sync. A thread of its own samples the input of each frame,
--     passes it through Scene, adds the command of Settings, writes it into MatchInput, and sets the next
--     deadline with the parts of Timing. State is the class with what it changes, Control the calls of
--     the game, Capture and Pump are PumpTicksImpl; Steps lets the threads run in any order.
--   Sync.Clock: NetplayClock.cpp in src/src/core_dll/sync, the offset of the other player's clock.
--   Patch: CheckedPatch.hpp in src/src/shared_contracts, patches of the running game, all or none. Patch.Memory
--     is what it calls of the process.
--   Code: ConnectionHash.cpp in src/src/cli_launcher/network_wrapper, the code of an address. Code.Radix and
--     Code.Places have the numbers in a base, Code.Roundtrip base 62, Code.Seal the frame with the checksum, Code.Payload
--     the bytes of the addresses, Code.Fields and Code.Address how they are read back, Code.Cipher the key
--     by the time, Code.Base32 the older format, and Code.Window and Code.Decoded the whole code.
--   Files called Tests hold concrete runs.
--
-- Numbers
--   Unsigned fields are natural numbers, with `% 2 ^ 32` where the code relies on the wrap; the 64-bit
--   times and sums are integers without wrap. Bytes, characters and words are natural numbers, and
--   memory is little-endian. Rings are functions of the index modulo their size. The
--   loop of BoundedWait runs on a number of rounds, and a theorem says how many are enough; so does
--   the loop of Timeline.Pump, which needs at most 569 and one more for each frame that the game consumes
--   meanwhile; the search
--   for a deadline runs on rounds that halve its range, 64 of them for every 64-bit time; the loop
--   over a carry in Code runs on the carry itself, which has no more digits than that; the other
--   loops run over a number of frames that the code fixes, or over a list.
--
-- Not modelled
--   The HMAC of the control packets, `std::gcd`, the memory of a process, and `inet_pton` and
--   `inet_ntop` are parameters, with what is used of them as hypotheses. The floating-point model of
--   the other clock (PeerClockModel) is a record of operations in Sync.Clock, and the whole clock one
--   in Network.Receiver. The memory, the hooks and
--   the drawing of the game, sockets, threads, files, the windows of the launchers and the connections
--   of spectators are left out. So are the session around these parts (NetplaySession), the
--   floating-point filters, the older encoder of the connection code and STUN.
pub mod Prelude
pub mod Sync
pub mod Rollback
pub mod Timing
pub mod Wire
pub mod Peer
pub mod Emblem
pub mod Patch
pub mod Code
pub mod Timeline
pub mod Scene
pub mod Network
pub mod Spectator
