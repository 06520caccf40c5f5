-- ===== src/Lib.antt =====
-- wagaStrim takes video from a camera over several bonded links (WHIP) and plays it to viewers (WHEP).
-- A datagram of a camera passes the recovery layer (internal/ingest/recovery.go), which remembers it,
-- notes the gaps of its stream, rebuilds lost packets from parity and asks for others again; the
-- decrypted packets wait in a byte ring for their reader (internal/ingest/packet_buffer.go); the relay
-- holds them in a playout buffer (internal/relay/delay.go) and gives them out when they are due, by a
-- delay that grows on late arrivals and returns slowly (internal/dynamicdelay/delay.go). The settings
-- say which key opens which camera, in which role (internal/config); the sessions of the publishers
-- (internal/ingest/whip.go) and of the viewers (internal/egress) come and go by it.
--
-- Files and sources:
--   Base       shared notation, integers, lists, maps, the laws of exclusive or
--   Recovery   internal/ingest/recovery.go. Store: storePacketLocked, recoverGroupLocked. Wire:
--              parseRecoveryGroup, recoveryRTPPacketID, makeRecoveryRequest, hasRecoveryMagic. Gaps:
--              trackGapLocked, dueRepairs. Binding: observeBinding, rememberBindingLocked,
--              confirmBindingLocked, authenticatedIdentity. Streams: streamLocked and
--              the trims. Groups: storeGroupLocked. Repair: how parity gives a packet back
--   Packets    internal/ingest/packet_buffer.go: Write, Read, Close, the growing ring; Queue is the
--              abstract queue that they implement
--   Playout    internal/relay/delay.go. Heap: packetHeap. Pace: paceHoldLocked,
--              startGroupLocked, chargePaceLocked. Clock: rtpDelta, playoutOf, correctionMargin.
--              Buffer: Push, Pop, SetTarget, Close, dynamicOffsetLocked, with moveClockLocked and
--              staleResetPacketLocked of internal/relay/clock.go
--   Keyframe   internal/relay/keyframe.go: where playback can resume
--   Publish    internal/ingest/whip.go: the locked sections of negotiate, clearPrevious, stopSession,
--              forget, currentLocked, Close. World: the calls in progress, as events in any order
--   Egress     internal/egress/whep.go: reserve, commit, release, CloseIngest, Teardown, forget, Close.
--              World: the calls in progress, as events in any order
--   Config     internal/config. Ingests: normalise, EffectiveDelay, GroupPeers, DelayOptions, Resolve.
--              Keys: validKey, validateIngests, staleIngests. Load: Load. Save: saveLocked and every
--              operation that changes the settings
--   Dynamic    internal/dynamicdelay/delay.go: Options, State (Curve), Controller
--
-- State is passed and returned; the mutexes of the sources make each method one step. Instants and
-- durations are integers, in nanoseconds, without Go's saturation of `Sub`, which needs 292 years. A
-- `uint16` or `uint32` is a natural number, with its wrap-around written out. A Go map is a list of
-- pairs in the order of insertion; where the source ranges over one, in an order that Go leaves open,
-- the model takes that order. Addresses are their texts.
--
-- Loops without a bound in their text recur on fuel: the eviction of packets on the number of packets,
-- the eviction of groups on the length of their order, the rise in the heap on the child's index, the
-- sinking on the length, the walk over an aggregation packet on its length. Their theorems are about the
-- result with this fuel; an eviction of groups without enough fuel would give no state, and a walk no
-- result.
--
-- Not modelled: sockets, timers, the condition variables and the rate limiter, STUN, SRTP and the
-- HTTP servers, which are the runtime or third-party code; of the program's own parts, the statistics,
-- the control interface and the rest of the relay.
pub mod Base
pub mod Dynamic
pub mod Packets
pub mod Recovery
pub mod Playout
pub mod Config
pub mod Egress
pub mod Publish
pub mod Keyframe
