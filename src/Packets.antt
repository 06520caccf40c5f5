-- ===== src/Packets.antt =====
-- internal/ingest/packet_buffer.go: the queue of decrypted datagrams, a byte ring that grows on
-- demand. A method returns the new buffer; the mutex makes each call one step. `wake` is whether the
-- one-place channel holds a token; the deadline, a third-party timer, is an argument of a read.
pub mod Queue
pub mod Ring
pub mod Grow
pub mod Write
pub mod Read
pub mod Refine
mod Tests
use waga_strim.Base.{
  ℕ, zero, suc, ◌+◌, ◌-◌, ◌*◌, ◌/◌, ◌%◌, min, max, Bool, true, false, Option, none, some, List, [],
  ◌∷◌, ◌++◌, ltb, ◌==◌, if◌then◌else◌, length, get_or, set, take, drop, replicate,
}

abbrev pub receive_buffer_bytes : ℕ
receive_buffer_bytes = 1_000_000

abbrev pub Bytes : Type 0
Bytes = List ℕ

pub record PacketBuffer : Type 0 where
  pub bytes : Bytes
  pub head : ℕ
  pub used : ℕ
  pub closed : Bool
  pub wake : Bool
  -- `onPacket != nil`, and what it has been called with, newest first.
  pub observed : Option (List Bytes)

-- `newPacketBuffer`, with or without `onPacket`.
unfoldable pub new_packet_buffer : Option (List Bytes) → PacketBuffer
new_packet_buffer observed = record {
  bytes = [];
  head = 0;
  used = 0;
  closed = false;
  wake = false;
  observed = observed;
}

-- Go's `copy(dst[offset:], src)`, for an offset within `dst`.
unfoldable pub copy_at : Bytes → ℕ → Bytes → Bytes
copy_at dst offset src =
    let n = min (length dst - offset) (length src) in
    take offset dst ++ (take n src ++ drop (offset + n) dst)

-- `dst[from:to]`
abbrev pub slice : Bytes → ℕ → ℕ → Bytes
slice xs from to = take (to - from) (drop from xs)

pub observe : Option (List Bytes) → Bytes → Option (List Bytes)
observe none packet = none
observe (some calls) packet = some (packet ∷ calls)

-- The new array of a growing write: the bytes in use move to its start.
unfoldable pub grown : PacketBuffer → ℕ → Bytes
grown b needed =
    let size = min receive_buffer_bytes (max 2048 (max (2 * length b.bytes) needed)) in
    let first = min b.used (length b.bytes - b.head) in
    let moved = copy_at (replicate size 0) 0 (slice b.bytes b.head (b.head + first)) in
    copy_at moved first (slice b.bytes 0 (b.used - first))

unfoldable pub make_room : PacketBuffer → ℕ → PacketBuffer
make_room b needed =
    if ltb (length b.bytes) needed then record b { bytes = grown b needed; head = 0 } else b

-- The two length bytes, high first, then the packet, from `tail` on and round the end.
unfoldable pub stored : Bytes → ℕ → Bytes → Bytes
stored bytes tail packet =
    let size = length bytes in
    let high = set bytes tail ((length packet / 256) % 256) in
    let low = set high ((tail + 1) % size) (length packet % 256) in
    let start = (tail + 2) % size in
    let n = min (size - start) (length packet) in
    copy_at (copy_at low start packet) 0 (drop n packet)

unfoldable pub append_packet : PacketBuffer → Bytes → PacketBuffer
append_packet b packet = record b {
  bytes = stored b.bytes ((b.head + b.used) % length b.bytes) packet;
  used = b.used + length packet + 2;
  wake = true;
}

pub data WriteResult : Type 0 where
  wrote : ℕ → WriteResult
  closed_pipe short_buffer full : WriteResult

unfoldable pub write : PacketBuffer → Bytes → PacketBuffer × WriteResult
unfolding observe
write b packet =
    let needed = b.used + length packet + 2 in
    let b' = record b { observed = observe b.observed packet } in
    if b.closed
    then (b, closed_pipe)
    else if length packet == 0
    then (b, wrote 0)
    else if ltb 65535 (length packet)
    then (b, short_buffer)
    else if ltb receive_buffer_bytes needed
    then (b', full)
    else (append_packet (make_room b' needed) packet, wrote (length packet))

-- The length that the first two bytes in use give.
unfoldable pub frame_size : PacketBuffer → ℕ
frame_size b = get_or b.bytes b.head 0 * 256 + get_or b.bytes ((b.head + 1) % length b.bytes) 0

-- `readPacket` into `room` bytes: the bytes copied, and whether the rest of the datagram was cut.
unfoldable pub read_packet : PacketBuffer → ℕ → PacketBuffer × Bytes × Bool
unfolding frame_size
read_packet b room =
    let cap = length b.bytes in
    let size = frame_size b in
    let start = (b.head + 2) % cap in
    let n = min size room in
    let front = slice b.bytes start (min (start + n) cap) in
    let used = b.used - (size + 2) in
    (
      record b {
        head = if used == 0 then 0 else (start + size) % cap;
        used = used;
        wake = if used == 0 then b.wake else true;
      },
      front ++ slice b.bytes 0 (n - length front),
      ltb n size,
    )

pub data ReadResult : Type 0 where
  -- The bytes read; `true` comes with `io.ErrShortBuffer`.
  got : Bytes → Bool → ReadResult
  deadline_exceeded eof : ReadResult
  -- The call waits for a token, for the close or for the deadline, and tries again.
  would_block : ReadResult

unfoldable pub read : PacketBuffer → Bool → ℕ → PacketBuffer × ReadResult
read b expired room =
    let (b', bytes, cut) = read_packet b room in
    if expired
    then (b, deadline_exceeded)
    else if ltb 0 b.used
    then (b', got bytes cut)
    else if b.closed
    then (b, eof)
    else (b, would_block)

-- `Close`; what is queued can still be read.
unfoldable pub close : PacketBuffer → PacketBuffer
close b = record b { closed = true }
