-- ===== src/Packets/Queue.antt =====
-- What a packet buffer promises: a bounded queue of whole datagrams, oldest first.
use waga_strim.Base.{
  ℕ, ◌+◌, Bool, true, List, [], ◌∷◌, ◌++◌, ltb, ◌==◌, if◌then◌else◌, length, take,
}
use waga_strim.Packets.{
  Bytes, receive_buffer_bytes, WriteResult, wrote, closed_pipe, short_buffer, full, ReadResult, got,
  deadline_exceeded, eof, would_block,
}

pub record Queue : Type 0 where
  pub packets : List Bytes
  pub closed : Bool

-- The storage that the datagrams take, two bytes each for the length.
abbrev pub weight : List Bytes → ℕ
weight [] = 0
weight (p ∷ ps) = length p + 2 + weight ps

unfoldable pub write : Queue → Bytes → Queue × WriteResult
write q packet =
    if q.closed
    then (q, closed_pipe)
    else if length packet == 0
    then (q, wrote 0)
    else if ltb 65535 (length packet)
    then (q, short_buffer)
    else if ltb receive_buffer_bytes (weight q.packets + length packet + 2)
    then (q, full)
    else (record q { packets = q.packets ++ (packet ∷ []) }, wrote (length packet))

-- A read takes the oldest datagram whole; what `room` cannot hold of it is lost.
unfoldable pub take_packet : List Bytes → Bool → ℕ → List Bytes × ReadResult
take_packet [] closed room = ([], if closed then eof else would_block)
take_packet (p ∷ ps) closed room = (ps, got (take room p) (ltb room (length p)))

unfoldable pub read : Queue → Bool → ℕ → Queue × ReadResult
read q expired room =
    let (ps, result) = take_packet q.packets q.closed room in
    if expired then (q, deadline_exceeded) else (record q { packets = ps }, result)

unfoldable pub close : Queue → Queue
close q = record q { closed = true }
