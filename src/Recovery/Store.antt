-- ===== src/Recovery/Store.antt =====
-- The packet history of internal/ingest/recovery.go, and the rebuilding of a lost packet.
pub mod Laws
use waga_strim.Base.{
  ℕ, zero, suc, ◌+◌, bit_xor, Bool, true, false, not, Option, none, some, List, [], ◌∷◌, ◌++◌, ltb,
  leb, ◌==◌, if◌then◌else◌, length, get_elem?, take, drop,
}
use waga_strim.Base.Maps.{Table, find, put, remove, has}
use waga_strim.Recovery.{
  Bytes, PacketId, StreamId, Stream, Entry, Group, Datagram, State, history_size, packet_key,
  stream_key, number_key,
}

-- `for len(c.packets) > recoveryHistorySize`: each pass takes one packet out, so that their number is
-- enough fuel. Go panics on an order that has ended; here the loop stops with the packets it has.
unfoldable pub evict : ℕ → State → State
evict zero s = s
evict (suc n) s =
    let rest = λ (id : PacketId).
      evict n (record s { packets = remove id s.packets; packet_head = suc s.packet_head }) in
    if ltb history_size (length s.packets)
    then elim (get_elem? s.packet_order s.packet_head) [ none ↦ s | some id ↦ rest id ]
    else s

unfoldable pub compact : State → State
compact s =
    if leb history_size s.packet_head
    then record s { packet_order = drop s.packet_head s.packet_order; packet_head = 0 }
    else s

unfoldable pub remembered : State → PacketId → Bytes → State
remembered s id bytes = record s {
  packets = put id bytes s.packets;
  packet_order = s.packet_order ++ (id ∷ []);
}

-- `storePacketLocked`
unfoldable pub store_packet : State → PacketId → Bytes → State
store_packet s id bytes =
    let s' = remembered s id bytes in
    if has id s.packets then s else compact (evict (length s'.packets) s')

-- The sequence numbers of the entries that the history does not have.
unfoldable pub missing_of : Table PacketId Bytes → List Entry → List ℕ
missing_of packets [] = []
missing_of packets (e ∷ es) =
    let rest = missing_of packets es in
    if has e.id packets then rest else e.id.sequence_number ∷ rest

-- `for index := range packet { data[index] ^= packet[index] }`. (Go panics where `packet` is longer;
-- the parity of a parsed group is as long as its longest entry.)
unfoldable pub xor_in : Bytes → Bytes → Bytes
xor_in [] packet = []
xor_in (d ∷ ds) [] = d ∷ ds
xor_in (d ∷ ds) (p ∷ ps) = bit_xor d p ∷ xor_in ds ps

-- The loop over the entries: the rest of the parity and the last missing entry, or none where a
-- packet has not the length of its entry.
unfoldable pub combine :
    Table PacketId Bytes → List Entry → Bytes → Option Entry → Option (Bytes × Option Entry)
combine packets [] bytes wanted = some (bytes, wanted)
combine packets (e ∷ es) bytes wanted = elim (find e.id packets) [
  | none ↦ combine packets es bytes (some e)
  | some packet ↦
      let rest = combine packets es (xor_in bytes packet) wanted in
      if length packet == e.length then rest else none
]

abbrev pub not_missing : ℕ → Stream → Stream
not_missing n stream = record stream { missing = remove n stream.missing }

abbrev pub on_stream : StreamId → (Stream → Stream) → Table StreamId Stream → Table StreamId Stream
on_stream id f streams = elim (find id streams) [
  | none ↦ streams
  | some stream ↦ put id (f stream) streams
]

-- The stores of a rebuilt packet: into the history, and out of what its stream asks for.
unfoldable pub rebuilt : State → PacketId → Bytes → State
rebuilt s id bytes =
    let s' = store_packet s id bytes in
    let stream_id : StreamId = record { remote = id.remote; ssrc = id.ssrc } in
    record s' { streams = on_stream stream_id (not_missing id.sequence_number) s'.streams }

-- `recoverGroupLocked`: the new state, the datagram if there is one, and the missing numbers.
unfoldable pub recover_group : State → Group → State × Option Datagram × List ℕ
recover_group s g =
    let missing = missing_of s.packets g.entries in
    if length missing == 1
    then elim (combine s.packets g.entries g.parity none) [
      | some (bytes, some wanted) ↦
          let bytes' = take wanted.length bytes in
          let datagram : Datagram = record {
            bytes = bytes';
            addr = g.remote;
            identity = wanted.id.remote;
          } in
          (rebuilt s wanted.id bytes', some datagram, missing)
      | _ ↦ (s, none, missing)
    ]
    else (s, none, missing)
