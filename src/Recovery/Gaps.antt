-- ===== src/Recovery/Gaps.antt =====
-- The gaps of a stream of internal/ingest/recovery.go: which sequence numbers it misses, and which
-- of them it asks for.
pub mod Track
pub mod Due
use waga_strim.Base.{
  ℕ, zero, suc, ◌+◌, ◌-◌, ◌%◌, max, Bool, true, false, not, ◌&&◌, ◌||◌, Option, none, some, List,
  [], ◌∷◌, ltb, leb, ◌==◌, if◌then◌else◌,
}
use waga_strim.Base.Int.{ℤ, pos, ◌-ℤ◌, ltb_ℤ}
use waga_strim.Base.Maps.{Table, put, has}
use waga_strim.Recovery.{
  Bytes, PacketId, Stream, State, history_size, request_size, retry, packet_key, number_key,
}

-- `a - b` on `uint16`
abbrev pub sub_uint16 : ℕ → ℕ → ℕ
sub_uint16 a b = (a + 65536 - b) % 65536

abbrev pub numbered : PacketId → ℕ → PacketId
numbered id n = record id { sequence_number = n }

-- The entries whose number is less than `recoveryHistorySize` behind `sequence_number`.
unfoldable pub forget_old : ℕ → Table ℕ (Option ℤ) → Table ℕ (Option ℤ)
forget_old sequence_number [] = []
forget_old sequence_number ((n, at) ∷ t) =
    let rest = forget_old sequence_number t in
    if leb history_size (sub_uint16 sequence_number n) then rest else (n, at) ∷ rest

unfoldable pub ask_one :
    Table PacketId Bytes → PacketId → ℕ → Table ℕ (Option ℤ) → Table ℕ (Option ℤ)
ask_one packets id n missing =
    if has (numbered id n) packets
    then missing
    else if has n missing
    then missing
    else put n none missing

-- The loop over the gap: `left` numbers from `highest + offset` on.
unfoldable pub ask_gap :
    Table PacketId Bytes → PacketId → ℕ → ℕ → ℕ → Table ℕ (Option ℤ) → Table ℕ (Option ℤ)
ask_gap packets id highest zero offset missing = missing
ask_gap packets id highest (suc left) offset missing =
    ask_gap packets id highest left (offset + 1)
      (ask_one packets id ((highest + offset) % 65536) missing)

unfoldable pub close_gap : Table PacketId Bytes → PacketId → Stream → ℕ → Stream
close_gap packets id stream delta =
    let start = max 1 (delta + 1 - history_size) in
    let fresh =
      if ltb 1 delta then forget_old id.sequence_number stream.missing else stream.missing in
    record stream {
      missing = ask_gap packets id stream.highest (delta - start) start fresh;
      highest = id.sequence_number;
    }

-- `trackGapLocked`
unfoldable pub track_gap : Table PacketId Bytes → PacketId → Stream → Stream
track_gap packets id stream =
    let delta = sub_uint16 id.sequence_number stream.highest in
    if not stream.based
    then record stream { highest = id.sequence_number; based = true }
    else if (delta == 0) || leb 0x8000 delta
    then stream
    else close_gap packets id stream delta

unfoldable pub is_stale : Stream → ℕ → Bool
is_stale stream n =
    let behind = sub_uint16 stream.highest n in
    stream.based && (leb history_size behind && ltb behind 0x8000)

-- `!requested.IsZero() && now.Sub(requested) < recoveryRetry`
unfoldable pub is_waiting : ℤ → Option ℤ → Bool
is_waiting now none = false
is_waiting now (some requested) = ltb_ℤ (now -ℤ requested) (pos retry)

-- The loop of `dueRepairs`, with room for so many more numbers: what stays missing, and what is due.
unfoldable pub due_from : Stream → ℤ → Table ℕ (Option ℤ) → ℕ → Table ℕ (Option ℤ) × List ℕ
due_from stream now [] room = ([], [])
due_from stream now (entry ∷ t) zero = (entry ∷ t, [])
due_from stream now ((n, requested) ∷ t) (suc room) =
    let skipped = due_from stream now t (suc room) in
    let asked = due_from stream now t room in
    if is_stale stream n
    then skipped
    else if is_waiting now requested
    then ((n, requested) ∷ skipped.0, skipped.1)
    else ((n, some now) ∷ asked.0, n ∷ asked.1)

-- `dueRepairs`
unfoldable pub due_repairs : Stream → ℤ → Stream × List ℕ
due_repairs stream now =
    let (missing, due) = due_from stream now stream.missing request_size in
    (record stream { missing = missing }, due)
