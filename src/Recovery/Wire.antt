-- ===== src/Recovery/Wire.antt =====
-- What internal/ingest/recovery.go reads from a datagram and writes into one. A byte out of range,
-- where Go panics, reads as 0.
pub mod Parity
pub mod Request
pub mod Encode
use Prim.Native.String.{String}
use waga_strim.Base.{
  ℕ, zero, suc, ◌+◌, ◌*◌, ◌/◌, ◌%◌, ◌^◌, max, bit_and, Bool, true, false, not, ◌&&◌, ◌||◌, Option,
  none, some, List, [], ◌∷◌, ◌++◌, ltb, leb, ◌==◌, if◌then◌else◌, length, get_or, set, take, drop,
  replicate,
}
use waga_strim.Recovery.{Bytes, PacketId, GroupId, Entry, Group, header_size}

-- `data[i]`
abbrev pub byte : Bytes → ℕ → ℕ
byte bytes i = get_or bytes i 0

-- `binary.BigEndian.Uint16(data[i : i+2])`, and `Uint32`.
abbrev pub uint16_at : Bytes → ℕ → ℕ
uint16_at bytes i = byte bytes i * 256 + byte bytes (i + 1)

abbrev pub uint32_at : Bytes → ℕ → ℕ
uint32_at bytes i = uint16_at bytes i * 65536 + uint16_at bytes (i + 2)

abbrev pub same_bytes : Bytes → Bytes → Bool
same_bytes [] [] = true
same_bytes [] (y ∷ ys) = false
same_bytes (x ∷ xs) [] = false
same_bytes (x ∷ xs) (y ∷ ys) = let rest = same_bytes xs ys in if x == y then rest else false

-- "WGR1"
abbrev pub magic : Bytes
magic = 87 ∷ 71 ∷ 82 ∷ 49 ∷ []

-- `hasRecoveryMagic`
unfoldable pub has_recovery_magic : Bytes → Bool
has_recovery_magic bytes = if leb 4 (length bytes) then same_bytes (take 4 bytes) magic else false

-- `recoveryRTPPacketID`; the source leaves `remote` empty.
unfoldable pub rtp_packet_id : Bytes → Option PacketId
rtp_packet_id bytes =
    if ltb (length bytes) 12
      || (not (bit_and (byte bytes 0) 0xc0 == 0x80)
          || (leb 192 (byte bytes 1) && leb (byte bytes 1) 223))
    then none
    else some
        (record { remote = ""; ssrc = uint32_at bytes 8; sequence_number = uint16_at bytes 2 })

-- The loop of `parseRecoveryGroup`: `left` entries to read, from `index` on, with the maximum so far.
unfoldable pub parse_entries : Bytes → String → ℕ → ℕ → ℕ → ℕ → Option (List Entry × ℕ)
parse_entries bytes remote ssrc zero index maximum = some ([], maximum)
parse_entries bytes remote ssrc (suc left) index maximum =
    let offset = header_size + index * 4 in
    let size = uint16_at bytes (offset + 2) in
    let id : PacketId = record {
      remote = remote;
      ssrc = ssrc;
      sequence_number = uint16_at bytes offset;
    } in
    let rest = parse_entries bytes remote ssrc left (index + 1) (max maximum size) in
    if ltb size 12 then none else elim rest [
      | none ↦ none
      | some (entries, all) ↦ some (record { id = id; length = size } ∷ entries, all)
    ]

-- `entries[len(entries)-1].id.sequenceNumber`
abbrev pub last_number : List Entry → ℕ
last_number [] = 0
last_number (e ∷ []) = e.id.sequence_number
last_number (e ∷ (e' ∷ es)) = last_number (e' ∷ es)

-- `parseRecoveryGroup`, for the text of the address.
unfoldable pub parse_group : Bytes → String → Option (Group × GroupId)
parse_group bytes remote =
    let count = byte bytes 5 in
    let entries_end = header_size + count * 4 in
    let ssrc = uint32_at bytes 8 in
    if ltb (length bytes) header_size || not (byte bytes 4 == 1)
    then none
    else if ltb count 2 || (ltb 32 count || ltb (length bytes) entries_end)
    then none
    else elim (parse_entries bytes remote ssrc count 0 0) [
      | none ↦ none
      | some (entries, maximum) ↦
          if (maximum == 0) || not (length bytes == entries_end + maximum)
          then none
          else some (
            record { entries = entries; parity = drop entries_end bytes; remote = remote },
            record { remote = remote; ssrc = ssrc; last = last_number entries },
          )
    ]

-- `binary.BigEndian.PutUint16(data[i:], n)` and `PutUint32`.
abbrev pub put_uint16 : Bytes → ℕ → ℕ → Bytes
put_uint16 bytes i n = set (set bytes i ((n / 256) % 256)) (i + 1) (n % 256)

abbrev pub put_uint32 : Bytes → ℕ → ℕ → Bytes
put_uint32 bytes i n = put_uint16 (put_uint16 bytes i (n / 65536)) (i + 2) (n % 65536)

-- The loop of `makeRecoveryRequest`.
unfoldable pub put_numbers : Bytes → ℕ → List ℕ → Bytes
put_numbers bytes index [] = bytes
put_numbers bytes index (n ∷ ns) =
    put_numbers (put_uint16 bytes (header_size + index * 2) n) (index + 1) ns

-- `makeRecoveryRequest`; `nil` is the empty list.
unfoldable pub make_request : ℕ → List ℕ → Bytes
make_request ssrc [] = []
make_request ssrc (n ∷ ns) =
    let numbers = n ∷ ns in
    let zeros = replicate (length numbers * 2) 0 in
    let request = replicate header_size 0 ++ zeros in
    let named = set (set (set (set request 0 87) 1 71) 2 82) 3 49 in
    let typed = set (set named 4 2) 5 (length numbers % 256) in
    put_numbers (put_uint32 typed 8 ssrc) 0 numbers
