-- ===== src/Recovery/Tests.antt =====
-- A lost packet, its gap, its repair and the datagrams about it, at concrete values of
-- internal/ingest/recovery.go.
use waga_strim.Base.{
  ◌⊎◌, ℕ, ◌+◌, ◌-◌, ◌≤◌, ◌≡◌, refl, Bool, true, false, none, some, List, [], ◌∷◌, ◌++◌, arith, ◌&&◌,
  ◌||◌, not, leb, ltb, length, drop,
}
use waga_strim.Base.Int.{pos, ◌-ℤ◌}
use waga_strim.Base.Maps.{text_key, find, has}
use waga_strim.Recovery.{
  StreamId, stream_key, Bytes, PacketId, Stream, Entry, Group, GroupId, State, new_state,
  packet_key, stream_key, number_key, history_size,
}
use waga_strim.Recovery.Store.{
  store_packet, remembered, evict, compact, rebuilt, recover_group, xor_in,
}
use waga_strim.Recovery.Store.Laws.{IsHistory, store_keeps_latest}
use waga_strim.Recovery.Binding.{
  Bindings, Message, request, success, binding_key, active_identity, remember_binding, confirmed_as,
  confirm_binding, observe_binding, authenticated_identity,
}
use waga_strim.Recovery.Binding.Trust.{Event, run, Confirmed, identity-Confirmed}
use waga_strim.Recovery.Streams.{stream_for, trim_streams, fresh_stream}
use waga_strim.Recovery.Streams.Limit.{recent, stream_limit_holds, trim_keeps_recent}
use waga_strim.Recovery.Repair.{parity_of, recover_lost}
use waga_strim.Recovery.Wire.{
  has_recovery_magic, rtp_packet_id, byte, uint32_at, make_request, parse_group,
}
use waga_strim.Recovery.Wire.Request.{read_numbers, request_reads_back}
use waga_strim.Recovery.Wire.Parity.{AllFit, longest, parsed_group_fits}
use waga_strim.Recovery.Wire.Encode.{encode_group, encoded_group_parses}
use waga_strim.Recovery.Gaps.{
  track_gap, close_gap, ask_gap, ask_one, forget_old, due_from, is_stale, is_waiting, due_repairs,
}
use waga_strim.Recovery.Gaps.Track.{held, gap_is_asked}
use waga_strim.Recovery.Gaps.Due.{contains, repairs_not_repeated}

abbrev id_of : ℕ → PacketId
id_of n = record { remote = "ice:a:b"; ssrc = 7; sequence_number = n }

abbrev first_packet : Bytes
first_packet = 128 ∷ 96 ∷ 0 ∷ 1 ∷ 0 ∷ 0 ∷ 0 ∷ 9 ∷ 0 ∷ 0 ∷ 0 ∷ 7 ∷ []

abbrev second_packet : Bytes
second_packet = 128 ∷ 96 ∷ 0 ∷ 2 ∷ 0 ∷ 0 ∷ 1 ∷ 9 ∷ 0 ∷ 0 ∷ 0 ∷ 7 ∷ 77 ∷ []

abbrev first_entry : Entry
first_entry = record { id = id_of 1; length = 12 }

abbrev second_entry : Entry
second_entry = record { id = id_of 2; length = 13 }

abbrev both : List Entry
both = first_entry ∷ second_entry ∷ []

abbrev parity : Bytes
parity = parity_of 13 (first_packet ∷ second_packet ∷ [])

abbrev pair_group : Group
pair_group = record { entries = both; parity = parity; remote = "1.2.3.4:5" }

abbrev first_held : State
first_held = store_packet new_state (id_of 1) first_packet

fresh-IsHistory : IsHistory new_state
fresh-IsHistory = record {
  distinct = tt;
  ordered = refl;
  bounded = omega arith;
  inside = omega arith;
  cut = omega arith;
}

rtp_read :
    rtp_packet_id second_packet ≡ some (record { remote = ""; ssrc = 7; sequence_number = 2 })
unfolding rtp_packet_id
rtp_read = refl

store_keeps_latest_example :
    IsHistory (store_packet new_state (id_of 1) first_packet)
    × ((store_packet new_state (id_of 1) first_packet).packets
        ≡ drop
            (length new_state.packets + 1 - history_size)
            (new_state.packets ++ ((id_of 1, first_packet) ∷ [])))
store_keeps_latest_example =
    store_keeps_latest new_state (id_of 1) first_packet fresh-IsHistory refl

recover_lost_example : recover_group first_held pair_group ≡ (
  rebuilt first_held (id_of 2) second_packet,
  some (record { bytes = second_packet; addr = "1.2.3.4:5"; identity = "ice:a:b" }),
  2 ∷ [],
)
unfolding store_packet remembered evict compact packet_key
recover_lost_example =
    recover_lost first_held pair_group ((first_entry, first_packet) ∷ []) [] second_entry
      second_packet 13 refl refl (omega arith) refl (refl, refl, tt) tt refl

request_reads_back_example :
    let request = make_request 7 (2 ∷ 65535 ∷ []) in
    (has_recovery_magic request ≡ true)
    × (byte request 4 ≡ 2)
    × (uint32_at request 8 ≡ 7)
    × (byte request 5 ≡ 2)
    × (read_numbers request 0 (byte request 5) ≡ 2 ∷ 65535 ∷ [])
    × (parse_group request "ice:a:b" ≡ none)
request_reads_back_example =
    request_reads_back 7 (2 ∷ 65535 ∷ []) "ice:a:b" (omega arith) (omega arith) (omega arith)
      (omega arith, (omega arith, tt))

abbrev pair_name : GroupId
pair_name = record { remote = "ice:a:b"; ssrc = 7; last = 2 }

encoded_group_parses_example :
    parse_group (encode_group 7 both parity) "ice:a:b"
    ≡ some (record { entries = both; parity = parity; remote = "ice:a:b" }, pair_name)
unfolding xor_in
encoded_group_parses_example =
    encoded_group_parses "ice:a:b" 7 both parity (omega arith) (omega arith) (omega arith)
      (
        refl,
        refl,
        omega arith,
        omega arith,
        omega arith,
        (refl, refl, omega arith, omega arith, omega arith, tt),
      )
      refl

parsed_group_fits_example :
    (2 ≤ length both)
    × (length both ≤ 32)
    × AllFit (length parity) both
    × (longest both ≡ length parity)
parsed_group_fits_example =
    parsed_group_fits (encode_group 7 both parity) "ice:a:b"
      (record { entries = both; parity = parity; remote = "ice:a:b" }) pair_name
      encoded_group_parses_example

-- The highest number is 65534; the next packet that comes is number 1.
abbrev gapped : Stream
gapped = record {
  highest = 65534;
  based = true;
  enabled = true;
  missing = (65533, none) ∷ [];
  last_touched = pos 0;
}

abbrev tracked : Stream
tracked = track_gap [] (id_of 1) gapped

gap_run : tracked.missing ≡ (65533, none) ∷ (65535, none) ∷ (0, none) ∷ []
unfolding track_gap number_key close_gap ask_gap ask_one forget_old
gap_run = refl

gap_is_asked_example :
    (tracked.highest ≡ 1)
    × (has 0 tracked.missing ≡ (
        (has 0 gapped.missing && (leb 3 1 || ltb 1 history_size))
        || ((ltb 0 1 && (ltb 1 3 && ltb 1 history_size)) && not (held [] (id_of 1) 0))))
gap_is_asked_example =
    gap_is_asked [] (id_of 1) gapped 0 refl (omega arith) (omega arith) (omega arith) (omega arith)
      (omega arith)

abbrev asked : Stream
asked = (due_repairs gapped (pos 100)).0

repairs_not_repeated_example :
    (length (due_repairs gapped (pos 100)).1 ≤ 32)
    × (length (due_repairs asked (pos 200)).1 ≤ 32)
    × (contains 65533 (due_repairs asked (pos 200)).1 ≡ false)
unfolding ◌-ℤ◌ due_from is_stale is_waiting due_repairs number_key
repairs_not_repeated_example =
    repairs_not_repeated gapped asked (pos 100) (pos 200) 65533 (refl, tt) refl refl refl

-- The fragment "a" is active.
abbrev unbound : Bindings
unbound = record { pending = []; identities = []; active = some (("a", true) ∷ []) }

abbrev event : Message → Bool → Event
event message outgoing = record { message = message; remote = "1.2.3.4:5"; outgoing = outgoing }

-- The newest first: an answer to a request, after an answer to nothing.
abbrev answered : List Event
answered =
    event (success 9) true ∷ event (request 9 (some "a:b")) false ∷ event (success 9) true ∷ []

trust_run :
    (authenticated_identity (run unbound answered) "1.2.3.4:5" ≡ "ice:a:b")
    × (authenticated_identity (run unbound answered) "6.7.8.9:1" ≡ "")
unfolding authenticated_identity observe_binding remember_binding confirm_binding confirmed_as
    active_identity text_key binding_key
trust_run = (refl, refl)

identity-Confirmed_example : Confirmed "1.2.3.4:5" "a:b" answered
unfolding observe_binding remember_binding confirm_binding confirmed_as active_identity text_key
    binding_key
identity-Confirmed_example = identity-Confirmed unbound answered "1.2.3.4:5" "a:b" refl refl refl

abbrev name : StreamId
name = record { remote = "ice:a:b"; ssrc = 7 }

stream_limit_holds_example :
    let (t', stream) = stream_for ((name, gapped) ∷ []) (record name { ssrc = 8 }) (pos 5) in
    (length t' ≤ 256)
    × (find (record name { ssrc = 8 }) t' ≡ some stream)
    × ((find (record name { ssrc = 8 }) ((name, gapped) ∷ []) ≡ some stream)
        ⊎ (stream ≡ fresh_stream (pos 5)))
stream_limit_holds_example =
    stream_limit_holds ((name, gapped) ∷ []) (record name { ssrc = 8 }) (pos 5) (omega arith)

trim_keeps_recent_example :
    find name (trim_streams ((name, gapped) ∷ []) (pos 30_000_000_001))
    ≡ recent (pos 30_000_000_001) (find name ((name, gapped) ∷ []))
trim_keeps_recent_example =
    trim_keeps_recent ((name, gapped) ∷ []) name (pos 30_000_000_001) (refl, tt)
