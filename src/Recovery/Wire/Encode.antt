-- ===== src/Recovery/Wire/Encode.antt =====
-- The parity datagrams of internal/ingest/recovery.go, as a sender writes them.
use Prim.Native.String.{String}
use mathlib.Core.List.{append_assoc}
use waga_strim.Base.{
  ℕ, zero, suc, ◌+◌, ◌*◌, ◌/◌, ◌%◌, ◌≤◌, ◌<◌, max, ◌≡◌, refl, sym, ap, ap₂, ◌∙◌, false, some, List,
  [], ◌∷◌, ◌++◌, arith, ltb, ◌==◌, not, ◌||◌, length, drop, length-append, not,
}
use waga_strim.Recovery.{Bytes, Entry, header_size}
use waga_strim.Recovery.Wire.{byte, uint16_at, uint32_at, parse_entries, last_number, parse_group}
use waga_strim.Recovery.Wire.Request.{get_or-append}

abbrev pub entry_bytes : List Entry → Bytes
entry_bytes [] = []
entry_bytes (e ∷ es) =
    e.id.sequence_number / 256
    ∷ e.id.sequence_number % 256
    ∷ e.length / 256
    ∷ e.length % 256
    ∷ entry_bytes es

-- "WGR1", the type of parity, the number of entries, two zeros, the source, the entries, the parity.
abbrev pub encode_group : ℕ → List Entry → Bytes → Bytes
encode_group ssrc es parity =
    87
    ∷ 71
    ∷ 82
    ∷ 49
    ∷ 1
    ∷ length es
    ∷ 0
    ∷ 0
    ∷ ssrc / 16777216
    ∷ (ssrc / 65536) % 256
    ∷ (ssrc / 256) % 256
    ∷ ssrc % 256
    ∷ (entry_bytes es ++ parity)

abbrev pub longest : ℕ → List Entry → ℕ
longest m [] = m
longest m (e ∷ es) = longest (max m e.length) es

-- The entries are of one source at one address, and their numbers fit the format.
abbrev pub AllOf : String → ℕ → List Entry → Type 0
AllOf remote ssrc [] = Unit {0}
AllOf remote ssrc (e ∷ es) =
    (e.id.remote ≡ remote)
    × (e.id.ssrc ≡ ssrc)
    × (e.id.sequence_number < 65536)
    × (12 ≤ e.length)
    × (e.length < 65536)
    × AllOf remote ssrc es

entry_eta :
    (e : Entry) (remote : String) (ssrc n k : ℕ)
    → remote ≡ e.id.remote
    → ssrc ≡ e.id.ssrc
    → n ≡ e.id.sequence_number
    → k ≡ e.length
    → (record { id = record { remote = remote; ssrc = ssrc; sequence_number = n }; length = k }) ≡ e
entry_eta e remote ssrc n k p q r l =
    λ i. record { id = record { remote = p i; ssrc = q i; sequence_number = r i }; length = l i }

parse-entry_bytes :
    (pre : Bytes) (remote : String) (ssrc index m : ℕ) (es : List Entry) (parity : Bytes)
    → length pre ≡ header_size + index * 4
    → AllOf remote ssrc es
    → parse_entries (pre ++ (entry_bytes es ++ parity)) remote ssrc (length es) index m
      ≡ some (es, longest m es)
unfolding parse_entries
parse-entry_bytes pre remote ssrc index m [] parity h a = refl
parse-entry_bytes pre remote ssrc index m (e ∷ es) parity h (same, source, number, low, high, a) =
    let tail = entry_bytes (e ∷ es) ++ parity in
    let all = pre ++ tail in
    let at = header_size + index * 4 in
    let four : Bytes =
      e.id.sequence_number / 256
      ∷ e.id.sequence_number % 256
      ∷ e.length / 256
      ∷ e.length % 256
      ∷ [] in
    let b0 = get_or-append pre tail at 0 (omega arith) in
    let b1 = get_or-append pre tail (at + 1) 1 (omega arith) in
    let b2 = get_or-append pre tail (at + 2) 2 (omega arith) in
    let b3 = get_or-append pre tail (at + 2 + 1) 3 (omega arith) in
    let name : uint16_at all at ≡ e.id.sequence_number = omega arith in
    let size : uint16_at all (at + 2) ≡ e.length = omega arith in
    let long : ltb (uint16_at all (at + 2)) 12 ≡ false = ground arith in
    let rest =
      parse-entry_bytes (pre ++ four) remote ssrc (index + 1) (max m e.length) es parity
        (omega (arith, length-append pre four)) a in
    let shifted : (pre ++ four) ++ (entry_bytes es ++ parity) ≡ all =
      append_assoc pre four (entry_bytes es ++ parity) in
    let rest' : parse_entries all remote ssrc (length es) (index + 1)
          (max m (uint16_at all (at + 2)))
        ≡ some (es, longest (max m e.length) es) =
      ap₂ (λ l k. parse_entries l remote ssrc (length es) (index + 1) (max m k)) (sym shifted) size
      ∙ rest in
    simp (long, rest')
      (ap (λ x. some (x ∷ es, longest (max m e.length) es))
        (entry_eta e remote ssrc _ _ (sym same) (sym source) name size))

length-entry_bytes : (es : List Entry) → length (entry_bytes es) ≡ length es * 4
length-entry_bytes [] = refl
length-entry_bytes (e ∷ es) = omega (arith, length-entry_bytes es)

drop-exact : (xs ys : Bytes) (n : ℕ) → n ≡ length xs → drop n (xs ++ ys) ≡ ys
drop-exact [] ys zero h = refl
drop-exact [] ys (suc n) h = absurd (omega arith)
drop-exact (x ∷ xs) ys zero h = absurd (omega arith)
drop-exact (x ∷ xs) ys (suc n) h = drop-exact xs ys n (omega arith)

longest-above : (m : ℕ) (es : List Entry) → m ≤ longest m es
longest-above m [] = omega arith
longest-above m (e ∷ es) = omega (arith, longest-above (max m e.length) es)

longest-low :
    (m : ℕ) (remote : String) (ssrc : ℕ) (es : List Entry)
    → 2 ≤ length es
    → AllOf remote ssrc es
    → 12 ≤ longest m es
longest-low m remote ssrc [] h a = absurd (omega arith)
longest-low m remote ssrc (e ∷ es) h (_, _, _, low, _, _) =
    omega (arith, longest-above (max m e.length) es)

-- The path through the guards.
parse-accepts :
    (bytes : Bytes) (remote : String) (es : List Entry) (m : ℕ)
    → byte bytes 4 ≡ 1
    → header_size + byte bytes 5 * 4 ≤ length bytes
    → 2 ≤ byte bytes 5
    → byte bytes 5 ≤ 32
    → 0 < m
    → length bytes ≡ header_size + byte bytes 5 * 4 + m
    → parse_entries bytes remote (uint32_at bytes 8) (byte bytes 5) 0 0 ≡ some (es, m)
    → parse_group bytes remote
      ≡ some (
        record {
          entries = es;
          parity = drop (header_size + byte bytes 5 * 4) bytes;
          remote = remote;
        },
        record { remote = remote; ssrc = uint32_at bytes 8; last = last_number es },
      )
unfolding parse_group
parse-accepts bytes remote es m kind room two few positive size parsed =
    let count = byte bytes 5 in
    let start = header_size + count * 4 in
    let first : (ltb (length bytes) header_size || not (byte bytes 4 == 1)) ≡ false =
      ground arith in
    let second : (ltb count 2 || (ltb 32 count || ltb (length bytes) start)) ≡ false =
      ground arith in
    let third : ((m == 0) || not (length bytes == start + m)) ≡ false = ground arith in
    simp (first, second, parsed, third) refl

-- Whatever a sender encodes is parsed as it was encoded: the entries in order, the parity, and a name
-- for the group by its last sequence number. It is for 2 to 32 entries of one source, with lengths from
-- 12 on, numbers that fit their 16 and 32 bits, and a parity as long as the longest entry.
pub encoded_group_parses :
    (remote : String) (ssrc : ℕ) (es : List Entry) (parity : Bytes)
    → 2 ≤ length es
    → length es ≤ 32
    → ssrc < 4294967296
    → AllOf remote ssrc es
    → length parity ≡ longest 0 es
    → parse_group (encode_group ssrc es parity) remote
      ≡ some (
        record { entries = es; parity = parity; remote = remote },
        record { remote = remote; ssrc = ssrc; last = last_number es },
      )
encoded_group_parses remote ssrc es parity two few word a long =
    let bytes = encode_group ssrc es parity in
    let pre : Bytes =
      87
      ∷ 71
      ∷ 82
      ∷ 49
      ∷ 1
      ∷ length es
      ∷ 0
      ∷ 0
      ∷ ssrc / 16777216
      ∷ (ssrc / 65536) % 256
      ∷ (ssrc / 256) % 256
      ∷ ssrc % 256
      ∷ [] in
    let source : uint32_at bytes 8 ≡ ssrc = omega arith in
    let size : length bytes ≡ header_size + length es * 4 + length parity =
      omega (arith, length-append (entry_bytes es) parity, length-entry_bytes es) in
    let some_length = longest-low 0 remote ssrc es two a in
    let parsed : parse_entries bytes remote (uint32_at bytes 8) (length es) 0 0
        ≡ some (es, longest 0 es) =
      ap (λ k. parse_entries bytes remote k (length es) 0 0) source
      ∙ parse-entry_bytes pre remote ssrc 0 0 es parity refl a in
    parse-accepts bytes remote es (longest 0 es) refl (omega (arith, size)) (omega arith)
      (omega arith) (omega (arith, some_length)) (omega (arith, size, long)) parsed
    ∙ ap₂
        (λ k l. some (
          record { entries = es; parity = l; remote = remote },
          record { remote = remote; ssrc = k; last = last_number es },
        ))
        source
        (drop-exact (pre ++ entry_bytes es) parity (header_size + length es * 4)
          (omega (arith, length-entry_bytes es)))
