-- ===== src/Recovery/Wire/Request.antt =====
-- The requests that `makeRecoveryRequest` of internal/ingest/recovery.go writes, and their layout.
use Prim.Native.String.{String}
use mathlib.Core.List.{append_assoc}
use waga_strim.Base.{
  get_or-after, ℕ, zero, suc, ◌+◌, ◌*◌, ◌/◌, ◌%◌, ◌<◌, ◌≡◌, refl, sym, ap, inl, inr, Bool-cases,
  ap₂, ◌∙◌, true, none, List, [], ◌∷◌, ◌++◌, arith, ltb, length, set, replicate, length-append,
}
use waga_strim.Recovery.{Bytes, header_size}
use waga_strim.Recovery.Wire.{
  byte, uint16_at, uint32_at, has_recovery_magic, put_uint16, put_numbers, make_request,
  parse_group,
}

-- A description of the format, for the sender of the media: the type, the count, the source and as
-- many sequence numbers.
unfoldable pub read_numbers : Bytes → ℕ → ℕ → List ℕ
read_numbers bytes index zero = []
read_numbers bytes index (suc left) =
    uint16_at bytes (header_size + index * 2) ∷ read_numbers bytes (index + 1) left

abbrev pub big_endian : List ℕ → Bytes
big_endian [] = []
big_endian (n ∷ ns) = (n / 256) % 256 ∷ n % 256 ∷ big_endian ns

set-append : (xs ys : Bytes) (i v : ℕ) → i ≡ length xs → set (xs ++ (0 ∷ ys)) i v ≡ xs ++ (v ∷ ys)
set-append [] ys zero v h = refl
set-append [] ys (suc i) v h = absurd (omega arith)
set-append (x ∷ xs) ys zero v h = absurd (omega arith)
set-append (x ∷ xs) ys (suc i) v h = ap (◌∷◌ x) (set-append xs ys i v (omega arith))

put_uint16-append :
    (xs ys : Bytes) (i n : ℕ)
    → i ≡ length xs
    → put_uint16 (xs ++ (0 ∷ 0 ∷ ys)) i n ≡ xs ++ ((n / 256) % 256 ∷ n % 256 ∷ ys)
put_uint16-append xs ys i n h =
    let high = (n / 256) % 256 in
    ap (λ l. set l (i + 1) (n % 256))
      (set-append xs (0 ∷ ys) i high h ∙ sym (append_assoc xs (high ∷ []) (0 ∷ ys)))
    ∙ set-append (xs ++ (high ∷ [])) ys (i + 1) (n % 256)
        (omega (arith, length-append xs (high ∷ [])))
    ∙ append_assoc xs (high ∷ []) (n % 256 ∷ ys)

put_numbers-zeros :
    (pre : Bytes) (index : ℕ) (ns : List ℕ)
    → length pre ≡ header_size + index * 2
    → put_numbers (pre ++ replicate (length ns * 2) 0) index ns ≡ pre ++ big_endian ns
unfolding put_numbers
put_numbers-zeros pre index [] h = refl
put_numbers-zeros pre index (n ∷ ns) h =
    let two : Bytes = (n / 256) % 256 ∷ n % 256 ∷ [] in
    let zeros : Bytes = replicate (length ns * 2) 0 in
    let count : length (n ∷ ns) * 2 ≡ suc (suc (length ns * 2)) = omega arith in
    ap
      (λ k.
        put_numbers (put_uint16 (pre ++ replicate k 0) (header_size + index * 2) n) (index + 1) ns)
      count
    ∙ ap (λ l. put_numbers l (index + 1) ns)
        (put_uint16-append pre zeros (header_size + index * 2) n (sym h)
          ∙ sym (append_assoc pre two zeros))
    ∙ put_numbers-zeros (pre ++ two) (index + 1) ns (omega (arith, length-append pre two))
    ∙ append_assoc pre two (big_endian ns)

-- The request as one list of bytes.
abbrev layout : ℕ → List ℕ → Bytes
layout ssrc ns =
    87
    ∷ 71
    ∷ 82
    ∷ 49
    ∷ 2
    ∷ length ns % 256
    ∷ 0
    ∷ 0
    ∷ (ssrc / 65536 / 256) % 256
    ∷ (ssrc / 65536) % 256
    ∷ (ssrc % 65536 / 256) % 256
    ∷ ssrc % 65536 % 256
    ∷ big_endian ns

make_request-layout :
    (ssrc : ℕ) (n : ℕ) (ns : List ℕ) → make_request ssrc (n ∷ ns) ≡ layout ssrc (n ∷ ns)
unfolding make_request
make_request-layout ssrc n ns =
    put_numbers-zeros
      (87
        ∷ 71
        ∷ 82
        ∷ 49
        ∷ 2
        ∷ length (n ∷ ns) % 256
        ∷ 0
        ∷ 0
        ∷ (ssrc / 65536 / 256) % 256
        ∷ (ssrc / 65536) % 256
        ∷ (ssrc % 65536 / 256) % 256
        ∷ ssrc % 65536 % 256
        ∷ [])
      0 (n ∷ ns) refl

pub get_or-append : (xs ys : Bytes) (i k : ℕ) → i ≡ length xs + k → byte (xs ++ ys) i ≡ byte ys k
get_or-append xs ys i k h = get_or-after xs ys 0 i k h

-- All numbers of a list are sequence numbers.
abbrev pub AllUint16 : List ℕ → Type 0
AllUint16 [] = Unit {0}
AllUint16 (n ∷ ns) = (n < 65536) × AllUint16 ns

read-big_endian :
    (pre : Bytes) (index : ℕ) (ns : List ℕ)
    → length pre ≡ header_size + index * 2
    → AllUint16 ns
    → read_numbers (pre ++ big_endian ns) index (length ns) ≡ ns
unfolding read_numbers
read-big_endian pre index [] h small = refl
read-big_endian pre index (n ∷ ns) h small =
    let all = pre ++ big_endian (n ∷ ns) in
    let two : Bytes = (n / 256) % 256 ∷ n % 256 ∷ [] in
    let high = get_or-append pre (big_endian (n ∷ ns)) (header_size + index * 2) 0 (omega arith) in
    let low =
      get_or-append pre (big_endian (n ∷ ns)) (header_size + index * 2 + 1) 1 (omega arith) in
    ap₂ ◌∷◌ (omega (arith, small.0)) (
      ap (λ l. read_numbers l (index + 1) (length ns)) (sym (append_assoc pre two (big_endian ns)))
      ∙ read-big_endian (pre ++ two) (index + 1) ns (omega (arith, length-append pre two)) small.1)

parse-other : (bytes : Bytes) (remote : String) → byte bytes 4 ≡ 2 → parse_group bytes remote ≡ none
unfolding parse_group
parse-other bytes remote h = elim (Bool-cases (ltb (length bytes) header_size)) [
  | inl e ↦ simp e refl
  | inr e ↦ simp (e, h) refl
]

-- A request reads back as it was made: it starts with the magic and the type of requests, and gives
-- the source, the count and the sequence numbers in order. This is for 1 to 255 numbers of 16 bits
-- and a source of 32 bits. `parse_group` never takes it for parity.
pub request_reads_back :
    (ssrc : ℕ) (ns : List ℕ) (remote : String)
    → 0 < length ns
    → length ns < 256
    → ssrc < 4294967296
    → AllUint16 ns
    → let request = make_request ssrc ns in
      (has_recovery_magic request ≡ true)
      × (byte request 4 ≡ 2)
      × (uint32_at request 8 ≡ ssrc)
      × (byte request 5 ≡ length ns)
      × (read_numbers request 0 (byte request 5) ≡ ns)
      × (parse_group request remote ≡ none)
unfolding has_recovery_magic
request_reads_back ssrc [] remote some_left short small all = absurd (omega arith)
request_reads_back ssrc (n ∷ ns) remote some_left short small all =
    let count : length (n ∷ ns) % 256 ≡ length (n ∷ ns) = omega arith in
    let pre : Bytes =
      87
      ∷ 71
      ∷ 82
      ∷ 49
      ∷ 2
      ∷ length (n ∷ ns) % 256
      ∷ 0
      ∷ 0
      ∷ (ssrc / 65536 / 256) % 256
      ∷ (ssrc / 65536) % 256
      ∷ (ssrc % 65536 / 256) % 256
      ∷ ssrc % 65536 % 256
      ∷ [] in
    rw (make_request-layout ssrc n ns) (
      ground arith,
      refl,
      omega arith,
      count,
      ap (read_numbers (layout ssrc (n ∷ ns)) 0) count ∙ read-big_endian pre 0 (n ∷ ns) refl all,
      parse-other (layout ssrc (n ∷ ns)) remote refl,
    )
