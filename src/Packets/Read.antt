-- ===== src/Packets/Read.antt =====
-- `readPacket` of internal/ingest/packet_buffer.go, and the frame that it takes.
use native.Mathlib.Nat.{add_assoc, mod-add-mod, mod-eq_of_lt}
use waga_strim.Base.{
  ℕ, zero, suc, ◌+◌, ◌-◌, ◌/◌, ◌%◌, ◌≤◌, ◌<◌, min, ◌≡◌, refl, sym, ap, ◌∙◌, inl, inr, true, [], ◌∷◌,
  ◌++◌, arith, ltb, ◌==◌, length, get_or, Bool-cases, take, drop, length-append, length-take,
  length-drop,
}
use waga_strim.Packets.{Bytes, PacketBuffer, slice, frame_size, read_packet}
use waga_strim.Packets.Ring.{
  window, wrap_cases, window_ext, window_eq, window-append, length-window, get_or-take, get_or-drop,
  get_or-append,
}
use waga_strim.Packets.Grow.{IsValid, contents}
use waga_strim.Packets.Write.{frame}

-- Equal lists cut at the same place.
append_parts :
    (xs ys xs' ys' : Bytes)
    → length xs ≡ length xs'
    → xs ++ ys ≡ xs' ++ ys'
    → (xs ≡ xs') × (ys ≡ ys')
append_parts [] ys [] ys' h e = (refl, e)
append_parts [] ys (x ∷ xs') ys' h e = absurd (omega arith)
append_parts (x ∷ xs) ys [] ys' h e = absurd (omega arith)
append_parts (x ∷ xs) ys (x' ∷ xs') ys' h e =
    let (p, q) = append_parts xs ys xs' ys' (omega arith) (cc) in (cc, q)

take-append : (xs ys : Bytes) → take (length xs) (xs ++ ys) ≡ xs
take-append [] ys = refl
take-append (x ∷ xs) ys = ap (◌∷◌ x) (take-append xs ys)

-- A prefix as long as there is room for.
take-min :
    (xs ys p : Bytes) (room : ℕ) → xs ++ ys ≡ p → length xs ≡ min (length p) room → take room p ≡ xs
take-min [] ys p zero e h = refl
take-min [] ys [] (suc room) e h = refl
take-min [] ys (x ∷ p) (suc room) e h = absurd (omega arith)
take-min (x ∷ xs) ys p zero e h = absurd (omega arith)
take-min (x ∷ xs) ys [] (suc room) e h = absurd (omega arith)
take-min (x ∷ xs) ys (x' ∷ p) (suc room) e h =
    let rest = take-min xs ys p room (cc) (omega arith) in cc

-- The two slices that `readPacket` copies are one window.
module _ (bytes : Bytes) (start n : ℕ) (inside : start < length bytes)
    (short : n ≤ length bytes) where
  abbrev cap : ℕ
  cap = length bytes

  abbrev front : Bytes
  front = slice bytes start (min (start + n) cap)

  abbrev both : Bytes
  both = front ++ slice bytes 0 (n - length front)

  length-front : length front ≡ min n (cap - start)
  length-front = rw (length-take, length-drop) (omega arith)

  length-both : length both ≡ n
  length-both = omega (
    arith,
    length-append front (slice bytes 0 (n - length front)),
    length-take (n - length front - 0) bytes,
    length-front,
  )

  pub slices-window : both ≡ window bytes start n
  slices-window =
      sym (
        window_eq bytes start both λ i h. ground (
          arith,
          get_or-append front (slice bytes 0 (n - length front)) i,
          length-front,
          length-both,
          get_or-take (min (start + n) cap - start) i (drop start bytes),
          get_or-drop start i bytes,
          get_or-take (n - length front - 0) (i - length front) bytes,
          wrap_cases (start + i) cap,
        ))
      ∙ ap (window bytes start) length-both

window-mod : (bytes : Bytes) (h n : ℕ) → window bytes (h % length bytes) n ≡ window bytes h n
window-mod bytes h n =
    window_ext bytes bytes (h % length bytes) h n
      λ i p. ap (λ j. get_or bytes j 0) (mod-add-mod h (length bytes) i)

empty_window : (bytes rest : Bytes) → length rest ≡ 0 → window bytes 0 (length rest) ≡ rest
unfolding window
empty_window bytes [] h = refl
empty_window bytes (x ∷ rest) h = absurd (omega arith)

-- What a buffer that holds the frame of `p` and then `rest` is made of.
module _ (b : PacketBuffer) (p rest : Bytes) (v : IsValid b)
    (e : contents b ≡ frame p ++ rest) where
  used_is : b.used ≡ 2 + length p + length rest
  used_is =
      omega (arith, ap length e, length-window b.bytes b.head b.used, length-append (frame p) rest)

  parts :
      (window b.bytes b.head 2 ≡ (length p / 256) % 256 ∷ length p % 256 ∷ [])
      × (window b.bytes (b.head + 2) (length p) ≡ p)
      × (window b.bytes (b.head + 2 + length p) (length rest) ≡ rest)
  parts =
      let whole = ap (window b.bytes b.head) (used_is) in
      let cut = window-append b.bytes b.head (2 + length p) (length rest) in
      let cut' = window-append b.bytes b.head 2 (length p) in
      let (first, last) =
        append_parts _ _ (frame p) rest (length-window b.bytes b.head (2 + length p) ∙ omega arith)
          (sym cut ∙ sym whole ∙ e) in
      let (h, m) =
        append_parts _ _ ((length p / 256) % 256 ∷ length p % 256 ∷ []) p
          (length-window b.bytes b.head 2) (sym cut' ∙ first) in
      (h, m, rw add_assoc last)

  inside_of : b.head < length b.bytes
  inside_of = ground (arith, used_is)

  frame_size-is : length p ≤ 65535 → frame_size b ≡ length p
  unfolding frame_size window
  frame_size-is small =
      let high = ap (λ (l : Bytes). get_or l 0 0) parts.0 in
      let low = ap (λ (l : Bytes). get_or l 1 0) parts.0 in
      let h = rw (mod-eq_of_lt inside_of) at high in omega (arith, h, low)

  -- The bytes copied out: as much of the datagram as there is room for.
  read-copies :
      (room : ℕ)
      → let n = min (length p) room in
        let front =
          slice b.bytes
            ((b.head + 2) % length b.bytes)
            (min ((b.head + 2) % length b.bytes + n) (length b.bytes)) in
        front ++ slice b.bytes 0 (n - length front) ≡ take room p
  read-copies room =
      let n = min (length p) room in
      let whole : window b.bytes (b.head + 2) n ++ window b.bytes (b.head + 2 + n) (length p - n)
          ≡ p =
        sym (window-append b.bytes (b.head + 2) n (length p - n))
        ∙ ap (window b.bytes (b.head + 2)) (omega arith)
        ∙ parts.1 in
      slices-window b.bytes ((b.head + 2) % length b.bytes) n (omega (arith, inside_of))
        (omega (arith, used_is))
      ∙ window-mod b.bytes (b.head + 2) n
      ∙ sym (
          take-min (window b.bytes (b.head + 2) n) (window b.bytes (b.head + 2 + n) (length p - n))
            p room whole (length-window b.bytes (b.head + 2) n))

  rest-contents :
      window b.bytes (((b.head + 2) % length b.bytes + length p) % length b.bytes) (length rest)
      ≡ rest
  rest-contents =
      ap (λ k. window b.bytes k (length rest))
        (mod-add-mod (b.head + 2) (length b.bytes) (length p))
      ∙ window-mod b.bytes (b.head + 2 + length p) (length rest)
      ∙ parts.2

  -- A read hands over the oldest datagram, cut to the room there is, says whether it was cut, and
  -- leaves the rest; it leaves a token while there is more to read.
  pub read_packet-takes :
      (room : ℕ)
      → length p ≤ 65535
      → let (b', out, cut) = read_packet b room in
        (out ≡ take room p)
        × (cut ≡ ltb room (length p))
        × (contents b' ≡ rest)
        × IsValid b'
        × (b'.closed ≡ b.closed)
        × (0 < b'.used → b'.wake ≡ true)
  unfolding read_packet
  read_packet-takes room small =
      let size = frame_size-is small in
      let used : b.used - (length p + 2) ≡ length rest = omega (arith, used_is) in
      let start = ((b.head + 2) % length b.bytes + length p) % length b.bytes in
      let inside : start < length b.bytes = omega (arith, inside_of) in
      rw (size, used)
        (
          read-copies room,
          ground arith,
          elim (Bool-cases (length rest == 0)) [
            | inl done ↦ rw done (empty_window b.bytes rest (ground arith))
            | inr more ↦ rw more rest-contents
          ],
          ground (arith, used_is, inside),
          refl,
          ground arith,
        )
