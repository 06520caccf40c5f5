-- ===== src/Packets/Grow.antt =====
-- The growth of the ring of internal/ingest/packet_buffer.go (`Write`, where the array is too short).
use waga_strim.Base.{
  ℕ, ◌+◌, ◌-◌, ◌*◌, ◌%◌, ◌≤◌, ◌<◌, min, max, ◌≡◌, refl, ◌∙◌, inl, inr, arith, ltb, length, get_or,
  Bool-cases, drop, replicate, length-take, length-drop, length-replicate,
}
use waga_strim.Packets.{Bytes, PacketBuffer, receive_buffer_bytes, copy_at, slice, grown, make_room}
use waga_strim.Packets.Ring.{
  window, wrap_cases, window_ext, get_or-take, get_or-drop, length-copy_at, get_or-copy_at,
}

-- The bytes in use lie in the array, and its size is within the limit.
pub record IsValid (b : PacketBuffer) : Type 0 where
  pub fits : b.used ≤ length b.bytes
  pub inside : 0 < b.used → b.head < length b.bytes
  pub bounded : length b.bytes ≤ receive_buffer_bytes
  pub reset : b.used ≡ 0 → b.head ≡ 0

abbrev pub new_size : PacketBuffer → ℕ → ℕ
new_size b needed = min receive_buffer_bytes (max 2048 (max (2 * length b.bytes) needed))

module _ (b : PacketBuffer) (needed : ℕ) (v : IsValid b) where
  abbrev first : ℕ
  first = min b.used (length b.bytes - b.head)

  abbrev front : Bytes
  front = slice b.bytes b.head (b.head + first)

  abbrev moved : Bytes
  moved = copy_at (replicate (new_size b needed) 0) 0 front

  length-front : length front ≡ first
  length-front = rw (length-take, length-drop) (omega arith)

  length-moved : length moved ≡ new_size b needed
  length-moved = length-copy_at _ 0 front (omega arith) ∙ length-replicate (new_size b needed) 0

  length-grown : b.used ≤ new_size b needed → length (grown b needed) ≡ new_size b needed
  unfolding grown
  length-grown h =
      length-copy_at moved first (slice b.bytes 0 (b.used - first)) (omega (arith, length-moved))
      ∙ length-moved

  get_or-grown :
      (i : ℕ)
      → i < b.used
      → b.used ≤ new_size b needed
      → get_or (grown b needed) i 0 ≡ get_or b.bytes ((b.head + i) % length b.bytes) 0
  unfolding grown
  get_or-grown i h k =
      let rest = slice b.bytes 0 (b.used - first) in
      ground (
        arith,
        get_or-copy_at moved first rest i,
        get_or-copy_at (replicate (new_size b needed) 0) 0 front i,
        length-moved,
        length-front,
        length-replicate {A = ℕ} (new_size b needed) 0,
        length-take (b.used - first - 0) b.bytes,
        get_or-take (b.used - first - 0) (i - first) b.bytes,
        get_or-take (b.head + first - b.head) (i - 0) (drop b.head b.bytes),
        get_or-drop b.head (i - 0) b.bytes,
        wrap_cases (b.head + i) (length b.bytes),
        v.inside,
        v.fits,
      )

abbrev pub contents : PacketBuffer → Bytes
contents b = window b.bytes b.head b.used

-- Making room keeps the bytes in use, and leaves at least `needed` places, if the limit allows them.
pub record HasRoom (b : PacketBuffer) (needed : ℕ) (b' : PacketBuffer) : Type 0 where
  pub valid : IsValid b'
  pub room : needed ≤ length b'.bytes
  pub same : contents b' ≡ contents b
  pub same_used : b'.used ≡ b.used
  pub same_closed : b'.closed ≡ b.closed

grown-window :
    (b : PacketBuffer) (needed : ℕ)
    → IsValid b
    → b.used ≤ new_size b needed
    → window (grown b needed) 0 b.used ≡ contents b
grown-window b needed v h = window_ext (grown b needed) b.bytes 0 b.head b.used λ i p. ground (
  arith,
  get_or-grown b needed v i p h,
  length-grown b needed v h,
  wrap_cases (0 + i) (length (grown b needed)),
)

pub make_room-HasRoom :
    (b : PacketBuffer) (needed : ℕ)
    → b.used ≤ needed
    → needed ≤ receive_buffer_bytes
    → IsValid b
    → HasRoom b needed (make_room b needed)
unfolding make_room
make_room-HasRoom b needed h k v =
    let h' : b.used ≤ new_size b needed = omega arith in
    elim (Bool-cases (ltb (length b.bytes) needed)) [
      | inr enough ↦ rw enough (record {
        valid = v;
        room = ground arith;
        same = refl;
        same_used = refl;
        same_closed = refl;
      })
      | inl short ↦
          let size = length-grown b needed v h' in
          rw short (record {
            valid = ground (arith, size);
            room = ground (arith, size);
            same = grown-window b needed v h';
            same_used = refl;
            same_closed = refl;
          })
    ]
