-- ===== src/Packets/Write.antt =====
-- `Write` of internal/ingest/packet_buffer.go, on the bytes of the ring.
use waga_strim.Base.{
  ℕ, zero, suc, ◌+◌, ◌-◌, ◌/◌, ◌%◌, ◌≤◌, ◌<◌, min, ◌≡◌, refl, ap, ap₂, ◌∙◌, ◌∷◌, ◌++◌, arith, ltb,
  ◌==◌, if◌then◌else◌, length, get_or, set, drop, length-set, length-drop, get_or-set_self,
  get_or-set_ne, ℕ_discrete,
}
use waga_strim.Packets.{Bytes, PacketBuffer, copy_at, stored, append_packet}
use waga_strim.Packets.Ring.{
  wrap_cases, window_ext, window_eq, window-append, get_or-drop, length-copy_at, get_or-copy_at,
}
use waga_strim.Packets.Grow.{IsValid, contents}

-- The bytes that a datagram takes in the ring.
abbrev pub frame : Bytes → Bytes
frame p = (length p / 256) % 256 ∷ length p % 256 ∷ p

get_or-set :
    (xs : Bytes) (j v i : ℕ)
    → j < length xs
    → get_or (set xs j v) i 0 ≡ (if j == i then v else get_or xs i 0)
get_or-set xs j v i h = elim (ℕ_discrete j i) [
  | yes e ↦ ground (arith, get_or-set_self xs j v 0, ap (λ k. get_or (set xs j v) k 0) e)
  | no n ↦ ground (arith, get_or-set_ne xs j i v 0 n)
]

-- The two copies of a write: the packet from `start` on, and the rest at the front of the array.
module _ (low : Bytes) (size start : ℕ) (p : Bytes) (same : length low ≡ size)
    (inside : start < size) where
  abbrev once : Bytes
  once = copy_at low start p

  abbrev past : ℕ
  past = size - start

  abbrev twice : Bytes
  twice = copy_at once 0 (drop (min past (length p)) p)

  length-once : length once ≡ size
  length-once = length-copy_at low start p (omega arith) ∙ same

  length-twice : length twice ≡ size
  length-twice = length-copy_at once 0 _ (omega arith) ∙ length-once

  get_or-front :
      (k : ℕ)
      → k < start
      → length p ≤ size
      → get_or twice k 0
        ≡ (if ltb (past + k) (length p) then get_or p (past + k) 0 else get_or low k 0)
  get_or-front k h fits =
      let n = min past (length p) in
      ground (
        arith,
        get_or-copy_at once 0 (drop n p) k,
        get_or-copy_at low start p k,
        get_or-drop n (k - 0) p,
        length-drop n p,
        length-once,
      )

  get_or-back :
      (k : ℕ)
      → start ≤ k
      → k < size
      → length p ≤ size
      → get_or twice k 0
        ≡ (if ltb (k - start) (length p) then get_or p (k - start) 0 else get_or low k 0)
  get_or-back k h inside' fits =
      let n = min past (length p) in
      ground (
        arith,
        get_or-copy_at once 0 (drop n p) k,
        get_or-copy_at low start p k,
        length-drop n p,
        length-once,
      )

module _ (bytes : Bytes) (tail : ℕ) (p : Bytes) (inside : tail < length bytes)
    (room : length p + 2 ≤ length bytes) where
  abbrev size : ℕ
  size = length bytes

  abbrev high : Bytes
  high = set bytes tail ((length p / 256) % 256)

  abbrev low : Bytes
  low = set high ((tail + 1) % size) (length p % 256)

  abbrev start : ℕ
  start = (tail + 2) % size

  length-low : length low ≡ size
  length-low = length-set high ((tail + 1) % size) (length p % 256) ∙ length-set bytes tail _

  pub length-stored : length (stored bytes tail p) ≡ size
  unfolding stored
  length-stored = length-twice low size start p length-low (omega arith)

  get_or-low :
      (i : ℕ)
      → i < size
      → get_or low ((tail + i) % size) 0 ≡ (
          if i == 0
          then (length p / 256) % 256
          else if i == 1
          then length p % 256
          else get_or bytes ((tail + i) % size) 0)
  get_or-low i h = ground (
    arith,
    get_or-set high ((tail + 1) % size) (length p % 256) ((tail + i) % size),
    get_or-set bytes tail ((length p / 256) % 256) ((tail + i) % size),
    length-set bytes tail ((length p / 256) % 256),
    wrap_cases (tail + i) size,
    wrap_cases (tail + 1) size,
  )

  -- Every index of the ring after the write.
  pub get_or-stored :
      (i : ℕ)
      → i < size
      → get_or (stored bytes tail p) ((tail + i) % size) 0 ≡ (
          if i == 0
          then (length p / 256) % 256
          else if i == 1
          then length p % 256
          else if ltb (i - 2) (length p)
          then get_or p (i - 2) 0
          else get_or bytes ((tail + i) % size) 0)
  unfolding stored
  get_or-stored i h =
      let k = (tail + i) % size in
      ground (
        arith,
        get_or-front low size start p length-low (omega arith) k,
        get_or-back low size start p length-low (omega arith) k,
        get_or-low i h,
        wrap_cases (tail + i) size,
        wrap_cases (tail + 2) size,
      )

index_old :
    (head used i size : ℕ)
    → head < size
    → used ≤ size
    → i < used
    → ((head + used) % size + (size - used + i)) % size ≡ (head + i) % size
index_old head used i size h k l = ground (
  arith,
  wrap_cases (head + used) size,
  wrap_cases (head + i) size,
  wrap_cases ((head + used) % size + (size - used + i)) size,
)

index_new :
    (head used i size : ℕ)
    → head < size
    → used ≤ size
    → used + i < size
    → ((head + used) % size + i) % size ≡ (head + used + i) % size
index_new head used i size h k l = ground (
  arith,
  wrap_cases (head + used) size,
  wrap_cases (head + used + i) size,
  wrap_cases ((head + used) % size + i) size,
)

get_or-frame :
    (p : Bytes) (i : ℕ)
    → get_or (frame p) i 0 ≡ (
        if i == 0
        then (length p / 256) % 256
        else if i == 1
        then length p % 256
        else get_or p (i - 2) 0)
get_or-frame p zero = refl
get_or-frame p (suc zero) = refl
get_or-frame p (suc (suc i)) = let e : suc (suc i) - 2 ≡ i = omega arith in rw e (ground arith)

-- The new frame stands behind the bytes that were in use, and those are as they were.
pub append_packet-contents :
    (b : PacketBuffer) (p : Bytes)
    → IsValid b
    → b.used + length p + 2 ≤ length b.bytes
    → contents (append_packet b p) ≡ contents b ++ frame p
unfolding append_packet
append_packet-contents b p v room =
    let size = length b.bytes in
    let tail = (b.head + b.used) % size in
    let after = stored b.bytes tail p in
    let inside : tail < size = omega arith in
    let same = length-stored b.bytes tail p inside (omega arith) in
    let e : b.used + length p + 2 ≡ b.used + length (frame p) = omega arith in
    let start : b.head < size = ground arith in
    rw (e, window-append after b.head b.used (length (frame p)))
      (ap₂ ◌++◌
        (window_ext after b.bytes b.head b.head b.used λ i h.
          rw (same, ← index_old b.head b.used i size start (omega arith) h)
            (ground (arith, get_or-stored b.bytes tail p inside (omega arith) (size - b.used + i))))
        (window_eq after (b.head + b.used) (frame p) λ i h.
          rw (same, ← index_new b.head b.used i size start (omega arith) (omega arith))
            (ground
              (arith, get_or-stored b.bytes tail p inside (omega arith) i, get_or-frame p i))))

pub append_packet-IsValid :
    (b : PacketBuffer) (p : Bytes)
    → IsValid b
    → b.used + length p + 2 ≤ length b.bytes
    → IsValid (append_packet b p)
unfolding append_packet
append_packet-IsValid b p v room =
    let tail = (b.head + b.used) % length b.bytes in
    ground (arith, length-stored b.bytes tail p (omega arith) (omega arith))
