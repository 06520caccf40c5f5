-- ===== src/Playout/Heap.antt =====
-- `packetHeap` of internal/relay/delay.go: the binary heap of the packets that wait for their playout.
pub mod Order
pub mod Sink
pub mod Count
pub mod Queue
use waga_strim.Base.{
  ℕ, zero, suc, ◌+◌, ◌-◌, ◌*◌, ◌/◌, Bool, true, false, not, ◌&&◌, Option, none, some, List, [], ◌∷◌,
  ◌++◌, ltb, ◌==◌, if◌then◌else◌, length, get_or, set, take,
}
use waga_strim.Base.Int.{ℤ, pos, ltb_ℤ, eqb_ℤ}

-- `pkt` is the number of the packet that the entry points at.
pub record Buffered : Type 0 where
  pub pkt : ℕ
  pub play_at : ℤ
  pub order : ℕ

abbrev pub Heap : Type 0
Heap = List Buffered

-- `buffered{}`
abbrev pub nothing : Buffered
nothing = record { pkt = 0; play_at = pos 0; order = 0 }

abbrev pub get : Heap → ℕ → Buffered
get h i = get_or h i nothing

unfoldable pub before : Buffered → Buffered → Bool
before b other =
    if eqb_ℤ b.play_at other.play_at then ltb b.order other.order else ltb_ℤ b.play_at other.play_at

abbrev pub swap : Heap → ℕ → ℕ → Heap
swap h i j = set (set h i (get h j)) j (get h i)

-- The loop of `push`: the child halves with each pass, so that its index is enough fuel.
unfoldable pub rise : ℕ → Heap → ℕ → Heap × ℕ
rise zero h child = (h, child)
rise (suc n) h child =
    let parent = (child - 1) / 2 in
    let rest = rise n (swap h child parent) parent in
    if child == 0
    then (h, child)
    else if before (get h child) (get h parent)
    then rest
    else (h, child)

-- `push`: the heap, and whether the item came to rest at the root.
unfoldable pub push : Heap → Buffered → Heap × Bool
push h item = let (h', child) = rise (length h) (h ++ (item ∷ [])) (length h) in (h', child == 0)

-- The smallest of a parent and its children.
unfoldable pub smallest_of : Heap → ℕ → ℕ
smallest_of h parent =
    let left = 2 * parent + 1 in
    let right = left + 1 in
    let smallest =
      if ltb left (length h) && before (get h left) (get h parent) then left else parent in
    if ltb right (length h) && before (get h right) (get h smallest) then right else smallest

-- `sink`: the parent grows with each pass, so that the length is enough fuel.
unfoldable pub sink : ℕ → Heap → ℕ → Heap
sink zero h parent = h
sink (suc n) h parent =
    let smallest = smallest_of h parent in
    let rest = sink n (swap h parent smallest) smallest in if smallest == parent then h else rest

-- `pop`, of a heap that is not empty.
unfoldable pub pop : Heap → Heap × Buffered
pop h =
    let last = length h - 1 in
    let left = take last (set h 0 (get h last)) in (sink (length left) left 0, get h 0)
