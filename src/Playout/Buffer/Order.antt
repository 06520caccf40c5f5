-- ===== src/Playout/Buffer/Order.antt =====
-- The heap of internal/relay/delay.go in the operations of its `Buffer`: its packets, and its order under
-- a shift of all playout times.
use waga_strim.Base.{
  ℕ, zero, suc, ◌+◌, ◌<◌, ◌≡◌, refl, ap, ◌∙◌, Bool, true, [], ◌∷◌, ◌++◌, map, arith, length,
  length-append,
}
use waga_strim.Base.Int.{ℤ, +ℤ_parts}
use waga_strim.Playout.Heap
use waga_strim.Playout.Heap.{Buffered, Heap, nothing, get, before}
use waga_strim.Playout.Heap.Order.{IsHeap, Above-eq, up}
use waga_strim.Playout.Heap.Count.{one, count, count-append, count-rise}
use waga_strim.Playout.Buffer.{shifted}

pub nothing-IsHeap : IsHeap []
nothing-IsHeap c p q = absurd (omega arith)

pub count-all : (h : Heap) → count (λ b. true) h ≡ length h
count-all [] = refl
count-all (b ∷ h) = omega (arith, count-all h)

pub count-push :
    (p : Buffered → Bool) (h : Heap) (item : Buffered)
    → count p (Heap.push h item).0 ≡ count p h + one (p item)
unfolding Heap.push
count-push p h item =
    let inside : length h < length (h ++ (item ∷ [])) =
      omega (arith, length-append h (item ∷ [])) in
    count-rise p (length h) (h ++ (item ∷ [])) (length h) inside ∙ count-append p h item

pub length-push : (h : Heap) (item : Buffered) → length (Heap.push h item).0 ≡ length h + 1
length-push h item =
    omega (arith, count-all (Heap.push h item).0, count-push (λ b. true) h item, count-all h)

-- A shift of the playout times keeps the packets.
pub tally-shifted :
    (q : ℕ → Bool) (by : ℤ) (h : Heap)
    → count (λ (b : Buffered). q b.pkt) (map (shifted by) h) ≡ count (λ (b : Buffered). q b.pkt) h
tally-shifted q by [] = refl
tally-shifted q by (b ∷ h) = omega (arith, tally-shifted q by h)

pub length-map-shifted : (by : ℤ) (h : Heap) → length (map (shifted by) h) ≡ length h
length-map-shifted by [] = refl
length-map-shifted by (b ∷ h) = ap suc (length-map-shifted by h)

get-map-shifted :
    (by : ℤ) (h : Heap) (i : ℕ) → i < length h → get (map (shifted by) h) i ≡ shifted by (get h i)
get-map-shifted by [] i l = absurd (omega arith)
get-map-shifted by (b ∷ h) zero l = refl
get-map-shifted by (b ∷ h) (suc i) l = get-map-shifted by h i (omega arith)

before-shifted : (by : ℤ) (a b : Buffered) → before (shifted by a) (shifted by b) ≡ before a b
unfolding before
before-shifted by a b = ground (arith, +ℤ_parts a.play_at by, +ℤ_parts b.play_at by)

pub shifted-IsHeap : (by : ℤ) (h : Heap) → IsHeap h → IsHeap (map (shifted by) h)
shifted-IsHeap by h v c p q =
    let size = length-map-shifted by h in
    let inside : c < length h = omega (arith, size) in
    Above-eq _ (shifted by (get h (up c))) _ (shifted by (get h c))
      (get-map-shifted by h (up c) (omega arith)) (get-map-shifted by h c inside)
      (before-shifted by (get h c) (get h (up c)) ∙ v c p inside)
