-- ===== src/Playout/Heap/Queue.antt =====
-- `push` and `pop` of the heap of internal/relay/delay.go, as a priority queue.
use waga_strim.Base.{
  ℕ, zero, suc, ◌+◌, ◌-◌, ◌≤◌, ◌<◌, ◌≡◌, refl, ap, ◌∙◌, Bool, false, [], ◌∷◌, ◌++◌, arith, length,
  set, take, length-set, length-append, length-take,
}
use waga_strim.Playout.Heap.{Buffered, Heap, get, before, push, pop}
use waga_strim.Playout.Heap.Order.{
  Above, Above-refl, Above-trans, get-set, Above-eq, up, IsHeap, rise-IsHeap,
}
use waga_strim.Playout.Heap.Sink.{sink-IsHeap}
use waga_strim.Playout.Heap.Count.{
  one, count, count-append, count-rise, count-sink_root, count-left,
}

get-append : (h : Heap) (v : Buffered) (i : ℕ) → i < length h → get (h ++ (v ∷ [])) i ≡ get h i
get-append [] v i l = absurd (omega arith)
get-append (b ∷ h) v zero l = refl
get-append (b ∷ h) v (suc i) l = get-append h v i (omega arith)

get-take : (n : ℕ) (h : Heap) (i : ℕ) → i < n → get (take n h) i ≡ get h i
get-take zero h i l = absurd (omega arith)
get-take (suc n) [] i l = refl
get-take (suc n) (b ∷ h) zero l = refl
get-take (suc n) (b ∷ h) (suc i) l = get-take n h i (omega arith)

-- The root of a heap may stand above every entry.
root-Above :
    (n : ℕ) (h : Heap) (i : ℕ) → i ≤ n → i < length h → IsHeap h → Above (get h 0) (get h i)
root-Above n h zero k l v = Above-refl (get h 0)
root-Above zero h (suc i) k l v = absurd (omega arith)
root-Above (suc n) h (suc i) k l v =
    Above-trans _ (get h (up (suc i))) _ (root-Above n h (up (suc i)) (omega arith) (omega arith) v)
      (v (suc i) (omega arith) l)

-- A push keeps the heap in order, and adds the item to what it holds, nothing else: a test that counts
-- the packets counts as many as before, and one more if it holds of the item.
pub push_adds :
    (h : Heap) (item : Buffered)
    → IsHeap h
    → IsHeap (push h item).0
      × ((p : Buffered → Bool) → count p (push h item).0 ≡ count p h + one (p item))
unfolding push
push_adds h item v =
    let h' = h ++ (item ∷ []) in
    let size = length-append h (item ∷ []) in
    let inside : length h < length h' = omega (arith, size) in
    (
      rise-IsHeap (length h) h' (length h) (omega arith) inside (record {
        edges = λ c p q n.
            Above-eq _ (get h (up c)) _ (get h c) (get-append h item (up c) (omega (arith, size)))
              (get-append h item c (omega (arith, size))) (v c p (omega (arith, size)));
        bridged = λ c p q e r. absurd (omega (arith, size));
      }),
      λ p. count-rise p (length h) h' (length h) inside ∙ count-append p h item,
    )

-- A pop of a heap in order, that is not empty, gives a packet that no packet of the heap has to be
-- played before. It leaves a heap in order, of the other packets: a test that counts them counts as
-- many as before, less one if it holds of the packet given.
pub pop_gives_first :
    (h : Heap)
    → 0 < length h
    → IsHeap h
    → ((i : ℕ) → i < length h → before (get h i) (pop h).1 ≡ false)
      × IsHeap (pop h).0
      × ((p : Buffered → Bool) → count p (pop h).0 + one (p (pop h).1) ≡ count p h)
unfolding pop
pop_gives_first h l v =
    let last = length h - 1 in
    let left = take last (set h 0 (get h last)) in
    let size : length left ≡ last =
      omega (arith, length-take last (set h 0 (get h last)), length-set h 0 (get h last)) in
    let same : (k : ℕ) → 0 < k → k < length left → get left k ≡ get h k = λ k a b.
      get-take last (set h 0 (get h last)) k (omega (arith, size))
      ∙ ground (arith, get-set h 0 k (get h last) l) in
    (
      λ i q. root-Above i h i (omega arith) q v,
      sink-IsHeap (length left) left 0 (omega arith) (record {
        edges = λ c p q n.
            Above-eq _ (get h (up c)) _ (get h c) (same (up c) (omega arith) (omega arith))
              (same c p q) (v c p (omega (arith, size)));
        bridged = λ c p q e r. absurd (omega arith);
      }),
      λ p. ap (λ k. k + one (p (get h 0))) (count-sink_root p left) ∙ count-left p h l,
    )
