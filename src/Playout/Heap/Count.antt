-- ===== src/Playout/Heap/Count.antt =====
-- The entries of the heap of internal/relay/delay.go, counted by a test on them.
use waga_strim.Base.{
  ℕ, zero, suc, ◌+◌, ◌-◌, ◌/◌, ◌<◌, ◌≡◌, refl, ap, ◌∙◌, inl, inr, subst, Bool, [], ◌∷◌, ◌++◌, arith,
  ◌==◌, if◌then◌else◌, length, set, take, Bool-cases, length-set,
}
use waga_strim.Playout.Heap.{Buffered, Heap, get, before, swap, rise, smallest_of, sink}
use waga_strim.Playout.Heap.Order.{get-set, length-swap}

abbrev pub one : Bool → ℕ
one b = if b then 1 else 0

module _ (p : Buffered → Bool) where
  abbrev pub count : Heap → ℕ
  count [] = 0
  count (b ∷ h) = one (p b) + count h

  count-set :
      (h : Heap) (i : ℕ) (v : Buffered)
      → i < length h
      → count (set h i v) + one (p (get h i)) ≡ count h + one (p v)
  count-set [] i v l = absurd (omega arith)
  count-set (b ∷ h) zero v l = omega arith
  count-set (b ∷ h) (suc i) v l = omega (arith, count-set h i v (omega arith))

  pub count-append : (h : Heap) (v : Buffered) → count (h ++ (v ∷ [])) ≡ count h + one (p v)
  count-append [] v = omega arith
  count-append (b ∷ h) v = omega (arith, count-append h v)

  count-swap : (h : Heap) (i j : ℕ) → i < length h → j < length h → count (swap h i j) ≡ count h
  count-swap h i j k l =
      let first = count-set h i (get h j) k in
      let second =
        count-set (set h i (get h j)) j (get h i) (omega (arith, length-set h i (get h j))) in
      let same : get (set h i (get h j)) j ≡ get h j = ground (arith, get-set h i j (get h j) k) in
      let same' = ap (λ b. one (p b)) same in omega (arith, first, second, same')

  pub count-rise : (n : ℕ) (h : Heap) (i : ℕ) → i < length h → count (rise n h i).0 ≡ count h
  unfolding rise
  count-rise zero h i k = refl
  count-rise (suc n) h i k =
      let above = (i - 1) / 2 in
      let rest = count-rise n (swap h i above) above (omega (arith, length-swap h i above)) in
      elim (Bool-cases (i == 0)) [
        | inl e ↦ simp e refl
        | inr e ↦ elim (Bool-cases (before (get h i) (get h above))) [
          | inl y ↦ simp (e, y) (rest ∙ count-swap h i above k (omega arith))
          | inr y ↦ simp (e, y) refl
        ]
      ]

  pub smallest-inside : (h : Heap) (i : ℕ) → i < length h → smallest_of h i < length h
  unfolding smallest_of
  smallest-inside h i k = ground arith

  pub count-sink : (n : ℕ) (h : Heap) (i : ℕ) → i < length h → count (sink n h i) ≡ count h
  unfolding sink
  count-sink zero h i k = refl
  count-sink (suc n) h i k =
      let m = smallest_of h i in
      let inside = smallest-inside h i k in
      let rest = count-sink n (swap h i m) m (omega (arith, length-swap h i m, inside)) in
      elim (Bool-cases (m == i)) [
        | inl e ↦ simp e refl
        | inr e ↦ simp e (rest ∙ count-swap h i m k inside)
      ]

  -- Without the last entry, which a copy at the front replaces the first with.
  pub count-take :
      (h : Heap)
      → 0 < length h
      → count (take (length h - 1) h) + one (p (get h (length h - 1))) ≡ count h
  count-take [] l = absurd (omega arith)
  count-take (b ∷ []) l = omega arith
  count-take (b ∷ (c ∷ h)) l =
      let e : length (b ∷ (c ∷ h)) - 1 ≡ suc (length (c ∷ h) - 1) = omega arith in
      rw e (omega (arith, count-take (c ∷ h) (omega arith)))

  pub count-left :
      (h : Heap)
      → 0 < length h
      → count (take (length h - 1) (set h 0 (get h (length h - 1)))) + one (p (get h 0)) ≡ count h
  count-left h l =
      let last = get h (length h - 1) in
      let moved = set h 0 last in
      let size = length-set h 0 last in
      let whole = count-take moved (omega (arith, size)) in
      let first = count-set h 0 last l in
      let end : get moved (length h - 1) ≡ last =
        ground (arith, get-set h 0 (length h - 1) last l) in
      let end' : one (p (get moved (length h - 1))) ≡ one (p last) = ap (λ b. one (p b)) end in
      let whole' : count (take (length h - 1) moved) + one (p (get moved (length h - 1)))
          ≡ count moved =
        subst (λ n. count (take (n - 1) moved) + one (p (get moved (n - 1))) ≡ count moved) size
          whole in
      omega (arith, whole', first, end')

  pub count-sink_root : (h : Heap) → count (sink (length h) h 0) ≡ count h
  count-sink_root [] = unfold sink in refl
  count-sink_root (b ∷ h) = count-sink (length (b ∷ h)) (b ∷ h) 0 (omega arith)
