-- ===== src/Playout/Heap/Order.antt =====
-- The order of the heap of internal/relay/delay.go, and the loop of its `push`.
use waga_strim.Base.{
  ℕ, zero, suc, ◌-◌, ◌/◌, ◌≤◌, ◌<◌, ◌≡◌, sym, ap, ap₂, ◌∙◌, ◌≢◌, inl, inr, subst, true, false,
  arith, ◌==◌, if◌then◌else◌, length, set, Bool-cases, length-set, get_or-set_self, get_or-set_ne,
  ℕ_discrete,
}
use waga_strim.Playout.Heap.{Buffered, Heap, nothing, get, before, swap, rise}

-- `a` may stand above `b`.
abbrev pub Above : Buffered → Buffered → Type 0
Above a b = before b a ≡ false

pub Above-refl : (a : Buffered) → Above a a
unfolding before
Above-refl a = ground arith

pub Above-trans : (a b c : Buffered) → Above a b → Above b c → Above a c
unfolding before
Above-trans a b c p q = ground arith

pub before-Above : (a b : Buffered) → before a b ≡ true → Above a b
unfolding before
before-Above a b h = ground arith

pub get-set :
    (h : Heap) (i j : ℕ) (v : Buffered)
    → i < length h
    → get (set h i v) j ≡ (if i == j then v else get h j)
get-set h i j v inside = elim (ℕ_discrete i j) [
  | yes e ↦ ground (arith, get_or-set_self h i v nothing inside, ap (λ k. get (set h i v) k) e)
  | no n ↦ ground (arith, get_or-set_ne h i j v nothing n)
]

-- What a swap leaves at each place.
pub get-swap :
    (h : Heap) (i j k : ℕ)
    → i < length h
    → j < length h
    → get (swap h i j) k ≡ (if k == j then get h i else if k == i then get h j else get h k)
get-swap h i j k p q = ground (
  arith,
  get-set (set h i (get h j)) j k (get h i),
  get-set h i k (get h j),
  length-set h i (get h j),
)

pub length-swap : (h : Heap) (i j : ℕ) → length (swap h i j) ≡ length h
length-swap h i j = length-set (set h i (get h j)) j (get h i) ∙ length-set h i (get h j)

abbrev pub up : ℕ → ℕ
up c = (c - 1) / 2

-- Every entry but the first may stand below its parent.
abbrev pub IsHeap : Heap → Type 0
IsHeap h = (c : ℕ) → 0 < c → c < length h → Above (get h (up c)) (get h c)

-- Only the edge above `i` may be out of order.
pub record RiseInv (h : Heap) (i : ℕ) : Type 0 where
  pub edges : (c : ℕ) → 0 < c → c < length h → c ≢ i → Above (get h (up c)) (get h c)
  pub bridged : (c : ℕ) → 0 < c → c < length h → up c ≡ i → 0 < i → Above (get h (up i)) (get h c)

pub Above-eq : (a a' b b' : Buffered) → a ≡ a' → b ≡ b' → Above a' b' → Above a b
Above-eq a a' b b' p q r = ap₂ before q p ∙ r

module _ (h : Heap) (i : ℕ) (inside : i < length h) (low : 0 < i) (v : RiseInv h i)
    (moves : before (get h i) (get h (up i)) ≡ true) where
  abbrev swapped : Heap
  swapped = swap h i (up i)

  at :
      (k : ℕ)
      → get swapped k ≡ (if k == up i then get h i else if k == i then get h (up i) else get h k)
  at k = get-swap h i (up i) k inside (omega arith)

  at_other : (k : ℕ) → k ≢ i → k ≢ up i → get swapped k ≡ get h k
  at_other k p q = ground (arith, at k)

  at_self : get swapped i ≡ get h (up i)
  at_self = ground (arith, at i)

  at_parent : get swapped (up i) ≡ get h i
  at_parent = ground (arith, at (up i))

  rise-edges :
      (c : ℕ) → 0 < c → c < length h → c ≢ up i → Above (get swapped (up c)) (get swapped c)
  rise-edges c p q n = elim (ℕ_discrete c i) [
    | yes e ↦
        Above-eq _ (get h i) _ (get h (up i)) (ap (λ k. get swapped (up k)) e ∙ at_parent)
          (ap (get swapped) e ∙ at_self) (before-Above _ _ moves)
    | no m ↦ elim (ℕ_discrete (up c) i) [
      | yes e ↦
          Above-eq _ (get h (up i)) _ (get h c) (ap (get swapped) e ∙ at_self) (at_other c m n)
            (v.bridged c p q e low)
      | no k ↦ elim (ℕ_discrete (up c) (up i)) [
        | yes e ↦
            Above-eq _ (get h i) _ (get h c) (ap (get swapped) e ∙ at_parent) (at_other c m n) (
              Above-trans (get h i) (get h (up i)) (get h c) (before-Above _ _ moves)
                (subst (λ u. Above (get h u) (get h c)) e (v.edges c p q m)))
        | no l ↦
            Above-eq _ (get h (up c)) _ (get h c) (at_other (up c) k l) (at_other c m n)
              (v.edges c p q m)
      ]
    ]
  ]

  rise-bridged :
      (c : ℕ)
      → 0 < c
      → c < length h
      → up c ≡ up i
      → 0 < up i
      → Above (get swapped (up (up i))) (get swapped c)
  rise-bridged c p q e r =
      let top = at_other (up (up i)) (λ t. omega arith) (λ t. omega arith) in
      let edge = v.edges (up i) r (omega arith) (λ t. omega arith) in
      elim (ℕ_discrete c i) [
        | yes t ↦ Above-eq _ _ _ _ top (ap (get swapped) t ∙ at_self) edge
        | no m ↦
            Above-eq _ _ _ _ top (at_other c m (λ t. omega arith))
              (Above-trans _ _ _ edge (subst (λ u. Above (get h u) (get h c)) e (v.edges c p q m)))
      ]

abbrev raised : Heap → ℕ → Heap
raised h child = swap h child (up child)

pub rise-IsHeap :
    (n : ℕ) (h : Heap) (i : ℕ) → i ≤ n → i < length h → RiseInv h i → IsHeap (rise n h i).0
unfolding rise
rise-IsHeap zero h i k p v = λ c low q. v.edges c low q (λ e. omega arith)
rise-IsHeap (suc n) h i k p v = elim (Bool-cases (i == 0)) [
  | inl root ↦ simp root (λ c low q. v.edges c low q (λ e. ground arith))
  | inr below ↦ elim (Bool-cases (before (get h i) (get h (up i)))) [
    | inl moves ↦
        let low : 0 < i = ground arith in
        simp (below, moves)
          (rise-IsHeap n (raised h i) (up i) (omega arith) (omega (arith, length-swap h i (up i)))
            (record {
              edges =
                  λ c a b. rise-edges h i p low v moves c a (omega (arith, length-swap h i (up i)));
              bridged = λ c a b.
                  rise-bridged h i p low v moves c a (omega (arith, length-swap h i (up i)));
            }))
    | inr stays ↦
        simp (below, stays)
          (λ c low q. elim (ℕ_discrete c i) [
            | yes e ↦ subst (λ k. Above (get h (up k)) (get h k)) (sym e) stays
            | no n ↦ v.edges c low q n
          ])
  ]
]
