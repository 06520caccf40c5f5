-- ===== src/Playout/Heap/Sink.antt =====
-- The loop of `sink`, of the heap of internal/relay/delay.go.
use waga_strim.Base.{
  ℕ, zero, suc, ◌+◌, ◌*◌, ◌≤◌, ◌<◌, ◌≡◌, refl, ap, ◌∙◌, ◌≢◌, ◌⊎◌, inl, inr, subst, Bool, true,
  false, ◌&&◌, arith, ltb, ◌==◌, if◌then◌else◌, length, Bool-cases, ℕ_discrete,
}
use waga_strim.Playout.Heap.{Buffered, Heap, get, before, swap, smallest_of, sink}
use waga_strim.Playout.Heap.Order.{
  Above, Above-refl, Above-trans, before-Above, get-swap, length-swap, Above-eq, up, IsHeap,
}

-- Only the edges below `i` may be out of order.
pub record SinkInv (h : Heap) (i : ℕ) : Type 0 where
  pub edges : (c : ℕ) → 0 < c → c < length h → up c ≢ i → Above (get h (up c)) (get h c)
  pub bridged : (c : ℕ) → 0 < c → c < length h → up c ≡ i → 0 < i → Above (get h (up i)) (get h c)

-- `m` is a child of `i` that may stand above the other, and has to stand above `i`.
record IsSmallest (h : Heap) (i m : ℕ) : Type 0 where
  inside : m < length h
  child : up m ≡ i
  below : i < m
  moves : before (get h m) (get h i) ≡ true
  least : (c : ℕ) → 0 < c → c < length h → up c ≡ i → Above (get h m) (get h c)

abbrev Settled : Heap → ℕ → Type 0
Settled h i = (c : ℕ) → 0 < c → c < length h → up c ≡ i → Above (get h i) (get h c)

before_trans : (a b c : Buffered) → before a b ≡ true → before b c ≡ true → before a c ≡ true
unfolding before
before_trans a b c p q = ground arith

children : (c i : ℕ) → 0 < c → up c ≡ i → (c ≡ 2 * i + 1) ⊎ (c ≡ 2 * i + 1 + 1)
children c i p q = omega arith

and_true : (a b : Bool) → (a && b) ≡ true → (a ≡ true) × (b ≡ true)
and_true a b h = ground arith

smallest_of-cases :
    (h : Heap) (i : ℕ)
    → ((smallest_of h i ≡ i) × Settled h i) ⊎ ((m : ℕ) × (smallest_of h i ≡ m) × IsSmallest h i m)
unfolding smallest_of
smallest_of-cases h i =
    let left = 2 * i + 1 in
    let right = left + 1 in
    elim (Bool-cases (ltb left (length h) && before (get h left) (get h i))) [
      | inl y ↦
          let (in_left, moves_left) = and_true _ _ y in
          elim (Bool-cases (ltb right (length h) && before (get h right) (get h left))) [
            | inl z ↦
                let (in_right, moves_right) = and_true _ _ z in
                inr (
                  right,
                  simp (y, z) refl,
                  record {
                    inside = ground arith;
                    child = omega arith;
                    below = omega arith;
                    moves = before_trans _ _ _ moves_right moves_left;
                    least = λ c p q e. elim (children c i p e) [
                      | inl t ↦ Above-eq _ _ _ _ refl (ap (get h) t) (before-Above _ _ moves_right)
                      | inr t ↦ Above-eq _ _ _ _ refl (ap (get h) t) (Above-refl (get h right))
                    ];
                  },
                )
            | inr z ↦ inr (
              left,
              simp (y, z) refl,
              record {
                inside = ground arith;
                child = omega arith;
                below = omega arith;
                moves = moves_left;
                least = λ c p q e. elim (children c i p e) [
                  | inl t ↦ Above-eq _ _ _ _ refl (ap (get h) t) (Above-refl (get h left))
                  | inr t ↦ Above-eq _ _ _ _ refl (ap (get h) t) (ground arith)
                ];
              },
            )
          ]
      | inr y ↦ elim (Bool-cases (ltb right (length h) && before (get h right) (get h i))) [
        | inl z ↦
            let (in_right, moves_right) = and_true _ _ z in
            inr (
              right,
              simp (y, z) refl,
              record {
                inside = ground arith;
                child = omega arith;
                below = omega arith;
                moves = moves_right;
                least = λ c p q e. elim (children c i p e) [
                  | inl t ↦
                      Above-eq _ _ _ _ refl (ap (get h) t)
                        (Above-trans _ (get h i) _ (before-Above _ _ moves_right) (ground arith))
                  | inr t ↦ Above-eq _ _ _ _ refl (ap (get h) t) (Above-refl (get h right))
                ];
              },
            )
        | inr z ↦ inl (
          simp (y, z) refl,
          λ c p q e. elim (children c i p e) [
            | inl t ↦ Above-eq _ _ _ _ refl (ap (get h) t) (ground arith)
            | inr t ↦ Above-eq _ _ _ _ refl (ap (get h) t) (ground arith)
          ],
        )
      ]
    ]

module _ (h : Heap) (i m : ℕ) (s : IsSmallest h i m) (v : SinkInv h i) where
  abbrev swapped : Heap
  swapped = swap h i m

  at : (k : ℕ) → get swapped k ≡ (if k == m then get h i else if k == i then get h m else get h k)
  at k = get-swap h i m k (omega (arith, s.inside, s.below)) s.inside

  at_other : (k : ℕ) → k ≢ i → k ≢ m → get swapped k ≡ get h k
  at_other k p q = ground (arith, at k)

  at_parent : get swapped i ≡ get h m
  at_parent = ground (arith, at i, s.below)

  at_child : get swapped m ≡ get h i
  at_child = ground (arith, at m)

  sink-edges :
      (c : ℕ) → 0 < c → c < length h → up c ≢ m → Above (get swapped (up c)) (get swapped c)
  sink-edges c p q n = elim (ℕ_discrete c m) [
    | yes e ↦
        Above-eq _ (get h m) _ (get h i)
          (ap (λ k. get swapped (up k)) e ∙ ap (get swapped) s.child ∙ at_parent)
          (ap (get swapped) e ∙ at_child) (before-Above _ _ s.moves)
    | no k ↦ elim (ℕ_discrete c i) [
      | yes e ↦
          Above-eq _ (get h (up i)) _ (get h m)
            (ap (λ k. get swapped (up k)) e
              ∙ at_other (up i) (λ t. omega arith) (λ t. omega (arith, s.below)))
            (ap (get swapped) e ∙ at_parent)
            (v.bridged m (omega (arith, s.below)) s.inside s.child (omega arith))
      | no l ↦ elim (ℕ_discrete (up c) i) [
        | yes e ↦
            Above-eq _ (get h m) _ (get h c) (ap (get swapped) e ∙ at_parent) (at_other c l k)
              (s.least c p q e)
        | no o ↦
            Above-eq _ (get h (up c)) _ (get h c) (at_other (up c) o n) (at_other c l k)
              (v.edges c p q o)
      ]
    ]
  ]

  sink-bridged :
      (c : ℕ) → 0 < c → c < length h → up c ≡ m → Above (get swapped (up m)) (get swapped c)
  sink-bridged c p q e =
      Above-eq _ (get h m) _ (get h c) (ap (get swapped) s.child ∙ at_parent)
        (at_other c (λ t. omega (arith, s.below)) (λ t. omega (arith, s.below)))
        (subst (λ k. Above (get h k) (get h c)) e (v.edges c p q (λ t. omega (arith, s.below))))

pub sink-IsHeap : (n : ℕ) (h : Heap) (i : ℕ) → length h ≤ n + i → SinkInv h i → IsHeap (sink n h i)
unfolding sink
sink-IsHeap zero h i f v = λ c p q. v.edges c p q (λ e. omega arith)
sink-IsHeap (suc n) h i f v = elim (smallest_of-cases h i) [
  | inl (e, settled) ↦
      let same : (smallest_of h i == i) ≡ true = ground arith in
      simp same (λ c p q. elim (ℕ_discrete (up c) i) [
        | yes t ↦ Above-eq _ _ _ _ (ap (get h) t) refl (settled c p q t)
        | no t ↦ v.edges c p q t
      ])
  | inr (m, e, s) ↦
      let other : (m == i) ≡ false = ground (arith, s.below) in
      simp (e, other)
        (sink-IsHeap n (swap h i m) m (omega (arith, length-swap h i m, s.below)) (record {
          edges = λ c a b. sink-edges h i m s v c a (omega (arith, length-swap h i m));
          bridged = λ c a b t r. sink-bridged h i m s v c a (omega (arith, length-swap h i m)) t;
        }))
]
