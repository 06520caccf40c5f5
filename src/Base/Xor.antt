-- ===== src/Base/Xor.antt =====
-- The laws of exclusive or on the native numbers, from one equation for the lowest binary digit.
use Prim.Native.Nat.{digits, bit_xor-bitwise, differ}
use native.Mathlib.Nat.{le_refl}
use waga_strim.Base.{
  ℕ, zero, suc, ◌+◌, ◌-◌, ◌*◌, ◌/◌, ◌%◌, ◌≤◌, ◌<◌, bit_xor, ◌≡◌, refl, sym, ap, ◌∙◌, arith,
}

-- `bit_xor`, with the count of digits that its recursion goes by.
abbrev counted : ℕ → ℕ → ℕ → ℕ
counted = digits (λ y. y) differ

-- One more than enough changes nothing.
spare_one : (count a b : ℕ) → a ≤ count → counted (suc count) a b ≡ counted count a b
spare_one count zero b h = elim count as (λ n. counted (suc n) 0 b ≡ counted n 0 b) [
  | zero ↦ refl
  | suc k ↦ refl
]
spare_one zero (suc a) b h = absurd (omega arith)
spare_one (suc count) (suc a) b h =
    ap (λ k. k * 2 + differ (suc a % 2) (b % 2)) (spare_one count (suc a / 2) (b / 2) (omega arith))

spare : (more a b : ℕ) → counted (more + a) a b ≡ counted a a b
spare zero a b = ap (λ k. counted k a b) (omega arith)
spare (suc more) a b =
    let count : suc more + a ≡ suc (more + a) = omega arith in
    ap (λ k. counted k a b) count ∙ spare_one (more + a) a b (omega arith) ∙ spare more a b

bit_xor_step : (a b : ℕ) → bit_xor a b ≡ bit_xor (a / 2) (b / 2) * 2 + differ (a % 2) (b % 2)
bit_xor_step zero b = simp bit_xor-bitwise (omega arith)
bit_xor_step (suc a) b =
    let half = suc a / 2 in
    let rest : a ≡ (a - half) + half = omega arith in
    simp bit_xor-bitwise (
      ap (λ k. k * 2 + differ (suc a % 2) (b % 2))
        (ap (λ k. counted k half (b / 2)) rest ∙ spare (a - half) half (b / 2)))

-- The exclusive or of two digits, as a sum.
digit : (a b : ℕ) → a < 2 → b < 2 → differ a b ≡ (a + b) % 2
digit zero zero p q = refl
digit zero (suc zero) p q = refl
digit zero (suc (suc b)) p q = absurd (omega arith)
digit (suc zero) zero p q = refl
digit (suc zero) (suc zero) p q = refl
digit (suc zero) (suc (suc b)) p q = absurd (omega arith)
digit (suc (suc a)) b p q = absurd (omega arith)

digits_of :
    (a b : ℕ) → (bit_xor a b / 2 ≡ bit_xor (a / 2) (b / 2)) × (bit_xor a b % 2 ≡ (a + b) % 2)
digits_of a b =
    let step = bit_xor_step a b in
    let last = digit (a % 2) (b % 2) (omega arith) (omega arith) in (omega arith, omega arith)

-- Two numbers are equal whose halves and lowest digits are.
same_digits : (a b : ℕ) → a / 2 ≡ b / 2 → a % 2 ≡ b % 2 → a ≡ b
same_digits a b p q = omega arith

pub xor_zero : (a : ℕ) → bit_xor 0 a ≡ a
xor_zero a = simp bit_xor-bitwise refl

comm_below : (n a b : ℕ) → a ≤ n → b ≤ n → bit_xor a b ≡ bit_xor b a
comm_below zero zero zero p q = refl
comm_below zero (suc a) b p q = absurd (omega arith)
comm_below zero zero (suc b) p q = absurd (omega arith)
comm_below (suc n) a b p q =
    let (half, last) = digits_of a b in
    let (half', last') = digits_of b a in
    let below = comm_below n (a / 2) (b / 2) (omega arith) (omega arith) in
    same_digits (bit_xor a b) (bit_xor b a) (omega arith) (omega arith)

pub xor_comm : (a b : ℕ) → bit_xor a b ≡ bit_xor b a
xor_comm a b = comm_below (a + b) a b (omega arith) (omega arith)

assoc_below :
    (n a b c : ℕ) → a ≤ n → b ≤ n → c ≤ n → bit_xor (bit_xor a b) c ≡ bit_xor a (bit_xor b c)
assoc_below zero zero zero zero p q r = refl
assoc_below zero (suc a) b c p q r = absurd (omega arith)
assoc_below zero zero (suc b) c p q r = absurd (omega arith)
assoc_below zero zero zero (suc c) p q r = absurd (omega arith)
assoc_below (suc n) a b c p q r =
    let (half_ab, last_ab) = digits_of a b in
    let (half_bc, last_bc) = digits_of b c in
    let (half, last) = digits_of (bit_xor a b) c in
    let (half', last') = digits_of a (bit_xor b c) in
    let below = assoc_below n (a / 2) (b / 2) (c / 2) (omega arith) (omega arith) (omega arith) in
    same_digits _ _
      (half
        ∙ ap (λ k. bit_xor k (c / 2)) half_ab
        ∙ below
        ∙ sym (half' ∙ ap (bit_xor (a / 2)) half_bc))
      (omega arith)

pub xor_assoc : (a b c : ℕ) → bit_xor (bit_xor a b) c ≡ bit_xor a (bit_xor b c)
xor_assoc a b c = assoc_below (a + b + c) a b c (omega arith) (omega arith) (omega arith)

self_below : (n a : ℕ) → a ≤ n → bit_xor a a ≡ 0
self_below zero zero p = refl
self_below zero (suc a) p = absurd (omega arith)
self_below (suc n) a p =
    let (half, last) = digits_of a a in
    let below = self_below n (a / 2) (omega arith) in
    same_digits (bit_xor a a) 0 (omega arith) (omega arith)

pub xor_self : (a : ℕ) → bit_xor a a ≡ 0
xor_self a = self_below a a (le_refl a)
