-- ===== src/Base/Int.antt =====
-- Signed integers over the native numbers, under the library's names (its ℤ stands on the unary ℕ).
-- Go's `time.Duration`, and its instants, are such integers: nanoseconds.
use waga_strim.Base.{
  ℕ, zero, suc, ◌+◌, ◌-◌, ◌*◌, ◌/◌, ◌≤◌, ◌<◌, ◌≡◌, ◌⊎◌, ◌↔◌, Bool, false, arith, ltb, leb, ◌==◌,
  if◌then◌else◌,
}

-- `negsuc n` is -(n + 1).
pub data ℤ : Type 0 where
  pos : ℕ → ℤ
  negsuc : ℕ → ℤ

abbrev pub pos_part : ℤ → ℕ
pos_part (pos n) = n
pos_part (negsuc n) = 0

abbrev pub neg_part : ℤ → ℕ
neg_part (pos n) = 0
neg_part (negsuc n) = suc n

-- a - b, as an integer.
abbrev pub sub_ℕ : ℕ → ℕ → ℤ
sub_ℕ a b = if leb b a then pos (a - b) else negsuc (b - a - 1)

infixl 65 ◌+ℤ◌ ◌-ℤ◌
infixl 70 ◌*ℤ◌
infix 50 ◌≤ℤ◌ ◌<ℤ◌
unfoldable pub ◌+ℤ◌ : ℤ → ℤ → ℤ
a +ℤ b = sub_ℕ (pos_part a + pos_part b) (neg_part a + neg_part b)

unfoldable pub ◌-ℤ◌ : ℤ → ℤ → ℤ
a -ℤ b = sub_ℕ (pos_part a + neg_part b) (neg_part a + pos_part b)

unfoldable pub ◌*ℤ◌ : ℤ → ℤ → ℤ
a *ℤ b =
    sub_ℕ (pos_part a * pos_part b + neg_part a * neg_part b)
      (pos_part a * neg_part b + neg_part a * pos_part b)

-- Go's `/`: the quotient is cut towards zero. (A divisor 0 panics there and gives 0 here; the
-- sources divide by positive numbers.)
unfoldable pub quot : ℤ → ℤ → ℤ
quot a b =
    sub_ℕ (pos_part a / pos_part b + neg_part a / neg_part b)
      (neg_part a / pos_part b + pos_part a / neg_part b)

abbrev pub ◌≤ℤ◌ : ℤ → ℤ → Type 0
a ≤ℤ b = pos_part a + neg_part b ≤ pos_part b + neg_part a

abbrev pub ◌<ℤ◌ : ℤ → ℤ → Type 0
a <ℤ b = pos_part a + neg_part b < pos_part b + neg_part a

abbrev pub ltb_ℤ : ℤ → ℤ → Bool
ltb_ℤ a b = ltb (pos_part a + neg_part b) (pos_part b + neg_part a)

abbrev pub leb_ℤ : ℤ → ℤ → Bool
leb_ℤ a b = leb (pos_part a + neg_part b) (pos_part b + neg_part a)

abbrev pub eqb_ℤ : ℤ → ℤ → Bool
eqb_ℤ a b = pos_part a + neg_part b == pos_part b + neg_part a

-- Go's built-in `min` and `max`.
unfoldable pub min_ℤ : ℤ → ℤ → ℤ
min_ℤ a b = if leb_ℤ a b then a else b

unfoldable pub max_ℤ : ℤ → ℤ → ℤ
max_ℤ a b = if leb_ℤ a b then b else a

-- One lemma for each operation lets `omega` work with the operations shut, at any depth.
pub +ℤ_parts :
    (a b : ℤ)
    → pos_part (a +ℤ b) + neg_part a + neg_part b ≡ neg_part (a +ℤ b) + pos_part a + pos_part b
unfolding ◌+ℤ◌
+ℤ_parts a b = ground arith

pub -ℤ_parts :
    (a b : ℤ)
    → pos_part (a -ℤ b) + neg_part a + pos_part b ≡ neg_part (a -ℤ b) + pos_part a + neg_part b
unfolding ◌-ℤ◌
-ℤ_parts a b = ground arith

pub *ℤ_parts :
    (a b : ℤ)
    → pos_part (a *ℤ b) + (pos_part a * neg_part b + neg_part a * pos_part b)
      ≡ neg_part (a *ℤ b) + (pos_part a * pos_part b + neg_part a * neg_part b)
unfolding ◌*ℤ◌
*ℤ_parts a b = ground arith

pub min_ℤ_parts :
    (a b : ℤ)
    → ((a ≤ℤ b) × (pos_part (min_ℤ a b) ≡ pos_part a) × (neg_part (min_ℤ a b) ≡ neg_part a))
      ⊎ ((b ≤ℤ a) × (pos_part (min_ℤ a b) ≡ pos_part b) × (neg_part (min_ℤ a b) ≡ neg_part b))
unfolding min_ℤ
min_ℤ_parts a b = ground arith

pub max_ℤ_parts :
    (a b : ℤ)
    → ((a ≤ℤ b) × (pos_part (max_ℤ a b) ≡ pos_part b) × (neg_part (max_ℤ a b) ≡ neg_part b))
      ⊎ ((b ≤ℤ a) × (pos_part (max_ℤ a b) ≡ pos_part a) × (neg_part (max_ℤ a b) ≡ neg_part a))
unfolding max_ℤ
max_ℤ_parts a b = ground arith

pub eq_of_parts : (a b : ℤ) → pos_part a + neg_part b ≡ pos_part b + neg_part a → a ≡ b
eq_of_parts a b h = ground arith

pub ≤ℤ_total : (a b : ℤ) → (a ≤ℤ b) ⊎ (b ≤ℤ a)
≤ℤ_total a b = omega arith

-- An integer has no two parts.
pub one_part : (a : ℤ) → (pos_part a ≡ 0) ⊎ (neg_part a ≡ 0)
one_part a = ground arith

pub ruleset int_laws = (arith, +ℤ_parts, -ℤ_parts, *ℤ_parts, min_ℤ_parts, max_ℤ_parts, eq_of_parts)

pub ≤ℤ_antisymm : (a b : ℤ) → a ≤ℤ b → b ≤ℤ a → a ≡ b
≤ℤ_antisymm a b p q = omega int_laws

-- A quotient by a positive number, of a number that is not negative, is the floor.
pub quot_floor :
    (a b : ℤ)
    → pos 0 ≤ℤ a
    → pos 0 <ℤ b
    → (pos 0 ≤ℤ quot a b) × (b *ℤ quot a b ≤ℤ a) × (a <ℤ b *ℤ quot a b +ℤ b)
unfolding quot ◌*ℤ◌ ◌+ℤ◌
quot_floor (pos n) (pos m) ha hb = grind arith
quot_floor (pos n) (negsuc m) ha hb = absurd (omega arith)
quot_floor (negsuc n) b ha hb = absurd (omega arith)

div_ge : (n m k : ℕ) → k ≤ n / suc m → suc m * k ≤ n
div_ge n m k h = grind arith

le_div : (n m k : ℕ) → suc m * k ≤ n → k ≤ n / suc m
le_div n m k h = grind arith

pub quot-pos : (n m : ℕ) → quot (pos n) (pos (suc m)) ≡ pos (n / suc m)
unfolding quot
quot-pos n m = ground arith

pub *ℤ-pos : (n m : ℕ) → pos n *ℤ pos m ≡ pos (n * m)
unfolding ◌*ℤ◌
*ℤ-pos n m = ground arith

-- When such a quotient reaches a number.
pub quot_ge : (a b : ℤ) (k : ℕ) → pos 0 ≤ℤ a → pos 0 <ℤ b → (pos k ≤ℤ quot a b) ↔ (b *ℤ pos k ≤ℤ a)
quot_ge (pos n) (pos (suc m)) k ha hb =
    rw (quot-pos, *ℤ-pos)
      (
        λ h. omega (arith, div_ge n m k (omega arith)),
        λ h. omega (arith, le_div n m k (omega arith)),
      )
quot_ge (pos n) (pos zero) k ha hb = absurd (omega arith)
quot_ge (pos n) (negsuc m) k ha hb = absurd (omega arith)
quot_ge (negsuc n) b k ha hb = absurd (omega arith)

pub positive-ne-zero : (a : ℤ) → pos 1 ≤ℤ a → eqb_ℤ a (pos 0) ≡ false
positive-ne-zero a h = ground arith
