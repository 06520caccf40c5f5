-- ===== src/Dynamic/Curve/Laws.antt =====
-- What the playout curve of internal/dynamicdelay/delay.go does between its two ends.
use waga_strim.Base.{ℕ, zero, suc, ◌*◌, ◌≤◌, ◌≡◌, inl, inr, arith}
use waga_strim.Base.Int.{
  ℤ, pos, negsuc, ◌+ℤ◌, ◌-ℤ◌, ◌*ℤ◌, quot, min_ℤ, max_ℤ, ◌≤ℤ◌, int_laws, ≤ℤ_total,
}
use waga_strim.Dynamic.Options.{second}
use waga_strim.Dynamic.Curve.{State, elapsed, delay}

pub elapsed_range : (s : State) (now : ℤ) → (pos 0 ≤ℤ elapsed s now) × (elapsed s now ≤ℤ second)
unfolding elapsed
elapsed_range s now = omega int_laws

mul_le : (n m k : ℕ) → m ≤ k → n * m ≤ n * k
mul_le n m k h = grind arith

-- A part of a difference lies between it and 0.
part_up :
    (d e : ℤ)
    → pos 0 ≤ℤ d
    → pos 0 ≤ℤ e
    → e ≤ℤ second
    → (pos 0 ≤ℤ quot (d *ℤ e) second) × (quot (d *ℤ e) second ≤ℤ d)
unfolding quot ◌*ℤ◌
part_up (pos n) (pos m) hd he hs = ground (arith, mul_le n m 1_000_000_000)
part_up (negsuc n) e hd he hs = absurd (omega arith)
part_up (pos n) (negsuc m) hd he hs = absurd (omega arith)

part_down :
    (d e : ℤ)
    → d ≤ℤ pos 0
    → pos 0 ≤ℤ e
    → e ≤ℤ second
    → (quot (d *ℤ e) second ≤ℤ pos 0) × (d ≤ℤ quot (d *ℤ e) second)
unfolding quot ◌*ℤ◌
part_down (pos zero) (pos m) hd he hs = ground arith
part_down (pos (suc n)) (pos m) hd he hs = absurd (omega arith)
part_down (negsuc n) (pos m) hd he hs = ground (arith, mul_le (suc n) m 1_000_000_000)
part_down (pos n) (negsuc m) hd he hs = absurd (omega arith)
part_down (negsuc n) (negsuc m) hd he hs = absurd (omega arith)

-- A rising curve stays between its ends, at every instant.
pub delay_rising :
    (s : State) (now : ℤ) → s.from ≤ℤ s.to → (s.from ≤ℤ delay s now) × (delay s now ≤ℤ s.to)
unfolding delay
delay_rising s now h =
    let (low, high) = elapsed_range s now in
    let part = part_up (s.to -ℤ s.from) (elapsed s now) (omega int_laws) low high in
    omega (int_laws, part)

pub delay_falling :
    (s : State) (now : ℤ) → s.to ≤ℤ s.from → (s.to ≤ℤ delay s now) × (delay s now ≤ℤ s.from)
unfolding delay
delay_falling s now h =
    let (low, high) = elapsed_range s now in
    let part = part_down (s.to -ℤ s.from) (elapsed s now) (omega int_laws) low high in
    omega (int_laws, part)

-- At every instant the delay lies between the two ends of the curve, whichever is the larger.
pub delay_between :
    (s : State) (now : ℤ) → (min_ℤ s.from s.to ≤ℤ delay s now) × (delay s now ≤ℤ max_ℤ s.from s.to)
delay_between s now = elim (≤ℤ_total s.from s.to) [
  | inl h ↦ omega (int_laws, delay_rising s now h)
  | inr h ↦ omega (int_laws, delay_falling s now h)
]

quot_self : (d : ℤ) → quot (d *ℤ second) second ≡ d
unfolding quot ◌*ℤ◌
quot_self (pos n) = ground arith
quot_self (negsuc n) = ground arith

quot_none : (d : ℤ) → quot (d *ℤ pos 0) second ≡ pos 0
unfolding quot ◌*ℤ◌
quot_none (pos n) = ground arith
quot_none (negsuc n) = ground arith

-- Before its start the curve is at its first end.
pub delay_before : (s : State) (now : ℤ) → now ≤ℤ s.start → delay s now ≡ s.from
unfolding delay
delay_before s now h =
    let e : elapsed s now ≡ pos 0 = unfold elapsed in omega int_laws in
    rw (e, quot_none) (omega int_laws)

-- A second after its start, and later, it is at its last end.
pub delay_after : (s : State) (now : ℤ) → s.start +ℤ second ≤ℤ now → delay s now ≡ s.to
unfolding delay
delay_after s now h =
    let e : elapsed s now ≡ second = unfold elapsed in omega int_laws in
    rw (e, quot_self) (omega int_laws)
