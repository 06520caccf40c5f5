-- ===== src/Dynamic/Curve.antt =====
-- `State` of internal/dynamicdelay/delay.go: one second of gradual change.
pub mod Laws
use waga_strim.Base.{Bool}
use waga_strim.Base.Int.{ℤ, pos, ◌+ℤ◌, ◌-ℤ◌, ◌*ℤ◌, quot, min_ℤ, max_ℤ}
use waga_strim.Dynamic.Options.{second}

pub record State : Type 0 where
  pub start : ℤ
  pub from : ℤ
  pub to : ℤ
  pub shift : ℤ
  pub cutoff : ℤ
  pub pending : Bool

-- How much of the second has passed.
unfoldable pub elapsed : State → ℤ → ℤ
elapsed s now = min_ℤ second (max_ℤ (pos 0) (now -ℤ s.start))

unfoldable pub delay : State → ℤ → ℤ
delay s now = s.from +ℤ quot ((s.to -ℤ s.from) *ℤ elapsed s now) second
