-- ===== src/Dynamic/Options.antt =====
-- `Options` of internal/dynamicdelay/delay.go. `int` is ℤ; `*bool` is an option.
pub mod Laws
use waga_strim.Base.{Bool, true, false, not, ◌&&◌, Option, none, some, if◌then◌else◌}
use waga_strim.Base.Int.{ℤ, pos, ◌+ℤ◌, ◌-ℤ◌, ◌*ℤ◌, quot, min_ℤ, max_ℤ, eqb_ℤ}

abbrev pub millisecond : ℤ
millisecond = pos 1_000_000

abbrev pub second : ℤ
second = pos 1_000_000_000

-- `MaximumMS`
abbrev pub maximum_delay_ms : ℤ
maximum_delay_ms = pos 10_000

pub record Options : Type 0 where
  pub enabled : Bool
  pub maximum_ms : ℤ
  pub jump : Bool
  pub catch_up_ms_per_second : ℤ
  pub auto_catch_up : Option Bool

-- `Options{}`
abbrev pub zero_options : Options
zero_options = record {
  enabled = false;
  maximum_ms = pos 0;
  jump = false;
  catch_up_ms_per_second = pos 0;
  auto_catch_up = none;
}

-- The first `if` of `Normalize`.
pub default_maximum : Options → Options
default_maximum o =
    if eqb_ℤ o.maximum_ms (pos 0)
    then record o { maximum_ms = maximum_delay_ms; jump = true }
    else o

-- Its third `if`.
pub default_auto : Option Bool → Option Bool
default_auto none = some true
default_auto (some b) = some b

unfoldable pub normalize : Options → ℤ → Options
unfolding default_maximum default_auto
normalize o base_ms =
    let d = default_maximum o in
    let rate = d.catch_up_ms_per_second in
    record d {
      maximum_ms = max_ℤ (max_ℤ (pos 1) base_ms) (min_ℤ maximum_delay_ms d.maximum_ms);
      catch_up_ms_per_second =
          max_ℤ (pos 1) (min_ℤ (pos 200) (if eqb_ℤ rate (pos 0) then pos 10 else rate));
      auto_catch_up = default_auto d.auto_catch_up;
    }

pub automatic_flag : Option Bool → Bool
automatic_flag none = true
automatic_flag (some b) = b

unfoldable pub automatic : Options → Bool
unfolding automatic_flag
automatic o = automatic_flag o.auto_catch_up

-- The room above the normal delay, at least a millisecond.
unfoldable pub span : Options → ℤ → ℤ
span o base = max_ℤ millisecond (o.maximum_ms *ℤ millisecond -ℤ base)

-- Milliseconds to remove in a second when the speed follows the excess.
unfoldable pub auto_speed : Options → ℤ → ℤ → ℤ
auto_speed o current base =
    min_ℤ (pos 200)
      (pos 10 +ℤ quot (pos 1900 *ℤ max_ℤ (pos 0) (current -ℤ base)) (pos 9 *ℤ span o base))

unfoldable pub catch_up : Options → ℤ → ℤ → ℤ
catch_up o current base =
    if not (automatic o)
    then o.catch_up_ms_per_second *ℤ millisecond
    else auto_speed o current base *ℤ millisecond
