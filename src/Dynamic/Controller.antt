-- ===== src/Dynamic/Controller.antt =====
-- `Controller` of internal/dynamicdelay/delay.go. A method returns the new controller. Its mutex
-- makes each method one step; the pointer that it stores is the value pointed to, which no one writes.
pub mod Invariant
pub mod Aligned
pub mod Motion
pub mod Converge
pub mod Settings
pub mod Jump
use waga_strim.Base.{Bool, true, false, not, ◌&&◌, ◌||◌, Option, none, some, if◌then◌else◌}
use waga_strim.Base.Int.{ℤ, pos, ◌+ℤ◌, ◌-ℤ◌, ◌*ℤ◌, quot, min_ℤ, max_ℤ, ltb_ℤ, eqb_ℤ}
use waga_strim.Dynamic.Options.{Options, zero_options, millisecond, second, normalize, catch_up}
use waga_strim.Dynamic.Curve.{State, delay}

pub record Controller : Type 0 where
  pub state : Option State
  pub options : Options
  pub base : ℤ
  pub goal : ℤ
  pub quiet_until : ℤ
  pub last_step : ℤ
  pub shift : ℤ
  pub cutoff : ℤ

-- `Controller{}`
abbrev pub zero_controller : Controller
zero_controller = record {
  state = none;
  options = zero_options;
  base = pos 0;
  goal = pos 0;
  quiet_until = pos 0;
  last_step = pos 0;
  shift = pos 0;
  cutoff = pos 0;
}

pub bool_eqb : Bool → Bool → Bool
bool_eqb true b = b
bool_eqb false b = not b

-- `previous == options` once `Configure` has copied the two speed fields over: what is left.
unfoldable pub same_policy : Options → Options → Bool
unfolding bool_eqb
same_policy a b =
    bool_eqb a.enabled b.enabled && (eqb_ℤ a.maximum_ms b.maximum_ms && bool_eqb a.jump b.jump)

-- The delay that a new curve starts from: the old curve's while adaptation goes on.
unfoldable pub resume_delay : Option State → Bool → ℤ → ℤ → ℤ
resume_delay none enabled base now = base
resume_delay (some s) enabled base now = if enabled then delay s now else base

pub is_none : Option State → Bool
is_none none = true
is_none (some s) = false

pub flat_curve : Controller → ℤ → ℤ → State
flat_curve c now current = record {
  start = now;
  from = current;
  to = current;
  shift = c.shift;
  cutoff = c.cutoff;
  pending = false;
}

unfoldable pub configure : Controller → ℤ → Options → ℤ → Controller
unfolding is_none flat_curve
configure c base options now =
    let o = normalize options (quot base millisecond) in
    let c' = record c { base = base; options = o; goal = base } in
    if eqb_ℤ c.base base && same_policy c.options o
    then record c { options = o }
    else if is_none c.state && not o.enabled
    then c'
    else record c' { state = some (flat_curve c now (resume_delay c.state o.enabled base now)) }

abbrev pub growth : ℤ
growth = pos 50 *ℤ millisecond

abbrev pub late_margin : ℤ
late_margin = pos 100 *ℤ millisecond

abbrev pub quiet_time : ℤ
quiet_time = pos 5 *ℤ second

abbrev pub maximum : Controller → ℤ
maximum c = c.options.maximum_ms *ℤ millisecond

-- The delay that a late arrival asks for.
unfoldable pub wanted : ℤ → ℤ → ℤ
wanted current late = if ltb_ℤ (pos 0) late then current +ℤ (late +ℤ late_margin) else current

-- `updateGoal`, with its result: whether the wanted delay is past the maximum.
unfoldable pub update_goal : Controller → ℤ → ℤ → ℤ → Controller × Bool
update_goal c now current late =
    let w = wanted current late in
    (
      if ltb_ℤ (pos 0) late
          then record c {
            goal = max_ℤ c.goal (min_ℤ (maximum c) w);
            quiet_until = now +ℤ quiet_time;
          }
          else if ltb_ℤ c.quiet_until now
          then record c { goal = c.base }
          else c,
      ltb_ℤ (maximum c) w,
    )

-- The curve that `Step` stores, once the goal is updated.
unfoldable pub next_curve : Controller → State → ℤ → ℤ → Bool → State
next_curve c s now current exceeded = record s {
  start = now;
  from = current;
  to = max_ℤ (current -ℤ catch_up c.options current c.base) (min_ℤ (current +ℤ growth) c.goal);
  pending = s.pending || (c.options.jump && exceeded);
}

-- `Step` where it is due and a curve is in effect.
unfoldable pub adapt : Controller → State → ℤ → ℤ → Controller
adapt c s now late =
    let current = delay s now in
    let (c', exceeded) = update_goal (record c { last_step = now }) now current late in
    record c' { state = some (next_curve c' s now current exceeded) }

-- `Step` returns early before a jump's cutoff, and within a second of the last step.
unfoldable pub is_due : Controller → State → ℤ → Bool
is_due c s now = not (ltb_ℤ now s.cutoff || ltb_ℤ (now -ℤ c.last_step) second)

pub step_state : Option State → Controller → ℤ → ℤ → Controller
step_state none c now late = c
step_state (some s) c now late =
    if not (is_due c s now)
    then c
    else if not c.options.enabled
    then record c { last_step = now; state = none }
    else adapt c s now late

-- The curve that `Step` returns is the new controller's.
unfoldable pub step : Controller → ℤ → ℤ → Controller
unfolding step_state
step c now late = step_state c.state c now late

pub jump_state : Option State → Controller → ℤ → ℤ → Controller
jump_state none c now media_time = c
jump_state (some s) c now media_time =
    let next_shift = s.shift +ℤ (now -ℤ media_time) in
    if not s.pending then c else record c {
      state = some (record {
        start = now;
        from = c.base;
        to = c.base;
        shift = next_shift;
        cutoff = now;
        pending = false;
      });
      shift = next_shift;
      cutoff = now;
      goal = c.base;
      quiet_until = now +ℤ quiet_time;
    }

unfoldable pub jump : Controller → ℤ → ℤ → Controller
unfolding jump_state
jump c now media_time = jump_state c.state c now media_time
