-- ===== src/Dynamic/Tests.antt =====
-- Runs of internal/dynamicdelay/delay.go on concrete settings, and its theorems at them.
use waga_strim.Base.{◌≡◌, refl, true, false, some, arith}
use waga_strim.Base.Int.{ℤ, pos, negsuc, ◌+ℤ◌, ◌-ℤ◌, ◌*ℤ◌, quot, min_ℤ, max_ℤ, ◌≤ℤ◌, ◌<ℤ◌, int_laws}
use waga_strim.Dynamic.Options.{
  Options, zero_options, millisecond, second, normalize, catch_up, automatic, auto_speed, span,
}
use waga_strim.Dynamic.Options.Laws.{IsNormal, normalize-IsNormal, normalize-normalize}
use waga_strim.Dynamic.Curve.{State, delay, elapsed}
use waga_strim.Dynamic.Controller.{
  Controller, zero_controller, configure, step, jump, is_due, same_policy, resume_delay, adapt,
  update_goal, next_curve, wanted,
}
use waga_strim.Dynamic.Controller.Invariant.{
  limit, Reach, here, next, configured, stepped, Reach-IsValid,
}
use waga_strim.Dynamic.Controller.Aligned.{Reach-IsAligned}
use waga_strim.Dynamic.Controller.Motion.{FitsInt64, delay_in_limits, Moves, step-Moves}
use waga_strim.Dynamic.Controller.Converge.{IsQuiet, quiet_steps, quiet_steps_return}
use waga_strim.Dynamic.Controller.Jump.{Jumped, jump_rebases}
use waga_strim.Dynamic.Controller.Settings.{
  delay_at, configure_continuous, shift_at, cutoff_at, retuned_curve_stays,
}

abbrev adaptive : Options
adaptive = record zero_options { enabled = true }

abbrev start_time : ℤ
start_time = pos 1_000_000_000_000

-- A camera with a normal delay of 2 s.
abbrev first_controller : Controller
first_controller = configure zero_controller (pos 2_000_000_000) adaptive start_time

abbrev first_curve : State
first_curve = record {
  start = start_time;
  from = pos 2_000_000_000;
  to = pos 2_000_000_000;
  shift = pos 0;
  cutoff = pos 0;
  pending = false;
}

first_reached : Reach zero_controller first_controller
first_reached = next here (
    configured zero_controller (pos 2_000_000_000) adaptive start_time (omega int_laws)
      (omega int_laws))

first_state : first_controller.state ≡ some first_curve
unfolding configure normalize same_policy resume_delay quot min_ℤ max_ℤ
first_state = refl

delay_in_limits_example :
    (pos 0 ≤ℤ delay first_curve start_time)
    × (delay first_curve start_time ≤ℤ limit)
    × FitsInt64 ((first_curve.to -ℤ first_curve.from) *ℤ elapsed first_curve start_time)
delay_in_limits_example = delay_in_limits first_curve start_time first_reached first_state

-- A packet that is 300 ms late: the delay rises by 50 ms in the next second.
late_step :
    (step first_controller start_time (pos 300_000_000)).state
    ≡ some (record first_curve { to = pos 2_050_000_000 })
unfolding step configure normalize same_policy resume_delay quot min_ℤ max_ℤ is_due adapt
    update_goal next_curve wanted delay elapsed catch_up automatic auto_speed span ◌+ℤ◌ ◌-ℤ◌ ◌*ℤ◌
late_step = refl

first_due :
    (is_due first_controller first_curve start_time ≡ true)
    × (first_controller.options.enabled ≡ true)
unfolding configure normalize same_policy resume_delay quot min_ℤ max_ℤ is_due ◌-ℤ◌
first_due = (refl, refl)

step-Moves_example :
    (s' : State) × Moves first_controller first_curve start_time
      (step first_controller start_time (pos 300_000_000))
      s'
step-Moves_example =
    step-Moves first_controller first_curve start_time (pos 300_000_000)
      (Reach-IsValid first_reached) first_state first_due.0 first_due.1

abbrev late_controller : Controller
late_controller = step first_controller start_time (pos 300_000_000)

abbrev late_curve : State
late_curve = record first_curve { to = pos 2_050_000_000 }

late_on : late_controller.options.enabled ≡ true
unfolding step configure normalize same_policy resume_delay quot min_ℤ max_ℤ is_due adapt
    update_goal next_curve wanted delay elapsed catch_up automatic auto_speed span ◌+ℤ◌ ◌-ℤ◌ ◌*ℤ◌
late_on = refl

late_times :
    (late_controller.last_step +ℤ second ≤ℤ start_time +ℤ pos 6 *ℤ second)
    × (late_controller.quiet_until <ℤ start_time +ℤ pos 6 *ℤ second)
    × (late_controller.base ≤ℤ late_curve.to)
    × (late_curve.to ≤ℤ late_controller.base +ℤ pos 50 *ℤ millisecond)
unfolding step configure normalize same_policy resume_delay quot min_ℤ max_ℤ is_due adapt
    update_goal next_curve wanted delay elapsed catch_up automatic auto_speed span ◌+ℤ◌ ◌-ℤ◌ ◌*ℤ◌
late_times = omega arith

late-IsQuiet : IsQuiet late_controller late_curve (start_time +ℤ pos 6 *ℤ second)
late-IsQuiet = record {
  valid =
      Reach-IsValid (next first_reached (stepped first_controller start_time (pos 300_000_000)));
  on = late_on;
  curve = late_step;
  finished = omega int_laws;
  stepped = late_times.0;
  after_cutoff = omega int_laws;
  over = late_times.1;
  above = late_times.2;
}

quiet_steps_return_example :
    (s' : State) × ((quiet_steps 50 late_controller (start_time +ℤ pos 6 *ℤ second)).state
      ≡ some s')
    × (s'.to ≡ late_controller.base)
quiet_steps_return_example =
    quiet_steps_return 50 late_controller late_curve (start_time +ℤ pos 6 *ℤ second) late-IsQuiet
      late_times.3

on_at_three : (normalize adaptive (quot (pos 3_000_000_000) millisecond)).enabled ≡ true
unfolding normalize
on_at_three = refl

configure_continuous_example :
    let c' = configure first_controller (pos 3_000_000_000) adaptive start_time in
    (delay_at c'.state (pos 3_000_000_000) start_time
      ≡ delay_at first_controller.state (pos 3_000_000_000) start_time)
    × (shift_at c'.state c'.shift ≡ shift_at first_controller.state first_controller.shift)
    × (cutoff_at c'.state c'.cutoff ≡ cutoff_at first_controller.state first_controller.cutoff)
    × (c'.base ≡ pos 3_000_000_000)
configure_continuous_example =
    configure_continuous first_controller (pos 3_000_000_000) adaptive start_time
      (Reach-IsAligned first_reached) on_at_three

abbrev faster : Options
faster = record adaptive { catch_up_ms_per_second = pos 150; auto_catch_up = some false }

retuned_curve_stays_example :
    let first = configure zero_controller (pos 2_000_000_000) adaptive start_time in
    let second = configure first (pos 2_000_000_000) faster (start_time +ℤ second) in
    (second ≡ record first { options = normalize faster (quot (pos 2_000_000_000) millisecond) })
    × ((t : ℤ)
        → delay_at second.state (pos 2_000_000_000) t ≡ delay_at first.state (pos 2_000_000_000) t)
retuned_curve_stays_example =
    retuned_curve_stays zero_controller (pos 2_000_000_000) adaptive faster start_time
      (start_time +ℤ second) refl refl refl

abbrev waiting_curve : State
waiting_curve = record first_curve { pending = true }

abbrev waiting_controller : Controller
waiting_controller = record first_controller { state = some waiting_curve }

abbrev media_time : ℤ
media_time = pos 999_000_000_000

jump_rebases_example :
    Jumped waiting_controller waiting_curve start_time media_time
      (jump waiting_controller start_time media_time)
jump_rebases_example = jump_rebases waiting_controller waiting_curve start_time media_time refl

abbrev wild : Options
wild = record adaptive { maximum_ms = negsuc 6; catch_up_ms_per_second = pos 900 }

normalize-IsNormal_example : IsNormal (normalize wild (pos 2000)) (pos 2000)
normalize-IsNormal_example = normalize-IsNormal wild (pos 2000)

normalize-normalize_example :
    normalize (normalize wild (pos 2000)) (pos 2000) ≡ normalize wild (pos 2000)
normalize-normalize_example = normalize-normalize wild (pos 2000)
