-- ===== src/Dynamic/Controller/Converge.antt =====
-- Catch-up in internal/dynamicdelay/delay.go, over calls of `Step` with packets in time.
use waga_strim.Base.{ℕ, zero, suc, ◌≡◌, refl, ap, ◌∙◌, subst, true, some, arith}
use waga_strim.Base.Int.{
  ℤ, pos, pos_part, neg_part, ◌+ℤ◌, ◌-ℤ◌, ◌*ℤ◌, quot, min_ℤ, max_ℤ, ltb_ℤ, ◌≤ℤ◌, ◌<ℤ◌, int_laws,
  +ℤ_parts, -ℤ_parts,
}
use waga_strim.Dynamic.Options.{millisecond, second, catch_up}
use waga_strim.Dynamic.Options.Laws.{catch_up_range}
use waga_strim.Dynamic.Curve.{State, delay}
use waga_strim.Dynamic.Curve.Laws.{delay_after}
use waga_strim.Dynamic.Controller.{
  Controller, growth, wanted, update_goal, next_curve, adapt, is_due, step,
}
use waga_strim.Dynamic.Controller.Invariant.{IsValid, step-IsValid}
use waga_strim.Dynamic.Controller.Motion.{step_adapts}

-- A controller whose quiet time is over at `t`, with a curve `s` that has run to its end above the
-- normal delay; the next step is due at `t`.
pub record IsQuiet (c : Controller) (s : State) (t : ℤ) : Type 0 where
  pub valid : IsValid c
  pub on : c.options.enabled ≡ true
  pub curve : c.state ≡ some s
  pub finished : s.start +ℤ second ≤ℤ t
  pub stepped : c.last_step +ℤ second ≤ℤ t
  pub after_cutoff : s.cutoff ≤ℤ t
  pub over : c.quiet_until <ℤ t
  pub above : c.base ≤ℤ s.to

-- One step a second, from `t` on, with no late packet.
unfoldable pub quiet_steps : ℕ → Controller → ℤ → Controller
quiet_steps zero c t = c
quiet_steps (suc n) c t = quiet_steps n (step c t (pos 0)) (t +ℤ second)

due_of_quiet : (c : Controller) (s : State) (t : ℤ) → IsQuiet c s t → is_due c s t ≡ true
unfolding is_due
due_of_quiet c s t q =
    ground (arith, +ℤ_parts c.last_step second, -ℤ_parts t c.last_step, q.stepped, q.after_cutoff)

-- The controller of a quiet step, before its curve.
abbrev aimed : Controller → ℤ → Controller
aimed c t = record c { last_step = t; goal = c.base }

abbrev quiet_curve : Controller → State → ℤ → State
quiet_curve c s t =
    next_curve (aimed c t) s t (delay s t) (ltb_ℤ (c.options.maximum_ms *ℤ millisecond) (delay s t))

adapt-quiet :
    (c : Controller) (s : State) (t : ℤ)
    → ltb_ℤ c.quiet_until t ≡ true
    → adapt c s t (pos 0) ≡ record (aimed c t) { state = some (quiet_curve c s t) }
unfolding adapt update_goal wanted
adapt-quiet c s t over = simp over

fall_step :
    (current to rate base : ℤ)
    → current ≡ to
    → millisecond ≤ℤ rate
    → base ≤ℤ to
    → let next = max_ℤ (current -ℤ rate) (min_ℤ (current +ℤ growth) base) in
      (base ≤ℤ next) × (next ≤ℤ max_ℤ base (to -ℤ millisecond))
fall_step current to rate base e low above = omega (int_laws, ap pos_part e, ap neg_part e)

quiet_curve_falls :
    (c : Controller) (s : State) (t : ℤ)
    → delay s t ≡ s.to
    → millisecond ≤ℤ catch_up c.options (delay s t) c.base
    → c.base ≤ℤ s.to
    → let s' = quiet_curve c s t in
      (c.base ≤ℤ s'.to) × (s'.to ≤ℤ max_ℤ c.base (s.to -ℤ millisecond))
unfolding next_curve
quiet_curve_falls c s t e low above =
    fall_step (delay s t) s.to (catch_up c.options (delay s t) c.base) c.base e low above

IsQuiet-step :
    (c : Controller) (s : State) (t : ℤ)
    → IsQuiet c s t
    → let c' = step c t (pos 0) in
      let s' = quiet_curve c s t in
      IsQuiet c' s' (t +ℤ second)
      × (s'.to ≤ℤ max_ℤ c.base (s.to -ℤ millisecond))
      × (c'.base ≡ c.base)
IsQuiet-step c s t q =
    let rate =
      catch_up_range c.options (quot c.base millisecond) (delay s t) c.base (q.valid.normal q.on) in
    let ended = delay_after s t q.finished in
    let (above, less) = quiet_curve_falls c s t ended rate.0 q.above in
    let e : step c t (pos 0) ≡ record (aimed c t) { state = some (quiet_curve c s t) } =
      step_adapts c s t (pos 0) q.curve (due_of_quiet c s t q) q.on
      ∙ adapt-quiet c s t (ground (arith, q.over)) in
    let valid : IsValid (record (aimed c t) { state = some (quiet_curve c s t) }) =
      subst IsValid e (step-IsValid c t (pos 0) q.valid) in
    rw e (
      record {
        valid = valid;
        on = q.on;
        curve = refl;
        finished = unfold next_curve in omega arith;
        stepped = omega arith;
        after_cutoff = unfold next_curve in omega (int_laws, q.after_cutoff);
        over = omega (int_laws, q.over);
        above = above;
      },
      less,
      refl,
    )

-- Once no packet is late and the quiet time is over, every second takes at least a millisecond off
-- the delay until it is the normal delay: after `n` steps it is at most the larger of the normal
-- delay and the old delay less `n` ms, and never below the normal delay.
pub quiet_steps_converge :
    (n : ℕ) (c : Controller) (s : State) (t : ℤ)
    → IsQuiet c s t
    → let c' = quiet_steps n c t in
      (s' : State) × (c'.state ≡ some s')
      × (c'.base ≡ c.base)
      × (c.base ≤ℤ s'.to)
      × (s'.to ≤ℤ max_ℤ c.base (s.to -ℤ pos n *ℤ millisecond))
unfolding quiet_steps
quiet_steps_converge zero c s t q = (s, q.curve, refl, q.above, omega int_laws)
quiet_steps_converge (suc n) c s t q =
    let (q', less, eb) = IsQuiet-step c s t q in
    let (s', curve, eb', above, bound) =
      quiet_steps_converge n (step c t (pos 0)) (quiet_curve c s t) (t +ℤ second) q' in
    let up = ap pos_part eb in
    let down = ap neg_part eb in
    (s', curve, eb' ∙ eb, omega (arith, above, up, down), omega (int_laws, bound, less, up, down))

-- In a valid controller with adaptation on, let the curve end at the normal delay or at most `n` ms above
-- it, and let its second, the second after the last step, the quiet time and the cutoff of the last jump be
-- over at an instant `t`. Then after `n` calls of `Step`, the first one at `t` and one each second, none of
-- which is told of a late packet, a curve is in effect that ends at the normal delay.
pub quiet_steps_return :
    (n : ℕ) (c : Controller) (s : State) (t : ℤ)
    → IsQuiet c s t
    → s.to ≤ℤ c.base +ℤ pos n *ℤ millisecond
    → (s' : State) × ((quiet_steps n c t).state ≡ some s') × (s'.to ≡ c.base)
quiet_steps_return n c s t q h =
    let (s', curve, eb, above, bound) = quiet_steps_converge n c s t q in
    (s', curve, omega (int_laws, above, bound))
