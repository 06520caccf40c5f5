-- ===== src/Dynamic/Controller/Motion.antt =====
-- How the delay of internal/dynamicdelay/delay.go moves: within the limits, gradually, towards its
-- goal, and back to the normal delay once packets are in time.
use waga_strim.Base.{
  ℕ, suc, ◌*◌, ◌^◌, ◌≤◌, ◌<◌, ◌≡◌, refl, subst, ◌⊎◌, inl, inr, Bool, Bool-cases, true, some, arith,
}
use waga_strim.Base.Int.{
  ℤ, pos, negsuc, pos_part, neg_part, ◌+ℤ◌, ◌-ℤ◌, ◌*ℤ◌, quot, min_ℤ, max_ℤ, ltb_ℤ, ◌≤ℤ◌, ◌<ℤ◌,
  int_laws,
}
use waga_strim.Dynamic.Options.{millisecond, second, catch_up}
use waga_strim.Dynamic.Options.Laws.{catch_up_range}
use waga_strim.Dynamic.Curve.{State, delay, elapsed}
use waga_strim.Dynamic.Curve.Laws.{delay_between, elapsed_range}
use waga_strim.Dynamic.Controller.{
  Controller, zero_controller, growth, update_goal, next_curve, adapt, is_due, step_state, step,
}
use waga_strim.Dynamic.Controller.Invariant.{
  limit, IsGentle, AllState, IsValid, Reach, Reach-IsValid,
}

-- The numbers that an `int64` holds.
abbrev pub FitsInt64 : ℤ → Type 0
FitsInt64 a = (pos_part a < 2 ^ 63) × (neg_part a < 2 ^ 63)

IsGentle-of : (c : Controller) (s : State) → IsValid c → c.state ≡ some s → IsGentle s
IsGentle-of c s v e = subst (AllState IsGentle) e v.curve

mul_bound : (n m a b : ℕ) → n ≤ a → m ≤ b → n * m ≤ a * b
mul_bound n m a b h k = grind arith

mul_fits :
    (d e : ℤ)
    → d ≤ℤ pos 50_000_000
    → negsuc 199_999_999 ≤ℤ d
    → pos 0 ≤ℤ e
    → e ≤ℤ second
    → FitsInt64 (d *ℤ e)
unfolding ◌*ℤ◌
mul_fits (pos n) (pos m) h k l t =
    ground (arith, mul_bound n m 50_000_000 1_000_000_000 (omega arith) (omega arith))
mul_fits (negsuc n) (pos m) h k l t =
    ground (arith, mul_bound (suc n) m 200_000_000 1_000_000_000 (omega arith) (omega arith))
mul_fits (pos n) (negsuc m) h k l t = absurd (omega arith)
mul_fits (negsuc n) (negsuc m) h k l t = absurd (omega arith)

-- After any calls of `Configure`, `Step` and `Jump` on a new controller, as long as each `Configure` is
-- given a normal delay of 0 to 10000 ms, the delay that a curve gives is 0 to 10000 ms at every instant,
-- and the product that `Delay` computes on the way fits an `int64`.
pub delay_in_limits :
    {c : Controller} (s : State) (now : ℤ)
    → Reach zero_controller c
    → c.state ≡ some s
    → (pos 0 ≤ℤ delay s now)
      × (delay s now ≤ℤ limit)
      × FitsInt64 ((s.to -ℤ s.from) *ℤ elapsed s now)
delay_in_limits {c} s now r e =
    let g = IsGentle-of c s (Reach-IsValid r) e in
    (
      omega (int_laws, delay_between s now, g),
      omega (int_laws, delay_between s now, g),
      mul_fits (s.to -ℤ s.from) (elapsed s now) (omega (int_laws, g)) (omega (int_laws, g))
          (elapsed_range s now).0 (elapsed_range s now).1,
    )

-- A step that is due, while adaptation is on.
pub step_adapts :
    (c : Controller) (s : State) (now late : ℤ)
    → c.state ≡ some s
    → is_due c s now ≡ true
    → c.options.enabled ≡ true
    → step c now late ≡ adapt c s now late
unfolding step step_state
step_adapts c s now late e due on = simp (e, due, on)

-- What one step does to the curve: it starts now, where the old curve is; it rises at most 50 ms and
-- falls at most by the catch-up speed; it moves towards the goal and not past it, and it ends at the goal
-- or goes as far as it may.
pub record Moves (c : Controller) (s : State) (now : ℤ) (c' : Controller) (s' : State)
    : Type 0 where
  pub stored : c'.state ≡ some s'
  pub starts : s'.start ≡ now
  pub continues : s'.from ≡ delay s now
  pub rise : s'.to ≤ℤ s'.from +ℤ growth
  pub fall : s'.from ≤ℤ s'.to +ℤ catch_up c.options s'.from c.base
  pub towards : min_ℤ s'.from c'.goal ≤ℤ s'.to
  pub not_past : s'.to ≤ℤ max_ℤ s'.from c'.goal
  pub arrives :
      (s'.to ≡ c'.goal)
      ⊎ ((s'.to ≡ s'.from +ℤ growth) × (s'.to <ℤ c'.goal))
      ⊎ ((s'.to +ℤ catch_up c.options s'.from c.base ≡ s'.from) × (c'.goal <ℤ s'.to))
  pub aligned : (s'.shift ≡ s.shift) × (s'.cutoff ≡ s.cutoff)

update_goal_frame :
    (c : Controller) (now current late : ℤ)
    → let c' = (update_goal c now current late).0 in (c'.base ≡ c.base) × (c'.options ≡ c.options)
unfolding update_goal
update_goal_frame c now current late = ground arith

-- A move from `from` towards `goal`, by `growth` up and `rate` down at most.
moved :
    (from rate goal : ℤ)
    → pos 0 ≤ℤ rate
    → let to = max_ℤ (from -ℤ rate) (min_ℤ (from +ℤ growth) goal) in
      (to ≤ℤ from +ℤ growth)
      × (from ≤ℤ to +ℤ rate)
      × (min_ℤ from goal ≤ℤ to)
      × (to ≤ℤ max_ℤ from goal)
      × ((to ≡ goal)
          ⊎ ((to ≡ from +ℤ growth) × (to <ℤ goal))
          ⊎ ((to +ℤ rate ≡ from) × (goal <ℤ to)))
moved from rate goal h =
    let to = max_ℤ (from -ℤ rate) (min_ℤ (from +ℤ growth) goal) in
    (
      omega int_laws,
      omega int_laws,
      omega int_laws,
      omega int_laws,
      elim (Bool-cases (ltb_ℤ to goal)) [
        | inl e ↦
            let below : to <ℤ goal = ground arith in inr (inl (omega (int_laws, below), below))
        | inr e ↦ elim (Bool-cases (ltb_ℤ goal to)) [
          | inl f ↦
              let above : goal <ℤ to = ground arith in inr (inr (omega (int_laws, above), above))
          | inr f ↦
              let low : goal ≤ℤ to = ground arith in
              let high : to ≤ℤ goal = ground arith in inl (omega (int_laws, low, high))
        ]
      ],
    )

next_curve_moves :
    (c : Controller) (s : State) (now : ℤ) (exceeded : Bool) (rate : ℤ)
    → catch_up c.options (delay s now) c.base ≡ rate
    → pos 0 ≤ℤ rate
    → let s' = next_curve c s now (delay s now) exceeded in
      (s'.to ≤ℤ s'.from +ℤ growth)
      × (s'.from ≤ℤ s'.to +ℤ rate)
      × (min_ℤ s'.from c.goal ≤ℤ s'.to)
      × (s'.to ≤ℤ max_ℤ s'.from c.goal)
      × ((s'.to ≡ c.goal)
          ⊎ ((s'.to ≡ s'.from +ℤ growth) × (s'.to <ℤ c.goal))
          ⊎ ((s'.to +ℤ rate ≡ s'.from) × (c.goal <ℤ s'.to)))
unfolding next_curve
next_curve_moves c s now exceeded rate e h = rw e (moved (delay s now) rate c.goal h)

-- A due step of a valid controller, with adaptation on, stores a curve that starts now at the delay
-- of the old one, rises at most 50 ms, falls at most by the catch-up speed, and moves towards the
-- goal without passing it: it ends at the goal, or 50 ms higher and below the goal, or lower by the
-- catch-up speed and above the goal. The clock shift and the cutoff of the last jump stay.
pub step-Moves :
    (c : Controller) (s : State) (now late : ℤ)
    → IsValid c
    → c.state ≡ some s
    → is_due c s now ≡ true
    → c.options.enabled ≡ true
    → (s' : State) × Moves c s now (step c now late) s'
step-Moves c s now late v e due on =
    let current = delay s now in
    let c1 = record c { last_step = now } in
    let (u, exceeded) = update_goal c1 now current late in
    let (eb, eo) = update_goal_frame c1 now current late in
    let rate = catch_up_range c.options (quot c.base millisecond) current c.base (v.normal on) in
    let same : catch_up u.options current u.base ≡ catch_up c.options current c.base =
      λ i. catch_up (eo i) current (eb i) in
    let (rise, fall, towards, not_past, arrives) =
      next_curve_moves u s now exceeded (catch_up c.options current c.base) same
        (omega (int_laws, rate)) in
    (
      next_curve u s now current exceeded,
      rw (step_adapts c s now late e due on) (
          unfold adapt next_curve in
          record {
            stored = refl;
            starts = refl;
            continues = refl;
            rise = rise;
            fall = fall;
            towards = towards;
            not_past = not_past;
            arrives = arrives;
            aligned = (refl, refl);
          }),
    )
