-- ===== src/Dynamic/Controller/Invariant.antt =====
-- What holds of a `Controller` of internal/dynamicdelay/delay.go whatever calls it has served, as
-- long as `Configure` is given normal delays within the limits of internal/config.
use waga_strim.Base.{
  ◌≡◌, refl, ◌∙◌, inl, inr, Bool, true, false, not, ◌&&◌, Option, none, some, arith, Bool-cases,
}
use waga_strim.Base.Int.{
  ℤ, pos, ◌+ℤ◌, ◌*ℤ◌, quot, min_ℤ, max_ℤ, ltb_ℤ, eqb_ℤ, ◌≤ℤ◌, int_laws, quot_floor,
}
use waga_strim.Dynamic.Options.{Options, millisecond, normalize}
use waga_strim.Dynamic.Options.Laws.{IsNormal, normalize-IsNormal, catch_up_range}
use waga_strim.Dynamic.Curve.{State, delay}
use waga_strim.Dynamic.Curve.Laws.{delay_between}
use waga_strim.Dynamic.Controller.{
  Controller, zero_controller, maximum, growth, quiet_time, wanted, update_goal, next_curve, adapt,
  is_due, step_state, step, jump_state, jump, configure, resume_delay, same_policy, is_none,
  flat_curve,
}

-- `DelayMaxMS`, the largest normal delay that internal/config lets through.
abbrev pub limit : ℤ
limit = pos 10_000 *ℤ millisecond

-- A curve within the limits that moves at most 50 ms up and 200 ms down.
pub record IsGentle (s : State) : Type 0 where
  pub from_low : pos 0 ≤ℤ s.from
  pub from_high : s.from ≤ℤ limit
  pub to_low : pos 0 ≤ℤ s.to
  pub to_high : s.to ≤ℤ limit
  pub rise : s.to ≤ℤ s.from +ℤ growth
  pub fall : s.from ≤ℤ s.to +ℤ pos 200 *ℤ millisecond

abbrev pub AllState : (State → Type 0) → Option State → Type 0
AllState P none = Unit {0}
AllState P (some s) = P s

pub record IsValid (c : Controller) : Type 0 where
  pub base_low : pos 0 ≤ℤ c.base
  pub base_high : c.base ≤ℤ limit
  pub goal_low : c.base ≤ℤ c.goal
  pub goal_high : c.goal ≤ℤ limit
  pub maximum_high : maximum c ≤ℤ limit
  pub normal : c.options.enabled ≡ true → IsNormal c.options (quot c.base millisecond)
  pub curve : AllState IsGentle c.state

pub zero-IsValid : IsValid zero_controller
zero-IsValid = record {
  base_low = omega int_laws;
  base_high = omega int_laws;
  goal_low = omega int_laws;
  goal_high = omega int_laws;
  maximum_high = omega int_laws;
  normal = λ e. cc;
  curve = tt;
}

normal_maximum_high :
    (o : Options) (base : ℤ)
    → pos 0 ≤ℤ base
    → base ≤ℤ limit
    → IsNormal o (quot base millisecond)
    → o.maximum_ms *ℤ millisecond ≤ℤ limit
normal_maximum_high o base low high n =
    omega (int_laws, quot_floor base millisecond low (omega arith))

resume_delay_range :
    (st : Option State) (enabled : Bool) (base now : ℤ)
    → pos 0 ≤ℤ base
    → base ≤ℤ limit
    → AllState IsGentle st
    → (pos 0 ≤ℤ resume_delay st enabled base now) × (resume_delay st enabled base now ≤ℤ limit)
unfolding resume_delay
resume_delay_range none enabled base now low high g = (low, high)
resume_delay_range (some s) false base now low high g = (low, high)
resume_delay_range (some s) true base now low high g =
    (omega (int_laws, delay_between s now), omega (int_laws, delay_between s now))

flat_curve-IsGentle :
    (c : Controller) (now current : ℤ)
    → pos 0 ≤ℤ current
    → current ≤ℤ limit
    → IsGentle (flat_curve c now current)
unfolding flat_curve
flat_curve-IsGentle c now current low high = omega int_laws

pub and_left : (a b : Bool) → (a && b) ≡ true → a ≡ true
and_left a b h = ground arith

pub eqb_ℤ-eq : (a b : ℤ) → eqb_ℤ a b ≡ true → a ≡ b
eqb_ℤ-eq a b h = ground arith

-- Settings that are normal for the base that the controller has.
retune-IsValid :
    (c : Controller) (o : Options)
    → IsNormal o (quot c.base millisecond)
    → IsValid c
    → IsValid (record c { options = o })
retune-IsValid c o n v = record {
  base_low = v.base_low;
  base_high = v.base_high;
  goal_low = v.goal_low;
  goal_high = v.goal_high;
  maximum_high = normal_maximum_high o c.base v.base_low v.base_high n;
  normal = λ e. n;
  curve = v.curve;
}

-- A fresh policy, with the curve that it starts from.
restart-IsValid :
    (c : Controller) (base : ℤ) (o : Options) (st : Option State)
    → pos 0 ≤ℤ base
    → base ≤ℤ limit
    → IsNormal o (quot base millisecond)
    → AllState IsGentle st
    → IsValid (record c { base = base; options = o; goal = base; state = st })
restart-IsValid c base o st low high n g = record {
  base_low = low;
  base_high = high;
  goal_low = omega arith;
  goal_high = high;
  maximum_high = normal_maximum_high o base low high n;
  normal = λ e. n;
  curve = g;
}

-- `Configure` keeps the invariant, at a normal delay within the limits.
pub configure-IsValid :
    (c : Controller) (base : ℤ) (o : Options) (now : ℤ)
    → pos 0 ≤ℤ base
    → base ≤ℤ limit
    → IsValid c
    → IsValid (configure c base o now)
unfolding configure
configure-IsValid c base o now low high v =
    let o' = normalize o (quot base millisecond) in
    let n = normalize-IsNormal o (quot base millisecond) in
    let (cl, ch) = resume_delay_range c.state o'.enabled base now low high v.curve in
    elim (Bool-cases (eqb_ℤ c.base base && same_policy c.options o')) [
      | inl same ↦
          let e = eqb_ℤ-eq c.base base (and_left _ _ same) in
          rw same (retune-IsValid c o' (rw e n) v)
      | inr other ↦ elim (Bool-cases (is_none c.state && not o'.enabled)) [
        | inl off ↦ rw (other, off) (restart-IsValid c base o' c.state low high n v.curve)
        | inr on ↦
            rw (other, on)
              (restart-IsValid c base o' _ low high n (
                flat_curve-IsGentle (record c { base = base; options = o'; goal = base }) now
                  (resume_delay c.state o'.enabled base now) cl ch))
      ]
    ]

stamp-IsValid : (c : Controller) (now : ℤ) → IsValid c → IsValid (record c { last_step = now })
stamp-IsValid c now v = record {
  base_low = v.base_low;
  base_high = v.base_high;
  goal_low = v.goal_low;
  goal_high = v.goal_high;
  maximum_high = v.maximum_high;
  normal = v.normal;
  curve = v.curve;
}

curve-IsValid :
    (c : Controller) (s : State) → IsGentle s → IsValid c → IsValid (record c { state = some s })
curve-IsValid c s g v = record {
  base_low = v.base_low;
  base_high = v.base_high;
  goal_low = v.goal_low;
  goal_high = v.goal_high;
  maximum_high = v.maximum_high;
  normal = v.normal;
  curve = g;
}

retire-IsValid :
    (c : Controller) (now : ℤ) → IsValid c → IsValid (record c { last_step = now; state = none })
retire-IsValid c now v = record {
  base_low = v.base_low;
  base_high = v.base_high;
  goal_low = v.goal_low;
  goal_high = v.goal_high;
  maximum_high = v.maximum_high;
  normal = v.normal;
  curve = tt;
}

-- A new goal within the limits.
aim-IsValid :
    (c : Controller) (goal quiet : ℤ)
    → c.base ≤ℤ goal
    → goal ≤ℤ limit
    → IsValid c
    → IsValid (record c { goal = goal; quiet_until = quiet })
aim-IsValid c goal quiet low high v = record {
  base_low = v.base_low;
  base_high = v.base_high;
  goal_low = low;
  goal_high = high;
  maximum_high = v.maximum_high;
  normal = v.normal;
  curve = v.curve;
}

update_goal-IsValid :
    (c : Controller) (now current late : ℤ)
    → IsValid c
    → let c' = (update_goal c now current late).0 in
      IsValid c' × (c'.options.enabled ≡ c.options.enabled)
unfolding update_goal
update_goal-IsValid c now current late v = elim (Bool-cases (ltb_ℤ (pos 0) late)) [
  | inl some_late ↦ rw some_late (
    aim-IsValid c (max_ℤ c.goal (min_ℤ (maximum c) (wanted current late))) (now +ℤ quiet_time)
        (omega int_laws) (omega int_laws) v,
    refl,
  )
  | inr quiet ↦ elim (Bool-cases (ltb_ℤ c.quiet_until now)) [
    | inl over ↦
        rw (quiet, over) (aim-IsValid c c.base c.quiet_until (omega arith) v.base_high v, refl)
    | inr waiting ↦ rw (quiet, waiting) (v, refl)
  ]
]

next_curve-IsGentle :
    (c : Controller) (s : State) (now current : ℤ) (exceeded : Bool)
    → IsNormal c.options (quot c.base millisecond)
    → pos 0 ≤ℤ current
    → current ≤ℤ limit
    → pos 0 ≤ℤ c.goal
    → c.goal ≤ℤ limit
    → IsGentle (next_curve c s now current exceeded)
unfolding next_curve
next_curve-IsGentle c s now current exceeded n low high gl gh =
    let rate = catch_up_range c.options (quot c.base millisecond) current c.base n in
    record {
      from_low = low;
      from_high = high;
      to_low = omega (int_laws, rate);
      to_high = omega (int_laws, rate);
      rise = omega (int_laws, rate);
      fall = omega (int_laws, rate);
    }

adapt-IsValid :
    (c : Controller) (s : State) (now late : ℤ)
    → c.options.enabled ≡ true
    → IsGentle s
    → IsValid c
    → IsValid (adapt c s now late)
unfolding adapt
adapt-IsValid c s now late e g v =
    let current = delay s now in
    let between = delay_between s now in
    let c1 = record c { last_step = now } in
    let (u, on) = update_goal-IsValid c1 now current late (stamp-IsValid c now v) in
    let (c', exceeded) = update_goal c1 now current late in
    curve-IsValid c' (next_curve c' s now current exceeded)
      (next_curve-IsGentle c' s now current exceeded (u.normal (on ∙ e)) (omega (int_laws, between))
        (omega (int_laws, between)) (omega (arith, u.base_low, u.goal_low)) u.goal_high)
      u

step_state-IsValid :
    (st : Option State) (c : Controller) (now late : ℤ)
    → AllState IsGentle st
    → IsValid c
    → IsValid (step_state st c now late)
unfolding step_state
step_state-IsValid none c now late g v = v
step_state-IsValid (some s) c now late g v = elim (Bool-cases (is_due c s now)) [
  | inr early ↦ rw early v
  | inl due ↦ elim (Bool-cases c.options.enabled) [
    | inr off ↦ simp (due, off) (retire-IsValid c now v)
    | inl on ↦ simp (due, on) (adapt-IsValid c s now late on g v)
  ]
]

-- `Step` keeps the invariant.
pub step-IsValid : (c : Controller) (now late : ℤ) → IsValid c → IsValid (step c now late)
unfolding step
step-IsValid c now late v = step_state-IsValid c.state c now late v.curve v

jump_state-IsValid :
    (st : Option State) (c : Controller) (now media_time : ℤ)
    → IsValid c
    → IsValid (jump_state st c now media_time)
unfolding jump_state
jump_state-IsValid none c now media_time v = v
jump_state-IsValid (some s) c now media_time v = elim (Bool-cases s.pending) [
  | inr calm ↦ simp calm v
  | inl pending ↦ simp pending (record {
    base_low = v.base_low;
    base_high = v.base_high;
    goal_low = omega arith;
    goal_high = v.base_high;
    maximum_high = v.maximum_high;
    normal = v.normal;
    curve = omega (int_laws, v.base_low, v.base_high);
  })
]

-- `Jump` keeps the invariant.
pub jump-IsValid :
    (c : Controller) (now media_time : ℤ) → IsValid c → IsValid (jump c now media_time)
unfolding jump
jump-IsValid c now media_time v = jump_state-IsValid c.state c now media_time v

-- The calls that the relay makes, in any order, with any clock readings and lateness.
pub data Move : Controller → Controller → Type 0 where
  configured :
      (c : Controller) (base : ℤ) (o : Options) (now : ℤ)
      → pos 0 ≤ℤ base
      → base ≤ℤ limit
      → Move c (configure c base o now)
  stepped : (c : Controller) (now late : ℤ) → Move c (step c now late)
  jumped : (c : Controller) (now media_time : ℤ) → Move c (jump c now media_time)

pub data Reach (c : Controller) : Controller → Type 0 where
  here : Reach c c
  next : {d e : Controller} → Reach c d → Move d e → Reach c e

Move-IsValid : {c d : Controller} → Move c d → IsValid c → IsValid d
Move-IsValid (configured c base o now low high) v = configure-IsValid c base o now low high v
Move-IsValid (stepped c now late) v = step-IsValid c now late v
Move-IsValid (jumped c now media_time) v = jump-IsValid c now media_time v

pub Reach-IsValid : {c : Controller} → Reach zero_controller c → IsValid c
Reach-IsValid here = zero-IsValid
Reach-IsValid (next r m) = Move-IsValid m (Reach-IsValid r)
