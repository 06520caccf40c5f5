-- ===== src/Dynamic/Controller/Aligned.antt =====
-- The curve of internal/dynamicdelay/delay.go, and the fields of its `Controller` that a new curve takes
-- the shift of the clock and the cutoff of the last jump from.
use waga_strim.Base.{
  ◌≡◌, refl, sym, ◌∙◌, inl, inr, not, ◌&&◌, Option, none, some, arith, Bool-cases,
}
use waga_strim.Base.Int.{ℤ, quot, eqb_ℤ}
use waga_strim.Dynamic.Options.{Options, millisecond, normalize}
use waga_strim.Dynamic.Curve.{State, delay}
use waga_strim.Dynamic.Controller.{
  Controller, zero_controller, update_goal, next_curve, adapt, is_due, step_state, step, jump_state,
  jump, configure, same_policy, is_none, flat_curve,
}
use waga_strim.Dynamic.Controller.Invariant.{
  AllState, Move, configured, stepped, jumped, Reach, here, next,
}

-- A curve in effect has the controller's shift and cutoff.
abbrev pub IsAligned : Controller → Type 0
IsAligned c = AllState (λ s. (s.shift ≡ c.shift) × (s.cutoff ≡ c.cutoff)) c.state

configure-IsAligned :
    (c : Controller) (base : ℤ) (o : Options) (now : ℤ)
    → IsAligned c
    → IsAligned (configure c base o now)
unfolding configure flat_curve
configure-IsAligned c base o now a =
    let o' = normalize o (quot base millisecond) in
    elim (Bool-cases (eqb_ℤ c.base base && same_policy c.options o')) [
      | inl same ↦ simp same a
      | inr other ↦ elim (Bool-cases (is_none c.state && not o'.enabled)) [
        | inl off ↦ simp (other, off) a
        | inr on ↦ simp (other, on) (refl, refl)
      ]
    ]

update_goal_anchor :
    (c : Controller) (now current late : ℤ)
    → let c' = (update_goal c now current late).0 in (c'.shift ≡ c.shift) × (c'.cutoff ≡ c.cutoff)
unfolding update_goal
update_goal_anchor c now current late = ground arith

adapt-IsAligned :
    (c : Controller) (s : State) (now late : ℤ)
    → (s.shift ≡ c.shift) × (s.cutoff ≡ c.cutoff)
    → IsAligned (adapt c s now late)
unfolding adapt next_curve
adapt-IsAligned c s now late (a, b) =
    let (e, f) = update_goal_anchor (record c { last_step = now }) now (delay s now) late in
    (a ∙ sym e, b ∙ sym f)

step_state-IsAligned :
    (c : Controller) (st : Option State) (now late : ℤ)
    → IsAligned c
    → AllState (λ s. (s.shift ≡ c.shift) × (s.cutoff ≡ c.cutoff)) st
    → IsAligned (step_state st c now late)
unfolding step_state
step_state-IsAligned c none now late a b = a
step_state-IsAligned c (some s) now late a b = elim (Bool-cases (is_due c s now)) [
  | inr early ↦ simp early a
  | inl due ↦ elim (Bool-cases c.options.enabled) [
    | inr off ↦ simp (due, off) tt
    | inl on ↦ simp (due, on) (adapt-IsAligned c s now late b)
  ]
]

jump_state-IsAligned :
    (c : Controller) (st : Option State) (now media_time : ℤ)
    → IsAligned c
    → IsAligned (jump_state st c now media_time)
unfolding jump_state
jump_state-IsAligned c none now media_time a = a
jump_state-IsAligned c (some s) now media_time a = elim (Bool-cases s.pending) [
  | inl p ↦ simp p (refl, refl)
  | inr p ↦ simp p a
]

Move-IsAligned : {c d : Controller} → Move c d → IsAligned c → IsAligned d
unfolding step jump
Move-IsAligned (configured c base o now low high) a = configure-IsAligned c base o now a
Move-IsAligned (stepped c now late) a = step_state-IsAligned c c.state now late a a
Move-IsAligned (jumped c now media_time) a = jump_state-IsAligned c c.state now media_time a

pub Reach-IsAligned : {c : Controller} → Reach zero_controller c → IsAligned c
Reach-IsAligned here = tt
Reach-IsAligned (next r m) = Move-IsAligned m (Reach-IsAligned r)
