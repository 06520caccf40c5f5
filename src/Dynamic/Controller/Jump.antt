-- ===== src/Dynamic/Controller/Jump.antt =====
-- What a jump to a keyframe does to the curve of internal/dynamicdelay/delay.go.
use waga_strim.Base.{
  ℕ, suc, ◌≡◌, refl, sym, ap, subst, ◌⊎◌, inl, inr, true, false, some, arith, Bool-cases,
}
use waga_strim.Base.Int.{ℤ, pos, pos_part, neg_part, ◌+ℤ◌, ◌-ℤ◌, -ℤ_parts, int_laws}
use waga_strim.Dynamic.Curve.{State, delay}
use waga_strim.Dynamic.Curve.Laws.{delay_between}
use waga_strim.Dynamic.Controller.{Controller, is_due, step_state, step, jump_state, jump}

constant : (s : State) (t : ℤ) → s.from ≡ s.to → delay s t ≡ s.to
constant s t e = omega (int_laws, delay_between s t, ap pos_part e, ap neg_part e)

-- What a jump that was asked for does to a curve `s`.
pub record Rebases (c : Controller) (s : State) (now media_time : ℤ) (c' : Controller) (s' : State)
    : Type 0 where
  pub stored : c'.state ≡ some s'
  pub normal : (t : ℤ) → delay s' t ≡ c.base
  pub maps : media_time +ℤ (s'.shift -ℤ s.shift) ≡ now
  pub cleared : s'.pending ≡ false
  pub holds : (n : ℕ) (late : ℤ) → step c' (now -ℤ pos (suc n)) late ≡ c'

-- What a jump makes of a controller `c` with a curve `s`: `c'`.
abbrev pub Jumped : Controller → State → ℤ → ℤ → Controller → Type 0
Jumped c s now media_time c' =
    ((s.pending ≡ false) × (c' ≡ c))
    ⊎ ((s.pending ≡ true) × ((s' : State) × Rebases c s now media_time c' s'))

requested_jump :
    (c : Controller) (s : State) (now media_time : ℤ)
    → s.pending ≡ true
    → let c' = jump_state (some s) c now media_time in
      (s' : State) × Rebases c s now media_time c' s'
unfolding jump_state
requested_jump c s now media_time p =
    let moved = s.shift +ℤ (now -ℤ media_time) in
    let s' : State = record {
      start = now;
      from = c.base;
      to = c.base;
      shift = moved;
      cutoff = now;
      pending = false;
    } in
    simp p (
      s',
      record {
        stored = refl;
        normal = λ t. constant s' t refl;
        maps = omega int_laws;
        cleared = refl;
        holds =
            λ n late. unfold step step_state is_due in ground (arith, -ℤ_parts now (pos (suc n)));
      },
    )

jump_state-Jumped :
    (c : Controller) (s : State) (now media_time : ℤ)
    → Jumped c s now media_time (jump_state (some s) c now media_time)
jump_state-Jumped c s now media_time = elim (Bool-cases s.pending) [
  | inl p ↦ inr (p, requested_jump c s now media_time p)
  | inr p ↦ inl (p, unfold jump_state in simp p refl)
]

-- A jump of a curve that did not ask for one changes nothing. One of a curve that did maps `media_time` to
-- now, goes to the normal delay at once and for good, clears the request, and makes every `Step` with an
-- earlier clock reading do nothing.
pub jump_rebases :
    (c : Controller) (s : State) (now media_time : ℤ)
    → c.state ≡ some s
    → Jumped c s now media_time (jump c now media_time)
unfolding jump
jump_rebases c s now media_time e =
    subst (λ st. Jumped c s now media_time (jump_state st c now media_time)) (sym e)
      (jump_state-Jumped c s now media_time)
