-- ===== src/Dynamic/Controller/Settings.antt =====
-- What a change of settings does to the curve of
-- internal/dynamicdelay/delay.go.
use waga_strim.Base.{
  ◌≡◌, refl, sym, ap, not, ◌∙◌, inl, inr, Bool, true, false, ◌&&◌, Option, none, some, arith,
  Bool-cases,
}
use waga_strim.Base.Int.{ℤ, pos_part, neg_part, quot, eqb_ℤ}
use waga_strim.Dynamic.Controller.Invariant.{AllState, eqb_ℤ-eq, and_left}
use waga_strim.Dynamic.Controller.Aligned.{IsAligned}
use waga_strim.Dynamic.Options.{Options, millisecond, normalize}
use waga_strim.Dynamic.Options.Laws.{normalize_policy}
use waga_strim.Dynamic.Curve.{State, delay}
use waga_strim.Dynamic.Curve.Laws.{delay_before}
use waga_strim.Dynamic.Controller.{
  Controller, configure, resume_delay, same_policy, flat_curve, bool_eqb, is_none,
}

-- The delay that playout sees at `t`: the curve's, or the normal delay where there is none.
abbrev pub delay_at : Option State → ℤ → ℤ → ℤ
delay_at none base t = base
delay_at (some s) base t = delay s t

abbrev pub shift_at : Option State → ℤ → ℤ
shift_at none d = d
shift_at (some s) d = s.shift

abbrev pub cutoff_at : Option State → ℤ → ℤ
cutoff_at none d = d
cutoff_at (some s) d = s.cutoff

aligned_at :
    (st : Option State) (shift cutoff : ℤ)
    → AllState (λ s. (s.shift ≡ shift) × (s.cutoff ≡ cutoff)) st
    → (shift_at st shift ≡ shift) × (cutoff_at st cutoff ≡ cutoff)
aligned_at none shift cutoff a = (refl, refl)
aligned_at (some s) shift cutoff a = a

flat_now : (c : Controller) (now current : ℤ) → delay (flat_curve c now current) now ≡ current
unfolding flat_curve
flat_now c now current = delay_before _ now (omega arith)

resume_now :
    (st : Option State) (base now : ℤ) → resume_delay st true base now ≡ delay_at st base now
unfolding resume_delay
resume_now none base now = refl
resume_now (some s) base now = refl

and_false : (b : Bool) → (b && false) ≡ false
and_false b = ground arith

-- With adaptation on after it, `Configure` keeps the delay of the instant at which it is called, whatever
-- it changes, and the shift of the clock and the cutoff of the last jump, which a buffer follows, where the
-- controller's are the curve's. (Where no curve is in effect, the delay is the new normal delay.)
pub configure_continuous :
    (c : Controller) (base : ℤ) (o : Options) (now : ℤ)
    → IsAligned c
    → (normalize o (quot base millisecond)).enabled ≡ true
    → let c' = configure c base o now in
      (delay_at c'.state base now ≡ delay_at c.state base now)
      × (shift_at c'.state c'.shift ≡ shift_at c.state c.shift)
      × (cutoff_at c'.state c'.cutoff ≡ cutoff_at c.state c.cutoff)
      × (c'.base ≡ base)
unfolding configure flat_curve
configure_continuous c base o now a on =
    let (shift, cutoff) = aligned_at c.state c.shift c.cutoff a in
    elim (Bool-cases
      (eqb_ℤ c.base base && same_policy c.options (normalize o (quot base millisecond)))) [
        | inl same ↦ simp same (refl, refl, refl, eqb_ℤ-eq c.base base (and_left _ _ same))
        | inr other ↦
            simp (other, on, and_false)
              (
                flat_now c now (resume_delay c.state true base now) ∙ resume_now c.state base now,
                sym shift,
                sym cutoff,
                refl,
              )
      ]

same_flags : (a b : Bool) → a ≡ b → bool_eqb a b ≡ true
unfolding bool_eqb
same_flags a b h = ground arith

same_number : (a b : ℤ) → a ≡ b → eqb_ℤ a b ≡ true
same_number a b h = ground (arith, ap pos_part h, ap neg_part h)

same_policy_of :
    (a b : Options)
    → a.enabled ≡ b.enabled
    → a.maximum_ms ≡ b.maximum_ms
    → a.jump ≡ b.jump
    → same_policy a b ≡ true
unfolding same_policy
same_policy_of a b ee em ej = simp (same_flags _ _ ee, same_number _ _ em, same_flags _ _ ej)

configure_speed_only :
    (c : Controller) (base : ℤ) (o : Options) (now : ℤ)
    → c.base ≡ base
    → let o' = normalize o (quot base millisecond) in
      c.options.enabled ≡ o'.enabled
      → c.options.maximum_ms ≡ o'.maximum_ms
      → c.options.jump ≡ o'.jump
      → configure c base o now ≡ record c { options = o' }
unfolding configure
configure_speed_only c base o now eb ee em ej = simp (
  same_number c.base base eb,
  same_policy_of c.options (normalize o (quot base millisecond)) ee em ej,
)

-- What `Configure` has when it returns, whichever way it goes.
configured_as :
    (c : Controller) (base : ℤ) (o : Options) (now : ℤ)
    → let c' = configure c base o now in
      (c'.base ≡ base) × (c'.options ≡ normalize o (quot base millisecond))
unfolding configure
configured_as c base o now =
    let o' = normalize o (quot base millisecond) in
    elim (Bool-cases (eqb_ℤ c.base base && same_policy c.options o')) [
      | inl same ↦ simp same (eqb_ℤ-eq c.base base (and_left _ _ same), refl)
      | inr other ↦ elim (Bool-cases (is_none c.state && not o'.enabled)) [
        | inl off ↦ simp (other, off) (refl, refl)
        | inr on ↦ simp (other, on) (refl, refl)
      ]
    ]

-- Two calls of `Configure`, at any instants, with the same normal delay and with settings that differ at
-- most in the catch-up speed and whether it is automatic: the second one keeps the curve, the goal, and all
-- else that the first one left, and only puts the new settings in place. The delay at every instant is what
-- it was.
pub retuned_curve_stays :
    (c : Controller) (base : ℤ) (o o' : Options) (now later : ℤ)
    → o.enabled ≡ o'.enabled
    → o.maximum_ms ≡ o'.maximum_ms
    → o.jump ≡ o'.jump
    → let first = configure c base o now in
      let second = configure first base o' later in
      (second ≡ record first { options = normalize o' (quot base millisecond) })
      × ((t : ℤ) → delay_at second.state base t ≡ delay_at first.state base t)
retuned_curve_stays c base o o' now later ee em ej =
    let first = configure c base o now in
    let (same_base, same_options) = configured_as c base o now in
    let (e, m, j) = normalize_policy o o' (quot base millisecond) ee em ej in
    let stays : configure first base o' later
        ≡ record first { options = normalize o' (quot base millisecond) } =
      configure_speed_only first base o' later same_base
        (ap (λ (d : Options). d.enabled) same_options ∙ e)
        (ap (λ (d : Options). d.maximum_ms) same_options ∙ m)
        (ap (λ (d : Options). d.jump) same_options ∙ j) in
    (stays, λ t. ap (λ (d : Controller). delay_at d.state base t) stays)
