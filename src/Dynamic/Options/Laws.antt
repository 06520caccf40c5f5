-- ===== src/Dynamic/Options/Laws.antt =====
-- The settings that `Normalize` lets through, and the catch-up speed that they give.
use waga_strim.Base.{◌≡◌, refl, ◌≢◌, inl, inr, Bool, Option, none, some, Bool-cases}
use waga_strim.Base.Int.{
  ℤ, pos, ◌-ℤ◌, ◌*ℤ◌, min_ℤ, max_ℤ, eqb_ℤ, ◌≤ℤ◌, int_laws, quot_floor, positive-ne-zero,
}
use waga_strim.Dynamic.Options.{
  millisecond, maximum_delay_ms, Options, default_maximum, default_auto, normalize, automatic, span,
  auto_speed, catch_up,
}

-- What `Normalize` guarantees at a normal delay of `base_ms` milliseconds.
pub record IsNormal (o : Options) (base_ms : ℤ) : Type 0 where
  pub above_base : base_ms ≤ℤ o.maximum_ms
  pub positive : pos 1 ≤ℤ o.maximum_ms
  pub capped : o.maximum_ms ≤ℤ max_ℤ maximum_delay_ms base_ms
  pub slowest : pos 1 ≤ℤ o.catch_up_ms_per_second
  pub fastest : o.catch_up_ms_per_second ≤ℤ pos 200
  pub decided : o.auto_catch_up ≢ none

maximum_normal :
    (base m : ℤ)
    → let r = max_ℤ (max_ℤ (pos 1) base) (min_ℤ maximum_delay_ms m) in
      (base ≤ℤ r) × (pos 1 ≤ℤ r) × (r ≤ℤ max_ℤ maximum_delay_ms base)
maximum_normal base m = omega int_laws

rate_normal : (m : ℤ) → let r = max_ℤ (pos 1) (min_ℤ (pos 200) m) in (pos 1 ≤ℤ r) × (r ≤ℤ pos 200)
rate_normal m = omega int_laws

pub default_auto_decided : (a : Option Bool) → default_auto a ≢ none
unfolding default_auto
default_auto_decided none e = cc
default_auto_decided (some b) e = cc

-- Whatever the stored settings are, `Normalize` makes the maximum at least 1 ms and the normal delay
-- and at most 10000 ms or the normal delay, the speed 1 to 200 ms/s, and decides automatic speed.
pub normalize-IsNormal : (o : Options) (base_ms : ℤ) → IsNormal (normalize o base_ms) base_ms
unfolding normalize
normalize-IsNormal o base_ms =
    let (above, low, high) = maximum_normal base_ms _ in
    let (slow, fast) = rate_normal _ in
    record {
      above_base = above;
      positive = low;
      capped = high;
      slowest = slow;
      fastest = fast;
      decided = default_auto_decided _;
    }

default_maximum_id : (o : Options) → pos 1 ≤ℤ o.maximum_ms → default_maximum o ≡ o
unfolding default_maximum
default_maximum_id o h = rw (positive-ne-zero o.maximum_ms h)

default_auto_id : (a : Option Bool) → a ≢ none → default_auto a ≡ a
unfolding default_auto
default_auto_id none h = absurd (h refl)
default_auto_id (some b) h = refl

-- Normal options are left as they are.
normalize_normal : (o : Options) (base_ms : ℤ) → IsNormal o base_ms → normalize o base_ms ≡ o
unfolding normalize
normalize_normal o base_ms n =
    let m : max_ℤ (max_ℤ (pos 1) base_ms) (min_ℤ maximum_delay_ms o.maximum_ms) ≡ o.maximum_ms =
      omega int_laws in
    let r : max_ℤ (pos 1) (min_ℤ (pos 200) o.catch_up_ms_per_second) ≡ o.catch_up_ms_per_second =
      omega int_laws in
    rw (default_maximum_id o n.positive, positive-ne-zero o.catch_up_ms_per_second n.slowest)
      (λ i. record o {
        maximum_ms = m i;
        catch_up_ms_per_second = r i;
        auto_catch_up = default_auto_id o.auto_catch_up n.decided i;
      })

-- `Normalize` is idempotent: what a save writes back is what a load reads.
pub normalize-normalize :
    (o : Options) (base_ms : ℤ) → normalize (normalize o base_ms) base_ms ≡ normalize o base_ms
normalize-normalize o base_ms = normalize_normal _ base_ms (normalize-IsNormal o base_ms)

-- The automatic speed is 10 to 200 ms/s.
pub auto_speed_range :
    (o : Options) (current base : ℤ)
    → (pos 10 ≤ℤ auto_speed o current base) × (auto_speed o current base ≤ℤ pos 200)
unfolding auto_speed
auto_speed_range o current base =
    let excess = pos 1900 *ℤ max_ℤ (pos 0) (current -ℤ base) in
    let floor =
      quot_floor excess (pos 9 *ℤ span o base) (omega int_laws) (unfold span in omega int_laws) in
    omega (int_laws, floor)

-- With normal settings a second of catch-up removes 1 to 200 ms.
pub catch_up_range :
    (o : Options) (base_ms current base : ℤ)
    → IsNormal o base_ms
    → (millisecond ≤ℤ catch_up o current base) × (catch_up o current base ≤ℤ pos 200 *ℤ millisecond)
unfolding catch_up
catch_up_range o base_ms current base n = elim (Bool-cases (automatic o)) [
  | inl e ↦ rw e (omega (int_laws, auto_speed_range o current base))
  | inr e ↦ rw e (omega int_laws)
]

-- The settings that `Configure` compares, of what `Normalize` gives.
pub normalize_policy :
    (o o' : Options) (base_ms : ℤ)
    → o.enabled ≡ o'.enabled
    → o.maximum_ms ≡ o'.maximum_ms
    → o.jump ≡ o'.jump
    → let d = normalize o base_ms in
      let d' = normalize o' base_ms in
      (d.enabled ≡ d'.enabled) × (d.maximum_ms ≡ d'.maximum_ms) × (d.jump ≡ d'.jump)
unfolding normalize default_maximum
normalize_policy o o' base_ms ee em ej = elim (Bool-cases (eqb_ℤ o'.maximum_ms (pos 0))) [
  | inl e ↦ simp (em, e) (ee, refl, refl)
  | inr e ↦ simp (em, e) (ee, refl, ej)
]
