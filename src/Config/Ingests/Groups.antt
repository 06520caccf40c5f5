-- ===== src/Config/Ingests/Groups.antt =====
-- The delay that the cameras of a sync group share, in internal/config/config.go.
use Prim.Native.String.{String}
use text.Mathlib.Text
use text.Mathlib.TextEquality.{eq_iff}
use text.Mathlib.TextPositions.{eq_refl}
use mathlib.Core.Option.{some-injective}
use waga_strim.Base.{
  ◌≡◌, ◌≢◌, refl, sym, ap, ◌∙◌, subst, inl, inr, true, false, ◌&&◌, some, List, [], ◌∷◌, ◌++◌,
  arith, if◌then◌else◌, Bool-cases,
}
use waga_strim.Base.Int.{ℤ, ◌≤ℤ◌, ltb_ℤ, ≤ℤ_antisymm}
use waga_strim.Config.{Ingest, Config}
use waga_strim.Config.Ingests.{
  find_ingest, group_delay, delay_of, effective_delay, options_of, delay_options,
}

-- A camera of the group.
abbrev pub IsMember : List Ingest → String → Ingest → Type 0
IsMember ingests group ing =
    (before : List Ingest) × (after : List Ingest) × (ingests ≡ before ++ (ing ∷ after))
    × (Text.◌==◌ ing.sync_group group ≡ true)

-- The first of the two delays, or the second where the camera is of the group and has the larger one.
raised : Ingest → String → ℤ → ℤ
raised ing group own =
    if Text.◌==◌ ing.sync_group group && ltb_ℤ own ing.delay_ms then ing.delay_ms else own

raised-above : (ing : Ingest) (group : String) (own : ℤ) → own ≤ℤ raised ing group own
unfolding raised
raised-above ing group own = ground arith

group_delay-above : (l : List Ingest) (group : String) (own : ℤ) → own ≤ℤ group_delay l group own
unfolding group_delay raised
group_delay-above [] group own = omega arith
group_delay-above (ing ∷ l) group own =
    omega (arith, raised-above ing group own, group_delay-above l group (raised ing group own))

raised-member :
    (ing : Ingest) (group : String) (own : ℤ)
    → Text.◌==◌ ing.sync_group group ≡ true
    → ing.delay_ms ≤ℤ raised ing group own
unfolding raised
raised-member ing group own h = ground arith

group_delay-members :
    (before : List Ingest) (ing : Ingest) (after : List Ingest) (group : String) (own : ℤ)
    → Text.◌==◌ ing.sync_group group ≡ true
    → ing.delay_ms ≤ℤ group_delay (before ++ (ing ∷ after)) group own
unfolding group_delay raised
group_delay-members [] ing after group own h =
    omega
      (arith, raised-member ing group own h, group_delay-above after group (raised ing group own))
group_delay-members (b ∷ before) ing after group own h =
    group_delay-members before ing after group (raised b group own) h

raised-least :
    (ing : Ingest) (group : String) (own bound : ℤ)
    → own ≤ℤ bound
    → (Text.◌==◌ ing.sync_group group ≡ true → ing.delay_ms ≤ℤ bound)
    → raised ing group own ≤ℤ bound
unfolding raised
raised-least ing group own bound h of_group = elim (Bool-cases (Text.◌==◌ ing.sync_group group)) [
  | inl e ↦ let low = of_group e in ground arith
  | inr e ↦ ground arith
]

-- A bound on the delays of the group bounds the result.
group_delay-least :
    (l : List Ingest) (group : String) (own bound : ℤ)
    → own ≤ℤ bound
    → ((before : List Ingest) (ing : Ingest) (after : List Ingest)
        → l ≡ before ++ (ing ∷ after)
        → Text.◌==◌ ing.sync_group group ≡ true
        → ing.delay_ms ≤ℤ bound)
    → group_delay l group own ≤ℤ bound
unfolding group_delay raised
group_delay-least [] group own bound h all = h
group_delay-least (ing ∷ l) group own bound h all =
    group_delay-least l group (raised ing group own) bound
      (raised-least ing group own bound h (all [] ing l refl))
      (λ before j after e. all (ing ∷ before) j after (ap (◌∷◌ ing) e))

find-IsMember :
    (l : List Ingest) (id : String) (ing : Ingest)
    → find_ingest l id ≡ some ing
    → (before : List Ingest) × (after : List Ingest) × (l ≡ before ++ (ing ∷ after))
unfolding find_ingest
find-IsMember [] id ing h = absurd (ground arith)
find-IsMember (j ∷ l) id ing h = elim (Bool-cases (Text.◌==◌ j.id id)) [
  | inl e ↦ let same : j ≡ ing = some-injective j ing (simp e at h) in ([], l, ap (λ k. k ∷ l) same)
  | inr e ↦
      let (before, after, f) = find-IsMember l id ing (simp e at h) in
      (j ∷ before, after, ap (◌∷◌ j) f)
]

group_delay-least_of :
    (l : List Ingest) (group : String) (a b : Ingest)
    → IsMember l group a
    → group_delay l group a.delay_ms ≤ℤ group_delay l group b.delay_ms
group_delay-least_of l group a b (before, after, e, same) =
    let reaches =
      λ (x : List Ingest) (j : Ingest) (y : List Ingest) (f : l ≡ x ++ (j ∷ y))
          (g : Text.◌==◌ j.sync_group group ≡ true).
        subst (λ k. j.delay_ms ≤ℤ group_delay k group b.delay_ms) (sym f)
          (group_delay-members x j y group b.delay_ms g) in
    group_delay-least l group a.delay_ms (group_delay l group b.delay_ms)
      (reaches before a after e same) reaches

effective_in_group :
    (c : Config) (id : String) (a : Ingest)
    → find_ingest c.ingests id ≡ some a
    → a.sync_group ≢ ""
    → effective_delay c id ≡ group_delay c.ingests a.sync_group a.delay_ms
unfolding effective_delay delay_of
effective_in_group c id a h grouped =
    let other : Text.◌==◌ a.sync_group "" ≡ false = elim (Bool-cases (Text.◌==◌ a.sync_group "")) [
      | inl e ↦ absurd (grouped ((eq_iff a.sync_group "").0 e))
      | inr e ↦ e
    ] in
    simp (h, other) refl

options_in_group :
    (c : Config) (id : String) (a : Ingest)
    → find_ingest c.ingests id ≡ some a
    → a.sync_group ≢ ""
    → (delay_options c id).enabled ≡ false
unfolding delay_options
options_in_group c id a h grouped =
    let other : Text.◌==◌ a.sync_group "" ≡ false = elim (Bool-cases (Text.◌==◌ a.sync_group "")) [
      | inl e ↦ absurd (grouped ((eq_iff a.sync_group "").0 e))
      | inr e ↦ e
    ] in
    ap (λ o. (options_of o).enabled) h ∙ simp other (ground arith)

-- Two cameras of one sync group play at one delay, which no camera of the group exceeds by its own, and
-- neither of the two follows the dynamic delay.
pub group_shares_delay :
    (c : Config) (id id' : String) (a b ing : Ingest)
    → find_ingest c.ingests id ≡ some a
    → find_ingest c.ingests id' ≡ some b
    → a.sync_group ≢ ""
    → a.sync_group ≡ b.sync_group
    → IsMember c.ingests a.sync_group ing
    → (effective_delay c id ≡ effective_delay c id')
      × (ing.delay_ms ≤ℤ effective_delay c id)
      × ((delay_options c id).enabled ≡ false)
      × ((delay_options c id').enabled ≡ false)
group_shares_delay c id id' a b ing h h' grouped same (before, after, e, of_group) =
    let l = c.ingests in
    let group = a.sync_group in
    let (xa, ya, ea) = find-IsMember l id a h in
    let (xb, yb, eb) = find-IsMember l id' b h' in
    let in_a : IsMember l group a = (xa, ya, ea, eq_refl group) in
    let in_b : IsMember l group b = (xb, yb, eb, (eq_iff b.sync_group group).1 (sym same)) in
    let of_a = effective_in_group c id a h grouped in
    let of_b : effective_delay c id' ≡ group_delay l group b.delay_ms =
      effective_in_group c id' b h' (λ none_left. grouped (same ∙ none_left))
      ∙ ap (λ g. group_delay l g b.delay_ms) (sym same) in
    (
      of_a
          ∙ ≤ℤ_antisymm (group_delay l group a.delay_ms) (group_delay l group b.delay_ms)
              (group_delay-least_of l group a b in_a) (group_delay-least_of l group b a in_b)
          ∙ sym of_b,
      subst (λ d. ing.delay_ms ≤ℤ d) (sym of_a)
          (subst (λ k. ing.delay_ms ≤ℤ group_delay k group a.delay_ms) (sym e)
            (group_delay-members before ing after group a.delay_ms of_group)),
      options_in_group c id a h grouped,
      options_in_group c id' b h' (λ none_left. grouped (same ∙ none_left)),
    )
