-- ===== src/Config/Keys/Resolve.antt =====
-- The keys of a list of cameras that `validateIngests` of internal/config/config.go lets through, and
-- what `Resolve` makes of them.
use Prim.Native.String.{String}
use text.Mathlib.Text
use text.Mathlib.TextEquality.{eq_iff}
use text.Mathlib.TextPositions.{eq_refl}
use waga_strim.Base.{
  ◌≡◌, refl, ap, ◌∙◌, subst, inl, inr, Bool, true, false, not, ◌||◌, Option, none, some, List, [],
  ◌∷◌, ◌++◌, map, arith, Bool-cases,
}
use waga_strim.Base.Int.{ℤ}
use waga_strim.Config.{Ingest, Role, sender, receiver}
use waga_strim.Config.Ingests.{contains, matched, resolve_from, normalise_ingest}
use waga_strim.Config.Keys.{valid_key, sender_prefix, receiver_prefix, validate_from}

-- No identifier or key of the list stands in `seen` or earlier in the list.
abbrev pub AllNew : List String → List Ingest → Type 0
AllNew seen [] = Unit {0}
AllNew seen (ing ∷ rest) =
    (contains (ing.id ∷ seen) ing.sender_key ≡ false)
    × (contains (ing.sender_key ∷ ing.id ∷ seen) ing.receiver_key ≡ false)
    × AllNew (ing.receiver_key ∷ ing.sender_key ∷ ing.id ∷ seen) rest

pub impossible {ℓ} : {A : Type ℓ} {e : A} → some e ≡ none → ⊥
impossible h = cc

neither : (a b : Bool) → (a || b) ≡ false → (a ≡ false) × (b ≡ false)
neither a b h = ground arith

pub validated-AllNew :
    (seen : List String) (list : List Ingest) → validate_from seen list ≡ none → AllNew seen list
unfolding validate_from
validated-AllNew seen [] h = tt
validated-AllNew seen (ing ∷ rest) h =
    let named = ing.id ∷ seen in
    let sent = ing.sender_key ∷ named in
    elim (Bool-cases (Text.◌==◌ ing.id "" || contains seen ing.id)) [
      | inl bad ↦ absurd (impossible (simp bad at h))
      | inr good ↦
          let keys =
            not (valid_key sender_prefix ing.sender_key)
            || not (valid_key receiver_prefix ing.receiver_key) in
          elim (Bool-cases keys) [
            | inl bad ↦ absurd (impossible (simp (good, bad) at h))
            | inr right ↦
                elim (Bool-cases
                  (contains named ing.sender_key || contains sent ing.receiver_key)) [
                    | inl bad ↦ absurd (impossible (simp (good, right, bad) at h))
                    | inr fresh ↦
                        let rest_new =
                          validated-AllNew (ing.receiver_key ∷ sent) rest
                            (simp (good, right, fresh) at h) in
                        ((neither _ _ fresh).0, (neither _ _ fresh).1, rest_new)
                  ]
          ]
    ]

contains-there : (s t : String) (l : List String) → contains l s ≡ true → contains (t ∷ l) s ≡ true
contains-there s t l h = ground arith

contains-here : (s : String) (l : List String) → contains (s ∷ l) s ≡ true
contains-here s l = simp (eq_refl s) refl

contains-tail : (s t : String) (l : List String) → contains (t ∷ l) s ≡ false → contains l s ≡ false
contains-tail s t l h = ground arith

true_not_false : (b : Bool) → b ≡ true → b ≡ false → ⊥
true_not_false b p q = cc

-- A text of the list is not one that the list lacks.
different :
    (l : List String) (s t : String)
    → contains l s ≡ true
    → contains l t ≡ false
    → Text.◌==◌ s t ≡ false
different l s t p q = elim (Bool-cases (Text.◌==◌ s t)) [
  | inl e ↦
      absurd
        (true_not_false (contains l t) (subst (λ k. contains l k ≡ true) ((eq_iff s t).0 e) p) q)
  | inr n ↦ n
]

-- What a camera adds to the names that were seen.
abbrev pub seen_after : List String → Ingest → List String
seen_after seen ing = ing.receiver_key ∷ ing.sender_key ∷ ing.id ∷ seen

-- A key that was seen is not one of the list.
resolve_seen :
    (key : String) (seen : List String) (list : List Ingest) (found : Option (Ingest × Role))
    → AllNew seen list
    → contains seen key ≡ true
    → resolve_from key list found ≡ found
unfolding resolve_from matched
resolve_seen key seen [] found new h = refl
resolve_seen key seen (ing ∷ rest) found (s, r, new) h =
    let named = contains-there key ing.id seen h in
    let sent = contains-there key ing.sender_key (ing.id ∷ seen) named in
    let all = contains-there key ing.receiver_key (ing.sender_key ∷ ing.id ∷ seen) sent in
    let other = different seen key ing.sender_key h (contains-tail _ ing.id seen s) in
    let other' = different (ing.sender_key ∷ ing.id ∷ seen) key ing.receiver_key sent r in
    let later = resolve_seen key (seen_after seen ing) rest found new all in
    simp (other, other') later

-- The last key of a list is found wherever it stands.
resolve_hit :
    (key : String) (role : Role) (seen : List String) (before : List Ingest) (ing : Ingest)
    (after : List Ingest) (found : Option (Ingest × Role))
    → ((found' : Option (Ingest × Role)) → matched key ing found' ≡ some (ing, role))
    → ((seen' : List String) → contains (seen_after seen' ing) key ≡ true)
    → AllNew seen (before ++ (ing ∷ after))
    → resolve_from key (before ++ (ing ∷ after)) found ≡ some (ing, role)
unfolding resolve_from
resolve_hit key role seen [] ing after found m c (s, r, new) =
    ap (resolve_from key after) (m found)
    ∙ resolve_seen key (seen_after seen ing) after (some (ing, role)) new (c seen)
resolve_hit key role seen (b ∷ before) ing after found m c (s, r, new) =
    resolve_hit key role (seen_after seen b) before ing after (matched key b found) m c new

-- The two keys of one camera differ.
keys_differ :
    (seen : List String) (before : List Ingest) (ing : Ingest) (after : List Ingest)
    → AllNew seen (before ++ (ing ∷ after))
    → Text.◌==◌ ing.sender_key ing.receiver_key ≡ false
keys_differ seen [] ing after (s, r, new) =
    different (ing.sender_key ∷ ing.id ∷ seen) ing.sender_key ing.receiver_key
      (contains-here ing.sender_key (ing.id ∷ seen)) r
keys_differ seen (b ∷ before) ing after (s, r, new) =
    keys_differ (seen_after seen b) before ing after new

-- Cleaning the cameras up leaves their names.
pub map-AllNew :
    (floor_ms : Option ℤ) (seen : List String) (list : List Ingest)
    → AllNew seen list
    → AllNew seen (map (normalise_ingest floor_ms) list)
unfolding normalise_ingest
map-AllNew floor_ms seen [] new = tt
map-AllNew floor_ms seen (ing ∷ rest) (s, r, new) =
    (s, r, map-AllNew floor_ms (seen_after seen ing) rest new)

pub resolve_both :
    (before : List Ingest) (ing : Ingest) (after : List Ingest)
    → AllNew [] (before ++ (ing ∷ after))
    → (resolve_from ing.sender_key (before ++ (ing ∷ after)) none ≡ some (ing, sender))
      × (resolve_from ing.receiver_key (before ++ (ing ∷ after)) none ≡ some (ing, receiver))
unfolding matched
resolve_both before ing after new =
    let other = keys_differ [] before ing after new in
    (
      resolve_hit ing.sender_key sender [] before ing after none
          (λ found. simp (eq_refl ing.sender_key, other) refl)
          (λ seen.
            contains-there ing.sender_key ing.receiver_key (ing.sender_key ∷ ing.id ∷ seen)
              (contains-here ing.sender_key (ing.id ∷ seen)))
          new,
      resolve_hit ing.receiver_key receiver [] before ing after none
          (λ found. simp (eq_refl ing.receiver_key) refl)
          (λ seen. contains-here ing.receiver_key (ing.sender_key ∷ ing.id ∷ seen)) new,
    )
