-- ===== src/Config/Save/Replace.antt =====
-- `ReplaceIngests` and then `Resolve`, of internal/config/config.go.
use Prim.Native.String.{String}
use text.Mathlib.Text
use text.Mathlib.TextEquality.{eq_iff}
use mathlib.Core.Option.{some-injective}
use waga_strim.Base.{
  ◌≡◌, refl, sym, ap, ◌∙◌, subst, ◌⊎◌, inl, inr, ◌↔◌, Option, none, some, List, [], ◌∷◌, ◌++◌, map,
  Bool-cases,
}
use waga_strim.Config.{Ingest, Role, sender, receiver, Error}
use waga_strim.Config.Ingests.{matched, resolve_from, resolve, normalise_ingest}
use waga_strim.Config.Keys.{validate_ingests}
use waga_strim.Config.Keys.Resolve.{AllNew, validated-AllNew, resolve_both, map-AllNew, impossible}
use waga_strim.Config.Save.{Attempt, Daemon, settle, replace_unless, replace_ingests}
use waga_strim.Config.Save.Atomic.{save_locked-cases}

abbrev pub key_of : Role → Ingest → String
key_of sender ing = ing.sender_key
key_of receiver ing = ing.receiver_key

-- The camera stands in the list.
abbrev pub Among : Ingest → List Ingest → Type 0
Among ing list = (before : List Ingest) × (after : List Ingest) × (list ≡ before ++ (ing ∷ after))

Found : String → List Ingest → Ingest × Role → Type 0
Found key list (ing, role) = Among ing list × (key ≡ key_of role ing)

matched-cases :
    (key : String) (j : Ingest) (found : Option (Ingest × Role))
    → (matched key j found ≡ found)
      ⊎ ((role : Role) × (matched key j found ≡ some (j, role)) × (key ≡ key_of role j))
unfolding matched
matched-cases key j found = elim (Bool-cases (Text.◌==◌ key j.receiver_key)) [
  | inl r ↦ inr (receiver, simp r refl, (eq_iff key j.receiver_key).0 r)
  | inr r ↦ elim (Bool-cases (Text.◌==◌ key j.sender_key)) [
    | inl s ↦ inr (sender, simp (r, s) refl, (eq_iff key j.sender_key).0 s)
    | inr s ↦ inl (simp (r, s) refl)
  ]
]

Found-there :
    (key : String) (j : Ingest) (list : List Ingest) (x : Ingest × Role)
    → Found key list x
    → Found key (j ∷ list) x
unfolding Found
Found-there key j list (ing, role) ((before, after, e), k) = ((j ∷ before, after, ap (◌∷◌ j) e), k)

-- What the loop finds is what it had, or a camera of the list by one of its keys.
resolve_from-cases :
    (key : String) (list : List Ingest) (found : Option (Ingest × Role))
    → (resolve_from key list found ≡ found)
      ⊎ ((x : Ingest × Role) × (resolve_from key list found ≡ some x) × Found key list x)
unfolding resolve_from Found
resolve_from-cases key [] found = inl refl
resolve_from-cases key (j ∷ list) found = elim (resolve_from-cases key list (matched key j found)) [
  | inr (x, e, f) ↦ inr (x, e, Found-there key j list x f)
  | inl e ↦ elim (matched-cases key j found) [
    | inl m ↦ inl (e ∙ m)
    | inr (role, m, k) ↦ inr ((j, role), e ∙ m, (([], list, refl), k))
  ]
]

same-Found :
    (key : String) (list : List Ingest) (x y : Ingest × Role)
    → some x ≡ some y
    → Found key list x
    → Found key list y
same-Found key list x y e f = subst (Found key list) (some-injective x y e) f

found_by :
    (list : List Ingest) (ing : Ingest) (role : Role)
    → AllNew [] list
    → Among ing list
    → resolve_from (key_of role ing) list none ≡ some (ing, role)
found_by list ing sender new (before, after, e) =
    ap (λ l. resolve_from ing.sender_key l none) e
    ∙ (resolve_both before ing after (subst (AllNew []) e new)).0
found_by list ing receiver new (before, after, e) =
    ap (λ l. resolve_from ing.receiver_key l none) e
    ∙ (resolve_both before ing after (subst (AllNew []) e new)).1

saved_list :
    (a : Attempt) (d d' : Daemon) (next : List Ingest)
    → replace_unless none a d next ≡ (d', none)
    → d'.config.ingests ≡ map (normalise_ingest d.config.floor_ms) next
unfolding replace_unless settle
saved_list a d d' next h =
    let c = record d.config { ingests = map (normalise_ingest d.config.floor_ms) next } in
    elim (save_locked-cases a c d.file) [
      | inl e ↦ absurd (impossible (ap (λ r. r.1) (simp e at h)))
      | inr e ↦ sym (ap (λ r. r.0.config.ingests) (simp e at h))
    ]

-- What a replacement that succeeds leaves.
replaced :
    (v : Option Error) (a : Attempt) (d d' : Daemon) (next : List Ingest)
    → replace_unless v a d next ≡ (d', none)
    → (v ≡ none) × (d'.config.ingests ≡ map (normalise_ingest d.config.floor_ms) next)
unfolding replace_unless
replaced (some e) a d d' next h = absurd (impossible (ap (λ r. r.1) h))
replaced none a d d' next h = (refl, saved_list a d d' next h)

resolves_exactly :
    (list : List Ingest) (key : String) (ing : Ingest) (role : Role)
    → AllNew [] list
    → (resolve_from key list none ≡ some (ing, role)) ↔ (Among ing list × (key ≡ key_of role ing))
unfolding Found
resolves_exactly list key ing role new = (
  λ h. elim (resolve_from-cases key list none) [
    | inl e ↦ absurd (impossible (sym h ∙ e))
    | inr (x, e, f) ↦ same-Found key list x (ing, role) (sym e ∙ h) f
  ],
  λ (among, k). ap (λ t. resolve_from t list none) k ∙ found_by list ing role new among,
)

-- After a replacement of the cameras that succeeds, the settings hold the cameras that were sent,
-- cleaned up, in their order, and a key resolves to a camera in a role exactly when the camera is one of
-- these and the key is its key of that role: no two cameras or roles share a key.
pub replaced_resolve :
    (a : Attempt) (d d' : Daemon) (next : List Ingest) (key : String) (ing : Ingest) (role : Role)
    → replace_ingests a d next ≡ (d', none)
    → (d'.config.ingests ≡ map (normalise_ingest d.config.floor_ms) next)
      × ((resolve d'.config key ≡ some (ing, role))
          ↔ (Among ing d'.config.ingests × (key ≡ key_of role ing)))
unfolding replace_ingests validate_ingests resolve
replaced_resolve a d d' next key ing role h =
    let (valid, list) = replaced (validate_ingests next) a d d' next h in
    let new = map-AllNew d.config.floor_ms [] next (validated-AllNew [] next valid) in
    (list, resolves_exactly d'.config.ingests key ing role (subst (AllNew []) (sym list) new))
