-- ===== src/Publish/World/Forget.antt =====
-- `forget` of internal/ingest/whip.go, on the two maps.
use Prim.Native.String.{String}
use text.Mathlib.Text
use text.Mathlib.TextEquality.{eq_iff}
use mathlib.Core.Option.{some-injective}
use waga_strim.Base.{
  ℕ, ◌≡◌, ◌≢◌, refl, sym, ap, ◌∙◌, subst, inl, inr, true, false, ◌&&◌, ◌==◌, Option, none, some,
  List, [], ◌∷◌, arith, Bool-cases,
}
use waga_strim.Base.Maps.{text_key, find, find-remove, found-remove}
use waga_strim.Publish.{Server, member, dropped, names, forget}

pub member-dropped : (r : ℕ) (l : List ℕ) → member r (dropped r l) ≡ false
member-dropped r [] = refl
member-dropped r (q ∷ l) = ground (arith, member-dropped r l)

pub member-dropped_other :
    (q r : ℕ) (l : List ℕ) → (q == r) ≡ false → member q (dropped r l) ≡ member q l
member-dropped_other q r [] h = refl
member-dropped_other q r (p ∷ l) h = ground (arith, member-dropped_other q r l h)

pub not_same : (s t : String) → s ≢ t → Text.◌==◌ s t ≡ false
not_same s t h = elim (Bool-cases (Text.◌==◌ s t)) [
  | inl e ↦ absurd (h ((eq_iff s t).0 e))
  | inr e ↦ e
]

pub names-some : (o : Option ℕ) (r : ℕ) → names o r ≡ true → o ≡ some r
names-some none r h = absurd cc
names-some (some q) r h = ap some (ground arith)

pub eq_of : (q r : ℕ) → (q == r) ≡ true → q ≡ r
eq_of q r h = ground arith

pub forget-owners :
    (s : Server) (r : ℕ) (id : String) (q : ℕ)
    → find id (forget s r).by_ingest ≡ some q
    → find id s.by_ingest ≡ some q
unfolding forget
forget-owners s r id q h =
    let key = (s.heap r).ingest_id in
    elim (Bool-cases (member r s.sessions && names (find key s.by_ingest) r)) [
      | inl out ↦ found-remove id key q s.by_ingest (simp out at h)
      | inr in_place ↦ simp in_place at h
    ]

-- The camera of another session keeps its owner.
pub forget-keeps :
    (s : Server) (r : ℕ) (id : String) (q : ℕ)
    → (q == r) ≡ false
    → find id s.by_ingest ≡ some q
    → find id (forget s r).by_ingest ≡ some q
unfolding forget text_key
forget-keeps s r id q other h =
    let key = (s.heap r).ingest_id in
    elim (Bool-cases (member r s.sessions && names (find key s.by_ingest) r)) [
      | inr in_place ↦ simp in_place h
      | inl out ↦
          let owner = names-some (find key s.by_ingest) r (ground arith) in
          let apart = not_same id key (λ e.
            let one = some-injective q r (sym h ∙ ap (λ i. find i s.by_ingest) e ∙ owner) in
            absurd (ground arith)) in
          simp out (find-remove id key s.by_ingest ∙ simp apart h)
    ]

pub forget-sessions :
    (s : Server) (r q : ℕ) → member q s.sessions ≡ false → member q (forget s r).sessions ≡ false
unfolding forget
forget-sessions s r q h = elim (Bool-cases (member r s.sessions)) [
  | inr out ↦ simp out h
  | inl there ↦ simp there (elim (Bool-cases (q == r)) [
    | inl same ↦
        subst (λ p. member p (dropped r s.sessions) ≡ false) (sym (eq_of q r same))
          (member-dropped r s.sessions)
    | inr other ↦ member-dropped_other q r s.sessions other ∙ h
  ])
]

pub forget-member :
    (s : Server) (r q : ℕ) → (q == r) ≡ false → member q (forget s r).sessions ≡ member q s.sessions
unfolding forget
forget-member s r q other = elim (Bool-cases (member r s.sessions)) [
  | inr out ↦ simp out refl
  | inl there ↦ simp there (member-dropped_other q r s.sessions other)
]

pub forget-gone : (s : Server) (r : ℕ) → member r (forget s r).sessions ≡ false
unfolding forget
forget-gone s r = elim (Bool-cases (member r s.sessions)) [
  | inr out ↦ ground arith
  | inl there ↦ simp there (member-dropped r s.sessions)
]

distinct : true ≡ false → ⊥
distinct h = cc

pub forget-known :
    (s : Server) (r q : ℕ) → member q (forget s r).sessions ≡ true → member q s.sessions ≡ true
forget-known s r q h = elim (Bool-cases (member q s.sessions)) [
  | inl there ↦ there
  | inr out ↦ absurd (distinct (sym h ∙ forget-sessions s r q out))
]
