-- ===== src/Base/Maps.antt =====
-- Go's maps as association lists in insertion order. Where a source ranges over a map, in an order
-- that Go leaves open, the model takes the order of the list.
use Prim.Native.String.{String}
use text.Mathlib.Text
use text.Mathlib.TextEquality.{eq_iff}
use mathlib.Core.Option.{some-injective}
use waga_strim.Base.{
  ◌⊎◌, suc, ◌+◌, ◌≤◌, ◌<◌, ◌≡◌, refl, sym, ap, ◌↔◌, ◌≢◌, inl, inr, Bool, true, false, Option, none,
  some, List, [], ◌∷◌, ◌++◌, arith, if◌then◌else◌, length, Bool-cases,
}

pub record Key {ℓ} (K : Type ℓ) : Type ℓ where
  pub same : K → K → Bool
  pub same_iff : (a b : K) → (same a b ≡ true) ↔ (a ≡ b)

instance unfoldable pub text_key : Key String
text_key = record { same = Text.◌==◌; same_iff = eq_iff }

abbrev pub Table {ℓ κ} : Type ℓ → Type κ → Type (ℓ ⊔ κ)
Table K V = List (K × V)

abbrev pub keys {ℓ κ} : {K : Type ℓ} {V : Type κ} → Table K V → List K
keys [] = []
keys ((k, v) ∷ t) = k ∷ keys t

module _ {ℓ} {K : Type ℓ} ⦃e : Key K⦄ where
  pub same_self : (k : K) → e.same k k ≡ true
  same_self k = (e.same_iff k k).1 refl

  pub same_ne : (j k : K) → j ≢ k → e.same j k ≡ false
  same_ne j k n = elim (Bool-cases (e.same j k)) [
    | inl y ↦ absurd (n ((e.same_iff j k).0 y))
    | inr y ↦ y
  ]

module _ {ℓ κ} {K : Type ℓ} {V : Type κ} ⦃e : Key K⦄ where
  abbrev pub find : K → Table K V → Option V
  find k [] = none
  find k ((j, v) ∷ t) = if e.same k j then some v else find k t

  -- `t[k] = v`
  abbrev pub put : K → V → Table K V → Table K V
  put k v [] = (k, v) ∷ []
  put k v ((j, w) ∷ t) = if e.same k j then (j, v) ∷ t else (j, w) ∷ put k v t

  -- `delete(t, k)`
  abbrev pub remove : K → Table K V → Table K V
  remove k [] = []
  remove k ((j, w) ∷ t) = let rest = remove k t in if e.same k j then rest else (j, w) ∷ rest

  -- `_, exists := t[k]`
  abbrev pub has : K → Table K V → Bool
  has k [] = false
  has k ((j, w) ∷ t) = if e.same k j then true else has k t

  -- A key stands at one place of a map.
  abbrev pub IsTable : Table K V → Type 0
  IsTable [] = Unit
  IsTable ((k, v) ∷ t) = (has k t ≡ false) × IsTable t

  pub has-find : (k : K) (t : Table K V) → has k t ≡ false → find k t ≡ none
  has-find k [] h = refl
  has-find k ((j, w) ∷ t) h = ground (arith, has-find k t)

  pub has-true : (k : K) (v : V) (t : Table K V) → find k t ≡ some v → has k t ≡ true
  has-true k v [] h = ground arith
  has-true k v ((j, w) ∷ t) h = ground (arith, has-true k v t)

  pub put-new : (k : K) (v : V) (t : Table K V) → has k t ≡ false → put k v t ≡ t ++ ((k, v) ∷ [])
  put-new k v [] h = refl
  put-new k v ((j, w) ∷ t) h = ground (arith, put-new k v t)

  pub remove-absent : (k : K) (t : Table K V) → has k t ≡ false → remove k t ≡ t
  remove-absent k [] h = refl
  remove-absent k ((j, w) ∷ t) h = ground (arith, remove-absent k t)

  pub has-append :
      (k j : K) (v : V) (t : Table K V)
      → has k t ≡ false
      → e.same k j ≡ false
      → has k (t ++ ((j, v) ∷ [])) ≡ false
  has-append k j v [] h n = ground arith
  has-append k j v ((i, w) ∷ t) h n = ground (arith, has-append k j v t)

  pub find-append :
      (k j : K) (v : V) (t : Table K V)
      → find k (t ++ ((j, v) ∷ []))
        ≡ (if has k t then find k t else if e.same k j then some v else none)
  find-append k j v [] = refl
  find-append k j v ((i, w) ∷ t) = ground (arith, find-append k j v t)

  pub keys-append : (t : Table K V) (k : K) (v : V) → keys (t ++ ((k, v) ∷ [])) ≡ keys t ++ (k ∷ [])
  keys-append [] k v = refl
  keys-append ((j, w) ∷ t) k v = ap (◌∷◌ j) (keys-append t k v)

  pub length-keys : (t : Table K V) → length (keys t) ≡ length t
  length-keys [] = refl
  length-keys ((j, w) ∷ t) = ap suc (length-keys t)

  pub append-IsTable :
      (t : Table K V) (k : K) (v : V) → has k t ≡ false → IsTable t → IsTable (t ++ ((k, v) ∷ []))
  append-IsTable [] k v h u = (refl, tt)
  append-IsTable ((j, w) ∷ t) k v h u = elim (Bool-cases (e.same j k)) [
    | inl y ↦ absurd (ground (arith, e.same_iff j k, e.same_iff k j, sym ((e.same_iff j k).0 y)))
    | inr y ↦ (has-append j k v t u.0 y, append-IsTable t k v (ground arith) u.1)
  ]

module _ {ℓ κ} {K : Type ℓ} {V : Type κ} ⦃e : Key K⦄ where
  pub length-remove : (k : K) (t : Table K V) → length (remove k t) ≤ length t
  length-remove k [] = omega arith
  length-remove k ((j, w) ∷ t) = ground (arith, length-remove k t)

  pub length-remove-has : (k : K) (t : Table K V) → has k t ≡ true → length (remove k t) < length t
  length-remove-has k [] h = absurd cc
  length-remove-has k ((j, w) ∷ t) h = elim (Bool-cases (e.same k j)) [
    | inl y ↦ simp y (omega (arith, length-remove k t))
    | inr n ↦ simp n (omega (arith, length-remove-has k t (simp n at h)))
  ]

  pub length-put : (k : K) (v : V) (t : Table K V) → length (put k v t) ≤ length t + 1
  length-put k v [] = omega arith
  length-put k v ((j, w) ∷ t) = ground (arith, length-put k v t)

  pub has-remove :
      (j k : K) (t : Table K V) → has j (remove k t) ≡ (if e.same j k then false else has j t)
  has-remove j k [] = ground arith
  has-remove j k ((i, w) ∷ t) =
      ground (arith, e.same_iff k i, e.same_iff j i, e.same_iff j k, has-remove j k t)

module _ {ℓ κ} {K : Type ℓ} {V : Type κ} ⦃e : Key K⦄ where
  pub has-put :
      (j k : K) (v : V) (t : Table K V) → has j (put k v t) ≡ (if e.same j k then true else has j t)
  has-put j k v [] = refl
  has-put j k v ((i, w) ∷ t) =
      ground (arith, e.same_iff k i, e.same_iff j i, e.same_iff j k, has-put j k v t)

  pub find-put :
      (j k : K) (v : V) (t : Table K V)
      → find j (put k v t) ≡ (if e.same j k then some v else find j t)
  find-put j k v [] = refl
  find-put j k v ((i, w) ∷ t) =
      ground (arith, e.same_iff k i, e.same_iff j i, e.same_iff j k, find-put j k v t)

  pub find-remove :
      (j k : K) (t : Table K V) → find j (remove k t) ≡ (if e.same j k then none else find j t)
  find-remove j k [] = ground arith
  find-remove j k ((i, w) ∷ t) =
      ground (arith, e.same_iff k i, e.same_iff j i, e.same_iff j k, find-remove j k t)

  -- What a lookup finds after a write, in a map that may have been cleared before.
  pub found-put :
      (clears : Bool) (j k : K) (v w : V) (t : Table K V)
      → find j (put k v (if clears then [] else t)) ≡ some w
      → ((j ≡ k) × (v ≡ w)) ⊎ (find j t ≡ some w)
  found-put clears j k v w t h = elim (Bool-cases (e.same j k)) [
    | inl y ↦ inl (
      (e.same_iff j k).0 y,
      some-injective v w (ground (arith, find-put j k v (if clears then [] else t))),
    )
    | inr n ↦ inr (ground (arith, find-put j k v (if clears then [] else t)))
  ]

  pub found-remove :
      (j k : K) (w : V) (t : Table K V) → find j (remove k t) ≡ some w → find j t ≡ some w
  found-remove j k w t h = ground (arith, find-remove j k t)

  pub found-kept :
      (clears : Bool) (j : K) (w : V) (t : Table K V)
      → find j (if clears then [] else t) ≡ some w
      → find j t ≡ some w
  found-kept true j w t h = absurd cc
  found-kept false j w t h = h
