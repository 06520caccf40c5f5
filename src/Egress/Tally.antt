-- ===== src/Egress/Tally.antt =====
-- Counting the sessions in the maps of internal/egress/whep.go.
use Prim.Native.String.{String}
use waga_strim.Base.{
  ℕ, ◌+◌, ◌≤◌, ◌≡◌, refl, ap, inl, inr, Bool, true, false, List, [], ◌∷◌, arith, if◌then◌else◌,
  length, Bool-cases,
}
use waga_strim.Base.Maps.{text_key, Table, keys, put, remove}
use waga_strim.Egress.{
  Session, same_session, session_key, values, tally, cancel, cancel_all, without_ingest,
  same_session_iff,
}

-- The first list is the second with some sessions left out.
pub data Sub : List Session → List Session → Type 0 where
  done : Sub [] []
  keep : {l m : List Session} (s : Session) → Sub l m → Sub (s ∷ l) (s ∷ m)
  skip : {l m : List Session} (s : Session) → Sub l m → Sub l (s ∷ m)

abbrev pub without : Session → List Session → List Session
without s [] = []
without s (t ∷ l) = let rest = without s l in if same_session s t then rest else t ∷ rest

abbrev pub among : Session → List Session → Bool
among s [] = false
among s (t ∷ l) = if same_session s t then true else among s l

pub tally-Sub : (p : Session → Bool) {l m : List Session} → Sub l m → tally p l ≤ tally p m
tally-Sub p done = omega arith
tally-Sub p (keep s r) = let rest = tally-Sub p r in ground arith
tally-Sub p (skip s r) = let rest = tally-Sub p r in ground arith

pub without-Sub : (s : Session) {l m : List Session} → Sub l m → Sub (without s l) (without s m)
without-Sub s done = done
without-Sub s (keep t r) = elim (Bool-cases (same_session s t)) [
  | inl e ↦ simp e (without-Sub s r)
  | inr e ↦ simp e (keep t (without-Sub s r))
]
without-Sub s (skip t r) = elim (Bool-cases (same_session s t)) [
  | inl e ↦ simp e (without-Sub s r)
  | inr e ↦ simp e (skip t (without-Sub s r))
]

pub leave-Sub : (s : Session) {l m : List Session} → Sub l m → Sub (without s l) m
leave-Sub s done = done
leave-Sub s (keep t r) = elim (Bool-cases (same_session s t)) [
  | inl e ↦ simp e (skip t (leave-Sub s r))
  | inr e ↦ simp e (keep t (leave-Sub s r))
]
leave-Sub s (skip t r) = skip t (leave-Sub s r)

pub keys-remove : (s : Session) (t : Table Session Bool) → keys (remove s t) ≡ without s (keys t)
unfolding session_key
keys-remove s [] = refl
keys-remove s ((j, b) ∷ t) = elim (Bool-cases (same_session s j)) [
  | inl e ↦ simp e (keys-remove s t)
  | inr e ↦ simp e (ap (◌∷◌ j) (keys-remove s t))
]

pub keys-cancel : (id : String) (t : Table Session Bool) → keys (cancel id t) ≡ keys t
unfolding cancel
keys-cancel id [] = refl
keys-cancel id ((s, b) ∷ t) = ap (◌∷◌ s) (keys-cancel id t)

pub keys-cancel_all : (t : Table Session Bool) → keys (cancel_all t) ≡ keys t
unfolding cancel_all
keys-cancel_all [] = refl
keys-cancel_all ((s, b) ∷ t) = ap (◌∷◌ s) (keys-cancel_all t)

pub length-keys-tally : (t : Table Session Bool) → tally (λ s. true) (keys t) ≡ length t
length-keys-tally [] = refl
length-keys-tally ((s, b) ∷ t) = omega (arith, length-keys-tally t)

pub length-values-tally : (t : Table String Session) → tally (λ s. true) (values t) ≡ length t
length-values-tally [] = refl
length-values-tally ((r, s) ∷ t) = omega (arith, length-values-tally t)

module _ (p : Session → Bool) where
  -- What one session counts.
  abbrev pub weight : Session → ℕ
  weight s = if p s then 1 else 0

  pub tally-put :
      (r : String) (s : Session) (t : Table String Session)
      → tally p (values (put r s t)) ≤ tally p (values t) + weight s
  tally-put r s [] = ground arith
  tally-put r s ((q, v) ∷ t) = ground (arith, tally-put r s t)

  pub tally-remove :
      (r : String) (t : Table String Session) → tally p (values (remove r t)) ≤ tally p (values t)
  tally-remove r [] = omega arith
  tally-remove r ((q, v) ∷ t) = ground (arith, tally-remove r t)

  pub tally-without_ingest :
      (id : String) (t : Table String Session)
      → tally p (values (without_ingest id t)) ≤ tally p (values t)
  unfolding without_ingest
  tally-without_ingest id [] = omega arith
  tally-without_ingest id ((r, s) ∷ t) = ground (arith, tally-without_ingest id t)

  pub tally-without : (s : Session) (l : List Session) → tally p (without s l) ≤ tally p l
  tally-without s [] = omega arith
  tally-without s (t ∷ l) = ground (arith, tally-without s l)

  -- A session that is there no longer counts once it is left out.
  pub tally-without-among :
      (s : Session) (l : List Session)
      → among s l ≡ true
      → tally p (without s l) + weight s ≤ tally p l
  tally-without-among s [] h = absurd cc
  tally-without-among s (t ∷ l) h = elim (Bool-cases (same_session s t)) [
    | inl e ↦
        let same : p s ≡ p t = ap p ((same_session_iff s t).0 e) in
        let less = tally-without s l in simp e (ground arith)
    | inr e ↦ let rest = tally-without-among s l (simp e at h) in simp e (ground arith)
  ]
