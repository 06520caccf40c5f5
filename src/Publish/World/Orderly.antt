-- ===== src/Publish/World/Orderly.antt =====
-- The sessions of internal/ingest/whip.go and their clean-up.
use Prim.Native.String.{String}
use text.Mathlib.Text
use mathlib.Core.Option.{some-injective}
use waga_strim.Base.{
  ℕ, ◌≤◌, ◌<◌, ◌≡◌, refl, sym, ap, ◌∙◌, subst, inl, inr, Bool, true, false, ◌==◌, some, arith,
  Bool-cases,
}
use waga_strim.Base.Maps.{text_key, find, find-put}
use waga_strim.Publish.{
  Once, idle, cleaning, finished, Server, member, update, current, install, begin_stop, forget,
  end_stop,
}
use waga_strim.Publish.World.Forget.{
  not_same, names-some, eq_of, forget-owners, forget-keeps, forget-sessions, forget-member,
  forget-gone, forget-known,
}

-- A session whose clean-up runs owns its camera, and one that is finished is out of the map.
pub record IsOrderly (s : Server) : Type 0 where
  pub owns :
      (r : ℕ)
      → (s.heap r).once ≡ cleaning true
      → (find (s.heap r).ingest_id s.by_ingest ≡ some r) × (member r s.sessions ≡ true)
  pub marked : (r : ℕ) → (s.heap r).once ≡ cleaning true → (s.heap r).ended ≡ true
  pub gone : (r : ℕ) → (s.heap r).once ≡ finished → member r s.sessions ≡ false
  pub issued : (id : String) (r : ℕ) → find id s.by_ingest ≡ some r → r < s.next
  pub known : (r : ℕ) → member r s.sessions ≡ true → r < s.next
  pub fresh : (r : ℕ) → s.next ≤ r → (s.heap r).once ≡ idle

update-same {ℓ} : {A : Type ℓ} (f : ℕ → A) (c : ℕ) (a : A) → update f c a c ≡ a
update-same f c a = ground arith

update-other {ℓ} :
    {A : Type ℓ} (f : ℕ → A) (c d : ℕ) (a : A) → (d == c) ≡ false → update f c a d ≡ f d
update-other f c d a h = simp h refl

current-owns :
    (s : Server) (r : ℕ)
    → current s r ≡ true
    → (find (s.heap r).ingest_id s.by_ingest ≡ some r) × (member r s.sessions ≡ true)
unfolding current
current-owns s r h =
    (names-some (find (s.heap r).ingest_id s.by_ingest) r (ground arith), ground arith)

ran : {a b : Bool} → cleaning a ≡ cleaning b → a ≡ b
ran h = ap (λ o. elim o [ idle ↦ true | cleaning c ↦ c | finished ↦ true ]) h

not_finished : {b : Bool} → cleaning b ≡ finished → ⊥
not_finished h = cc

different : (q r n : ℕ) → n ≤ q → r < n → (q == r) ≡ false
different q r n h g = ground arith

begun-IsOrderly : (s : Server) (r : ℕ) → r < s.next → IsOrderly s → IsOrderly (begin_stop idle s r)
unfolding begin_stop
begun-IsOrderly s r below o = record {
  owns = λ q h. elim (Bool-cases (q == r)) [
    | inl same ↦
        let e : q ≡ r = ground arith in
        let (found, there) = current-owns s r (ran (simp same at h)) in
        simp same (
          subst (λ p. find (s.heap r).ingest_id s.by_ingest ≡ some p) (sym e) found,
          subst (λ p. member p s.sessions ≡ true) (sym e) there,
        )
    | inr other ↦ simp other (o.owns q (simp other at h))
  ];
  marked = λ q h. elim (Bool-cases (q == r)) [
    | inl same ↦ simp same refl
    | inr other ↦ simp other (o.marked q (simp other at h))
  ];
  gone = λ q h. elim (Bool-cases (q == r)) [
    | inl same ↦ absurd (not_finished (simp same at h))
    | inr other ↦ o.gone q (simp other at h)
  ];
  issued = o.issued;
  known = o.known;
  fresh = λ q h. simp (different q r s.next h below) (o.fresh q h);
}

pub begin_stop-IsOrderly :
    (once : Once) (s : Server) (r : ℕ)
    → (s.heap r).once ≡ once
    → r < s.next
    → IsOrderly s
    → IsOrderly (begin_stop once s r)
unfolding begin_stop
begin_stop-IsOrderly idle s r e below o = begun-IsOrderly s r below o
begin_stop-IsOrderly (cleaning owned) s r e below o = o
begin_stop-IsOrderly finished s r e below o = o

not_idle : {b : Bool} → idle ≡ cleaning b → ⊥
not_idle h = cc

idle_not : idle ≡ finished → ⊥
idle_not h = cc

not_cleaning : {b : Bool} → finished ≡ cleaning b → ⊥
not_cleaning h = cc

finished-IsOrderly :
    (s : Server) (r : ℕ) (owned : Bool)
    → (s.heap r).once ≡ cleaning owned
    → IsOrderly s
    → IsOrderly (end_stop (cleaning owned) s r)
unfolding end_stop forget
finished-IsOrderly s r owned e o = record {
  owns = λ q h. elim (Bool-cases (q == r)) [
    | inl same ↦ absurd (not_cleaning (simp same at h))
    | inr other ↦
        let (found, there) = o.owns q (simp other at h) in
        simp other
          (forget-keeps s r (s.heap q).ingest_id q other found, forget-member s r q other ∙ there)
  ];
  marked = λ q h. elim (Bool-cases (q == r)) [
    | inl same ↦ absurd (not_cleaning (simp same at h))
    | inr other ↦ simp other (o.marked q (simp other at h))
  ];
  gone = λ q h. elim (Bool-cases (q == r)) [
    | inl same ↦
        subst (λ p. member p (forget s r).sessions ≡ false) (sym (eq_of q r same)) (forget-gone s r)
    | inr other ↦ forget-sessions s r q (o.gone q (simp other at h))
  ];
  issued = λ id q h. o.issued id q (forget-owners s r id q h);
  known = λ q h. o.known q (forget-known s r q h);
  fresh = λ q h.
      let apart : (q == r) ≡ false = elim (Bool-cases (q == r)) [
        | inl same ↦ absurd (
            not_idle (sym (subst (λ p. (s.heap p).once ≡ idle) (eq_of q r same) (o.fresh q h)) ∙ e))
        | inr other ↦ other
      ] in
      simp apart (o.fresh q h);
}

pub end_stop-IsOrderly :
    (once : Once) (s : Server) (r : ℕ)
    → (s.heap r).once ≡ once
    → IsOrderly s
    → IsOrderly (end_stop once s r)
unfolding end_stop
end_stop-IsOrderly idle s r e o = o
end_stop-IsOrderly (cleaning owned) s r e o = finished-IsOrderly s r owned e o
end_stop-IsOrderly finished s r e o = o

-- A new session is put in where the camera has no owner.
pub install-IsOrderly :
    (s : Server) (id : String)
    → ((r : ℕ) → find id s.by_ingest ≡ some r → member r s.sessions ≡ false)
    → IsOrderly s
    → IsOrderly (install s id).0
unfolding install text_key
install-IsOrderly s id free o = elim (Bool-cases s.closed) [
  | inl shut ↦ simp shut o
  | inr on ↦ simp on (record {
    owns = λ q h. elim (Bool-cases (q == s.next)) [
      | inl same ↦ absurd (not_idle (simp same at h))
      | inr other ↦
          let (found, there) = o.owns q (simp other at h) in
          let apart = not_same (s.heap q).ingest_id id (λ e.
            let out = free q (sym (ap (λ i. find i s.by_ingest) e) ∙ found) in
            absurd (ground arith)) in
          simp other (find-put (s.heap q).ingest_id id s.next s.by_ingest ∙ simp apart found, there)
    ];
    marked = λ q h. elim (Bool-cases (q == s.next)) [
      | inl same ↦ absurd (not_idle (simp same at h))
      | inr other ↦ simp other (o.marked q (simp other at h))
    ];
    gone = λ q h. elim (Bool-cases (q == s.next)) [
      | inl same ↦ absurd (idle_not (simp same at h))
      | inr other ↦ simp other (o.gone q (simp other at h))
    ];
    issued = λ i q h. elim (Bool-cases (Text.◌==◌ i id)) [
      | inl same ↦
          let e =
            some-injective s.next q (sym (find-put i id s.next s.by_ingest ∙ simp same refl) ∙ h) in
          omega arith
      | inr other ↦
          let below = o.issued i q (sym (find-put i id s.next s.by_ingest ∙ simp other refl) ∙ h) in
          omega arith
    ];
    known = λ q h. elim (Bool-cases (q == s.next)) [
      | inl same ↦ ground arith
      | inr other ↦ let below = o.known q (simp other at h) in omega arith
    ];
    fresh = λ q h.
        let other : (q == s.next) ≡ false = ground arith in simp other (o.fresh q (omega arith));
  })
]
