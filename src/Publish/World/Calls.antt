-- ===== src/Publish/World/Calls.antt =====
-- The calls of `negotiate` of internal/ingest/whip.go that are in progress, and their reservations.
use Prim.Native.String.{String}
use text.Mathlib.Text
use text.Mathlib.TextEquality.{eq_iff}
use mathlib.Core.Option.{some-injective}
use waga_strim.Base.{
  ℕ, ◌≡◌, ◌≢◌, refl, sym, ap, ◌∙◌, subst, inl, inr, ◌⊎◌, Bool, true, false, ◌==◌, Option, none,
  some, arith, Bool-cases,
}
use waga_strim.Base.Maps.{text_key, find, put, find-put, find-remove}
use waga_strim.Publish.{Server, member, update, is_pending, release}
use waga_strim.Publish.World.Forget.{not_same}
use waga_strim.Publish.World.{Phase, entered, cleared, installed, replacing, waiting, Call}

-- What a call that stands at a phase may rely on.
abbrev pub Promise : Server → String → Phase → Type 0
Promise s id entered = Unit {0}
Promise s id installed = Unit {0}
Promise s id cleared = (r : ℕ) → find id s.by_ingest ≡ some r → member r s.sessions ≡ false
Promise s id (replacing q) = (r : ℕ) → find id s.by_ingest ≡ some r → r ≡ q
Promise s id (waiting q) = (r : ℕ) → find id s.by_ingest ≡ some r → r ≡ q

-- Each call has reserved its camera, alone, and what it relies on holds.
pub record AreCalls (s : Server) (calls : ℕ → Option Call) : Type 0 where
  pub busy : (c : ℕ) (x : Call) → calls c ≡ some x → find x.ingest_id s.pending ≡ some true
  pub alone :
      (c d : ℕ) (x y : Call)
      → calls c ≡ some x
      → calls d ≡ some y
      → x.ingest_id ≡ y.ingest_id
      → c ≡ d
  pub holds : (c : ℕ) (x : Call) → calls c ≡ some x → Promise s x.ingest_id x.phase

-- The second server has no more sessions and owners than the first.
pub record IsLess (s t : Server) : Type 0 where
  pub owners : (id : String) (r : ℕ) → find id t.by_ingest ≡ some r → find id s.by_ingest ≡ some r
  pub sessions : (r : ℕ) → member r s.sessions ≡ false → member r t.sessions ≡ false

less-Promise :
    (s t : Server) (id : String) (phase : Phase)
    → IsLess s t
    → Promise s id phase
    → Promise t id phase
less-Promise s t id entered l h = tt
less-Promise s t id installed l h = tt
less-Promise s t id cleared l h = λ r f. l.sessions r (h r (l.owners id r f))
less-Promise s t id (replacing q) l h = λ r f. h r (l.owners id r f)
less-Promise s t id (waiting q) l h = λ r f. h r (l.owners id r f)

-- A change of the server that keeps the reservations and adds no owner keeps the calls.
pub less-AreCalls :
    (s t : Server) (calls : ℕ → Option Call)
    → t.pending ≡ s.pending
    → IsLess s t
    → AreCalls s calls
    → AreCalls t calls
less-AreCalls s t calls same l a = record {
  busy = λ c x e. subst (λ m. find x.ingest_id m ≡ some true) (sym same) (a.busy c x e);
  alone = a.alone;
  holds = λ c x e. less-Promise s t x.ingest_id x.phase l (a.holds c x e);
}

update-cases {ℓ} :
    {A : Type ℓ} (f : ℕ → Option A) (c d : ℕ) (v y : A)
    → update f c (some v) d ≡ some y
    → ((d ≡ c) × (v ≡ y)) ⊎ (((d == c) ≡ false) × (f d ≡ some y))
update-cases f c d v y h = elim (Bool-cases (d == c)) [
  | inl same ↦ inl (ground arith, some-injective v y (simp same at h))
  | inr other ↦ inr (other, simp other at h)
]

not_found {ℓ} : {A : Type ℓ} {a : A} → none ≡ some a → ⊥
not_found h = cc

pending_not : (b : Option Bool) → b ≡ some true → is_pending b ≡ false → ⊥
pending_not b h g = absurd (ground (arith, ap is_pending h))

-- A change of one call to one of the same camera, and of the server.
pub moved-AreCalls :
    (s t : Server) (calls : ℕ → Option Call) (c : ℕ) (x v : Call)
    → calls c ≡ some x
    → v.ingest_id ≡ x.ingest_id
    → t.pending ≡ s.pending
    → Promise t v.ingest_id v.phase
    → ((d : ℕ) (y : Call) → ((d == c) ≡ false) → calls d ≡ some y → Promise t y.ingest_id y.phase)
    → AreCalls s calls
    → AreCalls t (update calls c (some v))
moved-AreCalls s t calls c x v e same kept p others a =
    let origin : (d : ℕ) (y : Call)
        → update calls c (some v) d ≡ some y
        → (y' : Call) × (calls d ≡ some y') × (y'.ingest_id ≡ y.ingest_id) =
      λ d y f. elim (update-cases calls c d v y f) [
        | inl (here, now) ↦ (x, ap calls here ∙ e, sym same ∙ ap (λ (z : Call). z.ingest_id) now)
        | inr (other, was) ↦ (y, was, refl)
      ] in
    record {
      busy = λ d y f.
          let (y', was, id) = origin d y f in
          subst (λ m. find y.ingest_id m ≡ some true) (sym kept)
            (subst (λ i. find i s.pending ≡ some true) id (a.busy d y' was));
      alone = λ d d' y z f g h.
          let (y', was, id) = origin d y f in
          let (z', was', id') = origin d' z g in a.alone d d' y' z' was was' (id ∙ h ∙ sym id');
      holds = λ d y f. elim (update-cases calls c d v y f) [
        | inl (here, now) ↦ subst (λ (z : Call). Promise t z.ingest_id z.phase) now p
        | inr (other, was) ↦ others d y other was
      ];
    }

-- A call that moves on.
pub phase-AreCalls :
    (s : Server) (calls : ℕ → Option Call) (c : ℕ) (x : Call) (phase : Phase)
    → calls c ≡ some x
    → AreCalls s calls
    → Promise s x.ingest_id phase
    → AreCalls s (update calls c (some (record x { phase = phase })))
phase-AreCalls s calls c x phase e a p =
    moved-AreCalls s s calls c x (record x { phase = phase }) e refl refl p
      (λ d y other f. a.holds d y f) a

-- A call that returns.
pub returned-AreCalls :
    (s : Server) (calls : ℕ → Option Call) (c : ℕ) (x : Call)
    → calls c ≡ some x
    → AreCalls s calls
    → AreCalls (release s x.ingest_id) (update calls c none)
unfolding release text_key
returned-AreCalls s calls c x e a =
    let others : (d : ℕ) (y : Call)
        → update calls c none d ≡ some y
        → ((d == c) ≡ false) × (calls d ≡ some y) =
      λ d y f. elim (Bool-cases (d == c)) [
        | inl same ↦ absurd (not_found (simp same at f))
        | inr other ↦ (other, simp other at f)
      ] in
    record {
      busy = λ d y f.
          let (other, was) = others d y f in
          elim (Bool-cases (Text.◌==◌ y.ingest_id x.ingest_id)) [
            | inl same ↦
                let one = a.alone d c y x was e ((eq_iff y.ingest_id x.ingest_id).0 same) in
                absurd (ground arith)
            | inr differ ↦
                find-remove y.ingest_id x.ingest_id s.pending ∙ simp differ (a.busy d y was)
          ];
      alone = λ d d' y z f g h. a.alone d d' y z (others d y f).1 (others d' z g).1 h;
      holds = λ d y f.
          less-Promise s (release s x.ingest_id) y.ingest_id y.phase
            (record { owners = λ id r g. g; sessions = λ r g. g }) (a.holds d y (others d y f).1);
    }

-- A call that enters.
pub entered-AreCalls :
    (s : Server) (calls : ℕ → Option Call) (c : ℕ) (id : String)
    → is_pending (find id s.pending) ≡ false
    → AreCalls s calls
    → AreCalls
        (record s { pending = put id true s.pending })
        (update calls c (some (record { ingest_id = id; phase = entered })))
unfolding text_key
entered-AreCalls s calls c id idle_camera a =
    let v : Call = record { ingest_id = id; phase = entered } in
    let apart : (d : ℕ) (y : Call) → calls d ≡ some y → y.ingest_id ≢ id = λ d y f same.
      pending_not (find id s.pending)
        (subst (λ i. find i s.pending ≡ some true) same (a.busy d y f)) idle_camera in
    record {
      busy = λ d y f. elim (update-cases calls c d v y f) [
        | inl (here, now) ↦
            subst (λ (z : Call). find z.ingest_id (put id true s.pending) ≡ some true) now
              (find-put id id true s.pending ∙ simp ((eq_iff id id).1 refl) refl)
        | inr (other, was) ↦
            find-put y.ingest_id id true s.pending
            ∙ simp (not_same y.ingest_id id (apart d y was)) (a.busy d y was)
      ];
      alone = λ d d' y z f g h. elim (update-cases calls c d v y f) [
        | inl (here, now) ↦ elim (update-cases calls c d' v z g) [
          | inl (here', now') ↦ here ∙ sym here'
          | inr (other', was') ↦
              absurd (apart d' z was' (sym h ∙ sym (ap (λ (u : Call). u.ingest_id) now)))
        ]
        | inr (other, was) ↦ elim (update-cases calls c d' v z g) [
          | inl (here', now') ↦
              absurd (apart d y was (h ∙ sym (ap (λ (u : Call). u.ingest_id) now')))
          | inr (other', was') ↦ a.alone d d' y z was was' h
        ]
      ];
      holds = λ d y f. elim (update-cases calls c d v y f) [
        | inl (here, now) ↦
            subst
              (λ (z : Call).
                Promise (record s { pending = put id true s.pending }) z.ingest_id z.phase)
              now tt
        | inr (other, was) ↦
            less-Promise s (record s { pending = put id true s.pending }) y.ingest_id y.phase
              (record { owners = λ id r g. g; sessions = λ r g. g }) (a.holds d y was)
      ];
    }
