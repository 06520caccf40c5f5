-- ===== src/Publish/World/Moves.antt =====
-- The sections of `clearPrevious` and `negotiate` of internal/ingest/whip.go, on the calls in progress.
use Prim.Native.String.{String}
use mathlib.Core.Option.{some-injective}
use waga_strim.Base.{
  ℕ, ◌≡◌, refl, sym, ◌∙◌, subst, inl, inr, ◌⊎◌, Bool, false, not, ◌&&◌, ◌||◌, Option, none, some,
  arith, Bool-cases,
}
use waga_strim.Base.Maps.{text_key, Table, find}
use waga_strim.Config.{Ingest}
use waga_strim.Publish.{
  Once, idle, cleaning, finished, Server, Error, member, is_pending, reserve, release, previous_of,
  clear_previous,
}
use waga_strim.Publish.World.{
  Phase, entered, cleared, installed, replacing, waiting, Call, World, at_phase, returned, entering,
  looked, look_in, find_in, once_over, resume_in,
}
use waga_strim.Publish.World.Orderly.{IsOrderly}
use waga_strim.Publish.World.Calls.{
  Promise, AreCalls, phase-AreCalls, returned-AreCalls, entered-AreCalls,
}

abbrev pub IsGood : World → Type 0
IsGood w = IsOrderly w.server × AreCalls w.server w.calls

pub same_sessions-IsOrderly :
    (s : Server) (pending : Table String Bool) (closed : Bool)
    → IsOrderly s
    → IsOrderly (record s { pending = pending; closed = closed })
same_sessions-IsOrderly s pending closed o = record {
  owns = o.owns;
  marked = o.marked;
  gone = o.gone;
  issued = o.issued;
  known = o.known;
  fresh = o.fresh;
}

pub returned-IsGood :
    (w : World) (c : ℕ) (x : Call)
    → w.calls c ≡ some x
    → IsGood w
    → IsGood (returned w c x.ingest_id)
unfolding release
returned-IsGood w c x e (o, a) = (
  same_sessions-IsOrderly w.server _ w.server.closed o,
  returned-AreCalls w.server w.calls c x e a,
)

at_phase-IsGood :
    (w : World) (c : ℕ) (x : Call) (phase : Phase)
    → w.calls c ≡ some x
    → Promise w.server x.ingest_id phase
    → IsGood w
    → IsGood (at_phase w c x phase)
at_phase-IsGood w c x phase e p (o, a) = (o, phase-AreCalls w.server w.calls c x phase e a p)

pub entering-IsGood :
    (w : World) (c : ℕ) (x : Option Call) (r : Ingest ⊎ Error)
    → w.calls c ≡ x
    → IsGood w
    → IsGood (entering w c x r)
unfolding entering reserve
entering-IsGood w c (some x) r e h = h
entering-IsGood w c none (inr error) e h = h
entering-IsGood w c none (inl ing) e (o, a) =
    let s = w.server in
    elim (Bool-cases (s.closed || is_pending (find ing.id s.pending))) [
      | inl refused ↦ simp refused (o, a)
      | inr free ↦ simp free (
        same_sessions-IsOrderly s _ s.closed o,
        entered-AreCalls s w.calls c ing.id (ground arith) a,
      )
    ]

no_owner : {r : ℕ} → none ≡ some r → ⊥
no_owner h = cc

looked-IsGood :
    (w : World) (c : ℕ) (x : Call) (connected : Bool) (owner : Option ℕ)
    → w.calls c ≡ some x
    → find x.ingest_id w.server.by_ingest ≡ owner
    → IsGood w
    → IsGood (looked w c x (previous_of w.server connected owner))
unfolding previous_of
looked-IsGood w c x connected none e f h =
    at_phase-IsGood w c x cleared e (λ r g. absurd (no_owner (sym f ∙ g))) h
looked-IsGood w c x connected (some q) e f h = elim (Bool-cases (member q w.server.sessions)) [
  | inr out ↦ simp out (
      at_phase-IsGood w c x cleared e
        (λ r g.
          subst (λ p. member p w.server.sessions ≡ false) (some-injective q r (sym f ∙ g)) out)
        h)
  | inl there ↦ elim (Bool-cases (not (w.server.heap q).ended && connected)) [
    | inl live ↦ simp (there, live) (returned-IsGood w c x e h)
    | inr dead ↦
        simp (there, dead)
          (at_phase-IsGood w c x (replacing q) e (λ r g. some-injective r q (sym g ∙ f)) h)
  ]
]

pub look_in-IsGood :
    (w : World) (c : ℕ) (x : Call) (phase : Phase) (connected : Bool)
    → w.calls c ≡ some x
    → IsGood w
    → IsGood (look_in w c x phase connected)
unfolding look_in clear_previous
look_in-IsGood w c x entered connected e h =
    looked-IsGood w c x connected (find x.ingest_id w.server.by_ingest) e refl h
look_in-IsGood w c x cleared connected e h = h
look_in-IsGood w c x installed connected e h = h
look_in-IsGood w c x (replacing r) connected e h = h
look_in-IsGood w c x (waiting r) connected e h = h

-- Where the session that a call replaces is out of the map, its camera is cleared.
cleared-Promise :
    (s : Server) (id : String) (q : ℕ)
    → ((r : ℕ) → find id s.by_ingest ≡ some r → r ≡ q)
    → member q s.sessions ≡ false
    → Promise s id cleared
cleared-Promise s id q only out r f = subst (λ p. member p s.sessions ≡ false) (sym (only r f)) out

pub find_in-IsGood :
    (w : World) (c : ℕ) (x : Call) (phase : Phase)
    → w.calls c ≡ some x
    → x.phase ≡ phase
    → IsGood w
    → IsGood (find_in w c x phase)
unfolding find_in
find_in-IsGood w c x entered e p h = h
find_in-IsGood w c x cleared e p h = h
find_in-IsGood w c x installed e p h = h
find_in-IsGood w c x (waiting r) e p h = h
find_in-IsGood w c x (replacing q) e p (o, a) =
    let only = subst (Promise w.server x.ingest_id) p (a.holds c x e) in
    elim (Bool-cases (member q w.server.sessions)) [
      | inl there ↦ simp there (at_phase-IsGood w c x (waiting q) e only (o, a))
      | inr out ↦
          simp out (
            at_phase-IsGood w c x cleared e (cleared-Promise w.server x.ingest_id q only out)
              (o, a))
    ]

once_over-IsGood :
    (w : World) (c : ℕ) (x : Call) (q : ℕ) (once : Once)
    → w.calls c ≡ some x
    → x.phase ≡ waiting q
    → (w.server.heap q).once ≡ once
    → IsGood w
    → IsGood (once_over w c x once)
unfolding once_over
once_over-IsGood w c x q idle e p f h = h
once_over-IsGood w c x q (cleaning owned) e p f h = h
once_over-IsGood w c x q finished e p f (o, a) =
    let only = subst (Promise w.server x.ingest_id) p (a.holds c x e) in
    at_phase-IsGood w c x cleared e (cleared-Promise w.server x.ingest_id q only (o.gone q f))
      (o, a)

pub resume_in-IsGood :
    (w : World) (c : ℕ) (x : Call) (phase : Phase)
    → w.calls c ≡ some x
    → x.phase ≡ phase
    → IsGood w
    → IsGood (resume_in w c x phase)
unfolding resume_in
resume_in-IsGood w c x entered e p h = h
resume_in-IsGood w c x cleared e p h = h
resume_in-IsGood w c x installed e p h = h
resume_in-IsGood w c x (replacing r) e p h = h
resume_in-IsGood w c x (waiting q) e p h =
    once_over-IsGood w c x q (w.server.heap q).once e p refl h
