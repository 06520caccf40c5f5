-- ===== src/Publish/World/Owner.antt =====
-- Who owns a camera in internal/ingest/whip.go, over all interleavings.
use mathlib.Core.Option.{some-injective}
use waga_strim.Base.{
  ℕ, ◌<◌, ◌≡◌, refl, sym, ap, ◌∙◌, subst, inl, inr, true, false, ltb, Option, none, some, List, [],
  ◌∷◌, arith, if◌then◌else◌, Bool-cases,
}
use waga_strim.Base.Maps.{text_key, find}
use waga_strim.Publish.{
  Once, idle, cleaning, finished, Server, admit, current, install, begin_stop, forget, end_stop,
  close,
}
use waga_strim.Publish.World.{
  Phase, entered, cleared, installed, replacing, waiting, Call, World, new_world, Event, enter,
  look, find_session, resume, put_in, leave, stop, stopped, shut, put_in_call, on_call, step, run,
}
use waga_strim.Publish.World.Orderly.{
  IsOrderly, begin_stop-IsOrderly, end_stop-IsOrderly, install-IsOrderly,
}
use waga_strim.Publish.World.Forget.{forget-owners, forget-sessions, names-some}
use waga_strim.Publish.World.Install.{with_new-AreCalls}
use waga_strim.Publish.World.Calls.{Promise, AreCalls, less-AreCalls}
use waga_strim.Publish.World.Moves.{
  IsGood, same_sessions-IsOrderly, returned-IsGood, entering-IsGood, look_in-IsGood, find_in-IsGood,
  resume_in-IsGood,
}

put_in-IsGood :
    (w : World) (c : ℕ) (x : Call) (phase : Phase)
    → w.calls c ≡ some x
    → x.phase ≡ phase
    → IsGood w
    → IsGood (put_in_call w c x phase)
unfolding put_in_call install
put_in-IsGood w c x entered e p h = h
put_in-IsGood w c x installed e p h = h
put_in-IsGood w c x (replacing r) e p h = h
put_in-IsGood w c x (waiting r) e p h = h
put_in-IsGood w c x cleared e p (o, a) =
    let free = subst (Promise w.server x.ingest_id) p (a.holds c x e) in
    let orderly = install-IsOrderly w.server x.ingest_id free o in
    elim (Bool-cases w.server.closed) [
      | inl off ↦ simp off (returned-IsGood w c x e (o, a))
      | inr on ↦
          let calls = with_new-AreCalls w.server w.calls c x e o a in
          simp on (simp on at orderly, simp on at calls)
    ]

begun-AreCalls :
    (once : Once) (s : Server) (r : ℕ) (calls : ℕ → Option Call)
    → AreCalls s calls
    → AreCalls (begin_stop once s r) calls
unfolding begin_stop
begun-AreCalls idle s r calls a =
    less-AreCalls s (begin_stop idle s r) calls refl
      (record { owners = λ id q f. f; sessions = λ q f. f }) a
begun-AreCalls (cleaning owned) s r calls a = a
begun-AreCalls finished s r calls a = a

ended-AreCalls :
    (once : Once) (s : Server) (r : ℕ) (calls : ℕ → Option Call)
    → AreCalls s calls
    → AreCalls (end_stop once s r) calls
unfolding end_stop forget
ended-AreCalls idle s r calls a = a
ended-AreCalls (cleaning owned) s r calls a =
    less-AreCalls s (end_stop (cleaning owned) s r) calls refl
      (record { owners = forget-owners s r; sessions = forget-sessions s r }) a
ended-AreCalls finished s r calls a = a

stop-IsGood :
    (w : World) (r : ℕ)
    → IsGood w
    → IsGood (
        if ltb r w.server.next
        then record w { server = begin_stop (w.server.heap r).once w.server r }
        else w)
stop-IsGood w r (o, a) = elim (Bool-cases (ltb r w.server.next)) [
  | inr unborn ↦ simp unborn (o, a)
  | inl born ↦
      let once = (w.server.heap r).once in
      let below : r < w.server.next = ground arith in
      simp born (
        begin_stop-IsOrderly once w.server r refl below o,
        begun-AreCalls once w.server r w.calls a,
      )
]

on_call-IsGood :
    (w : World) (x : Option Call) (next : Call → World)
    → ((y : Call) → x ≡ some y → IsGood (next y))
    → IsGood w
    → IsGood (on_call x w next)
unfolding on_call
on_call-IsGood w none next keeps h = h
on_call-IsGood w (some x) next keeps h = keeps x refl

step-IsGood : (w : World) (e : Event) → IsGood w → IsGood (step w e)
unfolding step close
step-IsGood w (enter c settings key sends) h =
    entering-IsGood w c (w.calls c) (admit settings key sends) refl h
step-IsGood w (look c connected) h =
    on_call-IsGood w (w.calls c) _ (λ x e. look_in-IsGood w c x x.phase connected e h) h
step-IsGood w (find_session c) h =
    on_call-IsGood w (w.calls c) _ (λ x e. find_in-IsGood w c x x.phase e refl h) h
step-IsGood w (resume c) h =
    on_call-IsGood w (w.calls c) _ (λ x e. resume_in-IsGood w c x x.phase e refl h) h
step-IsGood w (put_in c) h =
    on_call-IsGood w (w.calls c) _ (λ x e. put_in-IsGood w c x x.phase e refl h) h
step-IsGood w (leave c) h = on_call-IsGood w (w.calls c) _ (λ x e. returned-IsGood w c x e h) h
step-IsGood w (stop r) h = stop-IsGood w r h
step-IsGood w (stopped r) (o, a) =
    let once = (w.server.heap r).once in
    (end_stop-IsOrderly once w.server r refl o, ended-AreCalls once w.server r w.calls a)
step-IsGood w shut (o, a) = (
  same_sessions-IsOrderly w.server w.server.pending true o,
  less-AreCalls w.server (close w.server).0 w.calls refl
      (record { owners = λ id q f. f; sessions = λ q f. f }) a,
)

run-IsGood : (w : World) (es : List Event) → IsGood w → IsGood (run w es)
run-IsGood w [] h = h
run-IsGood w (e ∷ es) h = run-IsGood (step w e) es (step-IsGood w e h)

new-IsGood : IsGood new_world
new-IsGood = (
  record {
    owns = λ r h. absurd cc;
    marked = λ r h. absurd cc;
    gone = λ r h. refl;
    issued = λ id r h. absurd cc;
    known = λ r h. absurd cc;
    fresh = λ r h. refl;
  },
  record { busy = λ c x h. absurd cc; alone = λ c d x y h. absurd cc; holds = λ c x h. absurd cc },
)

not_current :
    (s : Server) (r q : ℕ)
    → IsOrderly s
    → (s.heap r).once ≡ cleaning true
    → (s.heap q).ingest_id ≡ (s.heap r).ingest_id
    → current s q ≡ false
unfolding current
not_current s r q o running same = elim (Bool-cases (current s q)) [
  | inr off ↦ off
  | inl on ↦
      let owner : find (s.heap q).ingest_id s.by_ingest ≡ some r =
        ap (λ id. find id s.by_ingest) same ∙ (o.owns r running).0 in
      let named = names-some (find (s.heap q).ingest_id s.by_ingest) q (ground arith) in
      let one = some-injective q r (sym named ∙ owner) in
      let ended = subst (λ p. (s.heap p).ended ≡ true) (sym one) (o.marked r running) in
      ground arith
]

-- Over any interleaving from a new server: while the clean-up of a session that owned its camera runs,
-- which drops the camera's stream and its viewers, the session still owns the camera, and no session of
-- the camera is current, so none that replaces it can lose what it has.
pub clean_up_is_exclusive :
    (es : List Event) (r q : ℕ)
    → ((run new_world es).server.heap r).once ≡ cleaning true
    → ((run new_world es).server.heap q).ingest_id ≡ ((run new_world es).server.heap r).ingest_id
    → let s = (run new_world es).server in
      (find (s.heap r).ingest_id s.by_ingest ≡ some r) × (current s q ≡ false)
clean_up_is_exclusive es r q running same =
    let (o, _) = run-IsGood new_world es new-IsGood in
    ((o.owns r running).0, not_current (run new_world es).server r q o running same)
