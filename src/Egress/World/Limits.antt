-- ===== src/Egress/World/Limits.antt =====
-- The limits on viewers of internal/egress/whep.go, over all interleavings.
use Prim.Native.String.{String}
use text.Mathlib.Text
use text.Mathlib.TextEquality.{eq_iff}
use waga_strim.Base.{
  ℕ, ◌+◌, ◌≤◌, ◌<◌, ◌≡◌, refl, sym, subst, inl, inr, ◌⊎◌, Bool, true, false, ◌||◌, leb, Option,
  none, some, List, [], ◌∷◌, arith, if◌then◌else◌, length, Bool-cases,
}
use waga_strim.Base.Maps.{text_key, keys, find}
use waga_strim.Config.{Ingest}
use waga_strim.Egress.{
  max_subscribers, max_subscribers_per_ingest, Session, Server, Error, values, tally, of_ingest,
  admit, reserve, commit_if, close_ingest, close, teardown, forget, release_reservation,
  session_key,
}
use waga_strim.Egress.Tally.{
  Sub, done, keep, without, among, weight, tally-Sub, without-Sub, leave-Sub, keys-remove,
  keys-cancel, keys-cancel_all, length-keys-tally, length-values-tally, tally-put, tally-remove,
  tally-without_ingest, tally-without, tally-without-among,
}
use waga_strim.Egress.World.{
  World, Event, begin, attach, leave, close_camera, tear_down, lost, shut, new_world, entered,
  begun, attached, step, run,
}

-- Every call in progress has its reservation.
abbrev pub IsReserved : World → Type 0
IsReserved w = Sub w.negotiating (keys w.server.pending)

-- The viewers and the calls that may become viewers, of a kind, within a limit.
abbrev pub IsWithin : (Session → Bool) → ℕ → World → Type 0
IsWithin p n w = IsReserved w × (tally p (values w.server.sessions) + tally p w.negotiating ≤ n)

-- A kind of sessions that `reserve` counts.
abbrev pub IsCounted : (Session → Bool) → ℕ → Type 0
IsCounted p n =
    (s : Server) (id : String)
    → (reserve s id ≡ (s, none))
      ⊎ ((session : Session) × (reserve s id
            ≡ (record s { pending = (session, true) ∷ s.pending; next = s.next + 1 }, some session))
          × ((tally p (keys s.pending) + tally p (values s.sessions) + weight p session ≤ n)
              ⊎ (p session ≡ false)))

total-IsCounted : IsCounted (λ s. true) max_subscribers
unfolding reserve
total-IsCounted s id =
    let total = length s.sessions + length s.pending in
    let camera = tally (of_ingest id) (keys s.pending) + tally (of_ingest id) (values s.sessions) in
    let refuses =
      s.closed || (leb max_subscribers total || leb max_subscribers_per_ingest camera) in
    elim (Bool-cases refuses) [
      | inl e ↦ inl (simp e refl)
      | inr e ↦ inr (
        record { address = s.next; ingest_id = id },
        simp e refl,
        inl (ground (arith, length-keys-tally s.pending, length-values-tally s.sessions)),
      )
    ]

-- A camera that is not the one of the new session keeps its number.
room_for :
    (camera id : String) (l m : List Session)
    → tally (of_ingest id) l + tally (of_ingest id) m < max_subscribers_per_ingest
    → (tally (of_ingest camera) l
          + tally (of_ingest camera) m
          + (if Text.◌==◌ id camera then 1 else 0)
        ≤ max_subscribers_per_ingest)
      ⊎ (Text.◌==◌ id camera ≡ false)
room_for camera id l m h = elim (Bool-cases (Text.◌==◌ id camera)) [
  | inr other ↦ inr other
  | inl same ↦
      let e = (eq_iff id camera).0 same in
      let count =
        subst (λ k. tally (of_ingest k) l + tally (of_ingest k) m < max_subscribers_per_ingest) e
          h in
      inl (simp same (omega arith))
]

camera-IsCounted : (camera : String) → IsCounted (of_ingest camera) max_subscribers_per_ingest
unfolding reserve
camera-IsCounted camera s id =
    let total = length s.sessions + length s.pending in
    let here = tally (of_ingest id) (keys s.pending) + tally (of_ingest id) (values s.sessions) in
    let refuses = s.closed || (leb max_subscribers total || leb max_subscribers_per_ingest here) in
    let room = λ (h : refuses ≡ false).
      room_for camera id (keys s.pending) (values s.sessions) (ground arith) in
    elim (Bool-cases refuses) [
      | inl e ↦ inl (simp e refl)
      | inr e ↦ inr (record { address = s.next; ingest_id = id }, simp e refl, room e)
    ]

module _ (p : Session → Bool) (n : ℕ) (counted : IsCounted p n) where
  begun-IsWithin : (w : World) (r : Ingest ⊎ Error) → IsWithin p n w → IsWithin p n (begun w r)
  unfolding begun
  begun-IsWithin w (inr e) h = h
  begun-IsWithin w (inl ing) (r, h) = elim (counted w.server ing.id) [
    | inl e ↦ subst (λ x. IsWithin p n (entered w x)) (sym e) (r, h)
    | inr (session, e, room) ↦
        let fewer = tally-Sub p r in
        let within : tally p (values w.server.sessions) + tally p (session ∷ w.negotiating) ≤ n =
          elim room [ inl here ↦ ground arith | inr none_here ↦ ground arith ] in
        subst (λ x. IsWithin p n (entered w x)) (sym e) (keep session r, within)
  ]

  committed-IsWithin :
      (w : World) (session : Session) (resource : String) (b : Option Bool)
      → IsWithin p n w
      → among session w.negotiating ≡ true
      → IsWithin p n (record {
        server = (commit_if b w.server session resource).0;
        negotiating = without session w.negotiating;
      })
  unfolding commit_if
  committed-IsWithin w session resource none (r, h) e =
      (leave-Sub session r, omega (arith, tally-without p session w.negotiating))
  committed-IsWithin w session resource (some false) (r, h) e =
      (leave-Sub session r, omega (arith, tally-without p session w.negotiating))
  committed-IsWithin w session resource (some true) (r, h) e = (
    leave-Sub session r,
    omega (
      arith,
      tally-put p resource session w.server.sessions,
      tally-without-among p session w.negotiating e,
    ),
  )

  attached-IsWithin :
      (w : World) (session : Session) (resource : String)
      → IsWithin p n w
      → IsWithin p n (attached w session resource)
  unfolding attached
  attached-IsWithin w session resource (r, h) = elim (Bool-cases (among session w.negotiating)) [
    | inr e ↦ simp e (r, h)
    | inl e ↦
        simp e (committed-IsWithin w session resource (find session w.server.pending) (r, h) e)
  ]

  step-IsWithin : (w : World) (e : Event) → IsWithin p n w → IsWithin p n (step w e)
  unfolding step release_reservation close_ingest teardown forget close
  step-IsWithin w (begin c key receives) h = begun-IsWithin w (admit c key receives) h
  step-IsWithin w (attach session resource) h = attached-IsWithin w session resource h
  step-IsWithin w (leave session) (r, h) = (
    subst (Sub (without session w.negotiating)) (sym (keys-remove session w.server.pending))
        (without-Sub session r),
    omega (arith, tally-without p session w.negotiating),
  )
  step-IsWithin w (close_camera id) (r, h) = (
    subst (Sub w.negotiating) (sym (keys-cancel id w.server.pending)) r,
    omega (arith, tally-without_ingest p id w.server.sessions),
  )
  step-IsWithin w (tear_down resource closes) (r, h) =
      (r, omega (arith, tally-remove p resource w.server.sessions))
  step-IsWithin w (lost resource) (r, h) =
      (r, omega (arith, tally-remove p resource w.server.sessions))
  step-IsWithin w shut (r, h) =
      (subst (Sub w.negotiating) (sym (keys-cancel_all w.server.pending)) r, omega arith)

  run-IsWithin : (w : World) (es : List Event) → IsWithin p n w → IsWithin p n (run w es)
  run-IsWithin w [] h = h
  run-IsWithin w (e ∷ es) h = run-IsWithin (step w e) es (step-IsWithin w e h)

length_tally : (l : List Session) → tally (λ s. true) l ≡ length l
length_tally [] = refl
length_tally (s ∷ l) = omega (arith, length_tally l)

-- Over any interleaving of the calls from a new server, the viewers and the calls that may still become
-- viewers are at most 64 together, and at most 8 for any one camera.
pub subscribers_limited :
    (es : List Event) (camera : String)
    → let w = run new_world es in
      (length w.server.sessions + length w.negotiating ≤ max_subscribers)
      × (tally (of_ingest camera) (values w.server.sessions)
            + tally (of_ingest camera) w.negotiating
          ≤ max_subscribers_per_ingest)
subscribers_limited es camera =
    let w = run new_world es in
    let (_, all) =
      run-IsWithin (λ s. true) max_subscribers total-IsCounted new_world es (done, omega arith) in
    let (_, here) =
      run-IsWithin (of_ingest camera) max_subscribers_per_ingest (camera-IsCounted camera) new_world
        es (done, omega arith) in
    (omega (arith, all, length-values-tally w.server.sessions, length_tally w.negotiating), here)
