-- ===== src/Egress/World/Revoked.antt =====
-- `CloseIngest` and `Close` of internal/egress/whep.go, and the calls that are in progress.
use Prim.Native.String.{String}
use waga_strim.Base.{
  ℕ, ◌+◌, ◌≤◌, ◌≡◌, ◌≢◌, refl, sym, ap, ◌∙◌, inl, inr, ◌⊎◌, Bool, true, false, ◌&&◌, ◌||◌, leb, ltb,
  Option, none, some, List, [], ◌∷◌, arith, length, Bool-cases,
}
use waga_strim.Base.Maps.{text_key, keys, find, remove, find-remove, Table}
use waga_strim.Egress.{
  max_subscribers, max_subscribers_per_ingest, Session, Server, values, tally, of_ingest, admit,
  reserve, commit_if, close_ingest, cancel, cancel_all, without_ingest, close, teardown, forget,
  release_reservation, session_key, same_session, same_session_iff,
}
use waga_strim.Egress.Tally.{among, without, tally-put, tally-remove, tally-without_ingest}
use waga_strim.Egress.World.{
  World, Event, begin, attach, leave, close_camera, tear_down, lost, shut, entered, begun, attached,
  step, run,
}

-- No reservation of the kind is still good.
abbrev pub IsCanceled : (Session → Bool) → Table Session Bool → Type 0
IsCanceled p t = (s : Session) → p s ≡ true → find s t ≢ some true

-- No session of the kind is there, none that is negotiated becomes one, and none is reserved again.
abbrev pub IsRevoked : (Session → Bool) → World → Type 0
IsRevoked p w =
    (tally p (values w.server.sessions) ≡ 0)
    × IsCanceled p w.server.pending
    × ((w.server.closed ≡ true) ⊎ ((s : Session) → w.server.next ≤ s.address → p s ≡ false))

found-cancel :
    (id : String) (s : Session) (t : Table Session Bool)
    → find s (cancel id t) ≡ some true
    → find s t ≡ some true
unfolding cancel session_key
found-cancel id s [] f = f
found-cancel id s ((j, b) ∷ t) f = elim (Bool-cases (same_session s j)) [
  | inl e ↦ simp e (ground (arith, simp e at f))
  | inr e ↦ simp e (found-cancel id s t (simp e at f))
]

-- The reservations of the camera are cancelled.
IsCanceled-of_ingest :
    (id : String) (t : Table Session Bool) → IsCanceled (of_ingest id) (cancel id t)
unfolding cancel session_key
IsCanceled-of_ingest id [] s q f = cc
IsCanceled-of_ingest id ((j, b) ∷ t) s q f = elim (Bool-cases (same_session s j)) [
  | inl e ↦
      let same : of_ingest id s ≡ of_ingest id j = ap (of_ingest id) ((same_session_iff s j).0 e) in
      ground (arith, simp e at f)
  | inr e ↦ IsCanceled-of_ingest id t s q (simp e at f)
]

module _ (p : Session → Bool) where
  found_new :
      (s new : Session) (t : Table Session Bool)
      → p new ≡ false
      → p s ≡ true
      → find s ((new, true) ∷ t) ≡ find s t
  unfolding session_key
  found_new s new t h q = elim (Bool-cases (same_session s new)) [
    | inl e ↦ absurd (ground (arith, ap p ((same_session_iff s new).0 e)))
    | inr e ↦ simp e refl
  ]

  reserve-IsRevoked :
      (w : World) (id : String) → IsRevoked p w → IsRevoked p (entered w (reserve w.server id))
  unfolding reserve
  reserve-IsRevoked w id (empty, canceled, inl closed) = simp closed (empty, canceled, inl refl)
  reserve-IsRevoked w id (empty, canceled, inr new) =
      let s = w.server in
      let total = length s.sessions + length s.pending in
      let here = tally (of_ingest id) (keys s.pending) + tally (of_ingest id) (values s.sessions) in
      let refuses =
        s.closed || (leb max_subscribers total || leb max_subscribers_per_ingest here) in
      let session : Session = record { address = s.next; ingest_id = id } in
      elim (Bool-cases refuses) [
        | inl e ↦ simp e (empty, canceled, inr new)
        | inr e ↦ simp e (
          empty,
          λ r q f.
              canceled r q (sym (found_new r session s.pending (new session (omega arith)) q) ∙ f),
          inr (λ r h. new r (omega arith)),
        )
      ]

  committed-IsRevoked :
      (w : World) (session : Session) (resource : String) (b : Option Bool)
      → find session w.server.pending ≡ b
      → IsRevoked p w
      → IsRevoked p (record {
        server = (commit_if b w.server session resource).0;
        negotiating = without session w.negotiating;
      })
  unfolding commit_if
  committed-IsRevoked w session resource none f h = h
  committed-IsRevoked w session resource (some false) f h = h
  committed-IsRevoked w session resource (some true) f (empty, canceled, new) =
      elim (Bool-cases (p session)) [
        | inl q ↦ absurd (canceled session q f)
        | inr q ↦
            let more = tally-put p resource session w.server.sessions in
            (ground arith, canceled, new)
      ]

  attached-IsRevoked :
      (w : World) (session : Session) (resource : String)
      → IsRevoked p w
      → IsRevoked p (attached w session resource)
  unfolding attached
  attached-IsRevoked w session resource h = elim (Bool-cases (among session w.negotiating)) [
    | inr e ↦ simp e h
    | inl e ↦ simp e (committed-IsRevoked w session resource (find session w.server.pending) refl h)
  ]

  IsCanceled-remove :
      (s : Session) (t : Table Session Bool) → IsCanceled p t → IsCanceled p (remove s t)
  IsCanceled-remove s t h r q f = h r q (ground (arith, find-remove r s t))

  -- A cancelled reservation stays cancelled when others are.
  IsCanceled-cancel :
      (id : String) (t : Table Session Bool) → IsCanceled p t → IsCanceled p (cancel id t)
  IsCanceled-cancel id t h s q f = h s q (found-cancel id s t f)

  IsCanceled-cancel_all : (t : Table Session Bool) → IsCanceled p (cancel_all t)
  unfolding cancel_all
  IsCanceled-cancel_all [] r q f = cc
  IsCanceled-cancel_all ((s, b) ∷ t) r q f = let rest = IsCanceled-cancel_all t r q in ground arith

  step-IsRevoked : (w : World) (e : Event) → IsRevoked p w → IsRevoked p (step w e)
  unfolding step release_reservation close_ingest teardown forget close begun
  step-IsRevoked w (begin c key receives) h =
      elim (admit c key receives) as (λ r. IsRevoked p (begun w r)) [
        | inl ing ↦ reserve-IsRevoked w ing.id h
        | inr e ↦ h
      ]
  step-IsRevoked w (attach session resource) h = attached-IsRevoked w session resource h
  step-IsRevoked w (leave session) (empty, canceled, new) =
      (empty, IsCanceled-remove session w.server.pending canceled, new)
  step-IsRevoked w (close_camera id) (empty, canceled, new) =
      let fewer = tally-without_ingest p id w.server.sessions in
      (omega arith, IsCanceled-cancel id w.server.pending canceled, new)
  step-IsRevoked w (tear_down resource closes) (empty, canceled, new) =
      let fewer = tally-remove p resource w.server.sessions in (omega arith, canceled, new)
  step-IsRevoked w (lost resource) (empty, canceled, new) =
      let fewer = tally-remove p resource w.server.sessions in (omega arith, canceled, new)
  step-IsRevoked w shut (empty, canceled, new) =
      (refl, IsCanceled-cancel_all w.server.pending, inl refl)

  run-IsRevoked : (w : World) (es : List Event) → IsRevoked p w → IsRevoked p (run w es)
  run-IsRevoked w [] h = h
  run-IsRevoked w (e ∷ es) h = run-IsRevoked (step w e) es (step-IsRevoked w e h)

-- A session of the camera that was reserved before an address was given out.
abbrev pub reserved_before : String → ℕ → Session → Bool
reserved_before id address s = ltb s.address address && of_ingest id s

narrower :
    (id : String) (address : ℕ) (l : List Session)
    → tally (reserved_before id address) l ≤ tally (of_ingest id) l
narrower id address [] = omega arith
narrower id address (s ∷ l) = ground (arith, narrower id address l)

none_left :
    (id : String) (t : Table String Session)
    → tally (of_ingest id) (values (without_ingest id t)) ≡ 0
unfolding without_ingest
none_left id [] = refl
none_left id ((r, s) ∷ t) = ground (arith, none_left id t)

empty_of : (t : Table String Session) → tally (λ s. true) (values t) ≡ 0 → t ≡ []
empty_of [] h = refl
empty_of ((r, s) ∷ t) h = absurd (omega arith)

-- Once a camera is closed, whatever follows and in whatever order: no viewer of the camera whose session
-- was reserved before is attached, not even one whose negotiation was in progress.
pub closed_camera_revoked :
    (w : World) (id : String) (es : List Event)
    → let after = run (step w (close_camera id)) es in
      tally (reserved_before id w.server.next) (values after.server.sessions) ≡ 0
unfolding step close_ingest
closed_camera_revoked w id es =
    let p = reserved_before id w.server.next in
    let fewer = narrower id w.server.next (values (without_ingest id w.server.sessions)) in
    let left = none_left id w.server.sessions in
    let canceled : IsCanceled p (cancel id w.server.pending) =
      λ s q. IsCanceled-of_ingest id w.server.pending s (ground arith) in
    (run-IsRevoked p (step w (close_camera id)) es
      (omega arith, canceled, inr (λ s h. ground arith))).0

still_closed :
    (s : Server)
    → (s.closed ≡ true) ⊎ ((r : Session) → s.next ≤ r.address → true ≡ false)
    → s.closed ≡ true
still_closed s (inl h) = h
still_closed s (inr h) =
    let never = h (record { address = s.next; ingest_id = "" }) (omega arith) in absurd cc

refused : (s : Server) (id : String) → s.closed ≡ true → reserve s id ≡ (s, none)
unfolding reserve
refused s id h = simp h refl

-- Once the server is closed, whatever follows and in whatever order: no viewer is attached, and a call
-- that reserves is refused.
pub closed_server_empty :
    (w : World) (es : List Event) (id : String)
    → let after = run (step w shut) es in
      (after.server.sessions ≡ []) × (reserve after.server id ≡ (after.server, none))
unfolding step close
closed_server_empty w es id =
    let after = run (step w shut) es in
    let (empty, _, how) =
      run-IsRevoked (λ s. true) (step w shut) es
        (refl, IsCanceled-cancel_all (λ s. true) w.server.pending, inl refl) in
    let closed = still_closed after.server how in
    (empty_of after.server.sessions empty, refused after.server id closed)
