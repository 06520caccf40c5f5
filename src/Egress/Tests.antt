-- ===== src/Egress/Tests.antt =====
-- Runs of internal/egress/whep.go, and its theorems at concrete servers.
use waga_strim.Egress.{
  without_ingest, cancel, close_ingest, session_key, commit_if, release_reservation, admitted,
  Session, values, tally, of_ingest, max_subscribers, max_subscribers_per_ingest, admit,
  unknown_key, wrong_role, not_receiving, reserve,
}
use waga_strim.Egress.World.{
  attached, begun, World, Event, begin, attach, leave, close_camera, shut, new_world, step, run,
}
use waga_strim.Config.Ingests.{matched, resolve_from, resolve}
use waga_strim.Base.{ℕ, ◌+◌, ◌≤◌, ◌≡◌, refl, true, false, none, some, List, [], ◌∷◌, length, inr}
use waga_strim.Config.{Ingest, Config}
use waga_strim.Config.Load.{new_config}
use waga_strim.Config.Save.{no_ingest}
use waga_strim.Egress.World.Limits.{subscribers_limited}
use waga_strim.Egress.World.Revoked.{reserved_before, closed_camera_revoked, closed_server_empty}

abbrev camera : Ingest
camera = record no_ingest { id = "front"; sender_key = "s_1"; receiver_key = "r_1" }

abbrev settings : Config
settings = record new_config { ingests = camera ∷ [] }

abbrev viewer : ℕ → Session
viewer n = record { address = n; ingest_id = "front" }

abbrev ask : Event
ask = begin settings "r_1" (some true)

abbrev three : List Event
three = ask ∷ ask ∷ attach (viewer 0) "a" ∷ leave (viewer 0) ∷ ask ∷ []

sender_key_refused : admit settings "s_1" (some true) ≡ inr wrong_role
unfolding admitted resolve resolve_from matched
sender_key_refused = refl

other_key_refused : admit settings "r_2" (some true) ≡ inr unknown_key
unfolding admitted resolve resolve_from matched
other_key_refused = refl

sending_refused : admit settings "r_1" (some false) ≡ inr not_receiving
unfolding admitted resolve resolve_from matched
sending_refused = refl

one_attached : (run new_world three).server.sessions ≡ ("a", viewer 0) ∷ []
unfolding step begun admitted resolve resolve_from matched reserve release_reservation attached
    commit_if session_key
one_attached = refl

two_waiting : (run new_world three).negotiating ≡ viewer 2 ∷ viewer 1 ∷ []
unfolding step begun admitted resolve resolve_from matched reserve release_reservation attached
    commit_if session_key
two_waiting = refl

-- Its commit comes after the camera was closed.
late_commit :
    (run new_world (ask ∷ close_camera "front" ∷ attach (viewer 0) "a" ∷ [])).server.sessions ≡ []
unfolding step attached begun admitted resolve resolve_from matched reserve commit_if close_ingest
    cancel session_key without_ingest
late_commit = refl

ninth_refused :
    length (run new_world (ask ∷ ask ∷ ask ∷ ask ∷ ask ∷ ask ∷ ask ∷ ask ∷ ask ∷ [])).negotiating
    ≡ 8
unfolding step begun admitted resolve resolve_from matched reserve
ninth_refused = refl

abbrev before : World
before = run new_world three

subscribers_limited_example :
    (length before.server.sessions + length before.negotiating ≤ max_subscribers)
    × (tally (of_ingest "front") (values before.server.sessions)
          + tally (of_ingest "front") before.negotiating
        ≤ max_subscribers_per_ingest)
subscribers_limited_example = subscribers_limited three "front"

closed_camera_revoked_example :
    let after =
      run
        (step before (close_camera "front"))
        (attach (viewer 1) "b" ∷ ask ∷ attach (viewer 3) "c" ∷ []) in
    tally (reserved_before "front" before.server.next) (values after.server.sessions) ≡ 0
closed_camera_revoked_example =
    closed_camera_revoked before "front" (attach (viewer 1) "b" ∷ ask ∷ attach (viewer 3) "c" ∷ [])

closed_server_empty_example :
    let after = run (step before shut) (attach (viewer 1) "b" ∷ ask ∷ []) in
    (after.server.sessions ≡ []) × (reserve after.server "front" ≡ (after.server, none))
closed_server_empty_example = closed_server_empty before (attach (viewer 1) "b" ∷ ask ∷ []) "front"
