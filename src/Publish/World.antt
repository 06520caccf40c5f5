-- ===== src/Publish/World.antt =====
-- The server of internal/ingest/whip.go and the calls of `negotiate` in progress, cut where they give the
-- mutex back. A sequence of events is an interleaving of the calls with each other and with the rest;
-- `Teardown`, `CloseIngest`, `Close` and the callback of a failed peer stop a session, at any time.
pub mod Forget
pub mod Orderly
pub mod Calls
pub mod Install
pub mod Moves
pub mod Owner
use Prim.Native.String.{String}
use waga_strim.Base.{
  ℕ, Bool, true, false, not, ltb, Option, none, some, List, [], ◌∷◌, ◌⊎◌, inl, inr, if◌then◌else◌,
}
use waga_strim.Config.{Ingest, Config}
use waga_strim.Publish.{
  Once, idle, cleaning, finished, Server, Error, new_server, member, update, admit, reserve,
  release, clear_previous, install, begin_stop, end_stop, close,
}

-- Where a call of `negotiate` stands: it has reserved its camera; `Teardown` is called with a resource;
-- `stopOnce` of a session is waited for; the camera is cleared; the session is installed.
pub data Phase : Type 0 where
  entered cleared installed : Phase
  replacing waiting : ℕ → Phase

pub record Call : Type 0 where
  pub ingest_id : String
  pub phase : Phase

-- The calls have numbers.
pub record World : Type 0 where
  pub server : Server
  pub calls : ℕ → Option Call

abbrev pub new_world : World
new_world = record { server = new_server; calls = λ c. none }

pub data Event : Type 0 where
  -- `Publish` up to the reservation of `negotiate`, with the settings that `Resolve` reads, which may be
  -- older than the last change.
  enter : ℕ → Config → String → Option Bool → Event
  -- `clearPrevious`, its peer connected or not.
  look : ℕ → Bool → Event
  -- The lookup of `Teardown`.
  find_session : ℕ → Event
  -- The return of `stopOnce`.
  resume : ℕ → Event
  put_in leave : ℕ → Event
  -- The two halves of `stopSession`.
  stop stopped : ℕ → Event
  shut : Event

abbrev pub with_call : World → ℕ → Call → World
with_call w c x = record w { calls = update w.calls c (some x) }

abbrev pub at_phase : World → ℕ → Call → Phase → World
at_phase w c x phase = with_call w c (record x { phase = phase })

abbrev pub returned : World → ℕ → String → World
returned w c id = record { server = release w.server id; calls = update w.calls c none }

abbrev pub reserved : World → ℕ → String → Server × Option Error → World
reserved w c id (s, some e) = w
reserved w c id (s, none) =
    with_call (record w { server = s }) c (record { ingest_id = id; phase = entered })

unfoldable pub entering : World → ℕ → Option Call → Ingest ⊎ Error → World
entering w c (some x) r = w
entering w c none (inr e) = w
entering w c none (inl ing) = reserved w c ing.id (reserve w.server ing.id)

-- `clearPrevious` with its error, which ends the call.
abbrev pub looked : World → ℕ → Call → Option ℕ ⊎ Error → World
looked w c x (inr e) = returned w c x.ingest_id
looked w c x (inl none) = at_phase w c x cleared
looked w c x (inl (some r)) = at_phase w c x (replacing r)

unfoldable pub look_in : World → ℕ → Call → Phase → Bool → World
look_in w c x entered connected = looked w c x (clear_previous w.server x.ingest_id connected)
look_in w c x cleared connected = w
look_in w c x installed connected = w
look_in w c x (replacing r) connected = w
look_in w c x (waiting r) connected = w

unfoldable pub find_in : World → ℕ → Call → Phase → World
find_in w c x entered = w
find_in w c x cleared = w
find_in w c x installed = w
find_in w c x (replacing r) =
    if member r w.server.sessions then at_phase w c x (waiting r) else at_phase w c x cleared
find_in w c x (waiting r) = w

unfoldable pub once_over : World → ℕ → Call → Once → World
once_over w c x idle = w
once_over w c x (cleaning owned) = w
once_over w c x finished = at_phase w c x cleared

unfoldable pub resume_in : World → ℕ → Call → Phase → World
resume_in w c x entered = w
resume_in w c x cleared = w
resume_in w c x installed = w
resume_in w c x (replacing r) = w
resume_in w c x (waiting r) = once_over w c x (w.server.heap r).once

abbrev pub put_at : World → ℕ → Call → Server × Option Error → World
put_at w c x (s, some e) = returned w c x.ingest_id
put_at w c x (s, none) = at_phase (record w { server = s }) c x installed

unfoldable pub put_in_call : World → ℕ → Call → Phase → World
put_in_call w c x entered = w
put_in_call w c x cleared = put_at w c x (install w.server x.ingest_id)
put_in_call w c x installed = w
put_in_call w c x (replacing r) = w
put_in_call w c x (waiting r) = w

unfoldable pub on_call : Option Call → World → (Call → World) → World
on_call none w next = w
on_call (some x) w next = next x

unfoldable pub step : World → Event → World
step w (enter c settings key sends) = entering w c (w.calls c) (admit settings key sends)
step w (look c connected) = on_call (w.calls c) w (λ x. look_in w c x x.phase connected)
step w (find_session c) = on_call (w.calls c) w (λ x. find_in w c x x.phase)
step w (resume c) = on_call (w.calls c) w (λ x. resume_in w c x x.phase)
step w (put_in c) = on_call (w.calls c) w (λ x. put_in_call w c x x.phase)
step w (leave c) = on_call (w.calls c) w (λ x. returned w c x.ingest_id)
step w (stop r) =
    if ltb r w.server.next
    then record w { server = begin_stop (w.server.heap r).once w.server r }
    else w
step w (stopped r) = record w { server = end_stop (w.server.heap r).once w.server r }
step w shut = record w { server = (close w.server).0 }

abbrev pub run : World → List Event → World
run w [] = w
run w (e ∷ es) = run (step w e) es
