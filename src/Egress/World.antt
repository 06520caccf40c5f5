-- ===== src/Egress/World.antt =====
-- The server of internal/egress/whep.go and the calls in progress. `Subscribe` is cut where it gives the
-- mutex back, so a sequence of events is an interleaving of its calls with each other and with the rest.
pub mod Limits
pub mod Revoked
use Prim.Native.String.{String}
use waga_strim.Base.{
  Bool, true, false, Option, none, some, List, [], ◌∷◌, ◌⊎◌, inl, inr, if◌then◌else◌,
}
use waga_strim.Config.{Ingest, Config}
use waga_strim.Egress.{
  Session, Server, Error, new_server, admit, reserve, commit, release_reservation, close_ingest,
  teardown, forget, close,
}
use waga_strim.Egress.Tally.{without, among}

-- `negotiating` are the sessions of the calls between their reservation and their commit.
pub record World : Type 0 where
  pub server : Server
  pub negotiating : List Session

abbrev pub new_world : World
new_world = record { server = new_server; negotiating = [] }

-- A call begins, with the settings that `Resolve` reads, which may be older than the last change, a key
-- and the direction of its offer; a session is committed under a resource; a call returns, whatever came
-- of it; and the operations that end sessions.
pub data Event : Type 0 where
  begin : Config → String → Option Bool → Event
  attach : Session → String → Event
  leave : Session → Event
  close_camera : String → Event
  tear_down : String → Bool → Event
  lost : String → Event
  shut : Event

abbrev pub entered : World → Server × Option Session → World
entered w (s, none) = record w { server = s }
entered w (s, some session) = record { server = s; negotiating = session ∷ w.negotiating }

-- `Subscribe`, up to its reservation.
unfoldable pub begun : World → Ingest ⊎ Error → World
begun w (inl ing) = entered w (reserve w.server ing.id)
begun w (inr e) = w

-- The commit of `negotiate`, which a call reaches once.
unfoldable pub attached : World → Session → String → World
attached w session resource =
    if among session w.negotiating
    then record {
      server = (commit w.server session resource).0;
      negotiating = without session w.negotiating;
    }
    else w

unfoldable pub step : World → Event → World
step w (begin c key receives) = begun w (admit c key receives)
step w (attach session resource) = attached w session resource
step w (leave session) = record {
  server = release_reservation w.server session;
  negotiating = without session w.negotiating;
}
step w (close_camera id) = record w { server = (close_ingest w.server id).0 }
step w (tear_down resource closes) = record w { server = (teardown w.server resource closes).0 }
step w (lost resource) = record w { server = forget w.server resource }
step w shut = record w { server = (close w.server).0 }

abbrev pub run : World → List Event → World
run w [] = w
run w (e ∷ es) = run (step w e) es
