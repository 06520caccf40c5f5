-- ===== src/Egress.antt =====
-- The playback sessions of internal/egress/whep.go. `Session.peer` and `Session.Resource` are left out:
-- the peer is third-party code and the resource is the key of `sessions`. A pointer to a session is its
-- address, and its camera, which never changes. The mutex makes each locked section one operation.
pub mod Tally
pub mod World
mod Tests
use Prim.Native.String.{String}
use text.Mathlib.Text
use text.Mathlib.TextEquality.{eq_iff}
use waga_strim.Base.{
  ℕ, ◌+◌, ◌≡◌, refl, sym, ap, ap₂, ◌↔◌, ◌⊎◌, inl, inr, Bool, true, false, not, ◌&&◌, ◌||◌, ◌==◌,
  leb, Option, none, some, List, [], ◌∷◌, arith, if◌then◌else◌, length,
}
use waga_strim.Base.Maps.{text_key, Key, Table, keys, find, put, remove}
use waga_strim.Config.{Ingest, Config, Role, sender, receiver}
use waga_strim.Config.Ingests.{resolve}

abbrev pub max_subscribers : ℕ
max_subscribers = 64

abbrev pub max_subscribers_per_ingest : ℕ
max_subscribers_per_ingest = 8

pub data Error : Type 0 where
  capacity unknown_key wrong_role not_receiving offline bad_offer no_session : Error

pub record Session : Type 0 where
  pub address : ℕ
  pub ingest_id : String

abbrev pub same_session : Session → Session → Bool
same_session s t = s.address == t.address && Text.◌==◌ s.ingest_id t.ingest_id

pub same_session_iff : (s t : Session) → (same_session s t ≡ true) ↔ (s ≡ t)
same_session_iff s t = (
  λ h.
      let address : s.address ≡ t.address = ground arith in
      let camera = (eq_iff s.ingest_id t.ingest_id).0 (ground arith) in
      (λ i. record { address = address i; ingest_id = camera i }),
  λ e.
      let address : s.address ≡ t.address = ap (λ r. r.address) e in
      let camera = (eq_iff s.ingest_id t.ingest_id).1 (ap (λ r. r.ingest_id) e) in ground arith,
)

instance unfoldable pub session_key : Key Session
session_key = record { same = same_session; same_iff = same_session_iff }

-- `next` is the address of the next session.
pub record Server : Type 0 where
  pub sessions : Table String Session
  pub pending : Table Session Bool
  pub closed : Bool
  pub next : ℕ

-- `NewServer`
abbrev pub new_server : Server
new_server = record { sessions = []; pending = []; closed = false; next = 0 }

abbrev pub values : Table String Session → List Session
values [] = []
values ((r, s) ∷ t) = s ∷ values t

abbrev pub tally : (Session → Bool) → List Session → ℕ
tally p [] = 0
tally p (s ∷ l) = let rest = tally p l in if p s then 1 + rest else rest

abbrev pub of_ingest : String → Session → Bool
of_ingest id s = Text.◌==◌ s.ingest_id id

-- What `Subscribe` asks of the key and the offer. `receives` is the answer of `peerpkg.Direction`, `none`
-- where it fails.
unfoldable pub admitted : Option (Ingest × Role) → Option Bool → Ingest ⊎ Error
admitted none receives = inr unknown_key
admitted (some (ing, sender)) receives = inr wrong_role
admitted (some (ing, receiver)) none = inr bad_offer
admitted (some (ing, receiver)) (some false) = inr not_receiving
admitted (some (ing, receiver)) (some true) = inl ing

abbrev pub admit : Config → String → Option Bool → Ingest ⊎ Error
admit c key receives = admitted (resolve c key) receives

-- `reserve`; a new pointer is no key of `pending` yet.
unfoldable pub reserve : Server → String → Server × Option Session
reserve s id =
    let total = length s.sessions + length s.pending in
    let camera = tally (of_ingest id) (keys s.pending) + tally (of_ingest id) (values s.sessions) in
    let session : Session = record { address = s.next; ingest_id = id } in
    if s.closed || (leb max_subscribers total || leb max_subscribers_per_ingest camera)
    then (s, none)
    else (record s { pending = (session, true) ∷ s.pending; next = s.next + 1 }, some session)

-- `releaseReservation`
unfoldable pub release_reservation : Server → Session → Server
release_reservation s session = record s { pending = remove session s.pending }

-- The locked section of `negotiate`, on what `pending[session]` gives.
unfoldable pub commit_if : Option Bool → Server → Session → String → Server × Option Error
commit_if (some true) s session resource =
    (record s { sessions = put resource session s.sessions }, none)
commit_if (some false) s session resource = (s, some offline)
commit_if none s session resource = (s, some offline)

abbrev pub commit : Server → Session → String → Server × Option Error
commit s session resource = commit_if (find session s.pending) s session resource

-- The first loop of `CloseIngest`.
unfoldable pub cancel : String → Table Session Bool → Table Session Bool
cancel id [] = []
cancel id ((s, b) ∷ t) = (s, if of_ingest id s then false else b) ∷ cancel id t

-- Its second loop: what it leaves, and the sessions whose peers it closes.
unfoldable pub without_ingest : String → Table String Session → Table String Session
without_ingest id [] = []
without_ingest id ((r, s) ∷ t) =
    let rest = without_ingest id t in if of_ingest id s then rest else (r, s) ∷ rest

unfoldable pub doomed_of : String → Table String Session → List Session
doomed_of id [] = []
doomed_of id ((r, s) ∷ t) = let rest = doomed_of id t in if of_ingest id s then s ∷ rest else rest

-- `CloseIngest`
unfoldable pub close_ingest : Server → String → Server × List Session
close_ingest s id = (
  record s { sessions = without_ingest id s.sessions; pending = cancel id s.pending },
  doomed_of id s.sessions,
)

-- The answer of `Teardown`, where the peer closes or fails to.
abbrev pub torn_down : Option Session → Bool → Option Error
torn_down none closes = some no_session
torn_down (some session) true = none
torn_down (some session) false = some no_session

-- `Teardown`
unfoldable pub teardown : Server → String → Bool → Server × Option Error
teardown s resource closes = (
  record s { sessions = remove resource s.sessions },
  torn_down (find resource s.sessions) closes,
)

-- `forget`
unfoldable pub forget : Server → String → Server
forget s resource = record s { sessions = remove resource s.sessions }

-- The first loop of `Close`.
unfoldable pub cancel_all : Table Session Bool → Table Session Bool
cancel_all [] = []
cancel_all ((s, b) ∷ t) = (s, false) ∷ cancel_all t

-- `Close`, and the sessions whose peers it closes.
unfoldable pub close : Server → Server × List Session
close s =
    (record s { closed = true; pending = cancel_all s.pending; sessions = [] }, values s.sessions)
