-- ===== src/Publish.antt =====
-- The publishing sessions of internal/ingest/whip.go. A session is named by its resource, a key of 16
-- random bytes, which stands for its pointer as well: resources are numbers that are given out once.
-- The peer, the counter of bytes and the failover are left out; the mutex makes each locked section one
-- operation.
pub mod World
mod Tests
use Prim.Native.String.{String}
use waga_strim.Base.{
  ℕ, ◌+◌, Bool, true, false, not, ◌&&◌, ◌||◌, ◌==◌, Option, none, some, List, [], ◌∷◌, ◌⊎◌, inl,
  inr, if◌then◌else◌,
}
use waga_strim.Base.Maps.{text_key, Table, find, put, remove}
use waga_strim.Config.{Ingest, Config, Role, sender, receiver}
use waga_strim.Config.Ingests.{resolve}

pub data Error : Type 0 where
  unknown_key wrong_role bad_offer not_sending already_live no_session : Error

-- `stopOnce`: not yet called; running, with what `owned` is; and returned.
pub data Once : Type 0 where
  idle : Once
  cleaning : Bool → Once
  finished : Once

pub record Session : Type 0 where
  pub ingest_id : String
  pub ended : Bool
  pub once : Once

-- `heap` is the sessions behind the pointers, and `next` the next resource. `sessions` is the map from a
-- resource to its session, so a list of resources.
pub record Server : Type 0 where
  pub sessions : List ℕ
  pub by_ingest : Table String ℕ
  pub pending : Table String Bool
  pub closed : Bool
  pub heap : ℕ → Session
  pub next : ℕ

abbrev pub new_session : String → Session
new_session id = record { ingest_id = id; ended = false; once = idle }

-- `NewServer`
abbrev pub new_server : Server
new_server = record {
  sessions = [];
  by_ingest = [];
  pending = [];
  closed = false;
  heap = λ r. new_session "";
  next = 0;
}

abbrev pub member : ℕ → List ℕ → Bool
member r [] = false
member r (q ∷ l) = if r == q then true else member r l

abbrev pub dropped : ℕ → List ℕ → List ℕ
dropped r [] = []
dropped r (q ∷ l) = let rest = dropped r l in if r == q then rest else q ∷ rest

abbrev pub update {ℓ} : {A : Type ℓ} → (ℕ → A) → ℕ → A → ℕ → A
update f r a q = if q == r then a else f q

abbrev pub names : Option ℕ → ℕ → Bool
names none r = false
names (some q) r = q == r

-- What `Publish` asks of the key and the offer. `sends` is the answer of `peerpkg.Direction`, `none`
-- where it fails.
unfoldable pub admitted : Option (Ingest × Role) → Option Bool → Ingest ⊎ Error
admitted none sends = inr unknown_key
admitted (some (ing, receiver)) sends = inr wrong_role
admitted (some (ing, sender)) none = inr bad_offer
admitted (some (ing, sender)) (some false) = inr not_sending
admitted (some (ing, sender)) (some true) = inl ing

abbrev pub admit : Config → String → Option Bool → Ingest ⊎ Error
admit c key sends = admitted (resolve c key) sends

abbrev pub is_pending : Option Bool → Bool
is_pending none = false
is_pending (some b) = b

-- The first locked section of `negotiate`.
unfoldable pub reserve : Server → String → Server × Option Error
reserve s id =
    if s.closed || is_pending (find id s.pending)
    then (s, some already_live)
    else (record s { pending = put id true s.pending }, none)

-- Its deferred section.
unfoldable pub release : Server → String → Server
release s id = record s { pending = remove id s.pending }

-- `currentLocked`
unfoldable pub current : Server → ℕ → Bool
current s r =
    let session = s.heap r in
    not session.ended && (names (find session.ingest_id s.by_ingest) r && member r s.sessions)

-- What `clearPrevious` does with the session that it finds: nothing where there is none, an error where
-- it is connected and not stopping, and else a `Teardown` of it.
unfoldable pub previous_of : Server → Bool → Option ℕ → Option ℕ ⊎ Error
previous_of s connected none = inl none
previous_of s connected (some r) =
    if not (member r s.sessions)
    then inl none
    else if not (s.heap r).ended && connected
    then inr already_live
    else inl (some r)

unfoldable pub clear_previous : Server → String → Bool → Option ℕ ⊎ Error
clear_previous s id connected = previous_of s connected (find id s.by_ingest)

-- The last locked section of `negotiate`.
unfoldable pub install : Server → String → Server × Option Error
install s id = if s.closed then (s, some no_session) else (
  record s {
    sessions = s.next ∷ s.sessions;
    by_ingest = put id s.next s.by_ingest;
    heap = update s.heap s.next (new_session id);
    next = s.next + 1;
  },
  none,
)

-- `stopSession`, up to its clean-up.
unfoldable pub begin_stop : Once → Server → ℕ → Server
begin_stop idle s r = record s {
  heap = update s.heap r (record (s.heap r) { ended = true; once = cleaning (current s r) });
}
begin_stop (cleaning owned) s r = s
begin_stop finished s r = s

-- `forget`
unfoldable pub forget : Server → ℕ → Server
forget s r =
    let id = (s.heap r).ingest_id in
    let there = member r s.sessions in
    record s {
      by_ingest =
          if there && names (find id s.by_ingest) r then remove id s.by_ingest else s.by_ingest;
      sessions = if there then dropped r s.sessions else s.sessions;
    }

abbrev pub finish : Server → ℕ → Server
finish s r = record s { heap = update s.heap r (record (s.heap r) { once = finished }) }

-- `stopSession`, from its clean-up on. The clean-up calls the statistics, the relay and the viewers where
-- the session owned its camera.
unfoldable pub end_stop : Once → Server → ℕ → Server
end_stop idle s r = s
end_stop (cleaning owned) s r = finish (forget s r) r
end_stop finished s r = s

-- The first section of `Close`, and the sessions that it goes on to stop.
unfoldable pub close : Server → Server × List ℕ
close s = (record s { closed = true }, s.sessions)
