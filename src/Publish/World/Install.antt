-- ===== src/Publish/World/Install.antt =====
-- `negotiate` of internal/ingest/whip.go, where it installs its session.
use Prim.Native.String.{String}
use waga_strim.Base.{ℕ, ◌+◌, ◌≡◌, ◌≢◌, refl, sym, ◌∙◌, Option, some, ◌∷◌, arith}
use waga_strim.Base.Maps.{text_key, find, put, find-put}
use waga_strim.Publish.{Server, new_session, update}
use waga_strim.Publish.World.{Phase, entered, cleared, installed, replacing, waiting, Call}
use waga_strim.Publish.World.Orderly.{IsOrderly}
use waga_strim.Publish.World.Forget.{not_same}
use waga_strim.Publish.World.Calls.{Promise, AreCalls, moved-AreCalls}

-- The server with a new session.
abbrev pub with_new : Server → String → Server
with_new s id = record s {
  sessions = s.next ∷ s.sessions;
  by_ingest = put id s.next s.by_ingest;
  heap = update s.heap s.next (new_session id);
  next = s.next + 1;
}

found_before :
    (s : Server) (id id' : String) (r : ℕ)
    → id' ≢ id
    → find id' (put id s.next s.by_ingest) ≡ some r
    → find id' s.by_ingest ≡ some r
unfolding text_key
found_before s id id' r apart f =
    let other = not_same id' id apart in
    sym (find-put id' id s.next s.by_ingest ∙ simp other refl) ∙ f

-- A call for another camera keeps its promise.
with_new-Promise :
    (s : Server) (id id' : String) (phase : Phase)
    → id' ≢ id
    → IsOrderly s
    → Promise s id' phase
    → Promise (with_new s id) id' phase
with_new-Promise s id id' entered apart o h = tt
with_new-Promise s id id' installed apart o h = tt
with_new-Promise s id id' cleared apart o h = λ r f.
    let before = found_before s id id' r apart f in
    let below = o.issued id' r before in let out = h r before in ground arith
with_new-Promise s id id' (replacing q) apart o h = λ r f. h r (found_before s id id' r apart f)
with_new-Promise s id id' (waiting q) apart o h = λ r f. h r (found_before s id id' r apart f)

pub with_new-AreCalls :
    (s : Server) (calls : ℕ → Option Call) (c : ℕ) (x : Call)
    → calls c ≡ some x
    → IsOrderly s
    → AreCalls s calls
    → AreCalls (with_new s x.ingest_id) (update calls c (some (record x { phase = installed })))
with_new-AreCalls s calls c x e o a =
    moved-AreCalls s (with_new s x.ingest_id) calls c x (record x { phase = installed }) e refl refl
      tt
      (λ d y other f.
        with_new-Promise s x.ingest_id y.ingest_id y.phase
          (λ same. let one = a.alone d c y x f e same in absurd (ground arith)) o (a.holds d y f))
      a
