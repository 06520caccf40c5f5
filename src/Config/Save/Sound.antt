-- ===== src/Config/Save/Sound.antt =====
-- The limits of the settings over any run of internal/config.
use Prim.Native.String.{String}
use waga_strim.Base.{
  suc, ◌≡◌, refl, sym, ap, subst, inl, inr, Bool, true, false, Bool-cases, Option, none, some, List,
  [], ◌∷◌,
}
use waga_strim.Base.Int.{ℤ, ltb_ℤ}
use waga_strim.Dynamic.Options.{zero_options}
use waga_strim.Dynamic.Options.Laws.{normalize-IsNormal}
use waga_strim.Config.{Ingest, Config, Error, delay_default_ms}
use waga_strim.Config.Ingests.{offered, keep_codecs}
use waga_strim.Config.Ingests.Valid.{
  IsValid, IsSound, clamp_delay_range, keep_codecs_idem, map-AllValid, append-AllValid,
  take-AllValid, drop-AllValid, set-AllValid, normalise-IsSound,
}
use waga_strim.Config.Save.{
  Attempt, Daemon, new_ingest, no_ingest, Change, sync_group, label, codecs, delay, dynamic_delay,
  changed,
}
use mathlib.Core.Option.{some-injective}
use waga_strim.Config.{current_version}
use waga_strim.Config.Keys.Resolve.{impossible}
use waga_strim.Config.Load.{Contents, absent, unreadable, text, new_config, accept, load}
use waga_strim.Config.Save.Atomic.{
  Op, public_host, autostart, control_access, control_token, add, replace, remove, change, reset,
  perform, Intends, perform-Settles,
}

changed-IsValid :
    (floor_ms : Option ℤ) (how : Change) (ing : Ingest)
    → IsValid floor_ms ing
    → IsValid floor_ms (changed floor_ms how ing)
unfolding changed
changed-IsValid floor_ms (sync_group group) ing v = v
changed-IsValid floor_ms (label name) ing v = v
changed-IsValid floor_ms (codecs names) ing (low, high, n, c) =
    (low, high, n, keep_codecs_idem names)
changed-IsValid floor_ms (delay ms) ing (low, high, n, c) =
    let (low', high') = clamp_delay_range floor_ms ms in
    (low', high', normalize-IsNormal ing.options _, c)
changed-IsValid floor_ms (dynamic_delay options) ing (low, high, n, c) =
    (low, high, normalize-IsNormal options ing.delay_ms, c)

new-IsValid :
    (floor_ms : Option ℤ) (id name s r : String)
    → IsValid floor_ms (new_ingest floor_ms id name s r)
unfolding keep_codecs offered
new-IsValid floor_ms id name s r =
    let (low, high) = clamp_delay_range floor_ms delay_default_ms in
    (low, high, normalize-IsNormal zero_options _, refl)

IsSound-Intends : (c : Config) (op : Op) → IsSound c → Intends IsSound c op
IsSound-Intends c (public_host host) v = v
IsSound-Intends c (autostart on) v = v
IsSound-Intends c (control_access scope on) v = (v, v)
IsSound-Intends c (control_token none) v = tt
IsSound-Intends c (control_token (some secret)) v = v
IsSound-Intends c (add name none) v = tt
IsSound-Intends c (add name (some (s, r, id))) (f, v) =
    (f, append-AllValid c.floor_ms c.ingests _ v (new-IsValid c.floor_ms id name s r, tt))
IsSound-Intends c (replace next) (f, v) = (f, map-AllValid c.floor_ms next)
IsSound-Intends c (remove id) (f, v) = λ n. (
  f,
  append-AllValid c.floor_ms _ _ (take-AllValid c.floor_ms n c.ingests v)
      (drop-AllValid c.floor_ms (suc n) c.ingests v),
)
IsSound-Intends c (change id how) (f, v) = λ n. (
  f,
  set-AllValid c.floor_ms (changed c.floor_ms how) c.ingests n no_ingest
      (changed-IsValid c.floor_ms how) v,
)
IsSound-Intends c (reset id none) v = tt
IsSound-Intends c (reset id (some fresh)) (f, v) = λ n. (
  f,
  set-AllValid c.floor_ms (λ ing. record ing { sender_key = fresh }) c.ingests n no_ingest
      (λ ing h. h) v,
)

perform-IsSound :
    (a : Attempt) (d : Daemon) (op : Op) → IsSound d.config → IsSound (perform a d op).0.config
perform-IsSound a d op v = elim (perform-Settles IsSound a d op (IsSound-Intends d.config op v)) [
  | inl same ↦ subst (λ d'. IsSound d'.config) (sym same) v
  | inr (_, _, sound) ↦ sound
]

-- The daemon after a run of operations, each with the fate of its save.
abbrev pub run : Daemon → List (Attempt × Op) → Daemon
run d [] = d
run d ((a, op) ∷ ops) = run (perform a d op).0 ops

run-IsSound :
    (d : Daemon) (ops : List (Attempt × Op)) → IsSound d.config → IsSound (run d ops).config
run-IsSound d [] v = v
run-IsSound d ((a, op) ∷ ops) v = run-IsSound (perform a d op).0 ops (perform-IsSound a d op v)

accept-IsSound :
    (parsed : Option Config) (d : Daemon) (e : Option Error)
    → accept parsed ≡ (some d, e)
    → IsSound d.config
unfolding accept
accept-IsSound none d e h = absurd (impossible (sym (ap (λ r. r.0) h)))
accept-IsSound (some c) d e h = elim (Bool-cases (ltb_ℤ current_version c.version)) [
  | inl new ↦ absurd (impossible (sym (ap (λ r. r.0) (simp new at h))))
  | inr old ↦
      subst (λ (d' : Daemon). IsSound d'.config)
        (some-injective _ d (ap (λ r. r.0) (simp old at h))) (normalise-IsSound c)
]

load-IsSound :
    (parse : String → Config → Option Config) (a : Attempt) (located : Bool) (contents : Contents)
    (d : Daemon) (e : Option Error)
    → load parse a located contents ≡ (some d, e)
    → IsSound d.config
unfolding load
load-IsSound parse a false contents d e h = absurd (impossible (sym (ap (λ r. r.0) h)))
load-IsSound parse a true absent d e h =
    subst (λ (d' : Daemon). IsSound d'.config) (some-injective _ d (ap (λ r. r.0) h)) (tt, tt)
load-IsSound parse a true unreadable d e h = absurd (impossible (sym (ap (λ r. r.0) h)))
load-IsSound parse a true (text raw) d e h = accept-IsSound (parse raw new_config) d e h

-- Whatever a load finds and gives, and after any operations, whether their saves succeed or fail: the
-- floor is 0 to 10000 ms where one is set; each camera's delay is at least the floor and at most 10000
-- ms, its options are normal for that delay, and its codecs are one or more that the relay can carry, in
-- order of preference.
pub loaded_run-IsSound :
    (parse : String → Config → Option Config) (a : Attempt) (located : Bool) (contents : Contents)
    (d : Daemon) (e : Option Error) (ops : List (Attempt × Op))
    → load parse a located contents ≡ (some d, e)
    → IsSound (run d ops).config
loaded_run-IsSound parse a located contents d e ops h =
    run-IsSound d ops (load-IsSound parse a located contents d e h)
