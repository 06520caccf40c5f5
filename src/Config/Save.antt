-- ===== src/Config/Save.antt =====
-- The operations of internal/config that change the settings and save them. The calls of the operating
-- system are third-party: an `Attempt` says which of them succeed. `file` is what config.json holds.
pub mod Atomic
pub mod Replace
pub mod Sound
use Prim.Native.String
use Prim.Native.String.{String}
use text.Mathlib.Text
use waga_strim.Base.{
  ℕ, ◌-◌, Bool, true, false, not, ◌&&◌, Option, none, some, List, [], ◌∷◌, ◌++◌, map, if◌then◌else◌,
  get_or, set, take, drop, length, suc, zero,
}
use waga_strim.Base.Int.{ℤ, pos}
use waga_strim.Dynamic.Options.{Options, zero_options, normalize}
use waga_strim.Config.{
  Ingest, Config, Error, write_config, parse_config, generate_key, unknown_ingest, token_exists,
  delay_default_ms,
}
use waga_strim.Config.Ingests.{keep_codecs, clamp_delay, normalise_ingest}
use waga_strim.Config.Keys.{validate_ingests, stale_ingests}

pub record Attempt : Type 0 where
  pub makes_directory : Bool
  pub encodes : Bool
  pub creates : Bool
  pub writes : Bool
  pub syncs : Bool
  pub closes : Bool
  pub renames : Bool

pub record Daemon : Type 0 where
  pub config : Config
  pub file : Option Config

-- `saveLocked`: what the file holds after it, and the error.
unfoldable pub save_locked : Attempt → Config → Option Config → Option Config × Option Error
save_locked a c file =
    if not a.makes_directory
    then (file, some write_config)
    else if not a.encodes
    then (file, some write_config)
    else if not a.creates
    then (file, some write_config)
    else if not (a.writes && a.syncs)
    then (file, some write_config)
    else if not a.closes
    then (file, some write_config)
    else if not a.renames
    then (file, some write_config)
    else (some c, none)

-- What each operation does once it has changed the settings: save them, and on an error undo.
unfoldable pub settle :
    Config → (Config → Config) → Option Config × Option Error → Daemon × Option Error
settle c undo (file, none) = (record { config = c; file = file }, none)
settle c undo (file, some e) = (record { config = undo c; file = file }, some e)

abbrev pub saving : Attempt → Daemon → Config → (Config → Config) → Daemon × Option Error
saving a d c undo = settle c undo (save_locked a c d.file)

-- `SetPublicHost`
unfoldable pub set_public_host : Attempt → Daemon → String → Daemon × Option Error
set_public_host a d host =
    let previous = d.config.public_host in
    if Text.◌==◌ previous host
    then (d, none)
    else saving a d (record d.config { public_host = host })
        (λ c. record c { public_host = previous })

-- `SetAutostart`
unfoldable pub set_autostart : Attempt → Daemon → Bool → Daemon × Option Error
set_autostart a d on =
    let previous = d.config.autostart in
    saving a d (record d.config { autostart = on }) (λ c. record c { autostart = previous })

-- `SetControlAccess`
unfoldable pub set_control_access : Attempt → Daemon → String → Bool → Daemon × Option Error
set_control_access a d scope on =
    let undo = λ (c : Config). record c {
      control_lan = d.config.control_lan;
      control_remote = d.config.control_remote;
    } in
    if Text.◌==◌ scope "lan"
    then saving a d (record d.config { control_lan = some on }) undo
    else if Text.◌==◌ scope "remote"
    then saving a d (record d.config { control_remote = some on }) undo
    else (d, some parse_config)

-- `CreateControlToken`; the secret is what the random source gives, `none` where it fails.
unfoldable pub create_control_token : Attempt → Daemon → Option String → Daemon × Option Error
create_control_token a d none =
    if Text.◌==◌ d.config.control_token "" then (d, some generate_key) else (d, some token_exists)
create_control_token a d (some secret) =
    if Text.◌==◌ d.config.control_token ""
    then saving a d (record d.config { control_token = secret })
        (λ c. record c { control_token = "" })
    else (d, some token_exists)

abbrev pub new_ingest : Option ℤ → String → String → String → String → Ingest
new_ingest floor_ms id label sender_key receiver_key = record {
  options = normalize zero_options (clamp_delay floor_ms delay_default_ms);
  id = id;
  label = label;
  sender_key = sender_key;
  receiver_key = receiver_key;
  codecs = "h264" ∷ [];
  delay_ms = clamp_delay floor_ms delay_default_ms;
  sync_group = "";
}

-- `AddIngest`, of the three keys that the random source gives.
unfoldable pub add_ingest :
    Attempt → Daemon → String → Option (String × String × String) → Daemon × Option Error
add_ingest a d label none = (d, some generate_key)
add_ingest a d label (some (sender_key, receiver_key, id)) =
    let ing = new_ingest d.config.floor_ms id label sender_key receiver_key in
    saving a d (record d.config { ingests = d.config.ingests ++ (ing ∷ []) })
      (λ c. record c { ingests = take (length c.ingests - 1) c.ingests })

-- `ReplaceIngests`, once the list is validated.
unfoldable pub replace_unless :
    Option Error → Attempt → Daemon → List Ingest → Daemon × Option Error
replace_unless (some e) a d next = (d, some e)
replace_unless none a d next =
    saving a d (record d.config { ingests = map (normalise_ingest d.config.floor_ms) next })
      (λ c. record c { ingests = d.config.ingests })

unfoldable pub replace_ingests : Attempt → Daemon → List Ingest → Daemon × Option Error
replace_ingests a d next = replace_unless (validate_ingests next) a d next

abbrev pub stale_unless : Option Error → List String → List String
stale_unless none stale = stale
stale_unless (some e) stale = []

-- The identifiers that `ReplaceIngests` returns, whose sessions must close.
unfoldable pub replaced_stale : Attempt → Daemon → List Ingest → List String
replaced_stale a d next =
    stale_unless (replace_ingests a d next).1 (stale_ingests d.config.ingests next)

-- The loop over the cameras that each setter begins with.
unfoldable pub index_of : List Ingest → String → Option ℕ
index_of [] id = none
index_of (ing ∷ rest) id =
    let later = index_of rest id in
    if Text.◌==◌ ing.id id then some 0 else elim later [ none ↦ none | some n ↦ some (suc n) ]

abbrev pub removed : ℕ → List Ingest → List Ingest
removed n l = take n l ++ drop (suc n) l

-- `RemoveIngest`, once the camera is looked up.
unfoldable pub remove_at : Option ℕ → Attempt → Daemon → Daemon × Option Error
remove_at none a d = (d, some unknown_ingest)
remove_at (some n) a d =
    saving a d (record d.config { ingests = removed n d.config.ingests })
      (λ c. record c { ingests = d.config.ingests })

unfoldable pub remove_ingest : Attempt → Daemon → String → Daemon × Option Error
remove_ingest a d id = remove_at (index_of d.config.ingests id) a d

-- `Ingest{}`
abbrev pub no_ingest : Ingest
no_ingest = record {
  options = zero_options;
  id = "";
  label = "";
  sender_key = "";
  receiver_key = "";
  codecs = [];
  delay_ms = pos 0;
  sync_group = "";
}

-- `update`, once the camera is looked up.
unfoldable pub update_at : Option ℕ → Attempt → Daemon → (Ingest → Ingest) → Daemon × Option Error
update_at none a d change = (d, some unknown_ingest)
update_at (some n) a d change =
    let previous = get_or d.config.ingests n no_ingest in
    saving a d (record d.config { ingests = set d.config.ingests n (change previous) })
      (λ c. record c { ingests = set c.ingests n previous })

unfoldable pub update : Attempt → Daemon → String → (Ingest → Ingest) → Daemon × Option Error
update a d id change = update_at (index_of d.config.ingests id) a d change

-- `SetSyncGroup`, `SetLabel`, `SetCodecs`, `SetDelay` and `SetDynamicDelay`: their changes.
pub data Change : Type 0 where
  sync_group label : String → Change
  codecs : List String → Change
  delay : ℤ → Change
  dynamic_delay : Options → Change

unfoldable pub changed : Option ℤ → Change → Ingest → Ingest
changed floor_ms (sync_group group) ing = record ing { sync_group = group }
changed floor_ms (label text) ing = record ing { label = text }
changed floor_ms (codecs names) ing = record ing { codecs = keep_codecs names }
changed floor_ms (delay ms) ing =
    let delay_ms = clamp_delay floor_ms ms in
    record ing { delay_ms = delay_ms; options = normalize ing.options delay_ms }
changed floor_ms (dynamic_delay options) ing = record ing {
  options = normalize options ing.delay_ms;
}

unfoldable pub set_ingest : Attempt → Daemon → String → Change → Daemon × Option Error
set_ingest a d id change = update a d id (changed d.config.floor_ms change)

-- `ResetSenderKey`, once the camera is looked up, of the key that the random source gives.
unfoldable pub reset_at : Option ℕ → Option String → Attempt → Daemon → Daemon × Option Error
reset_at none key a d = (d, some unknown_ingest)
reset_at (some n) none a d = (d, some generate_key)
reset_at (some n) (some fresh) a d =
    let previous = get_or d.config.ingests n no_ingest in
    saving a d
      (record d.config {
        ingests = set d.config.ingests n (record previous { sender_key = fresh });
      })
      (λ c. record c {
        ingests =
            set c.ingests n
              (record (get_or c.ingests n no_ingest) { sender_key = previous.sender_key });
      })

unfoldable pub reset_sender_key : Attempt → Daemon → String → Option String → Daemon × Option Error
reset_sender_key a d id key = reset_at (index_of d.config.ingests id) key a d
