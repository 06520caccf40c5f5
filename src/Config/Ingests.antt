-- ===== src/Config/Ingests.antt =====
-- The list of cameras of internal/config/config.go: what a load and a change make of it, and what it
-- answers.
pub mod Valid
pub mod Groups
use Prim.Native.String.{String}
use text.Mathlib.Text
use waga_strim.Base.{
  ℕ, Bool, true, false, not, ◌&&◌, ◌||◌, Option, none, some, List, [], ◌∷◌, ◌++◌, map,
  if◌then◌else◌,
}
use waga_strim.Base.Int.{ℤ, pos, min_ℤ, max_ℤ, ltb_ℤ, eqb_ℤ}
use waga_strim.Dynamic.Options.{Options, zero_options, normalize}
use waga_strim.Config.{
  Ingest, Config, Role, sender, receiver, delay_floor_ms, delay_max_ms, current_version,
  default_media_port, default_signal_port, default_ui_port, default_control_port,
}

abbrev pub all_codecs : List String
all_codecs = "h264" ∷ "h265" ∷ "av1" ∷ []

-- `slices.Contains`
abbrev pub contains : List String → String → Bool
contains [] s = false
contains (t ∷ ts) s = let rest = contains ts s in if Text.◌==◌ t s then true else rest

-- The loop of `keepCodecs`, over the codecs that the relay can carry.
unfoldable pub offered : List String → List String → List String
offered codecs [] = []
offered codecs (name ∷ names) =
    let rest = offered codecs names in if contains codecs name then name ∷ rest else rest

abbrev pub or_h264 : List String → List String
or_h264 [] = "h264" ∷ []
or_h264 (name ∷ names) = name ∷ names

unfoldable pub keep_codecs : List String → List String
keep_codecs codecs = or_h264 (offered codecs all_codecs)

-- `clampFloor`
unfoldable pub clamp_floor : Option ℤ → ℤ
clamp_floor none = delay_floor_ms
clamp_floor (some floor_ms) = min_ℤ delay_max_ms (max_ℤ (pos 0) floor_ms)

-- `clampDelay`, of a configuration with this floor.
unfoldable pub clamp_delay : Option ℤ → ℤ → ℤ
clamp_delay floor_ms delay_ms = min_ℤ delay_max_ms (max_ℤ (clamp_floor floor_ms) delay_ms)

-- The loop body of `normalise`, which `ReplaceIngests` repeats.
unfoldable pub normalise_ingest : Option ℤ → Ingest → Ingest
normalise_ingest floor_ms ing =
    let delay_ms = clamp_delay floor_ms ing.delay_ms in
    record ing {
      delay_ms = delay_ms;
      options = normalize ing.options delay_ms;
      codecs = keep_codecs ing.codecs;
    }

abbrev pub or_default : ℤ → ℤ → ℤ
or_default port default = if eqb_ℤ port (pos 0) then default else port

abbrev pub clamp_given_floor : Option ℤ → Option ℤ
clamp_given_floor none = none
clamp_given_floor (some floor_ms) = some (clamp_floor (some floor_ms))

-- `normalise`
unfoldable pub normalise : Config → Config
normalise c =
    let floor_ms = clamp_given_floor c.floor_ms in
    record c {
      version = current_version;
      media_port = or_default c.media_port default_media_port;
      signal_port = or_default c.signal_port default_signal_port;
      ui_port = or_default c.ui_port default_ui_port;
      control_port = or_default c.control_port default_control_port;
      floor_ms = floor_ms;
      ingests = map (normalise_ingest floor_ms) c.ingests;
    }

-- The first camera with an identifier.
unfoldable pub find_ingest : List Ingest → String → Option Ingest
find_ingest [] id = none
find_ingest (ing ∷ rest) id =
    let later = find_ingest rest id in if Text.◌==◌ ing.id id then some ing else later

-- The second loop of `EffectiveDelay`.
unfoldable pub group_delay : List Ingest → String → ℤ → ℤ
group_delay [] group own = own
group_delay (ing ∷ rest) group own =
    group_delay rest group
      (if Text.◌==◌ ing.sync_group group && ltb_ℤ own ing.delay_ms then ing.delay_ms else own)

-- `EffectiveDelay`, once the camera is looked up.
unfoldable pub delay_of : List Ingest → Option Ingest → ℤ
delay_of ingests none = pos 0
delay_of ingests (some ing) =
    if Text.◌==◌ ing.sync_group ""
    then ing.delay_ms
    else group_delay ingests ing.sync_group ing.delay_ms

unfoldable pub effective_delay : Config → String → ℤ
effective_delay c id = delay_of c.ingests (find_ingest c.ingests id)

-- The second loop of `GroupPeers`.
unfoldable pub members : List Ingest → String → List String
members [] group = []
members (ing ∷ rest) group =
    let others = members rest group in
    if Text.◌==◌ ing.sync_group group then ing.id ∷ others else others

abbrev pub group_of : Option Ingest → String
group_of none = ""
group_of (some ing) = ing.sync_group

-- `GroupPeers`
unfoldable pub group_peers : Config → String → List String
group_peers c id =
    let group = group_of (find_ingest c.ingests id) in
    if Text.◌==◌ group "" then id ∷ [] else members c.ingests group

abbrev pub options_of : Option Ingest → Options
options_of none = zero_options
options_of (some ing) =
    let options = normalize ing.options ing.delay_ms in
    record options { enabled = options.enabled && Text.◌==◌ ing.sync_group "" }

-- `DelayOptions`
unfoldable pub delay_options : Config → String → Options
delay_options c id = options_of (find_ingest c.ingests id)

-- The loop body of `Resolve`; `none` is the zero camera with `RoleNone`.
unfoldable pub matched : String → Ingest → Option (Ingest × Role) → Option (Ingest × Role)
matched key ing found =
    let sent = if Text.◌==◌ key ing.sender_key then some (ing, sender) else found in
    if Text.◌==◌ key ing.receiver_key then some (ing, receiver) else sent

unfoldable pub resolve_from : String → List Ingest → Option (Ingest × Role) → Option (Ingest × Role)
resolve_from key [] found = found
resolve_from key (ing ∷ rest) found = resolve_from key rest (matched key ing found)

-- `Resolve`
unfoldable pub resolve : Config → String → Option (Ingest × Role)
resolve c key = resolve_from key c.ingests none

-- `IngestIDs`
unfoldable pub ingest_ids : Config → List String
ingest_ids c = map (λ (ing : Ingest). ing.id) c.ingests
