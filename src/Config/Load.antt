-- ===== src/Config/Load.antt =====
-- `Load` of internal/config/config.go. The operating system says where the file is and what it holds;
-- `parse` is `json.Unmarshal`, which fills the settings that it is given.
use Prim.Native.String.{String}
use waga_strim.Base.{Bool, true, false, Option, none, some, [], if◌then◌else◌}
use waga_strim.Base.Int.{pos, ltb_ℤ}
use waga_strim.Config.{
  Config, Error, locate_config, read_config, parse_config, future_config, current_version,
  default_media_port, default_signal_port, default_ui_port,
}
use waga_strim.Config.Ingests.{normalise}
use waga_strim.Config.Save.{Attempt, Daemon, save_locked}

pub data Contents : Type 0 where
  absent unreadable : Contents
  text : String → Contents

abbrev pub new_config : Config
new_config = record {
  version = current_version;
  public_host = "";
  signal_bind = "";
  control_bind = "";
  control_lan = none;
  control_remote = none;
  tls_cert = "";
  tls_key = "";
  public_url = "";
  ice_public_ips = [];
  media_port = default_media_port;
  signal_port = default_signal_port;
  ui_port = default_ui_port;
  autostart = false;
  control_token = "";
  control_port = pos 0;
  floor_ms = none;
  ingests = [];
}

-- What is left to do once the file is read.
unfoldable pub accept : Option Config → Option Daemon × Option Error
accept none = (none, some parse_config)
accept (some c) =
    if ltb_ℤ current_version c.version
    then (none, some future_config)
    else (some (record { config = normalise c; file = some c }), none)

-- The first result is the settings, which an absent file has as well where it cannot be written.
unfoldable pub load :
    (String → Config → Option Config) → Attempt → Bool → Contents → Option Daemon × Option Error
load parse a false contents = (none, some locate_config)
load parse a true absent =
    let (file, e) = save_locked a new_config none in
    (some (record { config = new_config; file = file }), e)
load parse a true unreadable = (none, some read_config)
load parse a true (text raw) = accept (parse raw new_config)
