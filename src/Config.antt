-- ===== src/Config.antt =====
-- internal/config: the settings that the program keeps in its file. Strings are native texts, `int` is
-- ℤ, and a pointer that may be nil is an option. The lock makes each method one step.
pub mod Ingests
pub mod Keys
pub mod Load
pub mod Save
mod Tests
use Prim.Native.String.{String}
use waga_strim.Base.{Bool, Option, List}
use waga_strim.Base.Int.{ℤ, pos}
use waga_strim.Dynamic.Options.{Options}

abbrev pub delay_floor_ms : ℤ
delay_floor_ms = pos 0

abbrev pub delay_default_ms : ℤ
delay_default_ms = pos 2000

abbrev pub delay_max_ms : ℤ
delay_max_ms = pos 10_000

abbrev pub current_version : ℤ
current_version = pos 1

abbrev pub default_media_port : ℤ
default_media_port = pos 7332

abbrev pub default_signal_port : ℤ
default_signal_port = pos 7331

abbrev pub default_ui_port : ℤ
default_ui_port = pos 7330

abbrev pub default_control_port : ℤ
default_control_port = pos 7333

pub record Ingest : Type 0 where
  pub options : Options
  pub id : String
  pub label : String
  pub sender_key : String
  pub receiver_key : String
  pub codecs : List String
  pub delay_ms : ℤ
  pub sync_group : String

-- Without the lock, and without `path`, which stays.
pub record Config : Type 0 where
  pub version : ℤ
  pub public_host : String
  pub signal_bind : String
  pub control_bind : String
  pub control_lan : Option Bool
  pub control_remote : Option Bool
  pub tls_cert : String
  pub tls_key : String
  pub public_url : String
  pub ice_public_ips : List String
  pub media_port : ℤ
  pub signal_port : ℤ
  pub ui_port : ℤ
  pub autostart : Bool
  pub control_token : String
  pub control_port : ℤ
  pub floor_ms : Option ℤ
  pub ingests : List Ingest

pub data Error : Type 0 where
  parse_config write_config generate_key unknown_ingest : Error
  bad_key duplicate_key bad_ingest token_exists locate_config read_config future_config : Error

pub data Role : Type 0 where
  sender receiver : Role
