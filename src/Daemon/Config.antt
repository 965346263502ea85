-- ===== src/Daemon/Config.antt =====
-- src/config.rs: the settings of the daemon, and how they are loaded.
use Prim.Native.String.{String}
use libinput_rs.Common.{Bool, true, Option, none, some, unwrap_or}
use libinput_rs.Floats.{Floats}

pub record InputConfig (fl : Floats) : Type 0 where
  pub tap_to_click : Bool
  pub natural_scrolling : Bool
  pub pointer_acceleration : fl.F32
  pub disable_while_typing : Bool

-- `InputConfig::default`.
unfoldable pub default_config : (fl : Floats) → InputConfig fl
default_config fl = record {
  tap_to_click = true;
  natural_scrolling = true;
  pointer_acceleration = fl.f32 10 1;
  disable_while_typing = true;
}

-- `from_str` is the parser of serde_json; the file is `none` where it cannot be read.
unfoldable pub load_config :
    {fl : Floats} → (String → Option (InputConfig fl)) → Option String → Option (InputConfig fl)
load_config from_str none = none
load_config from_str (some text) = from_str text

-- The settings with which `main` goes on.
unfoldable pub config_in_use :
    {fl : Floats} → (String → Option (InputConfig fl)) → Option String → InputConfig fl
unfolding load_config default_config
config_in_use {fl} from_str file = unwrap_or (load_config from_str file) (default_config fl)
