-- ===== src/Config/Loading.antt =====
-- Load, Reload, LoadNginx and LoadAuto of internal/config/config.go. What viper reads and unmarshals
-- is given, with whether `Load` has told it the name and the folder of the file; so is what a file
-- holds. An error of any kind is `none`.
pub mod Laws
use web_server.Prelude.{
  ℕ, Bool, true, false, ◌||◌, ◌==◌, if◌then◌else◌, List, [], ◌∷◌, map, Option, none, some,
}
use web_server.Text.{Bytes, codes, eqb, lower}
use web_server.Config.{Config, Float}
use web_server.Config.Defaults.{apply_defaults}
use web_server.Config.Nginx.{Nodes, Result, ok, failed, out_of_fuel, parse_file}
use web_server.Config.Nginx.Translator.Server.{from_nginx}

pub record Files : Type 0 where
  pub viper : Bool → Option Config
  pub read_file : Bytes → Option Bytes

-- filepath.Ext: what stands from the last dot on, if no slash follows it.
abbrev or_here : Bytes → Option Bytes → Option Bytes
or_here s none = some s
or_here s (some e) = some e

abbrev has_slash : Bytes → Bool
has_slash [] = false
has_slash (c ∷ s) = c == b'/' || has_slash s

unfoldable pub last_dot : Bytes → Option Bytes
last_dot [] = none
last_dot (c ∷ s) =
    let here = or_here (c ∷ s) (last_dot s) in
    let rest = last_dot s in if c == b'.' then (if has_slash s then rest else here) else rest

abbrev pub text_of : Option Bytes → Bytes
text_of none = []
text_of (some e) = e

abbrev pub extension : Bytes → Bytes
extension path = text_of (last_dot path)

-- `applyDefaults` on what was read.
abbrev pub completed : Option Config → Option Config
completed none = none
completed (some cfg) = some (apply_defaults cfg)

module _ (files : Files) where
  unfoldable pub load : Option Config
  load = completed (files.viper true)

  -- The first argument says that `Load` has run before.
  unfoldable pub reload_config : Bool → Option Config
  reload_config loaded = completed (files.viper loaded)

module _ (parse_float : Bytes → Option Float) (by_60 : Float → Float) where
  abbrev pub translated : Result Nodes → Option Config
  translated (ok nodes rest) = some (from_nginx parse_float by_60 nodes)
  translated (failed e) = none
  translated out_of_fuel = none

  abbrev pub nginx_text : Option Bytes → Option Config
  nginx_text none = none
  nginx_text (some s) = translated (parse_file s)

  unfoldable pub load_nginx : Files → Bytes → Option Config
  load_nginx files path = completed (nginx_text (files.read_file path))

  unfoldable pub load_auto : Files → Bytes → Option Config
  load_auto files path =
      let ext = map lower (extension path) in
      if eqb ext (codes ".conf") || eqb ext (codes ".nginx")
      then load_nginx files path
      else load files
