-- ===== src/Config/Loading/Laws.antt =====
-- What the ways to load a configuration have in common, and where they differ.
use mathlib.Core.Path.{subst}
use web_server.Prelude.{
  ap, ◌∙◌, [], if◌then◌else◌, ◌≡◌, ◌||◌, Bool, true, false, map, Option, none, some,
}
use web_server.Text.{Bytes, codes, eqb, lower}
use web_server.Config.{Config, Float}
use web_server.Config.Defaults.{apply_defaults}
use web_server.Config.Defaults.Laws.{IsComplete, apply_defaults-IsComplete}
use web_server.Config.Nginx.Printing.{print_nodes, parse_file-print_nodes}
use web_server.Config.Nginx.Translator.Site.{Site, IsSite, site_nodes, site_config}
use web_server.Config.Nginx.Translator.Sites.{from_nginx-site_nodes}
use web_server.Config.Loading.{
  translated, Files, completed, extension, load, load_nginx, load_auto, nginx_text,
}

completed-IsComplete : (o : Option Config) {cfg : Config} → completed o ≡ some cfg → IsComplete cfg
completed-IsComplete none h = cc
completed-IsComplete (some c) {cfg} h =
    let same : apply_defaults c ≡ cfg = cc in subst IsComplete same (apply_defaults-IsComplete c)

either-IsComplete :
    (b : Bool) (x y : Option Config) {cfg : Config}
    → (if b then completed x else completed y) ≡ some cfg
    → IsComplete cfg
either-IsComplete true x y h = completed-IsComplete x h
either-IsComplete false x y h = completed-IsComplete y h

module _ (parse_float : Bytes → Option Float) (by_60 : Float → Float) where
  -- A configuration that is loaded, from whatever kind of file, is complete: every field that has a
  -- default is set, in the settings of each route too, and every weight is positive.
  pub load_auto-IsComplete :
      (files : Files) (path : Bytes) {cfg : Config}
      → load_auto parse_float by_60 files path ≡ some cfg
      → IsComplete cfg
  unfolding load_auto load load_nginx
  load_auto-IsComplete files path h =
      let ext = map lower (extension path) in
      either-IsComplete (eqb ext (codes ".conf") || eqb ext (codes ".nginx"))
        (nginx_text parse_float by_60 (files.read_file path)) (files.viper true) h

  -- A file that holds an upstream group with weights and a server with a name, a limit on bodies and
  -- locations that pass to the group with timeouts of their own, as the printer writes it, is loaded
  -- as the locations' routes in their order, each with the server's name and limit and its timeout
  -- to all addresses of the group with their weights, and as the group's algorithm, with all
  -- defaults set; the group's name has no slash, the server's is not "_", the locations have
  -- prefixes and neither modifiers nor names, and the numbers are below 2 ^ 63.
  pub load_nginx-site_nodes :
      (files : Files) (path : Bytes) (s : Site)
      → IsSite s
      → files.read_file path ≡ some (print_nodes (site_nodes s) [])
      → load_nginx parse_float by_60 files path ≡ some (apply_defaults (site_config s))
  unfolding load_nginx
  load_nginx-site_nodes files path s i e =
      ap (λ o. completed (nginx_text parse_float by_60 o)) e
      ∙ ap (λ r. completed (translated parse_float by_60 r)) (parse_file-print_nodes (site_nodes s))
      ∙ ap (λ c. some (apply_defaults c)) (from_nginx-site_nodes parse_float by_60 s i)
