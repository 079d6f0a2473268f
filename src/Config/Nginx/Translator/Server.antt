-- ===== src/Config/Nginx/Translator/Server.antt =====
-- `applyServerBlock` and `FromNginx` of internal/config/nginx_translator.go.
use web_server.Prelude.{
  ℕ, ◌*◌, ◌%◌, ◌==◌, Bool, true, false, ◌||◌, if◌then◌else◌, List, [], ◌∷◌, ◌++◌, Option, none,
  some, two_64,
}
use web_server.Text.{Bytes, codes, eqb, has_prefix}
use web_server.Text.Number.{atoi}
use web_server.Config.{Config, Float, ServerConfig, RouteConfig}
use web_server.Config.Nginx.{Nodes, node, no_nodes, more}
use web_server.Config.Nginx.Units.{parse_port, parse_size, parse_rate, trunc}
use web_server.Config.Nginx.Translator.{Groups, assigned, add_group}
use web_server.Config.Nginx.Translator.Location.{parse_location_block}

-- `&Config{}`.
abbrev pub empty_config : Config
empty_config = record {
  server = record {
    host = [];
    port = 0;
    https_port = 0;
    read_timeout = 0;
    write_timeout = 0;
    idle_timeout = 0;
    tls_cert_file = [];
    tls_key_file = [];
    redirect_http_to_https = false;
  };
  proxy = record { algorithm = []; routes = [] };
  rate = record { requests_per_second = record { mantissa = 0; exponent = 0 }; burst = 0 };
  health = record { path = []; interval_seconds = 0; timeout_seconds = 0 };
  admin = record { enabled = false; host = []; port = 0 };
  plugins = [];
  gzip = record { enabled = false; level = 0; min_length = 0; content_types = [] };
}

-- The configuration, and the variables of the loop over a server block.
pub record ServerState : Type 0 where
  pub cfg : Config
  pub host : Bytes
  pub max_body : ℕ

abbrev pub has_ssl : List Bytes → Bool
has_ssl [] = false
has_ssl (arg ∷ args) = eqb arg (codes "ssl")

abbrev pub set_port : Bool → Option ℕ → ServerConfig → ServerConfig
set_port tls none s = s
set_port true (some port) s = record s { https_port = port }
set_port false (some port) s = record s { port = port }

abbrev pub listen : List Bytes → ServerConfig → ServerConfig
listen [] s = s
listen (port ∷ args) s = set_port (has_ssl args) (parse_port port) s

abbrev pub server_name : List Bytes → Bytes → Bytes
server_name [] host = host
server_name (name ∷ args) host = if eqb name (codes "_") then host else name

abbrev pub first_or : List Bytes → Bytes → Bytes
first_or [] old = old
first_or (arg ∷ args) old = arg

abbrev pub size_or : List Bytes → ℕ → ℕ
size_or [] old = old
size_or (arg ∷ args) old = parse_size arg

abbrev pub value_or : Option ℕ → ℕ → ℕ
value_or none old = old
value_or (some v) old = v

abbrev pub int_arg : List Bytes → ℕ → ℕ
int_arg [] old = old
int_arg (arg ∷ args) old = value_or (atoi arg) old

abbrev pub gzip_on : List Bytes → Bool → Bool
gzip_on [] old = old
gzip_on (arg ∷ args) old = if eqb arg (codes "on") then true else old

-- Which prefix a location has, if it is not skipped: the second test of "=" comes too late.
abbrev pub behind_modifier : List Bytes → Option Bytes
behind_modifier [] = none
behind_modifier (prefix ∷ args) = some prefix

abbrev pub location_prefix : List Bytes → Option Bytes
location_prefix [] = none
location_prefix (prefix ∷ args) =
    if has_prefix prefix (codes "@")
      || eqb prefix (codes "~")
      || eqb prefix (codes "~*")
      || eqb prefix (codes "=")
    then none
    else (if eqb prefix (codes "^~") || eqb prefix (codes "=")
        then behind_modifier args
        else some prefix)

-- The algorithm of the group of the first route that has one.
abbrev pub algorithm_or : Bytes → Option Bytes → Bytes
algorithm_or old none = old
algorithm_or old (some algo) = algo

abbrev pub propagate : Groups → Bytes → Bytes → Bytes
propagate groups [] (c ∷ name) = algorithm_or [] (assigned (c ∷ name) groups.algorithms)
propagate groups old _ = old

abbrev pub add_route : Groups → Option (RouteConfig × Bytes) → ServerState → ServerState
add_route groups none s = s
add_route groups (some (route, name)) s = record s {
  cfg = record s.cfg {
    proxy = record {
      algorithm = propagate groups s.cfg.proxy.algorithm name;
      routes = s.cfg.proxy.routes ++ route ∷ [];
    };
  };
}

abbrev pub add_location : Groups → Nodes → Option Bytes → ServerState → ServerState
add_location groups block none s = s
add_location groups block (some prefix) s =
    add_route groups (parse_location_block groups prefix s.host s.max_body block) s

module _ (parse_float : Bytes → Option Float) (by_60 : Float → Float) where
  abbrev pub limit_zone : List Bytes → Config → Config
  limit_zone args cfg =
      let rps = parse_rate parse_float by_60 args in
      record cfg {
        rate = record {
          requests_per_second = rps;
          burst = if cfg.rate.burst == 0 then trunc rps * 5 % two_64 else cfg.rate.burst;
        };
      }

  -- The cases of the switch that set a field of the configuration.
  abbrev pub setting : Bytes → List Bytes → Config → Config
  setting directive args cfg =
      if eqb directive (codes "listen")
      then record cfg { server = listen args cfg.server }
      else (if eqb directive (codes "ssl_certificate")
          then record cfg {
            server = record cfg.server { tls_cert_file = first_or args cfg.server.tls_cert_file };
          }
          else (if eqb directive (codes "ssl_certificate_key")
              then record cfg {
                server = record cfg.server { tls_key_file = first_or args cfg.server.tls_key_file };
              }
              else (if eqb directive (codes "gzip")
                  then record cfg {
                    gzip = record cfg.gzip { enabled = gzip_on args cfg.gzip.enabled };
                  }
                  else (if eqb directive (codes "gzip_min_length")
                      then record cfg {
                        gzip = record cfg.gzip { min_length = int_arg args cfg.gzip.min_length };
                      }
                      else (if eqb directive (codes "gzip_types")
                          then record cfg {
                            gzip = record cfg.gzip {
                              content_types = cfg.gzip.content_types ++ args;
                            };
                          }
                          else (if eqb directive (codes "gzip_comp_level")
                              then record cfg {
                                gzip = record cfg.gzip { level = int_arg args cfg.gzip.level };
                              }
                              else (if eqb directive (codes "limit_req_zone")
                                  then limit_zone args cfg
                                  else cfg)))))))

  -- One round of the loop of `applyServerBlock`.
  abbrev pub server_node : Groups → Bytes → List Bytes → Nodes → ServerState → ServerState
  server_node groups directive args block s =
      if eqb directive (codes "location")
      then add_location groups block (location_prefix args) s
      else (if eqb directive (codes "server_name")
          then record s { host = server_name args s.host }
          else (if eqb directive (codes "client_max_body_size")
              then record s { max_body = size_or args s.max_body }
              else record s { cfg = setting directive args s.cfg }))

  unfoldable pub server_nodes : Groups → Nodes → ServerState → ServerState
  server_nodes groups no_nodes s = s
  server_nodes groups (more (node directive args block) nodes) s =
      server_nodes groups nodes (server_node groups directive args block s)

  unfoldable pub apply_server_block : Groups → Nodes → Config → Config
  apply_server_block groups block cfg =
      (server_nodes groups block (record { cfg = cfg; host = []; max_body = 0 })).cfg

  -- The loop of `FromNginx`.
  abbrev pub top_node : Bytes → List Bytes → Nodes → Config × Groups → Config × Groups
  top_node directive args block (cfg, groups) =
      if eqb directive (codes "upstream")
      then (cfg, add_group args block groups)
      else (if eqb directive (codes "server")
          then (apply_server_block groups block cfg, groups)
          else (cfg, groups))

  unfoldable pub top_nodes : Nodes → Config × Groups → Config × Groups
  top_nodes no_nodes s = s
  top_nodes (more (node directive args block) nodes) s =
      top_nodes nodes (top_node directive args block s)

  unfoldable pub from_nginx : Nodes → Config
  from_nginx nodes = (top_nodes nodes (empty_config, record { upstreams = []; algorithms = [] })).0
