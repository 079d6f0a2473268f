-- ===== src/Tests/Files.antt =====
-- Loading a configuration from files, and a tunnel whose handshake fails.
use web_server.Prelude.{arith, ◌≡◌, refl, true, ◌∷◌, [], Option, none, some}
use web_server.Text.{Bytes, codes, eqb, lower, has_prefix}
use web_server.Text.{lower}
use web_server.Text.Number.Decimal.{decimal}
use web_server.Config.Nginx.Units.{parse_size, parse_duration_seconds}
use web_server.Config.Nginx.Units.Printed.{parse_size-decimal, ReadsUnit}
use web_server.Config.{Float}
use web_server.Config.Defaults.{apply_defaults}
use web_server.Config.Nginx.Printing.{print_nodes}
use web_server.Config.Nginx.Translator.Site.{Site, IsSite, site_nodes, site_config}
use web_server.Config.Loading.{Files, load_auto, load_nginx, load, last_dot}
use web_server.Config.Loading.Laws.{load_nginx-site_nodes}
use web_server.Proxy.Tunnel.{Network, handle_websocket}
use web_server.Proxy.Tunnel.Laws.{IsOver, watch_all, unopened, handle_websocket-IsOver}
use web_server.Tests.Data.{get_request, backend}
use web_server.Tests.Configs.{config}

abbrev shop_site : Site
shop_site = record {
  first_byte = b's';
  name_rest = codes "hop";
  backend = record { address = codes "10.0.0.1:80"; weight = 1 };
  backends = record { address = codes "https://10.0.0.2"; weight = 12 } ∷ [];
  host = codes "shop.example";
  megabytes = 8;
  place = record { prefix = codes "/api/"; timeout = 30 };
  places = record { prefix = codes "/"; timeout = 5 } ∷ [];
}

abbrev pub files : Files
files = record {
  viper = λ b. some config;
  read_file = λ path. some (print_nodes (site_nodes shop_site) []);
}

-- No floats are read.
abbrev no_float : Bytes → Option Float
no_float s = none

abbrev by_60 : Float → Float
by_60 f = f

yaml_loaded : load_auto no_float by_60 files (codes "gateway.yaml") ≡ some (apply_defaults config)
unfolding load_auto load last_dot eqb lower
yaml_loaded = refl

shop_IsSite : IsSite shop_site
unfolding eqb has_prefix
shop_IsSite = record {
  name = (λ e. cc e, (λ e. cc e, (λ e. cc e, (λ e. cc e, tt))));
  weights = (omega arith, (omega arith, tt));
  host = refl;
  body = omega arith;
  places = ((refl, omega arith), ((refl, omega arith), tt));
}

load_nginx-site_nodes_example :
    load_nginx no_float by_60 files (codes "site.conf")
    ≡ some (apply_defaults (site_config shop_site))
load_nginx-site_nodes_example =
    load_nginx-site_nodes no_float by_60 files (codes "site.conf") shop_site shop_IsSite refl

-- The upstream answers the handshake with 404.
abbrev refusing : Network
refusing = record {
  can_hijack = true;
  hijack = true;
  dial = λ tls host. true;
  write_request = λ r. true;
  read_response = some 404;
  write_response = λ status. true;
  relay = true;
  split_host_port = λ s. none;
}

handle_websocket-IsOver_example :
    IsOver (watch_all (handle_websocket refusing backend.url get_request).1 (unopened, unopened))
handle_websocket-IsOver_example = handle_websocket-IsOver refusing backend.url get_request

-- 8, 8k, 8m, 8g, 8s, 8h and 8d, small and capital.
parse_size-decimal_example :
    (parse_size (decimal 8) ≡ 8)
    × ReadsUnit parse_size 8 (codes "k") (codes "K") 1024
    × ReadsUnit parse_size 8 (codes "m") (codes "M") 1_048_576
    × ReadsUnit parse_size 8 (codes "g") (codes "G") 1_073_741_824
    × (parse_duration_seconds (decimal 8) ≡ 8)
    × ReadsUnit parse_duration_seconds 8 (codes "s") (codes "S") 1
    × ReadsUnit parse_duration_seconds 8 (codes "m") (codes "M") 60
    × ReadsUnit parse_duration_seconds 8 (codes "h") (codes "H") 3600
    × ReadsUnit parse_duration_seconds 8 (codes "d") (codes "D") 86_400
parse_size-decimal_example = parse_size-decimal 8 (omega arith)
