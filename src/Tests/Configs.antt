-- ===== src/Tests/Configs.antt =====
-- Configurations, routes and the table of the gateway at concrete inputs.
use web_server.Prelude.{
  arith, ◌≡◌, ◌⊎◌, refl, true, false, List, [], ◌∷◌, Option, none, some, All, length,
}
use web_server.Text.{lower, has_prefix, eqb, equal_fold, Bytes, codes}
use web_server.Upstream.{Url}
use web_server.Lb.{Balancer}
use web_server.Config.{Config, RouteConfig, PluginConfig, end}
use web_server.Config.Nginx.{
  read_quoted, read_word, skip, token_at, next_token, parse_args, parse_node, parse_block, Nodes,
  node, no_nodes, more, parse_file, ok, expected_name, expected_r_brace, failed, semicolon, eof,
}
use web_server.Config.Nginx.Fuel.{Within, parse_file-Within}
use web_server.Config.Nginx.Printing.{print_nodes, parse_file-print_nodes, parse_file-stray_brace}
use web_server.Proxy.Engine.{Engine}
use web_server.Proxy.Gateway.{
  match_from, RouteEntry, Registry, Gateway, match_route, new_gateway, serve_http,
}
use web_server.Proxy.Gateway.Matching.{IsBest, Ignores}
use web_server.Proxy.Gateway.Precedence.{Suits, Yields, match_route-Yields}
use web_server.Proxy.Gateway.Table.{serve_http-answers}
use web_server.Tests.Data.{get_request}

abbrev shop_route : RouteConfig
shop_route = record {
  name = codes "shop";
  host = codes "Shop.Example";
  path_prefix = codes "/api";
  upstreams = record { url = codes "http://10.0.0.1:80"; weight = 0 } ∷ [];
  timeout_seconds = 0;
  max_body_bytes = 0;
  max_retries = 0;
  plugins = [];
  circuit_breaker = record {
    failure_threshold = 0;
    open_duration_seconds = 0;
    half_open_requests = 0;
  };
}

abbrev any_route : RouteConfig
any_route = record shop_route { name = codes "any"; host = []; path_prefix = codes "/api/users" }

abbrev pub config : Config
config = record {
  server = record {
    host = [];
    port = 80;
    https_port = 443;
    read_timeout = 5;
    write_timeout = 5;
    idle_timeout = 5;
    tls_cert_file = [];
    tls_key_file = [];
    redirect_http_to_https = false;
  };
  proxy = record { algorithm = codes "weighted_rr"; routes = any_route ∷ shop_route ∷ [] };
  rate = record { requests_per_second = record { mantissa = 1; exponent = 1 }; burst = 2 };
  health = record { path = []; interval_seconds = 0; timeout_seconds = 9 };
  admin = record { enabled = true; host = []; port = 0 };
  plugins = [];
  gzip = record { enabled = true; level = 0; min_length = 0; content_types = [] };
}

-- listen 80; # comment
abbrev listen_text : Bytes
listen_text = codes "listen 80; # comment"

listen_parsed :
    parse_file listen_text
    ≡ ok (more (node (codes "listen") (codes "80" ∷ []) no_nodes) no_nodes) (codes " # comment")
unfolding parse_file parse_block parse_node parse_args next_token token_at skip read_word
    read_quoted
listen_parsed = refl

-- Where a semicolon is missing, the closing brace is an argument, and that of the block is missed.
missed_semicolon : parse_file (codes "a{b c}") ≡ failed (expected_r_brace eof)
unfolding parse_file parse_block parse_node parse_args next_token token_at skip read_word
    read_quoted
missed_semicolon = refl

no_name : parse_file (codes ";") ≡ failed (expected_name semicolon)
unfolding parse_file parse_block parse_node parse_args next_token token_at skip read_word
    read_quoted
no_name = refl

parse_file-Within_example : Within (length listen_text) (parse_file listen_text)
parse_file-Within_example = parse_file-Within listen_text

abbrev server_nodes : Nodes
server_nodes =
    more
      (node (codes "server") []
        (more (node (codes "listen") (codes "8 \"0" ∷ []) no_nodes) no_nodes))
      no_nodes

parse_file-print_nodes_example : parse_file (print_nodes server_nodes []) ≡ ok server_nodes []
parse_file-print_nodes_example = parse_file-print_nodes server_nodes

parse_file-stray_brace_example :
    parse_file (print_nodes server_nodes (b'}' ∷ listen_text))
    ≡ ok server_nodes (b'}' ∷ listen_text)
parse_file-stray_brace_example = parse_file-stray_brace server_nodes listen_text

-- Addresses of which only those with a scheme are parsed.
abbrev pub parse_url : Bytes → Option Url
parse_url (c ∷ s) = some (record { scheme = codes "http"; host = c ∷ s })
parse_url [] = none

-- Handlers that only name themselves, and a plugin that puts its own byte in front.
abbrev pub engine_handler : Engine × Balancer → Bytes
engine_handler (e, b) = e.route_name

abbrev pub registry : Registry Bytes
registry = (codes "cors", λ cfg. some (λ h. b'c' ∷ h)) ∷ (codes "jwt", λ cfg. none) ∷ []

abbrev pub plugin_list : List PluginConfig
plugin_list =
    record { name = codes "jwt"; enabled = true; config = end }
    ∷ record { name = codes "cors"; enabled = true; config = end }
    ∷ record { name = codes "cors"; enabled = false; config = end }
    ∷ []

abbrev gateway : Gateway Bytes
unfolding new_gateway
gateway = new_gateway parse_url engine_handler config registry

-- Two routes suit the request; the one with a host is chosen, though its prefix is shorter.
abbrev any_entry : RouteEntry Bytes
any_entry = record {
  name = codes "any";
  host = [];
  path_prefix = codes "/api/users";
  handler = codes "a";
  plugin_names = [];
}

abbrev shop_entry : RouteEntry Bytes
shop_entry = record any_entry {
  name = codes "shop";
  host = codes "Shop.Example";
  path_prefix = codes "/api";
  handler = codes "s";
}

abbrev entries : List (RouteEntry Bytes)
entries = any_entry ∷ shop_entry ∷ []

matched : match_route entries get_request ≡ some shop_entry
unfolding match_route match_from equal_fold eqb has_prefix lower
matched = refl

match_route-Yields_example :
    Suits get_request shop_entry × All (λ e. Suits get_request e → Yields shop_entry e) entries
match_route-Yields_example =
    match_route-Yields entries get_request (omega arith, (omega arith, tt)) matched

abbrev two_routes : Gateway Bytes
two_routes = record { routes = entries; plugin_reg = registry }

serve_http-answers_example :
    (All (Ignores get_request) entries
      × (serve_http (λ r. []) (λ h r. h) two_routes get_request ≡ []))
    ⊎ ((best : RouteEntry Bytes) × IsBest get_request best entries
        × (serve_http (λ r. []) (λ h r. h) two_routes get_request ≡ best.handler))
serve_http-answers_example = serve_http-answers (λ r. []) (λ h r. h) two_routes get_request
