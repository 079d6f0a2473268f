-- ===== src/Config/Nginx/Translator/Site.antt =====
-- Files of internal/config/nginx_translator.go with one upstream group to which all locations pass.
use web_server.Prelude.{
  All, ◌≢◌, ◌<◌, ◌*◌, ◌%◌, two_63, two_64, false, ℕ, ◌≡◌, List, [], ◌∷◌, ◌++◌, map, some,
}
use web_server.Text.{Bytes, codes, eqb}
use web_server.Text.Number.Decimal.{decimal}
use web_server.Config.{Config, RouteConfig, UpstreamConfig}
use web_server.Config.Nginx.{Node, Nodes, node, no_nodes, more}
use web_server.Config.Nginx.Translator.{Groups, with_scheme}
use web_server.Config.Nginx.Translator.Location.{new_location}
use web_server.Config.Nginx.Translator.Server.{empty_config, location_prefix, ServerState}

-- An address of the group with its weight, and a location with its prefix and its timeout in
-- seconds.
pub record Backend : Type 0 where
  pub address : Bytes
  pub weight : ℕ

pub record Place : Type 0 where
  pub prefix : Bytes
  pub timeout : ℕ

-- The group's name and backends, the server's name, the limit on bodies in megabytes, and the
-- locations.
pub record Site : Type 0 where
  pub first_byte : ℕ
  pub name_rest : Bytes
  pub backend : Backend
  pub backends : List Backend
  pub host : Bytes
  pub megabytes : ℕ
  pub place : Place
  pub places : List Place

abbrev pub name_of : Site → Bytes
name_of s = s.first_byte ∷ s.name_rest

abbrev pub line : Bytes → List Bytes → Node
line directive args = node directive args no_nodes

abbrev pub backend_nodes : List Backend → Nodes
backend_nodes [] = no_nodes
backend_nodes (b ∷ backends) =
    more (line (codes "server") (b.address ∷ (codes "weight=" ++ decimal b.weight) ∷ []))
      (backend_nodes backends)

-- The lines of a location.
abbrev pub place_nodes : Bytes → Place → Nodes
place_nodes name p =
    more (line (codes "proxy_pass") ((codes "http://" ++ name) ∷ []))
      (more (line (codes "proxy_read_timeout") ((decimal p.timeout ++ codes "s") ∷ [])) no_nodes)

abbrev pub location_lines : Bytes → List Place → Nodes
location_lines name [] = no_nodes
location_lines name (p ∷ places) =
    more (node (codes "location") (p.prefix ∷ []) (place_nodes name p)) (location_lines name places)

-- upstream name { least_conn; server address weight=1; ... }
-- server {
--   server_name host; client_max_body_size 8m;
--   location prefix { proxy_pass http://name; proxy_read_timeout 30s; } ...
-- }
abbrev pub server_lines : Site → Nodes
server_lines s = more (line (codes "server_name") (s.host ∷ [])) (
    more (line (codes "client_max_body_size") ((decimal s.megabytes ++ codes "m") ∷ []))
      (location_lines (name_of s) (s.place ∷ s.places)))

abbrev pub site_nodes : Site → Nodes
site_nodes s =
    more
      (node (codes "upstream") (name_of s ∷ [])
        (more (line (codes "least_conn") []) (backend_nodes (s.backend ∷ s.backends))))
      (more (node (codes "server") [] (server_lines s)) no_nodes)

abbrev pub upstream_at : Backend → UpstreamConfig
upstream_at b = record { url = with_scheme b.address; weight = b.weight }

-- In bytes, as an int64.
abbrev pub body_limit : Site → ℕ
body_limit s = s.megabytes * 1048576 % two_64

abbrev pub route_at : Bytes → ℕ → List UpstreamConfig → Place → RouteConfig
route_at host body upstreams p = record (new_location p.prefix host body).route {
  upstreams = upstreams;
  timeout_seconds = p.timeout;
}

abbrev pub site_upstreams : Site → List UpstreamConfig
site_upstreams s = map upstream_at (s.backend ∷ s.backends)

abbrev pub site_config : Site → Config
site_config s = record empty_config {
  proxy = record {
    algorithm = codes "least_conn";
    routes = map (route_at s.host (body_limit s) (site_upstreams s)) (s.place ∷ s.places);
  };
}

-- The prefix is neither a modifier nor the name of a location, and the timeout an int.
abbrev pub IsPlace : Place → Type 0
IsPlace p = (location_prefix (p.prefix ∷ []) ≡ some p.prefix) × (p.timeout < two_63)

-- The group's name has no slash, the server's name is not the one that stands for any, and the
-- numbers are in range.
pub record IsSite (s : Site) : Type 0 where
  pub name : All (λ d. d ≢ b'/') (name_of s)
  pub weights : All (λ b. Backend.weight b < two_63) (s.backend ∷ s.backends)
  pub host : eqb s.host (codes "_") ≡ false
  pub body : s.megabytes < two_63
  pub places : All IsPlace (s.place ∷ s.places)

-- The state of the loop with these routes.
abbrev pub at_routes : Bytes → ℕ → Bytes → List RouteConfig → ServerState
at_routes host body algo routes = record {
  cfg = record empty_config { proxy = record { algorithm = algo; routes = routes } };
  host = host;
  max_body = body;
}

-- The groups behind the first block of the file.
abbrev pub site_groups : Site → Groups
site_groups s = record {
  upstreams = (name_of s, site_upstreams s) ∷ [];
  algorithms = (name_of s, codes "least_conn") ∷ [];
}
