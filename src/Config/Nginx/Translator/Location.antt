-- ===== src/Config/Nginx/Translator/Location.antt =====
-- `parseLocationBlock` and `appendRequestTransformer` of internal/config/nginx_translator.go.
use web_server.Prelude.{
  ℕ, ◌==◌, slt, true, not, if◌then◌else◌, List, [], ◌∷◌, ◌++◌, map, Option, none, some,
}
use web_server.Text.{Bytes, codes, eqb}
use web_server.Text.Scan.{contains, cut_prefix, trim_right_byte, join_spaces}
use web_server.Config.{
  Value, Fields, text, int, float, fields, end, field, PluginConfig, RouteConfig, UpstreamConfig,
}
use web_server.Config.Float64.{to_float64, halved}
use web_server.Config.Maps.{field_of, set_field}
use web_server.Config.Nginx.{Nodes, node, no_nodes, more}
use web_server.Config.Nginx.Units.{
  extract_group_name, parse_size, parse_duration_seconds, parse_limit_req_burst,
}
use web_server.Config.Nginx.Translator.{Groups, assigned, with_scheme}

-- The headers of a transformer, if there are any.
abbrev pub as_fields : Option Value → Fields
as_fields (some (fields m)) = m
as_fields _ = end

abbrev pub transformer : Bytes
transformer = codes "request-header-transformer"

abbrev pub add_header : Bytes → Bytes → PluginConfig → PluginConfig
add_header header value p = record p {
  config =
      set_field (codes "add_headers")
        (fields
          (set_field header (text value) (as_fields (field_of (codes "add_headers") p.config))))
        p.config;
}

-- `appendRequestTransformer`.
unfoldable pub append_request_transformer : List PluginConfig → Bytes → Bytes → List PluginConfig
append_request_transformer [] header value =
    record {
      name = transformer;
      enabled = true;
      config = field (codes "add_headers") (fields (field header (text value) end)) end;
    }
    ∷ []
append_request_transformer (p ∷ plugins) header value =
    let rest = append_request_transformer plugins header value in
    if eqb p.name transformer then add_header header value p ∷ plugins else p ∷ rest

-- The plugin of a `limit_req`.
abbrev pub rate_plugin : ℕ → PluginConfig
rate_plugin burst = record {
  name = codes "rate-limit";
  enabled = true;
  config =
      field (codes "requests_per_second") (float (halved (to_float64 burst)))
        (field (codes "burst") (int burst) end);
}

-- The route, and the group that `proxy_pass` has resolved to.
pub record Location : Type 0 where
  pub route : RouteConfig
  pub group : Bytes

abbrev pub named_or_root : Bytes → Bytes
named_or_root [] = codes "root"
named_or_root (c ∷ s) = c ∷ s

abbrev pub dashed : ℕ → ℕ
dashed c = if c == b'/' then b'-' else c

abbrev pub without_dash : Bytes → Option Bytes → Bytes
without_dash s none = s
without_dash s (some rest) = rest

-- A route's name: the path with dashes, less one in front.
unfoldable pub route_name : Bytes → Bytes
route_name prefix =
    let s = map dashed prefix in named_or_root (without_dash s (cut_prefix s (codes "-")))

abbrev pub new_location : Bytes → Bytes → ℕ → Location
new_location prefix host max_body = record {
  route = record {
    name = route_name prefix;
    host = host;
    path_prefix = prefix;
    upstreams = [];
    timeout_seconds = 0;
    max_body_bytes = max_body;
    max_retries = 0;
    plugins = [];
    circuit_breaker = record {
      failure_threshold = 0;
      open_duration_seconds = 0;
      half_open_requests = 0;
    };
  };
  group = [];
}

-- The directives that set something, each with its arguments.
abbrev pub pass_to : Bytes → Bytes → Option (List UpstreamConfig) → Location → Location
pass_to target name none l = record l {
  route = record l.route { upstreams = record { url = with_scheme target; weight = 1 } ∷ [] };
}
pass_to target name (some group) l = record l {
  route = record l.route { upstreams = group };
  group = name;
}

abbrev pub proxy_pass : Groups → List Bytes → Location → Location
proxy_pass groups [] l = l
proxy_pass groups (url ∷ args) l =
    let target = trim_right_byte b'/' url in
    let name = extract_group_name target in pass_to target name (assigned name groups.upstreams) l

abbrev pub read_timeout : List Bytes → Location → Location
read_timeout [] l = l
read_timeout (time ∷ args) l = record l {
  route = record l.route { timeout_seconds = parse_duration_seconds time };
}

abbrev pub max_body_size : List Bytes → Location → Location
max_body_size [] l = l
max_body_size (size ∷ args) l = record l {
  route = record l.route { max_body_bytes = parse_size size };
}

abbrev pub limit_req : List Bytes → Location → Location
limit_req args l =
    let burst = parse_limit_req_burst args in
    if slt 0 burst
    then record l { route = record l.route { plugins = l.route.plugins ++ rate_plugin burst ∷ [] } }
    else l

abbrev pub set_header : List Bytes → Location → Location
set_header (header ∷ part ∷ parts) l =
    let value = join_spaces (part ∷ parts) in
    if not (contains value (codes "$"))
    then record l {
      route = record l.route { plugins = append_request_transformer l.route.plugins header value };
    }
    else l
set_header _ l = l

-- One round of the loop: the switch on the directive.
abbrev pub location_node : Groups → Bytes → List Bytes → Location → Location
location_node groups directive args l =
    if eqb directive (codes "proxy_pass")
    then proxy_pass groups args l
    else (if eqb directive (codes "proxy_read_timeout")
        then read_timeout args l
        else (if eqb directive (codes "client_max_body_size")
            then max_body_size args l
            else (if eqb directive (codes "limit_req")
                then limit_req args l
                else (if eqb directive (codes "proxy_set_header") then set_header args l else l))))

unfoldable pub location_nodes : Groups → Nodes → Location → Location
location_nodes groups no_nodes l = l
location_nodes groups (more (node directive args block) nodes) l =
    location_nodes groups nodes (location_node groups directive args l)

-- Nothing, if the location passes to no upstream.
abbrev pub with_upstreams : Location → List UpstreamConfig → Option (RouteConfig × Bytes)
with_upstreams l [] = none
with_upstreams l (u ∷ us) = some (l.route, l.group)

unfoldable pub parse_location_block :
    Groups → Bytes → Bytes → ℕ → Nodes → Option (RouteConfig × Bytes)
parse_location_block groups prefix host max_body block =
    let l = location_nodes groups block (new_location prefix host max_body) in
    with_upstreams l l.route.upstreams
