-- ===== src/Admin.antt =====
-- internal/admin/admin.go: the handlers of the admin API, on a server with its gateway and its
-- configuration. Answers are what is encoded as JSON. What viper reads at a reload is given.
pub mod Laws
use web_server.Prelude.{
  ℕ, Bool, true, false, if◌then◌else◌, List, [], ◌∷◌, ◌++◌, map, Option, none, some,
}
use web_server.Text.{Bytes, codes, eqb}
use web_server.Upstream.{Url}
use web_server.Lb.{Balancer}
use web_server.Config.{Config}
use web_server.Config.Loading.{Files, reload_config}
use web_server.Proxy.Engine.{Engine}
use web_server.Proxy.Gateway.{Gateway, RouteSnapshot, UpstreamSnapshot, reload, routes_of}

pub record Server (H : Type 0) : Type 0 where
  pub gw : Gateway H
  pub cfg : Config

-- A row of `handleUpstreams`: the route's name, and the upstream.
abbrev pub Row : Type 0
Row = Bytes × UpstreamSnapshot

pub data Answer : Type 0 where
  ok_text : Answer
  routes_json : List RouteSnapshot → Answer
  route_json : RouteSnapshot → Answer
  upstreams_json : List Row → Answer
  reloaded : Answer
  http_error : ℕ → Answer

abbrev pub find_route : Bytes → List RouteSnapshot → Answer
find_route name [] = http_error 404
find_route name (snap ∷ snapshots) =
    let rest = find_route name snapshots in if eqb snap.name name then route_json snap else rest

abbrev pub rows : List RouteSnapshot → List Row
rows [] = []
rows (route ∷ snapshots) = map (λ up. (route.name, up)) route.upstreams ++ rows snapshots

module _ {H : Type 0} where
  abbrev pub handle_health : Server H → Answer
  handle_health s = ok_text

  abbrev pub handle_routes : Server H → Answer
  handle_routes s = routes_json (routes_of s.gw)

  unfoldable pub handle_route : Bytes → Server H → Answer
  handle_route name s = find_route name (routes_of s.gw)

  unfoldable pub handle_upstreams : Server H → Answer
  handle_upstreams s = upstreams_json (rows (routes_of s.gw))

-- `handleReload`; the gateway's own reload never fails.
module _ {H : Type 0} (parse_url : Bytes → Option Url)
    (engine_handler : Engine × Balancer → H) where
  abbrev pub reload_with : Option Config → Server H → Server H × Answer
  reload_with none s = (s, http_error 500)
  reload_with (some cfg) s =
      (record { gw = reload parse_url engine_handler cfg s.gw; cfg = cfg }, reloaded)

  -- Whether `Load` has run before, and the files at the time.
  unfoldable pub handle_reload : Bool → Files → Server H → Server H × Answer
  handle_reload loaded files s = reload_with (reload_config files loaded) s

-- The routes of the API's own router, and what a request to one does to the server. The library chi
-- finds the route of a request, and the name in it.
pub data Endpoint : Type 0 where
  get_routes : Endpoint
  get_route : Bytes → Endpoint
  get_upstreams post_reload get_health : Endpoint

abbrev pub method_path : Endpoint → Bytes × Bytes
method_path get_routes = (codes "GET", codes "/admin/routes")
method_path (get_route name) = (codes "GET", codes "/admin/routes/" ++ name)
method_path get_upstreams = (codes "GET", codes "/admin/upstreams")
method_path post_reload = (codes "POST", codes "/admin/reload")
method_path get_health = (codes "GET", codes "/admin/health")

module _ {H : Type 0} (parse_url : Bytes → Option Url)
    (engine_handler : Engine × Balancer → H) where
  unfoldable pub serve_endpoint : Bool → Files → Endpoint → Server H → Server H × Answer
  serve_endpoint loaded files get_routes s = (s, handle_routes s)
  serve_endpoint loaded files (get_route name) s = (s, handle_route name s)
  serve_endpoint loaded files get_upstreams s = (s, handle_upstreams s)
  serve_endpoint loaded files post_reload s = handle_reload parse_url engine_handler loaded files s
  serve_endpoint loaded files get_health s = (s, handle_health s)
