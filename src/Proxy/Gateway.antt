-- ===== src/Proxy/Gateway.antt =====
-- internal/proxy/gateway.go with internal/plugin/plugin.go: the table of routes, the choice of a
-- route, and the chain of plugins around a route's engine. The interface http.Handler is the type
-- `H`. Warnings in the log are not modelled.
pub mod Matching
pub mod Precedence
pub mod Chain
pub mod Table
use web_server.Prelude.{
  ℕ, ◌+◌, ltb, Bool, true, false, not, ◌&&◌, ◌||◌, if◌then◌else◌, List, [], ◌∷◌, map, length,
  Option, none, some,
}
use web_server.Text.{Bytes, eqb, equal_fold, has_prefix}
use web_server.Config.{Config, RouteConfig, PluginConfig, Fields}
use web_server.Upstream.{Url}
use web_server.Lb.{Balancer}
use web_server.Http.Message.{Request}
use web_server.Proxy.Engine.{Engine}
use web_server.Proxy.Builder.{build_route_engine}

-- plugin.Registry: the factories by name. A factory fails with `none`.
abbrev pub Factory : Type 0 → Type 0
Factory H = Fields → Option (H → H)

abbrev pub Registry : Type 0 → Type 0
Registry H = List (Bytes × Factory H)

pub record RouteEntry (H : Type 0) : Type 0 where
  pub name : Bytes
  pub host : Bytes
  pub path_prefix : Bytes
  pub handler : H
  pub plugin_names : List Bytes

-- The snapshots of internal/admin/admin.go.
pub record UpstreamSnapshot : Type 0 where
  pub url : Bytes
  pub healthy : Bool
  pub active_conns : ℕ
  pub circuit_state : Bytes
  pub failure_count : ℕ

pub record RouteSnapshot : Type 0 where
  pub name : Bytes
  pub path_prefix : Bytes
  pub host : Bytes
  pub plugins : List Bytes
  pub upstreams : List UpstreamSnapshot

abbrev pub has_host : Bytes → Bool
has_host [] = false
has_host (c ∷ s) = true

module _ {H : Type 0} where
  -- The map's assignment and lookup: the latest registration of a name counts.
  abbrev pub register : Bytes → Factory H → Registry H → Registry H
  register name f reg = (name, f) ∷ reg

  unfoldable pub get : Registry H → Bytes → Option (Factory H)
  get [] name = none
  get ((key, f) ∷ reg) name = if eqb key name then some f else get reg name

  -- The two guards of the loop of `match`, and `score`.
  abbrev pub accepts : RouteEntry H → Request → Bool
  accepts route r =
      if has_host route.host && not (equal_fold route.host r.host)
      then false
      else has_prefix r.path route.path_prefix

  abbrev pub score : RouteEntry H → ℕ
  score route =
      if has_host route.host then length route.path_prefix + 10000 else length route.path_prefix

  -- `score > bestScore`, where no best route stands for the score -1.
  abbrev pub beats : RouteEntry H → Option (RouteEntry H) → Bool
  beats route none = true
  beats route (some best) = ltb (score best) (score route)

  abbrev pub better : Request → Option (RouteEntry H) → RouteEntry H → Option (RouteEntry H)
  better r best route =
      if accepts route r then (if beats route best then some route else best) else best

  -- The loop of `match`.
  unfoldable pub match_from :
      Request → Option (RouteEntry H) → List (RouteEntry H) → Option (RouteEntry H)
  match_from r best [] = best
  match_from r best (route ∷ entries) = match_from r (better r best route) entries

  unfoldable pub match_route : List (RouteEntry H) → Request → Option (RouteEntry H)
  match_route entries r = match_from r none entries

  -- `mw(handler)`, if the plugin could be made.
  abbrev pub wrap : Option (H → H) → H → H
  wrap none handler = handler
  wrap (some mw) handler = mw handler

  abbrev pub make : Option (Factory H) → Fields → Option (H → H)
  make none cfg = none
  make (some f) cfg = f cfg

  -- One round of the loop of `buildPluginChain`.
  abbrev pub apply_plugin : Registry H → PluginConfig → H → H
  apply_plugin reg pc handler =
      if not pc.enabled then handler else wrap (make (get reg pc.name) pc.config) handler

  -- The loop runs from the last plugin to the first: what the rest of the list makes is wrapped.
  unfoldable pub build_plugin_chain : Registry H → H → List PluginConfig → H
  build_plugin_chain reg engine [] = engine
  build_plugin_chain reg engine (pc ∷ pcs) = apply_plugin reg pc (build_plugin_chain reg engine pcs)

unfoldable pub enabled_plugin_names : List PluginConfig → List Bytes
enabled_plugin_names [] = []
enabled_plugin_names (pc ∷ pcs) =
    let names = enabled_plugin_names pcs in if pc.enabled then pc.name ∷ names else names

-- An engine as a handler, and url.Parse, are given.
module _ {H : Type 0} (parse_url : Bytes → Option Url)
    (engine_handler : Engine × Balancer → H) where
  abbrev pub build_route : Registry H → Config → RouteConfig → RouteEntry H
  build_route reg cfg route = record {
    name = route.name;
    host = route.host;
    path_prefix = route.path_prefix;
    handler =
        build_plugin_chain reg (engine_handler (build_route_engine parse_url cfg route))
          route.plugins;
    plugin_names = enabled_plugin_names route.plugins;
  }

  unfoldable pub build_routes : Registry H → Config → List (RouteEntry H)
  build_routes reg cfg = map (build_route reg cfg) cfg.proxy.routes

-- The gateway: the table behind its atomic pointer, and the plugins.
pub record Gateway (H : Type 0) : Type 0 where
  pub routes : List (RouteEntry H)
  pub plugin_reg : Registry H

module _ {H : Type 0} (parse_url : Bytes → Option Url)
    (engine_handler : Engine × Balancer → H) where
  unfoldable pub new_gateway : Config → Registry H → Gateway H
  new_gateway cfg reg = record {
    routes = build_routes parse_url engine_handler reg cfg;
    plugin_reg = reg;
  }

  unfoldable pub reload : Config → Gateway H → Gateway H
  reload cfg g = record g { routes = build_routes parse_url engine_handler g.plugin_reg cfg }

-- `Routes`: the upstreams are not filled in.
abbrev pub snapshot : {H : Type 0} → RouteEntry H → RouteSnapshot
snapshot e = record {
  name = e.name;
  path_prefix = e.path_prefix;
  host = e.host;
  plugins = e.plugin_names;
  upstreams = [];
}

unfoldable pub routes_of : {H : Type 0} → Gateway H → List RouteSnapshot
routes_of g = map snapshot g.routes

-- `ServeHTTP`: http.NotFound, or what the handler of the best route does. `W` is what an exchange
-- does.
module _ {H W : Type 0} (not_found : Request → W) (answer : H → Request → W) where
  abbrev pub serve_matched : Option (RouteEntry H) → Request → W
  serve_matched none r = not_found r
  serve_matched (some best) r = answer best.handler r

  unfoldable pub serve_http : Gateway H → Request → W
  serve_http g r = serve_matched (match_route g.routes r) r
