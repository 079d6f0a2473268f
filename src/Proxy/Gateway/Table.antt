-- ===== src/Proxy/Gateway/Table.antt =====
-- The table of routes: what a reload leaves of the old one, and who answers a request.
use web_server.Prelude.{All, ◌⊎◌, inl, inr, ◌≡◌, refl, ap, List, [], ◌∷◌, Option}
use web_server.Text.{Bytes}
use web_server.Config.{Config}
use web_server.Upstream.{Url}
use web_server.Lb.{Balancer}
use web_server.Http.Message.{Request}
use web_server.Proxy.Engine.{Engine}
use web_server.Proxy.Gateway.{
  Registry, RouteEntry, Gateway, new_gateway, reload, serve_http, serve_matched,
}
use web_server.Proxy.Gateway.Matching.{IsBest, Ignores, match_route-IsBest}

module _ {H : Type 0} (parse_url : Bytes → Option Url)
    (engine_handler : Engine × Balancer → H) where
  -- A run of reloads.
  abbrev pub reloads : List Config → Gateway H → Gateway H
  reloads [] g = g
  reloads (cfg ∷ cfgs) g = reloads cfgs (reload parse_url engine_handler cfg g)

  -- After a run of reloads that ends with a configuration, the gateway is one that is new with that
  -- configuration and the same plugins.
  pub reloads-new_gateway :
      (cfgs : List Config) (start last : Config) (reg : Registry H)
      → reload parse_url engine_handler last
          (reloads cfgs (new_gateway parse_url engine_handler start reg))
        ≡ new_gateway parse_url engine_handler last reg
  unfolding reload new_gateway
  reloads-new_gateway [] start last reg = refl
  reloads-new_gateway (cfg ∷ cfgs) start last reg = reloads-new_gateway cfgs cfg last reg

module _ {H W : Type 0} (not_found : Request → W) (answer : H → Request → W) where
  -- A request is answered by the handler of a route of the table that accepts it, such that no
  -- accepting route has a higher score and none before it has the same, or by NotFound, if no route
  -- accepts it.
  pub serve_http-answers :
      (g : Gateway H) (r : Request)
      → (All (Ignores r) g.routes × (serve_http not_found answer g r ≡ not_found r))
        ⊎ ((best : RouteEntry H) × IsBest r best g.routes
            × (serve_http not_found answer g r ≡ answer best.handler r))
  unfolding serve_http
  serve_http-answers g r = elim (match_route-IsBest g.routes r) [
    | inl (ignored, none_found) ↦
        inl (ignored, ap (λ o. serve_matched not_found answer o r) none_found)
    | inr (best, is_best, found) ↦
        inr (best, is_best, ap (λ o. serve_matched not_found answer o r) found)
  ]
