-- ===== src/Admin/Laws.antt =====
-- What the admin API answers, and what it does to the gateway.
use web_server.Prelude.{◌≡◌, refl, ap, ◌∙◌, true, List, [], ◌∷◌, map, Option, none, some}
use web_server.Text.{Bytes}
use web_server.Upstream.{Url}
use web_server.Lb.{Balancer}
use web_server.Config.{Config}
use web_server.Config.Loading.{Files, reload_config}
use web_server.Proxy.Engine.{Engine}
use web_server.Proxy.Gateway.{Registry, RouteEntry, snapshot, routes_of, new_gateway, reload}
use mathlib.Core.Path.{ap₂}
use web_server.Admin.{
  Endpoint, get_routes, get_route, get_upstreams, post_reload, get_health, Answer, reloaded,
  http_error, serve_endpoint, handle_routes, handle_route, handle_health, Server, upstreams_json,
  rows, handle_upstreams, reload_with, handle_reload,
}

module _ {H : Type 0} where
  rows-snapshot : (entries : List (RouteEntry H)) → rows (map snapshot entries) ≡ []
  rows-snapshot [] = refl
  rows-snapshot (e ∷ entries) = rows-snapshot entries

  -- Whatever routes and upstreams the gateway has, the list of upstreams is empty.
  pub handle_upstreams_empty : (s : Server H) → handle_upstreams s ≡ upstreams_json []
  unfolding handle_upstreams routes_of
  handle_upstreams_empty s = ap upstreams_json (rows-snapshot s.gw.routes)

module _ {H : Type 0} (parse_url : Bytes → Option Url)
    (engine_handler : Engine × Balancer → H) where
  -- A run of requests for a reload, with what they find.
  abbrev pub reload_requests : List Files → Server H → Server H
  reload_requests [] s = s
  reload_requests (files ∷ rest) s =
      reload_requests rest (handle_reload parse_url engine_handler true files s).0

  -- The last configuration that could be read, or the one before.
  abbrev pub or_kept : Option Config → Config → Config
  or_kept none kept = kept
  or_kept (some cfg) kept = cfg

  abbrev pub last_read : List Files → Config → Config
  last_read [] kept = kept
  last_read (files ∷ rest) kept = last_read rest (or_kept (reload_config files true) kept)

  -- A server whose gateway is that of its configuration.
  abbrev pub server_of : Registry H → Config → Server H
  server_of reg cfg = record { gw = new_gateway parse_url engine_handler cfg reg; cfg = cfg }

  reload_with-server_of :
      (reg : Registry H) (o : Option Config) (kept : Config)
      → (reload_with parse_url engine_handler o (server_of reg kept)).0
        ≡ server_of reg (or_kept o kept)
  unfolding reload new_gateway
  reload_with-server_of reg none kept = refl
  reload_with-server_of reg (some cfg) kept = refl

  -- After any run of requests for a reload, those included that fail, the gateway is one that is
  -- new with the last configuration that could be read, or the first one if none could, and the
  -- same plugins; the server's configuration is the same one.
  pub reload_requests-server_of :
      (reg : Registry H) (runs : List Files) (start : Config)
      → reload_requests runs (server_of reg start) ≡ server_of reg (last_read runs start)
  unfolding handle_reload
  reload_requests-server_of reg [] start = refl
  reload_requests-server_of reg (files ∷ rest) start =
      ap (reload_requests rest) (reload_with-server_of reg (reload_config files true) start)
      ∙ reload_requests-server_of reg rest (or_kept (reload_config files true) start)

  -- A run of requests to the API, each with what a reload finds then: the server afterwards, and
  -- the answers.
  abbrev pub api_requests : List (Endpoint × Files) → Server H → Server H × List Answer
  api_requests [] s = (s, [])
  api_requests ((endpoint, files) ∷ rest) s =
      let (s', answer) = serve_endpoint parse_url engine_handler true files endpoint s in
      let (s'', answers) = api_requests rest s' in (s'', answer ∷ answers)

  -- What a request reads: a configuration, if it is for a reload and finds one.
  abbrev pub read_by : Endpoint → Files → Option Config
  read_by post_reload files = reload_config files true
  read_by _ files = none

  -- The answer of a server that is new with a configuration.
  abbrev pub reload_answer : Option Config → Answer
  reload_answer none = http_error 500
  reload_answer (some cfg) = reloaded

  abbrev pub answer_of : Endpoint → Files → Server H → Answer
  answer_of get_routes files s = handle_routes s
  answer_of (get_route name) files s = handle_route name s
  answer_of get_upstreams files s = handle_upstreams s
  answer_of post_reload files s = reload_answer (reload_config files true)
  answer_of get_health files s = handle_health s

  abbrev pub answers_from : Registry H → List (Endpoint × Files) → Config → List Answer
  answers_from reg [] cfg = []
  answers_from reg ((endpoint, files) ∷ rest) cfg =
      answer_of endpoint files (server_of reg cfg)
      ∷ answers_from reg rest (or_kept (read_by endpoint files) cfg)

  abbrev pub read_last : List (Endpoint × Files) → Config → Config
  read_last [] cfg = cfg
  read_last ((endpoint, files) ∷ rest) cfg = read_last rest (or_kept (read_by endpoint files) cfg)

  reload_with-answer :
      (o : Option Config) (s : Server H)
      → (reload_with parse_url engine_handler o s).1 ≡ reload_answer o
  reload_with-answer none s = refl
  reload_with-answer (some cfg) s = refl

  serve_endpoint-server_of :
      (reg : Registry H) (endpoint : Endpoint) (files : Files) (cfg : Config)
      → serve_endpoint parse_url engine_handler true files endpoint (server_of reg cfg) ≡ (
        server_of reg (or_kept (read_by endpoint files) cfg),
        answer_of endpoint files (server_of reg cfg),
      )
  unfolding serve_endpoint handle_reload
  serve_endpoint-server_of reg get_routes files cfg = refl
  serve_endpoint-server_of reg (get_route name) files cfg = refl
  serve_endpoint-server_of reg get_upstreams files cfg = refl
  serve_endpoint-server_of reg get_health files cfg = refl
  serve_endpoint-server_of reg post_reload files cfg =
      let o = reload_config files true in
      ap₂ (λ s a. (s, a)) (reload_with-server_of reg o cfg)
        (reload_with-answer o (server_of reg cfg))

  -- Whatever requests the API gets, in any order, reloads that fail included: after them the gateway
  -- is one that is new with the last configuration that could be read, or the first one if none
  -- could, and the same plugins, and the server's configuration is that one; and each request is
  -- answered as by a server that is new with the last one before it, a reload by whether it could
  -- read one.
  pub api_requests-server_of :
      (reg : Registry H) (rs : List (Endpoint × Files)) (start : Config)
      → api_requests rs (server_of reg start)
        ≡ (server_of reg (read_last rs start), answers_from reg rs start)
  api_requests-server_of reg [] start = refl
  api_requests-server_of reg ((endpoint, files) ∷ rest) start =
      ap (λ (p : Server H × Answer). ((api_requests rest p.0).0, p.1 ∷ (api_requests rest p.0).1))
        (serve_endpoint-server_of reg endpoint files start)
      ∙ ap
          (λ (p : Server H × List Answer).
            (p.0, answer_of endpoint files (server_of reg start) ∷ p.1))
          (api_requests-server_of reg rest (or_kept (read_by endpoint files) start))
