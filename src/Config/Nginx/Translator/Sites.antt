-- ===== src/Config/Nginx/Translator/Sites.antt =====
-- What such files are translated to by FromNginx of internal/config/nginx_translator.go.
use web_server.Prelude.{
  ℕ, ◌++◌, ◌<◌, ◌*◌, ◌%◌, two_63, two_64, if◌then◌else◌, ◌≡◌, refl, ap, ◌∙◌, List, [], ◌∷◌, map,
  Option, some,
}
use web_server.Text.{Bytes, codes, eqb, eqb_refl, lower}
use web_server.Text.Number.Decimal.{decimal}
use web_server.Config.Nginx.Units.{parse_size}
use web_server.Config.Nginx.Units.Printed.{parse_size-unit}
use web_server.Config.{Float, RouteConfig}
use web_server.Config.Nginx.{more}
use web_server.Config.Nginx.Translator.{
  name_algorithm, parse_upstream_block, assigned, upstream_nodes,
}
use web_server.Config.Nginx.Translator.Server.{
  algorithm_or, propagate, apply_server_block, empty_config, ServerState, server_nodes, top_nodes,
  from_nginx,
}
use web_server.Config.Nginx.Translator.Site.{
  Site, IsSite, name_of, line, backend_nodes, location_lines, server_lines, body_limit, site_nodes,
  upstream_at, route_at, site_upstreams, site_config, at_routes, site_groups,
}
use web_server.Config.Nginx.Translator.Passing.{
  upstream_nodes-backend_nodes, location_step, server_nodes-locations,
}

parse_upstream_block-site :
    (s : Site)
    → IsSite s
    → parse_upstream_block
        (more (line (codes "least_conn") []) (backend_nodes (s.backend ∷ s.backends)))
      ≡ (site_upstreams s, codes "least_conn")
unfolding parse_upstream_block upstream_nodes eqb
parse_upstream_block-site s i =
    upstream_nodes-backend_nodes (s.backend ∷ s.backends) [] (codes "least_conn") i.weights

assigned-site {ℓ} : {A : Type ℓ} (name : Bytes) (a : A) → assigned name ((name, a) ∷ []) ≡ some a
unfolding assigned
assigned-site name a = rw (eqb_refl name) refl

-- The size of a body in megabytes.
parse_megabytes : (m : ℕ) → m < two_63 → parse_size (decimal m ++ codes "m") ≡ m * 1048576 % two_64
unfolding lower
parse_megabytes m r = parse_size-unit m r b'm' 1048576 refl

module _ (parse_float : Bytes → Option Float) (by_60 : Float → Float) where
  -- The lines before the locations.
  server_nodes-head :
      (s : Site)
      → IsSite s
      → server_nodes parse_float by_60 (site_groups s) (server_lines s) (at_routes [] 0 [] [])
        ≡ server_nodes parse_float by_60
            (site_groups s)
            (location_lines (name_of s) (s.place ∷ s.places))
            (at_routes s.host (body_limit s) [] [])
  unfolding server_nodes eqb
  server_nodes-head s i =
      let go =
        server_nodes parse_float by_60 (site_groups s)
          (location_lines (name_of s) (s.place ∷ s.places)) in
      ap
        (λ b. go (
          at_routes (if b then [] else s.host) (parse_size (decimal s.megabytes ++ codes "m")) []
            []))
        i.host
      ∙ ap (λ m. go (at_routes s.host m [] [])) (parse_megabytes s.megabytes i.body)

  apply_server_block-site :
      (s : Site)
      → IsSite s
      → apply_server_block parse_float by_60 (site_groups s) (server_lines s) empty_config
        ≡ site_config s
  unfolding apply_server_block server_nodes
  apply_server_block-site s i =
      let g = site_groups s in
      let c = s.first_byte in
      let us = map upstream_at s.backends in
      let limit = body_limit s in
      let found = assigned-site (name_of s) (site_upstreams s) in
      let routes : List RouteConfig = route_at s.host limit (site_upstreams s) s.place ∷ [] in
      let go = server_nodes parse_float by_60 g (location_lines (name_of s) s.places) in
      let first =
        location_step g c s.name_rest (upstream_at s.backend) us s.host limit parse_float by_60
          s.place [] [] i.name found i.places.0 in
      let known : propagate g [] (name_of s) ≡ codes "least_conn" =
        ap (algorithm_or []) (assigned-site (name_of s) (codes "least_conn")) in
      let rest =
        server_nodes-locations g c s.name_rest (upstream_at s.backend) us s.host limit parse_float
          by_60 s.places routes i.name found i.places.1 in
      ap ServerState.cfg (
        server_nodes-head s i
        ∙ ap go first
        ∙ ap (λ a. go (at_routes s.host limit a routes)) known
        ∙ rest)

  -- The configuration of such a file: the locations' routes in their order, each with the server's
  -- name, the limit on bodies and its own timeout, to all addresses of the group with their
  -- weights and a scheme, and the group's algorithm.
  pub from_nginx-site_nodes :
      (s : Site) → IsSite s → from_nginx parse_float by_60 (site_nodes s) ≡ site_config s
  unfolding from_nginx top_nodes eqb
  from_nginx-site_nodes s i =
      ap
        (λ r.
          apply_server_block parse_float by_60
            (record {
              upstreams = (name_of s, r.0) ∷ [];
              algorithms = name_algorithm (name_of s) r.1 [];
            })
            (server_lines s) empty_config)
        (parse_upstream_block-site s i)
      ∙ apply_server_block-site s i
