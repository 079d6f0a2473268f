-- ===== src/Proxy/Builder/Laws.antt =====
-- internal/proxy/builder.go: the upstreams of a new route.
use web_server.Prelude.{ℕ, ◌≡◌, ◌↔◌, refl, List, [], ◌∷◌, Option, none, some, All}
use web_server.Text.{Bytes}
use web_server.Config.{Config, RouteConfig, UpstreamConfig, CircuitBreakerConfig}
use web_server.Upstream.{Upstream, Url}
use web_server.Lb.{next}
use web_server.Lb.Candidates.{NoneAvailable}
use web_server.Lb.Selection.{next-none_iff}
use web_server.Proxy.Builder.{append_upstream, build_upstreams, build_route_engine}

append_upstream-none_iff :
    {R : Type 0} (clock : ℕ → ℕ) (i : ℕ) (cb : CircuitBreakerConfig) (raw : UpstreamConfig)
    (o : Option Url) (rest : List Upstream)
    → (NoneAvailable clock i rest ↔ R)
    → NoneAvailable clock i (append_upstream cb raw o rest) ↔ ((o ≡ none) × R)
append_upstream-none_iff clock i cb raw none rest h = (λ n. (refl, h.0 n), λ n. h.1 n.1)
append_upstream-none_iff clock i cb raw (some u) rest h = (λ n. cc (n.0), λ n. cc (n.0))

module _ (parse_url : Bytes → Option Url) where
  -- The address cannot be parsed.
  abbrev pub IsUnparsed : UpstreamConfig → Type 0
  IsUnparsed raw = parse_url raw.url ≡ none

  build_upstreams-none_iff :
      (clock : ℕ → ℕ) (i : ℕ) (cb : CircuitBreakerConfig) (raws : List UpstreamConfig)
      → NoneAvailable clock i (build_upstreams parse_url cb raws) ↔ All IsUnparsed raws
  unfolding build_upstreams
  build_upstreams-none_iff clock i cb [] = (λ h. tt, λ h. tt)
  build_upstreams-none_iff clock i cb (raw ∷ raws) =
      append_upstream-none_iff clock i cb raw (parse_url raw.url)
        (build_upstreams parse_url cb raws) (build_upstreams-none_iff clock i cb raws)

  -- The first request to a route fails to get an upstream exactly when none of the configured
  -- addresses can be parsed, whatever algorithm and breaker settings are configured.
  pub build_route_engine-none_iff :
      (clock : ℕ → ℕ) (cfg : Config) (route : RouteConfig)
      → ((next clock (build_route_engine parse_url cfg route).1).1 ≡ none)
        ↔ All IsUnparsed route.upstreams
  unfolding build_route_engine
  build_route_engine-none_iff clock cfg route =
      let base = next-none_iff clock (build_route_engine parse_url cfg route).1 in
      let ups = build_upstreams-none_iff clock 0 route.circuit_breaker route.upstreams in
      (λ h. ups.0 (base.0 h), λ h. base.1 (ups.1 h))
