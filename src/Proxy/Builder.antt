-- ===== src/Proxy/Builder.antt =====
-- internal/proxy/builder.go: the engine of a route from its configuration. url.Parse of net/url is
-- given. The health checks that are started for the upstreams run beside it and are not modelled.
pub mod Laws
use web_server.Prelude.{
  ℕ, ◌*◌, ◌%◌, ◌==◌, Bool, true, false, if◌then◌else◌, List, [], ◌∷◌, Option, none, some, two_64,
}
use web_server.Text.{Bytes, codes, eqb}
use web_server.Config.{Config, RouteConfig, UpstreamConfig, CircuitBreakerConfig}
use web_server.Upstream.{Upstream, Url, circuit_closed}
use web_server.Lb.{Algorithm, Balancer, round_robin, weighted_round_robin, least_connections}
use web_server.Proxy.Engine.{Engine}

-- `intOr`.
abbrev pub int_or : ℕ → ℕ → ℕ
int_or v def = if v == 0 then def else v

-- `time.Duration(n) * time.Second`.
abbrev pub seconds : ℕ → ℕ
seconds n = n * 1_000_000_000 % two_64

-- A fresh upstream: all fields that the composite literal leaves out are zero.
abbrev pub new_upstream : CircuitBreakerConfig → Url → UpstreamConfig → Upstream
new_upstream cb parsed raw = record {
  url = parsed;
  healthy = true;
  active_conns = 0;
  weight = raw.weight;
  failure_count = 0;
  circuit_open_until = 0;
  circuit_state = circuit_closed;
  half_open_in_flight = 0;
  cb_failure_threshold = int_or cb.failure_threshold 3;
  cb_open_duration = seconds (int_or cb.open_duration_seconds 30);
  cb_half_open_requests = int_or cb.half_open_requests 1;
}

-- One round of the loop over the upstreams: an address that cannot be parsed is left out.
abbrev pub append_upstream :
    CircuitBreakerConfig → UpstreamConfig → Option Url → List Upstream → List Upstream
append_upstream cb raw none rest = rest
append_upstream cb raw (some parsed) rest = new_upstream cb parsed raw ∷ rest

unfoldable pub build_upstreams :
    (Bytes → Option Url) → CircuitBreakerConfig → List UpstreamConfig → List Upstream
build_upstreams parse_url cb [] = []
build_upstreams parse_url cb (raw ∷ raws) =
    append_upstream cb raw (parse_url raw.url) (build_upstreams parse_url cb raws)

abbrev pub algorithm_of : Bytes → Algorithm
algorithm_of name =
    if eqb name (codes "least_conn")
    then least_connections
    else (if eqb name (codes "weighted_rr") then weighted_round_robin else round_robin)

unfoldable pub build_route_engine : (Bytes → Option Url) → Config → RouteConfig → Engine × Balancer
build_route_engine parse_url cfg route = (
  record {
    route_name = route.name;
    max_retries = int_or route.max_retries 2;
    max_body_bytes = route.max_body_bytes;
    timeout = seconds (int_or route.timeout_seconds 30);
  },
  record {
    algorithm = algorithm_of cfg.proxy.algorithm;
    targets = build_upstreams parse_url route.circuit_breaker route.upstreams;
    counter = 0;
  },
)
