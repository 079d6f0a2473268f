-- ===== src/Config/Defaults.antt =====
-- `applyDefaults` of internal/config/config.go.
pub mod Laws
use web_server.Prelude.{ℕ, List, [], ◌∷◌, map, ◌==◌, if◌then◌else◌, sle}
use web_server.Text.{Bytes, codes}
use web_server.Config.{
  Config, RouteConfig, UpstreamConfig, CircuitBreakerConfig, AdminConfig, GzipConfig, HealthConfig,
}

-- A number or a text that is not set, and its default.
abbrev pub or_default : ℕ → ℕ → ℕ
or_default v def = if v == 0 then def else v

abbrev pub text_or : Bytes → Bytes → Bytes
text_or [] def = def
text_or (c ∷ s) def = c ∷ s

abbrev pub default_content_types : List Bytes
default_content_types =
    codes "text/plain"
    ∷ codes "text/html"
    ∷ codes "text/css"
    ∷ codes "application/json"
    ∷ codes "application/javascript"
    ∷ []

abbrev pub types_or : List Bytes → List Bytes
types_or [] = default_content_types
types_or (t ∷ ts) = t ∷ ts

abbrev pub default_admin : AdminConfig → AdminConfig
default_admin a = record a {
  host = text_or a.host (codes "127.0.0.1");
  port = or_default a.port 8090;
}

abbrev pub default_gzip : GzipConfig → GzipConfig
default_gzip g = record g {
  level = or_default g.level 6;
  min_length = or_default g.min_length 1024;
  content_types = types_or g.content_types;
}

abbrev pub default_health : HealthConfig → HealthConfig
default_health h = record h {
  path = text_or h.path (codes "/");
  interval_seconds = or_default h.interval_seconds 5;
  timeout_seconds = or_default h.timeout_seconds 2;
}

abbrev pub default_upstream : UpstreamConfig → UpstreamConfig
default_upstream u = record u { weight = if sle u.weight 0 then 1 else u.weight }

abbrev pub default_breaker : CircuitBreakerConfig → CircuitBreakerConfig
default_breaker b = record b {
  failure_threshold = or_default b.failure_threshold 3;
  open_duration_seconds = or_default b.open_duration_seconds 30;
  half_open_requests = or_default b.half_open_requests 1;
}

-- The body of the loop over the routes.
abbrev pub default_route : RouteConfig → RouteConfig
default_route r = record r {
  path_prefix = text_or r.path_prefix (codes "/");
  timeout_seconds = or_default r.timeout_seconds 30;
  max_retries = or_default r.max_retries 2;
  circuit_breaker = default_breaker r.circuit_breaker;
  upstreams = map default_upstream r.upstreams;
}

unfoldable pub apply_defaults : Config → Config
apply_defaults c = record c {
  admin = default_admin c.admin;
  gzip = default_gzip c.gzip;
  health = default_health c.health;
  proxy = record c.proxy { routes = map default_route c.proxy.routes };
}
