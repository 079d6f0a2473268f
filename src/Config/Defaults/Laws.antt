-- ===== src/Config/Defaults/Laws.antt =====
-- What `applyDefaults` of internal/config/config.go does to a configuration.
use web_server.Prelude.{ℕ, ◌≡◌, ◌≢◌, refl, false, List, [], ◌∷◌, map, arith, All, sle}
use web_server.Text.{Bytes}
use web_server.Config.{Config, RouteConfig, UpstreamConfig}
use web_server.Config.Defaults.{
  codes, text_or, types_or, default_upstream, default_route, apply_defaults,
}

abbrev pub IsWeighted : UpstreamConfig → Type 0
IsWeighted u = sle u.weight 0 ≡ false

pub record IsRouteComplete (r : RouteConfig) : Type 0 where
  pub has_prefix : r.path_prefix ≢ []
  pub has_timeout : r.timeout_seconds ≢ 0
  pub has_retries : r.max_retries ≢ 0
  pub has_threshold : r.circuit_breaker.failure_threshold ≢ 0
  pub has_duration : r.circuit_breaker.open_duration_seconds ≢ 0
  pub has_probes : r.circuit_breaker.half_open_requests ≢ 0
  pub weighted : All IsWeighted r.upstreams

pub record IsComplete (c : Config) : Type 0 where
  pub has_admin_host : c.admin.host ≢ []
  pub has_admin_port : c.admin.port ≢ 0
  pub has_level : c.gzip.level ≢ 0
  pub has_min_length : c.gzip.min_length ≢ 0
  pub has_types : c.gzip.content_types ≢ []
  pub has_health_path : c.health.path ≢ []
  pub has_interval : c.health.interval_seconds ≢ 0
  pub has_health_timeout : c.health.timeout_seconds ≢ 0
  pub routes : All IsRouteComplete c.proxy.routes

text_or-ne-nil : (s : Bytes) (c : ℕ) (d : Bytes) → text_or s (c ∷ d) ≢ []
text_or-ne-nil [] c d = cc
text_or-ne-nil (x ∷ s) c d = cc

types_or-ne-nil : (ts : List Bytes) → types_or ts ≢ []
types_or-ne-nil [] = cc
types_or-ne-nil (t ∷ ts) = cc

upstreams_weighted : (us : List UpstreamConfig) → All IsWeighted (map default_upstream us)
upstreams_weighted [] = tt
upstreams_weighted (u ∷ us) = (ground arith, upstreams_weighted us)

default_route-IsRouteComplete : (r : RouteConfig) → IsRouteComplete (default_route r)
default_route-IsRouteComplete r = record {
  has_prefix = text_or-ne-nil r.path_prefix _ _;
  has_timeout = ground arith;
  has_retries = ground arith;
  has_threshold = ground arith;
  has_duration = ground arith;
  has_probes = ground arith;
  weighted = upstreams_weighted r.upstreams;
}

routes_complete : (rs : List RouteConfig) → All IsRouteComplete (map default_route rs)
routes_complete [] = tt
routes_complete (r ∷ rs) = (default_route-IsRouteComplete r, routes_complete rs)

-- Whatever was configured, after `applyDefaults` every field that has a default is set, in the
-- settings of each route too, and every weight is positive.
pub apply_defaults-IsComplete : (c : Config) → IsComplete (apply_defaults c)
unfolding apply_defaults
apply_defaults-IsComplete c = record {
  has_admin_host = text_or-ne-nil c.admin.host _ _;
  has_admin_port = ground arith;
  has_level = ground arith;
  has_min_length = ground arith;
  has_types = types_or-ne-nil c.gzip.content_types;
  has_health_path = text_or-ne-nil c.health.path _ _;
  has_interval = ground arith;
  has_health_timeout = ground arith;
  routes = routes_complete c.proxy.routes;
}

text_or_set : (s d : Bytes) → s ≢ [] → text_or s d ≡ s
text_or_set [] d h = absurd (h refl)
text_or_set (c ∷ s) d h = refl

types_or_set : (ts : List Bytes) → ts ≢ [] → types_or ts ≡ ts
types_or_set [] h = absurd (h refl)
types_or_set (t ∷ ts) h = refl

upstreams_kept : (us : List UpstreamConfig) → All IsWeighted us → map default_upstream us ≡ us
upstreams_kept [] h = refl
upstreams_kept (u ∷ us) h =
    let same : default_upstream u ≡ u = ground arith in cc (same, upstreams_kept us h.1)

default_route_kept : (r : RouteConfig) → IsRouteComplete r → default_route r ≡ r
default_route_kept r h =
    ground (arith, text_or_set r.path_prefix (b'/' ∷ []), upstreams_kept r.upstreams)

routes_kept : (rs : List RouteConfig) → All IsRouteComplete rs → map default_route rs ≡ rs
routes_kept [] h = refl
routes_kept (r ∷ rs) h = cc (default_route_kept r h.0, routes_kept rs h.1)

-- A configuration in which all of this is set is not changed by `applyDefaults`.
pub apply_defaults_kept : (c : Config) → IsComplete c → apply_defaults c ≡ c
unfolding apply_defaults
apply_defaults_kept c h = ground (
  arith,
  text_or_set c.admin.host (codes "127.0.0.1"),
  text_or_set c.health.path (codes "/"),
  types_or_set c.gzip.content_types,
  routes_kept c.proxy.routes,
)

-- Applying the defaults a second time, as a reload of an unchanged file would, changes nothing.
pub apply_defaults_idem : (c : Config) → apply_defaults (apply_defaults c) ≡ apply_defaults c
apply_defaults_idem c = apply_defaults_kept (apply_defaults c) (apply_defaults-IsComplete c)
