-- ===== src/Metrics.antt =====
-- internal/metrics/metrics.go: the collectors of the gateway and their registration. The registry of
-- the package prometheus is given as a type `G` with `Register`, which fails with no change.
use web_server.Prelude.{ℕ, ◌≡◌, refl, ap, ◌∙◌, List, [], ◌∷◌, All, Option, none, some, length}
use web_server.Text.{Bytes, codes}
use web_server.Proxy.Engine.{
  Effect, http_error, sent, relayed, tunnelled, slept, count_request, observe_duration,
  count_failure, count_circuit, count_retry, set_active,
}

pub data Kind : Type 0 where
  counter histogram gauge : Kind

pub record Collector : Type 0 where
  pub kind : Kind
  pub name : Bytes
  pub labels : List Bytes

abbrev upstream_labels : List Bytes
upstream_labels = codes "route" ∷ codes "upstream" ∷ []

abbrev pub requests : Collector
requests = record {
  kind = counter;
  name = codes "gateway_requests_total";
  labels = codes "route" ∷ codes "method" ∷ codes "status" ∷ codes "upstream" ∷ [];
}

abbrev pub duration : Collector
duration = record {
  kind = histogram;
  name = codes "gateway_request_duration_seconds";
  labels = codes "route" ∷ codes "method" ∷ codes "upstream" ∷ [];
}

abbrev pub upstream_failures : Collector
upstream_failures = record {
  kind = counter;
  name = codes "gateway_upstream_failures_total";
  labels = upstream_labels;
}

abbrev pub retries : Collector
retries = record { kind = counter; name = codes "gateway_retries_total"; labels = upstream_labels }

abbrev pub circuits : Collector
circuits = record {
  kind = counter;
  name = codes "gateway_circuit_breaker_open_total";
  labels = upstream_labels;
}

abbrev pub active : Collector
active = record {
  kind = gauge;
  name = codes "gateway_active_connections";
  labels = upstream_labels;
}

-- The collectors of a `Registry`.
abbrev pub collectors : List Collector
collectors = requests ∷ duration ∷ upstream_failures ∷ retries ∷ circuits ∷ active ∷ []

module _ {G : Type 0} (register : Collector → G → Option G) where
  -- A failed registration is ignored.
  abbrev registered_or : G → Option G → G
  registered_or g none = g
  registered_or g (some g') = g'

  unfoldable pub register_global : List Collector → G → G
  register_global [] g = g
  register_global (c ∷ cs) g = register_global cs (registered_or g (register c g))

  -- `New`, on the registry that all share.
  abbrev pub new_metrics : G → G
  new_metrics g = register_global collectors g

  -- Where all are registered, and so refused, nothing changes: the collectors of a second `New` are
  -- not among those that are shown.
  pub register_global-refused :
      (cs : List Collector) (g : G) → All (λ c. register c g ≡ none) cs → register_global cs g ≡ g
  unfolding register_global
  register_global-refused [] g h = refl
  register_global-refused (c ∷ cs) g h =
      ap (λ o. register_global cs (registered_or g o)) h.0 ∙ register_global-refused cs g h.1

module _ (route method : Bytes) (itoa : ℕ → Bytes) where
  abbrev label : Option Bytes → Bytes
  label none = codes "none"
  label (some host) = host

  abbrev gauges : List (Bytes × ℕ) → List (Collector × List Bytes)
  gauges [] = []
  gauges ((host, conns) ∷ us) = (active, route ∷ host ∷ []) ∷ gauges us

  -- The calls of WithLabelValues behind an effect of the engine.
  unfoldable pub updates : Effect → List (Collector × List Bytes)
  updates (count_request status upstream) =
      (requests, route ∷ method ∷ itoa status ∷ label upstream ∷ []) ∷ []
  updates (observe_duration upstream) = (duration, route ∷ method ∷ label upstream ∷ []) ∷ []
  updates (count_failure upstream) = (upstream_failures, route ∷ upstream ∷ []) ∷ []
  updates (count_circuit upstream) = (circuits, route ∷ upstream ∷ []) ∷ []
  updates (count_retry upstream) = (retries, route ∷ upstream ∷ []) ∷ []
  updates (set_active us) = gauges us
  updates _ = []

  -- As many values as the collector has labels.
  abbrev pub IsLabelled : Collector × List Bytes → Type 0
  IsLabelled (c, values) = length values ≡ length c.labels

  gauges-IsLabelled : (us : List (Bytes × ℕ)) → All IsLabelled (gauges us)
  gauges-IsLabelled [] = tt
  gauges-IsLabelled (u ∷ us) = (refl, gauges-IsLabelled us)

  -- WithLabelValues panics when the number of values is not that of the labels: no effect of the
  -- engine makes it.
  pub updates-IsLabelled : (e : Effect) → All IsLabelled (updates e)
  unfolding updates
  updates-IsLabelled (http_error status) = tt
  updates-IsLabelled (sent url r) = tt
  updates-IsLabelled (relayed resp) = tt
  updates-IsLabelled (tunnelled url acts) = tt
  updates-IsLabelled (slept d) = tt
  updates-IsLabelled (count_request status upstream) = (refl, tt)
  updates-IsLabelled (observe_duration upstream) = (refl, tt)
  updates-IsLabelled (count_failure upstream) = (refl, tt)
  updates-IsLabelled (count_circuit upstream) = (refl, tt)
  updates-IsLabelled (count_retry upstream) = (refl, tt)
  updates-IsLabelled (set_active us) = gauges-IsLabelled us
