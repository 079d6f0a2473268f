-- ===== src/Router.antt =====
-- internal/router/router.go: the middlewares around the gateway, and what is mounted beside it. The
-- router is that of go-chi: it keeps what `Use` is given in its order.
pub mod Order
use web_server.Prelude.{
  ℕ, Bool, true, false, not, if◌then◌else◌, List, [], ◌∷◌, ◌++◌, Option, none, some,
}
use web_server.Text.{Bytes, codes}
use web_server.Config.{Config, PluginConfig, RateConfig, GzipConfig, Fields}
use web_server.Proxy.Gateway.{Registry, Factory, get, make}

-- What `Use` is given.
pub data Use (H : Type 0) : Type 0 where
  request_id recovery logging cors : Use H
  timeout : ℕ → Use H
  rate_limit : RateConfig → Use H
  gzip : GzipConfig → Use H
  plugin : (H → H) → Use H

pub data Mount : Type 0 where
  health metrics gateway : Mount

module _ {H : Type 0} where
  abbrev pub base_uses : Config → List (Use H)
  base_uses cfg =
      request_id
      ∷ recovery
      ∷ timeout 30_000_000_000
      ∷ logging
      ∷ rate_limit cfg.rate
      ∷ cors
      ∷ (if cfg.gzip.enabled then gzip cfg.gzip ∷ [] else [])

  abbrev pub use_made : Option (H → H) → List (Use H) → List (Use H)
  use_made none uses = uses
  use_made (some mw) uses = uses ++ plugin mw ∷ []

  -- The loop over the global plugins, each of which is appended.
  unfoldable pub use_plugins : Registry H → List PluginConfig → List (Use H) → List (Use H)
  use_plugins reg [] uses = uses
  use_plugins reg (pc ∷ pcs) uses =
      use_plugins reg pcs
        (if not pc.enabled then uses else use_made (make (get reg pc.name) pc.config) uses)

  unfoldable pub new_router : Registry H → Config → List (Use H) × List (Bytes × Mount)
  new_router reg cfg = (
    use_plugins reg cfg.plugins (base_uses cfg),
    (codes "/health", health) ∷ (codes "/metrics", metrics) ∷ (codes "/*", gateway) ∷ [],
  )
