-- ===== src/Plugin/RateLimit/Translated.antt =====
-- The rate limiter that a `limit_req` of an nginx file becomes.
use web_server.Prelude.{ℕ, ap, ◌∙◌, ◌/◌, ◌<◌, ◌≡◌, List, [], ◌∷◌, ◌++◌, some, arith, ◌^◌}
use web_server.Text.{Bytes, codes, eqb}
use web_server.Config.{float, PluginConfig}
use web_server.Config.Float64.{halved, to_float64_exact}
use web_server.Config.Maps.{field_of}
use web_server.Config.Nginx.Units.{parse_limit_req_burst}
use web_server.Config.Nginx.Translator.{Groups}
use web_server.Config.Nginx.Translator.Location.{Location, rate_plugin, location_node}
use web_server.Plugin.{float_val}
use web_server.Plugin.RateLimit.{new_rate_limit, with_rate}

rate_plugin-burst :
    (n : ℕ)
    → 0 < n
    → n < 2 ^ 53
    → new_rate_limit (rate_plugin n).config
      ≡ some (record { rps = record { mantissa = n; exponent = 1 }; burst = n / 2 })
unfolding new_rate_limit float_val field_of eqb
rate_plugin-burst n p h =
    let exact = to_float64_exact n h in
    ap (λ f. with_rate (some (float (halved f))) 0) exact ∙ ground (arith, p, h)

-- A `limit_req` with a burst below 2 ^ 53 becomes a rate limiter whose rate and whose buckets are
-- half of that burst, since the plugin reads a float64 where the translator has written an int: with
-- a burst of 1 the buckets hold nothing.
pub limit_req-burst :
    (groups : Groups) (args : List Bytes) (l : Location) (n : ℕ)
    → parse_limit_req_burst args ≡ n
    → 0 < n
    → n < 2 ^ 53
    → (p : PluginConfig) × ((location_node groups (codes "limit_req") args l).route.plugins
        ≡ l.route.plugins ++ p ∷ [])
      × (new_rate_limit p.config
          ≡ some (record { rps = record { mantissa = n; exponent = 1 }; burst = n / 2 }))
unfolding eqb
limit_req-burst groups args l n e p h = (rate_plugin n, ground (arith, e), rate_plugin-burst n p h)
