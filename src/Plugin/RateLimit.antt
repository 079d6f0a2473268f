-- ===== src/Plugin/RateLimit.antt =====
-- internal/plugin/plugins/rate_limit.go: the settings of a rate limiter (Middleware/RateLimit).
pub mod Translated
use web_server.Prelude.{
  ℕ, ◌==◌, sle, Bool, true, false, if◌then◌else◌, List, [], ◌∷◌, Option, none, some,
}
use web_server.Text.{Bytes, codes}
use web_server.Config.{Value, Fields, Float, float}
use web_server.Config.Maps.{field_of}
use web_server.Config.Nginx.Units.{trunc}
use web_server.Plugin.{float_val}

-- The rate and the size of the buckets.
pub record RateLimit : Type 0 where
  pub rps : Float
  pub burst : ℕ

abbrev pub burst_or : Float → ℕ → ℕ
burst_or rps burst = if sle burst 0 then trunc rps else burst

abbrev pub with_rate : Option Value → ℕ → Option RateLimit
with_rate (some (float rps)) burst =
    if rps.mantissa == 0 then none else some (record { rps = rps; burst = burst_or rps burst })
with_rate _ burst = none

-- `New`; `none` is the error for a rate that is missing or not positive.
unfoldable pub new_rate_limit : Fields → Option RateLimit
new_rate_limit cfg =
    with_rate (field_of (codes "requests_per_second") cfg) (trunc (float_val cfg (codes "burst")))
