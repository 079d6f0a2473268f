-- ===== src/Config.antt =====
-- internal/config/config.go: the configuration. An int is a 64-bit word; a float64 is a number
-- m / 2 ^ k, and only values that are not negative occur in a configuration.
pub mod Float64
pub mod Maps
pub mod Defaults
pub mod Nginx
pub mod Loading
use web_server.Prelude.{ℕ, Bool, List}
use web_server.Text.{Bytes}

pub record Float : Type 0 where
  pub mantissa : ℕ
  pub exponent : ℕ

-- What a map[string]interface{} holds.
mutual
  pub data Value : Type 0 where
    text : Bytes → Value
    flag : Bool → Value
    int : ℕ → Value
    float : Float → Value
    items : Values → Value
    fields : Fields → Value

  pub data Values : Type 0 where
    nil : Values
    item : Value → Values → Values

  pub data Fields : Type 0 where
    end : Fields
    field : Bytes → Value → Fields → Fields

pub record PluginConfig : Type 0 where
  pub name : Bytes
  pub enabled : Bool
  pub config : Fields

pub record UpstreamConfig : Type 0 where
  pub url : Bytes
  pub weight : ℕ

pub record CircuitBreakerConfig : Type 0 where
  pub failure_threshold : ℕ
  pub open_duration_seconds : ℕ
  pub half_open_requests : ℕ

pub record RouteConfig : Type 0 where
  pub name : Bytes
  pub host : Bytes
  pub path_prefix : Bytes
  pub upstreams : List UpstreamConfig
  pub timeout_seconds : ℕ
  pub max_body_bytes : ℕ
  pub max_retries : ℕ
  pub plugins : List PluginConfig
  pub circuit_breaker : CircuitBreakerConfig

pub record ServerConfig : Type 0 where
  pub host : Bytes
  pub port : ℕ
  pub https_port : ℕ
  pub read_timeout : ℕ
  pub write_timeout : ℕ
  pub idle_timeout : ℕ
  pub tls_cert_file : Bytes
  pub tls_key_file : Bytes
  pub redirect_http_to_https : Bool

pub record ProxyConfig : Type 0 where
  pub algorithm : Bytes
  pub routes : List RouteConfig

pub record RateConfig : Type 0 where
  pub requests_per_second : Float
  pub burst : ℕ

pub record HealthConfig : Type 0 where
  pub path : Bytes
  pub interval_seconds : ℕ
  pub timeout_seconds : ℕ

pub record AdminConfig : Type 0 where
  pub enabled : Bool
  pub host : Bytes
  pub port : ℕ

pub record GzipConfig : Type 0 where
  pub enabled : Bool
  pub level : ℕ
  pub min_length : ℕ
  pub content_types : List Bytes

pub record Config : Type 0 where
  pub server : ServerConfig
  pub proxy : ProxyConfig
  pub rate : RateConfig
  pub health : HealthConfig
  pub admin : AdminConfig
  pub plugins : List PluginConfig
  pub gzip : GzipConfig
