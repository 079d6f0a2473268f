-- ===== src/Plugin/Builtin.antt =====
-- internal/pluginreg/registry.go: the registry with all plugins of internal/plugin/plugins. What a
-- plugin makes is its decision about requests, the changes of its writer, or its rate limiter; how
-- http.Handler is wrapped in that is given.
pub mod Translated
use web_server.Prelude.{List, [], ◌∷◌, Option, none, some}
use web_server.Text.{Bytes, codes}
use web_server.Http.Header.{Header}
use web_server.Http.Message.{Request}
use web_server.Config.{Fields}
use web_server.Plugin.{Verdict}
use web_server.Plugin.KeyAuth.{KeyAuth, new_key_auth, check_key}
use web_server.Plugin.IpRestriction.{Net, IpRestriction, new_ip_restriction, check_ip}
use web_server.Plugin.Transform.{
  Changes, new_request_transformer, transform_request, new_response_transformer,
}
use web_server.Plugin.Jwt.{Jwt, Claims, new_jwt, check_token}
use web_server.Plugin.RateLimit.{RateLimit, new_rate_limit}
use web_server.Proxy.Gateway.{Factory, Registry, register}

pub data Middleware : Type 0 where
  checks : (Request → Verdict) → Middleware
  changes_response : Changes → Middleware
  limits : RateLimit → Middleware

-- The libraries that the plugins use, as in their modules.
pub record Libraries : Type 1 where
  pub net : Net
  pub parse_query : Bytes → Header
  pub encode_query : Header → Bytes
  pub parse_token : Bytes → Bytes → Bytes → Option Claims

abbrev pub then_some : {A B : Type 0} → (A → B) → Option A → Option B
then_some f none = none
then_some f (some a) = some (f a)

module _ {H : Type 0} (lib : Libraries) (apply : Middleware → H → H) where
  open lib use {net, parse_query, encode_query, parse_token}

  -- `New` of each plugin.
  abbrev pub key_auth_plugin : Factory H
  key_auth_plugin cfg =
      then_some (λ p. apply (checks (check_key parse_query encode_query p))) (new_key_auth cfg)

  abbrev pub jwt_plugin : Factory H
  jwt_plugin cfg = then_some (λ p. apply (checks (check_token parse_token p))) (new_jwt cfg)

  abbrev pub ip_restriction_plugin : Factory H
  ip_restriction_plugin cfg =
      then_some (λ p. apply (checks (check_ip net p))) (new_ip_restriction net cfg)

  abbrev pub request_transformer_plugin : Factory H
  request_transformer_plugin cfg =
      some
        (apply (checks (transform_request parse_query encode_query (new_request_transformer cfg))))

  abbrev pub response_transformer_plugin : Factory H
  response_transformer_plugin cfg = some (apply (changes_response (new_response_transformer cfg)))

  abbrev pub rate_limit_plugin : Factory H
  rate_limit_plugin cfg = then_some (λ p. apply (limits p)) (new_rate_limit cfg)

  -- `Default`.
  abbrev pub default_registry : Registry H
  default_registry = register (codes "rate-limit") rate_limit_plugin (
      register (codes "response-header-transformer") response_transformer_plugin (
        register (codes "request-header-transformer") request_transformer_plugin (
          register (codes "ip-restriction") ip_restriction_plugin
            (register (codes "jwt") jwt_plugin (register (codes "key-auth") key_auth_plugin [])))))
