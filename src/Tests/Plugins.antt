-- ===== src/Tests/Plugins.antt =====
-- The plugins with small settings, on one request.
use web_server.Prelude.{
  ◌≡◌, ◌≢◌, ◌⊎◌, refl, true, false, ◌∷◌, [], List, ◌++◌, Option, none, some, arith, if◌then◌else◌,
  map,
}
use web_server.Text.{Bytes, codes, eqb, upper}
use web_server.Text.Scan.{trim_space, contains, trim_left, trim_right, cut_prefix}
use web_server.Http.Header.{Header, get, lookup, canonical, set, delete}
use web_server.Http.Message.{Request}
use web_server.Config.Float64.{to_float64, spacing}
use web_server.Config.{Fields, PluginConfig, fields, text, items, item, nil, field, end}
use web_server.Config.Maps.{field_of}
use web_server.Config.Nginx.Units.{parse_limit_req_burst}
use web_server.Text.Number.{atoi, digits}
use web_server.Config.Nginx.Translator.{Groups}
use web_server.Config.Nginx.Translator.Location.{Location, new_location, location_node}
use web_server.Plugin.{
  refuse, forward, string_list, string_map, string_or, bool_val, text_items, text_entries,
}
use web_server.Plugin.KeyAuth.{KeyAuth, new_key_auth, filled, provided_key, check_key, hide}
use web_server.Plugin.KeyAuth.Laws.{IsKey, check_key-IsKey}
use web_server.Plugin.IpRestriction.{
  Net, IpRestriction, as_cidr, parse_cidrs, new_ip_restriction, parse_client_ip, check_ip,
}
use web_server.Plugin.IpRestriction.Laws.{MayPass, check_ip-MayPass}
use web_server.Plugin.Transform.{Changes, apply_changes}
use web_server.Plugin.Transform.Laws.{NotRenamed, removed, given, lookup-apply_changes}
use web_server.Plugin.Jwt.{
  Jwt, Claims, is_supported, new_jwt, set_claims, check_token, extract_bearer_token,
}
use web_server.Plugin.Jwt.Laws.{Decided, check_token-Decided}
use web_server.Plugin.RateLimit.{new_rate_limit}
use web_server.Plugin.RateLimit.Translated.{limit_req-burst}
use web_server.Tests.Data.{get_request}

abbrev one_text : Bytes → Bytes → Fields
one_text key s = field key (items (item (text s) nil)) end

-- No query.
abbrev pub no_query : Bytes → Header
no_query q = []

abbrev pub empty_query : Header → Bytes
empty_query h = []

abbrev one_key : KeyAuth
one_key = record {
  header = codes "X-API-Key";
  query = codes "api_key";
  hide_credentials = false;
  keys = codes "k1" ∷ [];
}

one_key_made : new_key_auth (one_text (codes "keys") (codes "k1")) ≡ some one_key
unfolding new_key_auth string_or bool_val filled text_items field_of eqb
one_key_made = refl

abbrev with_key : Request
with_key = record get_request { header = (codes "X-Api-Key", codes "k1" ∷ []) ∷ [] }

check_key-IsKey_example :
    (IsKey
        (one_text (codes "keys") (codes "k1"))
        (provided_key no_query empty_query one_key with_key)
      × (check_key no_query empty_query one_key with_key
          ≡ forward (if false then hide no_query empty_query one_key with_key else with_key)))
    ⊎ ((¬ IsKey
          (one_text (codes "keys") (codes "k1"))
          (provided_key no_query empty_query one_key with_key))
        × (check_key no_query empty_query one_key with_key ≡ refuse 401))
check_key-IsKey_example =
    check_key-IsKey no_query empty_query (one_text (codes "keys") (codes "k1")) one_key with_key
      one_key_made

-- Networks of one address, as texts.
abbrev pub single : Net
single = record {
  Ip = Bytes;
  IpNet = Bytes;
  parse_ip = λ s. some s;
  parse_cidr = λ s. some s;
  net_contains = λ n ip. eqb n (as_cidr ip);
  split_host_port = λ s. none;
}

abbrev only_one : IpRestriction single
only_one = record { allow_nets = codes "10.1.1.1/32" ∷ []; deny_nets = [] }

only_one_made :
    new_ip_restriction single (one_text (codes "allow") (codes "10.1.1.1")) ≡ some only_one
unfolding new_ip_restriction parse_cidrs as_cidr string_list text_items field_of eqb contains
    trim_space trim_right trim_left
only_one_made = refl

check_ip-MayPass_example :
    (MayPass single
        (one_text (codes "allow") (codes "10.1.1.1"))
        (parse_client_ip single get_request)
      × (check_ip single only_one get_request ≡ forward get_request))
    ⊎ ((¬ MayPass single
          (one_text (codes "allow") (codes "10.1.1.1"))
          (parse_client_ip single get_request))
        × (check_ip single only_one get_request ≡ refuse 403))
check_ip-MayPass_example =
    check_ip-MayPass single (one_text (codes "allow") (codes "10.1.1.1")) only_one get_request
      only_one_made

abbrev changes : Changes
changes = record {
  add_headers = (codes "X-Via", codes "gateway") ∷ [];
  remove_headers = codes "x-id" ∷ [];
  rename_headers = (codes "Upgrade", codes "X-Upgrade") ∷ [];
}

x_id-NotRenamed : NotRenamed (codes "X-Id") changes.rename_headers
unfolding eqb canonical
x_id-NotRenamed = ((refl, refl), tt)

lookup-apply_changes_example :
    lookup (codes "X-Id") (apply_changes changes get_request.header)
    ≡ given (codes "X-Id") changes.add_headers (
        if removed (codes "X-Id") changes.remove_headers
        then []
        else lookup (codes "X-Id") get_request.header)
lookup-apply_changes_example =
    lookup-apply_changes changes (codes "X-Id") get_request.header x_id-NotRenamed

-- One token is valid, and its subject is Ann.
abbrev ann : Claims
ann claim = if eqb claim (codes "sub") then some (codes "Ann") else none

abbrev pub parse_token : Bytes → Bytes → Bytes → Option Claims
parse_token secret algorithm token = if eqb token (codes "t0") then some ann else none

abbrev jwt_settings : Fields
jwt_settings = field (codes "secret") (text (codes "s3")) (
    field (codes "claims_to_headers") (fields (field (codes "sub") (text (codes "X-User")) end))
      end)

abbrev jwt : Jwt
jwt = record {
  secret = codes "s3";
  algorithm = codes "HS256";
  claims_to_headers = (codes "sub", codes "X-User") ∷ [];
}

jwt_made : new_jwt jwt_settings ≡ some jwt
unfolding new_jwt string_or string_map text_entries field_of eqb upper
jwt_made = refl

abbrev token_request : Request
token_request = record get_request { header = (codes "Authorization", codes "Bearer t0" ∷ []) ∷ [] }

abbrev with_user : Request
with_user = record token_request {
  header =
      (codes "X-User", codes "Ann" ∷ []) ∷ (codes "Authorization", codes "Bearer t0" ∷ []) ∷ [];
}

user_known : check_token parse_token jwt token_request ≡ forward with_user
unfolding check_token extract_bearer_token set_claims eqb cut_prefix get lookup canonical trim_space
    trim_right trim_left set delete
user_known = refl

check_token-Decided_example :
    (jwt.secret ≢ [])
    × (is_supported (map upper jwt.algorithm) ≡ true)
    × Decided parse_token jwt token_request (check_token parse_token jwt token_request)
check_token-Decided_example =
    check_token-Decided parse_token jwt_settings jwt token_request jwt_made

abbrev no_groups : Groups
no_groups = record { upstreams = []; algorithms = [] }

abbrev root : Location
root = new_location (codes "/") [] 0

abbrev limit_args : List Bytes
limit_args = codes "zone=one" ∷ codes "burst=5" ∷ []

burst_of_5 : parse_limit_req_burst limit_args ≡ 5
unfolding parse_limit_req_burst cut_prefix atoi digits
burst_of_5 = refl

limit_req-burst_example :
    (p : PluginConfig) × ((location_node no_groups
        (codes "limit_req")
        limit_args
        root).route.plugins
      ≡ root.route.plugins ++ p ∷ [])
    × (new_rate_limit p.config
        ≡ some (record { rps = record { mantissa = 5; exponent = 1 }; burst = 2 }))
limit_req-burst_example =
    limit_req-burst no_groups limit_args root 5 burst_of_5 (omega arith) (omega arith)

-- 2 ^ 53 + 1 and 2 ^ 53 + 3 lie in the middle between two float64s, and 2 ^ 63 - 1 is rounded up.
rounds_even :
    ((to_float64 0x20_0000_0000_0001).mantissa ≡ 0x20_0000_0000_0000)
    × ((to_float64 0x20_0000_0000_0003).mantissa ≡ 0x20_0000_0000_0004)
    × ((to_float64 0x7FFF_FFFF_FFFF_FFFF).mantissa ≡ 0x8000_0000_0000_0000)
unfolding to_float64 spacing
rounds_even = (refl, refl, refl)
