-- ===== src/Plugin/Jwt.antt =====
-- internal/plugin/plugins/jwt.go. Whether a token is valid for a secret and a method is decided by
-- the library golang-jwt, which is given, as are the texts of the claims of a valid token.
pub mod Laws
use web_server.Prelude.{
  ℕ, Bool, true, false, ◌||◌, if◌then◌else◌, List, [], ◌∷◌, map, Option, none, some,
}
use web_server.Text.{Bytes, codes, eqb, upper}
use web_server.Text.Scan.{trim_space, cut_prefix}
use web_server.Http.Header.{Header, get, set}
use web_server.Http.Message.{Request}
use web_server.Config.{Fields}
use web_server.Plugin.{Verdict, refuse, forward, string_or, string_map}

pub record Jwt : Type 0 where
  pub secret : Bytes
  pub algorithm : Bytes
  pub claims_to_headers : List (Bytes × Bytes)

-- `New`; `none` is an error.
abbrev pub is_supported : Bytes → Bool
is_supported name = eqb name (codes "HS256") || eqb name (codes "HS384") || eqb name (codes "HS512")

abbrev pub with_secret : Bytes → Bytes → List (Bytes × Bytes) → Option Jwt
with_secret [] algorithm claims = none
with_secret (c ∷ secret) algorithm claims =
    if is_supported (map upper algorithm)
    then some (record { secret = c ∷ secret; algorithm = algorithm; claims_to_headers = claims })
    else none

unfoldable pub new_jwt : Fields → Option Jwt
new_jwt cfg =
    with_secret (string_or cfg (codes "secret") [])
      (string_or cfg (codes "algorithm") (codes "HS256"))
      (string_map cfg (codes "claims_to_headers"))

-- `extractBearerToken`; an empty text stands for no token.
abbrev pub trimmed : Option Bytes → Bytes
trimmed none = []
trimmed (some rest) = trim_space rest

unfoldable pub extract_bearer_token : Request → Bytes
extract_bearer_token r =
    trimmed (cut_prefix (get (codes "Authorization") r.header) (codes "Bearer "))

-- The claims of a valid token, by name.
abbrev pub Claims : Type 0
Claims = Bytes → Option Bytes

abbrev pub set_claim : Bytes → Option Bytes → Header → Header
set_claim header none h = h
set_claim header (some val) h = set header val h

unfoldable pub set_claims : Claims → List (Bytes × Bytes) → Header → Header
set_claims claims [] h = h
set_claims claims ((claim, header) ∷ rest) h =
    set_claims claims rest (set_claim header (claims claim) h)

-- `jwt.Parse` for a secret, with this method alone as valid, and an expiration required.
module _ (parse_token : Bytes → Bytes → Bytes → Option Claims) where
  abbrev pub with_claims : Jwt → Request → Option Claims → Verdict
  with_claims p r none = refuse 401
  with_claims p r (some claims) =
      forward (record r { header = set_claims claims p.claims_to_headers r.header })

  abbrev pub with_token : Jwt → Request → Bytes → Verdict
  with_token p r [] = refuse 401
  with_token p r (c ∷ token) = with_claims p r (parse_token p.secret p.algorithm (c ∷ token))

  unfoldable pub check_token : Jwt → Request → Verdict
  check_token p r = with_token p r (extract_bearer_token r)
