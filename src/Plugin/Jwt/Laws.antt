-- ===== src/Plugin/Jwt/Laws.antt =====
-- Who passes internal/plugin/plugins/jwt.go.
use mathlib.Core.Path.{subst}
use web_server.Prelude.{
  Option-cases, ◌≡◌, ◌≢◌, ◌⊎◌, sym, ◌∙◌, refl, ap, true, List, [], ◌∷◌, ◌++◌, Option, none, some,
  arith, map, Bool-cases, inl, inr,
}
use web_server.Text.{Bytes, codes, upper}
use web_server.Text.Scan.{trim_space, cut_prefix}
use web_server.Http.Header.{get}
use web_server.Http.Message.{Request}
use web_server.Config.{Fields}
use web_server.Plugin.{Verdict, forward, refuse}
use web_server.Plugin.Jwt.{
  Jwt, is_supported, with_secret, new_jwt, trimmed, extract_bearer_token, Claims, set_claims,
  with_claims, with_token, check_token,
}

with_secret_lem :
    (secret algorithm : Bytes) (claims : List (Bytes × Bytes)) {p : Jwt}
    → with_secret secret algorithm claims ≡ some p
    → (p.secret ≢ []) × (is_supported (map upper p.algorithm) ≡ true)
with_secret_lem [] algorithm claims h = cc
with_secret_lem (c ∷ secret) algorithm claims {p} h =
    elim (Bool-cases (is_supported (map upper algorithm))) [
      | inl e ↦
          let made : Jwt = record {
            secret = c ∷ secret;
            algorithm = algorithm;
            claims_to_headers = claims;
          } in
          let found : some made ≡ some p = rw e at h in
          let same : made ≡ p = cc found in
          subst (λ (q : Jwt). (q.secret ≢ []) × (is_supported (map upper q.algorithm) ≡ true)) same
            (λ n. cc n, e)
      | inr e ↦ let refused : ◌≡◌ {A = Option Jwt} none (some p) = rw e at h in cc refused
    ]

cut_prefix-append : (s p : Bytes) {rest : Bytes} → cut_prefix s p ≡ some rest → s ≡ p ++ rest
unfolding cut_prefix
cut_prefix-append s [] h = cc
cut_prefix-append [] (c ∷ p) h = cc
cut_prefix-append (d ∷ s) (c ∷ p) {rest} h = ground (arith, cut_prefix-append s p {rest = rest})

cut_prefix_self : (p rest : Bytes) → cut_prefix (p ++ rest) p ≡ some rest
unfolding cut_prefix
cut_prefix_self [] rest = refl
cut_prefix_self (c ∷ p) rest = ground (arith, cut_prefix_self p rest)

-- The request's field Authorization says Bearer and has this token, less the white space around it.
abbrev pub Bears : Request → Bytes → Type 0
Bears r token =
    (rest : Bytes) × (get (codes "Authorization") r.header ≡ codes "Bearer " ++ rest)
    × (trim_space rest ≡ token)
    × (token ≢ [])

extract_bearer_token-Bears :
    (r : Request) → extract_bearer_token r ≢ [] → Bears r (extract_bearer_token r)
unfolding extract_bearer_token
extract_bearer_token-Bears r n =
    let auth = get (codes "Authorization") r.header in
    elim (Option-cases (cut_prefix auth (codes "Bearer "))) [
      | inl e ↦ absurd (n (ap trimmed e))
      | inr (rest, e) ↦ (rest, cut_prefix-append auth (codes "Bearer ") e, sym (ap trimmed e), n)
    ]

Bears-extract_bearer_token :
    (r : Request) (token : Bytes) → Bears r token → extract_bearer_token r ≡ token
unfolding extract_bearer_token
Bears-extract_bearer_token r token (rest, whole, same, n) =
    ap (λ s. trimmed (cut_prefix s (codes "Bearer "))) whole
    ∙ ap trimmed (cut_prefix_self (codes "Bearer ") rest)
    ∙ same

module _ (parse_token : Bytes → Bytes → Bytes → Option Claims) where
  -- What the plugin does with a request, and why.
  abbrev pub Decided : Jwt → Request → Verdict → Type 0
  Decided p r v =
      ((token : Bytes) × (claims : Claims) × Bears r token
        × (parse_token p.secret p.algorithm token ≡ some claims)
        × (v ≡ forward (record r { header = set_claims claims p.claims_to_headers r.header })))
      ⊎ (((token : Bytes) → Bears r token → parse_token p.secret p.algorithm token ≡ none)
          × (v ≡ refuse 401))

  with_token-Decided :
      (p : Jwt) (r : Request) (t : Bytes)
      → (t ≢ [] → Bears r t)
      → ((token : Bytes) → Bears r token → t ≡ token)
      → Decided p r (with_token parse_token p r t)
  with_token-Decided p r [] bears only =
      inr (λ token b. let (rest, whole, same, n) = b in absurd (n (sym (only token b))), refl)
  with_token-Decided p r (c ∷ t) bears only =
      elim (Option-cases (parse_token p.secret p.algorithm (c ∷ t))) [
        | inl e ↦ inr (
          λ token b. subst (λ u. parse_token p.secret p.algorithm u ≡ none) (only token b) e,
          ap (with_claims parse_token p r) e,
        )
        | inr (claims, e) ↦
            inl (c ∷ t, claims, bears (λ n. cc n), e, ap (with_claims parse_token p r) e)
      ]

  -- Of a plugin that could be made, the secret is not empty and the method is one of HMAC. A request
  -- goes on exactly if its field Authorization says Bearer with a token that the library accepts for
  -- that secret and method, and then only the headers that its claims are written to are changed;
  -- any other is refused with 401.
  pub check_token-Decided :
      (cfg : Fields) (p : Jwt) (r : Request)
      → new_jwt cfg ≡ some p
      → (p.secret ≢ [])
        × (is_supported (map upper p.algorithm) ≡ true)
        × Decided p r (check_token parse_token p r)
  unfolding new_jwt check_token
  check_token-Decided cfg p r made =
      let (secret, supported) = with_secret_lem _ _ _ made in
      (
        secret,
        supported,
        with_token-Decided p r (extract_bearer_token r) (extract_bearer_token-Bears r)
            (Bears-extract_bearer_token r),
      )
