-- ===== src/Plugin/KeyAuth/Laws.antt =====
-- Who passes the key authentication of internal/plugin/plugins/key_auth.go.
use web_server.Prelude.{
  ◌≡◌, ◌≢◌, ◌⊎◌, inl, inr, refl, sym, ap, ◌∙◌, true, Bool-cases, List, [], ◌∷◌, Option, none, some,
  arith, if◌then◌else◌,
}
use web_server.Text.{Bytes, codes, eqb, eqb_iff, eq_of_eqb}
use web_server.Http.Header.{Header}
use web_server.Http.Message.{Request}
use web_server.Config.{Fields, Values, nil, item}
use web_server.Config.Maps.{field_of}
use web_server.Plugin.{refuse, forward, text_items, string_list, items_of}
use web_server.Plugin.KeyAuth.{
  KeyAuth, filled, with_keys, new_key_auth, valid_key, provided_key, hide, check_key,
}

abbrev pub IsOneOf : Bytes → List Bytes → Type 0
IsOneOf k [] = ⊥
IsOneOf k (j ∷ js) = (k ≡ j) ⊎ IsOneOf k js

-- The key is not empty, and one of the texts of the configured list.
abbrev pub IsKey : Fields → Bytes → Type 0
IsKey cfg k = (k ≢ []) × IsOneOf k (string_list cfg (codes "keys"))

valid_key-IsOneOf :
    (k : Bytes) (ks : List Bytes) → valid_key k (filled ks) ≡ true → (k ≢ []) × IsOneOf k ks
unfolding valid_key filled
valid_key-IsOneOf k [] h = cc
valid_key-IsOneOf k ([] ∷ ks) h = let (n, m) = valid_key-IsOneOf k ks h in (n, inr m)
valid_key-IsOneOf k ((c ∷ s) ∷ ks) h = elim (Bool-cases (eqb k (c ∷ s))) [
  | inl e ↦ let same : k ≡ c ∷ s = eq_of_eqb k (c ∷ s) e in ((λ n. cc (same, n)), inl same)
  | inr e ↦
      let rest : valid_key k (filled ks) ≡ true = ground (arith, h, e) in
      let (n, m) = valid_key-IsOneOf k ks rest in (n, inr m)
]

IsOneOf-valid_key :
    (k : Bytes) (ks : List Bytes) → k ≢ [] → IsOneOf k ks → valid_key k (filled ks) ≡ true
unfolding valid_key filled
IsOneOf-valid_key k [] n h = elim h [ ]
IsOneOf-valid_key k ([] ∷ ks) n (inl e) = absurd (n e)
IsOneOf-valid_key k ([] ∷ ks) n (inr h) = IsOneOf-valid_key k ks n h
IsOneOf-valid_key k ((c ∷ s) ∷ ks) n (inl e) = ground (arith, eqb_iff k (c ∷ s), e)
IsOneOf-valid_key k ((c ∷ s) ∷ ks) n (inr h) = ground (arith, IsOneOf-valid_key k ks n h)

abbrev keys_of : Option KeyAuth → List Bytes
keys_of none = []
keys_of (some p) = p.keys

-- A plugin that could be made has the configured keys that are not empty.
with_keys-keys :
    (cfg : Fields) (vs : Values) {p : KeyAuth}
    → with_keys cfg vs ≡ some p
    → p.keys ≡ filled (text_items vs)
with_keys-keys cfg nil h = cc
with_keys-keys cfg (item v vs) {p} h = ap (λ (o : Option KeyAuth). keys_of o) (sym h)

module _ (parse_query : Bytes → Header) (encode_query : Header → Bytes) where
  -- A request goes on, less its key if the plugin hides it, exactly when the key that it brings, in
  -- the header or else in the query, is not empty and one of the configured texts; any other is
  -- refused with 401.
  pub check_key-IsKey :
      (cfg : Fields) (p : KeyAuth) (r : Request)
      → new_key_auth cfg ≡ some p
      → (IsKey cfg (provided_key parse_query encode_query p r)
          × (check_key parse_query encode_query p r
              ≡ forward (if p.hide_credentials then hide parse_query encode_query p r else r)))
        ⊎ ((¬ IsKey cfg (provided_key parse_query encode_query p r))
            × (check_key parse_query encode_query p r ≡ refuse 401))
  unfolding new_key_auth check_key string_list
  check_key-IsKey cfg p r h =
      let key = provided_key parse_query encode_query p r in
      let texts = string_list cfg (codes "keys") in
      let keys : p.keys ≡ filled texts =
        with_keys-keys cfg (items_of (field_of (codes "keys") cfg)) h in
      let valid : valid_key key p.keys ≡ valid_key key (filled texts) = ap (valid_key key) keys in
      elim (Bool-cases (valid_key key p.keys)) [
        | inl e ↦ inl (valid_key-IsOneOf key texts (sym valid ∙ e), rw e refl)
        | inr e ↦
            inr (λ k. cc (sym (IsOneOf-valid_key key texts k.0 k.1) ∙ sym valid ∙ e), rw e refl)
      ]
