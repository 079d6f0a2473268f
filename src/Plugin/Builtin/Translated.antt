-- ===== src/Plugin/Builtin/Translated.antt =====
-- The plugins that the translator of nginx files configures, in the default registry.
use mathlib.Core.Path.{subst}
use web_server.Prelude.{
  ℕ, ◌≡◌, ◌≢◌, refl, ap, Bool, true, false, Bool-cases, inl, inr, slt, not, if◌then◌else◌, List, [],
  ◌∷◌, Option, none, some, All, All-append, arith,
}
use web_server.Text.{Bytes, codes, eqb, eq_of_eqb}
use web_server.Config.{Float, text, fields, field, end, PluginConfig, RouteConfig, UpstreamConfig}
use web_server.Config.Nginx.{Nodes, node, no_nodes, more}
use web_server.Config.Nginx.Units.{parse_limit_req_burst}
use web_server.Config.Nginx.Translator.{Groups, assigned}
use web_server.Config.Nginx.Translator.Location.{
  Location, transformer, add_header, append_request_transformer, rate_plugin, new_location, pass_to,
  proxy_pass, read_timeout, max_body_size, limit_req, set_header, location_node, location_nodes,
  with_upstreams, parse_location_block,
}
use web_server.Proxy.Gateway.{get, make}
use web_server.Plugin.RateLimit.{RateLimit, new_rate_limit, burst_or}
use web_server.Text.Scan.{trim_right_byte, join_spaces, contains}
use web_server.Config.Nginx.Units.{extract_group_name}
use web_server.Plugin.{float_val}
use web_server.Config.Float64.{to_float64, halved, to_float64_ne}
use web_server.Config.Maps.{field_of}
use web_server.Plugin.Builtin.{Middleware, Libraries, limits, then_some, default_registry}

rate_plugin_made :
    (n : ℕ) → n ≢ 0 → (l : RateLimit) × (new_rate_limit (rate_plugin n).config ≡ some l)
unfolding new_rate_limit float_val field_of eqb
rate_plugin_made n p =
    let rps : Float = halved (to_float64 n) in
    (record { rps = rps; burst = burst_or rps 0 }, ground (arith, to_float64_ne n p))

module _ {H : Type 0} (lib : Libraries) (apply : Middleware → H → H) where
  -- The plugin is enabled, registered and can be made.
  abbrev pub IsMade : PluginConfig → Type 0
  IsMade p =
      (p.enabled ≡ true)
      × (mw : H → H) × (make (get (default_registry lib apply) p.name) p.config ≡ some mw)

  rate_plugin-IsMade : (n : ℕ) → n ≢ 0 → IsMade (rate_plugin n)
  unfolding get eqb
  rate_plugin-IsMade n p =
      let (l, e) = rate_plugin_made n p in
      (refl, apply (limits l), ap (then_some (λ l. apply (limits l))) e)

  -- A request transformer can be made of any settings.
  transformer-IsMade : (p : PluginConfig) → p.enabled ≡ true → p.name ≡ transformer → IsMade p
  unfolding get eqb
  transformer-IsMade p e same =
      (e, _, ap (λ name. make (get (default_registry lib apply) name) p.config) same)

  append_request_transformer-IsMade :
      (ps : List PluginConfig) (header value : Bytes)
      → All IsMade ps
      → All IsMade (append_request_transformer ps header value)
  unfolding append_request_transformer
  append_request_transformer-IsMade [] header value a = (
    transformer-IsMade
        (record {
          name = transformer;
          enabled = true;
          config = field (codes "add_headers") (fields (field header (text value) end)) end;
        })
        refl refl,
    tt,
  )
  append_request_transformer-IsMade (p ∷ ps) header value a =
      elim (Bool-cases (eqb p.name transformer)) [
        | inl same ↦ rw same (
          transformer-IsMade (add_header header value p) a.0.0 (eq_of_eqb p.name transformer same),
          a.1,
        )
        | inr other ↦ rw other (a.0, append_request_transformer-IsMade ps header value a.1)
      ]

  -- The same of the plugins of a location's route.
  abbrev AllMade : Location → Type 0
  AllMade l = All IsMade l.route.plugins

  pass_to-AllMade :
      (target name : Bytes) (o : Option (List UpstreamConfig)) (l : Location)
      → AllMade l
      → AllMade (pass_to target name o l)
  pass_to-AllMade target name none l a = a
  pass_to-AllMade target name (some group) l a = a

  proxy_pass-AllMade :
      (groups : Groups) (args : List Bytes) (l : Location)
      → AllMade l
      → AllMade (proxy_pass groups args l)
  proxy_pass-AllMade groups [] l a = a
  proxy_pass-AllMade groups (url ∷ args) l a =
      let target = trim_right_byte b'/' url in
      let name = extract_group_name target in
      pass_to-AllMade target name (assigned name groups.upstreams) l a

  read_timeout-AllMade :
      (args : List Bytes) (l : Location) → AllMade l → AllMade (read_timeout args l)
  read_timeout-AllMade [] l a = a
  read_timeout-AllMade (time ∷ args) l a = a

  max_body_size-AllMade :
      (args : List Bytes) (l : Location) → AllMade l → AllMade (max_body_size args l)
  max_body_size-AllMade [] l a = a
  max_body_size-AllMade (size ∷ args) l a = a

  limit_req-AllMade : (args : List Bytes) (l : Location) → AllMade l → AllMade (limit_req args l)
  limit_req-AllMade args l a =
      let n = parse_limit_req_burst args in
      elim (Bool-cases (slt 0 n)) [
        | inl positive ↦ rw positive (
            All-append IsMade l.route.plugins (rate_plugin n ∷ []) a
              (rate_plugin-IsMade n (ground (arith, positive)), tt))
        | inr other ↦ rw other a
      ]

  set_header-AllMade : (args : List Bytes) (l : Location) → AllMade l → AllMade (set_header args l)
  set_header-AllMade [] l a = a
  set_header-AllMade (header ∷ []) l a = a
  set_header-AllMade (header ∷ part ∷ parts) l a =
      let value = join_spaces (part ∷ parts) in
      elim (Bool-cases (not (contains value (codes "$")))) [
        | inl plain ↦ rw plain (append_request_transformer-IsMade l.route.plugins header value a)
        | inr variable ↦ rw variable a
      ]

  either-AllMade :
      (b : Bool) (x y : Location) → AllMade x → AllMade y → AllMade (if b then x else y)
  either-AllMade true x y p q = p
  either-AllMade false x y p q = q

  location_node-AllMade :
      (groups : Groups) (directive : Bytes) (args : List Bytes) (l : Location)
      → AllMade l
      → AllMade (location_node groups directive args l)
  location_node-AllMade groups directive args l a =
      let on : Bytes → Location → Location → Location =
        λ name x y. if eqb directive name then x else y in
      let l4 = on (codes "proxy_set_header") (set_header args l) l in
      let l3 = on (codes "limit_req") (limit_req args l) l4 in
      let l2 = on (codes "client_max_body_size") (max_body_size args l) l3 in
      let l1 = on (codes "proxy_read_timeout") (read_timeout args l) l2 in
      let choose = λ (name : Bytes) (x y : Location). either-AllMade (eqb directive name) x y in
      choose (codes "proxy_pass") (proxy_pass groups args l) l1 (proxy_pass-AllMade groups args l a)
        (choose (codes "proxy_read_timeout") (read_timeout args l) l2
          (read_timeout-AllMade args l a)
          (choose (codes "client_max_body_size") (max_body_size args l) l3
            (max_body_size-AllMade args l a)
            (choose (codes "limit_req") (limit_req args l) l4 (limit_req-AllMade args l a) (
              choose (codes "proxy_set_header") (set_header args l) l (set_header-AllMade args l a)
                a))))

  location_nodes-AllMade :
      (groups : Groups) (block : Nodes) (l : Location)
      → AllMade l
      → AllMade (location_nodes groups block l)
  unfolding location_nodes
  location_nodes-AllMade groups no_nodes l a = a
  location_nodes-AllMade groups (more (node directive args inner) block) l a =
      location_nodes-AllMade groups block (location_node groups directive args l)
        (location_node-AllMade groups directive args l a)

  with_upstreams-route :
      (l : Location) (us : List UpstreamConfig) {route : RouteConfig} {name : Bytes}
      → with_upstreams l us ≡ some (route, name)
      → l.route ≡ route
  with_upstreams-route l [] h = cc
  with_upstreams-route l (u ∷ us) h = cc

  -- Each plugin that the translator gives to a route is enabled, is registered under its name, and
  -- can be made of the settings that the translator writes, whatever the location says.
  pub parse_location_block-IsMade :
      (groups : Groups) (prefix host : Bytes) (max_body : ℕ) (block : Nodes) {route : RouteConfig}
      {name : Bytes}
      → parse_location_block groups prefix host max_body block ≡ some (route, name)
      → All IsMade route.plugins
  unfolding parse_location_block
  parse_location_block-IsMade groups prefix host max_body block h =
      let l = location_nodes groups block (new_location prefix host max_body) in
      subst (λ (r : RouteConfig). All IsMade r.plugins) (with_upstreams-route l l.route.upstreams h)
        (location_nodes-AllMade groups block (new_location prefix host max_body) tt)
