-- ===== src/Router/Order.antt =====
-- In which order a request passes the middlewares.
use mathlib.Core.List.{append_assoc, append-nil}
use web_server.Prelude.{
  ℕ, ◌≡◌, refl, sym, ap, ◌∙◌, Bool, true, false, not, if◌then◌else◌, List, [], ◌∷◌, ◌++◌, map,
  Option, none, some,
}
use web_server.Config.{Config, PluginConfig, RateConfig, GzipConfig}
use web_server.Proxy.Gateway.{Registry, get, make, build_plugin_chain}
use web_server.Proxy.Gateway.Chain.{middlewares, stack, build_plugin_chain-stack, cons}
use web_server.Router.{
  Use, request_id, recovery, logging, cors, timeout, rate_limit, gzip, plugin, base_uses, use_made,
  use_plugins, new_router,
}

module _ {H : Type 0} where
  use_made-cons :
      (o : Option (H → H)) (mws : List (H → H)) (uses : List (Use H))
      → use_made o uses ++ map plugin mws ≡ uses ++ map plugin (cons o mws)
  use_made-cons none mws uses = refl
  use_made-cons (some mw) mws uses = append_assoc uses (plugin mw ∷ []) (map plugin mws)

  use_round :
      (b : Bool) (o : Option (H → H)) (mws : List (H → H)) (uses : List (Use H))
      → (if not b then uses else use_made o uses) ++ map plugin mws
        ≡ uses ++ map plugin (if b then cons o mws else mws)
  use_round true o mws uses = use_made-cons o mws uses
  use_round false o mws uses = refl

  use_plugins-middlewares :
      (reg : Registry H) (pcs : List PluginConfig) (uses : List (Use H))
      → use_plugins reg pcs uses ≡ uses ++ map plugin (middlewares reg pcs)
  unfolding use_plugins
  use_plugins-middlewares reg [] uses = sym (append-nil uses)
  use_plugins-middlewares reg (pc ∷ pcs) uses =
      let o = make (get reg pc.name) pc.config in
      use_plugins-middlewares reg pcs (if not pc.enabled then uses else use_made o uses)
      ∙ use_round pc.enabled o (middlewares reg pcs) uses

  stack-append :
      (mws rest : List (H → H)) (engine : H)
      → stack (mws ++ rest) engine ≡ stack mws (stack rest engine)
  stack-append [] rest engine = refl
  stack-append (mw ∷ mws) rest engine = ap mw (stack-append mws rest engine)

-- The middlewares of the gateway.
pub record Wrappers (H : Type 0) : Type 0 where
  pub with_request_id : H → H
  pub with_recovery : H → H
  pub with_logging : H → H
  pub with_cors : H → H
  pub with_timeout : ℕ → H → H
  pub with_rate_limit : RateConfig → H → H
  pub with_gzip : GzipConfig → H → H

module _ {H : Type 0} (w : Wrappers H) where
  abbrev pub wrap : Use H → H → H
  wrap request_id = w.with_request_id
  wrap recovery = w.with_recovery
  wrap logging = w.with_logging
  wrap cors = w.with_cors
  wrap (timeout ns) = w.with_timeout ns
  wrap (rate_limit cfg) = w.with_rate_limit cfg
  wrap (gzip cfg) = w.with_gzip cfg
  wrap (plugin mw) = mw

  -- The handler that go-chi makes: the first middleware is outermost.
  abbrev pub handler_of : List (Use H) → H → H
  handler_of uses mux = stack (map wrap uses) mux

  map-append : (us vs : List (Use H)) → map wrap (us ++ vs) ≡ map wrap us ++ map wrap vs
  map-append [] vs = refl
  map-append (u ∷ us) vs = ap (◌∷◌ (wrap u)) (map-append us vs)

  map-plugin : (mws : List (H → H)) → map wrap (map plugin mws) ≡ mws
  map-plugin [] = refl
  map-plugin (mw ∷ mws) = ap (◌∷◌ mw) (map-plugin mws)

  -- A request passes the middlewares of the gateway, and then the global plugins, which form the
  -- same chain around the router's handlers as a route's plugins around its engine.
  pub new_router-build_plugin_chain :
      (reg : Registry H) (cfg : Config) (mux : H)
      → handler_of (new_router reg cfg).0 mux
        ≡ handler_of (base_uses cfg) (build_plugin_chain reg mux cfg.plugins)
  unfolding new_router
  new_router-build_plugin_chain reg cfg mux =
      let mws = middlewares reg cfg.plugins in
      ap (λ us. handler_of us mux) (use_plugins-middlewares reg cfg.plugins (base_uses cfg))
      ∙ ap (λ l. stack l mux) (map-append (base_uses cfg) (map plugin mws))
      ∙ stack-append (map wrap (base_uses cfg)) (map wrap (map plugin mws)) mux
      ∙ ap (λ l. handler_of (base_uses cfg) (stack l mux)) (map-plugin mws)
      ∙ ap (handler_of (base_uses cfg)) (sym (build_plugin_chain-stack reg mux cfg.plugins))
