-- ===== src/Proxy/Gateway/Chain.antt =====
-- The chain of plugins around an engine.
use web_server.Prelude.{
  not, ◌≡◌, refl, true, false, Bool, if◌then◌else◌, List, [], ◌∷◌, Option, none, some, ap, ◌∙◌,
}
use web_server.Config.{PluginConfig}
use web_server.Proxy.Gateway.{Registry, get, make, wrap, apply_plugin, build_plugin_chain}

module _ {H : Type 0} where
  -- The middlewares of a configuration, the first one first: those of the enabled plugins that are
  -- registered and can be made.
  abbrev pub cons : Option (H → H) → List (H → H) → List (H → H)
  cons none mws = mws
  cons (some mw) mws = mw ∷ mws

  abbrev pub middlewares : Registry H → List PluginConfig → List (H → H)
  middlewares reg [] = []
  middlewares reg (pc ∷ pcs) =
      let mws = middlewares reg pcs in
      if pc.enabled then cons (make (get reg pc.name) pc.config) mws else mws

  -- The first middleware is outermost.
  abbrev pub stack : List (H → H) → H → H
  stack [] engine = engine
  stack (mw ∷ mws) engine = mw (stack mws engine)

  stack-cons :
      (o : Option (H → H)) (mws : List (H → H)) (engine : H)
      → wrap o (stack mws engine) ≡ stack (cons o mws) engine
  stack-cons none mws engine = refl
  stack-cons (some mw) mws engine = refl

  stack-if :
      (b : Bool) (o : Option (H → H)) (mws : List (H → H)) (engine : H)
      → (if not b then stack mws engine else wrap o (stack mws engine))
        ≡ stack (if b then cons o mws else mws) engine
  stack-if true o mws engine = stack-cons o mws engine
  stack-if false o mws engine = refl

  -- The chain is the engine inside the middlewares of the plugins that are enabled, registered and
  -- can be made, in the order of the configuration with the first one outermost.
  pub build_plugin_chain-stack :
      (reg : Registry H) (engine : H) (pcs : List PluginConfig)
      → build_plugin_chain reg engine pcs ≡ stack (middlewares reg pcs) engine
  unfolding build_plugin_chain
  build_plugin_chain-stack reg engine [] = refl
  build_plugin_chain-stack reg engine (pc ∷ pcs) =
      ap (apply_plugin reg pc) (build_plugin_chain-stack reg engine pcs)
      ∙ stack-if pc.enabled (make (get reg pc.name) pc.config) (middlewares reg pcs) engine
