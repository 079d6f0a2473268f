-- ===== src/Proxy/Engine/Connections.antt =====
-- The connections that a request takes and gives back.
use web_server.Prelude.{
  ℕ, zero, suc, ◌+◌, ◌<◌, ◌≡◌, refl, ap, ◌∙◌, Bool, true, false, List, [], ◌∷◌, Option, none, some,
  arith, slt, if◌then◌else◌, two_63, inc, modify,
}
use web_server.Upstream.{Upstream}
use web_server.Http.Message.{Request}
use web_server.Lb.{Balancer, next, release, mark_failure, mark_success}
use web_server.Lb.Conns.{
  conns, AreWords, Holding, add_at, next-conns, release-Holding, mark_failure-conns,
  mark_success-conns,
}
use web_server.Proxy.Headers.{is_websocket_upgrade}
use web_server.Proxy.Retry.{responded, failed}
use web_server.Proxy.Forward.{outbound_request}
use web_server.Proxy.Tunnel.{handle_websocket}
use web_server.Proxy.Engine.{
  tunnelled, Reply, reply, broken, Env, Engine, Effect, go_on, fail, finish, round, attempts,
  rounds_of, serve_websocket, dispatch, serve, again, limit_body, target_in, tunnel_end,
}
use web_server.Proxy.Engine.Trace.{total, sends}

module _ (env : Env) (e : Engine) (r : Request) (cs : List ℕ) (w : AreWords cs) where
  give_back_failure :
      (now : ℕ) (b : Balancer) (k : ℕ)
      → Holding b k cs
      → conns (release k (mark_failure now k b)) ≡ cs
  give_back_failure now b k h = release-Holding k _ w (mark_failure-conns now k b ∙ h)

  give_back_success :
      (b : Balancer) (k : ℕ) → Holding b k cs → conns (release k (mark_success k b)) ≡ cs
  give_back_success b k h = release-Holding k _ w (mark_success-conns k b ∙ h)

  module _ (rest : Balancer → ℕ → Balancer × List Effect) (n : ℕ) where
    go_on-conns :
        ((b : Balancer) (j : ℕ) → Holding b j cs → conns (rest b j).0 ≡ cs)
        → (p : Balancer × Option ℕ) → conns p.0 ≡ add_at p.1 cs
        → conns (go_on env e rest p).0 ≡ cs
    go_on-conns keep (b, none) h = h
    go_on-conns keep (b, some k) h = keep b k h

    fail-conns :
        (more : Bool)
        → (more ≡ true → (b : Balancer) (j : ℕ) → Holding b j cs → conns (rest b j).0 ≡ cs)
        → (t : Upstream) (k : ℕ) (b : Balancer) → Holding b k cs
        → conns (fail env e rest n more t k b).0 ≡ cs
    fail-conns true keep t k b h =
        let b' = release k (mark_failure (env.failure_time n) k b) in
        let back : conns b' ≡ cs = give_back_failure (env.failure_time n) b k h in
        go_on-conns (keep refl) (next (env.clock (suc n)) b')
          (next-conns (env.clock (suc n)) b' ∙ ap (add_at (next (env.clock (suc n)) b').1) back)
    fail-conns false keep t k b h = give_back_failure (env.failure_time n) b k h

    if-conns :
        (c : Bool) (x y : Balancer × List Effect)
        → (c ≡ true → conns x.0 ≡ cs)
        → conns y.0 ≡ cs
        → conns (if c then x else y).0 ≡ cs
    if-conns true x y hx hy = hx refl
    if-conns false x y hx hy = hy

    finish-conns :
        (slt n e.max_retries ≡ true
          → (b : Balancer) (j : ℕ) → Holding b j cs
          → conns (rest b j).0 ≡ cs)
        → (t : Upstream) (k : ℕ) (b : Balancer) (rep : Reply) → Holding b k cs
        → conns (finish env e rest r n t k b rep).0 ≡ cs
    finish-conns keep t k b (broken err) h =
        if-conns err.max_bytes _ (fail env e rest n (again e r (failed err) n) t k b)
          (λ _. release-Holding k b w h)
          (fail-conns (again e r (failed err) n) (λ more. keep (ground arith)) t k b h)
    finish-conns keep t k b (reply resp) h =
        if-conns (again e r (responded resp.status_code) n) (fail env e rest n true t k b) _
          (λ more. fail-conns true (λ _. keep (ground arith)) t k b h) (give_back_success b k h)

  attempts-conns :
      (rounds n : ℕ) (b : Balancer) (k : ℕ)
      → e.max_retries < two_63
      → n + rounds ≡ e.max_retries
      → Holding b k cs
      → conns (attempts env e (suc rounds) r n b k).0 ≡ cs
  unfolding attempts round
  attempts-conns zero n b k m s h =
      let t = target_in b.targets k in
      let last : slt n e.max_retries ≡ false = ground arith in
      finish-conns (attempts env e zero r (suc n)) n (λ more. cc (more, last)) t k b
        (env.round_trip n (outbound_request env.network.split_host_port t.url r)) h
  attempts-conns (suc rounds) n b k m s h =
      let t = target_in b.targets k in
      finish-conns (attempts env e (suc rounds) r (suc n)) n
        (λ _ b' j. attempts-conns rounds (suc n) b' j m (omega arith)) t k b
        (env.round_trip n (outbound_request env.network.split_host_port t.url r)) h

  serve_websocket-conns :
      (b : Balancer) (k : ℕ) → Holding b k cs → conns (serve_websocket env e r b k).0 ≡ cs
  serve_websocket-conns b k h =
      by_end (handle_websocket env.network (target_in b.targets k).url r).0
    where
      by_end :
          (done : Bool)
          → conns
              (tunnel_end env e done (target_in b.targets k) k b (
                tunnelled
                  (target_in b.targets k).url
                  (handle_websocket env.network (target_in b.targets k).url r).1
                ∷ [])).0
            ≡ cs
      by_end true = give_back_success b k h
      by_end false = give_back_failure (env.failure_time 0) b k h

  dispatch-conns :
      e.max_retries < two_63
      → (p : Balancer × Option ℕ) → conns p.0 ≡ add_at p.1 cs
      → conns (dispatch env e r p).0 ≡ cs
  dispatch-conns m (b, none) h = h
  dispatch-conns m (b, some k) h =
      let rounds : rounds_of e.max_retries ≡ suc e.max_retries = ground arith in
      if-conns (λ b' j. attempts env e 0 r 0 b' j) 0 (is_websocket_upgrade r) _
        (attempts env e (rounds_of e.max_retries) r 0 b k) (λ _. serve_websocket-conns b k h)
        (ap (λ m. conns (attempts env e m r 0 b k).0) rounds
          ∙ attempts-conns e.max_retries 0 b k m (omega arith) h)

-- A request gives back every connection that it takes, on every path through the handler: with the
-- number of retries not negative, each upstream counts as many active connections afterwards as
-- before, whatever the transport, the tunnel and the upstreams do.
pub serve-conns :
    (env : Env) (e : Engine) (r : Request) (b : Balancer)
    → e.max_retries < two_63
    → AreWords (conns b)
    → conns (serve env e r b).0 ≡ conns b
unfolding serve
serve-conns env e r b m w =
    dispatch-conns env e (limit_body e r) (conns b) w m (next (env.clock 0) b)
      (next-conns (env.clock 0) b)

upgrade-limit :
    (c : Bool) (r : Request) (m : ℕ)
    → is_websocket_upgrade (if c then record r { body_limit = some m } else r)
      ≡ is_websocket_upgrade r
unfolding is_websocket_upgrade
upgrade-limit true r m = refl
upgrade-limit false r m = refl

dispatch_leaks :
    (env : Env) (e : Engine) (r : Request) (k : ℕ) (p : Balancer × Option ℕ)
    → slt e.max_retries 0 ≡ true
    → is_websocket_upgrade r ≡ false
    → p.1 ≡ some k
    → ((dispatch env e r p).0 ≡ p.0) × (total sends (dispatch env e r p).1 ≡ 0)
unfolding attempts total
dispatch_leaks env e r k (b, none) m u c = cc
dispatch_leaks env e r k (b, some j) m u c = (ground arith, ground arith)

-- With a negative number of retries the loop is never entered: a request that is no upgrade is
-- sent nowhere, and the connection that it has taken is never given back.
pub serve_leaks :
    (env : Env) (e : Engine) (r : Request) (b : Balancer) (k : ℕ)
    → slt e.max_retries 0 ≡ true
    → is_websocket_upgrade r ≡ false
    → (next (env.clock 0) b).1 ≡ some k
    → (conns (serve env e r b).0 ≡ modify (conns b) k inc) × (total sends (serve env e r b).1 ≡ 0)
unfolding serve
serve_leaks env e r b k m u c =
    let same : is_websocket_upgrade (limit_body e r) ≡ is_websocket_upgrade r =
      upgrade-limit (slt 0 e.max_body_bytes) r e.max_body_bytes in
    let (kept, none_sent) =
      dispatch_leaks env e (limit_body e r) k (next (env.clock 0) b) m (same ∙ u) c in
    (ap conns kept ∙ next-conns (env.clock 0) b ∙ ap (λ o. add_at o (conns b)) c, none_sent)
