-- ===== src/Proxy/Engine/Counted.antt =====
-- The metrics of requests, beside the answers.
use web_server.Prelude.{
  ℕ, zero, suc, ◌+◌, ◌≡◌, refl, Bool, true, false, List, [], ◌∷◌, ◌++◌, Option, none, some, arith,
  if◌then◌else◌, ◌==◌,
}
use web_server.Upstream.{Upstream, Url}
use web_server.Http.Message.{Request}
use web_server.Lb.{Balancer, next, release, mark_failure}
use web_server.Proxy.Headers.{is_websocket_upgrade}
use web_server.Proxy.Retry.{responded, failed, retry_delay}
use web_server.Proxy.Tunnel.{Act, handle_websocket}
use web_server.Proxy.Tunnel.Counts.{acts_total, answered_with}
use web_server.Proxy.Engine.{
  active_metrics, upstream_label, Reply, reply, broken, Env, Engine, Effect, http_error, relayed,
  tunnelled, slept, count_request, count_retry, go_on, retry, fail, finish, round, attempts, again,
  failure_metrics, target_in, serve, dispatch, serve_websocket, tunnel_end, rounds_of, limit_body,
}
use web_server.Proxy.Engine.Trace.{total, total-append, reply_to}

-- One if the request is counted under the status `code`.
abbrev pub counted_as : ℕ → Effect → ℕ
counted_as code (count_request status label) = if status == code then 1 else 0
counted_as code _ = 0

-- One if the client is answered with it; what a tunnel answers is among it.
abbrev pub answered_as : ℕ → Effect → ℕ
answered_as code (http_error status) = if status == code then 1 else 0
answered_as code (relayed resp) = if resp.status_code == code then 1 else 0
answered_as code (tunnelled url acts) = acts_total (answered_with code) acts
answered_as code _ = 0

-- The answers that no metric counts: the gateway's 413, and those of a tunnel.
abbrev pub uncounted_as : ℕ → Effect → ℕ
uncounted_as code (http_error status) =
    if status == 413 then (if status == code then 1 else 0) else 0
uncounted_as code (tunnelled url acts) = acts_total (answered_with code) acts
uncounted_as code _ = 0

module _ (code : ℕ) where
  abbrev Agree : List Effect → Type 0
  Agree es = total (counted_as code) es + total (uncounted_as code) es ≡ total (answered_as code) es

  Agree-append : (es fs : List Effect) → Agree es → Agree fs → Agree (es ++ fs)
  Agree-append es fs h h' = omega (
    arith,
    total-append (counted_as code) es fs,
    total-append (uncounted_as code) es fs,
    total-append (answered_as code) es fs,
    h,
    h',
  )

  failure-Agree : (t : Upstream) → Agree (failure_metrics t)
  unfolding total
  failure-Agree t = ground arith

  failure_active-Agree :
      (t : Upstream) (b : Balancer) → Agree (failure_metrics t ++ active_metrics b ∷ [])
  unfolding total
  failure_active-Agree t b = ground arith

  module _ (env : Env) (e : Engine) (rest : Balancer → ℕ → Balancer × List Effect)
      (of_rest : (b : Balancer) (j : ℕ) → Agree (rest b j).1) where
    go_on-Agree : (p : Balancer × Option ℕ) → Agree (go_on env e rest p).1
    unfolding total
    go_on-Agree (b, none) = ground arith
    go_on-Agree (b, some k) = of_rest b k

    fail-Agree :
        (n : ℕ) (more : Bool) (t : Upstream) (k : ℕ) (b : Balancer)
        → Agree (fail env e rest n more t k b).1
    unfolding total
    fail-Agree n true t k b =
        let b' = release k (mark_failure (env.failure_time n) k b) in
        Agree-append (failure_metrics t ++ active_metrics b' ∷ [])
          (retry env e rest n (upstream_label t) b').1 (failure_active-Agree t b')
          (Agree-append (count_retry (upstream_label t) ∷ slept (retry_delay (env.jitter n) n) ∷ [])
            (go_on env e rest (next (env.clock (suc n)) b')).1 refl
            (go_on-Agree (next (env.clock (suc n)) b')))
    fail-Agree n false t k b =
        let b' = release k (mark_failure (env.failure_time n) k b) in
        Agree-append (failure_metrics t ++ active_metrics b' ∷ []) _ (failure_active-Agree t b')
          (ground arith)

    if-Agree :
        (c : Bool) (x y : Balancer × List Effect)
        → Agree x.1
        → Agree y.1
        → Agree (if c then x else y).1
    if-Agree true x y hx hy = hx
    if-Agree false x y hx hy = hy

    finish-Agree :
        (r : Request) (n : ℕ) (t : Upstream) (k : ℕ) (b : Balancer) (rep : Reply)
        → Agree (finish env e rest r n t k b rep).1
    unfolding total
    finish-Agree r n t k b (broken err) =
        if-Agree err.max_bytes _ (fail env e rest n (again e r (failed err) n) t k b) (omega arith)
          (fail-Agree n (again e r (failed err) n) t k b)
    finish-Agree r n t k b (reply resp) =
        if-Agree (again e r (responded resp.status_code) n) (fail env e rest n true t k b) _
          (fail-Agree n true t k b) (ground arith)

  module _ (env : Env) (e : Engine) (r : Request) where
    attempts-Agree : (rounds n : ℕ) (b : Balancer) (k : ℕ) → Agree (attempts env e rounds r n b k).1
    unfolding attempts round total
    attempts-Agree zero n b k = ground arith
    attempts-Agree (suc rounds) n b k =
        let behind =
          finish-Agree env e (attempts env e rounds r (suc n))
            (λ b' j. attempts-Agree rounds (suc n) b' j) r n (target_in b.targets k) k b
            (reply_to env e r n b k) in
        omega (arith, behind)

    tunnel-Agree :
        (c : Bool) (t : Upstream) (k : ℕ) (b b' : Balancer) (u : Url) (acts : List Act)
        → Agree ((tunnel_end env e c t k b (tunnelled u acts ∷ [])).1 ++ active_metrics b' ∷ [])
    unfolding total
    tunnel-Agree true t k b b' u acts = omega arith
    tunnel-Agree false t k b b' u acts = ground arith

    dispatch-Agree : (p : Balancer × Option ℕ) → Agree (dispatch env e r p).1
    unfolding total
    dispatch-Agree (b, none) = ground arith
    dispatch-Agree (b, some k) =
        elim (is_websocket_upgrade r)
          as (λ c.
            Agree
              (if c
                then serve_websocket env e r b k
                else attempts env e (rounds_of e.max_retries) r 0 b k).1) [
                  | true ↦
                      (let t = target_in b.targets k in
                        let tunnel = handle_websocket env.network t.url r in
                        tunnel-Agree tunnel.0 t k b
                          (tunnel_end env e tunnel.0 t k b (tunnelled t.url tunnel.1 ∷ [])).0 t.url
                          tunnel.1)
                  | false ↦ attempts-Agree (rounds_of e.max_retries) 0 b k
                ]

-- A request is counted under a status as often as the client is answered with it, whatever the
-- transport and the upstreams do, but for two kinds of answers, which are never counted: the
-- gateway's own 413, for a body that is too long, and those of the WebSocket path, which are its 500
-- for a connection that cannot be hijacked and the upstream's answer to the handshake.
pub serve-counted_as :
    (env : Env) (e : Engine) (r : Request) (b : Balancer) (code : ℕ)
    → total (counted_as code) (serve env e r b).1 + total (uncounted_as code) (serve env e r b).1
      ≡ total (answered_as code) (serve env e r b).1
unfolding serve
serve-counted_as env e r b code = dispatch-Agree code env e (limit_body e r) (next (env.clock 0) b)
