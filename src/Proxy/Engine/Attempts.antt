-- ===== src/Proxy/Engine/Attempts.antt =====
-- How often a request is answered and how often it is sent.
use web_server.Prelude.{
  ℕ, zero, suc, ◌+◌, ◌≤◌, ◌≡◌, refl, ap, ◌∙◌, sym, Bool, true, false, List, [], ◌∷◌, ◌++◌, Option,
  none, some, arith, slt, if◌then◌else◌,
}
use mathlib.Core.Path.{subst}
use web_server.Upstream.{Upstream}
use web_server.Http.Message.{Request}
use web_server.Lb.{Balancer, next, release, mark_failure, mark_success}
use web_server.Proxy.Headers.{is_websocket_upgrade}
use web_server.Proxy.Retry.{Outcome, responded, failed, should_retry, is_replay_safe_method}
use web_server.Proxy.Tunnel.{Act, handle_websocket}
use web_server.Proxy.Tunnel.Counts.{is_answered, handle_websocket-answers, handle_websocket-sends}
use web_server.Proxy.Engine.{
  Reply, reply, broken, Env, Engine, Effect, http_error, relayed, tunnelled, count_request,
  observe_duration, fail, finish, round, attempts, rounds_of, serve_websocket, dispatch, serve,
  again, limit_body, tunnel_end, target_in, upstream_label, active_metrics,
}
use web_server.Proxy.Engine.Trace.{
  error_total, total, answers, sends, IsQuiet, answers-IsQuiet, sends-IsQuiet, attempts-answers,
  attempts-sends, finish-total, reply_to, failure_quiet,
}

module _ (f : Effect → ℕ) (q : IsQuiet f) (env : Env) (e : Engine) (r : Request) where
  tunnel-total :
      (done : Bool) (acts : List Act) (t : Upstream) (k : ℕ) (b : Balancer)
      → let p = tunnel_end env e done t k b (tunnelled t.url acts ∷ []) in
        total f (p.1 ++ active_metrics p.0 ∷ []) ≡ f (tunnelled t.url acts)
  unfolding total
  tunnel-total true acts t k b = omega (arith, q.quiet_active (release k (mark_success k b)))
  tunnel-total false acts t k b =
      omega (arith, failure_quiet f q t (release k (mark_failure (env.failure_time 0) k b)))

  abbrev acts_at : Balancer → ℕ → List Act
  acts_at b k = (handle_websocket env.network (target_in b.targets k).url r).1

  -- The websocket path makes a tunnel and nothing else that a quiet count sees.
  serve_websocket-total :
      (b : Balancer) (k : ℕ)
      → total f (serve_websocket env e r b k).1
        ≡ f (tunnelled (target_in b.targets k).url (acts_at b k))
  serve_websocket-total b k =
      tunnel-total (handle_websocket env.network (target_in b.targets k).url r).0 (acts_at b k)
        (target_in b.targets k) k b

  -- What holds of the count of an error, of a tunnel and of the loop holds of the handler's.
  module _ (P : Bool → Balancer × Option ℕ → ℕ → Type 0)
      (of_error : (b : Balancer) → P (is_websocket_upgrade r) (b, none) (f (http_error 503)))
      (of_tunnel : (b : Balancer) (k : ℕ)
        → P true (b, some k) (f (tunnelled (target_in b.targets k).url (acts_at b k))))
      (of_attempts : (b : Balancer) (k : ℕ)
        → P false (b, some k) (total f (attempts env e (rounds_of e.max_retries) r 0 b k).1)) where
    if_upgrade :
        (c : Bool) (b : Balancer) (k : ℕ)
        → P c
            (b, some k)
            (total f
              (if c
                then serve_websocket env e r b k
                else attempts env e (rounds_of e.max_retries) r 0 b k).1)
    if_upgrade true b k =
        subst (P true (b, some k)) (sym (serve_websocket-total b k)) (of_tunnel b k)
    if_upgrade false b k = of_attempts b k

    dispatch-total :
        (p : Balancer × Option ℕ) → P (is_websocket_upgrade r) p (total f (dispatch env e r p).1)
    dispatch-total (b, none) =
        subst (P (is_websocket_upgrade r) (b, none)) (sym (error_total f q 503 none)) (of_error b)
    dispatch-total (b, some k) = if_upgrade (is_websocket_upgrade r) b k

-- How often a request is due an answer, behind Next: once, but for an upgrade whose tunnel fails
-- before an answer of the upstream has been read.
abbrev pub due : Env → Request → Bool → Balancer × Option ℕ → ℕ
due env r upgrade (b, none) = 1
due env r false (b, some k) = 1
due env r true (b, some k) = if is_answered env.network (target_in b.targets k).url r then 1 else 0

upgrade-limit_body :
    (e : Engine) (r : Request) → is_websocket_upgrade (limit_body e r) ≡ is_websocket_upgrade r
unfolding is_websocket_upgrade
upgrade-limit_body e r =
    elim (slt 0 e.max_body_bytes)
      as (λ c.
        is_websocket_upgrade (if c then record r { body_limit = some e.max_body_bytes } else r)
        ≡ is_websocket_upgrade r) [ true ↦ refl | false ↦ refl ]

-- Every request is answered exactly once, whatever the transport and the upstreams do: by an error
-- of the gateway or by a response of an upstream. The exception is an upgrade for which there is an
-- upstream: it is answered once if the connection cannot be hijacked at all (by an error) or if the
-- hijack, the dial, the handshake and the reading of the upstream's answer succeed (with that
-- answer), and otherwise not at all.
pub serve-answers :
    (env : Env) (e : Engine) (r : Request) (b : Balancer)
    → total answers (serve env e r b).1
      ≡ due env (limit_body e r) (is_websocket_upgrade r) (next (env.clock 0) b)
unfolding serve
serve-answers env e r b =
    let r' = limit_body e r in
    dispatch-total answers answers-IsQuiet env e r' (λ c p m. m ≡ due env r' c p) (λ b. refl)
      (λ b k. handle_websocket-answers env.network (target_in b.targets k).url r')
      (attempts-answers env e r' (rounds_of e.max_retries) 0) (next (env.clock 0) b)
    ∙ ap (λ c. due env r' c (next (env.clock 0) b)) (upgrade-limit_body e r)

-- A request that is no upgrade is sent to upstreams at most once more than the retries allow, and not
-- at all if the number of retries is negative; the handshake of an upgrade is sent at most once,
-- whatever the number of retries.
pub serve-sends :
    (env : Env) (e : Engine) (r : Request) (b : Balancer)
    → total sends (serve env e r b).1 ≤ (
        if is_websocket_upgrade r
        then 1
        else (if slt e.max_retries 0 then 0 else e.max_retries + 1))
unfolding serve
serve-sends env e r b =
    let r' = limit_body e r in
    let bound =
      dispatch-total sends sends-IsQuiet env e r'
        (λ c p m. m ≤ (if c then 1 else rounds_of e.max_retries)) (λ b. omega arith)
        (λ b k. handle_websocket-sends env.network (target_in b.targets k).url r')
        (attempts-sends env e r' (rounds_of e.max_retries) 0) (next (env.clock 0) b) in
    ground (arith, bound, upgrade-limit_body e r)

should_retry_unsafe :
    (r : Request) (out : Outcome)
    → is_replay_safe_method r.method ≡ false
    → should_retry r out ≡ false
unfolding should_retry
should_retry_unsafe r out h = rw h

abbrev stop : Balancer → ℕ → Balancer × List Effect
stop b k = (b, [])

module _ (env : Env) (e : Engine) (r : Request)
    (unsafe : is_replay_safe_method r.method ≡ false) where
  never_again : (out : Outcome) (n : ℕ) → again e r out n ≡ false
  never_again out n = rw (should_retry_unsafe r out unsafe)

  -- The rest of the loop does not matter.
  finish-stop :
      (rest : Balancer → ℕ → Balancer × List Effect) (n : ℕ) (t : Upstream) (k : ℕ) (b : Balancer)
      (rep : Reply)
      → finish env e rest r n t k b rep ≡ finish env e stop r n t k b rep
  finish-stop rest n t k b (broken err) =
      let ends = λ (go : Balancer → ℕ → Balancer × List Effect) (c : Bool).
        if err.max_bytes
        then (release k b, http_error 413 ∷ active_metrics (release k b) ∷ [])
        else fail env e go n c t k b in
      ap (ends rest) (never_again (failed err) n)
      ∙ sym (ap (ends stop) (never_again (failed err) n))
  finish-stop rest n t k b (reply resp) =
      let b' = release k (mark_success k b) in
      let ends = λ (go : Balancer → ℕ → Balancer × List Effect) (c : Bool).
        if c then fail env e go n true t k b else (
          b',
          relayed resp
              ∷ active_metrics b'
              ∷ count_request resp.status_code (some (upstream_label t))
              ∷ observe_duration (some (upstream_label t))
              ∷ [],
        ) in
      let last = never_again (responded resp.status_code) n in
      ap (ends rest) last ∙ sym (ap (ends stop) last)

  attempts-sends_unsafe :
      (rounds n : ℕ) (b : Balancer) (k : ℕ) → total sends (attempts env e rounds r n b k).1 ≤ 1
  unfolding attempts round total
  attempts-sends_unsafe zero n b k = omega arith
  attempts-sends_unsafe (suc rounds) n b k =
      let t = target_in b.targets k in
      let rest =
        finish-total sends sends-IsQuiet (λ m. m ≤ 0) (λ code. omega arith) (λ resp. omega arith)
          env e stop (λ b' j. omega arith) r n t k b (reply_to env e r n b k) in
      omega (
        arith,
        rest,
        ap (λ (p : Balancer × List Effect). total sends p.1)
            (finish-stop (attempts env e rounds r (suc n)) n t k b (reply_to env e r n b k)),
      )

-- A request whose method is not GET, HEAD or OPTIONS is sent at most once.
pub serve-sends_unsafe :
    (env : Env) (e : Engine) (r : Request) (b : Balancer)
    → is_replay_safe_method r.method ≡ false
    → total sends (serve env e r b).1 ≤ 1
unfolding serve
serve-sends_unsafe env e r b h =
    let r' = limit_body e r in
    let same : r'.method ≡ r.method = ground arith in
    dispatch-total sends sends-IsQuiet env e r' (λ c p m. m ≤ 1) (λ b. omega arith)
      (λ b k. handle_websocket-sends env.network (target_in b.targets k).url r')
      (attempts-sends_unsafe env e r' (ap is_replay_safe_method same ∙ h) (rounds_of e.max_retries)
        0)
      (next (env.clock 0) b)
