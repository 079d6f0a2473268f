-- ===== src/Proxy/Engine/Trace.antt =====
-- Counting the effects of a request.
use web_server.Prelude.{
  ℕ, zero, suc, ◌+◌, ◌≤◌, ◌≡◌, refl, sym, Bool, true, false, List, [], ◌∷◌, ◌++◌, Option, none,
  some, arith, if◌then◌else◌,
}
use web_server.Text.{Bytes}
use web_server.Upstream.{Upstream}
use web_server.Http.Message.{Request, Response}
use web_server.Lb.{Balancer, next}
use web_server.Proxy.Retry.{responded, failed}
use mathlib.Core.Path.{subst}
use web_server.Lb.{release, mark_failure, mark_success}
use web_server.Proxy.Retry.{retry_delay}
use web_server.Proxy.Forward.{outbound_request}
use web_server.Proxy.Tunnel.Counts.{acts_total, act_answers, act_sends}
use web_server.Proxy.Engine.{
  active_metrics, upstream_label, Reply, reply, broken, Env, Engine, Effect, http_error, sent,
  relayed, tunnelled, slept, count_request, observe_duration, count_failure, count_circuit,
  count_retry, go_on, retry, fail, finish, round, attempts, again, failure_metrics, target_in,
}

unfoldable pub total : (Effect → ℕ) → List Effect → ℕ
total f [] = 0
total f (x ∷ xs) = f x + total f xs

pub total-append :
    (f : Effect → ℕ) (xs ys : List Effect) → total f (xs ++ ys) ≡ total f xs + total f ys
unfolding total
total-append f [] ys = omega arith
total-append f (x ∷ xs) ys = omega (arith, total-append f xs ys)

-- An answer to the client: an error, a response of an upstream, or what a tunnel answers.
abbrev pub answers : Effect → ℕ
answers (http_error code) = 1
answers (relayed resp) = 1
answers (tunnelled url acts) = acts_total act_answers acts
answers _ = 0

-- What is sent to an upstream: a request, or the handshake of a tunnel.
abbrev pub sends : Effect → ℕ
sends (sent url q) = 1
sends (tunnelled url acts) = acts_total act_sends acts
sends _ = 0

-- A count that passes over the metrics and the waits.
pub record IsQuiet (f : Effect → ℕ) : Type 0 where
  pub quiet_slept : (d : ℕ) → f (slept d) ≡ 0
  pub quiet_request : (code : ℕ) (label : Option Bytes) → f (count_request code label) ≡ 0
  pub quiet_duration : (label : Option Bytes) → f (observe_duration label) ≡ 0
  pub quiet_failure : (label : Bytes) → f (count_failure label) ≡ 0
  pub quiet_circuit : (label : Bytes) → f (count_circuit label) ≡ 0
  pub quiet_retry : (label : Bytes) → f (count_retry label) ≡ 0
  pub quiet_active : (b : Balancer) → f (active_metrics b) ≡ 0

pub answers-IsQuiet : IsQuiet answers
answers-IsQuiet = ground arith

pub sends-IsQuiet : IsQuiet sends
sends-IsQuiet = ground arith

module _ (f : Effect → ℕ) (q : IsQuiet f) where
  pub failure_quiet :
      (t : Upstream) (b : Balancer) → total f (failure_metrics t ++ active_metrics b ∷ []) ≡ 0
  unfolding total
  failure_quiet t b = ground (
    arith,
    q.quiet_failure (upstream_label t),
    q.quiet_circuit (upstream_label t),
    q.quiet_active b,
  )

  pub error_total :
      (code : ℕ) (label : Option Bytes)
      → total f (http_error code ∷ count_request code label ∷ observe_duration label ∷ [])
        ≡ f (http_error code)
  unfolding total
  error_total code label = omega (arith, q.quiet_request code label, q.quiet_duration label)

  retry_quiet : (label : Bytes) (d : ℕ) → total f (count_retry label ∷ slept d ∷ []) ≡ 0
  unfolding total
  retry_quiet label d = omega (arith, q.quiet_retry label, q.quiet_slept d)

  relayed_total :
      (resp : Response) (b : Balancer) (label : Option Bytes)
      → total f (
          relayed resp
          ∷ active_metrics b
          ∷ count_request resp.status_code label
          ∷ observe_duration label
          ∷ [])
        ≡ f (relayed resp)
  unfolding total
  relayed_total resp b label =
      omega
        (arith, q.quiet_active b, q.quiet_request resp.status_code label, q.quiet_duration label)

  refused_total :
      (code : ℕ) (b : Balancer)
      → total f (http_error code ∷ active_metrics b ∷ []) ≡ f (http_error code)
  unfolding total
  refused_total code b = omega (arith, q.quiet_active b)

  -- What holds of the count of the rest holds of the count of what an attempt does behind its
  -- round trip.
  module _ (P : ℕ → Type 0) (of_error : (code : ℕ) → P (f (http_error code)))
      (of_relayed : (resp : Response) → P (f (relayed resp))) (env : Env) (e : Engine)
      (rest : Balancer → ℕ → Balancer × List Effect)
      (of_rest : (b : Balancer) (j : ℕ) → P (total f (rest b j).1)) where
    quiet-append : (es fs : List Effect) → total f es ≡ 0 → P (total f fs) → P (total f (es ++ fs))
    quiet-append es fs z h =
        let same : total f fs ≡ total f (es ++ fs) = omega (arith, total-append f es fs) in
        subst P same h

    go_on-total : (p : Balancer × Option ℕ) → P (total f (go_on env e rest p).1)
    go_on-total (b, none) = subst P (sym (error_total 502 none)) (of_error 502)
    go_on-total (b, some k) = of_rest b k

    fail-total :
        (n : ℕ) (more : Bool) (t : Upstream) (k : ℕ) (b : Balancer)
        → P (total f (fail env e rest n more t k b).1)
    fail-total n true t k b =
        let b' = release k (mark_failure (env.failure_time n) k b) in
        let following = next (env.clock (suc n)) b' in
        quiet-append (failure_metrics t ++ active_metrics b' ∷ [])
          (retry env e rest n (upstream_label t) b').1 (failure_quiet t b')
          (quiet-append (count_retry (upstream_label t) ∷ slept (retry_delay (env.jitter n) n) ∷ [])
            (go_on env e rest following).1
            (retry_quiet (upstream_label t) (retry_delay (env.jitter n) n)) (go_on-total following))
    fail-total n false t k b =
        let b' = release k (mark_failure (env.failure_time n) k b) in
        quiet-append (failure_metrics t ++ active_metrics b' ∷ []) _ (failure_quiet t b')
          (subst P (sym (error_total 502 (some (upstream_label t)))) (of_error 502))

    if-total :
        (c : Bool) (x y : Balancer × List Effect)
        → P (total f x.1)
        → P (total f y.1)
        → P (total f (if c then x else y).1)
    if-total true x y hx hy = hx
    if-total false x y hx hy = hy

    pub finish-total :
        (r : Request) (n : ℕ) (t : Upstream) (k : ℕ) (b : Balancer) (rep : Reply)
        → P (total f (finish env e rest r n t k b rep).1)
    finish-total r n t k b (broken err) =
        if-total err.max_bytes _ (fail env e rest n (again e r (failed err) n) t k b)
          (subst P (sym (refused_total 413 (release k b))) (of_error 413))
          (fail-total n (again e r (failed err) n) t k b)
    finish-total r n t k b (reply resp) =
        if-total (again e r (responded resp.status_code) n) (fail env e rest n true t k b) _
          (fail-total n true t k b)
          (subst P
            (sym (relayed_total resp (release k (mark_success k b)) (some (upstream_label t))))
            (of_relayed resp))

module _ (env : Env) (e : Engine) (r : Request) where
  abbrev pub reply_to : ℕ → Balancer → ℕ → Reply
  reply_to n b k =
      env.round_trip n (outbound_request env.network.split_host_port (target_in b.targets k).url r)

  pub attempts-answers :
      (rounds n : ℕ) (b : Balancer) (k : ℕ) → total answers (attempts env e rounds r n b k).1 ≡ 1
  unfolding attempts round total
  attempts-answers zero n b k = refl
  attempts-answers (suc rounds) n b k =
      let rest =
        finish-total answers answers-IsQuiet (λ m. m ≡ 1) (λ code. refl) (λ resp. refl) env e
          (attempts env e rounds r (suc n)) (λ b' j. attempts-answers rounds (suc n) b' j) r n
          (target_in b.targets k) k b (reply_to n b k) in
      omega (arith, rest)

  pub attempts-sends :
      (rounds n : ℕ) (b : Balancer) (k : ℕ) → total sends (attempts env e rounds r n b k).1 ≤ rounds
  unfolding attempts round total
  attempts-sends zero n b k = omega arith
  attempts-sends (suc rounds) n b k =
      let rest =
        finish-total sends sends-IsQuiet (λ m. m ≤ rounds) (λ code. omega arith)
          (λ resp. omega arith) env e (attempts env e rounds r (suc n))
          (λ b' j. attempts-sends rounds (suc n) b' j) r n (target_in b.targets k) k b
          (reply_to n b k) in
      omega (arith, rest)
