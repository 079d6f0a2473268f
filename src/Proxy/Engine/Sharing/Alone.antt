-- ===== src/Proxy/Engine/Sharing/Alone.antt =====
-- A request that no other interrupts.
use web_server.Prelude.{
  sym, ◌&&◌, if◌then◌else◌, ◌≤◌, ℕ, zero, suc, ◌+◌, ◌<◌, ◌≡◌, refl, Bool, true, false, List, Option,
  none, some, arith, two_63, slt,
}
use mathlib.Core.Path.{subst}
use web_server.Http.Message.{Request}
use web_server.Lb.{Balancer, next, release, mark_success}
use web_server.Upstream.{Upstream}
use web_server.Proxy.Headers.{is_websocket_upgrade}
use web_server.Proxy.Retry.{Outcome, responded, failed, should_retry}
use web_server.Proxy.Engine.{
  Env, Engine, Effect, Reply, reply, broken, again, limit_body, target_in, go_on, fail, finish,
  round, attempts, rounds_of, serve, dispatch, tunnel_end,
}
use web_server.Proxy.Engine.Sharing.{
  Stage, arriving, requesting, marking, reporting, releasing, ended, entered, resumed, replied,
  advance,
}

-- Some steps of one request.
pub data Runs (env : Env) (e : Engine) (r : Request) (b' : Balancer) (s' : Stage)
    : Balancer → Stage → Type 0 where
  done : Runs env e r b' s' b' s'
  step :
      {b : Balancer} {s : Stage}
      → Runs env e r b' s' (advance env e r s b).0 (advance env e r s b).1
      → Runs env e r b' s' b s

module _ (env : Env) (e : Engine) (r : Request) where
  abbrev Ends : Balancer → Stage → Balancer → Type 0
  Ends b s b' = Runs env e r b' ended b s

  release-Ends : (k : ℕ) (b : Balancer) → Ends b (releasing k) (release k b)
  unfolding advance
  release-Ends k b = step done

  report-Ends : (k : ℕ) (b : Balancer) → Ends b (reporting k) (release k (mark_success k b))
  unfolding advance
  report-Ends k b = step (step done)

  if-Ends :
      (c : Bool) (x y : Balancer × List Effect) {b : Balancer} {s s' : Stage}
      → (c ≡ true → Ends b s x.0)
      → Ends b s' y.0
      → Ends b (if c then s else s') (if c then x else y).0
  if-Ends true x y h h' = h refl
  if-Ends false x y h h' = h'

  module _ (rest : Balancer → ℕ → Balancer × List Effect) (n : ℕ) where
    fail-Ends :
        (more : Bool)
        → (more ≡ true → (b : Balancer) (j : ℕ) → Ends b (requesting (suc n) j) (rest b j).0)
        → (t : Upstream) (k : ℕ) (b : Balancer)
        → Ends b (marking n k more) (fail env e rest n more t k b).0
    unfolding advance
    fail-Ends false go t k b = step (step done)
    fail-Ends true go t k b = step (step (step (resumed-Ends (next (env.clock (suc n)) _))))
      where
        resumed-Ends :
            (p : Balancer × Option ℕ)
            → Ends
                (resumed env e r (suc n) p).0
                (resumed env e r (suc n) p).1
                (go_on env e rest p).0
        resumed-Ends (b', none) = done
        resumed-Ends (b', some j) = go refl b' j

    finish-Ends :
        ((out : Outcome)
          → again e (limit_body e r) out n ≡ true
          → (b : Balancer) (j : ℕ) → Ends b (requesting (suc n) j) (rest b j).0)
        → (t : Upstream) (k : ℕ) (b : Balancer) (rep : Reply)
        → Ends b (replied env e r n k rep) (finish env e rest (limit_body e r) n t k b rep).0
    finish-Ends go t k b (broken err) =
        if-Ends err.max_bytes _ (fail env e rest n (again e (limit_body e r) (failed err) n) t k b)
          (λ _. release-Ends k b)
          (fail-Ends (again e (limit_body e r) (failed err) n) (go (failed err)) t k b)
    finish-Ends go t k b (reply resp) =
        if-Ends (again e (limit_body e r) (responded resp.status_code) n)
          (fail env e rest n true t k b) _
          (λ more. fail-Ends true (λ _. go (responded resp.status_code) more) t k b)
          (report-Ends k b)

  -- A retry is before the last attempt.
  both : (c d : Bool) → c && d ≡ true → d ≡ true
  both true d h = h
  both false d h = cc

  pub again-lt :
      (out : Outcome) (n : ℕ)
      → e.max_retries < two_63
      → n ≤ e.max_retries
      → again e (limit_body e r) out n ≡ true
      → n < e.max_retries
  again-lt out n m le h =
      let before = both (should_retry (limit_body e r) out) (slt n e.max_retries) h in ground arith

  module _ (m : e.max_retries < two_63) where
    attempts-Ends :
        (rounds n : ℕ)
        → n + rounds ≡ e.max_retries
        → (b : Balancer) (k : ℕ)
        → Ends b (requesting n k) (attempts env e (suc rounds) (limit_body e r) n b k).0
    unfolding advance attempts round
    attempts-Ends zero n h b k = step (
        finish-Ends (attempts env e 0 (limit_body e r) (suc n)) n
          (λ out more.
            let late : n < e.max_retries = again-lt out n m (omega (arith, h)) more in
            absurd (omega (arith, h, late)))
          (target_in b.targets k) k b _)
    attempts-Ends (suc rounds) n h b k = step (
        finish-Ends (attempts env e (suc rounds) (limit_body e r) (suc n)) n
          (λ out more. attempts-Ends rounds (suc n) (omega (arith, h))) (target_in b.targets k) k b
          _)

    tunnel-Ends :
        (c : Bool) (t : Upstream) (k : ℕ) (b : Balancer) (es : List Effect)
        → Ends b (if c then reporting k else marking 0 k false) (tunnel_end env e c t k b es).0
    unfolding advance
    tunnel-Ends true t k b es = step (step done)
    tunnel-Ends false t k b es = step (step done)

    entry-Ends :
        (k : ℕ) (b : Balancer)
        → Ends b
            (if slt e.max_retries 0 then ended else requesting 0 k)
            (attempts env e (rounds_of e.max_retries) (limit_body e r) 0 b k).0
    entry-Ends k b =
        let entered_loop : slt e.max_retries 0 ≡ false = ground arith in
        let rounds : rounds_of e.max_retries ≡ suc e.max_retries = ground arith in
        subst
          (λ c.
            Ends b (if c then ended else requesting 0 k)
              (attempts env e (rounds_of e.max_retries) (limit_body e r) 0 b k).0)
          (sym entered_loop)
          (subst (λ j. Ends b (requesting 0 k) (attempts env e j (limit_body e r) 0 b k).0)
            (sym rounds) (attempts-Ends e.max_retries 0 (omega arith) b k))

    dispatch-Ends :
        (p : Balancer × Option ℕ)
        → Ends (entered env e r p).0 (entered env e r p).1 (dispatch env e (limit_body e r) p).0
    unfolding advance
    dispatch-Ends (b, none) = done
    dispatch-Ends (b, some k) =
        if-Ends (is_websocket_upgrade (limit_body e r)) _
          (attempts env e (rounds_of e.max_retries) (limit_body e r) 0 b k)
          (λ _. step (tunnel-Ends _ _ k b _)) (entry-Ends k b)

-- With the number of retries not negative, a request that no other interrupts ends, and its steps
-- leave the balancer that ServeHTTP leaves as one operation.
pub serve-Runs :
    (env : Env) (e : Engine) (r : Request) (b : Balancer)
    → e.max_retries < two_63
    → Runs env e r (serve env e r b).0 ended b arriving
unfolding serve advance
serve-Runs env e r b m = step (dispatch-Ends env e r m (next (env.clock 0) b))
