-- ===== src/Proxy/Engine/Sharing/Ending.antt =====
-- Every request ends, whatever the others do.
use web_server.Prelude.{
  sym, ℕ, zero, suc, ◌+◌, ◌*◌, ◌-◌, ◌≤◌, ◌<◌, ◌≡◌, ◌⊎◌, refl, ap, Bool, inl, inr, true, false, List,
  [], ◌∷◌, All, Option, none, some, arith, if◌then◌else◌, ◌==◌, two_63, get_elem?,
}
use mathlib.Core.Path.{subst}
use web_server.Http.Message.{Request}
use web_server.Lb.{Balancer, next}
use web_server.Proxy.Retry.{responded, failed}
use web_server.Proxy.Engine.{Env, Engine, Reply, reply, broken, again, limit_body}
use web_server.Proxy.Tunnel.{handle_websocket}
use web_server.Proxy.Engine.{target_in}
use web_server.Proxy.Engine.Sharing.{
  Stage, arriving, requesting, tunnelling, marking, reporting, dropping, retrying, releasing, ended,
  entered, resumed, replied, advance, advance_at, Client, Serving, started, stepped,
}
use web_server.Proxy.Engine.Sharing.Alone.{again-lt}
use web_server.Proxy.Engine.Sharing.Counting.{IsArriving}

-- At most so many steps are left, with so many retries.
abbrev left : ℕ → Stage → ℕ
left m arriving = 5 * m + 4
left m (requesting n k) = 5 * (m - n) + 3
left m (tunnelling k) = 3
left m (marking n k true) = 5 * (m - n) + 2
left m (marking n k false) = 2
left m (reporting k) = 2
left m (dropping n k) = 5 * (m - n) + 1
left m (retrying n) = 5 * (m - n) + 4
left m (releasing k) = 1
left m ended = 0

-- A retry follows only an attempt that is not the last.
abbrev IsEarly : ℕ → Stage → Type 0
IsEarly m (requesting n k) = n ≤ m
IsEarly m (marking n k true) = n < m
IsEarly m (dropping n k) = n < m
IsEarly m (retrying n) = n ≤ m
IsEarly m _ = Unit

-- A stage with at most `l` steps left.
abbrev IsWithin : ℕ → ℕ → Stage → Type 0
IsWithin m l s = IsEarly m s × (left m s ≤ l)

if-IsWithin :
    (m l : ℕ) (c : Bool) (s s' : Stage)
    → (c ≡ true → IsWithin m l s)
    → IsWithin m l s'
    → IsWithin m l (if c then s else s')
if-IsWithin m l true s s' h h' = h refl
if-IsWithin m l false s s' h h' = h'

module _ (env : Env) (e : Engine) (r : Request) (m : e.max_retries < two_63) where
  entered-IsWithin :
      (p : Balancer × Option ℕ)
      → IsWithin e.max_retries (5 * e.max_retries + 3) (entered env e r p).1
  entered-IsWithin (b, none) = (tt, omega arith)
  entered-IsWithin (b, some k) = ground arith

  resumed-IsWithin :
      (n : ℕ) (p : Balancer × Option ℕ)
      → n ≤ e.max_retries
      → IsWithin e.max_retries (5 * (e.max_retries - n) + 3) (resumed env e r n p).1
  resumed-IsWithin n (b, none) h = (tt, omega arith)
  resumed-IsWithin n (b, some k) h = (h, omega arith)

  marking-IsWithin :
      (n k : ℕ) (more : Bool)
      → (more ≡ true → n < e.max_retries)
      → IsWithin e.max_retries (5 * (e.max_retries - n) + 2) (marking n k more)
  marking-IsWithin n k true h = (h refl, omega arith)
  marking-IsWithin n k false h = (tt, omega arith)

  replied-IsWithin :
      (n k : ℕ) (rep : Reply)
      → n ≤ e.max_retries
      → IsWithin e.max_retries (5 * (e.max_retries - n) + 2) (replied env e r n k rep)
  replied-IsWithin n k (broken err) h =
      if-IsWithin e.max_retries _ err.max_bytes _
        (marking n k (again e (limit_body e r) (failed err) n)) (λ _. (tt, omega arith))
        (marking-IsWithin n k (again e (limit_body e r) (failed err) n)
          (again-lt env e r (failed err) n m h))
  replied-IsWithin n k (reply resp) h =
      if-IsWithin e.max_retries _ (again e (limit_body e r) (responded resp.status_code) n)
        (marking n k true) _
        (λ more. (again-lt env e r (responded resp.status_code) n m h more, omega arith))
        (tt, omega arith)

  -- A step of a request that has not ended leaves fewer.
  advance-IsWithin :
      (s : Stage) (b : Balancer)
      → IsEarly e.max_retries s
      → (s ≡ ended)
        ⊎ (IsEarly e.max_retries (advance env e r s b).1
            × (left e.max_retries (advance env e r s b).1 < left e.max_retries s))
  unfolding advance
  advance-IsWithin arriving b h =
      let w = entered-IsWithin (next (env.clock 0) b) in inr (w.0, omega (arith, w.1))
  advance-IsWithin (requesting n k) b h =
      let w = replied-IsWithin n k _ h in inr (w.0, omega (arith, w.1))
  advance-IsWithin (tunnelling k) b h =
      let w =
        if-IsWithin e.max_retries 2
          (handle_websocket env.network (target_in b.targets k).url (limit_body e r)).0
          (reporting k) (marking 0 k false) (λ _. (tt, omega arith)) (tt, omega arith) in
      inr (w.0, omega (arith, w.1))
  advance-IsWithin (marking n k true) b h = inr (h, omega arith)
  advance-IsWithin (marking n k false) b h = inr (tt, omega arith)
  advance-IsWithin (reporting k) b h = inr (tt, omega arith)
  advance-IsWithin (dropping n k) b h = inr (omega (arith, h), omega (arith, h))
  advance-IsWithin (retrying n) b h =
      let w = resumed-IsWithin n (next (env.clock n) b) h in inr (w.0, omega (arith, w.1))
  advance-IsWithin (releasing k) b h = inr (tt, omega arith)
  advance-IsWithin ended b h = inl refl

  advance-ended : (s : Stage) (b : Balancer) → s ≡ ended → (advance env e r s b).1 ≡ ended
  unfolding advance
  advance-ended s b over = ap (λ t. (advance env e r t b).1) over

-- The request at position `i` has ended, or has been given at most so many steps that `l` are left
-- of `t`.
abbrev IsOnTime : ℕ → ℕ → ℕ → Option Client → Type 0
IsOnTime m t given none = Unit
IsOnTime m t given (some c) = (c.stage ≡ ended) ⊎ (IsEarly m c.stage × (left m c.stage + given ≤ t))

advance_at-IsOnTime :
    (e : Engine) (t given i k : ℕ) (b : Balancer) (cs : List Client)
    → e.max_retries < two_63
    → IsOnTime e.max_retries t given (get_elem? cs i)
    → IsOnTime e.max_retries t
        ((if i == k then 1 else 0) + given)
        (get_elem? (advance_at e k b cs).1 i)
unfolding advance_at
advance_at-IsOnTime e t given i k b [] m h = ground arith
advance_at-IsOnTime e t given zero zero b (c ∷ cs) m (inl over) =
    inl (advance-ended c.env e c.request m c.stage b over)
advance_at-IsOnTime e t given zero zero b (c ∷ cs) m (inr (early, fits)) =
    elim (advance-IsWithin c.env e c.request m c.stage b early) [
      | inl over ↦ inl (advance-ended c.env e c.request m c.stage b over)
      | inr (early', less) ↦ inr (early', omega (arith, less, fits))
    ]
advance_at-IsOnTime e t given zero (suc k) b (c ∷ cs) m h =
    subst (λ n. IsOnTime e.max_retries t n (some c)) (ground arith) h
advance_at-IsOnTime e t given (suc i) zero b (c ∷ cs) m h =
    subst (λ n. IsOnTime e.max_retries t n (get_elem? cs i)) (ground arith) h
advance_at-IsOnTime e t given (suc i) (suc k) b (c ∷ cs) m h =
    subst (λ n. IsOnTime e.max_retries t n (get_elem? (advance_at e k b cs).1 i)) (ground arith)
      (advance_at-IsOnTime e t given i k b cs m h)

-- The steps of the request at position `i` in a run.
unfoldable pub own_steps :
    {e : Engine} {b : Balancer} {cs : List Client} {b' : Balancer} {ds : List Client}
    → ℕ
    → Serving e b cs b' ds
    → ℕ
own_steps i started = 0
own_steps i (stepped before k same) = (if i == k then 1 else 0) + own_steps i before

Serving-IsOnTime :
    (e : Engine) (t i : ℕ)
    → e.max_retries < two_63
    → {b : Balancer} {cs : List Client} {b' : Balancer} {ds : List Client}
    → IsOnTime e.max_retries t 0 (get_elem? cs i)
    → (r : Serving e b cs b' ds) → IsOnTime e.max_retries t (own_steps i r) (get_elem? ds i)
unfolding own_steps
Serving-IsOnTime e t i m h started = h
Serving-IsOnTime e t i m h (stepped {b' = b'} {ds = ds} before k same) =
    subst
      (λ (p : Balancer × List Client).
        IsOnTime e.max_retries t ((if i == k then 1 else 0) + own_steps i before) (get_elem? p.1 i))
      same
      (advance_at-IsOnTime e t (own_steps i before) i k b' ds m (Serving-IsOnTime e t i m h before))

arriving-IsOnTime :
    (m i : ℕ) (cs : List Client) → All IsArriving cs → IsOnTime m (5 * m + 4) 0 (get_elem? cs i)
arriving-IsOnTime m i [] a = tt
arriving-IsOnTime m zero (c ∷ cs) a =
    let start : left m c.stage ≡ 5 * m + 4 = ap (left m) a.0 in
    inr (subst (IsEarly m) (sym a.0) tt, omega (arith, start))
arriving-IsOnTime m (suc i) (c ∷ cs) a = arriving-IsOnTime m i cs a.1

none_left : (m : ℕ) (s : Stage) → left m s ≡ 0 → s ≡ ended
none_left m arriving h = absurd (omega (arith, h))
none_left m (requesting n k) h = absurd (omega (arith, h))
none_left m (tunnelling k) h = absurd (omega (arith, h))
none_left m (marking n k true) h = absurd (omega (arith, h))
none_left m (marking n k false) h = absurd (omega (arith, h))
none_left m (reporting k) h = absurd (omega (arith, h))
none_left m (dropping n k) h = absurd (omega (arith, h))
none_left m (retrying n) h = absurd (omega (arith, h))
none_left m (releasing k) h = absurd (omega (arith, h))
none_left m ended h = refl

late-ended :
    (m t given : ℕ) (c : Client) → IsOnTime m t given (some c) → t ≤ given → c.stage ≡ ended
late-ended m t given c (inl over) h = over
late-ended m t given c (inr (early, fits)) h = none_left m c.stage (omega (arith, fits, h))

-- However many requests run at once through an engine with a number of retries that is not
-- negative, and in whatever order their steps come: a request that has been given five steps for
-- each retry and four more has ended, whatever the upstreams, the transport and the other requests
-- do.
pub Serving-ended :
    (e : Engine) (b : Balancer) (cs : List Client) (i : ℕ) {b' : Balancer} {ds : List Client}
    {c : Client}
    → e.max_retries < two_63
    → All IsArriving cs
    → (r : Serving e b cs b' ds) → get_elem? ds i ≡ some c
    → 5 * e.max_retries + 4 ≤ own_steps i r
    → c.stage ≡ ended
Serving-ended e b cs i {ds = ds} {c = c} m a r found h =
    late-ended e.max_retries (5 * e.max_retries + 4) (own_steps i r) c
      (subst (IsOnTime e.max_retries (5 * e.max_retries + 4) (own_steps i r)) found
        (Serving-IsOnTime e (5 * e.max_retries + 4) i m (arriving-IsOnTime e.max_retries i cs a) r))
      h
