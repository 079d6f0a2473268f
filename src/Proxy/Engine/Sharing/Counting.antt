-- ===== src/Proxy/Engine/Sharing/Counting.antt =====
-- The connections that requests hold while they run at once.
use web_server.Prelude.{
  All, ℕ, zero, suc, ◌+◌, ◌≡◌, refl, ap, ◌∙◌, true, false, List, [], ◌∷◌, Option, none, some, arith,
  slt, get_elem?,
}
use mathlib.Core.Path.{sym, subst}
use web_server.Http.Message.{Request}
use web_server.Lb.{Balancer, next, release}
use web_server.Lb.Conns.{
  conns, AreWords, add_at, next-conns, release-conns, mark_failure-conns, mark_success-conns,
}
use web_server.Proxy.Engine.{Env, Engine, Reply, reply, broken}
use web_server.Proxy.Engine.Sharing.{
  started, stepped, Stage, arriving, requesting, tunnelling, marking, reporting, dropping, retrying,
  releasing, ended, entered, resumed, replied, advance, advance_at, Client, Serving, started,
  stepped,
}
use web_server.Proxy.Engine.Sharing.Tally.{at, plus, Tallied, plus-zero, inc-Tallied, dec-Tallied}

-- Whether a request holds a connection to the upstream at position `j`.
abbrev held : ℕ → Stage → ℕ
held j (requesting n k) = at j k
held j (tunnelling k) = at j k
held j (marking n k more) = at j k
held j (reporting k) = at j k
held j (dropping n k) = at j k
held j (releasing k) = at j k
held j _ = 0

-- The requests that hold one.
abbrev pub holders : ℕ → List Client → ℕ
holders j [] = 0
holders j (c ∷ cs) = held j c.stage + holders j cs

-- One if the position is the one that Next has returned.
abbrev taken : ℕ → Option ℕ → ℕ
taken j none = 0
taken j (some k) = at j k

module _ (j h : ℕ) (o : Option ℕ) where
  -- The balancer counts so many more at `j`, `h` and these.
  abbrev Counts : ℕ → Balancer → Type 0
  Counts more b = Tallied j (h + more) o (conns b)

  next-Counts :
      (clock : ℕ → ℕ) (b : Balancer)
      → Counts 0 b
      → Counts (taken j (next clock b).1) (next clock b).0
  next-Counts clock b t =
      ap (λ cs. get_elem? cs j) (next-conns clock b) ∙ add_at-Counts (next clock b).1
    where
      add_at-Counts : (p : Option ℕ) → get_elem? (add_at p (conns b)) j ≡ plus (h + taken j p) o
      add_at-Counts none = t
      add_at-Counts (some k) = inc-Tallied j k h o (conns b) (t ∙ plus-zero o h)

  release-Counts : (k : ℕ) (b : Balancer) → Counts (at j k) b → Counts 0 (release k b)
  release-Counts k b t =
      ap (λ cs. get_elem? cs j) (release-conns k b)
      ∙ dec-Tallied j k h o (conns b) t
      ∙ sym (plus-zero o h)

  module _ (env : Env) (e : Engine) (r : Request) (m : slt e.max_retries 0 ≡ false) where
    entered-Counts :
        (p : Balancer × Option ℕ)
        → Counts (taken j p.1) p.0
        → Counts (held j (entered env e r p).1) (entered env e r p).0
    entered-Counts (b, none) t = t
    entered-Counts (b, some k) t = ground arith

    resumed-Counts :
        (n : ℕ) (p : Balancer × Option ℕ)
        → Counts (taken j p.1) p.0
        → Counts (held j (resumed env e r n p).1) (resumed env e r n p).0
    resumed-Counts n (b, none) t = t
    resumed-Counts n (b, some k) t = t

    replied-held : (n k : ℕ) (rep : Reply) → held j (replied env e r n k rep) ≡ at j k
    replied-held n k (broken err) = ground arith
    replied-held n k (reply resp) = ground arith

    -- A step counts the connection that the request takes or gives back.
    advance-Counts :
        (s : Stage) (b : Balancer)
        → Counts (held j s) b
        → Counts (held j (advance env e r s b).1) (advance env e r s b).0
    unfolding advance
    advance-Counts arriving b t =
        entered-Counts (next (env.clock 0) b) (next-Counts (env.clock 0) b t)
    advance-Counts (requesting n k) b t = t ∙ ap (λ a. plus (h + a) o) (sym (replied-held n k _))
    advance-Counts (tunnelling k) b t = ground arith
    advance-Counts (marking n k true) b t = ap (λ cs. get_elem? cs j) (mark_failure-conns _ k b) ∙ t
    advance-Counts (marking n k false) b t =
        ap (λ cs. get_elem? cs j) (mark_failure-conns _ k b) ∙ t
    advance-Counts (reporting k) b t = ap (λ cs. get_elem? cs j) (mark_success-conns k b) ∙ t
    advance-Counts (dropping n k) b t = release-Counts k b t
    advance-Counts (retrying n) b t =
        resumed-Counts n (next (env.clock n) b) (next-Counts (env.clock n) b t)
    advance-Counts (releasing k) b t = release-Counts k b t
    advance-Counts ended b t = t

-- A step of one of the requests, with `h` connections held beside theirs.
advance_at-Counts :
    (e : Engine) (j h : ℕ) (o : Option ℕ)
    → slt e.max_retries 0 ≡ false
    → (i : ℕ) (cs : List Client) (b : Balancer) → Counts j h o (holders j cs) b
    → Counts j h o (holders j (advance_at e i b cs).1) (advance_at e i b cs).0
unfolding advance_at
advance_at-Counts e j h o m i [] b t = t
advance_at-Counts e j h o m zero (c ∷ cs) b t =
    let s = (advance c.env e c.request c.stage b).1 in
    let before : h + (held j c.stage + holders j cs) ≡ (h + holders j cs) + held j c.stage =
      omega arith in
    let after : (h + holders j cs) + held j s ≡ h + (held j s + holders j cs) = omega arith in
    advance-Counts j (h + holders j cs) o c.env e c.request m c.stage b
      (t ∙ ap (λ n. plus n o) before)
    ∙ ap (λ n. plus n o) after
advance_at-Counts e j h o m (suc i) (c ∷ cs) b t =
    let ds = (advance_at e i b cs).1 in
    let before : h + (held j c.stage + holders j cs) ≡ (h + held j c.stage) + holders j cs =
      omega arith in
    let after : (h + held j c.stage) + holders j ds ≡ h + (held j c.stage + holders j ds) =
      omega arith in
    advance_at-Counts e j (h + held j c.stage) o m i cs b (t ∙ ap (λ n. plus n o) before)
    ∙ ap (λ n. plus n o) after

-- A request before its first step.
abbrev pub IsArriving : Client → Type 0
IsArriving c = c.stage ≡ arriving

words : (j : ℕ) (cs : List ℕ) → AreWords cs → get_elem? cs j ≡ plus 0 (get_elem? cs j)
words j [] w = refl
words zero (c ∷ cs) w = ap some (omega (arith, w.0))
words (suc j) (c ∷ cs) w = words j cs w.1

Serving-Counts :
    (e : Engine) (j : ℕ) (o : Option ℕ)
    → slt e.max_retries 0 ≡ false
    → {b : Balancer} {cs : List Client} {b' : Balancer} {ds : List Client}
    → Counts j 0 o (holders j cs) b
    → Serving e b cs b' ds
    → Counts j 0 o (holders j ds) b'
Serving-Counts e j o m t started = t
Serving-Counts e j o m t (stepped {b' = b'} {ds = ds} before i same) =
    subst (λ (p : Balancer × List Client). Counts j 0 o (holders j p.1) p.0) same
      (advance_at-Counts e j 0 o m i ds b' (Serving-Counts e j o m t before))

holders-arriving : (j : ℕ) (cs : List Client) → All IsArriving cs → holders j cs ≡ 0
holders-arriving j [] a = refl
holders-arriving j (c ∷ cs) a =
    let none_held : held j c.stage ≡ 0 = ap (held j) a.0 in
    omega (arith, none_held, holders-arriving j cs a.1)

-- However many requests run at once through an engine with a number of retries that is not
-- negative, and in whatever order their operations on the balancer and their round trips come, from
-- the arrival of all of them on: at every moment each upstream counts, as a 64-bit word, as many
-- connections more than before as requests hold one to it then, which none does that is waiting for
-- a retry or has ended.
pub Serving-conns :
    (e : Engine) (b : Balancer) (cs : List Client) (j : ℕ) {b' : Balancer} {ds : List Client}
    → slt e.max_retries 0 ≡ false
    → AreWords (conns b)
    → All IsArriving cs
    → Serving e b cs b' ds
    → get_elem? (conns b') j ≡ plus (holders j ds) (get_elem? (conns b) j)
Serving-conns e b cs j m w a r =
    let start =
      words j (conns b) w
      ∙ ap (λ n. plus n (get_elem? (conns b) j)) (sym (holders-arriving j cs a)) in
    Serving-Counts e j (get_elem? (conns b) j) m
      (start ∙ ap (λ n. plus n (get_elem? (conns b) j)) (omega arith)) r
    ∙ ap (λ n. plus n (get_elem? (conns b) j)) (omega arith)
