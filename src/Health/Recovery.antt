-- ===== src/Health/Recovery.antt =====
-- How an outage ends: the circuit breaker of internal/types/upstream.go, the balancers of
-- internal/lb and the health checks together.
use mathlib.Core.Path.{subst}
use web_server.Prelude.{
  Option-cases, inl, inr, zero, suc, ap, ◌∙◌, ◌↔◌, [], ◌∷◌, ℕ, ◌+◌, ◌≤◌, ◌≡◌, true, false, List,
  Option, some, arith, sle, inc, get_elem?, IsPositive,
}
use web_server.Text.{Bytes}
use web_server.Upstream.{
  Upstream, Url, unix, record_failure, record_success, threshold_of, circuit_closed, try_half_open,
}
use web_server.Upstream.Probing.{IsInstant}
use web_server.Lb.{Balancer, next, admit}
use web_server.Lb.Candidates.{available, admit-available, NoneAvailable}
use web_server.Lb.Selection.{next-none_iff}
use web_server.Health.{check, is_healthy}

none_at :
    (clock : ℕ → ℕ) (i k : ℕ) (ts : List Upstream) {t : Upstream}
    → NoneAvailable clock i ts
    → get_elem? ts k ≡ some t
    → available (clock (i + k)) t ≡ false
none_at clock i k [] h e = cc
none_at clock i zero (s ∷ ts) {t} h e =
    let same : s ≡ t = cc in
    let here : i ≡ i + 0 = omega arith in
    subst (λ n. available (clock n) t ≡ false) here
      (subst (λ s. available (clock i) s ≡ false) same h.0)
none_at clock i (suc k) (s ∷ ts) {t} h e =
    let there : suc i + k ≡ i + suc k = omega arith in
    subst (λ n. available (clock n) t ≡ false) there (none_at clock (suc i) k ts h.1 e)

module _ (client : Url → Bytes → Option ℕ) (path : Bytes) (u : Upstream) (now later : ℕ) where
  -- The upstream behind the failure that opens its circuit, and a health check.
  abbrev pub checked : Upstream
  checked = check client path (record_failure now u)

  -- That failure reaches the threshold, and the times are in range.
  pub record IsOutage : Type 0 where
    pub trips : sle (threshold_of u) (inc u.failure_count) ≡ true
    pub lasts : IsPositive u.cb_open_duration
    pub ends : IsInstant (now + u.cb_open_duration)
    pub asked : IsInstant later

  checked-available :
      IsOutage
      → (available later checked ≡ true)
        ↔ ((unix (now + u.cb_open_duration) ≤ unix later) × (is_healthy (client u.url path) ≡ true))
  unfolding check record_failure
  checked-available o = (
    λ a. (
      ground (arith, a, o.trips, o.lasts, o.ends, o.asked),
      ground (arith, a, o.trips, o.lasts, o.ends, o.asked),
    ),
    λ h. ground (arith, h.0, h.1, o.trips, o.lasts, o.ends, o.asked),
  )

  probe_closes :
      IsOutage
      → available later checked ≡ true
      → let v = record_success (admit later checked).0 in
        (v.circuit_state ≡ circuit_closed) × (v.healthy ≡ true) × (v.failure_count ≡ 0)
  unfolding check record_failure record_success admit try_half_open
  probe_closes o a = (
    ground (arith, a, o.trips, o.lasts, o.ends, o.asked),
    ground (arith, a, o.trips, o.lasts, o.ends, o.asked),
    ground arith,
  )

  next-checked :
      (clock : ℕ → ℕ) (b : Balancer) (k : ℕ)
      → available later checked ≡ true
      → clock k ≡ later
      → get_elem? b.targets k ≡ some checked
      → (j : ℕ) × ((next clock b).1 ≡ some j)
  next-checked clock b k a t e = elim (Option-cases (next clock b).1) [
    | inl n ↦
        let missing = none_at clock 0 k b.targets ((next-none_iff clock b).0 n) e in
        let here : 0 + k ≡ k = omega arith in
        let missing' : available later checked ≡ false =
          subst (λ t. available t checked ≡ false) (ap clock here ∙ t) missing in
        cc (a, missing')
    | inr found ↦ found
  ]

  -- When the failure that opens a circuit is over by the configured time and a health check has
  -- succeeded since, Next of any balancer that has the upstream finds one, this upstream is let
  -- through as a probe, and the probe's success closes the circuit, with the upstream healthy and no
  -- failure counted.
  pub outage_ends :
      (clock : ℕ → ℕ) (b : Balancer) (k : ℕ)
      → IsOutage
      → unix (now + u.cb_open_duration) ≤ unix later
      → is_healthy (client u.url path) ≡ true
      → clock k ≡ later
      → get_elem? b.targets k ≡ some checked
      → ((j : ℕ) × ((next clock b).1 ≡ some j))
        × ((admit later checked).1 ≡ true)
        × (let v = record_success (admit later checked).0 in
            (v.circuit_state ≡ circuit_closed) × (v.healthy ≡ true) × (v.failure_count ≡ 0))
  outage_ends clock b k o due ok t e =
      let a = (checked-available o).1 (due, ok) in
      (next-checked clock b k a t e, admit-available later checked ∙ a, probe_closes o a)
