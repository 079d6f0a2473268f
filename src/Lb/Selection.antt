-- ===== src/Lb/Selection.antt =====
-- Which upstream `Next` chooses, and when it finds none.
use web_server.Prelude.{
  ℕ, zero, suc, ◌+◌, ◌≡◌, ◌↔◌, inl, inr, refl, true, false, List, [], ◌∷◌, Option, none, some,
  arith, get_elem?, slt,
}
use web_server.Upstream.{Upstream}
use mathlib.Core.Path.{subst}
use web_server.Lb.{
  next_by, settle, settle, Balancer, Algorithm, round_robin, weighted_round_robin,
  least_connections, next, collect, collect_weighted, scan,
}
use web_server.Lb.Candidates.{
  available, Offers, NoneAvailable, collect-Candidates, collect_weighted-Candidates,
  rotate-none_iff, rotate_mem,
}
use web_server.Lb.Scan.{Fewest, Holds, Scanned, scan-Scanned}

-- Position `k` of the list holds an available upstream.
abbrev pub HasAvailable : (ℕ → ℕ) → List Upstream → ℕ → Type 0
HasAvailable clock ts k =
    (t : Upstream) × (get_elem? ts k ≡ some t) × (available (clock k) t ≡ true)

Offers-at :
    (clock : ℕ → ℕ) (i : ℕ) (ts : List Upstream) (k : ℕ)
    → Offers clock i ts k
    → (n : ℕ) × (t : Upstream) × (k ≡ i + n)
      × (get_elem? ts n ≡ some t)
      × (available (clock k) t ≡ true)
Offers-at clock i [] k h = elim h [ ]
Offers-at clock i (t ∷ ts) k (inl (e, a)) = (0, t, omega arith, refl, rw e a)
Offers-at clock i (t ∷ ts) k (inr h) =
    let (n, s, e, found, a) = Offers-at clock (suc i) ts k h in (suc n, s, omega arith, found, a)

Offers-HasAvailable :
    (clock : ℕ → ℕ) (ts : List Upstream) (k : ℕ) → Offers clock 0 ts k → HasAvailable clock ts k
Offers-HasAvailable clock ts k h =
    let (n, t, e, found, a) = Offers-at clock 0 ts k h in
    let same : n ≡ k = omega arith in (t, subst (λ j. get_elem? ts j ≡ some t) same found, a)

Holds-Offers :
    (clock : ℕ → ℕ) (i : ℕ) (ts : List Upstream) (k c : ℕ)
    → Holds clock i ts k c
    → Offers clock i ts k
Holds-Offers clock i [] k c h = h
Holds-Offers clock i (t ∷ ts) k c (inl (e, a, s)) = inl (e, a)
Holds-Offers clock i (t ∷ ts) k c (inr h) = inr (Holds-Offers clock (suc i) ts k c h)

Offers-not-NoneAvailable :
    (clock : ℕ → ℕ) (i : ℕ) (ts : List Upstream) (k : ℕ)
    → Offers clock i ts k
    → NoneAvailable clock i ts
    → ⊥
Offers-not-NoneAvailable clock i [] k h n = h
Offers-not-NoneAvailable clock i (t ∷ ts) k (inl (e, a)) n = cc (n.0)
Offers-not-NoneAvailable clock i (t ∷ ts) k (inr h) n =
    Offers-not-NoneAvailable clock (suc i) ts k h n.1

-- `settle` answers with what the scan found.
settle-Scanned :
    (b : Balancer) (clock : ℕ → ℕ) (ts ts' : List Upstream) (r : Option (ℕ × ℕ))
    → Scanned clock 0 ts none r
    → (((settle b (ts', r)).1 ≡ none) ↔ NoneAvailable clock 0 ts)
      × ((k : ℕ) → (settle b (ts', r)).1 ≡ some k → Offers clock 0 ts k)
settle-Scanned b clock ts ts' none (e, n) = ((λ q. n, λ h. refl), λ k q. cc)
settle-Scanned b clock ts ts' (some (k, c)) (inl e, u, rest) = cc
settle-Scanned b clock ts ts' (some (k, c)) (inr h, u, rest) =
    let offered = Holds-Offers clock 0 ts k c h in
    (
      (λ q. cc, λ n. absurd (Offers-not-NoneAvailable clock 0 ts k offered n)),
      λ j q. let same : k ≡ j = cc in subst (Offers clock 0 ts) same offered,
    )

module _ (clock : ℕ → ℕ) (b : Balancer) where
  by-none_iff : (a : Algorithm) → ((next_by a clock b).1 ≡ none) ↔ NoneAvailable clock 0 b.targets
  by-none_iff round_robin =
      let c = collect-Candidates clock 0 b.targets in
      let r = rotate-none_iff b (collect clock 0 b.targets).0 (collect clock 0 b.targets).1 in
      (λ e. c.1.0 (r.0 e), λ n. r.1 (c.1.1 n))
  by-none_iff weighted_round_robin =
      let c = collect_weighted-Candidates clock 0 b.targets in
      let r =
        rotate-none_iff b (collect_weighted clock 0 b.targets).0
          (collect_weighted clock 0 b.targets).1 in
      (λ e. c.1.0 (r.0 e), λ n. r.1 (c.1.1 n))
  by-none_iff least_connections =
      (settle-Scanned b clock b.targets _ _ (scan-Scanned clock 0 none b.targets)).0

  by-Offers : (a : Algorithm) {k : ℕ} → (next_by a clock b).1 ≡ some k → Offers clock 0 b.targets k
  by-Offers round_robin h =
      rotate_mem _ b (collect clock 0 b.targets).0 (collect clock 0 b.targets).1
        (collect-Candidates clock 0 b.targets).0 h
  by-Offers weighted_round_robin h =
      rotate_mem _ b (collect_weighted clock 0 b.targets).0 (collect_weighted clock 0 b.targets).1
        (collect_weighted-Candidates clock 0 b.targets).0 h
  by-Offers least_connections {k} h =
      (settle-Scanned b clock b.targets _ _ (scan-Scanned clock 0 none b.targets)).1 k h

-- `Next` fails exactly when no upstream is available, for each of the three balancers.
pub next-none_iff :
    (clock : ℕ → ℕ) (b : Balancer) → ((next clock b).1 ≡ none) ↔ NoneAvailable clock 0 b.targets
unfolding next
next-none_iff clock b = by-none_iff clock b b.algorithm

-- The upstream that `Next` returns is one of the balancer's, it is marked healthy, and its circuit
-- is closed, or open with its time up, or half-open with fewer probes in flight than the limit.
pub next-HasAvailable :
    (clock : ℕ → ℕ) (b : Balancer) {k : ℕ}
    → (next clock b).1 ≡ some k
    → HasAvailable clock b.targets k
unfolding next
next-HasAvailable clock b {k} h =
    Offers-HasAvailable clock b.targets k (by-Offers clock b b.algorithm h)

Fewest-at :
    (clock : ℕ → ℕ) (i : ℕ) (ts : List Upstream) (c n j : ℕ) (s : Upstream)
    → Fewest clock i ts c
    → j ≡ i + n
    → get_elem? ts n ≡ some s
    → available (clock j) s ≡ true
    → slt s.active_conns c ≡ false
Fewest-at clock i [] c n j s f e g a = cc
Fewest-at clock i (t ∷ ts) c zero j s f e g a =
    let same : t ≡ s = cc in
    let here : j ≡ i = omega arith in rw (← same) (f.0 (rw (same, ← here) a))
Fewest-at clock i (t ∷ ts) c (suc n) j s f e g a =
    Fewest-at clock (suc i) ts c n j s f.1 (omega arith) g a

Holds-at :
    (clock : ℕ → ℕ) (i : ℕ) (ts : List Upstream) (k c : ℕ)
    → Holds clock i ts k c
    → (n : ℕ) × (t : Upstream) × (k ≡ i + n) × (get_elem? ts n ≡ some t) × (t.active_conns ≡ c)
Holds-at clock i [] k c h = elim h [ ]
Holds-at clock i (t ∷ ts) k c (inl (e, a, s)) = (0, t, omega arith, refl, s)
Holds-at clock i (t ∷ ts) k c (inr h) =
    let (n, u, e, found, s) = Holds-at clock (suc i) ts k c h in (suc n, u, omega arith, found, s)

settle-Fewest :
    (b : Balancer) (clock : ℕ → ℕ) (ts ts' : List Upstream) (r : Option (ℕ × ℕ)) {k : ℕ}
    → Scanned clock 0 ts none r
    → (settle b (ts', r)).1 ≡ some k
    → (t : Upstream) × (get_elem? ts k ≡ some t) × Fewest clock 0 ts t.active_conns
settle-Fewest b clock ts ts' none h e = cc
settle-Fewest b clock ts ts' (some (k', c)) (inl h, u, f) e = cc
settle-Fewest b clock ts ts' (some (k', c)) {k} (inr h, u, f) e =
    let (n, t, at, found, conns) = Holds-at clock 0 ts k' c h in
    let same : k' ≡ k = cc in
    let there : n ≡ k = omega arith in
    (t, subst (λ j. get_elem? ts j ≡ some t) there found, rw conns f)

-- The least-connections balancer chooses an upstream such that no available one has fewer active
-- connections.
pub next_fewest :
    (clock : ℕ → ℕ) (b : Balancer) {k : ℕ} (j : ℕ) (s : Upstream)
    → b.algorithm ≡ least_connections
    → (next clock b).1 ≡ some k
    → get_elem? b.targets j ≡ some s
    → available (clock j) s ≡ true
    → (t : Upstream) × (get_elem? b.targets k ≡ some t)
      × (slt s.active_conns t.active_conns ≡ false)
unfolding next
next_fewest clock b {k} j s least h g a =
    let chosen : (settle b (scan clock 0 none b.targets)).1 ≡ some k =
      subst (λ a. (next_by a clock b).1 ≡ some k) least h in
    let (t, found, fewest) =
      settle-Fewest b clock b.targets _ _ (scan-Scanned clock 0 none b.targets) chosen in
    (t, found, Fewest-at clock 0 b.targets t.active_conns j j s fewest (omega arith) g a)
