-- ===== src/Lb/Candidates.antt =====
-- The upstreams among which round robin and weighted round robin choose.
use native.Mathlib.Nat.{mod-lt}
use web_server.Prelude.{
  All-get_elem?, sym, ◌∙◌, ◌%◌, get_elem?-some, sym, ℕ, zero, suc, ◌<◌, ◌≡◌, ◌⊎◌, ◌↔◌, inl, inr,
  refl, Bool, true, false, not, ◌&&◌, List, [], ◌∷◌, ◌++◌, arith, All, All-map, All-append,
  All-replicate, if◌then◌else◌, replicate, slt, sle,
}
use web_server.Upstream.{
  Upstream, CircuitState, circuit_closed, circuit_open, circuit_half_open, try_half_open,
  max_probes, unix,
}
use web_server.Lb.{
  rotate_to, Option, length, inc, get_elem?, some, none, rotate, repeat_of, collect_weighted,
  Balancer, admit, collect,
}

-- Whether a circuit lets a request through: a closed one does, an open one from its time on, and a
-- half-open one while fewer probes than the limit are in flight.
abbrev pub lets_through : CircuitState → ℕ → Upstream → Bool
lets_through circuit_closed now t = true
lets_through circuit_open now t = not (slt (unix now) t.circuit_open_until)
lets_through circuit_half_open now t = not (sle (max_probes t) t.half_open_in_flight)

abbrev pub available : ℕ → Upstream → Bool
available now t = t.healthy && lets_through t.circuit_state now t

pub admit-available : (now : ℕ) (t : Upstream) → (admit now t).1 ≡ available now t
unfolding admit try_half_open
admit-available now t = ground arith

-- Position `k` is that of an available upstream, where the list begins at position `i`.
abbrev pub Offers : (ℕ → ℕ) → ℕ → List Upstream → ℕ → Type 0
Offers clock i [] k = ⊥
Offers clock i (t ∷ ts) k = ((k ≡ i) × (available (clock i) t ≡ true)) ⊎ Offers clock (suc i) ts k

-- No upstream of the list is available.
abbrev pub NoneAvailable : (ℕ → ℕ) → ℕ → List Upstream → Type 0
NoneAvailable clock i [] = Unit
NoneAvailable clock i (t ∷ ts) = (available (clock i) t ≡ false) × NoneAvailable clock (suc i) ts

abbrev pub Candidates : (ℕ → ℕ) → ℕ → List Upstream → List ℕ → Type 0
Candidates clock i ts ks = All (Offers clock i ts) ks × ((ks ≡ []) ↔ NoneAvailable clock i ts)

-- A round that adds the positions `ks`, all of them `i`, and none exactly if it skips the target.
Candidates-append :
    (clock : ℕ → ℕ) (i : ℕ) (t : Upstream) (ts : List Upstream) (n : ℕ) (rest : List ℕ) (b : Bool)
    → available (clock i) t ≡ b
    → 0 < n
    → Candidates clock (suc i) ts rest
    → Candidates clock i (t ∷ ts) (if b then replicate n i ++ rest else rest)
Candidates-append clock i t ts (suc n) rest true e p (all, empty) = (
  (
    inl (refl, e),
    All-append _ (replicate n i) rest (All-replicate _ n i (inl (refl, e)))
        (All-map _ _ rest (λ k. inr) all),
  ),
  (λ q. cc, λ h. cc),
)
Candidates-append clock i t ts n rest false e p (all, empty) =
    (All-map _ _ rest (λ k. inr) all, (λ q. (e, empty.0 q), λ h. empty.1 h.1))
Candidates-append clock i t ts zero rest true e p c = absurd (omega arith)

pub collect-Candidates :
    (clock : ℕ → ℕ) (i : ℕ) (ts : List Upstream) → Candidates clock i ts (collect clock i ts).1
unfolding collect
collect-Candidates clock i [] = (tt, (λ e. tt, λ h. refl))
collect-Candidates clock i (t ∷ ts) =
    Candidates-append clock i t ts 1 (collect clock (suc i) ts).1 (admit (clock i) t).1
      (sym (admit-available (clock i) t)) (omega arith) (collect-Candidates clock (suc i) ts)

pub collect_weighted-Candidates :
    (clock : ℕ → ℕ) (i : ℕ) (ts : List Upstream)
    → Candidates clock i ts (collect_weighted clock i ts).1
unfolding collect_weighted
collect_weighted-Candidates clock i [] = (tt, (λ e. tt, λ h. refl))
collect_weighted-Candidates clock i (t ∷ ts) =
    Candidates-append clock i t ts (repeat_of t) (collect_weighted clock (suc i) ts).1
      (admit (clock i) t).1 (sym (admit-available (clock i) t)) (ground arith)
      (collect_weighted-Candidates clock (suc i) ts)

rotate_to_result :
    (b : Balancer) (o : Option ℕ) (ts : List Upstream) (c : ℕ) → (rotate_to b o ts c).1 ≡ o
rotate_to_result b none ts c = refl
rotate_to_result b (some k) ts c = refl

-- The choice among the candidates is one of them, if there are any.
pub rotate-none_iff :
    (b : Balancer) (ts : List Upstream) (ks : List ℕ) → ((rotate b (ts, ks)).1 ≡ none) ↔ (ks ≡ [])
rotate-none_iff b ts [] = (λ e. refl, λ e. refl)
rotate-none_iff b ts (k ∷ ks) =
    let (c, found) =
      get_elem?-some (k ∷ ks) (inc b.counter % length (k ∷ ks))
        (mod-lt (inc b.counter) (omega arith)) in
    (
      λ e. absurd (
          cc (
            found,
            rotate_to_result b (get_elem? (k ∷ ks) (inc b.counter % length (k ∷ ks))) ts
                (inc b.counter),
          )),
      λ e. cc,
    )

pub rotate_mem :
    (P : ℕ → Type 0) (b : Balancer) (ts : List Upstream) (ks : List ℕ) {k : ℕ}
    → All P ks
    → (rotate b (ts, ks)).1 ≡ some k
    → P k
rotate_mem P b ts [] h e = cc
rotate_mem P b ts (j ∷ ks) h e =
    All-get_elem? P (j ∷ ks) (inc b.counter % length (j ∷ ks)) h
      (sym (rotate_to_result b _ ts (inc b.counter)) ∙ e)
