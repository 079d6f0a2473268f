-- ===== src/Lb/Schedule.antt =====
-- The schedule of a balancer in rotation: what a `Next` chooses among while all upstreams are
-- healthy with closed circuits.
use mathlib.Core.Path.{ap₂}
use web_server.Prelude.{
  length-replicate, length-append, ℕ, zero, suc, ◌+◌, ◌<◌, ◌≡◌, refl, ap, ◌∙◌, sym, true, List, [],
  ◌∷◌, ◌++◌, some, arith, get_elem?, modify, All, length, replicate,
}
use web_server.Upstream.{Upstream, circuit_closed}
use web_server.Lb.Window.{count, count-append, count-replicate_self, count-replicate_ne}
use web_server.Lb.{
  Algorithm, round_robin, weighted_round_robin, least_connections, admit, connect, collect,
  collect_weighted, repeat_of,
}

-- A healthy upstream with a closed circuit.
abbrev pub IsSteady : Upstream → Type 0
IsSteady t = (t.healthy ≡ true) × (t.circuit_state ≡ circuit_closed)

abbrev pub share : Algorithm → Upstream → ℕ
share weighted_round_robin t = repeat_of t
share _ t = 1

-- One entry for each turn that an upstream has in a cycle.
abbrev pub schedule : Algorithm → ℕ → List Upstream → List ℕ
schedule a i [] = []
schedule a i (t ∷ ts) = replicate (share a t) i ++ schedule a (suc i) ts

admit-IsSteady : (now : ℕ) (t : Upstream) → IsSteady t → admit now t ≡ (t, true)
unfolding admit
admit-IsSteady now t h = ground arith

pub collect-IsSteady :
    (clock : ℕ → ℕ) (i : ℕ) (ts : List Upstream)
    → All IsSteady ts
    → collect clock i ts ≡ (ts, schedule round_robin i ts)
unfolding collect
collect-IsSteady clock i [] h = refl
collect-IsSteady clock i (t ∷ ts) h =
    rw (admit-IsSteady (clock i) t h.0, collect-IsSteady clock (suc i) ts h.1)

pub collect_weighted-IsSteady :
    (clock : ℕ → ℕ) (i : ℕ) (ts : List Upstream)
    → All IsSteady ts
    → collect_weighted clock i ts ≡ (ts, schedule weighted_round_robin i ts)
unfolding collect_weighted
collect_weighted-IsSteady clock i [] h = refl
collect_weighted-IsSteady clock i (t ∷ ts) h =
    rw (admit-IsSteady (clock i) t h.0, collect_weighted-IsSteady clock (suc i) ts h.1)

pub schedule-connect :
    (a : Algorithm) (i : ℕ) (ts : List Upstream) (k : ℕ)
    → schedule a i (modify ts k connect) ≡ schedule a i ts
schedule-connect a i [] k = refl
schedule-connect round_robin i (t ∷ ts) zero = refl
schedule-connect weighted_round_robin i (t ∷ ts) zero = refl
schedule-connect least_connections i (t ∷ ts) zero = refl
schedule-connect a i (t ∷ ts) (suc k) =
    ap (λ r. replicate (share a t) i ++ r) (schedule-connect a (suc i) ts k)

pub connect-IsSteady :
    (ts : List Upstream) (k : ℕ) → All IsSteady ts → All IsSteady (modify ts k connect)
connect-IsSteady [] k h = h
connect-IsSteady (t ∷ ts) zero h = h
connect-IsSteady (t ∷ ts) (suc k) h = (h.0, connect-IsSteady ts k h.1)

share-pos : (a : Algorithm) (t : Upstream) → 0 < share a t
share-pos round_robin t = omega arith
share-pos weighted_round_robin t = ground arith
share-pos least_connections t = omega arith

pub schedule-pos :
    (a : Algorithm) (i : ℕ) (ts : List Upstream) → 0 < length ts → 0 < length (schedule a i ts)
schedule-pos a i [] h = h
schedule-pos a i (t ∷ ts) h = omega (
  arith,
  length-append (replicate (share a t) i) (schedule a (suc i) ts),
  length-replicate (share a t) i,
  share-pos a t,
)

count-schedule_before :
    (a : Algorithm) (i k : ℕ) (ts : List Upstream) → k < i → count k (schedule a i ts) ≡ 0
count-schedule_before a i k [] h = refl
count-schedule_before a i k (t ∷ ts) h =
    count-append k (replicate (share a t) i) (schedule a (suc i) ts)
    ∙ omega (
      arith,
      count-replicate_ne k i (share a t) (λ e. omega arith),
      count-schedule_before a (suc i) k ts (omega arith),
    )

-- Each upstream has its share of the schedule.
pub count-schedule :
    (a : Algorithm) (i k n : ℕ) (ts : List Upstream) {t : Upstream}
    → k ≡ i + n
    → get_elem? ts n ≡ some t
    → count k (schedule a i ts) ≡ share a t
count-schedule a i k n [] e g = cc
count-schedule a i k zero (s ∷ ts) {t} e g =
    let here : k ≡ i = omega arith in
    let same : s ≡ t = cc in
    count-append k (replicate (share a s) i) (schedule a (suc i) ts)
    ∙ ap₂ ◌+◌
        (ap (λ j. count k (replicate (share a s) j)) (sym here)
          ∙ count-replicate_self k (share a s))
        (count-schedule_before a (suc i) k ts (omega arith))
    ∙ omega (arith, ap (share a) same)
count-schedule a i k (suc n) (s ∷ ts) e g =
    count-append k (replicate (share a s) i) (schedule a (suc i) ts)
    ∙ omega (
      arith,
      count-replicate_ne k i (share a s) (λ q. omega arith),
      count-schedule a (suc i) k n ts (omega arith) g,
    )
