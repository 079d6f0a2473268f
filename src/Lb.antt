-- ===== src/Lb.antt =====
-- internal/lb: the three balancers behind the interface `Balancer`. The upstreams of a route are
-- objects of their own, allocated one by one where the route is built, and a pointer to one is its
-- position in `targets`. `clock i` is the reading of time.Now() at the upstream at position `i`.
pub mod Candidates
pub mod Scan
pub mod Selection
pub mod Targets
pub mod Conns
pub mod Probes
pub mod Window
pub mod Schedule
pub mod Rotation
use web_server.Prelude.{
  ℕ, suc, ◌+◌, ◌%◌, Bool, true, false, List, [], ◌∷◌, ◌++◌, Option, none, some, not, if◌then◌else◌,
  length, get_elem?, replicate, modify, inc, dec, slt, sle, two_64,
}
use web_server.Upstream.{
  Upstream, CircuitState, circuit_closed, circuit_open, circuit_half_open, try_half_open,
  record_success, record_failure,
}

pub data Algorithm : Type 0 where
  round_robin weighted_round_robin least_connections : Algorithm

-- LeastConnections has no counter; its `counter` is never read or written.
pub record Balancer : Type 0 where
  pub algorithm : Algorithm
  pub targets : List Upstream
  pub counter : ℕ

-- The guards at the head of each round of the three loops: the target afterwards, and whether the
-- round goes on with it.
abbrev admit_in : CircuitState → ℕ → Upstream → Upstream × Bool
admit_in circuit_closed now t = (t, true)
admit_in _ now t = try_half_open now t

unfoldable pub admit : ℕ → Upstream → Upstream × Bool
admit now t = if not t.healthy then (t, false) else admit_in t.circuit_state now t

-- The loop of RoundRobin.Next from position `i` on: the targets afterwards, and `healthy`.
unfoldable pub collect : (ℕ → ℕ) → ℕ → List Upstream → List Upstream × List ℕ
collect clock i [] = ([], [])
collect clock i (t ∷ ts) =
    let (t', admitted) = admit (clock i) t in
    let (ts', healthy) = collect clock (suc i) ts in
    (t' ∷ ts', if admitted then i ∷ healthy else healthy)

abbrev pub repeat_of : Upstream → ℕ
repeat_of t = if sle t.weight 0 then 1 else t.weight

-- The loop of WeightedRoundRobin.Next, and `expanded`.
unfoldable pub collect_weighted : (ℕ → ℕ) → ℕ → List Upstream → List Upstream × List ℕ
collect_weighted clock i [] = ([], [])
collect_weighted clock i (t ∷ ts) =
    let (t', admitted) = admit (clock i) t in
    let (ts', expanded) = collect_weighted clock (suc i) ts in
    (t' ∷ ts', if admitted then replicate (repeat_of t) i ++ expanded else expanded)

-- `selected == nil || t.ActiveConns.Load() < selected.ActiveConns.Load()`; `selected` is a position
-- with the connections of the target there, which the loop does not change.
abbrev pub improves : Upstream → Option (ℕ × ℕ) → Bool
improves t none = true
improves t (some (j, conns)) = slt t.active_conns conns

-- The loop of LeastConnections.Next.
unfoldable pub scan : (ℕ → ℕ) → ℕ → Option (ℕ × ℕ) → List Upstream → List Upstream × Option (ℕ × ℕ)
scan clock i selected [] = ([], selected)
scan clock i selected (t ∷ ts) =
    let (t', admitted) = admit (clock i) t in
    let (ts', result) =
      scan clock (suc i)
        (if admitted
          then (if improves t' selected then some (i, t'.active_conns) else selected)
          else selected)
        ts in
    (t' ∷ ts', result)

abbrev pub connect : Upstream → Upstream
connect t = record t { active_conns = inc t.active_conns }

-- What RoundRobin.Next and WeightedRoundRobin.Next do after their loop. On an error the counter
-- stays, and what the loop did to the targets remains.
abbrev rotate_to : Balancer → Option ℕ → List Upstream → ℕ → Balancer × Option ℕ
rotate_to b none ts counter = (record b { targets = ts; counter = counter }, none)
rotate_to b (some k) ts counter =
    (record b { targets = modify ts k connect; counter = counter }, some k)

abbrev pub rotate : Balancer → List Upstream × List ℕ → Balancer × Option ℕ
rotate b (ts, []) = (record b { targets = ts }, none)
rotate b (ts, k ∷ ks) =
    let counter = inc b.counter in
    rotate_to b (get_elem? (k ∷ ks) (counter % length (k ∷ ks))) ts counter

-- What LeastConnections.Next does after its loop.
abbrev pub settle : Balancer → List Upstream × Option (ℕ × ℕ) → Balancer × Option ℕ
settle b (ts, none) = (record b { targets = ts }, none)
settle b (ts, some (k, conns)) = (record b { targets = modify ts k connect }, some k)

abbrev next_by : Algorithm → (ℕ → ℕ) → Balancer → Balancer × Option ℕ
next_by round_robin clock b = rotate b (collect clock 0 b.targets)
next_by weighted_round_robin clock b = rotate b (collect_weighted clock 0 b.targets)
next_by least_connections clock b = settle b (scan clock 0 none b.targets)

-- `Next`; `none` is the error "no healthy upstreams".
unfoldable pub next : (ℕ → ℕ) → Balancer → Balancer × Option ℕ
next clock b = next_by b.algorithm clock b

abbrev end_probe : CircuitState → Upstream → Upstream
end_probe circuit_half_open t = record_success t
end_probe _ t = t

unfoldable pub release_target : Upstream → Upstream
release_target t =
    let t' = record t { active_conns = dec t.active_conns } in end_probe t'.circuit_state t'

-- `Release`, `MarkFailure` and `target.RecordSuccess()` on the target at a position.
unfoldable pub release : ℕ → Balancer → Balancer
unfolding release_target
release k b = record b { targets = modify b.targets k release_target }

unfoldable pub mark_failure : ℕ → ℕ → Balancer → Balancer
mark_failure now k b = record b { targets = modify b.targets k (record_failure now) }

unfoldable pub mark_success : ℕ → Balancer → Balancer
mark_success k b = record b { targets = modify b.targets k record_success }
