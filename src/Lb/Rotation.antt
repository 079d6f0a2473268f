-- ===== src/Lb/Rotation.antt =====
-- The shares of the upstreams in round robin and weighted round robin.
use native.Mathlib.Nat.{mod-lt, mod-eq_of_lt, add-mod_right}
use mathlib.Core.Path.{ap₂}
use mathlib.Core.Path.{subst}
use web_server.Prelude.{
  length-modify, ℕ, suc, ◌+◌, ◌%◌, ◌<◌, ◌≡◌, ◌⊎◌, inl, inr, refl, ap, ◌∙◌, sym, List, [], ◌∷◌,
  Option, some, arith, get_elem?, modify, inc, All, length, two_64, get_elem?-some,
}
use web_server.Upstream.{Upstream}
use web_server.Lb.Window.{window, hits, count, window_shift, window-count}
use web_server.Lb.{
  Balancer, rotate_to, round_robin, weighted_round_robin, next, next_by, connect, rotate,
}
use web_server.Lb.Schedule.{
  IsSteady, share, schedule, collect-IsSteady, collect_weighted-IsSteady, schedule-connect,
  connect-IsSteady, schedule-pos, count-schedule,
}

-- A balancer in rotation, with something to choose from.
pub record IsRotating (b : Balancer) : Type 0 where
  pub rotates : (b.algorithm ≡ round_robin) ⊎ (b.algorithm ≡ weighted_round_robin)
  pub steady : All IsSteady b.targets
  pub present : 0 < length b.targets

-- The upstreams that calls of `Next` at these times return.
unfoldable pub turns : List (ℕ → ℕ) → Balancer → List (Option ℕ)
turns [] b = []
turns (clock ∷ clocks) b = let (b', o) = next clock b in o ∷ turns clocks b'

abbrev turn_of : List ℕ → ℕ → Option ℕ
turn_of s n = get_elem? s (n % length s)

rotate-turn :
    (b : Balancer) (s : List ℕ)
    → 0 < length s
    → (k : ℕ) × (turn_of s (inc b.counter) ≡ some k)
      × (rotate b (b.targets, s)
          ≡ (record b { targets = modify b.targets k connect; counter = inc b.counter }, some k))
rotate-turn b [] h = elim h [ ]
rotate-turn b (j ∷ s) h =
    let (k, found) =
      get_elem?-some (j ∷ s) (inc b.counter % length (j ∷ s)) (mod-lt (inc b.counter) h) in
    (k, found, ap (λ o. rotate_to b o b.targets (inc b.counter)) found)

-- One call in rotation takes the turn that the counter names, and changes nothing but the counter
-- and that upstream's connections.
next-turn :
    (clock : ℕ → ℕ) (b : Balancer)
    → IsRotating b
    → 0 < length (schedule b.algorithm 0 b.targets)
    → (k : ℕ) × (turn_of (schedule b.algorithm 0 b.targets) (inc b.counter) ≡ some k)
      × (next clock b
          ≡ (record b { targets = modify b.targets k connect; counter = inc b.counter }, some k))
unfolding next
next-turn clock b r p = elim r.rotates [
  | inl e ↦
      let (k, turn, result) =
        rotate-turn b (schedule round_robin 0 b.targets)
          (subst (λ a. 0 < length (schedule a 0 b.targets)) e p) in
      (
        k,
        subst (λ a. turn_of (schedule a 0 b.targets) (inc b.counter) ≡ some k) (sym e) turn,
        ap (λ a. next_by a clock b) e
            ∙ ap (rotate b) (collect-IsSteady clock 0 b.targets r.steady)
            ∙ result,
      )
  | inr e ↦
      let (k, turn, result) =
        rotate-turn b (schedule weighted_round_robin 0 b.targets)
          (subst (λ a. 0 < length (schedule a 0 b.targets)) e p) in
      (
        k,
        subst (λ a. turn_of (schedule a 0 b.targets) (inc b.counter) ≡ some k) (sym e) turn,
        ap (λ a. next_by a clock b) e
            ∙ ap (rotate b) (collect_weighted-IsSteady clock 0 b.targets r.steady)
            ∙ result,
      )
]

-- How many of these turns are those of `k`.
abbrev pub times : ℕ → List (Option ℕ) → ℕ
times k [] = 0
times k (o ∷ os) = hits k o + times k os

-- A run of calls takes successive turns from the counter on.
turns-window :
    (clocks : List (ℕ → ℕ)) (b : Balancer) (s : List ℕ) (k : ℕ)
    → IsRotating b
    → schedule b.algorithm 0 b.targets ≡ s
    → 0 < length s
    → b.counter + length clocks < two_64
    → times k (turns clocks b) ≡ window (λ n. hits k (turn_of s n)) (b.counter + 1) (length clocks)
unfolding turns window
turns-window [] b s k r e p h = refl
turns-window (clock ∷ clocks) b s k r e p h =
    let (j, turn, result) = next-turn clock b r (subst (λ s. 0 < length s) (sym e) p) in
    let b' : Balancer = record b {
      targets = modify b.targets j connect;
      counter = inc b.counter;
    } in
    let counted : inc b.counter ≡ b.counter + 1 = omega arith in
    let following : inc b.counter + 1 ≡ suc (b.counter + 1) = omega arith in
    let r' : IsRotating b' = record {
      rotates = r.rotates;
      steady = connect-IsSteady b.targets j r.steady;
      present = omega (arith, length-modify b.targets j connect, IsRotating.present r);
    } in
    let e' : schedule b'.algorithm 0 b'.targets ≡ s =
      schedule-connect b.algorithm 0 b.targets j ∙ e in
    let turn' : turn_of s (b.counter + 1) ≡ some j = sym (ap₂ turn_of e counted) ∙ turn in
    ap (λ (q : Balancer × Option ℕ). hits k q.1 + times k (turns clocks q.0)) result
    ∙ ap₂ ◌+◌ (ap (hits k) (sym turn')) (
        turns-window clocks b' s k r' e' p (omega arith)
        ∙ ap (λ a. window (λ n. hits k (turn_of s n)) a (length clocks)) following)

module _ (s : List ℕ) (k : ℕ) where
  cycle-count : (a : ℕ) → window (λ n. hits k (turn_of s n)) a (length s) ≡ count k s
  cycle-count a =
      window_shift (λ n. hits k (turn_of s n)) (length s)
        (λ n. ap (λ m. hits k (get_elem? s m)) (add-mod_right n (length s))) a
      ∙ window-count k s (λ n. hits k (turn_of s n)) 0
          (λ m lt.
            let start : 0 + m ≡ m = omega arith in
            ap (λ q. hits k (turn_of s q)) start
            ∙ ap (λ q. hits k (get_elem? s q)) (mod-eq_of_lt lt))

-- While all upstreams are healthy with closed circuits, and until the counter wraps around, any
-- cycle of calls of `Next` returns each upstream exactly as often as its share says: once in round
-- robin, where a cycle is one call for each upstream, and as often as its weight in weighted round
-- robin (once if the weight is not positive), where a cycle is as many calls as the weights sum up
-- to.
pub turns_fair :
    (clocks : List (ℕ → ℕ)) (b : Balancer) (k : ℕ) {t : Upstream}
    → IsRotating b
    → length clocks ≡ length (schedule b.algorithm 0 b.targets)
    → b.counter + length clocks < two_64
    → get_elem? b.targets k ≡ some t
    → times k (turns clocks b) ≡ share b.algorithm t
turns_fair clocks b k r cycle range g =
    let s = schedule b.algorithm 0 b.targets in
    turns-window clocks b s k r refl (schedule-pos b.algorithm 0 b.targets r.present) range
    ∙ ap (window (λ n. hits k (turn_of s n)) (b.counter + 1)) cycle
    ∙ cycle-count s k (b.counter + 1)
    ∙ count-schedule b.algorithm 0 k k b.targets (omega arith) g
