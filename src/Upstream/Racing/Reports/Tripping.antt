-- ===== src/Upstream/Racing/Reports/Tripping.antt =====
-- Failures that are reported at once.
use web_server.Prelude.{
  zero, suc, All, inl, inr, ℕ, ◌+◌, ◌≤◌, ◌<◌, ◌≡◌, List, [], ◌∷◌, ◌⊎◌, arith, ap, ◌∙◌, replicate,
  refl, false,
}
use web_server.Upstream.{Upstream, circuit_open}
use mathlib.Core.Path.{subst}
use web_server.Upstream.Breaker.{IsServing}
use web_server.Upstream.Racing.Reports.{
  Reports, here, next, calls_of, a_failure, fail, FailurePc, success_at, trying, move, move_at,
  Caller, failure_at, counting, counted, releasing, testing, timing, tripping, resetting, failed,
}
use web_server.Upstream.Racing.Reports.Failing.{
  IsTripped, begun, fail-IsLow, counts, IsLow, IsSound, IsPending, IsTripped, only,
}
use web_server.Upstream.Racing.Reports.Pending.{SomePending, IsTripping, move_at-IsTripping}

-- Failing calls that have not reached the threshold: their failures are counted, with `k` beside
-- them, and nothing else has changed.
record IsQuietly (k : ℕ) (u v : Upstream) (cs : List Caller) : Type 0 where
  below : k + counts cs < u.cb_failure_threshold
  same_else : v ≡ only (k + counts cs) u
  low : All (IsLow u.cb_failure_threshold) cs

-- Or they have reached it, and one of them will open the circuit, or did.
record IsReached (k : ℕ) (u v : Upstream) (cs : List Caller) : Type 0 where
  reached : u.cb_failure_threshold ≤ k + counts cs
  going : IsTripping v cs

low-IsSound : (t : ℕ) (u : Upstream) (c : Caller) → IsLow t c → IsSound u c
low-IsSound t u (trying p) l = elim l [ ]
low-IsSound t u (success_at p) l = elim l [ ]
low-IsSound t u (failure_at counting) l = tt
low-IsSound t u (failure_at (counted n)) l = tt
low-IsSound t u (failure_at (releasing n)) l = tt
low-IsSound t u (failure_at (testing n)) l = tt
low-IsSound t u (failure_at timing) l = elim l [ ]
low-IsSound t u (failure_at tripping) l = elim l [ ]
low-IsSound t u (failure_at resetting) l = tt
low-IsSound t u (failure_at failed) l = tt

low-All : (t : ℕ) (u : Upstream) (cs : List Caller) → All (IsLow t) cs → All (IsSound u) cs
low-All t u [] l = tt
low-All t u (c ∷ cs) l = (low-IsSound t u c l.0, low-All t u cs l.1)

move-IsLow :
    (now k : ℕ) (c : Caller) (u v : Upstream)
    → IsServing u
    → IsLow u.cb_failure_threshold c
    → k + begun c < u.cb_failure_threshold
    → v ≡ only (k + begun c) u
    → (let (w, d) = move now c v in
        ((k + begun d < u.cb_failure_threshold)
          × (w ≡ only (k + begun d) u)
          × IsLow u.cb_failure_threshold d)
        ⊎ ((u.cb_failure_threshold ≤ k + begun d)
            × (w ≡ only (k + begun d) u)
            × IsPending w d
            × IsSound w d))
unfolding move
move-IsLow now k (trying p) u v s l b e = elim l [ ]
move-IsLow now k (success_at p) u v s l b e = elim l [ ]
move-IsLow now k (failure_at p) u v s l b e = rw e (fail-IsLow now k p u s l b)

cons-IsQuietly :
    (k : ℕ) (u v : Upstream) (c : Caller) (cs : List Caller)
    → IsLow u.cb_failure_threshold c
    → IsQuietly (k + begun c) u v cs
    → IsQuietly k u v (c ∷ cs)
cons-IsQuietly k u v c cs l q = record {
  below = omega (arith, q.below);
  same_else = q.same_else ∙ ap (λ n. only n u) (omega arith);
  low = (l, q.low);
}

cons-IsReached :
    (k : ℕ) (u v : Upstream) (c : Caller) (cs : List Caller)
    → IsLow u.cb_failure_threshold c
    → IsReached (k + begun c) u v cs
    → IsReached k u v (c ∷ cs)
cons-IsReached k u v c cs l r = record {
  reached = omega (arith, r.reached);
  going =
      ((low-IsSound _ v c l, r.going.0), elim r.going.1 [ inl t ↦ inl t | inr p ↦ inr (inr p) ]);
}

move_at-IsQuietly :
    (i now k : ℕ) (u v : Upstream) (cs : List Caller)
    → IsServing u
    → IsQuietly k u v cs
    → IsQuietly k u (move_at i now v cs).0 (move_at i now v cs).1
      ⊎ IsReached k u (move_at i now v cs).0 (move_at i now v cs).1
unfolding move_at
move_at-IsQuietly i now k u v [] s q = inl q
move_at-IsQuietly zero now k u v (c ∷ cs) s q =
    let sum : k + (begun c + counts cs) ≡ (k + counts cs) + begun c = omega arith in
    let e : v ≡ only ((k + counts cs) + begun c) u = q.same_else ∙ ap (λ n. only n u) sum in
    elim (move-IsLow now (k + counts cs) c u v s q.low.0 (omega (arith, q.below)) e) [
      | inl (b, e', l) ↦ inl (record {
        below = omega (arith, b);
        same_else = e' ∙ ap (λ n. only n u) (omega arith);
        low = (l, q.low.1);
      })
      | inr (b, e', p, h) ↦ inr (record {
        reached = omega (arith, b);
        going = ((h, low-All u.cb_failure_threshold (move now c v).0 cs q.low.1), inr (inl p));
      })
    ]
move_at-IsQuietly (suc i) now k u v (c ∷ cs) s q =
    let tail : IsQuietly (k + begun c) u v cs = record {
      below = omega (arith, q.below);
      same_else = q.same_else ∙ ap (λ n. only n u) (omega arith);
      low = q.low.1;
    } in
    elim (move_at-IsQuietly i now (k + begun c) u v cs s tail) [
      | inl q' ↦ inl (cons-IsQuietly k u _ c _ q.low.0 q')
      | inr r ↦ inr (cons-IsReached k u _ c _ q.low.0 r)
    ]

begun-fail :
    (now : ℕ) (p : FailurePc) (u : Upstream)
    → begun (failure_at p) ≤ begun (failure_at (fail now p u).1)
unfolding fail
begun-fail now counting u = ground arith
begun-fail now (counted n) u = ground arith
begun-fail now (releasing n) u = ground arith
begun-fail now (testing n) u = ground arith
begun-fail now timing u = ground arith
begun-fail now tripping u = ground arith
begun-fail now resetting u = ground arith
begun-fail now failed u = ground arith

begun-move : (now : ℕ) (c : Caller) (u : Upstream) → IsSound u c → begun c ≤ begun (move now c u).1
unfolding move
begun-move now (trying p) u s = elim s [ ]
begun-move now (success_at p) u s = elim s [ ]
begun-move now (failure_at p) u s = begun-fail now p u

counts-move_at :
    (i now : ℕ) (u : Upstream) (cs : List Caller)
    → All (IsSound u) cs
    → counts cs ≤ counts (move_at i now u cs).1
unfolding move_at
counts-move_at i now u [] s = omega arith
counts-move_at zero now u (c ∷ cs) s = omega (arith, begun-move now c u s.0)
counts-move_at (suc i) now u (c ∷ cs) s = omega (arith, counts-move_at i now u cs s.1)

Reports-IsQuietly :
    (k : ℕ) {u : Upstream} {cs : List Caller} {v : Upstream} {ds : List Caller}
    → IsServing u
    → IsQuietly k u u cs
    → Reports u cs v ds
    → IsQuietly k u v ds ⊎ IsReached k u v ds
Reports-IsQuietly k s q here = inl q
Reports-IsQuietly k {u} s q (next {v = v} {ds = ds} before i now e) =
    subst (λ (t : Upstream × List Caller). IsQuietly k u t.0 t.1 ⊎ IsReached k u t.0 t.1) e
      (elim (Reports-IsQuietly k s q before) [
        | inl q' ↦ move_at-IsQuietly i now k u v ds s q'
        | inr r ↦ inr (record {
          reached = omega (arith, r.reached, counts-move_at i now v ds r.going.0);
          going = move_at-IsTripping i now ds v r.going;
        })
      ])

counts-start : (n : ℕ) → counts (calls_of (replicate n a_failure)) ≡ 0
counts-start zero = refl
counts-start (suc n) = omega (arith, counts-start n)

IsLow-start : (t n : ℕ) → All (IsLow t) (calls_of (replicate n a_failure))
IsLow-start t zero = tt
IsLow-start t (suc n) = (tt, IsLow-start t n)

counts-end : (n : ℕ) → counts (replicate n (failure_at failed)) ≡ n
counts-end zero = refl
counts-end (suc n) = omega (arith, counts-end n)

none_pending : (n : ℕ) (u : Upstream) → SomePending u (replicate n (failure_at failed)) → ⊥
none_pending zero u p = p
none_pending (suc n) u (inl p) = p
none_pending (suc n) u (inr p) = none_pending n u p

all_returned : (n : ℕ) (u : Upstream) → IsTripping u (replicate n (failure_at failed)) → IsTripped u
all_returned n u (s, inl t) = t
all_returned n u (s, inr p) = absurd (none_pending n u p)

-- From a closed circuit, `n` calls of RecordFailure at once, in whatever order and at whatever
-- times their atomic steps come, once all have returned: if the failures counted before and these
-- are together below the threshold, they are counted, and nothing else has changed. If not, the
-- circuit is open and the upstream is marked unhealthy, so that no trip is lost.
pub Reports-IsTripped :
    (n : ℕ) (u : Upstream) {v : Upstream}
    → IsServing u
    → Reports u (calls_of (replicate n a_failure)) v (replicate n (failure_at failed))
    → ((u.failure_count + n < u.cb_failure_threshold)
        × (v ≡ record u { failure_count = u.failure_count + n }))
      ⊎ ((u.cb_failure_threshold ≤ u.failure_count + n)
          × (v.circuit_state ≡ circuit_open)
          × (v.healthy ≡ false))
Reports-IsTripped n u {v} s r =
    let k = u.failure_count in
    let quiet : IsQuietly k u u (calls_of (replicate n a_failure)) = record {
      below = omega (arith, s.count_below, counts-start n);
      same_else = ap (λ j. only j u) (omega (arith, counts-start n));
      low = IsLow-start _ n;
    } in
    elim (Reports-IsQuietly k s quiet r) [
      | inl q ↦ inl (
        omega (arith, q.below, counts-end n),
        q.same_else ∙ ap (λ j. only (k + j) u) (counts-end n),
      )
      | inr q ↦
          (let t = all_returned n v q.going in
            inr (omega (arith, q.reached, counts-end n), t.0, t.1))
    ]
