-- ===== src/Upstream/Racing/Reports/Failing.antt =====
-- The steps of one call of `RecordFailure`, while others run beside it.
use web_server.Prelude.{
  two_63, sle, dec_lt, inl, inr, ℕ, ◌+◌, ◌≤◌, ◌<◌, ◌≡◌, refl, true, false, List, [], ◌∷◌, ◌⊎◌,
  arith,
}
use web_server.Upstream.{Upstream, circuit_open, threshold_of}
use web_server.Upstream.Breaker.{IsServing}
use web_server.Upstream.Racing.Reports.{
  Caller, failure_at, FailurePc, fail, counting, counted, releasing, testing, timing, tripping,
  resetting, failed,
}

-- The calls that have counted their failure.
abbrev pub begun : Caller → ℕ
begun (failure_at counting) = 0
begun _ = 1

abbrev pub counts : List Caller → ℕ
counts [] = 0
counts (c ∷ cs) = begun c + counts cs

-- A call whose count is below the threshold.
abbrev pub IsLow : ℕ → Caller → Type 0
IsLow t (failure_at counting) = Unit
IsLow t (failure_at (counted n)) = n < t
IsLow t (failure_at (testing n)) = n < t
IsLow t (failure_at failed) = Unit
IsLow t _ = ⊥

-- A failing call: when it is about to open the circuit, it has marked the upstream unhealthy.
abbrev pub IsSound : Upstream → Caller → Type 0
IsSound u (failure_at timing) = u.healthy ≡ false
IsSound u (failure_at tripping) = u.healthy ≡ false
IsSound u (failure_at _) = Unit
IsSound u _ = ⊥

-- A call that will open the circuit.
abbrev pub IsPending : Upstream → Caller → Type 0
IsPending u (failure_at (counted n)) = (threshold_of u ≤ n) × (n < two_63)
IsPending u (failure_at (releasing n)) = (threshold_of u ≤ n) × (n < two_63)
IsPending u (failure_at (testing n)) = (threshold_of u ≤ n) × (n < two_63)
IsPending u (failure_at timing) = Unit
IsPending u (failure_at tripping) = Unit
IsPending u _ = ⊥

abbrev pub IsTripped : Upstream → Type 0
IsTripped u = (u.circuit_state ≡ circuit_open) × (u.healthy ≡ false)

-- What no failure takes back.
pub record IsLater (u v : Upstream) : Type 0 where
  pub same : v.cb_failure_threshold ≡ u.cb_failure_threshold
  pub unhealthy : u.healthy ≡ false → v.healthy ≡ false
  pub opened : u.circuit_state ≡ circuit_open → v.circuit_state ≡ circuit_open

pub fail-IsLater :
    (now : ℕ) (p : FailurePc) (u : Upstream)
    → IsSound u (failure_at p)
    → IsLater u (fail now p u).0 × IsSound (fail now p u).0 (failure_at (fail now p u).1)
unfolding fail
fail-IsLater now counting u s = ground arith
fail-IsLater now (counted n) u s = ground arith
fail-IsLater now (releasing n) u s = ground arith
fail-IsLater now (testing n) u s = ground arith
fail-IsLater now timing u s = ground arith
fail-IsLater now tripping u s = ground arith
fail-IsLater now resetting u s = ground arith
fail-IsLater now failed u s = ground arith

-- A step of a call that will open the circuit, on the upstream.
pub fail-IsPending :
    (now : ℕ) (p : FailurePc) (u : Upstream)
    → IsSound u (failure_at p)
    → IsPending u (failure_at p)
    → IsTripped (fail now p u).0 ⊎ IsPending (fail now p u).0 (failure_at (fail now p u).1)
unfolding fail
fail-IsPending now counting u s p = elim p [ ]
fail-IsPending now (counted n) u s p = ground arith
fail-IsPending now (releasing n) u s p = inr p
fail-IsPending now (testing n) u s p =
    let over : sle (threshold_of u) n ≡ true = ground arith in rw over (inr tt)
fail-IsPending now timing u s p = inr tt
fail-IsPending now tripping u s p = inl (refl, s)
fail-IsPending now resetting u s p = elim p [ ]
fail-IsPending now failed u s p = elim p [ ]

-- The upstream `u`, with `n` failures counted and nothing else changed.
abbrev pub only : ℕ → Upstream → Upstream
only n u = record u { failure_count = n }

-- What a step below the threshold leaves: the threshold is reached, or not.
pub fail-IsLow :
    (now k : ℕ) (p : FailurePc) (u : Upstream)
    → IsServing u
    → IsLow u.cb_failure_threshold (failure_at p)
    → k + begun (failure_at p) < u.cb_failure_threshold
    → (let (v, q) = fail now p (only (k + begun (failure_at p)) u) in
        ((k + begun (failure_at q) < u.cb_failure_threshold)
          × (v ≡ only (k + begun (failure_at q)) u)
          × IsLow u.cb_failure_threshold (failure_at q))
        ⊎ ((u.cb_failure_threshold ≤ k + begun (failure_at q))
            × (v ≡ only (k + begun (failure_at q)) u)
            × IsPending v (failure_at q)
            × IsSound v (failure_at q)))
unfolding fail
fail-IsLow now k counting u s l b = elim (dec_lt (k + 1) u.cb_failure_threshold) [
  | yes p ↦ ground arith
  | no p ↦ ground arith
]
fail-IsLow now k (counted n) u s l b = ground arith
fail-IsLow now k (releasing n) u s l b = elim l [ ]
fail-IsLow now k (testing n) u s l b =
    let under : sle (threshold_of u) n ≡ false = ground arith in rw under (inl (b, refl, tt))
fail-IsLow now k timing u s l b = elim l [ ]
fail-IsLow now k tripping u s l b = elim l [ ]
fail-IsLow now k resetting u s l b = elim l [ ]
fail-IsLow now k failed u s l b = inl (b, refl, tt)
