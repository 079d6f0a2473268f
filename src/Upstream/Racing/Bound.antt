-- ===== src/Upstream/Racing/Bound.antt =====
-- Calls that race on a half-open upstream.
use web_server.Prelude.{
  Bool-cases, inl, inr, ◌==◌, sym, ℕ, zero, suc, ◌+◌, ◌≤◌, ◌<◌, ◌≡◌, refl, List, [], ◌∷◌, All,
  arith, replicate, two_63, sle,
}
use mathlib.Core.Path.{subst}
use web_server.Upstream.Probing.{IsProbed}
use web_server.Upstream.{circuit_open, circuit_closed, Upstream, circuit_half_open, max_probes}
use web_server.Upstream.Racing.{
  Pc, begin, loaded, expired, won, checking, saw, returned, act, act_at, probe, probes, Reach, here,
  next,
}

-- Where a call stands that has not seen the circuit open; what it has seen is below the limit `m`.
abbrev IsCalm : ℕ → Pc → Type 0
IsCalm m begin = Unit
IsCalm m (loaded s) = s ≡ circuit_half_open
IsCalm m expired = ⊥
IsCalm m won = ⊥
IsCalm m checking = Unit
IsCalm m (saw cur) = cur < m
IsCalm m (returned b) = Unit

-- A half-open upstream with the limit `m`, and so many probes in flight.
record IsHolding (m n : ℕ) (u : Upstream) : Type 0 where
  half_open : u.circuit_state ≡ circuit_half_open
  limit : max_probes u ≡ m
  count : u.half_open_in_flight ≡ n
  within : n ≤ m

act-IsHolding :
    (m k now : ℕ) (p : Pc) (u : Upstream)
    → m < two_63
    → IsCalm m p
    → IsHolding m (k + probe p) u
    → IsHolding m (k + probe (act now p u).1) (act now p u).0 × IsCalm m (act now p u).1
unfolding act
act-IsHolding m k now begin u r c h = (h, h.half_open)
act-IsHolding m k now (loaded circuit_half_open) u r c h = (h, tt)
act-IsHolding m k now (loaded circuit_open) u r c h = cc
act-IsHolding m k now (loaded circuit_closed) u r c h = cc
act-IsHolding m k now expired u r c h = elim c [ ]
act-IsHolding m k now won u r c h = elim c [ ]
act-IsHolding m k now checking u r c h =
    elim (Bool-cases (sle (max_probes u) u.half_open_in_flight)) [
      | inl full ↦ rw full (h, tt)
      | inr free ↦ rw free (h, ground arith)
    ]
act-IsHolding m k now (saw cur) u r c h = elim (Bool-cases (u.half_open_in_flight == cur)) [
  | inl same ↦ rw same (ground arith, tt)
  | inr other ↦ rw other (h, tt)
]
act-IsHolding m k now (returned b) u r c h = (h, tt)

-- What a step of one of the calls leaves, with `k` probes in flight beside those of the calls.
act_at-IsHolding :
    (m k i now : ℕ) (ps : List Pc) (u : Upstream)
    → m < two_63
    → All (IsCalm m) ps
    → IsHolding m (k + probes ps) u
    → IsHolding m (k + probes (act_at i now u ps).1) (act_at i now u ps).0
      × All (IsCalm m) (act_at i now u ps).1
unfolding act_at
act_at-IsHolding m k i now [] u r c h = (h, tt)
act_at-IsHolding m k zero now (p ∷ ps) u r c h =
    let e : k + (probe p + probes ps) ≡ (k + probes ps) + probe p = omega arith in
    let e' : (k + probes ps) + probe (act now p u).1 ≡ k + (probe (act now p u).1 + probes ps) =
      omega arith in
    let after = act-IsHolding m (k + probes ps) now p u r c.0 (subst (λ n. IsHolding m n u) e h) in
    (subst (λ n. IsHolding m n (act now p u).0) e' after.0, (after.1, c.1))
act_at-IsHolding m k (suc i) now (p ∷ ps) u r c h =
    let qs : List Pc = (act_at i now u ps).1 in
    let e : k + (probe p + probes ps) ≡ (k + probe p) + probes ps = omega arith in
    let e' : (k + probe p) + probes qs ≡ k + (probe p + probes qs) = omega arith in
    let after =
      act_at-IsHolding m (k + probe p) i now ps u r c.1 (subst (λ n. IsHolding m n u) e h) in
    (subst (λ n. IsHolding m n (act_at i now u ps).0) e' after.0, (c.0, after.1))

Reach-IsHolding :
    (m k : ℕ) {u : Upstream} {ps : List Pc} {v : Upstream} {qs : List Pc}
    → m < two_63
    → All (IsCalm m) ps
    → IsHolding m (k + probes ps) u
    → Reach u ps v qs
    → IsHolding m (k + probes qs) v × All (IsCalm m) qs
Reach-IsHolding m k r c h here = (h, c)
Reach-IsHolding m k r c h (next {v = v} {qs = qs} before i now e) =
    let (held, calm) = Reach-IsHolding m k r c h before in
    subst (λ (s : Upstream × List Pc). IsHolding m (k + probes s.1) s.0 × All (IsCalm m) s.1) e
      (act_at-IsHolding m k i now qs v r calm held)

calls-IsCalm : (m n : ℕ) → All (IsCalm m) (replicate n begin)
calls-IsCalm m zero = tt
calls-IsCalm m (suc n) = (tt, calls-IsCalm m n)

calls-probes : (n : ℕ) → probes (replicate n begin) ≡ 0
calls-probes zero = refl
calls-probes (suc n) = omega (arith, calls-probes n)

-- However many goroutines call TryHalfOpen on a half-open upstream at once, and in whatever order
-- their loads and swaps come, with no outcome reported in between: those let through and the probes
-- in flight before are together at most the limit, and they are what the upstream counts.
pub Reach-probes :
    (n : ℕ) (u : Upstream) {v : Upstream} {ps : List Pc}
    → IsProbed u
    → Reach u (replicate n begin) v ps
    → (v.half_open_in_flight ≡ u.half_open_in_flight + probes ps)
      × (u.half_open_in_flight + probes ps ≤ max_probes u)
Reach-probes n u {v} {ps} p r =
    let start : u.half_open_in_flight + probes (replicate n begin) ≡ u.half_open_in_flight =
      omega (arith, calls-probes n) in
    let h : IsHolding (max_probes u) (u.half_open_in_flight + probes (replicate n begin)) u =
      record {
        half_open = p.half_open;
        limit = refl;
        count = sym start;
        within = omega (arith, start, p.limit);
      } in
    let held =
      (Reach-IsHolding (max_probes u) u.half_open_in_flight p.range (calls-IsCalm (max_probes u) n)
        h r).0 in
    (held.count, held.within)
