-- ===== src/Upstream/Racing/Reports/Limit.antt =====
-- The probes that an upstream counts, while attempts and reports race.
use web_server.Prelude.{
  Bool-cases, inl, inr, ◌==◌, ℕ, zero, suc, ◌+◌, ◌-◌, ◌%◌, ◌≤◌, ◌<◌, ◌≡◌, refl, true, List, [], ◌∷◌,
  All, arith, two_63, two_64, sle, slt, length,
}
use mathlib.Core.Path.{subst}
use web_server.Upstream.{Upstream, circuit_closed, circuit_open, circuit_half_open, max_probes}
use web_server.Upstream.Racing.{Pc, begin, loaded, expired, won, checking, saw, returned, act}
use web_server.Upstream.Racing.Reports.{
  an_attempt, a_success, a_failure, calls_of, Operation, Caller, trying, success_at, failure_at,
  SuccessPc, FailurePc, succeed, fail, move, move_at, Reports, here, next, succeeding, leaving,
  closing, healing, clearing, succeeded, counting, counted, releasing, testing, timing, tripping,
  resetting, failed,
}

-- The releases of a probe that a call may still make.
abbrev success_release : SuccessPc → ℕ
success_release succeeding = 1
success_release leaving = 1
success_release _ = 0

abbrev failure_release : FailurePc → ℕ
failure_release counting = 1
failure_release (counted n) = 1
failure_release (releasing n) = 1
failure_release _ = 0

abbrev to_release : Caller → ℕ
to_release (trying p) = 0
to_release (success_at p) = success_release p
to_release (failure_at p) = failure_release p

abbrev releases : List Caller → ℕ
releases [] = 0
releases (c ∷ cs) = to_release c + releases cs

-- What an attempt has seen in flight is below the limit.
abbrev IsBelow : ℕ → Caller → Type 0
IsBelow m (trying (saw cur)) = slt cur m ≡ true
IsBelow m _ = Unit

-- At most `m` probes are counted, and at least minus the releases that were made of `n`, with `r`
-- still to come. A signed word is compared after adding 2 ^ 63.
abbrev biased : ℕ → ℕ
biased w = (w + two_63) % two_64

record IsBounded (m n r : ℕ) (u : Upstream) : Type 0 where
  limit : max_probes u ≡ m
  low : two_63 + r ≤ biased u.half_open_in_flight + n
  high : biased u.half_open_in_flight ≤ two_63 + m
  within : r ≤ n

act-IsBounded :
    (m n k now : ℕ) (p : Pc) (u : Upstream)
    → m < two_63
    → IsBelow m (trying p)
    → IsBounded m n k u
    → IsBounded m n k (act now p u).0 × IsBelow m (trying (act now p u).1)
unfolding act
act-IsBounded m n k now begin u r c h = (h, tt)
act-IsBounded m n k now (loaded circuit_closed) u r c h = (h, tt)
act-IsBounded m n k now (loaded circuit_half_open) u r c h = (h, tt)
act-IsBounded m n k now (loaded circuit_open) u r c h = ground arith
act-IsBounded m n k now expired u r c h = ground arith
act-IsBounded m n k now won u r c h = (ground arith, tt)
act-IsBounded m n k now checking u r c h =
    elim (Bool-cases (sle (max_probes u) u.half_open_in_flight)) [
      | inl full ↦ rw full (h, tt)
      | inr free ↦ rw free (h, ground arith)
    ]
act-IsBounded m n k now (saw cur) u r c h = elim (Bool-cases (u.half_open_in_flight == cur)) [
  | inl same ↦ rw same (ground arith, tt)
  | inr other ↦ rw other (h, tt)
]
act-IsBounded m n k now (returned b) u r c h = (h, tt)

succeed-IsBounded :
    (m n k : ℕ) (p : SuccessPc) (u : Upstream)
    → m < two_63
    → n < two_63
    → IsBounded m n (k + success_release p) u
    → IsBounded m n (k + success_release (succeed p u).1) (succeed p u).0
unfolding succeed
succeed-IsBounded m n k succeeding u r s h = ground arith
succeed-IsBounded m n k leaving u r s h = ground arith
succeed-IsBounded m n k closing u r s h = ground arith
succeed-IsBounded m n k healing u r s h = ground arith
succeed-IsBounded m n k clearing u r s h = ground arith
succeed-IsBounded m n k succeeded u r s h = h

fail-IsBounded :
    (m n k now : ℕ) (p : FailurePc) (u : Upstream)
    → m < two_63
    → n < two_63
    → IsBounded m n (k + failure_release p) u
    → IsBounded m n (k + failure_release (fail now p u).1) (fail now p u).0
unfolding fail
fail-IsBounded m n k now counting u r s h = ground arith
fail-IsBounded m n k now (counted c) u r s h = ground arith
fail-IsBounded m n k now (releasing c) u r s h = ground arith
fail-IsBounded m n k now (testing c) u r s h = ground arith
fail-IsBounded m n k now timing u r s h = ground arith
fail-IsBounded m n k now tripping u r s h = ground arith
fail-IsBounded m n k now resetting u r s h = ground arith
fail-IsBounded m n k now failed u r s h = h

move-IsBounded :
    (m n k now : ℕ) (c : Caller) (u : Upstream)
    → m < two_63
    → n < two_63
    → IsBelow m c
    → IsBounded m n (k + to_release c) u
    → IsBounded m n (k + to_release (move now c u).1) (move now c u).0 × IsBelow m (move now c u).1
unfolding move
move-IsBounded m n k now (trying p) u r s c h =
    let e : k + 0 ≡ k = omega arith in
    let after = act-IsBounded m n k now p u r c (subst (λ j. IsBounded m n j u) e h) in
    (subst (λ j. IsBounded m n j (act now p u).0) (omega arith) after.0, after.1)
move-IsBounded m n k now (success_at p) u r s c h = (succeed-IsBounded m n k p u r s h, tt)
move-IsBounded m n k now (failure_at p) u r s c h = (fail-IsBounded m n k now p u r s h, tt)

-- What a step of one of the calls leaves, with `k` releases to come beside those of the calls.
move_at-IsBounded :
    (m n k i now : ℕ) (cs : List Caller) (u : Upstream)
    → m < two_63
    → n < two_63
    → All (IsBelow m) cs
    → IsBounded m n (k + releases cs) u
    → IsBounded m n (k + releases (move_at i now u cs).1) (move_at i now u cs).0
      × All (IsBelow m) (move_at i now u cs).1
unfolding move_at
move_at-IsBounded m n k i now [] u r s b h = (h, tt)
move_at-IsBounded m n k zero now (c ∷ cs) u r s b h =
    let d = (move now c u).1 in
    let e : k + (to_release c + releases cs) ≡ (k + releases cs) + to_release c = omega arith in
    let e' : (k + releases cs) + to_release d ≡ k + (to_release d + releases cs) = omega arith in
    let after =
      move-IsBounded m n (k + releases cs) now c u r s b.0 (subst (λ j. IsBounded m n j u) e h) in
    (subst (λ j. IsBounded m n j (move now c u).0) e' after.0, (after.1, b.1))
move_at-IsBounded m n k (suc i) now (c ∷ cs) u r s b h =
    let ds = (move_at i now u cs).1 in
    let e : k + (to_release c + releases cs) ≡ (k + to_release c) + releases cs = omega arith in
    let e' : (k + to_release c) + releases ds ≡ k + (to_release c + releases ds) = omega arith in
    let after =
      move_at-IsBounded m n (k + to_release c) i now cs u r s b.1
        (subst (λ j. IsBounded m n j u) e h) in
    (subst (λ j. IsBounded m n j (move_at i now u cs).0) e' after.0, (b.0, after.1))

Reports-IsBounded :
    (m n k : ℕ) {u : Upstream} {cs : List Caller} {v : Upstream} {ds : List Caller}
    → m < two_63
    → n < two_63
    → All (IsBelow m) cs
    → IsBounded m n (k + releases cs) u
    → Reports u cs v ds
    → IsBounded m n (k + releases ds) v × All (IsBelow m) ds
Reports-IsBounded m n k r s b h here = (h, b)
Reports-IsBounded m n k r s b h (next {v = v} {ds = ds} before i now e) =
    let (bounded, below) = Reports-IsBounded m n k r s b h before in
    subst
      (λ (t : Upstream × List Caller). IsBounded m n (k + releases t.1) t.0 × All (IsBelow m) t.1) e
      (move_at-IsBounded m n k i now ds v r s below bounded)

calls_of-IsBelow : (m : ℕ) (os : List Operation) → All (IsBelow m) (calls_of os)
calls_of-IsBelow m [] = tt
calls_of-IsBelow m (an_attempt ∷ os) = (tt, calls_of-IsBelow m os)
calls_of-IsBelow m (a_success ∷ os) = (tt, calls_of-IsBelow m os)
calls_of-IsBelow m (a_failure ∷ os) = (tt, calls_of-IsBelow m os)

releases-calls_of : (os : List Operation) → releases (calls_of os) ≤ length os
releases-calls_of [] = omega arith
releases-calls_of (an_attempt ∷ os) = omega (arith, releases-calls_of os)
releases-calls_of (a_success ∷ os) = omega (arith, releases-calls_of os)
releases-calls_of (a_failure ∷ os) = omega (arith, releases-calls_of os)

-- However many calls of TryHalfOpen, RecordSuccess and RecordFailure run at once, fewer than
-- 2 ^ 63, and in whatever order and at whatever times their atomic steps come: an upstream that
-- counts no more probes than its limit never counts more. The count can fall below 0, but by no
-- more than one for each call.
pub Reports-limit :
    (os : List Operation) (u : Upstream) {v : Upstream} {ds : List Caller}
    → length os < two_63
    → u.half_open_in_flight ≤ max_probes u
    → max_probes u < two_63
    → Reports u (calls_of os) v ds
    → (sle v.half_open_in_flight (max_probes v) ≡ true)
      × (sle ((two_64 - length os) % two_64) v.half_open_in_flight ≡ true)
Reports-limit os u {v} {ds} few lim range r =
    let m = max_probes u in
    let most = releases-calls_of os in
    let h : IsBounded m (length os) (0 + releases (calls_of os)) u = record {
      limit = refl;
      low = omega (arith, lim, range, most);
      high = omega (arith, lim, range);
      within = omega (arith, most);
    } in
    let after = (Reports-IsBounded m (length os) 0 range few (calls_of-IsBelow m os) h r).0 in
    let limit = after.limit in
    let low = after.low in let high = after.high in (ground arith, ground arith)
