-- ===== src/Upstream/Racing/Reports/Pending.antt =====
-- Calls of `RecordFailure` of which one will open the circuit.
use web_server.Prelude.{zero, suc, All, inl, inr, ℕ, List, [], ◌∷◌, ◌⊎◌, arith}
use web_server.Upstream.{Upstream}
use web_server.Upstream.Racing.Reports.{
  success_at, trying, move, move_at, Caller, failure_at, counting, counted, releasing, testing,
  timing, tripping, resetting, failed,
}
use web_server.Upstream.Racing.Reports.Failing.{
  IsSound, IsPending, IsTripped, IsLater, fail-IsLater, fail-IsPending,
}

abbrev pub SomePending : Upstream → List Caller → Type 0
SomePending u [] = ⊥
SomePending u (c ∷ cs) = IsPending u c ⊎ SomePending u cs

-- Failing calls of which one will open the circuit, or did.
abbrev pub IsTripping : Upstream → List Caller → Type 0
IsTripping u cs = All (IsSound u) cs × (IsTripped u ⊎ SomePending u cs)

later-IsSound : (u v : Upstream) (c : Caller) → IsLater u v → IsSound u c → IsSound v c
later-IsSound u v (trying p) l s = elim s [ ]
later-IsSound u v (success_at p) l s = elim s [ ]
later-IsSound u v (failure_at counting) l s = tt
later-IsSound u v (failure_at (counted n)) l s = tt
later-IsSound u v (failure_at (releasing n)) l s = tt
later-IsSound u v (failure_at (testing n)) l s = tt
later-IsSound u v (failure_at timing) l s = l.unhealthy s
later-IsSound u v (failure_at tripping) l s = l.unhealthy s
later-IsSound u v (failure_at resetting) l s = tt
later-IsSound u v (failure_at failed) l s = tt

later-IsPending : (u v : Upstream) (c : Caller) → IsLater u v → IsPending u c → IsPending v c
later-IsPending u v (trying q) l p = elim p [ ]
later-IsPending u v (success_at q) l p = elim p [ ]
later-IsPending u v (failure_at counting) l p = elim p [ ]
later-IsPending u v (failure_at resetting) l p = elim p [ ]
later-IsPending u v (failure_at failed) l p = elim p [ ]
later-IsPending u v (failure_at (counted n)) l p = ground (arith, l.same)
later-IsPending u v (failure_at (releasing n)) l p = ground (arith, l.same)
later-IsPending u v (failure_at (testing n)) l p = ground (arith, l.same)
later-IsPending u v (failure_at timing) l p = tt
later-IsPending u v (failure_at tripping) l p = tt

later-All :
    (u v : Upstream) (cs : List Caller) → IsLater u v → All (IsSound u) cs → All (IsSound v) cs
later-All u v [] l s = tt
later-All u v (c ∷ cs) l s = (later-IsSound u v c l s.0, later-All u v cs l s.1)

later-SomePending :
    (u v : Upstream) (cs : List Caller) → IsLater u v → SomePending u cs → SomePending v cs
later-SomePending u v [] l p = elim p [ ]
later-SomePending u v (c ∷ cs) l (inl p) = inl (later-IsPending u v c l p)
later-SomePending u v (c ∷ cs) l (inr ps) = inr (later-SomePending u v cs l ps)

later-IsTripped : (u v : Upstream) → IsLater u v → IsTripped u → IsTripped v
later-IsTripped u v l t = (l.opened t.0, l.unhealthy t.1)

move-IsLater :
    (now : ℕ) (c : Caller) (u : Upstream)
    → IsSound u c
    → IsLater u (move now c u).0 × IsSound (move now c u).0 (move now c u).1
unfolding move
move-IsLater now (trying p) u s = elim s [ ]
move-IsLater now (success_at p) u s = elim s [ ]
move-IsLater now (failure_at p) u s = fail-IsLater now p u s

move-IsPending :
    (now : ℕ) (c : Caller) (u : Upstream)
    → IsSound u c
    → IsPending u c
    → IsTripped (move now c u).0 ⊎ IsPending (move now c u).0 (move now c u).1
unfolding move
move-IsPending now (trying p) u s q = elim s [ ]
move-IsPending now (success_at p) u s q = elim s [ ]
move-IsPending now (failure_at p) u s q = fail-IsPending now p u s q

move_at-IsLater :
    (i now : ℕ) (cs : List Caller) (u : Upstream)
    → All (IsSound u) cs
    → IsLater u (move_at i now u cs).0 × All (IsSound (move_at i now u cs).0) (move_at i now u cs).1
unfolding move_at
move_at-IsLater i now [] u s = (ground arith, tt)
move_at-IsLater zero now (c ∷ cs) u s =
    let (l, h) = move-IsLater now c u s.0 in (l, (h, later-All u _ cs l s.1))
move_at-IsLater (suc i) now (c ∷ cs) u s =
    let (l, h) = move_at-IsLater i now cs u s.1 in (l, (later-IsSound u _ c l s.0, h))

move_at-SomePending :
    (i now : ℕ) (cs : List Caller) (u : Upstream)
    → All (IsSound u) cs
    → SomePending u cs
    → IsTripped (move_at i now u cs).0 ⊎ SomePending (move_at i now u cs).0 (move_at i now u cs).1
unfolding move_at
move_at-SomePending i now [] u s p = elim p [ ]
move_at-SomePending zero now (c ∷ cs) u s (inl p) = elim (move-IsPending now c u s.0 p) [
  | inl t ↦ inl t
  | inr q ↦ inr (inl q)
]
move_at-SomePending zero now (c ∷ cs) u s (inr ps) =
    inr (inr (later-SomePending u _ cs (move-IsLater now c u s.0).0 ps))
move_at-SomePending (suc i) now (c ∷ cs) u s (inl p) =
    inr (inl (later-IsPending u _ c (move_at-IsLater i now cs u s.1).0 p))
move_at-SomePending (suc i) now (c ∷ cs) u s (inr ps) =
    elim (move_at-SomePending i now cs u s.1 ps) [ inl t ↦ inl t | inr qs ↦ inr (inr qs) ]

pub move_at-IsTripping :
    (i now : ℕ) (cs : List Caller) (u : Upstream)
    → IsTripping u cs
    → IsTripping (move_at i now u cs).0 (move_at i now u cs).1
move_at-IsTripping i now cs u (s, inl t) =
    let (l, h) = move_at-IsLater i now cs u s in (h, inl (later-IsTripped u _ l t))
move_at-IsTripping i now cs u (s, inr ps) =
    ((move_at-IsLater i now cs u s).1, move_at-SomePending i now cs u s ps)
