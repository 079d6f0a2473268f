-- ===== src/Upstream/Racing/Reset.antt =====
-- Calls that race while the circuit becomes half-open.
use web_server.Prelude.{ℕ, ◌≡◌, refl, ap, List, [], ◌∷◌, arith, true}
use web_server.Upstream.{Upstream, circuit_half_open}
use web_server.Upstream.Probing.{IsExpired}
use web_server.Upstream.Racing.{Pc, begin, returned, act, act_at, probes, Reach, here, next}

-- Steps of the calls at these positions, all at one time.
run : List ℕ → ℕ → Upstream → List Pc → Upstream × List Pc
run [] now u ps = (u, ps)
run (i ∷ is) now u ps = let (v, qs) = act_at i now u ps in run is now v qs

run-Reach :
    (is : List ℕ) (now : ℕ) (u v : Upstream) (ps qs : List Pc)
    → Reach u ps v qs
    → Reach u ps (run is now v qs).0 (run is now v qs).1
unfolding run
run-Reach [] now u v ps qs r = r
run-Reach (i ∷ is) now u v ps qs r =
    run-Reach is now u (act_at i now v qs).0 ps (act_at i now v qs).1 (next r i now refl)

-- The first call wins the swap of the state; the second runs through; the first goes on.
abbrev schedule : List ℕ
schedule = 0 ∷ 0 ∷ 0 ∷ 1 ∷ 1 ∷ 1 ∷ 1 ∷ 0 ∷ 0 ∷ 0 ∷ []

run-schedule :
    (now : ℕ) (u : Upstream)
    → IsExpired now u
    → u.half_open_in_flight ≡ 0
    → run schedule now u (begin ∷ begin ∷ []) ≡ (
      record u { circuit_state = circuit_half_open; half_open_in_flight = 1 },
      returned true ∷ returned true ∷ [],
    )
unfolding run act act_at
run-schedule now u e z = ground arith

-- While an expired circuit becomes half-open, two calls can both be let through with one probe
-- counted, whatever the limit: the store of 0 forgets a probe that was counted before it.
pub reset_forgets :
    (now : ℕ) (u : Upstream)
    → IsExpired now u
    → u.half_open_in_flight ≡ 0
    → (v : Upstream) × (qs : List Pc) × Reach u (begin ∷ begin ∷ []) v qs
      × (probes qs ≡ 2)
      × (v.half_open_in_flight ≡ 1)
reset_forgets now u e z =
    let s = run schedule now u (begin ∷ begin ∷ []) in
    let same = run-schedule now u e z in
    (
      s.0,
      s.1,
      run-Reach schedule now u u (begin ∷ begin ∷ []) (begin ∷ begin ∷ []) here,
      ap (λ t. probes t.1) same,
      ap (λ t. t.0.half_open_in_flight) same,
    )
