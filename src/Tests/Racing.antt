-- ===== src/Tests/Racing.antt =====
-- Two calls of TryHalfOpen that race, and an outage that ends.
use web_server.Prelude.{◌+◌, ◌≤◌, ◌≡◌, refl, true, [], ◌∷◌, some, arith, replicate, ℕ, List, Option}
use web_server.Text.{Bytes}
use web_server.Upstream.{
  Upstream, Url, circuit_closed, circuit_half_open, max_probes, record_success,
}
use web_server.Upstream.Racing.{Pc, begin, returned, act, act_at, probes, Reach, here, next}
use web_server.Upstream.Racing.Bound.{Reach-probes}
use web_server.Upstream.Racing.Reset.{reset_forgets}
use web_server.Lb
use web_server.Lb.{Balancer, round_robin, admit}
use web_server.Health.Recovery.{checked, outage_ends}
use web_server.Tests.Data.{backend, recovering, at_second, busy}

-- The upstream allows one probe, and the second of two calls is let through.
abbrev half_open : Upstream
half_open = record backend { circuit_state = circuit_half_open }

second_call :
    Reach half_open
      (replicate 2 begin)
      (record half_open { half_open_in_flight = 1 })
      (begin ∷ returned true ∷ [])
unfolding act act_at
second_call = next (next (next (next here 1 0 refl) 1 0 refl) 1 0 refl) 1 0 refl

Reach-probes_example :
    (1 ≡ 0 + probes (begin ∷ returned true ∷ []))
    × (0 + probes (begin ∷ returned true ∷ []) ≤ max_probes half_open)
Reach-probes_example = Reach-probes 2 half_open (ground arith) second_call

reset_forgets_example :
    (v : Upstream) × (qs : List Pc) × Reach recovering (begin ∷ begin ∷ []) v qs
    × (probes qs ≡ 2)
    × (v.half_open_in_flight ≡ 1)
reset_forgets_example = reset_forgets 100_000_000_000 recovering (ground arith) refl

-- Two failures are counted; the third, at second 1, opens the circuit for 30 seconds.
abbrev failing : Upstream
failing = record backend { failure_count = 2 }

abbrev answers_200 : Url → Bytes → Option ℕ
answers_200 url path = some 200

abbrev two_targets : Balancer
two_targets = record {
  algorithm = round_robin;
  targets = busy ∷ checked answers_200 [] failing 1_000_000_000 32_000_000_000 ∷ [];
  counter = 0;
}

outage_ends_example :
    ((j : ℕ) × ((Lb.next (at_second 32) two_targets).1 ≡ some j))
    × ((admit 32_000_000_000 (checked answers_200 [] failing 1_000_000_000 32_000_000_000)).1
        ≡ true)
    × (let v =
          record_success
            (admit 32_000_000_000
              (checked answers_200 [] failing 1_000_000_000 32_000_000_000)).0 in
        (v.circuit_state ≡ circuit_closed) × (v.healthy ≡ true) × (v.failure_count ≡ 0))
outage_ends_example =
    outage_ends answers_200 [] failing 1_000_000_000 32_000_000_000 (at_second 32) two_targets 1
      (ground arith) (omega arith) refl refl refl
