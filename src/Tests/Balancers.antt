-- ===== src/Tests/Balancers.antt =====
-- The balancers on two upstreams.
use web_server.Prelude.{◌≡◌, ◌↔◌, ◌≢◌, refl, inr, true, [], ◌∷◌, none, some, arith, All}
use web_server.Upstream.{circuit_closed, circuit_half_open, record_failure, try_half_open}
use web_server.Lb.{next, collect, collect_weighted, scan, admit, release_target}
use web_server.Lb.Candidates.{NoneAvailable}
use web_server.Lb.Selection.{next-none_iff, next-HasAvailable, HasAvailable}
use web_server.Lb.Probes.{calls, call_next, passed_over_starves, failed_probe_closes}
use web_server.Lb.Rotation.{times, turns, turns_fair}
use web_server.Tests.Data.{backend, busy, recovering, pool, weighted, least, at_second}

run : Unit {0}
unfolding next collect collect_weighted scan admit try_half_open
run = tt

pub first_turn : (next (at_second 5) pool).1 ≡ some 1
unfolding run
first_turn = refl

fewest_turn : (next (at_second 5) least).1 ≡ some 0
unfolding run
fewest_turn = refl

next-none_iff_example :
    ((next (at_second 5) pool).1 ≡ none) ↔ NoneAvailable (at_second 5) 0 (backend ∷ busy ∷ [])
next-none_iff_example = next-none_iff (at_second 5) pool

next-HasAvailable_example : HasAvailable (at_second 5) (backend ∷ busy ∷ []) 1
next-HasAvailable_example = next-HasAvailable (at_second 5) pool first_turn

turns_fair_example : times 0 (turns (at_second 1 ∷ at_second 2 ∷ at_second 3 ∷ []) weighted) ≡ 2
turns_fair_example =
    turns_fair (at_second 1 ∷ at_second 2 ∷ at_second 3 ∷ []) weighted 0
      (record {
        rotates = inr refl;
        steady = ((refl, refl), ((refl, refl), tt));
        present = omega arith;
      })
      refl (omega arith) refl

passed_turn : (next (at_second 200) (record pool { targets = recovering ∷ busy ∷ [] })).1 ≡ some 1
unfolding run
passed_turn = refl

passed_over_starves_example :
    All
      (λ o. o ≢ some 0)
      (calls
        (call_next (at_second 300) ∷ call_next (at_second 400) ∷ [])
        (next (at_second 200) (record pool { targets = recovering ∷ busy ∷ [] })).0)
passed_over_starves_example =
    passed_over_starves (at_second 200) (record pool { targets = recovering ∷ busy ∷ [] }) 0 1
      recovering (call_next (at_second 300) ∷ call_next (at_second 400) ∷ []) refl (ground arith)
      passed_turn (omega arith) (tt, (tt, tt))

failed_probe_closes_example :
    let t = release_target (
      record_failure 7
        (record recovering { circuit_state = circuit_half_open; half_open_in_flight = 1 })) in
    (t.circuit_state ≡ circuit_closed) × (t.healthy ≡ true) × (t.failure_count ≡ 0)
failed_probe_closes_example =
    failed_probe_closes 7
      (record recovering { circuit_state = circuit_half_open; half_open_in_flight = 1 }) refl refl
