-- ===== src/Tests/Reporting.antt =====
-- Reports of outcomes that race.
use web_server.Prelude.{
  ◌+◌, ◌%◌, ◌-◌, ◌≤◌, ◌<◌, ◌≡◌, ◌⊎◌, refl, true, false, ℕ, [], ◌∷◌, List, arith, replicate, two_64,
  sle,
}
use web_server.Upstream.{Upstream, circuit_open, circuit_half_open, max_probes}
use web_server.Upstream.Racing.Reports.{
  Caller, Reports, here, next, Operation, an_attempt, a_failure, a_success, calls_of, failure_at,
  failed, move, move_at, fail,
}
use web_server.Upstream.Racing.Reports.Limit.{Reports-limit}
use web_server.Upstream.Racing.Reports.Tripping.{Reports-IsTripped}
use web_server.Tests.Data.{backend}

-- Steps of the calls at these positions, all at one time.
abbrev steps_at : List ℕ → ℕ → Upstream → List Caller → Upstream × List Caller
steps_at [] now u cs = (u, cs)
steps_at (i ∷ is) now u cs = let (v, ds) = move_at i now u cs in steps_at is now v ds

steps_at-Reports :
    (is : List ℕ) (now : ℕ) {u : Upstream} {cs : List Caller} (v : Upstream) (ds : List Caller)
    → Reports u cs v ds
    → Reports u cs (steps_at is now v ds).0 (steps_at is now v ds).1
steps_at-Reports [] now v ds r = r
steps_at-Reports (i ∷ is) now v ds r = steps_at-Reports is now _ _ (next r i now refl)

-- Three failures at once, with a threshold of three: the steps of the calls take turns.
abbrev turns : List ℕ
turns = 0 ∷ 1 ∷ 2 ∷ 0 ∷ 1 ∷ 2 ∷ 0 ∷ 1 ∷ 2 ∷ 0 ∷ 1 ∷ 2 ∷ 0 ∷ 1 ∷ 2 ∷ 0 ∷ 1 ∷ 2 ∷ 0 ∷ 1 ∷ 2 ∷ []

abbrev three : List Operation
three = replicate 3 a_failure

abbrev reported : Upstream × List Caller
reported = steps_at turns 1_000_000_000 backend (calls_of three)

all_failed : reported.1 ≡ replicate 3 (failure_at failed)
unfolding move_at move fail
all_failed = refl

three_reports : Reports backend (calls_of three) reported.0 (replicate 3 (failure_at failed))
unfolding move_at move fail
three_reports = steps_at-Reports turns 1_000_000_000 backend (calls_of three) here

Reports-IsTripped_example :
    ((0 + 3 < 3) × (reported.0 ≡ record backend { failure_count = 3 }))
    ⊎ ((3 ≤ 0 + 3) × (reported.0.circuit_state ≡ circuit_open) × (reported.0.healthy ≡ false))
Reports-IsTripped_example = Reports-IsTripped 3 backend (ground arith) three_reports

-- A probe and two reports of requests from before, on a half-open upstream with a limit of one.
abbrev probed : Upstream
probed = record backend { circuit_state = circuit_half_open }

abbrev mixed : List Operation
mixed = an_attempt ∷ a_failure ∷ a_success ∷ []

abbrev order : List ℕ
order = 1 ∷ 0 ∷ 1 ∷ 1 ∷ 0 ∷ 2 ∷ 0 ∷ 2 ∷ []

abbrev mix : Upstream × List Caller
mix = steps_at order 1_000_000_000 probed (calls_of mixed)

Reports-limit_example :
    (sle mix.0.half_open_in_flight (max_probes mix.0) ≡ true)
    × (sle ((two_64 - 3) % two_64) mix.0.half_open_in_flight ≡ true)
Reports-limit_example =
    Reports-limit mixed probed (omega arith) (omega arith) (omega arith)
      (steps_at-Reports order 1_000_000_000 probed (calls_of mixed) here)
