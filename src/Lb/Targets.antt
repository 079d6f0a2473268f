-- ===== src/Lb/Targets.antt =====
-- What `Next` does to the upstreams, target by target.
use web_server.Prelude.{
  ℕ, zero, suc, ◌+◌, ◌%◌, ◌≡◌, refl, ap, ◌∙◌, List, [], ◌∷◌, Option, none, some, arith, get_elem?,
  modify, length, inc,
}
use web_server.Upstream.{Upstream}
use web_server.Lb.{
  Balancer, Algorithm, round_robin, weighted_round_robin, least_connections, admit, collect,
  collect_weighted, scan, rotate, rotate_to, settle, next, next_by, connect,
}

-- Every target is asked, whichever is chosen in the end.
abbrev pub asked : (ℕ → ℕ) → ℕ → List Upstream → List Upstream
asked clock i [] = []
asked clock i (t ∷ ts) = (admit (clock i) t).0 ∷ asked clock (suc i) ts

abbrev pub connect_at : Option ℕ → List Upstream → List Upstream
connect_at none ts = ts
connect_at (some k) ts = modify ts k connect

collect-asked :
    (clock : ℕ → ℕ) (i : ℕ) (ts : List Upstream) → (collect clock i ts).0 ≡ asked clock i ts
unfolding collect
collect-asked clock i [] = refl
collect-asked clock i (t ∷ ts) = ap (◌∷◌ (admit (clock i) t).0) (collect-asked clock (suc i) ts)

collect_weighted-asked :
    (clock : ℕ → ℕ) (i : ℕ) (ts : List Upstream)
    → (collect_weighted clock i ts).0 ≡ asked clock i ts
unfolding collect_weighted
collect_weighted-asked clock i [] = refl
collect_weighted-asked clock i (t ∷ ts) =
    ap (◌∷◌ (admit (clock i) t).0) (collect_weighted-asked clock (suc i) ts)

scan-asked :
    (clock : ℕ → ℕ) (i : ℕ) (from : Option (ℕ × ℕ)) (ts : List Upstream)
    → (scan clock i from ts).0 ≡ asked clock i ts
unfolding scan
scan-asked clock i from [] = refl
scan-asked clock i from (t ∷ ts) = ap (◌∷◌ (admit (clock i) t).0) (scan-asked clock (suc i) _ ts)

rotate_to-targets :
    (b : Balancer) (o : Option ℕ) (ts : List Upstream) (c : ℕ)
    → (rotate_to b o ts c).0.targets ≡ connect_at (rotate_to b o ts c).1 ts
rotate_to-targets b none ts c = refl
rotate_to-targets b (some k) ts c = refl

rotate-targets :
    (b : Balancer) (ts : List Upstream) (ks : List ℕ)
    → (rotate b (ts, ks)).0.targets ≡ connect_at (rotate b (ts, ks)).1 ts
rotate-targets b ts [] = refl
rotate-targets b ts (k ∷ ks) =
    rotate_to-targets b (get_elem? (k ∷ ks) (inc b.counter % length (k ∷ ks))) ts (inc b.counter)

settle-targets :
    (b : Balancer) (ts : List Upstream) (r : Option (ℕ × ℕ))
    → (settle b (ts, r)).0.targets ≡ connect_at (settle b (ts, r)).1 ts
settle-targets b ts none = refl
settle-targets b ts (some (k, c)) = refl

by-targets :
    (clock : ℕ → ℕ) (b : Balancer) (a : Algorithm)
    → (next_by a clock b).0.targets ≡ connect_at (next_by a clock b).1 (asked clock 0 b.targets)
by-targets clock b round_robin =
    rotate-targets b _ (collect clock 0 b.targets).1
    ∙ ap (connect_at (next_by round_robin clock b).1) (collect-asked clock 0 b.targets)
by-targets clock b weighted_round_robin =
    rotate-targets b _ (collect_weighted clock 0 b.targets).1
    ∙ ap (connect_at (next_by weighted_round_robin clock b).1)
        (collect_weighted-asked clock 0 b.targets)
by-targets clock b least_connections =
    settle-targets b _ (scan clock 0 none b.targets).1
    ∙ ap (connect_at (next_by least_connections clock b).1) (scan-asked clock 0 none b.targets)

-- `Next` asks every target for admission, and connects the one that it returns.
pub next-targets :
    (clock : ℕ → ℕ) (b : Balancer)
    → (next clock b).0.targets ≡ connect_at (next clock b).1 (asked clock 0 b.targets)
unfolding next
next-targets clock b = by-targets clock b b.algorithm

pub get_elem?-asked :
    (clock : ℕ → ℕ) (i : ℕ) (ts : List Upstream) (n j : ℕ) {t : Upstream}
    → j ≡ i + n
    → get_elem? ts n ≡ some t
    → get_elem? (asked clock i ts) n ≡ some (admit (clock j) t).0
get_elem?-asked clock i [] n j e h = cc
get_elem?-asked clock i (s ∷ ts) zero j e h = let here : i ≡ j = omega arith in cc
get_elem?-asked clock i (s ∷ ts) (suc n) j e h =
    get_elem?-asked clock (suc i) ts n j (omega arith) h
