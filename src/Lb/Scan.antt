-- ===== src/Lb/Scan.antt =====
-- The scan of the least-connections balancer.
use web_server.Prelude.{
  ℕ, suc, ◌≡◌, ◌⊎◌, inl, refl, Bool, true, false, List, [], ◌∷◌, arith, if◌then◌else◌, slt,
}
use web_server.Upstream.{Upstream, try_half_open}
use web_server.Lb.{scan, Option, some, none, improves, admit}
use web_server.Lb.Candidates.{available, NoneAvailable, admit-available}

-- What the scan for the fewest connections returns: nothing only if it began with nothing and no
-- upstream is available; otherwise what it began with, or the position of an available upstream
-- with that upstream's connections; and no available upstream has fewer.
abbrev pub Fewest : (ℕ → ℕ) → ℕ → List Upstream → ℕ → Type 0
Fewest clock i [] c = Unit
Fewest clock i (t ∷ ts) c =
    (available (clock i) t ≡ true → slt t.active_conns c ≡ false) × Fewest clock (suc i) ts c

abbrev pub Holds : (ℕ → ℕ) → ℕ → List Upstream → ℕ → ℕ → Type 0
Holds clock i [] k c = ⊥
Holds clock i (t ∷ ts) k c =
    ((k ≡ i) × (available (clock i) t ≡ true) × (t.active_conns ≡ c)) ⊎ Holds clock (suc i) ts k c

abbrev pub NotFewer : Option (ℕ × ℕ) → ℕ → Type 0
NotFewer none c = Unit
NotFewer (some (j, d)) c = slt d c ≡ false

abbrev pub Scanned : (ℕ → ℕ) → ℕ → List Upstream → Option (ℕ × ℕ) → Option (ℕ × ℕ) → Type 0
Scanned clock i ts from none = (from ≡ none) × NoneAvailable clock i ts
Scanned clock i ts from (some (k, c)) =
    ((from ≡ some (k, c)) ⊎ Holds clock i ts k c) × NotFewer from c × Fewest clock i ts c

admit-active_conns : (now : ℕ) (t : Upstream) → (admit now t).0.active_conns ≡ t.active_conns
unfolding admit try_half_open
admit-active_conns now t = ground arith

-- One round: `t'` is the target after it was asked, `b` whether it was admitted.
module _ (clock : ℕ → ℕ) (i : ℕ) (t t' : Upstream) (ts : List Upstream) (b : Bool)
    (same : t'.active_conns ≡ t.active_conns) (asked : b ≡ available (clock i) t) where
  Scanned-cons :
      (from result : Option (ℕ × ℕ))
      → Scanned clock
          (suc i)
          ts
          (if b then (if improves t' from then some (i, t'.active_conns) else from) else from)
          result
      → Scanned clock i (t ∷ ts) from result
  Scanned-cons none none h = ground arith
  Scanned-cons (some (j, d)) none h = ground arith
  Scanned-cons none (some (k, c)) h = ground arith
  Scanned-cons (some (j, d)) (some (k, c)) h = ground arith

pub scan-Scanned :
    (clock : ℕ → ℕ) (i : ℕ) (from : Option (ℕ × ℕ)) (ts : List Upstream)
    → Scanned clock i ts from (scan clock i from ts).1
unfolding scan
scan-Scanned clock i none [] = (refl, tt)
scan-Scanned clock i (some (j, d)) [] = (inl refl, ground arith, tt)
scan-Scanned clock i from (t ∷ ts) =
    Scanned-cons clock i t (admit (clock i) t).0 ts (admit (clock i) t).1
      (admit-active_conns (clock i) t) (admit-available (clock i) t) from _
      (scan-Scanned clock (suc i) _ ts)
