-- ===== src/Lb/Window.antt =====
-- Sums of a periodic function over one period.
use web_server.Prelude.{
  ℕ, zero, suc, ◌+◌, ◌≡◌, refl, ap, sym, ◌∙◌, ◌<◌, ◌≢◌, List, [], ◌∷◌, ◌++◌, Option, none, some,
  ◌==◌, if◌then◌else◌, length, get_elem?, replicate, arith,
}

unfoldable pub window : (ℕ → ℕ) → ℕ → ℕ → ℕ
window f a zero = 0
window f a (suc n) = f a + window f (suc a) n

window-last : (f : ℕ → ℕ) (a n : ℕ) → window f a (suc n) ≡ window f a n + f (a + n)
unfolding window
window-last f a zero = grind arith
window-last f a (suc n) =
    let same : suc a + n ≡ a + suc n = omega arith in
    omega (arith, window-last f (suc a) n, ap f same)

-- Where the period starts does not matter.
pub window_shift :
    (f : ℕ → ℕ) (period : ℕ)
    → ((a : ℕ) → f (a + period) ≡ f a)
    → (a : ℕ) → window f a period ≡ window f 0 period
unfolding window
window_shift f period h zero = refl
window_shift f period h (suc a) =
    omega (arith, window-last f a period, h a, window_shift f period h a)

-- How often `k` stands in a list, and whether a turn is that of `k`.
abbrev pub hits : ℕ → Option ℕ → ℕ
hits k none = 0
hits k (some j) = if j == k then 1 else 0

abbrev pub count : ℕ → List ℕ → ℕ
count k [] = 0
count k (j ∷ js) = hits k (some j) + count k js

pub count-append : (k : ℕ) (xs ys : List ℕ) → count k (xs ++ ys) ≡ count k xs + count k ys
count-append k [] ys = omega arith
count-append k (x ∷ xs) ys = omega (arith, count-append k xs ys)

pub count-replicate_self : (k n : ℕ) → count k (replicate n k) ≡ n
count-replicate_self k zero = refl
count-replicate_self k (suc n) = ground (arith, count-replicate_self k n)

pub count-replicate_ne : (k j n : ℕ) → j ≢ k → count k (replicate n j) ≡ 0
count-replicate_ne k j zero h = refl
count-replicate_ne k j (suc n) h = ground (arith, count-replicate_ne k j n h)

-- A function that runs over a list sums up to the count.
pub window-count :
    (k : ℕ) (js : List ℕ) (f : ℕ → ℕ) (a : ℕ)
    → ((m : ℕ) → m < length js → f (a + m) ≡ hits k (get_elem? js m))
    → window f a (length js) ≡ count k js
unfolding window
window-count k [] f a h = refl
window-count k (j ∷ js) f a h =
    let start : a + 0 ≡ a = omega arith in
    let first : f a ≡ hits k (some j) = ap f (sym start) ∙ h 0 (omega arith) in
    omega (
      arith,
      first,
      window-count k js f (suc a) (λ m lt.
          let step : suc a + m ≡ a + suc m = omega arith in ap f step ∙ h (suc m) (omega arith)),
    )
