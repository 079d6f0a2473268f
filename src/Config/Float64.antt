-- ===== src/Config/Float64.antt =====
-- The conversion of an int to a float64, as internal/config/nginx_translator.go makes it: a number
-- of 53 bits, rounded to the nearest, and from the middle to the even one.
use web_server.Prelude.{
  ℕ, zero, suc, ◌+◌, ◌*◌, ◌/◌, ◌%◌, ◌^◌, ◌<◌, ◌≤◌, ◌≡◌, ◌≢◌, refl, ap, ◌∙◌, ltb, if◌then◌else◌,
  arith, inl, inr, ◌⊎◌,
}
use web_server.Config.{Float}

-- The distance of the float64s around a number, at most 2 ^ bits.
unfoldable pub spacing : ℕ → ℕ → ℕ
spacing zero n = 1
spacing (suc bits) n = let wider = spacing bits (n / 2) in if ltb n (2 ^ 53) then 1 else 2 * wider

-- From `q` times the spacing, with `rest` left.
abbrev pub round_even : ℕ → ℕ → ℕ → ℕ
round_even u q rest =
    if ltb (2 * rest) u then q * u else (if ltb u (2 * rest) then (q + 1) * u else (q + q % 2) * u)

-- `float64(n)` of an int that is not negative: 10 bits more than the 53 are all that it can have.
unfoldable pub to_float64 : ℕ → Float
to_float64 n =
    let u = spacing 10 n in record { mantissa = round_even u (n / u) (n % u); exponent = 0 }

-- `f / 2.0`.
abbrev pub halved : Float → Float
halved f = record f { exponent = f.exponent + 1 }

spacing_small : (bits n : ℕ) → n < 2 ^ 53 → spacing bits n ≡ 1
unfolding spacing
spacing_small zero n h = refl
spacing_small (suc bits) n h = ground (arith, h)

pub to_float64_exact : (n : ℕ) → n < 2 ^ 53 → to_float64 n ≡ record { mantissa = n; exponent = 0 }
unfolding to_float64
to_float64_exact n h =
    let exact : round_even 1 (n / 1) (n % 1) ≡ n = ground arith in
    ap (λ (u : ℕ). record { mantissa = round_even u (n / u) (n % u); exponent = 0 })
      (spacing_small 10 n h)
    ∙ ap (λ (m : ℕ). record { mantissa = m; exponent = 0 }) exact

lt_or_ge : (n m : ℕ) → (n < m) ⊎ (m ≤ n)
lt_or_ge n m = ground arith

spacing_bounds : (bits n : ℕ) → 0 < n → (0 < spacing bits n) × (spacing bits n ≤ n)
unfolding spacing
spacing_bounds zero n p = (omega arith, omega (arith, p))
spacing_bounds (suc bits) n p = elim (lt_or_ge n (2 ^ 53)) [
  | inl h ↦ (ground (arith, h), ground (arith, h))
  | inr h ↦
      let wider = spacing_bounds bits (n / 2) (omega (arith, h)) in
      (ground (arith, h, wider), ground (arith, h, wider))
]

round_even_ne : (u q rest : ℕ) → 0 < u → 0 < q → round_even u q rest ≢ 0
round_even_ne u q rest hu hq = grind arith

pub to_float64_ne : (n : ℕ) → n ≢ 0 → (to_float64 n).mantissa ≢ 0
unfolding to_float64
to_float64_ne n h =
    let bounds = spacing_bounds 10 n (omega (arith, h)) in
    round_even_ne (spacing 10 n) (n / spacing 10 n) (n % spacing 10 n) bounds.0
      (grind (arith, bounds))
