-- ===== src/Config/Nginx/Units/Prepared.antt =====
-- Texts of digits, and those with a unit, as the helpers of internal/config/nginx_translator.go
-- prepare them: trimmed and lowered.
use mathlib.Core.List.{map-append}
use web_server.Prelude.{
  ℕ, ◌≡◌, refl, ap, ◌∙◌, true, false, [], ◌∷◌, ◌++◌, map, All, All-map, All-append, some, arith,
  if◌then◌else◌,
}
use web_server.Text.{Bytes, lower, is_digit}
use web_server.Text.Scan.{trim_space, trim_left, trim_right, keep, is_space, split_last, put_front}
use web_server.Text.Number.Decimal.{AreDigits}

-- Bytes that are no spaces.
abbrev pub IsSolid : ℕ → Type 0
IsSolid c = is_space c ≡ false

trim_right-solid : (s : Bytes) → All IsSolid s → trim_right s ≡ s
unfolding trim_right
trim_right-solid [] h = refl
trim_right-solid (c ∷ []) h = ground (arith, h.0)
trim_right-solid (c ∷ d ∷ s) h = ap (keep c) (trim_right-solid (d ∷ s) h.1)

trim_left-solid : (s : Bytes) → All IsSolid s → trim_left s ≡ s
unfolding trim_left
trim_left-solid [] h = refl
trim_left-solid (c ∷ s) h = ap (λ b. if b then trim_left s else c ∷ s) h.0

trim_space-solid : (s : Bytes) → All IsSolid s → trim_space s ≡ s
unfolding trim_space
trim_space-solid s h = ap trim_right (trim_left-solid s h) ∙ trim_right-solid s h

digit-IsSolid : (c : ℕ) → is_digit c ≡ true → IsSolid c
digit-IsSolid c h = ground arith

lower-digit : (c : ℕ) → is_digit c ≡ true → lower c ≡ c
unfolding lower
lower-digit c h = ground arith

lower-digits : (s : Bytes) → AreDigits s → map lower s ≡ s
lower-digits [] h = refl
lower-digits (c ∷ s) h = cc (lower-digit c h.0, lower-digits s h.1)

pub split_last-snoc : (s : Bytes) (c : ℕ) → split_last (s ++ c ∷ []) ≡ some (s, c)
unfolding split_last
split_last-snoc [] c = refl
split_last-snoc (d ∷ s) c = ap (put_front d) (split_last-snoc s c)

-- The last byte of a text that is not empty.
pub split_last-digits :
    (c : ℕ) (s : Bytes)
    → AreDigits (c ∷ s)
    → (front : Bytes) × (d : ℕ) × (split_last (c ∷ s) ≡ some (front, d)) × (is_digit d ≡ true)
unfolding split_last
split_last-digits c [] h = ([], c, refl, h.0)
split_last-digits c (d ∷ s) h =
    let (front, e, same, digit) = split_last-digits d s h.1 in
    (c ∷ front, e, ap (put_front c) same, digit)

-- A text that is lowered and trimmed: digits, and then a byte that is no space.
pub prepared :
    (s : Bytes) (c : ℕ)
    → AreDigits s
    → IsSolid c
    → map lower (trim_space (s ++ c ∷ [])) ≡ s ++ lower c ∷ []
prepared s c h solid =
    ap (map lower) (
      trim_space-solid (s ++ c ∷ [])
        (All-append IsSolid s (c ∷ []) (All-map _ IsSolid s digit-IsSolid h) (solid, tt)))
    ∙ map-append lower s (c ∷ [])
    ∙ ap (λ t. t ++ lower c ∷ []) (lower-digits s h)

pub prepared_digits : (s : Bytes) → AreDigits s → map lower (trim_space s) ≡ s
prepared_digits s h =
    ap (map lower) (trim_space-solid s (All-map _ IsSolid s digit-IsSolid h)) ∙ lower-digits s h
