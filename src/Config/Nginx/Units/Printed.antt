-- ===== src/Config/Nginx/Units/Printed.antt =====
-- Sizes and times in decimal with a unit, as nginx files have them.
use web_server.Prelude.{
  ◌&&◌, ◌||◌, sym, ℕ, ◌*◌, ◌%◌, ◌<◌, ◌≡◌, refl, ap, ◌∙◌, true, false, [], ◌∷◌, ◌++◌, Option, none,
  some, arith, two_63, two_64, ◌==◌, Bool-cases, inl, inr, if◌then◌else◌,
}
use web_server.Text.{eq_of_eqb, Bytes, codes, eqb, lower, is_digit}
use web_server.Text.Scan.{split_last}
use web_server.Text.Number.{atoi}
use web_server.Text.Number.Decimal.{
  IsNumeral, decimal-IsNumeral, decimal, AreDigits, decimal-AreDigits, atoi-decimal,
}
use web_server.Config.Nginx.Units.{
  size_unit, time_unit, cut_unit, split_unit, scaled, times, size_of, seconds_of, parse_size,
  parse_duration_seconds,
}
use web_server.Config.Nginx.Units.Prepared.{
  split_last-snoc, split_last-digits, prepared, prepared_digits, IsSolid,
}

-- Behind a number a unit is found, and without one none.
split_unit-unit :
    (unit : ℕ → Option ℕ) (s : Bytes) (c m : ℕ)
    → unit c ≡ some m
    → split_unit unit (s ++ c ∷ []) (split_last (s ++ c ∷ [])) ≡ (m, s)
split_unit-unit unit s c m h =
    ap (split_unit unit (s ++ c ∷ [])) (split_last-snoc s c) ∙ ap (cut_unit (s ++ c ∷ []) s) h

split_unit-digits :
    (unit : ℕ → Option ℕ)
    → ((d : ℕ) → is_digit d ≡ true → unit d ≡ none)
    → (s : Bytes) → AreDigits s
    → split_unit unit s (split_last s) ≡ (1, s)
unfolding split_last
split_unit-digits unit no_unit [] h = refl
split_unit-digits unit no_unit (c ∷ s) h =
    let (front, d, same, digit) = split_last-digits c s h in
    ap (split_unit unit (c ∷ s)) same ∙ ap (cut_unit (c ∷ s) front) (no_unit d digit)

digit-no_size : (d : ℕ) → is_digit d ≡ true → size_unit d ≡ none
digit-no_size d h = ground arith

digit-no_time : (d : ℕ) → is_digit d ≡ true → time_unit d ≡ none
digit-no_time d h = ground arith

snoc-ne : (t : Bytes) (c : ℕ) → eqb (t ++ c ∷ []) [] ≡ false
unfolding eqb
snoc-ne [] c = refl
snoc-ne (d ∷ t) c = refl

-- A text of two bytes or more is none of those that `parseSize` tests for.
size_of-long :
    (s : Bytes) (c : ℕ)
    → IsNumeral s
    → size_of (s ++ c ∷ []) ≡ scaled (split_unit size_unit (s ++ c ∷ []) (split_last (s ++ c ∷ [])))
unfolding eqb
size_of-long s c (d, t, same, digit) =
    let untested : ((d == 48) && eqb (t ++ c ∷ []) []) ≡ false = ground (arith, snoc-ne t c) in
    rw same (
      ap
        (λ b.
          if b
          then 0
          else scaled (split_unit size_unit (d ∷ (t ++ c ∷ [])) (split_last (d ∷ (t ++ c ∷ [])))))
        untested)

seconds_of-long :
    (s : Bytes) (c : ℕ)
    → seconds_of (s ++ c ∷ [])
      ≡ scaled (split_unit time_unit (s ++ c ∷ []) (split_last (s ++ c ∷ [])))
seconds_of-long [] c = refl
seconds_of-long (d ∷ s) c = refl

pub once : (n : ℕ) → n < two_63 → times 1 (some n) ≡ n
once n r = omega arith

size_of-numeral :
    (s : Bytes) (n : ℕ) → AreDigits s → IsNumeral s → atoi s ≡ some n → n < two_63 → size_of s ≡ n
unfolding eqb atoi
size_of-numeral s n h (d, t, same, digit) a r = elim (Bool-cases (eqb s (codes "0"))) [
  | inl e ↦
      let is_zero : s ≡ codes "0" = eq_of_eqb s (codes "0") e in
      let read : some 0 ≡ some n = sym (ap atoi is_zero) ∙ a in
      let same_number : 0 ≡ n = cc in ap size_of is_zero ∙ same_number
  | inr e ↦
      let some_byte : eqb s [] ≡ false = ap (λ x. eqb x []) same in
      ap (λ b. if b || eqb s (codes "0") then 0 else scaled (split_unit size_unit s (split_last s)))
        some_byte
      ∙ ap (λ b. if b then 0 else scaled (split_unit size_unit s (split_last s))) e
      ∙ ap scaled (split_unit-digits size_unit digit-no_size s h)
      ∙ ap (times 1) a
      ∙ once n r
]

seconds_of-numeral :
    (s : Bytes) (n : ℕ)
    → AreDigits s
    → IsNumeral s
    → atoi s ≡ some n
    → n < two_63
    → seconds_of s ≡ n
seconds_of-numeral [] n h (d, t, same, digit) a r = cc
seconds_of-numeral (c ∷ s) n h i a r =
    ap scaled (split_unit-digits time_unit digit-no_time (c ∷ s) h) ∙ ap (times 1) a ∙ once n r

size_unit-IsSolid : (c m : ℕ) → size_unit (lower c) ≡ some m → IsSolid c
unfolding lower
size_unit-IsSolid c m h = ground arith

time_unit-IsSolid : (c m : ℕ) → time_unit (lower c) ≡ some m → IsSolid c
unfolding lower
time_unit-IsSolid c m h = ground arith

module _ (n : ℕ) (r : n < two_63) where
  parse_size-plain : parse_size (decimal n) ≡ n
  unfolding parse_size
  parse_size-plain =
      ap size_of (prepared_digits (decimal n) (decimal-AreDigits n))
      ∙ size_of-numeral (decimal n) n (decimal-AreDigits n) (decimal-IsNumeral n) (atoi-decimal n r)
          r

  -- A number with the unit `c` of the multiplier `m`.
  pub parse_size-unit :
      (c m : ℕ) → size_unit (lower c) ≡ some m → parse_size (decimal n ++ c ∷ []) ≡ n * m % two_64
  unfolding parse_size
  parse_size-unit c m size =
      ap size_of (prepared (decimal n) c (decimal-AreDigits n) (size_unit-IsSolid c m size))
      ∙ size_of-long (decimal n) (lower c) (decimal-IsNumeral n)
      ∙ ap scaled (split_unit-unit size_unit (decimal n) (lower c) m size)
      ∙ ap (times m) (atoi-decimal n r)

  parse_duration_seconds-plain : parse_duration_seconds (decimal n) ≡ n
  unfolding parse_duration_seconds
  parse_duration_seconds-plain =
      ap seconds_of (prepared_digits (decimal n) (decimal-AreDigits n))
      ∙ seconds_of-numeral (decimal n) n (decimal-AreDigits n) (decimal-IsNumeral n)
          (atoi-decimal n r) r

  pub parse_duration_seconds-unit :
      (c m : ℕ)
      → time_unit (lower c) ≡ some m
      → parse_duration_seconds (decimal n ++ c ∷ []) ≡ n * m % two_64
  unfolding parse_duration_seconds
  parse_duration_seconds-unit c m time =
      ap seconds_of (prepared (decimal n) c (decimal-AreDigits n) (time_unit-IsSolid c m time))
      ∙ seconds_of-long (decimal n) (lower c)
      ∙ ap scaled (split_unit-unit time_unit (decimal n) (lower c) m time)
      ∙ ap (times m) (atoi-decimal n r)

-- A function reads a number with a unit behind it, small or capital, as so many times `m`.
abbrev pub ReadsUnit : (Bytes → ℕ) → ℕ → Bytes → Bytes → ℕ → Type 0
ReadsUnit read n small capital m =
    (read (decimal n ++ small) ≡ n * m % two_64) × (read (decimal n ++ capital) ≡ n * m % two_64)

-- A number below 2 ^ 63 in decimal is read by `parseSize` as so many bytes, or with k, m or g behind
-- it, small or capital, as so many times 1024, its square or its cube; and by
-- `parseDurationSeconds` as so many seconds, or with s, m, h or d behind it, small or capital, as so
-- many seconds, minutes of 60 seconds, hours of 60 minutes or days of 24 hours; all up to the
-- wrap-around at 2 ^ 64.
pub parse_size-decimal :
    (n : ℕ)
    → n < two_63
    → (parse_size (decimal n) ≡ n)
      × ReadsUnit parse_size n (codes "k") (codes "K") 1024
      × ReadsUnit parse_size n (codes "m") (codes "M") (1024 * 1024)
      × ReadsUnit parse_size n (codes "g") (codes "G") (1024 * 1024 * 1024)
      × (parse_duration_seconds (decimal n) ≡ n)
      × ReadsUnit parse_duration_seconds n (codes "s") (codes "S") 1
      × ReadsUnit parse_duration_seconds n (codes "m") (codes "M") 60
      × ReadsUnit parse_duration_seconds n (codes "h") (codes "H") (60 * 60)
      × ReadsUnit parse_duration_seconds n (codes "d") (codes "D") (24 * 60 * 60)
unfolding lower
parse_size-decimal n r = (
  parse_size-plain n r,
  (parse_size-unit n r b'k' _ refl, parse_size-unit n r b'K' _ refl),
  (parse_size-unit n r b'm' _ refl, parse_size-unit n r b'M' _ refl),
  (parse_size-unit n r b'g' _ refl, parse_size-unit n r b'G' _ refl),
  parse_duration_seconds-plain n r,
  (parse_duration_seconds-unit n r b's' _ refl, parse_duration_seconds-unit n r b'S' _ refl),
  (parse_duration_seconds-unit n r b'm' _ refl, parse_duration_seconds-unit n r b'M' _ refl),
  (parse_duration_seconds-unit n r b'h' _ refl, parse_duration_seconds-unit n r b'H' _ refl),
  (parse_duration_seconds-unit n r b'd' _ refl, parse_duration_seconds-unit n r b'D' _ refl),
)
