-- ===== src/Text/Number/Decimal.antt =====
-- Numbers in decimal, and how strconv.Atoi reads them.
use web_server.Prelude.{
  sym, false, ◌==◌, ℕ, zero, suc, ◌+◌, ◌/◌, ◌%◌, ◌<◌, ◌≡◌, refl, ap, ◌∙◌, true, ltb, if◌then◌else◌,
  [], ◌∷◌, All, some, arith, two_63, dec_lt,
}
use web_server.Text.{Bytes, is_digit}
use web_server.Text.Number.{digits, atoi}

-- The digits of `n` in front of a text; each round but the last divides `n` by ten, and one more
-- than `n` are enough.
unfoldable pub print : ℕ → ℕ → Bytes → Bytes
print zero n out = out
print (suc rounds) n out =
    let rest = print rounds (n / 10) ((b'0' + n % 10) ∷ out) in
    if ltb n 10 then (b'0' + n) ∷ out else rest

abbrev pub decimal : ℕ → Bytes
decimal n = print (suc n) n []

digits-print :
    (rounds n : ℕ) (out : Bytes) → n < rounds → digits 0 (print rounds n out) ≡ digits n out
unfolding print digits
digits-print zero n out h = elim h [ ]
digits-print (suc rounds) n out h = elim (dec_lt n 10) [
  | yes small ↦ ground arith
  | no large ↦
      let behind = digits-print rounds (n / 10) ((b'0' + n % 10) ∷ out) (omega arith) in
      ground (arith, behind)
]

-- A text that begins with a digit.
abbrev pub IsNumeral : Bytes → Type 0
IsNumeral s = (c : ℕ) × (t : Bytes) × (s ≡ c ∷ t) × (is_digit c ≡ true)

print-IsNumeral : (rounds n : ℕ) (out : Bytes) → n < rounds → IsNumeral (print rounds n out)
unfolding print
print-IsNumeral zero n out h = elim h [ ]
print-IsNumeral (suc rounds) n out h = elim (dec_lt n 10) [
  | yes small ↦ (b'0' + n, out, ground arith, ground arith)
  | no large ↦
      let (c, t, same, digit) =
        print-IsNumeral rounds (n / 10) ((b'0' + n % 10) ∷ out) (omega arith) in
      (c, t, ground (arith, same), digit)
]

atoi-cons :
    (c : ℕ) (t : Bytes) (n : ℕ)
    → is_digit c ≡ true
    → digits 0 (c ∷ t) ≡ some n
    → n < two_63
    → atoi (c ∷ t) ≡ some n
unfolding atoi
atoi-cons c t n digit h r =
    let minus : (c == b'-') ≡ false = ground arith in
    let plus : (c == b'+') ≡ false = ground arith in
    let below : ltb n two_63 ≡ true = ground arith in rw (minus, plus, h) (rw below refl)

atoi-numeral :
    (s : Bytes) (n : ℕ) → IsNumeral s → digits 0 s ≡ some n → n < two_63 → atoi s ≡ some n
atoi-numeral s n (c, t, same, digit) h r =
    ap atoi same ∙ atoi-cons c t n digit (ap (digits 0) (sym same) ∙ h) r

-- What Atoi reads of a number below 2 ^ 63 in decimal is the number.
pub atoi-decimal : (n : ℕ) → n < two_63 → atoi (decimal n) ≡ some n
unfolding digits
atoi-decimal n r =
    atoi-numeral (decimal n) n (print-IsNumeral (suc n) n [] (omega arith))
      (digits-print (suc n) n [] (omega arith)) r

-- All bytes are digits.
abbrev pub AreDigits : Bytes → Type 0
AreDigits = All (λ c. is_digit c ≡ true)

print-AreDigits : (rounds n : ℕ) (out : Bytes) → AreDigits out → AreDigits (print rounds n out)
unfolding print
print-AreDigits zero n out h = h
print-AreDigits (suc rounds) n out h = elim (dec_lt n 10) [
  | yes small ↦ ground arith
  | no large ↦
      let behind = print-AreDigits rounds (n / 10) ((b'0' + n % 10) ∷ out) (ground arith, h) in
      ground (arith, behind)
]

pub decimal-AreDigits : (n : ℕ) → AreDigits (decimal n)
decimal-AreDigits n = print-AreDigits (suc n) n [] tt

pub decimal-IsNumeral : (n : ℕ) → IsNumeral (decimal n)
decimal-IsNumeral n = print-IsNumeral (suc n) n [] (omega arith)
