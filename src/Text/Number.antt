-- ===== src/Text/Number.antt =====
-- strconv.Atoi, and ParseInt in base 10 with 64 bits: a sign if there is one, then digits, in range.
pub mod Decimal
use web_server.Prelude.{
  ℕ, ◌+◌, ◌-◌, ◌*◌, ◌%◌, ◌==◌, ltb, leb, if◌then◌else◌, [], ◌∷◌, Option, none, some, two_63, two_64,
}
use web_server.Text.{Bytes, is_digit}

unfoldable pub digits : ℕ → Bytes → Option ℕ
digits value [] = some value
digits value (c ∷ s) =
    let rest = digits (value * 10 + (c - b'0')) s in if is_digit c then rest else none

abbrev pub number : Bytes → Option ℕ
number [] = none
number (c ∷ s) = digits 0 (c ∷ s)

abbrev pub in_range : Option ℕ → Option ℕ
in_range none = none
in_range (some n) = if ltb n two_63 then some n else none

abbrev pub negated : Option ℕ → Option ℕ
negated none = none
negated (some n) = if leb n two_63 then some ((two_64 - n) % two_64) else none

unfoldable pub atoi : Bytes → Option ℕ
unfolding digits
atoi [] = none
atoi (c ∷ s) =
    if c == b'-'
    then negated (number s)
    else (if c == b'+' then in_range (number s) else in_range (number (c ∷ s)))
