-- ===== src/Text.antt =====
-- What the gateway uses of Go's packages strings and unicode, on texts as lists of bytes. The
-- texts are ASCII: outside ASCII, folding and white space are not those of Unicode.
pub mod Scan
pub mod Number
use Prim.Native.Char.{code}
use Prim.Native.String.{String}
use web_server.Prelude.{
  ℕ, ◌+◌, ◌≡◌, ◌↔◌, refl, ap, sym, ◌∙◌, Bool, true, false, ◌&&◌, List, [], ◌∷◌, ◌++◌, map, arith,
  leb, ◌==◌, if◌then◌else◌, ◌-◌,
}

abbrev pub Bytes : Type 0
Bytes = List ℕ

-- The bytes of a literal.
abbrev pub codes : String → Bytes
codes String.[] = []
codes (String.◌∷◌ c s) = code c ∷ codes s

-- `a == b` between strings.
unfoldable pub eqb : Bytes → Bytes → Bool
eqb [] [] = true
eqb (x ∷ xs) (y ∷ ys) = x == y && eqb xs ys
eqb _ _ = false

pub eqb_refl : (xs : Bytes) → eqb xs xs ≡ true
unfolding eqb
eqb_refl [] = refl
eqb_refl (x ∷ xs) = ground (arith, eqb_refl xs)

pub eq_of_eqb : (xs ys : Bytes) → eqb xs ys ≡ true → xs ≡ ys
unfolding eqb
eq_of_eqb [] [] h = refl
eq_of_eqb [] (y ∷ ys) h = cc
eq_of_eqb (x ∷ xs) [] h = cc
eq_of_eqb (x ∷ xs) (y ∷ ys) h = ground (arith, eq_of_eqb xs ys)

pub eqb_iff : (xs ys : Bytes) → (eqb xs ys ≡ true) ↔ (xs ≡ ys)
eqb_iff xs ys = (eq_of_eqb xs ys, λ e. ap (eqb xs) (sym e) ∙ eqb_refl xs)

abbrev pub is_upper : ℕ → Bool
is_upper c = leb b'A' c && leb c b'Z'

abbrev pub is_lower : ℕ → Bool
is_lower c = leb b'a' c && leb c b'z'

abbrev pub is_digit : ℕ → Bool
is_digit c = leb b'0' c && leb c b'9'

unfoldable pub lower : ℕ → ℕ
lower c = if is_upper c then c + 32 else c

unfoldable pub upper : ℕ → ℕ
upper c = if is_lower c then c - 32 else c

-- strings.EqualFold, strings.HasPrefix.
unfoldable pub equal_fold : Bytes → Bytes → Bool
equal_fold a b = eqb (map lower a) (map lower b)

unfoldable pub has_prefix : Bytes → Bytes → Bool
has_prefix s [] = true
has_prefix [] (p ∷ ps) = false
has_prefix (c ∷ s) (p ∷ ps) = c == p && has_prefix s ps

-- A text with the prefix is the prefix and a rest.
pub has_prefix_iff : (s p : Bytes) → (has_prefix s p ≡ true) ↔ ((rest : Bytes) × (s ≡ p ++ rest))
unfolding has_prefix
has_prefix_iff s [] = (λ h. (s, refl), λ h. refl)
has_prefix_iff [] (p ∷ ps) = (λ h. cc, λ h. cc (h.1))
has_prefix_iff (c ∷ s) (p ∷ ps) = (
  λ h.
      let same : c ≡ p = ground arith in
      let (rest, e) = (has_prefix_iff s ps).0 (ground arith) in (rest, cc),
  λ h.
      let tails : s ≡ ps ++ h.0 = cc (h.1) in
      let heads : c ≡ p = cc (h.1) in ground (arith, (has_prefix_iff s ps).1 (h.0, tails)),
)
