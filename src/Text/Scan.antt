-- ===== src/Text/Scan.antt =====
-- More of Go's package strings, on ASCII texts: trimming, searching, cutting.
use web_server.Prelude.{
  ℕ, Bool, true, false, ◌||◌, ◌==◌, if◌then◌else◌, List, [], ◌∷◌, ◌++◌, Option, none, some,
}
use web_server.Text.{Bytes, eqb}

abbrev pub is_space : ℕ → Bool
is_space c = c == 9 || c == 10 || c == 11 || c == 12 || c == 13 || c == 32

-- strings.TrimSpace.
unfoldable pub trim_left : Bytes → Bytes
trim_left [] = []
trim_left (c ∷ s) = let rest = trim_left s in if is_space c then rest else c ∷ s

abbrev pub keep : ℕ → Bytes → Bytes
keep c [] = if is_space c then [] else c ∷ []
keep c (d ∷ s) = c ∷ d ∷ s

unfoldable pub trim_right : Bytes → Bytes
trim_right [] = []
trim_right (c ∷ s) = keep c (trim_right s)

unfoldable pub trim_space : Bytes → Bytes
trim_space s = trim_right (trim_left s)

abbrev pub extend : ℕ → Option Bytes → Option Bytes
extend c none = none
extend c (some s) = some (c ∷ s)

-- What follows a prefix, and what stands before a suffix: strings.CutPrefix and CutSuffix.
unfoldable pub cut_prefix : Bytes → Bytes → Option Bytes
cut_prefix s [] = some s
cut_prefix [] (p ∷ ps) = none
cut_prefix (c ∷ s) (p ∷ ps) = let rest = cut_prefix s ps in if c == p then rest else none

unfoldable pub cut_suffix : Bytes → Bytes → Option Bytes
unfolding eqb
cut_suffix [] p = if eqb [] p then some [] else none
cut_suffix (c ∷ s) p =
    let rest = extend c (cut_suffix s p) in if eqb (c ∷ s) p then some [] else rest

-- What follows the first occurrence of a text that is not empty.
abbrev pub or_else {ℓ} : {A : Type ℓ} → Option A → Option A → Option A
or_else none o = o
or_else (some a) o = some a

unfoldable pub after : Bytes → Bytes → Option Bytes
unfolding cut_prefix
after p [] = none
after p (c ∷ s) = or_else (cut_prefix (c ∷ s) p) (after p s)

abbrev pub is_some {ℓ} : {A : Type ℓ} → Option A → Bool
is_some none = false
is_some (some a) = true

-- strings.Contains.
unfoldable pub contains : Bytes → Bytes → Bool
unfolding after
contains s p = is_some (after p s)

-- The part before the first byte `b`, or all of it.
unfoldable pub before_byte : ℕ → Bytes → Bytes
before_byte b [] = []
before_byte b (c ∷ s) = let rest = before_byte b s in if c == b then [] else c ∷ rest

-- strings.TrimRight of one byte.
abbrev pub keep_byte : ℕ → ℕ → Bytes → Bytes
keep_byte b c [] = if c == b then [] else c ∷ []
keep_byte b c (d ∷ s) = c ∷ d ∷ s

unfoldable pub trim_right_byte : ℕ → Bytes → Bytes
trim_right_byte b [] = []
trim_right_byte b (c ∷ s) = keep_byte b c (trim_right_byte b s)

-- The last byte, and what stands before it.
abbrev pub put_front : ℕ → Option (Bytes × ℕ) → Option (Bytes × ℕ)
put_front c none = some ([], c)
put_front c (some (front, d)) = some (c ∷ front, d)

unfoldable pub split_last : Bytes → Option (Bytes × ℕ)
split_last [] = none
split_last (c ∷ s) = put_front c (split_last s)

-- The first of strings.Fields, empty if there is none.
unfoldable pub until_space : Bytes → Bytes
until_space [] = []
until_space (c ∷ s) = let rest = until_space s in if is_space c then [] else c ∷ rest

unfoldable pub first_field : Bytes → Bytes
unfolding until_space trim_left
first_field s = until_space (trim_left s)

-- strings.Join with a space.
unfoldable pub join_spaces : List Bytes → Bytes
join_spaces [] = []
join_spaces (s ∷ []) = s
join_spaces (s ∷ t ∷ ts) = s ++ b' ' ∷ join_spaces (t ∷ ts)
