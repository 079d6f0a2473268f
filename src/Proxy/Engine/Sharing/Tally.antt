-- ===== src/Proxy/Engine/Sharing/Tally.antt =====
-- Counts of connections, in which one is taken or given back.
use web_server.Prelude.{
  ℕ, zero, suc, ◌+◌, ◌%◌, ◌≡◌, refl, ap, ◌∙◌, Bool, true, false, List, [], ◌∷◌, Option, none, some,
  arith, if◌then◌else◌, two_64, inc, dec, modify, get_elem?, ◌==◌, Bool-cases, inl, inr,
}
use mathlib.Core.Path.{sym}

-- One if the positions are the same.
abbrev pub at : ℕ → ℕ → ℕ
at j k = if j == k then 1 else 0

-- A count with `h` more, as a word.
abbrev pub plus : ℕ → Option ℕ → Option ℕ
plus h none = none
plus h (some c) = some ((c + h) % two_64)

-- The upstream at position `j` counts `h` connections more than `o`.
abbrev pub Tallied : ℕ → ℕ → Option ℕ → List ℕ → Type 0
Tallied j h o cs = get_elem? cs j ≡ plus h o

-- An element of a list in which one was changed.
abbrev changed_if : Bool → (ℕ → ℕ) → Option ℕ → Option ℕ
changed_if true f none = none
changed_if true f (some c) = some (f c)
changed_if false f o = o

get_elem?-modify :
    (cs : List ℕ) (k j : ℕ) (f : ℕ → ℕ)
    → get_elem? (modify cs k f) j ≡ changed_if (j == k) f (get_elem? cs j)
get_elem?-modify [] k j f = ground arith
get_elem?-modify (c ∷ cs) zero zero f = refl
get_elem?-modify (c ∷ cs) zero (suc j) f = ground arith
get_elem?-modify (c ∷ cs) (suc k) zero f = ground arith
get_elem?-modify (c ∷ cs) (suc k) (suc j) f = ground (arith, get_elem?-modify cs k j f)

pub plus-zero : (o : Option ℕ) (h : ℕ) → plus (h + 0) o ≡ plus h o
plus-zero o h = ground arith

inc-plus : (o : Option ℕ) (h : ℕ) → changed_if true inc (plus h o) ≡ plus (h + 1) o
inc-plus none h = refl
inc-plus (some c) h = ap some (omega arith)

dec-plus : (o : Option ℕ) (h : ℕ) → changed_if true dec (plus (h + 1) o) ≡ plus h o
dec-plus none h = refl
dec-plus (some c) h = ap some (omega arith)

pub inc-Tallied :
    (j k h : ℕ) (o : Option ℕ) (cs : List ℕ)
    → Tallied j h o cs
    → Tallied j (h + at j k) o (modify cs k inc)
inc-Tallied j k h o cs t = get_elem?-modify cs k j inc ∙ elim (Bool-cases (j == k)) [
  | inl same ↦ rw same (ap (changed_if true inc) t ∙ inc-plus o h)
  | inr other ↦ rw other (t ∙ sym (plus-zero o h))
]

pub dec-Tallied :
    (j k h : ℕ) (o : Option ℕ) (cs : List ℕ)
    → Tallied j (h + at j k) o cs
    → Tallied j h o (modify cs k dec)
dec-Tallied j k h o cs t = get_elem?-modify cs k j dec ∙ elim (Bool-cases (j == k)) [
  | inl same ↦
      let one = ap (λ c. plus (h + (if c then 1 else 0)) o) same in
      ap (λ c. changed_if c dec (get_elem? cs j)) same
      ∙ ap (changed_if true dec) (t ∙ one)
      ∙ dec-plus o h
  | inr other ↦
      let none_there = ap (λ c. plus (h + (if c then 1 else 0)) o) other in
      ap (λ c. changed_if c dec (get_elem? cs j)) other ∙ t ∙ none_there ∙ plus-zero o h
]
