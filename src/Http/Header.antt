-- ===== src/Http/Header.antt =====
-- http.Header: a map from canonical names to lists of values, as an association list.
use mathlib.Core.List.{append-nil}
use web_server.Prelude.{
  Bool-cases, inl, inr, sym, ap, ◌∙◌, ℕ, ◌≡◌, Bool, true, ◌&&◌, ◌||◌, List, [], ◌∷◌, ◌++◌, arith,
  leb, ◌==◌, if◌then◌else◌,
}
use web_server.Text.{Bytes, eqb, eqb_iff, eq_of_eqb, is_upper, is_lower, is_digit, lower, upper}

abbrev pub Header : Type 0
Header = List (Bytes × List Bytes)

-- The bytes that a header's name may hold: letters, digits and !#$%&'*+-.^_`|~.
abbrev pub is_token_byte : ℕ → Bool
is_token_byte c =
    is_upper c
    || is_lower c
    || is_digit c
    || c == b'!'
    || (leb b'#' c && leb c b'\'')
    || c == b'*'
    || c == b'+'
    || c == b'-'
    || c == b'.'
    || c == b'^'
    || c == b'_'
    || c == b'`'
    || c == b'|'
    || c == b'~'

unfoldable pub is_token : Bytes → Bool
is_token [] = true
is_token (c ∷ s) = is_token_byte c && is_token s

-- Capitals at the start and behind each dash, small letters elsewhere.
unfoldable pub capitalize : Bool → Bytes → Bytes
unfolding lower upper
capitalize start [] = []
capitalize start (c ∷ s) = (if start then upper c else lower c) ∷ capitalize (c == b'-') s

-- http.CanonicalHeaderKey: a name that is no token stays as it is.
unfoldable pub canonical : Bytes → Bytes
unfolding is_token capitalize
canonical k = if is_token k then capitalize true k else k

-- The map itself.
unfoldable pub lookup : Bytes → Header → List Bytes
lookup k [] = []
lookup k ((j, vs) ∷ h) = if eqb j k then vs else lookup k h

unfoldable pub delete : Bytes → Header → Header
delete k [] = []
delete k ((j, vs) ∷ h) = let rest = delete k h in if eqb j k then rest else (j, vs) ∷ rest

unfoldable pub insert : Bytes → List Bytes → Header → Header
insert k vs h = (k, vs) ∷ delete k h

-- Values, Get, Set, Add and Del.
unfoldable pub values : Bytes → Header → List Bytes
values k h = lookup (canonical k) h

abbrev pub first : List Bytes → Bytes
first [] = []
first (v ∷ vs) = v

unfoldable pub get : Bytes → Header → Bytes
unfolding values
get k h = first (values k h)

unfoldable pub set : Bytes → Bytes → Header → Header
unfolding insert
set k v h = insert (canonical k) (v ∷ []) h

unfoldable pub add : Bytes → Bytes → Header → Header
unfolding insert
add k v h = insert (canonical k) (lookup (canonical k) h ++ v ∷ []) h

unfoldable pub del : Bytes → Header → Header
del k h = delete (canonical k) h

-- Looking up after a deletion and after an insertion.
pub lookup-delete :
    (k j : Bytes) (h : Header) → lookup j (delete k h) ≡ (if eqb k j then [] else lookup j h)
unfolding lookup delete
lookup-delete k j [] = ground arith
lookup-delete k j ((i, vs) ∷ h) =
    ground (arith, eqb_iff k j, eqb_iff i k, eqb_iff i j, lookup-delete k j h)

pub lookup-insert :
    (k j : Bytes) (vs : List Bytes) (h : Header)
    → lookup j (insert k vs h) ≡ (if eqb k j then vs else lookup j h)
unfolding insert lookup
lookup-insert k j vs h = ground (arith, lookup-delete k j h)

pub lookup-del :
    (k j : Bytes) (h : Header)
    → lookup j (del k h) ≡ (if eqb (canonical k) j then [] else lookup j h)
unfolding del
lookup-del k j h = lookup-delete (canonical k) j h

pub lookup-set :
    (k v j : Bytes) (h : Header)
    → lookup j (set k v h) ≡ (if eqb (canonical k) j then v ∷ [] else lookup j h)
unfolding set
lookup-set k v j h = lookup-insert (canonical k) j (v ∷ []) h

pub lookup-add :
    (k v j : Bytes) (h : Header)
    → lookup j (add k v h) ≡ lookup j h ++ (if eqb (canonical k) j then v ∷ [] else [])
unfolding add
lookup-add k v j h =
    lookup-insert (canonical k) j (lookup (canonical k) h ++ v ∷ []) h
    ∙ elim (Bool-cases (eqb (canonical k) j)) [
      | inl e ↦
          let same : canonical k ≡ j = eq_of_eqb (canonical k) j e in
          rw e (ap (λ i. lookup i h ++ v ∷ []) same)
      | inr e ↦ rw e (sym (append-nil (lookup j h)))
    ]
