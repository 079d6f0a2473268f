-- ===== src/Config/Nginx/Lexing.antt =====
-- internal/config/nginx_parser.go: what the lexer takes of the text.
use web_server.Prelude.{
  Bool-cases, ◌||◌, ◌==◌, ℕ, ◌≡◌, ◌≤◌, ◌<◌, inl, inr, Bool, true, false, [], ◌∷◌, length, arith,
}
use web_server.Text.{Bytes}
use web_server.Config.Nginx.{
  Token, word, semicolon, l_brace, r_brace, eof, skip, read_quoted, read_word, ends_word, is_space,
  token_at, next_token,
}

pub length-skip : (b : Bool) (s : Bytes) → length (skip b s) ≤ length s
unfolding skip
length-skip b [] = omega arith
length-skip true (c ∷ s) = ground (arith, length-skip true s, length-skip false s)
length-skip false (c ∷ s) = ground (arith, length-skip (c == b'#') s)

pub length-read_quoted : (q : ℕ) (b : Bool) (s : Bytes) → length (read_quoted q b s).1 ≤ length s
unfolding read_quoted
length-read_quoted q true [] = omega arith
length-read_quoted q false [] = omega arith
length-read_quoted q true (c ∷ s) = omega (arith, length-read_quoted q false s)
length-read_quoted q false (c ∷ s) = ground (arith, length-read_quoted q (c == b'\\') s)

pub length-read_word : (s : Bytes) → length (read_word s).1 ≤ length s
unfolding read_word
length-read_word [] = omega arith
length-read_word (c ∷ s) = ground (arith, length-read_word s)

-- What follows a token is shorter, or the token is the end.
abbrev pub Advances : Bytes → Token × Bytes → Type 0
Advances s (eof, rest) = length rest ≤ length s
Advances s (t, rest) = length rest < length s

-- What a token begins with.
abbrev pub IsStart : Bytes → Type 0
IsStart [] = Unit
IsStart (c ∷ s) = (is_space c || c == b'#') ≡ false

pub skip-IsStart : (b : Bool) (s : Bytes) → IsStart (skip b s)
unfolding skip
skip-IsStart b [] = tt
skip-IsStart true (c ∷ s) = elim (Bool-cases (c == b'\n')) [
  | inl e ↦ rw e (skip-IsStart false s)
  | inr e ↦ rw e (skip-IsStart true s)
]
skip-IsStart false (c ∷ s) = elim (Bool-cases (is_space c || c == b'#')) [
  | inl e ↦ rw e (skip-IsStart (c == b'#') s)
  | inr e ↦ rw e e
]

-- Where a word begins, it takes a byte.
read_word-Advances :
    (c : ℕ) (s : Bytes) → ends_word c ≡ false → length (read_word (c ∷ s)).1 < length (c ∷ s)
unfolding read_word
read_word-Advances c s e = ground (arith, length-read_word s)

token_at-Advances : (s : Bytes) → IsStart s → Advances s (token_at s)
unfolding token_at
token_at-Advances [] h = omega arith
token_at-Advances (c ∷ s) h = elim (Bool-cases (c == b';')) [
  | inl e1 ↦ rw e1 (omega arith)
  | inr e1 ↦ elim (Bool-cases (c == b'{')) [
    | inl e2 ↦ rw (e1, e2) (omega arith)
    | inr e2 ↦ elim (Bool-cases (c == b'}')) [
      | inl e3 ↦ rw (e1, e2, e3) (omega arith)
      | inr e3 ↦ elim (Bool-cases (c == b'"' || c == b'\'')) [
        | inl e4 ↦ rw (e1, e2, e3, e4) (omega (arith, length-read_quoted c false s))
        | inr e4 ↦
            let start : ends_word c ≡ false = ground arith in
            rw (e1, e2, e3, e4) (read_word-Advances c s start)
      ]
    ]
  ]
]

Advances-le :
    (s s' : Bytes) (t : Token × Bytes) → length s' ≤ length s → Advances s' t → Advances s t
Advances-le s s' (word v, rest) l h = omega arith
Advances-le s s' (semicolon, rest) l h = omega arith
Advances-le s s' (l_brace, rest) l h = omega arith
Advances-le s s' (r_brace, rest) l h = omega arith
Advances-le s s' (eof, rest) l h = omega arith

pub next_token-Advances : (s : Bytes) → Advances s (next_token s)
unfolding next_token
next_token-Advances s =
    Advances-le s (skip false s) (token_at (skip false s)) (length-skip false s)
      (token_at-Advances (skip false s) (skip-IsStart false s))
