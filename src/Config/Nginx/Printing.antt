-- ===== src/Config/Nginx/Printing.antt =====
-- A printer for the nodes of internal/config/nginx_parser.go. Every word is printed in double
-- quotes.
use mathlib.Core.List.{append-nil, append_assoc}
use web_server.Prelude.{
  ℕ, zero, suc, ◌+◌, ◌*◌, ◌≤◌, ◌<◌, ◌≡◌, refl, sym, ap, ◌∙◌, ◌||◌, ◌==◌, if◌then◌else◌, false, List,
  [], ◌∷◌, ◌++◌, length, arith, Option, some,
}
use web_server.Text.{Bytes}
use web_server.Config.Nginx.{
  Node, Nodes, node, no_nodes, more, Token, word, semicolon, l_brace, r_brace, eof, Result, ok,
  skip, read_quoted, token_at, and_then, close_block, add_node, block_at, args_at, word_of,
  parse_block, parse_node, parse_args, parse_file, next_token,
}

-- A text in quotes, and what follows it.
unfoldable pub escape : Bytes → Bytes → Bytes
escape [] rest = b'"' ∷ rest
escape (c ∷ w) rest =
    let printed = escape w rest in
    if c == b'"' || c == b'\\' then b'\\' ∷ c ∷ printed else c ∷ printed

abbrev pub quote : Bytes → Bytes → Bytes
quote w rest = b'"' ∷ escape w rest

abbrev pub print_args : List Bytes → Bytes → Bytes
print_args [] rest = rest
print_args (a ∷ args) rest = quote a (print_args args rest)

abbrev pub print_body : Nodes → Bytes → Bytes → Bytes
print_body no_nodes inner rest = b';' ∷ rest
print_body (more n nodes) inner rest = b'{' ∷ inner

unfoldable pub print_nodes : Nodes → Bytes → Bytes
print_nodes no_nodes rest = rest
print_nodes (more (node directive args block) nodes) rest =
    let following = print_nodes nodes rest in
    quote directive
      (print_args args (print_body block (print_nodes block (b'}' ∷ following)) following))

read_quoted-escape : (w rest : Bytes) → read_quoted b'"' false (escape w rest) ≡ (w, rest)
unfolding read_quoted escape
read_quoted-escape [] rest = refl
read_quoted-escape (c ∷ w) rest = ground (arith, read_quoted-escape w rest)

next_token-quote : (w rest : Bytes) → next_token (quote w rest) ≡ (word w, rest)
unfolding next_token skip token_at
next_token-quote w rest = ap word_of (read_quoted-escape w rest)

length-escape : (w rest : Bytes) → suc (length rest) ≤ length (escape w rest)
unfolding escape
length-escape [] rest = omega arith
length-escape (c ∷ w) rest = ground (arith, length-escape w rest)

length-print_args : (args : List Bytes) (rest : Bytes) → length rest ≤ length (print_args args rest)
length-print_args [] rest = omega arith
length-print_args (a ∷ args) rest =
    omega (arith, length-escape a (print_args args rest), length-print_args args rest)

length-print_body :
    (block : Nodes) (inner rest : Bytes)
    → suc (length rest) ≤ length inner
    → suc (length rest) ≤ length (print_body block inner rest)
length-print_body no_nodes inner rest h = omega arith
length-print_body (more n nodes) inner rest h = omega arith

length-print_nodes : (nodes : Nodes) (rest : Bytes) → length rest ≤ length (print_nodes nodes rest)
unfolding print_nodes
length-print_nodes no_nodes rest = omega arith
length-print_nodes (more (node d args block) nodes) rest =
    let following : Bytes = print_nodes nodes rest in
    let inner : Bytes = print_nodes block (b'}' ∷ following) in
    omega (
      arith,
      length-print_nodes nodes rest,
      length-print_body block inner following (length-print_nodes block (b'}' ∷ following)),
      length-print_args args (print_body block inner following),
      length-escape d (print_args args (print_body block inner following)),
    )

-- The block of a node is read back, if it has one.
parse_args-body :
    (n : ℕ) (d : Bytes) (args : List Bytes) (block : Nodes) (inner rest : Bytes)
    → ((m : ℕ) → 3 * length inner + 3 ≤ m → parse_block m inner ≡ ok block (b'}' ∷ rest))
    → 3 * length (print_body block inner rest) ≤ n
    → parse_args (suc n) d args (print_body block inner rest) ≡ ok (some (node d args block)) rest
unfolding parse_args next_token skip token_at
parse_args-body n d args no_nodes inner rest h l = refl
parse_args-body n d args (more nd nodes) inner rest h l =
    ap (λ r. and_then r (λ children s. close_block d args children (next_token s)))
      (h n (omega arith))

parse_args-print_args :
    (args : List Bytes) (n : ℕ) (d : Bytes) (before : List Bytes) (block : Nodes)
    (inner rest : Bytes)
    → ((m : ℕ) → 3 * length inner + 3 ≤ m → parse_block m inner ≡ ok block (b'}' ∷ rest))
    → 3 * length (print_args args (print_body block inner rest)) < n
    → parse_args n d before (print_args args (print_body block inner rest))
      ≡ ok (some (node d (before ++ args) block)) rest
unfolding parse_args
parse_args-print_args args zero d before block inner rest h l = absurd (omega arith)
parse_args-print_args [] (suc n) d before block inner rest h l =
    parse_args-body n d before block inner rest h (omega arith)
    ∙ ap (λ all. ok (some (node d all block)) rest) (sym (append-nil before))
parse_args-print_args (a ∷ args) (suc n) d before block inner rest h l =
    let tail : Bytes = print_args args (print_body block inner rest) in
    ap (args_at (parse_args n d) (parse_block n) d before (quote a tail)) (next_token-quote a tail)
    ∙ parse_args-print_args args n d (before ++ a ∷ []) block inner rest h
        (omega (arith, length-escape a tail))
    ∙ ap (λ all. ok (some (node d all block)) rest) (append_assoc before (a ∷ []) args)

-- The end of the text, or a closing brace, behind white space and comments.
abbrev pub IsEnd : Token → Type 0
IsEnd (word v) = ⊥
IsEnd semicolon = ⊥
IsEnd l_brace = ⊥
IsEnd r_brace = Unit
IsEnd eof = Unit

block_at-IsEnd :
    (parse : Token × Bytes → Result (Option Node)) (following : Bytes → Result Nodes) (s : Bytes)
    (t : Token × Bytes)
    → IsEnd t.0
    → block_at parse following s t ≡ ok no_nodes s
block_at-IsEnd parse following s (word v, s') h = elim h [ ]
block_at-IsEnd parse following s (semicolon, s') h = elim h [ ]
block_at-IsEnd parse following s (l_brace, s') h = elim h [ ]
block_at-IsEnd parse following s (r_brace, s') h = refl
block_at-IsEnd parse following s (eof, s') h = refl

-- One node and the block behind it.
parse_block-node :
    (k : ℕ) (d : Bytes) (nd : Node) (nodes : Nodes) (tail following rest : Bytes)
    → parse_args k d [] tail ≡ ok (some nd) following
    → parse_block (suc k) following ≡ ok nodes rest
    → parse_block (suc (suc k)) (quote d tail) ≡ ok (more nd nodes) rest
unfolding parse_block parse_node
parse_block-node k d nd nodes tail following rest ha hb =
    ap (block_at (parse_node (suc k)) (parse_block (suc k)) (quote d tail))
      (next_token-quote d tail)
    ∙ ap (λ r. and_then r (λ o s. and_then (parse_block (suc k) s) (add_node o))) ha
    ∙ ap (λ r. and_then r (add_node (some nd))) hb

-- Printed nodes before the end or a closing brace are read back, and what follows them is left.
parse_block-print_nodes :
    (nodes : Nodes) (n : ℕ) (rest : Bytes)
    → IsEnd (next_token rest).0
    → 3 * length (print_nodes nodes rest) + 3 ≤ n
    → parse_block n (print_nodes nodes rest) ≡ ok nodes rest
unfolding print_nodes parse_block next_token token_at skip
parse_block-print_nodes nodes zero rest e l = absurd (omega arith)
parse_block-print_nodes nodes (suc zero) rest e l = absurd (omega arith)
parse_block-print_nodes no_nodes (suc (suc k)) rest e l =
    block_at-IsEnd (parse_node (suc k)) (parse_block (suc k)) rest (next_token rest) e
parse_block-print_nodes (more (node d args block) nodes) (suc (suc k)) rest e l =
    let following : Bytes = print_nodes nodes rest in
    let inner : Bytes = print_nodes block (b'}' ∷ following) in
    let tail : Bytes = print_args args (print_body block inner following) in
    let longer : suc (length following) ≤ length tail = omega (
      arith,
      length-print_body block inner following (length-print_nodes block (b'}' ∷ following)),
      length-print_args args (print_body block inner following),
    ) in
    let shorter : suc (suc (length tail)) ≤ length (quote d tail) =
      omega (arith, length-escape d tail) in
    parse_block-node k d (node d args block) nodes tail following rest
      (parse_args-print_args args k d [] block inner following
        (λ m. parse_block-print_nodes block m (b'}' ∷ following) tt) (omega (arith, shorter, l)))
      (parse_block-print_nodes nodes (suc k) rest e (omega (arith, longer, shorter, l)))

-- Whatever bytes the directives and arguments of nodes consist of, the nodes printed in quotes are
-- what the parser reads, to the end of the text.
pub parse_file-print_nodes : (nodes : Nodes) → parse_file (print_nodes nodes []) ≡ ok nodes []
unfolding parse_file next_token token_at skip
parse_file-print_nodes nodes =
    parse_block-print_nodes nodes (3 * length (print_nodes nodes []) + 3) [] tt (omega arith)

-- A closing brace that closes no block ends the parsing without an error: what follows it, whatever
-- it is, is not read.
pub parse_file-stray_brace :
    (nodes : Nodes) (junk : Bytes)
    → parse_file (print_nodes nodes (b'}' ∷ junk)) ≡ ok nodes (b'}' ∷ junk)
unfolding parse_file next_token token_at skip
parse_file-stray_brace nodes junk =
    parse_block-print_nodes nodes (3 * length (print_nodes nodes (b'}' ∷ junk)) + 3) (b'}' ∷ junk)
      tt (omega arith)
