-- ===== src/Config/Nginx.antt =====
-- internal/config/nginx_parser.go: the lexer and the parser of nginx configurations. The lexer's
-- position is the text from there on. `unicode.IsSpace` is asked of single bytes, so Latin-1.
pub mod Lexing
pub mod Fuel
pub mod Units
pub mod Translator
pub mod Printing
use web_server.Prelude.{
  ℕ, zero, suc, ◌+◌, ◌*◌, Bool, true, false, ◌||◌, ◌==◌, if◌then◌else◌, Option, none, some, List,
  [], ◌∷◌, ◌++◌, length,
}
use web_server.Text.{Bytes}

-- An empty block and none are the same: the parser returns nil for both.
mutual
  pub data Node : Type 0 where
    node : Bytes → List Bytes → Nodes → Node

  pub data Nodes : Type 0 where
    no_nodes : Nodes
    more : Node → Nodes → Nodes

pub data Token : Type 0 where
  word : Bytes → Token
  semicolon l_brace r_brace eof : Token

abbrev pub is_space : ℕ → Bool
is_space c = c == 9 || c == 10 || c == 11 || c == 12 || c == 13 || c == 32 || c == 133 || c == 160

-- The loop of `next` while it skips; the flag says that it is within a comment.
unfoldable pub skip : Bool → Bytes → Bytes
skip in_comment [] = []
skip true (c ∷ s) = if c == b'\n' then skip false s else skip true s
skip false (c ∷ s) =
    let rest = skip (c == b'#') s in if is_space c || c == b'#' then rest else c ∷ s

-- `readQuoted` behind the opening quote; the flag says that a backslash stands before. The value,
-- and what follows the closing quote.
unfoldable pub read_quoted : ℕ → Bool → Bytes → Bytes × Bytes
read_quoted quote true [] = (b'\\' ∷ [], [])
read_quoted quote false [] = ([], [])
read_quoted quote true (c ∷ s) = let (val, rest) = read_quoted quote false s in (c ∷ val, rest)
read_quoted quote false (c ∷ s) =
    let (val, rest) = read_quoted quote (c == b'\\') s in
    if c == quote then ([], s) else (if c == b'\\' then (val, rest) else (c ∷ val, rest))

abbrev pub ends_word : ℕ → Bool
ends_word c = is_space c || c == b';' || c == b'{' || c == b'}' || c == b'#'

-- `readWord`.
unfoldable pub read_word : Bytes → Bytes × Bytes
read_word [] = ([], [])
read_word (c ∷ s) =
    let (val, rest) = read_word s in if ends_word c then ([], c ∷ s) else (c ∷ val, rest)

abbrev pub word_of : Bytes × Bytes → Token × Bytes
word_of (val, rest) = (word val, rest)

-- The switch of `next`.
unfoldable pub token_at : Bytes → Token × Bytes
token_at [] = (eof, [])
token_at (c ∷ s) =
    if c == b';'
    then (semicolon, s)
    else (if c == b'{'
        then (l_brace, s)
        else (if c == b'}'
            then (r_brace, s)
            else (if c == b'"' || c == b'\''
                then word_of (read_quoted c false s)
                else word_of (read_word (c ∷ s)))))

unfoldable pub next_token : Bytes → Token × Bytes
next_token s = token_at (skip false s)

pub data ParseError : Type 0 where
  expected_name : Token → ParseError
  expected_r_brace : Token → ParseError

pub data Result (A : Type 0) : Type 0 where
  ok : A → Bytes → Result A
  failed : ParseError → Result A
  out_of_fuel : Result A

abbrev pub and_then : {A B : Type 0} → Result A → (A → Bytes → Result B) → Result B
and_then (ok a s) f = f a s
and_then (failed e) f = failed e
and_then out_of_fuel f = out_of_fuel

-- Behind a block: the closing brace.
abbrev pub close_block : Bytes → List Bytes → Nodes → Token × Bytes → Result (Option Node)
close_block directive args children (r_brace, s) = ok (some (node directive args children)) s
close_block directive args children (t, s) = failed (expected_r_brace t)

abbrev pub add_node : Option Node → Nodes → Bytes → Result Nodes
add_node none nodes s = ok nodes s
add_node (some n) nodes s = ok (more n nodes) s

-- One round of `parseBlock`, which only looks at the token: what a node is, and the rest of the
-- block, are given.
abbrev pub block_at :
    (Token × Bytes → Result (Option Node))
    → (Bytes → Result Nodes)
    → Bytes
    → Token × Bytes
    → Result Nodes
block_at parse rest s (eof, s') = ok no_nodes s
block_at parse rest s (r_brace, s') = ok no_nodes s
block_at parse rest s (t, s') = and_then (parse (t, s')) (λ n s. and_then (rest s) (add_node n))

-- `parseNode` up to its loop, and one round of this loop.
abbrev pub node_at : (Bytes → Bytes → Result (Option Node)) → Token × Bytes → Result (Option Node)
node_at loop (eof, s) = ok none s
node_at loop (r_brace, s) = ok none s
node_at loop (word directive, s) = loop directive s
node_at loop (t, s) = failed (expected_name t)

abbrev pub args_at :
    (List Bytes → Bytes → Result (Option Node))
    → (Bytes → Result Nodes)
    → Bytes
    → List Bytes
    → Bytes
    → Token × Bytes
    → Result (Option Node)
args_at loop block directive args s (semicolon, s') = ok (some (node directive args no_nodes)) s'
args_at loop block directive args s (l_brace, s') =
    and_then (block s') (λ children s. close_block directive args children (next_token s))
args_at loop block directive args s (eof, s') = ok (some (node directive args no_nodes)) s
args_at loop block directive args s (r_brace, s') = loop (args ++ (b'}' ∷ []) ∷ []) s'
args_at loop block directive args s (word val, s') = loop (args ++ val ∷ []) s'

-- The parser, on fuel.
unfoldable mutual
  pub parse_block : ℕ → Bytes → Result Nodes
  parse_block zero s = out_of_fuel
  parse_block (suc n) s = block_at (parse_node n) (parse_block n) s (next_token s)

  pub parse_node : ℕ → Token × Bytes → Result (Option Node)
  parse_node zero t = out_of_fuel
  parse_node (suc n) t = node_at (λ directive s. parse_args n directive [] s) t

  pub parse_args : ℕ → Bytes → List Bytes → Bytes → Result (Option Node)
  parse_args zero directive args s = out_of_fuel
  parse_args (suc n) directive args s =
      args_at (parse_args n directive) (parse_block n) directive args s (next_token s)

-- `ParseNginxFile` on what it has read: the number of bytes bounds the rounds.
unfoldable pub parse_file : Bytes → Result Nodes
parse_file s = parse_block (3 * length s + 3) s
