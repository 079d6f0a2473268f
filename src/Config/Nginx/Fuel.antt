-- ===== src/Config/Nginx/Fuel.antt =====
-- internal/config/nginx_parser.go: the rounds of the parser.
use web_server.Prelude.{
  ℕ, zero, suc, ◌+◌, ◌*◌, ◌≤◌, ◌<◌, List, [], ◌∷◌, ◌++◌, length, arith, Option, none, some,
}
use web_server.Text.{Bytes}
use web_server.Config.Nginx.{
  Node, Nodes, Token, word, semicolon, l_brace, r_brace, eof, Result, ok, failed, out_of_fuel,
  and_then, close_block, add_node, block_at, node_at, args_at, parse_block, parse_node, parse_args,
  parse_file, next_token,
}
use web_server.Config.Nginx.Lexing.{Advances, next_token-Advances}

-- A result, at most `m` bytes before the end, or an error of the parser.
abbrev pub Within : {A : Type 0} → ℕ → Result A → Type 0
Within m (ok a s) = length s ≤ m
Within m (failed e) = Unit
Within m out_of_fuel = ⊥

module _ {A B : Type 0} where
  and_then-Within :
      (k m : ℕ) (r : Result A) (f : A → Bytes → Result B)
      → Within k r
      → ((a : A) (s : Bytes) → length s ≤ k → Within m (f a s))
      → Within m (and_then r f)
  and_then-Within k m (ok a s) f h n = n a s h
  and_then-Within k m (failed e) f h n = tt
  and_then-Within k m out_of_fuel f h n = elim h [ ]

Within-le : {A : Type 0} (k m : ℕ) (r : Result A) → k ≤ m → Within k r → Within m r
Within-le k m (ok a s) l h = omega arith
Within-le k m (failed e) l h = tt
Within-le k m out_of_fuel l h = elim h [ ]

add_node-Within :
    (m : ℕ) (o : Option Node) (nodes : Nodes) (s : Bytes)
    → length s ≤ m
    → Within m (add_node o nodes s)
add_node-Within m none nodes s h = h
add_node-Within m (some n) nodes s h = h

close_block-Within :
    (m : ℕ) (directive : Bytes) (args : List Bytes) (children : Nodes) (s : Bytes)
    (t : Token × Bytes)
    → Advances s t
    → length s ≤ m
    → Within m (close_block directive args children t)
close_block-Within m d args c s (word v, rest) h l = tt
close_block-Within m d args c s (semicolon, rest) h l = tt
close_block-Within m d args c s (l_brace, rest) h l = tt
close_block-Within m d args c s (r_brace, rest) h l = omega arith
close_block-Within m d args c s (eof, rest) h l = tt

-- For texts and tokens that leave so much text, this fuel is enough.
abbrev Enough : ℕ → Type 0
Enough n =
    ((s : Bytes) → 3 * length s + 3 ≤ n → Within (length s) (parse_block n s))
    × ((t : Token) (s : Bytes) → 3 * length s + 2 ≤ n → Within (length s) (parse_node n (t, s)))
    × ((d : Bytes) (args : List Bytes) (s : Bytes)
        → 3 * length s + 1 ≤ n
        → Within (length s) (parse_args n d args s))

args_at-Within :
    (n : ℕ) (d : Bytes) (args : List Bytes) (s : Bytes) (t : Token × Bytes)
    → Enough n
    → 3 * length s ≤ n
    → Advances s t
    → Within (length s) (args_at (parse_args n d) (parse_block n) d args s t)
args_at-Within n d args s (semicolon, s') h l a = omega arith
args_at-Within n d args s (eof, s') h l a = omega arith
args_at-Within n d args s (word v, s') h l a =
    Within-le (length s') (length s) _ (omega arith) (h.2 d (args ++ v ∷ []) s' (omega arith))
args_at-Within n d args s (r_brace, s') h l a =
    Within-le (length s') (length s) _ (omega arith)
      (h.2 d (args ++ (b'}' ∷ []) ∷ []) s' (omega arith))
args_at-Within n d args s (l_brace, s') h l a =
    and_then-Within (length s') (length s) (parse_block n s') _ (h.0 s' (omega arith)) (λ c s1 l1.
      close_block-Within (length s) d args c s1 (next_token s1) (next_token-Advances s1)
        (omega arith))

node_at-Within :
    (n : ℕ) (t : Token) (s : Bytes)
    → Enough n
    → 3 * length s + 1 ≤ n
    → Within (length s) (node_at (λ directive s. parse_args n directive [] s) (t, s))
node_at-Within n (word v) s h l = h.2 v [] s l
node_at-Within n semicolon s h l = tt
node_at-Within n l_brace s h l = tt
node_at-Within n r_brace s h l = omega arith
node_at-Within n eof s h l = omega arith

-- A round of `parseBlock` in which a token is left: a node, and the rest of the block.
item-Within :
    (n : ℕ) (t : Token) (s s' : Bytes)
    → Enough n
    → 3 * length s + 2 ≤ n
    → length s' < length s
    → Within
        (length s)
        (and_then (parse_node n (t, s')) (λ nd s. and_then (parse_block n s) (add_node nd)))
item-Within n t s s' h l a =
    and_then-Within (length s') (length s) (parse_node n (t, s')) _ (h.1 t s' (omega arith))
      (λ nd s1 l1.
        and_then-Within (length s1) (length s) (parse_block n s1) _ (h.0 s1 (omega arith))
          (λ nodes s2 l2. add_node-Within (length s) nd nodes s2 (omega arith)))

block_at-Within :
    (n : ℕ) (s : Bytes) (t : Token × Bytes)
    → Enough n
    → 3 * length s + 2 ≤ n
    → Advances s t
    → Within (length s) (block_at (parse_node n) (parse_block n) s t)
block_at-Within n s (eof, s') h l a = omega arith
block_at-Within n s (r_brace, s') h l a = omega arith
block_at-Within n s (word v, s') h l a = item-Within n (word v) s s' h l a
block_at-Within n s (semicolon, s') h l a = item-Within n semicolon s s' h l a
block_at-Within n s (l_brace, s') h l a = item-Within n l_brace s s' h l a

enough : (n : ℕ) → Enough n
unfolding parse_block parse_node parse_args
enough zero =
    (λ s l. absurd (omega arith), λ t s l. absurd (omega arith), λ d args s l. absurd (omega arith))
enough (suc n) =
    let h = enough n in
    (
      λ s l. block_at-Within n s (next_token s) h (omega arith) (next_token-Advances s),
      λ t s l. node_at-Within n t s h (omega arith),
      λ d args s l.
          args_at-Within n d args s (next_token s) h (omega arith) (next_token-Advances s),
    )

-- For every text the parser comes to a list of nodes, with a rest of the text that is left, or to
-- an error of its own: its rounds end before the fuel does.
pub parse_file-Within : (s : Bytes) → Within (length s) (parse_file s)
unfolding parse_file
parse_file-Within s = (enough (3 * length s + 3)).0 s (omega arith)
