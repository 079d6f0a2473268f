-- ===== src/Config/Nginx/Translator.antt =====
-- internal/config/nginx_translator.go: a configuration from the nodes of an nginx file. The error
-- results of the source are always nil and are left out. A map is the list of its assignments, the
-- last one first.
pub mod Location
pub mod Server
pub mod Site
pub mod Passing
pub mod Sites
use web_server.Prelude.{
  ℕ, Bool, true, false, if◌then◌else◌, List, [], ◌∷◌, ◌++◌, Option, none, some,
}
use web_server.Text.{Bytes, codes, eqb}
use web_server.Text.Scan.{contains, cut_prefix}
use web_server.Text.Number.{atoi}
use web_server.Config.{UpstreamConfig}
use web_server.Config.Nginx.{Node, Nodes, node, no_nodes, more}

module _ {ℓ} {A : Type ℓ} where
  unfoldable pub assigned : Bytes → List (Bytes × A) → Option A
  assigned k [] = none
  assigned k ((j, a) ∷ m) = if eqb j k then some a else assigned k m

-- The upstream groups and their algorithms, by name.
pub record Groups : Type 0 where
  pub upstreams : List (Bytes × List UpstreamConfig)
  pub algorithms : List (Bytes × Bytes)

-- An address with a scheme.
abbrev pub with_scheme : Bytes → Bytes
with_scheme addr = if contains addr (codes "://") then addr else codes "http://" ++ addr

-- The loop over the arguments of a `server` line in a group.
abbrev pub weight_or : ℕ → Option ℕ → ℕ
weight_or weight none = weight
weight_or weight (some w) = w

abbrev pub weight_arg : ℕ → Option Bytes → ℕ
weight_arg weight none = weight
weight_arg weight (some num) = weight_or weight (atoi num)

unfoldable pub weight_of : ℕ → List Bytes → ℕ
weight_of weight [] = weight
weight_of weight (arg ∷ args) =
    weight_of (weight_arg weight (cut_prefix arg (codes "weight="))) args

abbrev pub server_line : List Bytes → List UpstreamConfig
server_line [] = []
server_line (addr ∷ args) = record { url = with_scheme addr; weight = weight_of 1 args } ∷ []

-- One round of the loop of `parseUpstreamBlock`.
abbrev pub upstream_node :
    Bytes → List Bytes → List UpstreamConfig × Bytes → List UpstreamConfig × Bytes
upstream_node directive args (upstreams, algorithm) =
    if eqb directive (codes "server")
    then (upstreams ++ server_line args, algorithm)
    else (if eqb directive (codes "least_conn")
        then (upstreams, codes "least_conn")
        else (if eqb directive (codes "ip_hash")
            then (upstreams, codes "round_robin")
            else (if eqb directive (codes "random")
                then (upstreams, codes "round_robin")
                else (upstreams, algorithm))))

unfoldable pub upstream_nodes : Nodes → List UpstreamConfig × Bytes → List UpstreamConfig × Bytes
upstream_nodes no_nodes s = s
upstream_nodes (more (node directive args block) nodes) s =
    upstream_nodes nodes (upstream_node directive args s)

unfoldable pub parse_upstream_block : Nodes → List UpstreamConfig × Bytes
unfolding upstream_nodes
parse_upstream_block nodes = upstream_nodes nodes ([], [])

-- The case `upstream` of `FromNginx`.
abbrev pub name_algorithm : Bytes → Bytes → List (Bytes × Bytes) → List (Bytes × Bytes)
name_algorithm name [] algorithms = algorithms
name_algorithm name (c ∷ algo) algorithms = (name, c ∷ algo) ∷ algorithms

abbrev pub add_group : List Bytes → Nodes → Groups → Groups
add_group [] block groups = groups
add_group (name ∷ args) block groups =
    let (upstreams, algo) = parse_upstream_block block in
    record {
      upstreams = (name, upstreams) ∷ groups.upstreams;
      algorithms = name_algorithm name algo groups.algorithms;
    }
