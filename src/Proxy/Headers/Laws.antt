-- ===== src/Proxy/Headers/Laws.antt =====
-- What is left of a header when the hop-by-hop headers are removed.
use web_server.Prelude.{
  ◌≡◌, refl, ap, ◌∙◌, Bool, true, false, ◌||◌, List, [], ◌∷◌, arith, if◌then◌else◌,
}
use web_server.Text.{Bytes, codes, eqb}
use web_server.Http.Header.{Header, canonical, lookup, values, del, lookup-delete}
use web_server.Proxy.Headers.{hop_by_hop_headers, del_all, del_tokens, remove_hop_by_hop_headers}

abbrev pub listed : Bytes → List Bytes → Bool
listed k [] = false
listed k (j ∷ js) = eqb (canonical j) k || listed k js

lookup-del_all :
    (ks : List Bytes) (k : Bytes) (h : Header)
    → lookup k (del_all ks h) ≡ (if listed k ks then [] else lookup k h)
unfolding del
lookup-del_all [] k h = refl
lookup-del_all (j ∷ js) k h =
    lookup-del_all js k (del j h) ∙ ground (arith, lookup-delete (canonical j) k h)

-- The hop-by-hop names are canonical as they are written.
connection_listed : listed (canonical (codes "Connection")) hop_by_hop_headers ≡ true
unfolding canonical eqb
connection_listed = refl

-- After `removeHopByHopHeaders` the names of the table have no values, and every other name has
-- the values that it had, also a name that the header's Connection field lists.
pub lookup-remove_hop_by_hop :
    (h : Header) (k : Bytes)
    → lookup k (remove_hop_by_hop_headers h)
      ≡ (if listed k hop_by_hop_headers then [] else lookup k h)
unfolding remove_hop_by_hop_headers values
lookup-remove_hop_by_hop h k =
    let h' : Header = del_all hop_by_hop_headers h in
    let connection = canonical (codes "Connection") in
    let none_left : values (codes "Connection") h' ≡ [] =
      lookup-del_all hop_by_hop_headers connection h
      ∙ ap (λ (b : Bool). if b then [] else lookup connection h) connection_listed in
    ap (λ vs. lookup k (del_tokens vs h')) none_left ∙ lookup-del_all hop_by_hop_headers k h
