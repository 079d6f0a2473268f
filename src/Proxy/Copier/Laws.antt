-- ===== src/Proxy/Copier/Laws.antt =====
-- Which headers of a response reach the client.
use mathlib.Core.List.{append_assoc, append-nil}
use web_server.Prelude.{
  ◌≡◌, refl, sym, ap, ◌∙◌, Bool, true, false, Bool-cases, inl, inr, if◌then◌else◌, ◌&&◌, List, [],
  ◌∷◌, ◌++◌, arith,
}
use web_server.Text.{Bytes, codes, eqb, eq_of_eqb}
use web_server.Http.Header.{
  lookup-add, Header, canonical, values, lookup, add, delete, del, lookup-delete,
}
use web_server.Http.Message.{Response}
use web_server.Proxy.Headers.{
  split_header_tokens, del_all, del_tokens, hop_by_hop_headers, remove_hop_by_hop_headers,
}
use web_server.Proxy.Headers.Laws.{listed, lookup-remove_hop_by_hop}
use web_server.Proxy.Copier.{
  add_values, copy_headers, declare_trailers, headers_of, Output, head, body, flushed,
  ResponseWriter, finish_response, flush, write_response,
}

-- The names are canonical, as in each header that the package net/http reads, and occur once.
abbrev pub IsMap : Header → Type 0
IsMap [] = Unit
IsMap ((k, vs) ∷ h) = (canonical k ≡ k) × ((lookup k h ≡ []) × IsMap h)

lookup-add_values :
    (k : Bytes) (vs : List Bytes) (j : Bytes) (h : Header)
    → lookup j (add_values k vs h) ≡ lookup j h ++ (if eqb (canonical k) j then vs else [])
unfolding add_values
lookup-add_values k [] j h = elim (Bool-cases (eqb (canonical k) j)) [
  | inl e ↦ rw e (sym (append-nil (lookup j h)))
  | inr e ↦ rw e (sym (append-nil (lookup j h)))
]
lookup-add_values k (v ∷ vs) j h =
    lookup-add_values k vs j (add k v h)
    ∙ ap (λ l. l ++ (if eqb (canonical k) j then vs else [])) (lookup-add k v j h)
    ∙ append_assoc (lookup j h) (if eqb (canonical k) j then v ∷ [] else [])
        (if eqb (canonical k) j then vs else [])
    ∙ ap (◌++◌ (lookup j h))
        (elim (Bool-cases (eqb (canonical k) j)) [ inl e ↦ rw e refl | inr e ↦ rw e refl ])

lookup-copy_headers :
    (src : Header) (j : Bytes) (dst : Header)
    → IsMap src
    → lookup j (copy_headers src dst) ≡ lookup j dst ++ lookup j src
unfolding copy_headers lookup
lookup-copy_headers [] j dst m = sym (append-nil (lookup j dst))
lookup-copy_headers ((k, vs) ∷ src) j dst m =
    lookup-copy_headers src j (add_values k vs dst) m.1.1
    ∙ ap (λ l. l ++ lookup j src) (lookup-add_values k vs j dst)
    ∙ append_assoc (lookup j dst) (if eqb (canonical k) j then vs else []) (lookup j src)
    ∙ ap (◌++◌ (lookup j dst)) (
        ap (λ i. (if eqb i j then vs else []) ++ lookup j src) m.0 ∙ elim (Bool-cases (eqb k j)) [
          | inl e ↦
              let same : k ≡ j = eq_of_eqb k j e in
              let gone : lookup j src ≡ [] = ap (λ i. lookup i src) (sym same) ∙ m.1.0 in
              rw e (ap (◌++◌ vs) gone ∙ append-nil vs)
          | inr e ↦ rw e refl
        ])

lookup-declare_trailers :
    (trailers : Header) (j : Bytes) (dst : Header)
    → eqb (canonical (codes "Trailer")) j ≡ false
    → lookup j (declare_trailers trailers dst) ≡ lookup j dst
unfolding declare_trailers
lookup-declare_trailers [] j dst e = refl
lookup-declare_trailers ((key, vs) ∷ trailers) j dst e =
    lookup-declare_trailers trailers j (add (codes "Trailer") key dst) e
    ∙ lookup-add (codes "Trailer") key j dst
    ∙ ap (λ (b : Bool). lookup j dst ++ (if b then key ∷ [] else [])) e
    ∙ append-nil (lookup j dst)

delete-IsMap : (k : Bytes) (h : Header) → IsMap h → IsMap (delete k h)
unfolding delete
delete-IsMap k [] m = tt
delete-IsMap k ((j, vs) ∷ h) m = elim (Bool-cases (eqb j k)) [
  | inl e ↦ rw e (delete-IsMap k h m.1.1)
  | inr e ↦
      let gone : lookup j (delete k h) ≡ [] = lookup-delete k j h ∙ ground (arith, m.1.0) in
      rw e (m.0, (gone, delete-IsMap k h m.1.1))
]

del_all-IsMap : (ks : List Bytes) (h : Header) → IsMap h → IsMap (del_all ks h)
unfolding del
del_all-IsMap [] h m = m
del_all-IsMap (k ∷ ks) h m = del_all-IsMap ks (del k h) (delete-IsMap (canonical k) h m)

del_tokens-IsMap : (vs : List Bytes) (h : Header) → IsMap h → IsMap (del_tokens vs h)
del_tokens-IsMap [] h m = m
del_tokens-IsMap (v ∷ vs) h m =
    del_tokens-IsMap vs (del_all (split_header_tokens v) h)
      (del_all-IsMap (split_header_tokens v) h m)

remove_hop_by_hop-IsMap : (h : Header) → IsMap h → IsMap (remove_hop_by_hop_headers h)
unfolding remove_hop_by_hop_headers
remove_hop_by_hop-IsMap h m =
    let h' = del_all hop_by_hop_headers h in
    del_tokens-IsMap (values (codes "Connection") h') h' (del_all-IsMap hop_by_hop_headers h m)

-- The values of a name that has been copied, but for the trailers' declaration.
pub lookup-headers_of :
    (resp : Response) (j : Bytes) (header : Header)
    → IsMap resp.header
    → eqb (canonical (codes "Trailer")) j ≡ false
    → lookup j (headers_of resp header)
      ≡ lookup j header ++ (if listed j hop_by_hop_headers then [] else lookup j resp.header)
lookup-headers_of resp j header m e =
    let kept = remove_hop_by_hop_headers resp.header in
    lookup-declare_trailers resp.trailer j (copy_headers kept header) e
    ∙ lookup-copy_headers kept j header (remove_hop_by_hop-IsMap resp.header m)
    ∙ ap (◌++◌ (lookup j header)) (lookup-remove_hop_by_hop resp.header j)

finish_response-output :
    (trailer : Header) (ok : Bool) (w : ResponseWriter)
    → (finish_response trailer ok w).0.output
      ≡ w.output ++ (if ok && w.can_flush then flushed ∷ [] else [])
finish_response-output trailer false w = sym (append-nil w.output)
finish_response-output trailer true w = elim (Bool-cases w.can_flush) [
  | inl e ↦ rw e refl
  | inr e ↦ rw e (sym (append-nil w.output))
]

flush-header : (w : ResponseWriter) → (flush w).header ≡ w.header
flush-header w = elim (Bool-cases w.can_flush) [ inl e ↦ rw e refl | inr e ↦ rw e refl ]

finish_response-header :
    (trailer : Header) (ok : Bool) (w : ResponseWriter) (j : Bytes)
    → IsMap trailer
    → lookup j (finish_response trailer ok w).0.header
      ≡ lookup j w.header ++ (if ok then lookup j trailer else [])
finish_response-header trailer false w j m = sym (append-nil (lookup j w.header))
finish_response-header trailer true w j m =
    ap (lookup j) (flush-header (record w { header = copy_headers trailer w.header }))
    ∙ lookup-copy_headers trailer j w.header m

module _ (copy : Bytes → Bytes × Bool) (resp : Response) (w : ResponseWriter) where
  -- Behind the head and the body.
  abbrev pub ending : List Output
  ending = if (copy resp.body).1 && w.can_flush then flushed ∷ [] else []

  -- What is put out, in its order.
  pub write_response-output :
      (write_response copy resp w).0.output
      ≡ w.output
        ++ head resp.status_code (headers_of resp w.header) ∷ body (copy resp.body).0 ∷ ending
  unfolding write_response
  write_response-output =
      let h = headers_of resp w.header in
      let out = head resp.status_code h ∷ body (copy resp.body).0 ∷ [] in
      finish_response-output resp.trailer (copy resp.body).1
        (record w { header = h; output = w.output ++ out })
      ∙ append_assoc w.output out ending

  -- The header behind the body: with the trailers, if all of the body was written.
  abbrev pub trailers : Bytes → List Bytes
  trailers j = if (copy resp.body).1 then lookup j resp.trailer else []

  -- The client receives the status, the body as far as it could be written, and of each name but
  -- Trailer the values that the writer had, and then those of the response, unless the name is
  -- one of the hop-by-hop table; the values of the trailers come after the body, if all of it was
  -- written; the names of the response's header and trailer are canonical and occur once.
  pub write_response-lookup :
      (j : Bytes)
      → IsMap resp.header
      → IsMap resp.trailer
      → eqb (canonical (codes "Trailer")) j ≡ false
      → (h : Header) × ((write_response copy resp w).0.output
          ≡ w.output ++ head resp.status_code h ∷ body (copy resp.body).0 ∷ ending)
        × (lookup j h
            ≡ lookup j w.header
              ++ (if listed j hop_by_hop_headers then [] else lookup j resp.header))
        × (lookup j (write_response copy resp w).0.header ≡ lookup j h ++ trailers j)
  unfolding write_response
  write_response-lookup j m t e =
      let sent = record w {
        header = headers_of resp w.header;
        output =
            w.output
            ++ head resp.status_code (headers_of resp w.header) ∷ body (copy resp.body).0 ∷ [];
      } in
      (
        headers_of resp w.header,
        write_response-output,
        lookup-headers_of resp j w.header m e,
        finish_response-header resp.trailer (copy resp.body).1 sent j t,
      )
