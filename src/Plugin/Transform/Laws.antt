-- ===== src/Plugin/Transform/Laws.antt =====
-- What the transformers of internal/plugin/plugins change.
use mathlib.Core.Path.{subst}
use web_server.Prelude.{
  ◌≡◌, refl, sym, ap, ◌∙◌, Bool, true, false, ◌||◌, List, [], ◌∷◌, All, arith, if◌then◌else◌, ℕ,
  All-append,
}
use web_server.Text.{Bytes, eqb}
use web_server.Http.Header.{lookup-del, lookup-set, Header, canonical, lookup, get, set, del}
use web_server.Plugin.Transform.{
  Changes, remove_all, rename, rename_all, set_all, apply_changes, Sent, status, body,
  TransformWriter, new_transform_writer, transform_once, write_header, write,
}

-- Whether a name is removed, and the values that it is given, if any, else `def`.
abbrev pub removed : Bytes → List Bytes → Bool
removed j [] = false
removed j (k ∷ ks) = eqb (canonical k) j || removed j ks

abbrev pub given : Bytes → List (Bytes × Bytes) → List Bytes → List Bytes
given j [] def = def
given j ((k, v) ∷ kvs) def = given j kvs (if eqb (canonical k) j then v ∷ [] else def)

-- The name is neither an old nor a new one of these.
abbrev pub NotRenamed : Bytes → List (Bytes × Bytes) → Type 0
NotRenamed j names =
    All (λ n. (eqb (canonical n.0) j ≡ false) × (eqb (canonical n.1) j ≡ false)) names

lookup-remove_all :
    (ks : List Bytes) (j : Bytes) (h : Header)
    → lookup j (remove_all ks h) ≡ (if removed j ks then [] else lookup j h)
unfolding remove_all
lookup-remove_all [] j h = refl
lookup-remove_all (k ∷ ks) j h = ground (arith, lookup-remove_all ks j (del k h), lookup-del k j h)

lookup-set_all :
    (kvs : List (Bytes × Bytes)) (j : Bytes) (h : Header)
    → lookup j (set_all kvs h) ≡ given j kvs (lookup j h)
unfolding set_all
lookup-set_all [] j h = refl
lookup-set_all ((k, v) ∷ kvs) j h =
    lookup-set_all kvs j (set k v h) ∙ ap (given j kvs) (lookup-set k v j h)

lookup-rename :
    (old new val j : Bytes) (h : Header)
    → eqb (canonical old) j ≡ false
    → eqb (canonical new) j ≡ false
    → lookup j (rename old new val h) ≡ lookup j h
lookup-rename old new [] j h a b = refl
lookup-rename old new (c ∷ val) j h a b =
    ground (arith, lookup-del old j (set new (c ∷ val) h), lookup-set new (c ∷ val) j h)

lookup-rename_all :
    (names : List (Bytes × Bytes)) (j : Bytes) (h : Header)
    → NotRenamed j names
    → lookup j (rename_all names h) ≡ lookup j h
unfolding rename_all
lookup-rename_all [] j h n = refl
lookup-rename_all ((old, new) ∷ names) j h n =
    lookup-rename_all names j (rename old new (get old h) h) n.1
    ∙ lookup-rename old new (get old h) j h n.0.0 n.0.1

-- A name that is not renamed has the value that it is given, the last one if several are; without
-- one it has no values if it is removed, and otherwise the values that it had.
pub lookup-apply_changes :
    (c : Changes) (j : Bytes) (h : Header)
    → NotRenamed j c.rename_headers
    → lookup j (apply_changes c h)
      ≡ given j c.add_headers (if removed j c.remove_headers then [] else lookup j h)
unfolding apply_changes
lookup-apply_changes c j h n =
    lookup-set_all c.add_headers j (rename_all c.rename_headers (remove_all c.remove_headers h))
    ∙ ap (given j c.add_headers) (
        lookup-rename_all c.rename_headers j (remove_all c.remove_headers h) n
        ∙ lookup-remove_all c.remove_headers j h)

-- What a handler does with the writer of a response.
pub data Op : Type 0 where
  write_header_op : ℕ → Op
  write_op : Bytes → Op

abbrev pub step : Op → TransformWriter → TransformWriter
step (write_header_op s) t = write_header s t
step (write_op b) t = write b t

abbrev pub run : List Op → TransformWriter → TransformWriter
run [] t = t
run (op ∷ ops) t = run ops (step op t)

abbrev pub header_of : Sent → Header
header_of (status s h) = h
header_of (body b h) = h

record IsOnce (c : Changes) (h : Header) (t : TransformWriter) : Type 0 where
  changes : t.changes ≡ c
  current : t.header ≡ (if t.wrote_header then apply_changes c h else h)
  uniform : All (λ e. header_of e ≡ apply_changes c h) t.sent

transform_once_lem :
    (c : Changes) (h : Header) (t : TransformWriter)
    → IsOnce c h t
    → ((transform_once t).changes ≡ c)
      × ((transform_once t).wrote_header ≡ true)
      × ((transform_once t).header ≡ apply_changes c h)
      × ((transform_once t).sent ≡ t.sent)
transform_once_lem c h t o =
    (ground (arith, o.changes), ground arith, ground (arith, o.changes, o.current), ground arith)

step-IsOnce :
    (c : Changes) (h : Header) (op : Op) (t : TransformWriter)
    → IsOnce c h t
    → IsOnce c h (step op t)
unfolding write_header write
step-IsOnce c h (write_header_op s) t o =
    let (same, wrote, now, before) = transform_once_lem c h t o in
    record {
      changes = same;
      current = now ∙ ap (λ b. if b then apply_changes c h else h) (sym wrote);
      uniform =
          All-append (λ e. header_of e ≡ apply_changes c h) (transform_once t).sent _
            (subst (All (λ e. header_of e ≡ apply_changes c h)) (sym before) o.uniform) (now, tt);
    }
step-IsOnce c h (write_op b) t o =
    let (same, wrote, now, before) = transform_once_lem c h t o in
    record {
      changes = same;
      current = now ∙ ap (λ b. if b then apply_changes c h else h) (sym wrote);
      uniform =
          All-append (λ e. header_of e ≡ apply_changes c h) (transform_once t).sent _
            (subst (All (λ e. header_of e ≡ apply_changes c h)) (sym before) o.uniform) (now, tt);
    }

run-IsOnce :
    (c : Changes) (h : Header) (ops : List Op) (t : TransformWriter)
    → IsOnce c h t
    → IsOnce c h (run ops t)
run-IsOnce c h [] t o = o
run-IsOnce c h (op ∷ ops) t o = run-IsOnce c h ops (step op t) (step-IsOnce c h op t o)

-- Whatever a handler writes, statuses and pieces of the body in any order, all that is sent goes out
-- with the header changed, and changed once.
pub run-apply_changes :
    (c : Changes) (h : Header) (ops : List Op)
    → All (λ e. header_of e ≡ apply_changes c h) (run ops (new_transform_writer c h)).sent
run-apply_changes c h ops =
    (run-IsOnce c h ops (new_transform_writer c h)
      (record { changes = refl; current = refl; uniform = tt })).uniform
