-- ===== src/Resolver/Walk/Edges.antt =====
-- `walk` and `resolve` of profile/packages/resolver/src/iface.mjs follow the edges of the type graph, by ids.
use candid_core.Resolver.Service.{Entry, get_entry}
use candid_core.Format.Chars.{Text}
use candid_core.Resolver.Graph.{
  Iface, node, Node, vec, primitive, Field, opt, record_of, variant, func, service, class,
}
use candid_core.Common.{
  ℕ, Bool, false, List, [], ◌∷◌, ◌≡◌, refl, sym, ap, subst, Option, none, some, get_elem?,
}
use candid_core.Resolver.Walk.{
  walk, walk_from, Outcome, Seg, Iface, elem, Parent, returns, Walked, reached, throws, Text,
  unwrap_opt, field, no_parent, follow, endless, walk_step, walk_node, vec_edge, find_field,
  record_edge, variant_edge, resolve, Address, seg_key, join_keys, type_at, method_key, method_at,
  Declaration, Entry, arg_at, declared, result_at, type_result, get_declaration, tuple_at,
  tuple_result, arg_result, results_result,
}

-- An edge of the graph, from the container that the parent names to a type.
pub data Edge (iface : Iface) : Parent → ℕ → Type 0 where
  to_elem : (c inner : ℕ) → node iface c ≡ some (vec inner) → Edge iface (vec_edge c) inner
  to_field :
      (c id t : ℕ) (fs : List Field)
      → node iface c ≡ some (record_of fs)
      → find_field fs id ≡ some t
      → Edge iface (record_edge c id) t
  to_case :
      (c id t : ℕ) (fs : List Field)
      → node iface c ≡ some (variant fs)
      → find_field fs id ≡ some t
      → Edge iface (variant_edge c id) t

-- What `next` was called with.
abbrev Stepped : Iface → (ℕ → Parent → Outcome Walked) → ℕ → Parent → Type 0
Stepped iface next ref last =
    (t : ℕ) × (p : Parent) × Edge iface p t × (next t p ≡ returns (reached ref last))

module _ (iface : Iface) (next : ℕ → Parent → Outcome Walked) (cur ref : ℕ) (last : Parent) where
  followed :
      (found : Option ℕ) (p : Parent)
      → ((t : ℕ) → found ≡ some t → Edge iface p t)
      → follow found p next ≡ returns (reached ref last)
      → Stepped iface next ref last
  followed none p edge h = cc
  followed (some t) p edge h = (t, p, edge t refl, h)

  walk_node-Edge :
      (n : Option Node) (seg : Seg)
      → node iface cur ≡ n
      → walk_node n cur seg next ≡ returns (reached ref last)
      → Stepped iface next ref last
  walk_node-Edge none elem e h = cc
  walk_node-Edge none (field label id) e h = cc
  walk_node-Edge (some (vec inner)) elem e h = (inner, vec_edge cur, to_elem cur inner e, h)
  walk_node-Edge (some (primitive p)) elem e h = cc
  walk_node-Edge (some (opt a)) elem e h = cc
  walk_node-Edge (some (record_of fs)) elem e h = cc
  walk_node-Edge (some (variant fs)) elem e h = cc
  walk_node-Edge (some (func m a b)) elem e h = cc
  walk_node-Edge (some (service ms)) elem e h = cc
  walk_node-Edge (some (class a b)) elem e h = cc
  walk_node-Edge (some (record_of fs)) (field label id) e h =
      followed (find_field fs id) (record_edge cur id) (λ t f. to_field cur id t fs e f) h
  walk_node-Edge (some (variant fs)) (field label id) e h =
      followed (find_field fs id) (variant_edge cur id) (λ t f. to_case cur id t fs e f) h
  walk_node-Edge (some (primitive p)) (field label id) e h = cc
  walk_node-Edge (some (opt a)) (field label id) e h = cc
  walk_node-Edge (some (vec a)) (field label id) e h = cc
  walk_node-Edge (some (func m a b)) (field label id) e h = cc
  walk_node-Edge (some (service ms)) (field label id) e h = cc
  walk_node-Edge (some (class a b)) (field label id) e h = cc

  walk_step-Edge :
      (unwrapped : Outcome (ℕ × Bool)) (seg : Seg)
      → ((c : ℕ) (optional : Bool) → unwrapped ≡ returns (c, optional) → c ≡ cur)
      → walk_step iface unwrapped seg next ≡ returns (reached ref last)
      → Stepped iface next ref last
  walk_step-Edge throws seg k h = cc
  walk_step-Edge endless seg k h = cc
  walk_step-Edge (returns (c, optional)) seg k h =
      let here : c ≡ cur = k c optional refl in
      walk_node-Edge (node iface cur) seg refl
        (subst (λ x. walk_node (node iface x) x seg next ≡ returns (reached ref last)) here h)

abbrev unwrapped_ref : Outcome (ℕ × Bool) → ℕ
unwrapped_ref (returns (c, optional)) = c
unwrapped_ref throws = 0
unwrapped_ref endless = 0

one_step :
    (fuel : ℕ) (iface : Iface) (seg : Seg) (segs : List Seg) (cur ref : ℕ) (before last : Parent)
    → walk_from fuel iface (seg ∷ segs) cur before ≡ returns (reached ref last)
    → Stepped iface (walk_from fuel iface segs) ref last
unfolding walk_from
one_step fuel iface seg segs cur ref before last h =
    walk_step-Edge iface (walk_from fuel iface segs)
      (unwrapped_ref (unwrap_opt fuel iface cur false)) ref last (unwrap_opt fuel iface cur false)
      seg (λ c optional e. sym (ap unwrapped_ref e)) h

walk_from-Edge :
    (fuel : ℕ) (iface : Iface) (segs : List Seg) (cur ref : ℕ) (before last : Parent)
    → Edge iface before cur
    → walk_from fuel iface segs cur before ≡ returns (reached ref last)
    → Edge iface last ref
unfolding walk_from
walk_from-Edge fuel iface [] cur ref before last edge h =
    let there : cur ≡ ref = cc in
    let by : before ≡ last = cc in
    subst (λ p. Edge iface p ref) by (subst (λ r. Edge iface before r) there edge)
walk_from-Edge fuel iface (seg ∷ segs) cur ref before last edge h =
    let (t, p, e, rest) = one_step fuel iface seg segs cur ref before last h in
    walk_from-Edge fuel iface segs t ref p last e rest

-- A walk of at least one segment ends at an edge of the graph: the parent that it returns is a vec, a
-- record or a variant of the graph, and its element, field or case is the type that was reached.
pub walk-Edge :
    (fuel : ℕ) (iface : Iface) (start : ℕ) (seg : Seg) (segs : List Seg) (ref : ℕ) (last : Parent)
    → walk fuel iface start (seg ∷ segs) ≡ returns (reached ref last)
    → Edge iface last ref
unfolding walk
walk-Edge fuel iface start seg segs ref last h =
    let (t, p, e, rest) = one_step fuel iface seg segs start ref no_parent last h in
    walk_from-Edge fuel iface segs t ref p last e rest

-- The same steps, whatever the labels.
pub data SameSeg : Seg → Seg → Type 0 where
  elems : SameSeg elem elem
  fields : (l m : Text) (id : ℕ) → SameSeg (field l id) (field m id)

abbrev pub SameSegs : List Seg → List Seg → Type 0
SameSegs [] [] = Unit {0}
SameSegs [] (t ∷ ts) = ⊥
SameSegs (s ∷ ss) [] = ⊥
SameSegs (s ∷ ss) (t ∷ ts) = SameSeg s t × SameSegs ss ts

seg_key-eq : (s t : Seg) → SameSeg s t → seg_key s ≡ seg_key t
seg_key-eq elem elem elems = refl
seg_key-eq elem (field m _) h = elim h [ ]
seg_key-eq (field l id) elem h = elim h [ ]
seg_key-eq (field l id) (field m _) (fields _ _ _) = refl

join_keys-eq : (ss ts : List Seg) → SameSegs ss ts → join_keys ss ≡ join_keys ts
join_keys-eq [] [] h = refl
join_keys-eq [] (t ∷ ts) h = elim h [ ]
join_keys-eq (s ∷ ss) [] h = elim h [ ]
join_keys-eq (s ∷ []) (t ∷ []) h = seg_key-eq s t h.0
join_keys-eq (s ∷ []) (t ∷ u ∷ ts) h = elim h.1 [ ]
join_keys-eq (s ∷ r ∷ ss) (t ∷ []) h = elim h.1 [ ]
join_keys-eq (s ∷ r ∷ ss) (t ∷ u ∷ ts) h =
    rw (seg_key-eq s t h.0, join_keys-eq (r ∷ ss) (u ∷ ts) h.1) refl

walk_step-eq :
    (iface : Iface) (unwrapped : Outcome (ℕ × Bool)) (s t : Seg)
    (next after : ℕ → Parent → Outcome Walked)
    → SameSeg s t
    → next ≡ after
    → walk_step iface unwrapped s next ≡ walk_step iface unwrapped t after
walk_step-eq iface unwrapped s t next after elems e = ap (walk_step iface unwrapped elem) e
walk_step-eq iface unwrapped s t next after (fields l m id) e = rw e (by_label unwrapped)
  where
    by_node :
        (n : Option Node) (c : ℕ)
        → walk_node n c (field l id) after ≡ walk_node n c (field m id) after
    by_node none c = refl
    by_node (some (primitive p)) c = refl
    by_node (some (opt a)) c = refl
    by_node (some (vec a)) c = refl
    by_node (some (record_of fs)) c = refl
    by_node (some (variant fs)) c = refl
    by_node (some (func x a b)) c = refl
    by_node (some (service ms)) c = refl
    by_node (some (class a b)) c = refl

    by_label :
        (u : Outcome (ℕ × Bool))
        → walk_step iface u (field l id) after ≡ walk_step iface u (field m id) after
    by_label throws = refl
    by_label endless = refl
    by_label (returns (c, optional)) = by_node (node iface c) c

walk_from-eq :
    (fuel : ℕ) (iface : Iface) (ss ts : List Seg)
    → SameSegs ss ts
    → (cur : ℕ) (last : Parent)
    → walk_from fuel iface ss cur last ≡ walk_from fuel iface ts cur last
unfolding walk_from
walk_from-eq fuel iface [] [] h cur last = refl
walk_from-eq fuel iface [] (t ∷ ts) h cur last = elim h [ ]
walk_from-eq fuel iface (s ∷ ss) [] h cur last = elim h [ ]
walk_from-eq fuel iface (s ∷ ss) (t ∷ ts) h cur last =
    walk_step-eq iface (unwrap_opt fuel iface cur false) s t _ _ h.0
      (λ i c p. walk_from-eq fuel iface ss ts h.1 c p i)

-- Two addresses that differ in the labels of their segments alone.
pub data SameAddress : Address → Address → Type 0 where
  types :
      (decl : Text) (ss ts : List Seg)
      → SameSegs ss ts
      → SameAddress (type_at decl ss) (type_at decl ts)
  methods : (m : Text) → SameAddress (method_at m) (method_at m)
  args :
      (m : Text) (i : ℕ) (ss ts : List Seg)
      → SameSegs ss ts
      → SameAddress (arg_at m i ss) (arg_at m i ts)
  results :
      (m : Text) (i : ℕ) (ss ts : List Seg)
      → SameSegs ss ts
      → SameAddress (result_at m i ss) (result_at m i ts)

-- Addresses are compared by what they resolve to: a name and the number of its id are the same segment, and
-- give the same type, parent and key, or the same failure.
pub resolve_eq :
    (fuel : ℕ) (iface : Iface) (decls : List Declaration) (entries : List Entry) (a b : Address)
    → SameAddress a b
    → resolve fuel iface decls entries a ≡ resolve fuel iface decls entries b
unfolding resolve walk method_key
resolve_eq fuel iface decls entries a b (types decl ss ts h) = go (get_declaration decls decl)
  where
    go : (start : Option ℕ) → declared fuel iface start ss ≡ declared fuel iface start ts
    go none = refl
    go (some start) = ap (type_result fuel iface) (walk_from-eq fuel iface ss ts h start no_parent)
resolve_eq fuel iface decls entries a b (methods m) = refl
resolve_eq fuel iface decls entries a b (args m i ss ts h) = go (get_entry entries m)
  where
    at :
        (start : Option ℕ) (k : Text)
        → tuple_at fuel iface start k ss ≡ tuple_at fuel iface start k ts
    at none k = refl
    at (some start) k =
        ap (tuple_result fuel iface k) (walk_from-eq fuel iface ss ts h start no_parent)

    go : (e : Option Entry) → arg_result fuel iface m i ss e ≡ arg_result fuel iface m i ts e
    go none = refl
    go (some e) = rw (join_keys-eq ss ts h) (at (get_elem? e.args i) _)
resolve_eq fuel iface decls entries a b (results m i ss ts h) = go (get_entry entries m)
  where
    at :
        (start : Option ℕ) (k : Text)
        → tuple_at fuel iface start k ss ≡ tuple_at fuel iface start k ts
    at none k = refl
    at (some start) k =
        ap (tuple_result fuel iface k) (walk_from-eq fuel iface ss ts h start no_parent)

    go :
        (e : Option Entry) → results_result fuel iface m i ss e ≡ results_result fuel iface m i ts e
    go none = refl
    go (some e) = rw (join_keys-eq ss ts h) (at (get_elem? e.results i) _)
