-- ===== src/Resolver/Walk.antt =====
-- Lookups of profile/packages/resolver/src/iface.mjs that follow references: `unwrapOpt`, `walk` and
-- `resolve`, with the keys of address.mjs.
pub mod Edges
pub mod Loops
use mathlib.Core.Option.{none-ne-some, some-injective}
use candid_core.Common.{
  ℕ, zero, suc, ◌+◌, ◌-◌, ◌*◌, ◌/◌, ◌%◌, ◌^◌, ◌≤◌, ◌<◌, Bool, true, false, not, ◌&&◌, ◌||◌, List,
  [], ◌∷◌, ◌++◌, ◌≡◌, ◌≢◌, refl, sym, ap, ◌∙◌, subst, ◌↔◌, ◌⊎◌, inl, inr, arith, ltb, leb, ◌==◌,
  ==_iff, if◌then◌else◌, length, all, All, All-map, All-append, Option, none, some, Bool-cases,
  Option-cases, take, text_eq, get_elem?,
}
use candid_core.Format.Chars.{Text, codes}
use candid_core.Format.Decimal.{nat_to_string}
use candid_core.Resolver.Graph.{
  Primitive, primitive_code, Field, Node, primitive, opt, vec, record_of, variant, func, service,
  class, Iface, node,
}
use candid_core.Resolver.Service.{Entry, get_entry}

-- What a function that may loop or throw does.
pub data Outcome (A : Type 0) : Type 0 where
  returns : A → Outcome A
  throws endless : Outcome A

infixl 5 ◌>>=◌
abbrev pub ◌>>=◌ : {A B : Type 0} (step : Outcome A) (rest : A → Outcome B) → Outcome B
returns a >>= rest = rest a
throws >>= rest = throws
endless >>= rest = endless

-- `unwrapOpt`: a round of the loop for each unit of fuel.
abbrev unwrap_node : Option Node → ℕ → Bool → (ℕ → Bool → Outcome (ℕ × Bool)) → Outcome (ℕ × Bool)
unwrap_node none ref optional next = throws
unwrap_node (some (opt inner)) ref optional next = next inner true
unwrap_node (some other) ref optional next = returns (ref, optional)

unfoldable pub unwrap_opt : ℕ → Iface → ℕ → Bool → Outcome (ℕ × Bool)
unwrap_opt zero iface ref optional = endless
unwrap_opt (suc fuel) iface ref optional =
    unwrap_node (node iface ref) ref optional (unwrap_opt fuel iface)

-- A segment of a path: `[]`, or a label with its id.
pub data Seg : Type 0 where
  elem : Seg
  field : Text → ℕ → Seg

-- The edge that was followed last.
pub data Parent : Type 0 where
  no_parent : Parent
  vec_edge : ℕ → Parent
  record_edge variant_edge : ℕ → ℕ → Parent

pub data WalkError : Type 0 where
  not_vec not_fields no_field no_declaration no_method pathless bad_index : WalkError

pub data Walked : Type 0 where
  reached : ℕ → Parent → Walked
  bad : WalkError → Walked

-- `n.fields.find((x) => x.id === id)`
unfoldable pub find_field : List Field → ℕ → Option ℕ
find_field [] id = none
find_field (f ∷ fs) id = if f.id == id then some f.type else find_field fs id

abbrev follow : Option ℕ → Parent → (ℕ → Parent → Outcome Walked) → Outcome Walked
follow none last next = returns (bad no_field)
follow (some type) last next = next type last

-- One segment from the node `cur`, and what follows.
abbrev pub walk_node : Option Node → ℕ → Seg → (ℕ → Parent → Outcome Walked) → Outcome Walked
walk_node none cur seg next = throws
walk_node (some (vec inner)) cur elem next = next inner (vec_edge cur)
walk_node (some other) cur elem next = returns (bad not_vec)
walk_node (some (record_of fields)) cur (field label id) next =
    follow (find_field fields id) (record_edge cur id) next
walk_node (some (variant fields)) cur (field label id) next =
    follow (find_field fields id) (variant_edge cur id) next
walk_node (some other) cur (field label id) next = returns (bad not_fields)

abbrev walk_step : Iface → Outcome (ℕ × Bool) → Seg → (ℕ → Parent → Outcome Walked) → Outcome Walked
walk_step iface throws seg next = throws
walk_step iface endless seg next = endless
walk_step iface (returns (cur, optional)) seg next = walk_node (node iface cur) cur seg next

unfoldable pub walk_from : ℕ → Iface → List Seg → ℕ → Parent → Outcome Walked
walk_from fuel iface [] cur last = returns (reached cur last)
walk_from fuel iface (seg ∷ segs) cur last =
    walk_step iface (unwrap_opt fuel iface cur false) seg (walk_from fuel iface segs)

unfoldable pub walk : ℕ → Iface → ℕ → List Seg → Outcome Walked
unfolding walk_from
walk fuel iface start segs = walk_from fuel iface segs start no_parent

abbrev pub seg_key : Seg → Text
seg_key elem = codes "[]"
seg_key (field label id) = nat_to_string id

abbrev join_keys : List Seg → Text
join_keys [] = []
join_keys (s ∷ []) = seg_key s
join_keys (s ∷ t ∷ segs) = seg_key s ++ (b'/' ∷ join_keys (t ∷ segs))

unfoldable pub method_key : Text → Text → ℕ → List Seg → Text
method_key method side position segs =
    codes "m:"
    ++ (method ++ (b'|' ∷ (side ++ (b'|' ∷ (nat_to_string position ++ (b'|' ∷ join_keys segs))))))

abbrev pub node_key : ℕ → Text
node_key ref = codes "n:" ++ nat_to_string ref

abbrev edge : ℕ → Text → Text
edge container last = codes "e:" ++ (nat_to_string container ++ (b':' ∷ last))

-- `r.parent ? edgeKey(r.parent) : n:<the unwrapped node>`
unfoldable pub edge_key : Parent → ℕ → Text
edge_key no_parent ref = node_key ref
edge_key (vec_edge container) ref = edge container (codes "[]")
edge_key (record_edge container id) ref = edge container (nat_to_string id)
edge_key (variant_edge container id) ref = edge container (nat_to_string id)

pub data Address : Type 0 where
  type_at : Text → List Seg → Address
  method_at : Text → Address
  arg_at result_at : Text → ℕ → List Seg → Address

pub data Resolved : Type 0 where
  at_type : ℕ → Parent → Text → Resolved
  at_method : Entry → Text → Resolved
  unresolved : WalkError → Resolved

-- `contract.declarations`, by name; the last of a name counts.
pub record Declaration : Type 0 where
  pub name : Text
  pub type : ℕ

abbrev pub later_or : Option ℕ → Bool → ℕ → Option ℕ
later_or (some later) here type = some later
later_or none here type = if here then some type else none

unfoldable pub get_declaration : List Declaration → Text → Option ℕ
get_declaration [] name = none
get_declaration (d ∷ ds) name = later_or (get_declaration ds name) (text_eq d.name name) d.type

abbrev pub is_fields : Option Node → Bool
is_fields (some (record_of fields)) = true
is_fields (some (variant fields)) = true
is_fields _ = false

module _ (fuel : ℕ) (iface : Iface) where
  -- A whole declaration has to be a record or a variant.
  abbrev whole : ℕ → Outcome (ℕ × Bool) → Outcome Resolved
  whole ref throws = throws
  whole ref endless = endless
  whole ref (returns (cur, optional)) = returns (
      if is_fields (node iface cur)
      then at_type ref no_parent (node_key cur)
      else unresolved pathless)

  abbrev type_result : Outcome Walked → Outcome Resolved
  type_result throws = throws
  type_result endless = endless
  type_result (returns (bad e)) = returns (unresolved e)
  type_result (returns (reached ref no_parent)) = whole ref (unwrap_opt fuel iface ref false)
  type_result (returns (reached ref (vec_edge c))) =
      returns (at_type ref (vec_edge c) (edge_key (vec_edge c) ref))
  type_result (returns (reached ref (record_edge c id))) =
      returns (at_type ref (record_edge c id) (edge_key (record_edge c id) ref))
  type_result (returns (reached ref (variant_edge c id))) =
      returns (at_type ref (variant_edge c id) (edge_key (variant_edge c id) ref))

  abbrev tuple_result : Text → Outcome Walked → Outcome Resolved
  tuple_result key throws = throws
  tuple_result key endless = endless
  tuple_result key (returns (bad e)) = returns (unresolved e)
  tuple_result key (returns (reached ref last)) = returns (at_type ref last key)

  abbrev tuple_at : Option ℕ → Text → List Seg → Outcome Resolved
  tuple_at none key segs = returns (unresolved bad_index)
  tuple_at (some start) key segs = tuple_result key (walk fuel iface start segs)

  abbrev declared : Option ℕ → List Seg → Outcome Resolved
  declared none segs = returns (unresolved no_declaration)
  declared (some start) segs = type_result (walk fuel iface start segs)

  abbrev method_result : Text → Option Entry → Outcome Resolved
  method_result method none = returns (unresolved no_method)
  method_result method (some m) = returns (at_method m (codes "m:" ++ method))

  abbrev arg_result : Text → ℕ → List Seg → Option Entry → Outcome Resolved
  arg_result method i segs none = returns (unresolved no_method)
  arg_result method i segs (some m) =
      tuple_at (get_elem? m.args i) (method_key method (codes "arg") i segs) segs

  abbrev results_result : Text → ℕ → List Seg → Option Entry → Outcome Resolved
  results_result method i segs none = returns (unresolved no_method)
  results_result method i segs (some m) =
      tuple_at (get_elem? m.results i) (method_key method (codes "res") i segs) segs

  -- `resolve(addr)`
  unfoldable pub resolve : List Declaration → List Entry → Address → Outcome Resolved
  unfolding walk
  resolve decls methods (type_at decl segs) = declared (get_declaration decls decl) segs
  resolve decls methods (method_at method) = method_result method (get_entry methods method)
  resolve decls methods (arg_at method i segs) = arg_result method i segs (get_entry methods method)
  resolve decls methods (result_at method i segs) =
      results_result method i segs (get_entry methods method)
