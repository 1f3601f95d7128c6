-- ===== src/Resolver/Address/Whole.antt =====
-- Whole addresses of profile/packages/resolver/src/address.mjs, `parseAddress` and `parseRelPath`, and
-- `resolveRel` and `isAccount` of iface.mjs.
use candid_core.Common.{
  ℕ, Bool, false, ◌||◌, List, [], ◌∷◌, ◌==◌, if◌then◌else◌, length, Option, none, some, text_eq,
  take, drop, get_elem?,
}
use candid_core.Format.Chars.{Text, codes}
use candid_core.Resolver.Graph.{primitive_code, Node, primitive, opt, vec, record_of, Iface, node}
use candid_core.Resolver.Service.{Entry, get_entry}
use candid_core.Resolver.Show.{blob_of}
use candid_core.Resolver.Walk.{
  Seg, Address, type_at, method_at, arg_at, result_at, Outcome, returns, throws, ◌>>=◌, Walked,
  reached, bad, WalkError, walk, method_key, Parent, find_field,
}
use candid_core.Resolver.Address.{idl_hash, match_ident, parse_path, match_index, line}

-- The end of both patterns: `(.*)$`.
abbrev to_end : Option (Text × Text) → Option (Text × Text)
to_end none = none
to_end (some (name, rest)) = if line rest then some (name, rest) else none

-- /^type:(IDENT)(.*)$/
unfoldable pub match_type : Text → Option (Text × Text)
match_type at =
    if text_eq (take 5 at) (codes "type:") then to_end (match_ident (drop 5 at)) else none

abbrev type_address : Text → Option (List Seg) → Option Address
type_address decl none = none
type_address decl (some segs) = some (type_at decl segs)

-- The index of an argument or of a result behind a method's name, if any, and the path.
pub data Index : Type 0 where
  no_index : Index
  arg_index result_index : ℕ → Index

abbrev result_or_none : Text → Option (ℕ × Text) → Index × Text
result_or_none rest none = (no_index, rest)
result_or_none rest (some (i, after)) = (result_index i, after)

abbrev arg_or_result : Text → Option (ℕ × Text) → Index × Text
arg_or_result rest (some (i, after)) = (arg_index i, after)
arg_or_result rest none =
    if text_eq (take 2 rest) (codes "->")
    then result_or_none rest (match_index (drop 2 rest))
    else (no_index, rest)

abbrev method_address : Text → Index → Option (List Seg) → Option Address
method_address method index none = none
method_address method (arg_index i) (some segs) = some (arg_at method i segs)
method_address method (result_index i) (some segs) = some (result_at method i segs)
method_address method no_index (some []) = some (method_at method)
method_address method no_index (some (s ∷ segs)) = none

abbrev indexed : Text → Index × Text → Option Address
indexed method p = method_address method p.0 (parse_path p.1)

abbrev by_method : Option (Text × Text) → Option Address
by_method none = none
by_method (some (method, rest)) = indexed method (arg_or_result rest (match_index rest))

abbrev by_type : Option (Text × Text) → Text → Option Address
by_type (some (decl, rest)) at = type_address decl (parse_path rest)
by_type none at = by_method (to_end (match_ident at))

unfoldable pub parse_address : Text → Option Address
unfolding match_type
parse_address at = by_type (match_type at) at

-- A path from a method's arguments or results; without an index where none is written.
pub record RelPath : Type 0 where
  pub index : Option ℕ
  pub segs : List Seg

abbrev rel_of : Option ℕ → Option (List Seg) → Option RelPath
rel_of index none = none
rel_of index (some segs) = some (record { index = index; segs = segs })

-- A path may leave out its first dot.
abbrev with_dot : Text → Text
with_dot [] = []
with_dot (c ∷ s) = if c == b'.' || c == b'[' then c ∷ s else b'.' ∷ c ∷ s

abbrev after_index : Text → Option (ℕ × Text) → Option RelPath
after_index rel none = rel_of none (parse_path (with_dot rel))
after_index rel (some (i, rest)) = rel_of (some i) (parse_path (with_dot rest))

-- A text with a line terminator has no match, and reading a group of it throws.
unfoldable pub parse_rel_path : Text → Outcome (Option RelPath)
parse_rel_path rel = if line rel then returns (after_index rel (match_index rel)) else throws

pub data RelError : Type 0 where
  bad_path index_missing index_range : RelError
  not_walked : WalkError → RelError

pub data RelResolved : Type 0 where
  rel_at : ℕ → Parent → Text → RelResolved
  rel_refused : RelError → RelResolved

pub data Side : Type 0 where
  args_side results_side : Side

abbrev tuple_of : Side → Entry → List ℕ
tuple_of args_side m = m.args
tuple_of results_side m = m.results

abbrev side_key : Side → Text
side_key args_side = codes "arg"
side_key results_side = codes "res"

module _ (fuel : ℕ) (iface : Iface) (method : Text) (side : Side) where
  abbrev walked_rel : Text → Walked → RelResolved
  walked_rel key (bad e) = rel_refused (not_walked e)
  walked_rel key (reached ref last) = rel_at ref last key

  abbrev rel_in : Option ℕ → ℕ → List Seg → Outcome RelResolved
  rel_in none i segs = returns (rel_refused index_range)
  rel_in (some ref) i segs = walk fuel iface ref segs >>= λ w.
      returns (walked_rel (method_key method (side_key side) i segs) w)

  abbrev rel_from : List ℕ → RelPath → Option ℕ → Outcome RelResolved
  rel_from tuple p (some i) = rel_in (get_elem? tuple i) i p.segs
  rel_from tuple p none =
      if length tuple == 1
      then rel_in (get_elem? tuple 0) 0 p.segs
      else returns (rel_refused index_missing)

  abbrev rel_entry : RelPath → Option Entry → Outcome RelResolved
  rel_entry p none = throws
  rel_entry p (some m) = rel_from (tuple_of side m) p p.index

  abbrev rel_path : List Entry → Option RelPath → Outcome RelResolved
  rel_path methods none = returns (rel_refused bad_path)
  rel_path methods (some p) = rel_entry p (get_entry methods method)

  unfoldable pub resolve_rel : List Entry → Text → Outcome RelResolved
  unfolding parse_rel_path walk
  resolve_rel methods rel = parse_rel_path rel >>= λ p. rel_path methods p

module _ (iface : Iface) where
  abbrev blob_in : Option Node → Outcome Bool
  blob_in none = throws
  blob_in (some (vec inner)) = blob_of (node iface inner)
  blob_in (some other) = returns false

  abbrev opt_blob : Option Node → Outcome Bool
  opt_blob none = throws
  opt_blob (some (opt inner)) = blob_in (node iface inner)
  opt_blob (some other) = returns false

  abbrev is_principal : Option Node → Outcome Bool
  is_principal none = throws
  is_principal (some (primitive p)) = returns (primitive_code p == 17)
  is_principal (some other) = returns false

  abbrev account_fields : Option ℕ → Option ℕ → Outcome Bool
  account_fields none sub = returns false
  account_fields (some owner) none = returns false
  account_fields (some owner) (some sub) = is_principal (node iface owner) >>= λ yes.
      if yes then opt_blob (node iface sub) else returns false

  abbrev account_node : Option Node → Outcome Bool
  account_node none = throws
  account_node (some (record_of fields)) =
      if length fields == 2
      then account_fields (find_field fields (idl_hash (codes "owner")))
          (find_field fields (idl_hash (codes "subaccount")))
      else returns false
  account_node (some other) = returns false

  -- `isAccount`: a record of an owner, a principal, and an optional blob.
  unfoldable pub is_account : ℕ → Outcome Bool
  is_account ref = account_node (node iface ref)
