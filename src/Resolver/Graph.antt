-- ===== src/Resolver/Graph.antt =====
-- The type graph of profile/packages/resolver/src/iface.mjs: the nodes of a Contract, the references
-- between them, and the lookups that the subtype checker and the addresses use.
use candid_core.Common.{
  ℕ, zero, suc, ◌==◌, Bool, true, false, ◌||◌, List, [], ◌∷◌, Option, none, some,
}
use candid_core.Format.Chars.{Text}
use candid_core.Format.Decimal.{nat_to_string}

pub data Primitive : Type 0 where
  null bool nat nat8 nat16 nat32 nat64 int int8 int16 int32 int64 : Primitive
  float32 float64 text reserved empty principal : Primitive

abbrev pub primitive_code : Primitive → ℕ
primitive_code null = 0
primitive_code bool = 1
primitive_code nat = 2
primitive_code nat8 = 3
primitive_code nat16 = 4
primitive_code nat32 = 5
primitive_code nat64 = 6
primitive_code int = 7
primitive_code int8 = 8
primitive_code int16 = 9
primitive_code int32 = 10
primitive_code int64 = 11
primitive_code float32 = 12
primitive_code float64 = 13
primitive_code text = 14
primitive_code reserved = 15
primitive_code empty = 16
primitive_code principal = 17

pub data FuncMode : Type 0 where
  update query composite_query oneway : FuncMode

-- A field of a record or a variant: its id, and a reference to its type.
pub record Field : Type 0 where
  pub id : ℕ
  pub type : ℕ

-- A method of a service: its name, and a reference to its function type.
pub record Method : Type 0 where
  pub name : Text
  pub function : ℕ

pub data Node : Type 0 where
  primitive : Primitive → Node
  opt vec : ℕ → Node
  record_of variant : List Field → Node
  func : FuncMode → List ℕ → List ℕ → Node
  service : List Method → Node
  class : List ℕ → ℕ → Node

-- The two tables of an interface that the checker reads: its nodes, and the names of its fields.
pub record Iface : Type 0 where
  pub types : List Node
  pub names : ℕ → ℕ → Option Text

-- `types[ref]`; none is `undefined`.
unfoldable pub node_at : List Node → ℕ → Option Node
node_at [] ref = none
node_at (n ∷ ns) zero = some n
node_at (n ∷ ns) (suc ref) = node_at ns ref

abbrev pub node : Iface → ℕ → Option Node
node iface ref = node_at iface.types ref

abbrev name_or : Option Text → ℕ → Text
name_or none id = b'#' ∷ nat_to_string id
name_or (some name) id = name

unfoldable pub field_name : Iface → ℕ → ℕ → Text
field_name iface container id = name_or (iface.names container id) id

abbrev null_like : Node → Bool
null_like (opt inner) = true
null_like (primitive p) = primitive_code p == 0 || primitive_code p == 15
null_like _ = false

abbrev null_like_node : Option Node → Option Bool
null_like_node none = none
null_like_node (some n) = some (null_like n)

-- `isNullLike` of subtype.mjs; none where the reference leaves the table, which throws.
unfoldable pub is_null_like : Iface → ℕ → Option Bool
is_null_like iface ref = null_like_node (node iface ref)
