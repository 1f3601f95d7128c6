-- ===== src/Resolver/Show.antt =====
-- `show` of profile/packages/resolver/src/subtype.mjs, the rendering of a type in the checker's messages, and
-- `isBlob` of iface.mjs.
pub mod Ends
use candid_core.Resolver.Subtype.{is_primitive}
use mathlib.Core.Option.{none-ne-some, some-injective}
use candid_core.Common.{
  ℕ, zero, suc, ◌+◌, ◌-◌, ◌*◌, ◌/◌, ◌%◌, ◌^◌, ◌≤◌, ◌<◌, Bool, true, false, not, ◌&&◌, ◌||◌, List,
  [], ◌∷◌, ◌++◌, ◌≡◌, ◌≢◌, refl, sym, ap, ◌∙◌, subst, ◌↔◌, ◌⊎◌, inl, inr, arith, ltb, leb, ◌==◌,
  ==_iff, if◌then◌else◌, length, all, All, All-map, All-append, Option, none, some, Bool-cases,
  Option-cases, take,
}
use candid_core.Format.Chars.{Text, codes}
use candid_core.Resolver.Graph.{
  Primitive, primitive_code, Field, Node, FuncMode, update, query, composite_query, oneway,
  primitive, opt, vec, record_of, variant, func, service, class, Iface, node, field_name, null,
  bool, nat, nat8, nat16, nat32, nat64, int, int8, int16, int32, int64, float32, float64, text,
  reserved, empty, principal,
}
use candid_core.Resolver.Walk.{Outcome, returns, throws, endless, ◌>>=◌}

abbrev pub primitive_name : Primitive → Text
primitive_name null = codes "null"
primitive_name bool = codes "bool"
primitive_name nat = codes "nat"
primitive_name nat8 = codes "nat8"
primitive_name nat16 = codes "nat16"
primitive_name nat32 = codes "nat32"
primitive_name nat64 = codes "nat64"
primitive_name int = codes "int"
primitive_name int8 = codes "int8"
primitive_name int16 = codes "int16"
primitive_name int32 = codes "int32"
primitive_name int64 = codes "int64"
primitive_name float32 = codes "float32"
primitive_name float64 = codes "float64"
primitive_name text = codes "text"
primitive_name reserved = codes "reserved"
primitive_name empty = codes "empty"
primitive_name principal = codes "principal"

abbrev pub mode_name : FuncMode → Text
mode_name update = codes "update"
mode_name query = codes "query"
mode_name composite_query = codes "composite_query"
mode_name oneway = codes "oneway"

-- Is the element type nat8? Another reference out of the table throws.
abbrev pub blob_of : Option Node → Outcome Bool
blob_of none = throws
blob_of (some (primitive p)) = returns (primitive_code p == 3)
blob_of (some other) = returns false

-- A call of `show` inside it.
abbrev pub Call : Type 0
Call = ℕ → ℕ → List ℕ → Outcome Text

abbrev seen_before : List ℕ → ℕ → Bool
seen_before [] ref = false
seen_before (s ∷ ss) ref = s == ref || seen_before ss ref

abbrev prefixed : Text → Outcome Text → Outcome Text
prefixed word (returns s) = returns (word ++ s)
prefixed word throws = throws
prefixed word endless = endless

-- parts.join(…), each part shown in turn.
unfoldable pub joined : Text → List (Outcome Text) → Outcome Text
joined mark [] = returns []
joined mark (p ∷ []) = p
joined mark (p ∷ q ∷ ps) = do s ← p; t ← joined mark (q ∷ ps); returns (s ++ (mark ++ t))

-- A case of a variant without a value shows its label alone.
abbrev show_case : Text → Option Node → Outcome Text → Outcome Text
show_case label none shown = throws
show_case label (some n) shown =
    if is_primitive 0 n then returns label else prefixed (label ++ codes " : ") shown

module _ (iface : Iface) (call : Call) where
  unfoldable pub record_shown : ℕ → ℕ → List ℕ → List Field → List (Outcome Text)
  record_shown ref depth seen [] = []
  record_shown ref depth seen (f ∷ fs) =
      prefixed (field_name iface ref f.id ++ codes " : ") (call f.type depth seen)
      ∷ record_shown ref depth seen fs

  unfoldable pub variant_shown : ℕ → ℕ → List ℕ → List Field → List (Outcome Text)
  variant_shown ref depth seen [] = []
  variant_shown ref depth seen (f ∷ fs) =
      show_case (field_name iface ref f.id) (node iface f.type) (call f.type depth seen)
      ∷ variant_shown ref depth seen fs

  unfoldable pub types_shown : ℕ → List ℕ → List ℕ → List (Outcome Text)
  types_shown depth seen [] = []
  types_shown depth seen (r ∷ rs) = call r depth seen ∷ types_shown depth seen rs

  abbrev more : List Field → Text
  more fields = if ltb 4 (length fields) then codes "; ..." else []

  abbrev braces : Text → List Field → Outcome Text → Outcome Text
  braces word fields (returns s) =
      returns (word ++ (codes " { " ++ (s ++ (more fields ++ codes " }"))))
  braces word fields throws = throws
  braces word fields endless = endless

  abbrev arrow_shown : FuncMode → Outcome Text → Outcome Text → Outcome Text
  arrow_shown mode args results = do
    a ← args
    r ← results
    returns (codes "func (" ++ (a ++ (codes ") -> (" ++ (r ++ (codes ") " ++ mode_name mode)))))

  -- What the depth and the nodes on the way leave to show: the kind alone, or the parts.
  abbrev pub open_node : Node → ℕ → ℕ → List ℕ → Outcome Text
  open_node (record_of fields) ref zero seen = returns (codes "record")
  open_node (record_of fields) ref (suc depth) seen =
      if seen_before seen ref
      then returns (codes "record")
      else braces (codes "record") fields
          (joined (codes "; ") (record_shown ref depth (ref ∷ seen) (take 4 fields)))
  open_node (variant fields) ref zero seen = returns (codes "variant")
  open_node (variant fields) ref (suc depth) seen =
      if seen_before seen ref
      then returns (codes "variant")
      else braces (codes "variant") fields
          (joined (codes "; ") (variant_shown ref depth (ref ∷ seen) (take 4 fields)))
  open_node (func mode args results) ref zero seen = returns (codes "func")
  open_node (func mode args results) ref (suc depth) seen =
      if seen_before seen ref
      then returns (codes "func")
      else arrow_shown mode (joined (codes ", ") (types_shown depth (ref ∷ seen) args))
          (joined (codes ", ") (types_shown depth (ref ∷ seen) results))
  open_node (service methods) ref depth seen = returns (codes "service")
  open_node (class init actor) ref depth seen = returns (codes "class")
  open_node (primitive p) ref depth seen = returns (primitive_name p)
  open_node (opt inner) ref depth seen = prefixed (codes "opt ") (call inner depth seen)
  open_node (vec inner) ref depth seen = prefixed (codes "vec ") (call inner depth seen)

  abbrev blob_or : Outcome Bool → Outcome Text → Outcome Text
  blob_or throws shown = throws
  blob_or endless shown = endless
  blob_or (returns true) shown = returns (codes "blob")
  blob_or (returns false) shown = shown

  unfoldable pub show_node : Option Node → ℕ → ℕ → List ℕ → Outcome Text
  unfolding joined record_shown variant_shown types_shown
  show_node none ref depth seen = throws
  show_node (some (vec inner)) ref depth seen =
      blob_or (blob_of (node iface inner)) (open_node (vec inner) ref depth seen)
  show_node (some n) ref depth seen = open_node n ref depth seen

unfoldable pub show : ℕ → Iface → ℕ → ℕ → List ℕ → Outcome Text
unfolding show_node
show zero iface ref depth seen = endless
show (suc fuel) iface ref depth seen =
    show_node iface (show fuel iface) (node iface ref) ref depth seen
