-- ===== src/Resolver/Tests.antt =====
-- Runs of profile/packages/resolver/src/subtype.mjs, and the theorems on it.
use candid_core.Resolver.Show.Ends.{WrappedIn, show-endless, by_vec}
use candid_core.Resolver.Show.{show}
use candid_core.Resolver.Walk.Edges.{types, Edge, walk-Edge, resolve_eq, types, fields}
use candid_core.Resolver.Walk.{
  Seg, resolve, Declaration, unwrap_opt, walk, record_edge, walk_from, type_at, endless, find_field,
  returns, Walked,
}
use candid_core.Resolver.Walk.Loops.{
  IsOptLoop, IsRanked, Halts, unwrap_opt-Halts, unwrap_opt-endless,
}
use candid_core.Format.Decimal.{nat_to_string}
use candid_core.Resolver.Parts.{record_parts, field_type}
use candid_core.Resolver.Rules.Strict.{IsCandidSubtype}
use candid_core.Resolver.Subtype.Sound.{sub-IsSubtype, sub-SubtypeIn}
use candid_core.Format.Chars.{codes}
use candid_core.Resolver.Subtype.Complete.{Spared, sub-Spared}
use candid_core.Resolver.Subtype.Ends.{Counted, Ended, sub-Counted, sub-Ended}
use candid_core.Resolver.Service.Sound.{IsMet, type_subtype_sound, match_service-IsMet}
use candid_core.Resolver.Subtype.{sub, rules_at, run_parts}
use candid_core.Resolver.Graph.{
  Iface, Field, Primitive, Node, record_of, nat, primitive, opt, int, func, text, query, node_at,
  field_name, vec,
}
use candid_core.Resolver.Checker.{
  relaxed, Answer, Query, Options, Checker, strict, new_checker, holds, is_same, has, relaxed,
  delete, fresh,
}
use candid_core.Common.{
  ℕ, zero, suc, ◌-◌, Bool, true, false, List, [], ◌∷◌, ◌≡◌, refl, arith, ◌==◌, if◌then◌else◌, All,
  Option, none, some,
}
use candid_core.Resolver.Service.{
  match_service, Entry, build_methods, Side, Match, no_actor, type_subtype, match_methods,
  match_method, positions, run, get_entry,
}

abbrev field : ℕ → ℕ → Field
field id type = record { id = id; type = type }

-- type List = record { head : nat; tail : opt List }, and the same with `int`; two unrelated pairs of
-- types that refer to each other, with `nat` and with `text`; functions from and to them.
abbrev list_of : Primitive → List Node
list_of p =
    record_of (field 104 1 ∷ field 116 2 ∷ [])
    ∷ primitive p
    ∷ opt 0
    ∷ func query (4 ∷ []) (0 ∷ [])
    ∷ primitive text
    ∷ []

abbrev pair_of : Primitive → List Node
pair_of p =
    record_of (field 97 1 ∷ field 98 2 ∷ [])
    ∷ opt 3
    ∷ record_of (field 120 3 ∷ [])
    ∷ record_of (field 98 2 ∷ field 122 4 ∷ [])
    ∷ primitive p
    ∷ []

abbrev types_of : ℕ → List Node
types_of n =
    if n == 0
    then list_of nat
    else if n == 1
    then list_of int
    else if n == 2
    then pair_of nat
    else pair_of text

abbrev ifaces : ℕ → Iface
ifaces n = record { types = types_of n; names = λ container id. none }

abbrev by_rules : Options
by_rules = record { lossy_opt = false; max_depth = 8; max_steps = 40 }

abbrev with_lossy : Options
with_lossy = record { lossy_opt = true; max_depth = 8; max_steps = 40 }

abbrev lists : Query
lists = record { source = 0; s = 0; target = 1; t = 0; mode = strict }

abbrev pairs : Query
pairs = record { source = 2; s = 0; target = 3; t = 0; mode = strict }

abbrev reached : Answer → Checker
reached (v, c) = c

abbrev lists_answer : Answer
lists_answer = sub ifaces by_rules 9 new_checker lists []

lists_hold : lists_answer ≡ (holds, reached lists_answer)
unfolding sub rules_at run_parts is_same has node_at record_parts field_type
lists_hold = refl

sub-SubtypeIn_example : IsCandidSubtype ifaces lists
sub-SubtypeIn_example =
    sub-SubtypeIn ifaces by_rules 9 new_checker lists [] (reached lists_answer) refl refl lists_hold

sub-Spared_example : Spared (sub ifaces by_rules 9 new_checker lists [])
sub-Spared_example = sub-Spared ifaces by_rules 9 new_checker lists [] (
    sub-IsSubtype ifaces by_rules 9 new_checker lists [] (reached lists_answer) refl refl
      lists_hold)

sub-Ended_example : Ended new_checker (sub ifaces by_rules 9 new_checker pairs [])
sub-Ended_example = sub-Ended ifaces by_rules 9 new_checker pairs [] (omega arith) (omega arith)

sub-Counted_example : Counted 40 (sub ifaces by_rules 9 new_checker pairs [])
sub-Counted_example =
    sub-Counted ifaces by_rules 40 9 new_checker pairs [] refl (omega arith) (omega arith)

abbrev get_list : Entry
get_list = record { name = codes "get"; mode = query; args = 4 ∷ []; results = 0 ∷ [] }

abbrev canister : Side
canister = record { number = 0; methods = get_list ∷ [] }

abbrev fragment : Side
fragment = record { number = 1; methods = get_list ∷ [] }

abbrev matched : Match
matched = record { ok = true; reasons = []; relaxed = [] }

get_built : build_methods (ifaces 0) no_actor ≡ some []
unfolding build_methods
get_built = refl

list_match : match_service ifaces by_rules canister fragment relaxed ≡ some matched
unfolding sub rules_at run_parts is_same has delete node_at record_parts field_type match_service
    match_methods match_method positions run fresh get_entry
list_match = refl

match_service-IsMet_example : All (IsMet ifaces canister fragment relaxed) (get_list ∷ [])
match_service-IsMet_example =
    match_service-IsMet ifaces by_rules canister fragment relaxed matched refl list_match refl

lists_ok : type_subtype ifaces by_rules lists ≡ some matched
unfolding sub rules_at run_parts is_same has delete node_at record_parts field_type type_subtype
    field_name nat_to_string
lists_ok = refl

type_subtype_sound_example : IsCandidSubtype ifaces lists
type_subtype_sound_example = type_subtype_sound ifaces by_rules lists matched refl lists_ok refl

-- With the unusual rules on, an assumption of a query that failed is still relied on: the second field of
-- `pairs` is no subtype by itself, and `pairs` is accepted.
lossy_whole : type_subtype ifaces with_lossy pairs ≡ some matched
unfolding sub rules_at run_parts is_same has delete node_at record_parts field_type type_subtype
    field_name nat_to_string
lossy_whole = refl

abbrev second_field : Query
second_field = record { source = 2; s = 2; target = 3; t = 2; mode = strict }

abbrev is_ok : Option Match → Bool
is_ok none = false
is_ok (some m) = m.ok

lossy_part : is_ok (type_subtype ifaces with_lossy second_field) ≡ false
unfolding sub rules_at run_parts is_same has delete node_at record_parts field_type type_subtype
    field_name nat_to_string
lossy_part = refl

-- record { tail : opt List }, by the label and by the number of its id.
abbrev by_label : List Seg
by_label = Seg.field (codes "tail") 116 ∷ []

abbrev by_number : List Seg
by_number = Seg.field (codes "#116") 116 ∷ []

tail_walk : walk 5 (ifaces 0) 2 by_label ≡ returns (Walked.reached 2 (record_edge 0 116))
unfolding walk walk_from unwrap_opt node_at find_field
tail_walk = refl

walk-Edge_example : Edge (ifaces 0) (record_edge 0 116) 2
walk-Edge_example =
    walk-Edge 5 (ifaces 0) 2 (Seg.field (codes "tail") 116) [] 2 (record_edge 0 116) tail_walk

abbrev declarations : List Declaration
declarations = record { name = codes "List"; type = 0 } ∷ []

resolve_eq_example :
    resolve 5 (ifaces 0) declarations [] (type_at (codes "List") by_label)
    ≡ resolve 5 (ifaces 0) declarations [] (type_at (codes "List") by_number)
resolve_eq_example =
    resolve_eq 5 (ifaces 0) declarations [] (type_at (codes "List") by_label)
      (type_at (codes "List") by_number)
      (types (codes "List") by_label by_number (fields (codes "tail") (codes "#116") 116, tt))

-- type T = opt T
abbrev endless_opt : Iface
endless_opt = record { types = opt 0 ∷ []; names = λ container id. none }

abbrev IsZero : ℕ → Type 0
IsZero n = n ≡ 0

opt_loop : IsOptLoop endless_opt IsZero
unfolding node_at
opt_loop ref h = (0, rw h refl, refl)

unwrap_opt-endless_example : unwrap_opt 100 endless_opt 0 false ≡ endless
unwrap_opt-endless_example = unwrap_opt-endless 100 endless_opt IsZero 0 false opt_loop refl

-- A chain of two opts over a primitive.
abbrev opt_chain : Iface
opt_chain = record { types = opt 1 ∷ opt 2 ∷ primitive nat ∷ []; names = λ container id. none }

abbrev height : ℕ → ℕ
height n = 2 - n

chain-IsRanked : IsRanked opt_chain height
unfolding node_at
chain-IsRanked zero inner h = ground (arith, h)
chain-IsRanked (suc zero) inner h = ground (arith, h)
chain-IsRanked (suc (suc zero)) inner h = cc
chain-IsRanked (suc (suc (suc n))) inner h = cc

unwrap_opt-Halts_example : Halts (unwrap_opt 3 opt_chain 0 false)
unwrap_opt-Halts_example = unwrap_opt-Halts 3 opt_chain height 0 false chain-IsRanked (omega arith)

-- type V = vec V
abbrev endless_vec : Iface
endless_vec = record { types = vec 0 ∷ []; names = λ container id. none }

vec_loop : (x : ℕ) → IsZero x → WrappedIn endless_vec IsZero x
unfolding node_at
vec_loop x h = by_vec 0 (rw h refl) refl

show-endless_example : show 100 endless_vec 0 2 [] ≡ endless
show-endless_example = show-endless 100 endless_vec IsZero 0 2 [] vec_loop refl
