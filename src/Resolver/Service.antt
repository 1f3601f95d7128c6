-- ===== src/Resolver/Service.antt =====
-- `typeSubtype` and `matchService` of profile/packages/resolver/src/subtype.mjs, and the method table that
-- iface.mjs builds from a contract's actor.
pub mod Sound
use mathlib.Core.Option.{none-ne-some, some-injective}
use candid_core.Common.{
  ℕ, zero, suc, ◌+◌, ◌-◌, ◌*◌, ◌/◌, ◌%◌, ◌^◌, ◌≤◌, ◌<◌, Bool, true, false, not, ◌&&◌, ◌||◌, List,
  [], ◌∷◌, ◌++◌, ◌≡◌, ◌≢◌, refl, sym, ap, ◌∙◌, subst, ◌↔◌, ◌⊎◌, inl, inr, arith, ltb, leb, ◌==◌,
  ==_iff, if◌then◌else◌, length, all, All, All-map, All-append, Option, none, some, Bool-cases,
  Option-cases, take, text_eq,
}
use candid_core.Format.Chars.{Text, codes}
use candid_core.Resolver.Graph.{
  FuncMode, update, query, composite_query, oneway, Method, Node, func, service, class, Iface, node,
  is_null_like,
}
use candid_core.Resolver.Checker.{
  Mode, strict, relaxed, Answer, Segments, Reason, Relaxation, Options, Checker, fails, new_checker,
  missing_method, Query, other_mode, fresh, holds, missing_argument, thrown, out_of_fuel,
  missing_result,
}
use candid_core.Resolver.Parts.{parens, arrow}
use candid_core.Resolver.Subtype.{sub, methods_of, func_mode_code}

-- A method of a service, with its function type.
pub record Entry : Type 0 where
  pub name : Text
  pub mode : FuncMode
  pub args : List ℕ
  pub results : List ℕ

pub data Actor : Type 0 where
  no_actor : Actor
  service_actor class_actor : ℕ → Actor

-- `map.set(name, value)`: a name that is there keeps its place.
abbrev set_entry : List Entry → Entry → List Entry
set_entry [] e = e ∷ []
set_entry (x ∷ xs) e = if text_eq x.name e.name then e ∷ xs else x ∷ set_entry xs e

unfoldable pub get_entry : List Entry → Text → Option Entry
get_entry [] name = none
get_entry (x ∷ xs) name = if text_eq x.name name then some x else get_entry xs name

-- The entry of a method whose type is this node; none where there is no such node, which throws. A
-- contract's method has a function type: the undefined fields of another node are not modelled (none).
abbrev entry_at : Text → Option Node → Option Entry
entry_at name none = none
entry_at name (some (func mode args results)) =
    some (record { name = name; mode = mode; args = args; results = results })
entry_at name (some other) = none

abbrev set_next : Option (List Entry) → Option Entry → Option (List Entry)
set_next none e = none
set_next (some xs) none = none
set_next (some xs) (some e) = some (set_entry xs e)

abbrev add_methods : Iface → List Method → Option (List Entry) → Option (List Entry)
add_methods iface [] done = done
add_methods iface (m ∷ ms) done =
    add_methods iface ms (set_next done (entry_at m.name (node iface m.function)))

abbrev methods_at : Iface → Option Node → Option (List Entry)
methods_at iface (some (service methods)) = add_methods iface methods (some [])
methods_at iface _ = none

abbrev class_service : Iface → Option Node → Option (List Entry)
class_service iface none = none
class_service iface (some (class init actor)) = methods_at iface (node iface actor)
class_service iface (some other) = some []

-- `this.methods`, built by the constructor of Iface; none is an exception.
unfoldable pub build_methods : Iface → Actor → Option (List Entry)
build_methods iface no_actor = some []
build_methods iface (service_actor ref) = methods_at iface (node iface ref)
build_methods iface (class_actor ref) = class_service iface (node iface ref)

-- One side of a match: the number of its interface, and its methods.
pub record Side : Type 0 where
  pub number : ℕ
  pub methods : List Entry

pub record Note : Type 0 where
  pub at : Text
  pub reason : Reason

-- The checker and the reasons; none is an exception.
abbrev pub Progress : Type 0
Progress = Option (Checker × List Note)

pub record Match : Type 0 where
  pub ok : Bool
  pub reasons : List Note
  pub relaxed : List Relaxation

unfoldable pub join : Segments → Text
join [] = []
join (s ∷ ss) = s ++ join ss

-- `pathString(e.path) || at`
abbrev or_at : Text → Text → Text
or_at [] at = at
or_at (x ∷ xs) at = x ∷ xs

abbrev pub add_note : Text → Reason → Checker × List Note → Progress
add_note at reason (c, notes) = some (c, notes ++ (record { at = at; reason = reason } ∷ []))

-- What `run` does with an answer: a failed position contributes no relaxation.
abbrev pub settle : ℕ → Text → List Note → Answer → Progress
settle before at notes (holds, c) = some (c, notes)
settle before at notes (fails path reason, c) = add_note (or_at (join path) at) reason (
  record { gamma = c.gamma; relaxed = take before c.relaxed; steps = c.steps; depth = c.depth },
  notes,
)
settle before at notes (thrown, c) = none
settle before at notes (out_of_fuel, c) = none

abbrev pub and_then : Progress → (Checker × List Note → Progress) → Progress
and_then none rest = none
and_then (some p) rest = rest p

abbrev pub absent_note : Option Bool → Text → Reason → Checker × List Note → Progress
absent_note none at reason p = none
absent_note (some true) at reason p = some p
absent_note (some false) at reason p = add_note at reason p

module _ (ifaces : ℕ → Iface) (options : Options) where
  -- `run(at, () => checker.sub(…))`
  unfoldable pub run : Text → Query → Checker × List Note → Progress
  run at q (c, notes) =
      settle (length c.relaxed) at notes
        (sub ifaces options (suc options.max_depth) (fresh c) q (at ∷ []))

  -- One of the two loops over the positions of a method.
  unfoldable pub positions :
      (given_at needed_at : ℕ)
      → Mode
      → (ℕ → Text)
      → Reason
      → ℕ
      → List ℕ
      → List ℕ
      → Checker × List Note
      → Progress
  unfolding run
  positions given_at needed_at mode named reason i [] given p = some p
  positions given_at needed_at mode named reason i (n ∷ needed) [] p =
      and_then (absent_note (is_null_like (ifaces needed_at) n) (named i) reason p)
        (positions given_at needed_at mode named reason (i + 1) needed [])
  positions given_at needed_at mode named reason i (n ∷ needed) (g ∷ given) p =
      and_then
        (run (named i) (record { source = given_at; s = g; target = needed_at; t = n; mode = mode })
          p)
        (positions given_at needed_at mode named reason (i + 1) needed given)

  unfoldable pub match_method :
      (canister fragment : ℕ) → Mode → Entry → Option Entry → Checker × List Note → Progress
  unfolding positions
  match_method canister fragment result_mode fm none p = add_note fm.name missing_method p
  match_method canister fragment result_mode fm (some cm) p =
      if not (func_mode_code cm.mode == func_mode_code fm.mode)
      then add_note fm.name other_mode p
      else and_then
          (positions fragment canister strict (λ i. fm.name ++ parens i) missing_argument 0 cm.args
            fm.args p)
          (positions canister fragment result_mode (λ i. fm.name ++ arrow i) missing_result 0
            fm.results cm.results)

  unfoldable pub match_methods : Side → Side → Mode → List Entry → Checker × List Note → Progress
  unfolding match_method
  match_methods canister fragment result_mode [] p = some p
  match_methods canister fragment result_mode (fm ∷ fms) p =
      and_then
        (match_method canister.number fragment.number result_mode fm
          (get_entry canister.methods fm.name) p)
        (match_methods canister fragment result_mode fms)

  abbrev no_notes : List Note → Bool
  no_notes [] = true
  no_notes (n ∷ ns) = false

  abbrev match_result : Progress → Option Match
  match_result none = none
  match_result (some (c, notes)) =
      some (record { ok = no_notes notes; reasons = notes; relaxed = c.relaxed })

  unfoldable pub match_service : Side → Side → Mode → Option Match
  unfolding match_methods
  match_service canister fragment result_mode =
      match_result (match_methods canister fragment result_mode fragment.methods (new_checker, []))

  abbrev subtype_result : Answer → Option Match
  subtype_result (holds, c) = some (record { ok = true; reasons = []; relaxed = c.relaxed })
  subtype_result (fails path reason, c) = some (record {
    ok = false;
    reasons = record { at = join path; reason = reason } ∷ [];
    relaxed = [];
  })
  subtype_result (thrown, c) = none
  subtype_result (out_of_fuel, c) = none

  unfoldable pub type_subtype : Query → Option Match
  type_subtype q = subtype_result (sub ifaces options (suc options.max_depth) new_checker q [])
