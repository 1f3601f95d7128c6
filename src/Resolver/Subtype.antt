-- ===== src/Resolver/Subtype.antt =====
-- `SubtypeChecker.sub` and `#rules` of profile/packages/resolver/src/subtype.mjs: the checker's state is
-- passed along. A call of `sub` inside a rule is the argument `call`; `sub` closes the loop, on fuel.
pub mod Branches
pub mod Follows
pub mod Sound
pub mod Kept
pub mod Ends
pub mod Complete
use candid_core.Common.{
  ℕ, zero, suc, ◌+◌, ◌-◌, Bool, true, false, not, ◌&&◌, ◌||◌, List, [], ◌∷◌, ◌++◌, ◌==◌, ltb, leb,
  if◌then◌else◌, Option, none, some,
}
use candid_core.Format.Chars.{Text}
use candid_core.Resolver.Graph.{
  Primitive, primitive_code, FuncMode, update, query, composite_query, oneway, Field, Method, Node,
  primitive, opt, vec, record_of, variant, func, service, class, Iface, node, is_null_like,
}
use candid_core.Resolver.Checker.{
  Mode, strict, relaxed, Query, Segments, Reason, mismatch, other_mode, step_budget, depth_limit,
  unsupported, Options, Checker, Verdict, holds, thrown, out_of_fuel, fails, Answer, has, delete,
  is_same,
}
use candid_core.Resolver.Parts.{
  Part, ask, pass, crash, refuse, step, record_parts, variant_parts, extra_labels, sort_labels,
  func_parts, service_parts,
}

abbrev pub kind : Node → ℕ
kind (primitive p) = 0
kind (opt inner) = 1
kind (vec inner) = 2
kind (record_of fields) = 3
kind (variant fields) = 4
kind (func mode args results) = 5
kind (service methods) = 6
kind (class init actor) = 7

-- The properties that the source reads of a node of a known kind.
abbrev pub inner_of : Node → ℕ
inner_of (opt inner) = inner
inner_of (vec inner) = inner
inner_of _ = 0

abbrev pub fields_of : Node → List Field
fields_of (record_of fields) = fields
fields_of (variant fields) = fields
fields_of _ = []

abbrev pub methods_of : Node → List Method
methods_of (service methods) = methods
methods_of _ = []

abbrev pub mode_of : Node → FuncMode
mode_of (func mode args results) = mode
mode_of _ = update

abbrev pub args_of : Node → List ℕ
args_of (func mode args results) = args
args_of _ = []

abbrev pub results_of : Node → List ℕ
results_of (func mode args results) = results
results_of _ = []

abbrev pub func_mode_code : FuncMode → ℕ
func_mode_code update = 0
func_mode_code query = 1
func_mode_code composite_query = 2
func_mode_code oneway = 3

-- Is the node this primitive, by its code?
abbrev pub is_primitive : ℕ → Node → Bool
is_primitive code (primitive p) = primitive_code p == code
is_primitive code _ = false

-- sp === tp || (sp === "nat" && tp === "int")
abbrev pub primitive_rule : Node → Node → Bool
primitive_rule (primitive p) (primitive q) =
    primitive_code p == primitive_code q || (primitive_code p == 2 && primitive_code q == 7)
primitive_rule _ _ = false

-- A rule's parts, one after the other, up to the first that does not hold.
abbrev pub next : (Checker → Answer) → Answer → Answer
next rest (holds, c) = rest c
next rest (thrown, c) = (thrown, c)
next rest (out_of_fuel, c) = (out_of_fuel, c)
next rest (fails path reason, c) = (fails path reason, c)

unfoldable pub run_parts : (Checker → Query → Segments → Answer) → List Part → Checker → Answer
run_parts call [] c = (holds, c)
run_parts call (ask q path ∷ parts) c = next (run_parts call parts) (call c q path)
run_parts call (pass ∷ parts) c = run_parts call parts c
run_parts call (crash ∷ parts) c = (thrown, c)
run_parts call (refuse path reason ∷ parts) c = (fails path reason, c)

-- if (extra.length) this.relaxed.push({ at, cases: extra.sort() })
abbrev pub noted : Segments → List Text → Checker → Checker
noted path [] c = c
noted path (l ∷ ls) c = record {
  gamma = c.gamma;
  relaxed = c.relaxed ++ (record { at = path; cases = sort_labels (l ∷ ls) } ∷ []);
  steps = c.steps;
  depth = c.depth;
}

-- `lossyOpt` turns a failure under opt into an acceptance.
abbrev pub lossy : Bool → Answer → Answer
lossy lossy_opt (fails path reason, c) = if lossy_opt then (holds, c) else (fails path reason, c)
lossy lossy_opt (holds, c) = (holds, c)
lossy lossy_opt (thrown, c) = (thrown, c)
lossy lossy_opt (out_of_fuel, c) = (out_of_fuel, c)

abbrev pub counted : Checker → Checker
counted c = record { gamma = c.gamma; relaxed = c.relaxed; steps = c.steps + 1; depth = c.depth }

abbrev pub enter : Query → Checker → Checker
enter q c = record {
  gamma = q ∷ c.gamma;
  relaxed = c.relaxed;
  steps = c.steps;
  depth = c.depth + 1;
}

-- Behind the rules: one level up, and on a failure without the assumption. An exception leaves at once.
abbrev pub leave : Query → Answer → Answer
leave q (holds, c) =
    (holds, record { gamma = c.gamma; relaxed = c.relaxed; steps = c.steps; depth = c.depth - 1 })
leave q (fails path reason, c) = (
  fails path reason,
  record { gamma = delete c.gamma q; relaxed = c.relaxed; steps = c.steps; depth = c.depth - 1 },
)
leave q (thrown, c) = (thrown, c)
leave q (out_of_fuel, c) = (out_of_fuel, c)

module _ (ifaces : ℕ → Iface) (opts : Options) where
  -- `S <: opt T` where S is not opt: by S <: T, unless null <: T.
  abbrev pub constituent :
      (Checker → Query → Segments → Answer) → Checker → Query → Segments → ℕ → Option Bool → Answer
  constituent call c q path inner none = (thrown, c)
  constituent call c q path inner (some true) = (fails path mismatch, c)
  constituent call c q path inner (some false) =
      call c (record { source = q.source; s = q.s; target = q.target; t = inner; mode = q.mode })
        path

  abbrev pub opt_target :
      (Checker → Query → Segments → Answer) → Checker → Query → Segments → Node → ℕ → Answer
  opt_target call c q path ns inner =
      if kind ns == 1
      then lossy opts.lossy_opt (
          call c
            (record {
              source = q.source;
              s = inner_of ns;
              target = q.target;
              t = inner;
              mode = q.mode;
            })
            path)
      else if is_primitive 0 ns
      then (holds, c)
      else constituent call c q path inner (is_null_like (ifaces q.target) inner)

  -- The `switch` on the kind that the two nodes share.
  abbrev pub same_kind :
      (Checker → Query → Segments → Answer) → Checker → Query → Segments → Node → Node → Answer
  same_kind call c q path (vec inner) nt =
      call c
        (record { source = q.source; s = inner; target = q.target; t = inner_of nt; mode = q.mode })
        (step path (b'[' ∷ b']' ∷ []))
  same_kind call c q path (record_of fields) nt =
      run_parts call (record_parts ifaces q path fields (fields_of nt)) c
  same_kind call c q path (variant fields) nt =
      next (λ c. (holds, noted path (extra_labels ifaces q (fields_of nt) fields) c))
        (run_parts call (variant_parts ifaces q path (fields_of nt) fields) c)
  same_kind call c q path (func mode args results) nt =
      if not (func_mode_code mode == func_mode_code (mode_of nt))
      then (fails path other_mode, c)
      else run_parts call (func_parts ifaces q path args results (args_of nt) (results_of nt)) c
  same_kind call c q path (service methods) nt =
      run_parts call (service_parts ifaces q path methods (methods_of nt)) c
  same_kind call c q path ns nt = (fails path unsupported, c)

  abbrev pub plain :
      (Checker → Query → Segments → Answer) → Checker → Query → Segments → Node → Node → Answer
  plain call c q path ns nt =
      if kind ns == 1
      then (fails path mismatch, c)
      else if kind ns == 0 || kind nt == 0
      then if primitive_rule ns nt then (holds, c) else (fails path mismatch, c)
      else if not (kind ns == kind nt)
      then (fails path mismatch, c)
      else same_kind call c q path ns nt

  -- `#rules`, at the two nodes; none is a reference out of the table.
  unfoldable pub rules_at :
      (Checker → Query → Segments → Answer)
      → Checker
      → Query
      → Segments
      → Option Node
      → Option Node
      → Answer
  unfolding run_parts
  rules_at call c q path none nt = (thrown, c)
  rules_at call c q path (some ns) none = (thrown, c)
  rules_at call c q path (some ns) (some nt) =
      if is_primitive 15 nt || is_primitive 16 ns
      then (holds, c)
      else if kind nt == 1
      then opt_target call c q path ns (inner_of nt)
      else plain call c q path ns nt

  abbrev pub rules : (Checker → Query → Segments → Answer) → Checker → Query → Segments → Answer
  rules call c q path =
      rules_at call c q path (node (ifaces q.source) q.s) (node (ifaces q.target) q.t)

  abbrev pub budgeted : (Checker → Query → Segments → Answer) → Checker → Query → Segments → Answer
  budgeted call c q path =
      if ltb opts.max_steps c.steps
      then (fails path step_budget, c)
      else if leb opts.max_depth c.depth
      then (fails path depth_limit, c)
      else leave q (rules call (enter q c) q path)

  abbrev pub sub_with : (Checker → Query → Segments → Answer) → Checker → Query → Segments → Answer
  sub_with call c q path =
      if is_same q
      then (holds, c)
      else if has c.gamma q
      then (holds, c)
      else budgeted call (counted c) q path

  unfoldable pub sub : ℕ → Checker → Query → Segments → Answer
  unfolding rules_at
  sub zero c q path = (out_of_fuel, c)
  sub (suc fuel) c q path = sub_with (sub fuel) c q path
