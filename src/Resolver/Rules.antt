-- ===== src/Resolver/Rules.antt =====
-- Candid's subtyping as rules (the header of profile/packages/resolver/src/subtype.mjs), apart from the
-- checker's code: what each rule asks of the parts of two types, and subtyping as the largest relation
-- that its own rules justify. A relaxed query has one rule more, for extra cases of a variant.
pub mod Strict
use candid_core.Common.{ℕ, ◌≡◌, ◌≢◌, true, false, List, [], ◌∷◌, none, some, All, All-map}
use candid_core.Resolver.Graph.{
  Primitive, nat, int, null, reserved, empty, FuncMode, Field, Method, Node, primitive, opt, vec,
  record_of, variant, func, service, Iface, node, is_null_like,
}
use candid_core.Resolver.Checker.{Mode, strict, relaxed, Query, is_same}
use candid_core.Resolver.Parts.{field_type, method_function}

-- The query about other types, of the same two interfaces.
abbrev pub about : Query → ℕ → ℕ → Mode → Query
about q s t mode = record { source = q.source; s = s; target = q.target; t = t; mode = mode }

module _ (ifaces : ℕ → Iface) (R : Query → Type 0) where
  -- A field of the supertype: the subtype has it, at a subtype, or it may be left out.
  pub data FieldHeld (q : Query) (have : List Field) (f : Field) : Type 0 where
    present :
        (s : ℕ) → field_type have f.id ≡ some s → R (about q s f.type q.mode) → FieldHeld q have f
    left_out :
        field_type have f.id ≡ none
        → is_null_like (ifaces q.target) f.type ≡ some true
        → FieldHeld q have f

  -- A case of the subtype: the supertype has it, at a supertype, or the query is relaxed.
  pub data CaseHeld (q : Query) (have : List Field) (f : Field) : Type 0 where
    present :
        (t : ℕ) → field_type have f.id ≡ some t → R (about q f.type t q.mode) → CaseHeld q have f
    extra : field_type have f.id ≡ none → q.mode ≡ relaxed → CaseHeld q have f

  -- A tuple: what is needed is given, position by position, or may be left out.
  abbrev pub TupleHeld : (given_at needed_at : ℕ) → (needed given : List ℕ) → Type 0
  TupleHeld given_at needed_at [] given = Unit {0}
  TupleHeld given_at needed_at (n ∷ needed) [] =
      (is_null_like (ifaces needed_at) n ≡ some true) × TupleHeld given_at needed_at needed []
  TupleHeld given_at needed_at (n ∷ needed) (g ∷ given) =
      R (record { source = given_at; s = g; target = needed_at; t = n; mode = strict })
      × TupleHeld given_at needed_at needed given

  pub data MethodHeld (q : Query) (have : List Method) (m : Method) : Type 0 where
    present :
        (s : ℕ)
        → method_function have m.name ≡ some s
        → R (about q s m.function strict)
        → MethodHeld q have m

  -- The rules, at the two nodes. A premise on a part is about `R`.
  pub data NodeRule (q : Query) : Node → Node → Type 0 where
    to_reserved : (ns : Node) → NodeRule q ns (primitive reserved)
    from_empty : (nt : Node) → NodeRule q (primitive empty) nt
    primitives : (p r : Primitive) → p ≡ r → NodeRule q (primitive p) (primitive r)
    nat_int : NodeRule q (primitive nat) (primitive int)
    null_opt : (b : ℕ) → NodeRule q (primitive null) (opt b)
    opts : (a b : ℕ) → R (about q a b q.mode) → NodeRule q (opt a) (opt b)
    constituents :
        (ns : Node) (b : ℕ)
        → ((a : ℕ) → ns ≢ opt a)
        → is_null_like (ifaces q.target) b ≡ some false
        → R (about q q.s b q.mode)
        → NodeRule q ns (opt b)
    vecs : (a b : ℕ) → R (about q a b q.mode) → NodeRule q (vec a) (vec b)
    records :
        (fs gs : List Field) → All (FieldHeld q fs) gs → NodeRule q (record_of fs) (record_of gs)
    variants : (fs gs : List Field) → All (CaseHeld q gs) fs → NodeRule q (variant fs) (variant gs)
    funcs :
        (m n : FuncMode) (s_args s_results t_args t_results : List ℕ)
        → m ≡ n
        → TupleHeld q.target q.source s_args t_args
        → TupleHeld q.source q.target t_results s_results
        → NodeRule q (func m s_args s_results) (func n t_args t_results)
    services :
        (ms ns : List Method) → All (MethodHeld q ms) ns → NodeRule q (service ms) (service ns)

  -- A type is a subtype of itself, and of what a rule says of the two nodes.
  pub data Justified (q : Query) : Type 0 where
    same : is_same q ≡ true → Justified q
    by_rule :
        (ns nt : Node)
        → node (ifaces q.source) q.s ≡ some ns
        → node (ifaces q.target) q.t ≡ some nt
        → NodeRule q ns nt
        → Justified q

-- `q` is in a relation that the rules justify by itself: subtyping in the mode of `q`, with its recursive
-- types. For a relaxed query a variant may have extra cases.
pub record IsSubtype (ifaces : ℕ → Iface) (q : Query) : Type 1 where
  pub relation : Query → Type 0
  pub justified : (x : Query) → relation x → Justified ifaces relation x
  pub related : relation q

module _ (ifaces : ℕ → Iface) {R Q : Query → Type 0} (up : (x : Query) → R x → Q x) where
  field_up :
      (q : Query) (have : List Field) (f : Field)
      → FieldHeld ifaces R q have f
      → FieldHeld ifaces Q q have f
  field_up q have f (present s e r) = present s e (up _ r)
  field_up q have f (left_out e n) = left_out e n

  case_up :
      (q : Query) (have : List Field) (f : Field)
      → CaseHeld ifaces R q have f
      → CaseHeld ifaces Q q have f
  case_up q have f (present s e r) = present s e (up _ r)
  case_up q have f (extra e n) = extra e n

  tuple_up :
      (given_at needed_at : ℕ) (needed given : List ℕ)
      → TupleHeld ifaces R given_at needed_at needed given
      → TupleHeld ifaces Q given_at needed_at needed given
  tuple_up given_at needed_at [] given h = tt
  tuple_up given_at needed_at (n ∷ needed) [] h = (h.0, tuple_up given_at needed_at needed [] h.1)
  tuple_up given_at needed_at (n ∷ needed) (g ∷ given) h =
      (up _ h.0, tuple_up given_at needed_at needed given h.1)

  method_up :
      (q : Query) (have : List Method) (m : Method)
      → MethodHeld ifaces R q have m
      → MethodHeld ifaces Q q have m
  method_up q have m (present s e r) = present s e (up _ r)

  rule_up : (q : Query) (ns nt : Node) → NodeRule ifaces R q ns nt → NodeRule ifaces Q q ns nt
  rule_up q ns nt (to_reserved _) = to_reserved _
  rule_up q ns nt (from_empty _) = from_empty _
  rule_up q ns nt (primitives p r e) = primitives p r e
  rule_up q ns nt nat_int = nat_int
  rule_up q ns nt (null_opt b) = null_opt b
  rule_up q ns nt (opts a b r) = opts a b (up _ r)
  rule_up q ns nt (constituents m b n l r) = constituents m b n l (up _ r)
  rule_up q ns nt (vecs a b r) = vecs a b (up _ r)
  rule_up q ns nt (records fs gs h) = records fs gs (All-map (field_up q fs) gs h)
  rule_up q ns nt (variants fs gs h) = variants fs gs (All-map (case_up q gs) fs h)
  rule_up q ns nt (funcs m n a b c d e g h) =
      funcs m n a b c d e (tuple_up q.target q.source a c g) (tuple_up q.source q.target d b h)
  rule_up q ns nt (services ms js h) = services ms js (All-map (method_up q ms) js h)

  -- A larger relation justifies more.
  pub Justified-up : (q : Query) → Justified ifaces R q → Justified ifaces Q q
  Justified-up q (same e) = same e
  Justified-up q (by_rule ns nt e f h) = by_rule ns nt e f (rule_up q ns nt h)
