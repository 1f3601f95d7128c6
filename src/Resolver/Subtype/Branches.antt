-- ===== src/Resolver/Subtype/Branches.antt =====
-- The branches of `#rules` in profile/packages/resolver/src/subtype.mjs: what each does, and that it asks
-- exactly what the rule at those two nodes asks.
use candid_core.Common.{
  ℕ, ◌+◌, ◌≡◌, refl, Bool, true, false, List, [], ◌∷◌, none, some, Option, All, ◌==◌, arith,
  All-append,
}
use candid_core.Resolver.Graph.{
  Field, Node, opt, vec, record_of, variant, func, service, class, Iface, is_null_like, FuncMode,
  Method,
}
use candid_core.Resolver.Checker.{
  strict, Query, Segments, Reason, Checker, holds, thrown, fails, Answer, missing_argument,
  missing_field, missing_result,
}
use candid_core.Resolver.Parts.{
  Part, ask, pass, crash, refuse, record_parts, variant_parts, func_parts, service_parts,
  extra_labels, record_part, field_type, tuple_parts, absent, method_function, method_part,
}
use candid_core.Resolver.Rules.{
  NodeRule, to_reserved, from_empty, primitives, nat_int, null_opt, opts, constituents, vecs,
  records, variants, funcs, services, about, FieldHeld, CaseHeld, MethodHeld, TupleHeld,
}
use candid_core.Resolver.Met.{Met}
use candid_core.Resolver.Subtype.{run_parts, next, noted, lossy, kind, is_primitive, primitive_rule}

module _ (ifaces : ℕ → Iface) (q : Query) (ns nt : Node) where
  -- What the code asks, `asked`, is what the rules ask.
  pub record IsRule (asked : (Query → Type 0) → Type 0) : Type 1 where
    pub to : (R : Query → Type 0) → asked R → NodeRule ifaces R q ns nt
    pub from : (R : Query → Type 0) → NodeRule ifaces R q ns nt → asked R

-- A strict query asks strict queries.
abbrev pub Quiet : Part → Type 0
Quiet (ask x at) = x.mode ≡ strict
Quiet pass = Unit
Quiet crash = Unit
Quiet (refuse at reason) = Unit

module _ (ifaces : ℕ → Iface) (lossy_opt : Bool) (call : Checker → Query → Segments → Answer)
    (c : Checker) (q : Query) (path : Segments) where
  -- What the rules answer at two nodes.
  pub data Branch (ns nt : Node) : Answer → Type 1 where
    accept : IsRule ifaces q ns nt (λ R. Unit {0}) → Branch ns nt (holds, c)
    reject :
        (reason : Reason) → IsRule ifaces q ns nt (λ R. ⊥) → Branch ns nt (fails path reason, c)
    broken : IsRule ifaces q ns nt (λ R. ⊥) → Branch ns nt (thrown, c)
    ask_one :
        (x : Query) (at : Segments)
        → IsRule ifaces q ns nt (λ R. R x)
        → (q.mode ≡ strict → x.mode ≡ strict)
        → Branch ns nt (call c x at)
    ask_opt :
        (x : Query) (at : Segments)
        → IsRule ifaces q ns nt (λ R. R x)
        → (q.mode ≡ strict → x.mode ≡ strict)
        → Branch ns nt (lossy lossy_opt (call c x at))
    ask_parts :
        (parts : List Part)
        → IsRule ifaces q ns nt (λ R. All (Met R) parts)
        → (q.mode ≡ strict → All Quiet parts)
        → Branch ns nt (run_parts call parts c)
    ask_cases :
        (fs gs : List Field)
        → IsRule ifaces q ns nt (λ R. All (Met R) (variant_parts ifaces q path gs fs))
        → Branch ns nt (
            next
              (λ c. (holds, noted path (extra_labels ifaces q gs fs) c))
              (run_parts call (variant_parts ifaces q path gs fs) c))

-- What a rule says of the kinds of its two nodes.
pub rule-kinds :
    (ifaces : ℕ → Iface) (R : Query → Type 0) (q : Query) (ns nt : Node)
    → NodeRule ifaces R q ns nt
    → is_primitive 15 nt ≡ false
    → is_primitive 16 ns ≡ false
    → (kind nt == 1) ≡ false
    → (kind ns ≡ kind nt) × (((kind ns == 0) ≡ true) → primitive_rule ns nt ≡ true)
rule-kinds ifaces R q ns nt (to_reserved _) a b c = cc
rule-kinds ifaces R q ns nt (from_empty _) a b c = cc
rule-kinds ifaces R q ns nt (primitives p r e) a b c = (refl, λ h. rw e (ground arith))
rule-kinds ifaces R q ns nt nat_int a b c = (refl, λ h. refl)
rule-kinds ifaces R q ns nt (null_opt _) a b c = cc
rule-kinds ifaces R q ns nt (opts _ _ r) a b c = cc
rule-kinds ifaces R q ns nt (constituents _ _ n l r) a b c = cc
rule-kinds ifaces R q ns nt (vecs _ _ r) a b c = (refl, λ h. cc)
rule-kinds ifaces R q ns nt (records fs gs h) a b c = (refl, λ h. cc)
rule-kinds ifaces R q ns nt (variants fs gs h) a b c = (refl, λ h. cc)
rule-kinds ifaces R q ns nt (funcs _ _ _ _ _ _ _ _ _) a b c = (refl, λ h. cc)
rule-kinds ifaces R q ns nt (services _ _ _) a b c = (refl, λ h. cc)

module _ (ifaces : ℕ → Iface) (R : Query → Type 0) (q : Query) where
  pub opts-inner : (a b : ℕ) → NodeRule ifaces R q (opt a) (opt b) → R (about q a b q.mode)
  opts-inner a b (opts _ _ r) = r
  opts-inner a b (constituents _ _ n l r) = absurd (n a refl)

  pub vecs-inner : (a b : ℕ) → NodeRule ifaces R q (vec a) (vec b) → R (about q a b q.mode)
  vecs-inner a b (vecs _ _ r) = r

  -- Where the left side is neither opt, null nor empty.
  pub constituents-inner :
      (ns : Node) (b : ℕ)
      → NodeRule ifaces R q ns (opt b)
      → (kind ns == 1) ≡ false
      → is_primitive 16 ns ≡ false
      → is_primitive 0 ns ≡ false
      → (is_null_like (ifaces q.target) b ≡ some false) × R (about q q.s b q.mode)
  constituents-inner ns b (from_empty _) h e n = cc
  constituents-inner ns b (null_opt _) h e n = cc
  constituents-inner ns b (opts _ _ r) h e n = cc
  constituents-inner ns b (constituents _ _ _ l r) h e n = (l, r)

  pub records-fields :
      (fs gs : List Field)
      → NodeRule ifaces R q (record_of fs) (record_of gs)
      → All (FieldHeld ifaces R q fs) gs
  records-fields fs gs (records _ _ h) = h

  pub variants-fields :
      (fs gs : List Field)
      → NodeRule ifaces R q (variant fs) (variant gs)
      → All (CaseHeld ifaces R q gs) fs
  variants-fields fs gs (variants _ _ h) = h

  pub services-methods :
      (ms js : List Method)
      → NodeRule ifaces R q (service ms) (service js)
      → All (MethodHeld ifaces R q ms) js
  services-methods ms js (services _ _ h) = h

  pub funcs-tuples :
      (m n : FuncMode) (a b d e : List ℕ)
      → NodeRule ifaces R q (func m a b) (func n d e)
      → (m ≡ n)
        × TupleHeld ifaces R q.target q.source a d
        × TupleHeld ifaces R q.source q.target e b
  funcs-tuples m n a b d e (funcs _ _ _ _ _ _ same args results) = (same, args, results)

  pub no_class :
      (a : List ℕ) (b : ℕ) (nt : Node) → kind nt ≡ 7 → NodeRule ifaces R q (class a b) nt → ⊥
  no_class a b nt h (to_reserved _) = omega (arith, h)
  no_class a b nt h (constituents _ _ n l r) = omega (arith, h)

-- The parts that a strict query asks for.
module _ (ifaces : ℕ → Iface) where
  absent-Quiet :
      (answer : Option Bool) (path : Segments) (reason : Reason) → Quiet (absent answer path reason)
  absent-Quiet none path reason = tt
  absent-Quiet (some true) path reason = tt
  absent-Quiet (some false) path reason = tt

  record_part-Quiet :
      (q : Query) (path : Segments) (f : Field) (found : Option ℕ)
      → q.mode ≡ strict
      → Quiet (record_part ifaces q path f found)
  record_part-Quiet q path f (some s) h = h
  record_part-Quiet q path f none h =
      absent-Quiet (is_null_like (ifaces q.target) f.type) path missing_field

  pub record_parts-Quiet :
      (q : Query) (path : Segments) (have fs : List Field)
      → q.mode ≡ strict
      → All Quiet (record_parts ifaces q path have fs)
  unfolding record_parts
  record_parts-Quiet q path have [] h = tt
  record_parts-Quiet q path have (f ∷ fs) h =
      (record_part-Quiet q path f (field_type have f.id) h, record_parts-Quiet q path have fs h)

  tuple_parts-Quiet :
      (given_at needed_at : ℕ) (named : ℕ → Segments) (path : Segments) (reason : Reason) (i : ℕ)
      (needed given : List ℕ)
      → All Quiet (tuple_parts ifaces given_at needed_at named path reason i needed given)
  unfolding tuple_parts
  tuple_parts-Quiet given_at needed_at named path reason i [] given = tt
  tuple_parts-Quiet given_at needed_at named path reason i (n ∷ needed) [] = (
    absent-Quiet (is_null_like (ifaces needed_at) n) path reason,
    tuple_parts-Quiet given_at needed_at named path reason (i + 1) needed [],
  )
  tuple_parts-Quiet given_at needed_at named path reason i (n ∷ needed) (g ∷ given) =
      (refl, tuple_parts-Quiet given_at needed_at named path reason (i + 1) needed given)

  pub func_parts-Quiet :
      (q : Query) (path : Segments) (a b d e : List ℕ)
      → All Quiet (func_parts ifaces q path a b d e)
  unfolding func_parts
  func_parts-Quiet q path a b d e =
      All-append Quiet _ _ (tuple_parts-Quiet q.target q.source _ path missing_argument 0 a d)
        (tuple_parts-Quiet q.source q.target _ path missing_result 0 e b)

  method_part-Quiet :
      (q : Query) (path : Segments) (m : Method) (found : Option ℕ)
      → Quiet (method_part ifaces q path m found)
  method_part-Quiet q path m (some s) = refl
  method_part-Quiet q path m none = tt

  pub service_parts-Quiet :
      (q : Query) (path : Segments) (have ms : List Method)
      → All Quiet (service_parts ifaces q path have ms)
  unfolding service_parts
  service_parts-Quiet q path have [] = tt
  service_parts-Quiet q path have (m ∷ ms) =
      (method_part-Quiet q path m (method_function have m.name), service_parts-Quiet q path have ms)
