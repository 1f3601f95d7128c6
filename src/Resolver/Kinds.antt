-- ===== src/Resolver/Kinds.antt =====
-- What the tests on a node's kind, in profile/packages/resolver/src/subtype.mjs, say of the node.
use candid_core.Common.{
  ℕ, ◌≡◌, refl, sym, ap, true, arith, ◌==◌, ==_iff, Bool-cases, inl, inr, ◌∙◌, if◌then◌else◌,
}
use candid_core.Resolver.Graph.{
  Primitive, null, bool, nat, nat8, nat16, nat32, nat64, int, int8, int16, int32, int64, float32,
  float64, text, reserved, empty, principal, primitive_code, FuncMode, update, query,
  composite_query, oneway, Node, primitive, opt, vec, record_of, variant, func, service, class,
}
use candid_core.Resolver.Subtype.{
  kind, inner_of, fields_of, methods_of, mode_of, args_of, results_of, func_mode_code, is_primitive,
  primitive_rule,
}

pub kind-opt : (n : Node) → kind n ≡ 1 → n ≡ opt (inner_of n)
kind-opt n h = ground arith

pub kind-vec : (n : Node) → kind n ≡ 2 → n ≡ vec (inner_of n)
kind-vec n h = ground arith

pub kind-record_of : (n : Node) → kind n ≡ 3 → n ≡ record_of (fields_of n)
kind-record_of n h = ground arith

pub kind-variant : (n : Node) → kind n ≡ 4 → n ≡ variant (fields_of n)
kind-variant n h = ground arith

pub kind-func : (n : Node) → kind n ≡ 5 → n ≡ func (mode_of n) (args_of n) (results_of n)
kind-func n h = ground arith

pub kind-service : (n : Node) → kind n ≡ 6 → n ≡ service (methods_of n)
kind-service n h = ground arith

-- Codes tell primitives apart.
abbrev primitive_at : ℕ → Primitive
primitive_at n =
    if n == 0
    then null
    else if n == 1
    then bool
    else if n == 2
    then nat
    else if n == 3
    then nat8
    else if n == 4
    then nat16
    else if n == 5
    then nat32
    else if n == 6
    then nat64
    else if n == 7
    then int
    else if n == 8
    then int8
    else if n == 9
    then int16
    else if n == 10
    then int32
    else if n == 11
    then int64
    else if n == 12
    then float32
    else if n == 13
    then float64
    else if n == 14
    then text
    else if n == 15
    then reserved
    else if n == 16
    then empty
    else principal

primitive_at-primitive_code : (p : Primitive) → primitive_at (primitive_code p) ≡ p
primitive_at-primitive_code null = refl
primitive_at-primitive_code bool = refl
primitive_at-primitive_code nat = refl
primitive_at-primitive_code nat8 = refl
primitive_at-primitive_code nat16 = refl
primitive_at-primitive_code nat32 = refl
primitive_at-primitive_code nat64 = refl
primitive_at-primitive_code int = refl
primitive_at-primitive_code int8 = refl
primitive_at-primitive_code int16 = refl
primitive_at-primitive_code int32 = refl
primitive_at-primitive_code int64 = refl
primitive_at-primitive_code float32 = refl
primitive_at-primitive_code float64 = refl
primitive_at-primitive_code text = refl
primitive_at-primitive_code reserved = refl
primitive_at-primitive_code empty = refl
primitive_at-primitive_code principal = refl

pub primitive_code-injective : (p q : Primitive) → primitive_code p ≡ primitive_code q → p ≡ q
primitive_code-injective p q h =
    sym (primitive_at-primitive_code p) ∙ ap primitive_at h ∙ primitive_at-primitive_code q

mode_at : ℕ → FuncMode
mode_at n =
    if n == 0 then update else if n == 1 then query else if n == 2 then composite_query else oneway

mode_at-func_mode_code : (m : FuncMode) → mode_at (func_mode_code m) ≡ m
unfolding mode_at
mode_at-func_mode_code update = refl
mode_at-func_mode_code query = refl
mode_at-func_mode_code composite_query = refl
mode_at-func_mode_code oneway = refl

pub func_mode_code-injective : (m n : FuncMode) → func_mode_code m ≡ func_mode_code n → m ≡ n
func_mode_code-injective m n h =
    sym (mode_at-func_mode_code m) ∙ ap mode_at h ∙ mode_at-func_mode_code n

-- `is_primitive code n` names the primitive.
pub is_primitive-eq :
    (p : Primitive) (n : Node) → is_primitive (primitive_code p) n ≡ true → n ≡ primitive p
is_primitive-eq p (primitive q) h =
    ap primitive (primitive_code-injective q p ((==_iff (primitive_code q) (primitive_code p)).0 h))
is_primitive-eq p (opt a) h = cc
is_primitive-eq p (vec a) h = cc
is_primitive-eq p (record_of a) h = cc
is_primitive-eq p (variant a) h = cc
is_primitive-eq p (func a b c) h = cc
is_primitive-eq p (service a) h = cc
is_primitive-eq p (class a b) h = cc

-- The two ways in which the rule on primitives holds.
pub data Primitives (n m : Node) : Type 0 where
  alike : (p : Primitive) → n ≡ primitive p → m ≡ primitive p → Primitives n m
  widened : n ≡ primitive nat → m ≡ primitive int → Primitives n m

codes-Primitives :
    (p q : Primitive)
    → primitive_rule (primitive p) (primitive q) ≡ true
    → Primitives (primitive p) (primitive q)
codes-Primitives p q h = elim (Bool-cases (primitive_code p == primitive_code q)) [
  | inl e ↦ alike p refl (ap primitive (sym (primitive_code-injective p q ((==_iff _ _).0 e))))
  | inr e ↦
      let g : (primitive_code p ≡ 2) × (primitive_code q ≡ 7) = ground arith in
      widened (ap primitive (primitive_code-injective p nat g.0))
        (ap primitive (primitive_code-injective q int g.1))
]

pub primitive_rule-Primitives : (n m : Node) → primitive_rule n m ≡ true → Primitives n m
primitive_rule-Primitives (primitive p) (primitive q) h = codes-Primitives p q h
primitive_rule-Primitives (primitive p) (opt a) h = cc
primitive_rule-Primitives (primitive p) (vec b) h = cc
primitive_rule-Primitives (primitive p) (record_of b) h = cc
primitive_rule-Primitives (primitive p) (variant b) h = cc
primitive_rule-Primitives (primitive p) (func a b c) h = cc
primitive_rule-Primitives (primitive p) (service b) h = cc
primitive_rule-Primitives (primitive p) (class a b) h = cc
primitive_rule-Primitives (opt a) m h = cc
primitive_rule-Primitives (vec a) m h = cc
primitive_rule-Primitives (record_of a) m h = cc
primitive_rule-Primitives (variant a) m h = cc
primitive_rule-Primitives (func a b c) m h = cc
primitive_rule-Primitives (service a) m h = cc
primitive_rule-Primitives (class a b) m h = cc
