-- ===== src/Resolver/Rules/Strict.antt =====
-- Subtyping by Candid's rules alone (the header of profile/packages/resolver/src/subtype.mjs): strict
-- queries, which the relaxation for extra cases of a variant does not serve.
use candid_core.Common.{ℕ, ◌≡◌, refl, List, [], ◌∷◌, All-map}
use candid_core.Resolver.Graph.{Field, Method, Node, Iface}
use candid_core.Resolver.Checker.{Mode, strict, relaxed, Query}
use candid_core.Resolver.Rules.{
  FieldHeld, present, left_out, CaseHeld, extra, TupleHeld, MethodHeld, NodeRule, to_reserved,
  from_empty, primitives, nat_int, null_opt, opts, constituents, vecs, records, variants, funcs,
  services, Justified, same, by_rule, IsSubtype,
}

-- The strict queries of a relation.
abbrev pub StrictOnes : (Query → Type 0) → Query → Type 0
StrictOnes R q = R q × (q.mode ≡ strict)

module _ (ifaces : ℕ → Iface) {R : Query → Type 0} (q : Query) (h : q.mode ≡ strict) where
  field_strict :
      (have : List Field) (f : Field)
      → FieldHeld ifaces R q have f
      → FieldHeld ifaces (StrictOnes R) q have f
  field_strict have f (present s e r) = present s e (r, h)
  field_strict have f (left_out e n) = left_out e n

  case_strict :
      (have : List Field) (f : Field)
      → CaseHeld ifaces R q have f
      → CaseHeld ifaces (StrictOnes R) q have f
  case_strict have f (present s e r) = present s e (r, h)
  case_strict have f (extra e n) = extra e n

  method_strict :
      (have : List Method) (m : Method)
      → MethodHeld ifaces R q have m
      → MethodHeld ifaces (StrictOnes R) q have m
  method_strict have m (present s e r) = present s e (r, refl)

tuple_strict :
    (ifaces : ℕ → Iface) (R : Query → Type 0) (given_at needed_at : ℕ) (needed given : List ℕ)
    → TupleHeld ifaces R given_at needed_at needed given
    → TupleHeld ifaces (StrictOnes R) given_at needed_at needed given
tuple_strict ifaces R given_at needed_at [] given k = tt
tuple_strict ifaces R given_at needed_at (n ∷ needed) [] k =
    (k.0, tuple_strict ifaces R given_at needed_at needed [] k.1)
tuple_strict ifaces R given_at needed_at (n ∷ needed) (g ∷ given) k =
    ((k.0, refl), tuple_strict ifaces R given_at needed_at needed given k.1)

module _ (ifaces : ℕ → Iface) {R : Query → Type 0} (q : Query) (h : q.mode ≡ strict) where
  rule_strict : (ns nt : Node) → NodeRule ifaces R q ns nt → NodeRule ifaces (StrictOnes R) q ns nt
  rule_strict ns nt (to_reserved _) = to_reserved _
  rule_strict ns nt (from_empty _) = from_empty _
  rule_strict ns nt (primitives p r e) = primitives p r e
  rule_strict ns nt nat_int = nat_int
  rule_strict ns nt (null_opt b) = null_opt b
  rule_strict ns nt (opts a b r) = opts a b (r, h)
  rule_strict ns nt (constituents m b n l r) = constituents m b n l (r, h)
  rule_strict ns nt (vecs a b r) = vecs a b (r, h)
  rule_strict ns nt (records fs gs k) = records fs gs (All-map (field_strict ifaces q h fs) gs k)
  rule_strict ns nt (variants fs gs k) = variants fs gs (All-map (case_strict ifaces q h gs) fs k)
  rule_strict ns nt (funcs m n a b c d e g k) =
      funcs m n a b c d e (tuple_strict ifaces R q.target q.source a c g)
        (tuple_strict ifaces R q.source q.target d b k)
  rule_strict ns nt (services ms js k) = services ms js (All-map (method_strict ifaces q h ms) js k)

  pub Justified-StrictOnes : Justified ifaces R q → Justified ifaces (StrictOnes R) q
  Justified-StrictOnes (same e) = same e
  Justified-StrictOnes (by_rule ns nt e f k) = by_rule ns nt e f (rule_strict ns nt k)

-- A subtype of Candid: in a relation of strict queries that the rules justify by itself. A strict query
-- has no use for the rule of extra cases.
pub record IsCandidSubtype (ifaces : ℕ → Iface) (q : Query) : Type 1 where
  pub relation : Query → Type 0
  pub strict_all : (x : Query) → relation x → x.mode ≡ strict
  pub justified : (x : Query) → relation x → Justified ifaces relation x
  pub related : relation q

-- What a mode asks of a query: a subtype of Candid, or one up to extra cases of variants.
abbrev pub SubtypeIn : Mode → (ℕ → Iface) → Query → Type 1
SubtypeIn strict ifaces q = IsCandidSubtype ifaces q
SubtypeIn relaxed ifaces q = IsSubtype ifaces q

pub IsSubtype-SubtypeIn :
    (ifaces : ℕ → Iface) (q : Query) (mode : Mode)
    → q.mode ≡ mode
    → IsSubtype ifaces q
    → SubtypeIn mode ifaces q
IsSubtype-SubtypeIn ifaces q relaxed h s = s
IsSubtype-SubtypeIn ifaces q strict h s = record {
  relation = StrictOnes s.relation;
  strict_all = λ x k. k.1;
  justified = λ x k. Justified-StrictOnes ifaces x k.1 (s.justified x k.0);
  related = (s.related, h);
}
