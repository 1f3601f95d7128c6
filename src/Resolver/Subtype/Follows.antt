-- ===== src/Resolver/Subtype/Follows.antt =====
-- `#rules` of profile/packages/resolver/src/subtype.mjs follows the rules of Candid: one of the branches of
-- Branches.antt is taken at every two nodes.
use candid_core.Resolver.Met.{
  func_parts-Met, service_parts-Met, record_parts-Met, variant_parts-Met, Met-record_parts,
  Met-variant_parts, Met-service_parts, Met-func_parts,
}
use candid_core.Common.{
  ℕ, Bool, true, false, ◌||◌, List, ◌≡◌, refl, sym, ap, subst, inl, inr, arith, ◌==◌, ==_iff,
  if◌then◌else◌, Option, none, some, Bool-cases,
}
use candid_core.Resolver.Kinds.{
  is_primitive-eq, kind-vec, kind-func, kind-service, func_mode_code-injective, kind-record_of,
  kind-variant, Primitives, kind-opt, alike, widened, primitive_rule-Primitives,
}
use candid_core.Resolver.Rules.{
  opts, null_opt, constituents, vecs, records, variants, services, funcs, to_reserved, from_empty,
  primitives, nat_int,
}
use candid_core.Resolver.Subtype.{
  kind, is_primitive, opt_target, constituent, same_kind, methods_of, fields_of, func_mode_code,
  mode_of, args_of, inner_of, results_of, rules_at, plain, primitive_rule,
}
use candid_core.Resolver.Checker.{
  Options, Checker, Query, Answer, Segments, mismatch, unsupported, other_mode, holds, fails,
}
use candid_core.Resolver.Graph.{
  Iface, Node, Primitive, primitive, opt, null, vec, record_of, variant, func, is_null_like,
  service, class, Method, FuncMode, Field, reserved, empty,
}
use candid_core.Resolver.Subtype.Branches.{
  Branch, ask_opt, opts-inner, accept, broken, constituents-inner, reject, ask_one, no_class,
  ask_parts, ask_cases, vecs-inner, funcs-tuples, variants-fields, services-methods, records-fields,
  service_parts-Quiet, func_parts-Quiet, record_parts-Quiet, rule-kinds, IsRule,
}

module _ (ifaces : ℕ → Iface) (options : Options) (call : Checker → Query → Segments → Answer)
    (c : Checker) (q : Query) (path : Segments) where
  -- Where null <: T is known.
  constituent-Branch :
      (ns : Node) (b : ℕ)
      → (kind ns == 1) ≡ false
      → is_primitive 16 ns ≡ false
      → is_primitive 0 ns ≡ false
      → (known : Option Bool) → is_null_like (ifaces q.target) b ≡ known
      → Branch ifaces options.lossy_opt call c q path ns
          (opt b)
          (constituent ifaces options call c q path b known)
  constituent-Branch ns b k e n none h = broken (record {
    to = λ R w. elim w [ ];
    from = λ R w. let g = (constituents-inner ifaces R q ns b w k e n).0 in cc;
  })
  constituent-Branch ns b k e n (some true) h = reject mismatch (record {
    to = λ R w. elim w [ ];
    from = λ R w. let g = (constituents-inner ifaces R q ns b w k e n).0 in cc;
  })
  constituent-Branch ns b k e n (some false) h =
      ask_one _ path
        (record {
          to = λ R w.
              constituents ns b (λ a same. let g : kind ns ≡ 1 = ap kind same in ground arith) h w;
          from = λ R w. (constituents-inner ifaces R q ns b w k e n).1;
        })
        (λ h. h)

  primitive-Branch :
      (p : Primitive) (b : ℕ)
      → is_primitive 16 (primitive p) ≡ false
      → Branch ifaces options.lossy_opt call c q path
          (primitive p)
          (opt b)
          (opt_target ifaces options call c q path (primitive p) b)
  primitive-Branch p b e = elim (Bool-cases (is_primitive 0 (primitive p))) [
    | inl is_null ↦
        let same : primitive p ≡ primitive null = is_primitive-eq null (primitive p) is_null in
        rw (is_null, same) (accept (record { to = λ R w. null_opt b; from = λ R w. tt }))
    | inr other ↦
        rw other
          (constituent-Branch (primitive p) b refl e other (is_null_like (ifaces q.target) b) refl)
  ]

  opt_target-Branch :
      (ns : Node) (b : ℕ)
      → is_primitive 16 ns ≡ false
      → Branch ifaces options.lossy_opt call c q path ns
          (opt b)
          (opt_target ifaces options call c q path ns b)
  opt_target-Branch (opt a) b e =
      ask_opt _ path (record { to = λ R w. opts a b w; from = λ R w. opts-inner ifaces R q a b w })
        (λ h. h)
  opt_target-Branch (primitive p) b e = primitive-Branch p b e
  opt_target-Branch (vec a) b e = constituent-Branch (vec a) b refl refl refl _ refl
  opt_target-Branch (record_of a) b e = constituent-Branch (record_of a) b refl refl refl _ refl
  opt_target-Branch (variant a) b e = constituent-Branch (variant a) b refl refl refl _ refl
  opt_target-Branch (func m a d) b e = constituent-Branch (func m a d) b refl refl refl _ refl
  opt_target-Branch (service a) b e = constituent-Branch (service a) b refl refl refl _ refl
  opt_target-Branch (class a d) b e = constituent-Branch (class a d) b refl refl refl _ refl

  vec-Branch :
      (a : ℕ) (nt : Node)
      → kind nt ≡ 2
      → Branch ifaces options.lossy_opt call c q path
          (vec a)
          nt
          (same_kind ifaces options call c q path (vec a) nt)
  vec-Branch a nt k =
      subst
        (λ n.
          Branch ifaces options.lossy_opt call c q path (vec a) n
            (same_kind ifaces options call c q path (vec a) n))
        (sym (kind-vec nt k))
        (ask_one _ _
          (record {
            to = λ R w. vecs a (inner_of nt) w;
            from = λ R w. vecs-inner ifaces R q a (inner_of nt) w;
          })
          (λ h. h))

  record_of-Branch :
      (fs : List Field) (nt : Node)
      → kind nt ≡ 3
      → Branch ifaces options.lossy_opt call c q path
          (record_of fs)
          nt
          (same_kind ifaces options call c q path (record_of fs) nt)
  record_of-Branch fs nt k =
      let gs = fields_of nt in
      subst
        (λ n.
          Branch ifaces options.lossy_opt call c q path (record_of fs) n
            (same_kind ifaces options call c q path (record_of fs) n))
        (sym (kind-record_of nt k))
        (ask_parts _
          (record {
            to = λ R w. records fs gs (record_parts-Met ifaces R q path fs gs w);
            from =
                λ R w. Met-record_parts ifaces R q path fs gs (records-fields ifaces R q fs gs w);
          })
          (record_parts-Quiet ifaces q path fs gs))

  variant-Branch :
      (fs : List Field) (nt : Node)
      → kind nt ≡ 4
      → Branch ifaces options.lossy_opt call c q path
          (variant fs)
          nt
          (same_kind ifaces options call c q path (variant fs) nt)
  variant-Branch fs nt k =
      let gs = fields_of nt in
      subst
        (λ n.
          Branch ifaces options.lossy_opt call c q path (variant fs) n
            (same_kind ifaces options call c q path (variant fs) n))
        (sym (kind-variant nt k))
        (ask_cases fs gs (record {
          to = λ R w. variants fs gs (variant_parts-Met ifaces R q path gs fs w);
          from =
              λ R w. Met-variant_parts ifaces R q path gs fs (variants-fields ifaces R q fs gs w);
        }))

  service-Branch :
      (ms : List Method) (nt : Node)
      → kind nt ≡ 6
      → Branch ifaces options.lossy_opt call c q path
          (service ms)
          nt
          (same_kind ifaces options call c q path (service ms) nt)
  service-Branch ms nt k =
      let js = methods_of nt in
      subst
        (λ n.
          Branch ifaces options.lossy_opt call c q path (service ms) n
            (same_kind ifaces options call c q path (service ms) n))
        (sym (kind-service nt k))
        (ask_parts _
          (record {
            to = λ R w. services ms js (service_parts-Met ifaces R q path ms js w);
            from = λ R w.
                Met-service_parts ifaces R q path ms js (services-methods ifaces R q ms js w);
          })
          (λ h. service_parts-Quiet ifaces q path ms js))

  two_funcs-Branch :
      (m n : FuncMode) (a b d e : List ℕ)
      → Branch ifaces options.lossy_opt call c q path
          (func m a b)
          (func n d e)
          (same_kind ifaces options call c q path (func m a b) (func n d e))
  two_funcs-Branch m n a b d e = elim (Bool-cases (func_mode_code m == func_mode_code n)) [
    | inl k ↦
        let alike = func_mode_code-injective m n ((==_iff _ _).0 k) in
        rw k (
          ask_parts _
            (record {
              to = λ R w.
                  let (args, results) = func_parts-Met ifaces R q path a b d e w in
                  funcs m n a b d e alike args results;
              from = λ R w.
                  let (same, args, results) = funcs-tuples ifaces R q m n a b d e w in
                  Met-func_parts ifaces R q path a b d e args results;
            })
            (λ h. func_parts-Quiet ifaces q path a b d e))
    | inr k ↦ rw k (
        reject other_mode (record {
          to = λ R w. elim w [ ];
          from = λ R w.
              let same = ap func_mode_code (funcs-tuples ifaces R q m n a b d e w).0 in
              ground arith;
        }))
  ]

  func-Branch :
      (m : FuncMode) (a b : List ℕ) (nt : Node)
      → kind nt ≡ 5
      → Branch ifaces options.lossy_opt call c q path
          (func m a b)
          nt
          (same_kind ifaces options call c q path (func m a b) nt)
  func-Branch m a b nt k =
      subst
        (λ n.
          Branch ifaces options.lossy_opt call c q path (func m a b) n
            (same_kind ifaces options call c q path (func m a b) n))
        (sym (kind-func nt k)) (two_funcs-Branch m (mode_of nt) a b (args_of nt) (results_of nt))

  -- The two nodes are of one kind, which is neither opt nor primitive.
  same_kind-Branch :
      (ns nt : Node)
      → kind ns ≡ kind nt
      → (kind ns == 1) ≡ false
      → (kind ns == 0) ≡ false
      → Branch ifaces options.lossy_opt call c q path ns nt
          (same_kind ifaces options call c q path ns nt)
  same_kind-Branch (primitive p) nt k o z = cc
  same_kind-Branch (opt a) nt k o z = cc
  same_kind-Branch (vec a) nt k o z = vec-Branch a nt (sym k)
  same_kind-Branch (record_of fs) nt k o z = record_of-Branch fs nt (sym k)
  same_kind-Branch (variant fs) nt k o z = variant-Branch fs nt (sym k)
  same_kind-Branch (func m a b) nt k o z = func-Branch m a b nt (sym k)
  same_kind-Branch (service ms) nt k o z = service-Branch ms nt (sym k)
  same_kind-Branch (class a b) nt k o z =
      reject unsupported
        (record { to = λ R w. elim w [ ]; from = λ R w. no_class ifaces R q a b nt (sym k) w })

  primitives-Branch :
      (ns nt : Node)
      → is_primitive 15 nt ≡ false
      → is_primitive 16 ns ≡ false
      → (kind nt == 1) ≡ false
      → (kind ns == 0 || kind nt == 0) ≡ true
      → Branch ifaces options.lossy_opt call c q path ns nt
          (if primitive_rule ns nt then (holds, c) else (fails path mismatch, c))
  primitives-Branch ns nt a b o z = elim (Bool-cases (primitive_rule ns nt)) [
    | inl h ↦ rw h (accept (primitives-IsRule (primitive_rule-Primitives ns nt h)))
    | inr h ↦ rw h (
        reject mismatch (record {
          to = λ R w. elim w [ ];
          from = λ R w.
              let (k, p) = rule-kinds ifaces R q ns nt w a b o in
              let first : (kind ns == 0) ≡ true = ground arith in let g = p first in cc;
        }))
  ]
    where
      primitives-IsRule : Primitives ns nt → IsRule ifaces q ns nt (λ R. Unit {0})
      primitives-IsRule (alike p e f) =
          rw (e, f) (record { to = λ R w. primitives p p refl; from = λ R w. tt })
      primitives-IsRule (widened e f) = rw (e, f) (record { to = λ R w. nat_int; from = λ R w. tt })

  plain-Branch :
      (ns nt : Node)
      → is_primitive 15 nt ≡ false
      → is_primitive 16 ns ≡ false
      → (kind nt == 1) ≡ false
      → Branch ifaces options.lossy_opt call c q path ns nt
          (plain ifaces options call c q path ns nt)
  plain-Branch ns nt a b o = elim (Bool-cases (kind ns == 1)) [
    | inl h ↦ rw h (
        reject mismatch (record {
          to = λ R w. elim w [ ];
          from = λ R w. let alike = (rule-kinds ifaces R q ns nt w a b o).0 in ground arith;
        }))
    | inr h ↦ rw h (elim (Bool-cases (kind ns == 0 || kind nt == 0)) [
      | inl z ↦ rw z (primitives-Branch ns nt a b o z)
      | inr z ↦ rw z (elim (Bool-cases (kind ns == kind nt)) [
        | inl k ↦ rw k (same_kind-Branch ns nt ((==_iff _ _).0 k) h (ground arith))
        | inr k ↦ rw k (
            reject mismatch (record {
              to = λ R w. elim w [ ];
              from = λ R w. let alike = (rule-kinds ifaces R q ns nt w a b o).0 in ground arith;
            }))
      ])
    ])
  ]

  -- `#rules` at two nodes takes one of the branches.
  pub rules_at-Branch :
      (ns nt : Node)
      → Branch ifaces options.lossy_opt call c q path ns nt
          (rules_at ifaces options call c q path (some ns) (some nt))
  unfolding rules_at
  rules_at-Branch ns nt = elim (Bool-cases (is_primitive 15 nt)) [
    | inl r ↦
        let same = is_primitive-eq reserved nt r in
        rw (r, same) (accept (record { to = λ R w. to_reserved ns; from = λ R w. tt }))
    | inr r ↦ rw r (elim (Bool-cases (is_primitive 16 ns)) [
      | inl e ↦
          let same = is_primitive-eq empty ns e in
          rw (e, same) (accept (record { to = λ R w. from_empty nt; from = λ R w. tt }))
      | inr e ↦ rw e (elim (Bool-cases (kind nt == 1)) [
        | inl o ↦
            let same = kind-opt nt ((==_iff _ _).0 o) in
            rw o (
              subst
                (λ n.
                  Branch ifaces options.lossy_opt call c q path ns n
                    (opt_target ifaces options call c q path ns (inner_of nt)))
                (sym same) (opt_target-Branch ns (inner_of nt) e))
        | inr o ↦ rw o (plain-Branch ns nt r e o)
      ])
    ])
  ]
