-- ===== src/Resolver/Subtype/Complete.antt =====
-- `sub` of profile/packages/resolver/src/subtype.mjs refuses no subtype, other than for its budget.
use candid_core.Resolver.Subtype.Follows.{rules_at-Branch}
use candid_core.Resolver.Met.{Met}
use candid_core.Resolver.Subtype.Branches.{
  Branch, accept, reject, broken, ask_one, ask_opt, ask_parts, ask_cases,
}
use candid_core.Resolver.Parts.{Part, ask, refuse, extra_labels, variant_parts, pass, crash}
use candid_core.Resolver.Rules.{Justified, IsSubtype, NodeRule, same, by_rule}
use candid_core.Resolver.Checker.{
  Query, Checker, Answer, fails, Options, Segments, step_budget, depth_limit, is_same, has, holds,
  thrown, out_of_fuel,
}
use candid_core.Resolver.Graph.{Iface, Node}
use candid_core.Common.{
  ℕ, zero, suc, ◌+◌, Bool, true, false, List, [], ◌∷◌, ◌≡◌, refl, ◌⊎◌, inl, inr, ltb, leb, All,
  Bool-cases,
}
use candid_core.Resolver.Subtype.{
  sub, Answer, Query, Checker, Iface, lossy, next, leave, run_parts, Part, sub_with, rules, enter,
  counted, noted,
}

-- An answer that is not a refusal, other than by a limit, and not an exception.
abbrev pub Spared : Answer → Type 0
Spared (holds, c) = Unit
Spared (thrown, c) = ⊥
Spared (out_of_fuel, c) = Unit
Spared (fails path reason, c) = (reason ≡ step_budget) ⊎ (reason ≡ depth_limit)

Spared-next :
    (rest : Checker → Answer) (a : Answer)
    → Spared a
    → ((c : Checker) → Spared (rest c))
    → Spared (next rest a)
Spared-next rest (holds, c) h k = k c
Spared-next rest (thrown, c) h k = elim h [ ]
Spared-next rest (out_of_fuel, c) h k = tt
Spared-next rest (fails path reason, c) h k = h

Spared-lossy : (b : Bool) (a : Answer) → Spared a → Spared (lossy b a)
Spared-lossy b (holds, c) h = tt
Spared-lossy b (thrown, c) h = h
Spared-lossy b (out_of_fuel, c) h = tt
Spared-lossy true (fails path reason, c) h = tt
Spared-lossy false (fails path reason, c) h = h

Spared-leave : (q : Query) (a : Answer) → Spared a → Spared (leave q a)
Spared-leave q (holds, c) h = tt
Spared-leave q (thrown, c) h = h
Spared-leave q (out_of_fuel, c) h = tt
Spared-leave q (fails path reason, c) h = h

module _ (ifaces : ℕ → Iface) (R : Query → Type 0) (call : Checker → Query → Segments → Answer)
    (spares : (c : Checker) (q : Query) (path : Segments) → R q → Spared (call c q path)) where
  run_parts-Spared :
      (parts : List Part) (c : Checker) → All (Met R) parts → Spared (run_parts call parts c)
  unfolding run_parts
  run_parts-Spared [] c h = tt
  run_parts-Spared (ask q path ∷ parts) c h =
      Spared-next (run_parts call parts) (call c q path) (spares c q path h.0)
        (λ d. run_parts-Spared parts d h.1)
  run_parts-Spared (pass ∷ parts) c h = run_parts-Spared parts c h.1
  run_parts-Spared (crash ∷ parts) c h = elim h.0 [ ]
  run_parts-Spared (refuse path reason ∷ parts) c h = elim h.0 [ ]

  Branch-Spared :
      (b : Bool) (c : Checker) (q : Query) (path : Segments) (ns nt : Node) (a : Answer)
      → Branch ifaces b call c q path ns nt a
      → NodeRule ifaces R q ns nt
      → Spared a
  Branch-Spared b c q path ns nt a (accept rule) h = tt
  Branch-Spared b c q path ns nt a (reject reason rule) h = elim (rule.from R h) [ ]
  Branch-Spared b c q path ns nt a (broken rule) h = elim (rule.from R h) [ ]
  Branch-Spared b c q path ns nt a (ask_one x at rule quiet) h = spares c x at (rule.from R h)
  Branch-Spared b c q path ns nt a (ask_opt x at rule quiet) h =
      Spared-lossy b (call c x at) (spares c x at (rule.from R h))
  Branch-Spared b c q path ns nt a (ask_parts parts rule quiet) h =
      run_parts-Spared parts c (rule.from R h)
  Branch-Spared b c q path ns nt a (ask_cases fs gs rule) h =
      Spared-next (λ d. (holds, noted path (extra_labels ifaces q gs fs) d)) _
        (run_parts-Spared (variant_parts ifaces q path gs fs) c (rule.from R h)) (λ d. tt)

  module _ (options : Options) where
    rules-Spared :
        (c : Checker) (q : Query) (path : Segments)
        → Justified ifaces R q
        → is_same q ≡ false
        → Spared (rules ifaces options call c q path)
    rules-Spared c q path (same alike) apart = cc
    rules-Spared c q path (by_rule ns nt e f rule) apart =
        rw (e, f)
          (Branch-Spared options.lossy_opt c q path ns nt _
            (rules_at-Branch ifaces options call c q path ns nt) rule)

    sub_with-Spared :
        (c : Checker) (q : Query) (path : Segments)
        → Justified ifaces R q
        → Spared (sub_with ifaces options call c q path)
    sub_with-Spared c q path j = elim (Bool-cases (is_same q)) [
      | inl alike ↦ rw alike tt
      | inr apart ↦ rw apart (elim (Bool-cases (has c.gamma q)) [
        | inl known ↦ rw known tt
        | inr new ↦ rw new (elim (Bool-cases (ltb options.max_steps (c.steps + 1))) [
          | inl over ↦ rw over (inl refl)
          | inr within ↦ rw within (elim (Bool-cases (leb options.max_depth c.depth)) [
            | inl deep ↦ rw deep (inr refl)
            | inr shallow ↦
                rw shallow (Spared-leave q _ (rules-Spared (enter q (counted c)) q path j apart))
          ])
        ])
      ])
    ]

sub-related :
    (ifaces : ℕ → Iface) (options : Options) (R : Query → Type 0)
    → ((x : Query) → R x → Justified ifaces R x)
    → (fuel : ℕ) (c : Checker) (q : Query) (path : Segments) → R q
    → Spared (sub ifaces options fuel c q path)
unfolding sub
sub-related ifaces options R justified zero c q path h = tt
sub-related ifaces options R justified (suc fuel) c q path h =
    sub_with-Spared ifaces R (sub ifaces options fuel) (sub-related ifaces options R justified fuel)
      options c q path (justified q h)

-- A subtype is refused by no rule, whatever was assumed before, with the unusual rules on or off: `sub`
-- accepts it, or gives one of its two limits as the reason, and throws nothing.
pub sub-Spared :
    (ifaces : ℕ → Iface) (options : Options) (fuel : ℕ) (c : Checker) (q : Query) (path : Segments)
    → IsSubtype ifaces q
    → Spared (sub ifaces options fuel c q path)
sub-Spared ifaces options fuel c q path h =
    sub-related ifaces options h.relation h.justified fuel c q path h.related
