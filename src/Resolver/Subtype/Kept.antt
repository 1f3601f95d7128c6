-- ===== src/Resolver/Subtype/Kept.antt =====
-- What every branch of `#rules` in profile/packages/resolver/src/subtype.mjs keeps if its calls of `sub` do.
use candid_core.Resolver.Subtype.Branches.{
  Branch, accept, reject, broken, ask_one, ask_opt, ask_parts, ask_cases,
}
use candid_core.Resolver.Subtype.Follows.{rules_at-Branch}
use candid_core.Resolver.Parts.{Part, ask, refuse, pass, crash, extra_labels, variant_parts}
use candid_core.Format.Chars.{Text}
use candid_core.Resolver.Checker.{
  Checker, Answer, Options, Query, holds, Segments, Reason, fails, thrown, out_of_fuel,
}
use candid_core.Resolver.Graph.{Iface, Node, node}
use candid_core.Common.{ℕ, Bool, List, [], ◌∷◌, Option, none, some}
use candid_core.Resolver.Subtype.{
  Checker, Iface, next, rules, rules_at, run_parts, Text, noted, Part, lossy,
}

-- A property of a checker before a call and the answer, which a rule's branches keep if its calls do.
pub record IsKept (Ready : Checker → Type 0) (P : Checker → Answer → Type 0) (lossy_opt : Bool)
    : Type 0 where
  pub holds_now : (c : Checker) → Ready c → P c (holds, c)
  pub fails_now :
      (c : Checker) (path : Segments) (reason : Reason) → Ready c → P c (fails path reason, c)
  pub throws_now : (c : Checker) → Ready c → P c (thrown, c)
  pub ready : (c d : Checker) → Ready c → P c (holds, d) → Ready d
  pub chain : (c d : Checker) (a : Answer) → Ready c → P c (holds, d) → P d a → P c a
  pub swallowed : (c : Checker) (a : Answer) → P c a → P c (lossy lossy_opt a)
  pub notes :
      (c d : Checker) (path : Segments) (labels : List Text)
      → P c (holds, d)
      → P c (holds, noted path labels d)

module _ (ifaces : ℕ → Iface) (Ready : Checker → Type 0) (P : Checker → Answer → Type 0)
    (lossy_opt : Bool) (kept : IsKept Ready P lossy_opt)
    (call : Checker → Query → Segments → Answer)
    (keeps : (c : Checker) (q : Query) (path : Segments) → Ready c → P c (call c q path)) where
  next-kept :
      (c : Checker) (rest : Checker → Answer) (a : Answer)
      → Ready c
      → P c a
      → ((d : Checker) → Ready d → P d (rest d))
      → P c (next rest a)
  next-kept c rest (holds, d) r h k = kept.chain c d (rest d) r h (k d (kept.ready c d r h))
  next-kept c rest (thrown, d) r h k = h
  next-kept c rest (out_of_fuel, d) r h k = h
  next-kept c rest (fails path reason, d) r h k = h

  run_parts-kept : (parts : List Part) (c : Checker) → Ready c → P c (run_parts call parts c)
  unfolding run_parts
  run_parts-kept [] c r = kept.holds_now c r
  run_parts-kept (ask q path ∷ parts) c r =
      next-kept c (run_parts call parts) (call c q path) r (keeps c q path r)
        (λ d s. run_parts-kept parts d s)
  run_parts-kept (pass ∷ parts) c r = run_parts-kept parts c r
  run_parts-kept (crash ∷ parts) c r = kept.throws_now c r
  run_parts-kept (refuse path reason ∷ parts) c r = kept.fails_now c path reason r

  cases-kept :
      (path : Segments) (labels : List Text) (c : Checker) (a : Answer)
      → P c a
      → P c (next (λ d. (holds, noted path labels d)) a)
  cases-kept path labels c (holds, d) h = kept.notes c d path labels h
  cases-kept path labels c (thrown, d) h = h
  cases-kept path labels c (out_of_fuel, d) h = h
  cases-kept path labels c (fails at reason, d) h = h

  Branch-kept :
      (c : Checker) (q : Query) (path : Segments) (ns nt : Node) (a : Answer)
      → Branch ifaces lossy_opt call c q path ns nt a
      → Ready c
      → P c a
  Branch-kept c q path ns nt a (accept rule) r = kept.holds_now c r
  Branch-kept c q path ns nt a (reject reason rule) r = kept.fails_now c path reason r
  Branch-kept c q path ns nt a (broken rule) r = kept.throws_now c r
  Branch-kept c q path ns nt a (ask_one x at rule quiet) r = keeps c x at r
  Branch-kept c q path ns nt a (ask_opt x at rule quiet) r =
      kept.swallowed c (call c x at) (keeps c x at r)
  Branch-kept c q path ns nt a (ask_parts parts rule quiet) r = run_parts-kept parts c r
  Branch-kept c q path ns nt a (ask_cases fs gs rule) r =
      cases-kept path (extra_labels ifaces q gs fs) c _
        (run_parts-kept (variant_parts ifaces q path gs fs) c r)

module _ (ifaces : ℕ → Iface) (options : Options) (Ready : Checker → Type 0)
    (P : Checker → Answer → Type 0) (kept : IsKept Ready P options.lossy_opt)
    (call : Checker → Query → Segments → Answer)
    (keeps : (c : Checker) (q : Query) (path : Segments) → Ready c → P c (call c q path)) where
  rules_at-kept :
      (c : Checker) (q : Query) (path : Segments) (ns nt : Option Node)
      → Ready c
      → P c (rules_at ifaces options call c q path ns nt)
  unfolding rules_at
  rules_at-kept c q path none nt r = kept.throws_now c r
  rules_at-kept c q path (some ns) none r = kept.throws_now c r
  rules_at-kept c q path (some ns) (some nt) r =
      Branch-kept ifaces Ready P options.lossy_opt kept call keeps c q path ns nt _
        (rules_at-Branch ifaces options call c q path ns nt) r

  -- So do all the rules.
  pub rules-kept :
      (c : Checker) (q : Query) (path : Segments)
      → Ready c
      → P c (rules ifaces options call c q path)
  rules-kept c q path r =
      rules_at-kept c q path (node (ifaces q.source) q.s) (node (ifaces q.target) q.t) r
