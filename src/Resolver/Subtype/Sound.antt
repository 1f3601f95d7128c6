-- ===== src/Resolver/Subtype/Sound.antt =====
-- `sub` of profile/packages/resolver/src/subtype.mjs accepts subtypes only, each in its mode: what it assumed is
-- a relation that the rules justify, where the two unusual rules of opt are off.
use candid_core.Resolver.Subtype.Follows.{rules_at-Branch}
use candid_core.Resolver.Subtype.Branches.{
  Branch, accept, reject, broken, ask_one, ask_opt, ask_parts, ask_cases,
}
use candid_core.Common.{
  ℕ, zero, suc, ◌+◌, true, false, List, [], ◌∷◌, ◌≡◌, refl, sym, ap, ◌∙◌, subst, ◌⊎◌, inl, inr,
  arith, ltb, leb, All, Option, none, some, Bool-cases,
}
use candid_core.Format.Chars.{Text}
use candid_core.Resolver.Graph.{Node, Iface, node}
use candid_core.Resolver.Checker.{
  Query, Segments, Options, Checker, holds, thrown, out_of_fuel, fails, Answer, has, is_same,
  query_eq→eq, query_eq, query_eq_refl,
}
use candid_core.Resolver.Parts.{Part, ask, pass, crash, refuse, extra_labels, variant_parts}
use candid_core.Resolver.Rules.{Justified, same, IsSubtype, Justified-up, NodeRule, by_rule}
use candid_core.Resolver.Rules.Strict.{SubtypeIn, IsSubtype-SubtypeIn}
use candid_core.Resolver.Met.{Met}
use candid_core.Resolver.Subtype.{
  run_parts, next, sub, enter, counted, noted, rules_at, lossy, sub_with, leave, budgeted, rules,
}

-- What a checker takes as known.
abbrev pub Assumed : List Query → Query → Type 0
Assumed gamma q = (has gamma q ≡ true) ⊎ (is_same q ≡ true)

-- Between two moments nothing is forgotten, and what was added is justified by what is there now.
pub record Grows (ifaces : ℕ → Iface) (before now : List Query) : Type 0 where
  pub keeps : (q : Query) → has before q ≡ true → has now q ≡ true
  pub adds :
      (q : Query) → has now q ≡ true → (has before q ≡ true) ⊎ Justified ifaces (Assumed now) q

pub Assumed-up :
    (a b : List Query)
    → ((q : Query) → has a q ≡ true → has b q ≡ true)
    → (q : Query) → Assumed a q
    → Assumed b q
Assumed-up a b k q (inl h) = inl (k q h)
Assumed-up a b k q (inr h) = inr h

pub Grows-refl : (ifaces : ℕ → Iface) (a : List Query) → Grows ifaces a a
Grows-refl ifaces a = record { keeps = λ q h. h; adds = λ q h. inl h }

pub Grows-trans :
    (ifaces : ℕ → Iface) (a b c : List Query)
    → Grows ifaces a b
    → Grows ifaces b c
    → Grows ifaces a c
Grows-trans ifaces a b c g h =
    let older = λ (q : Query) (k : has b q ≡ true). add q (g.adds q k) in
    record { keeps = λ q k. h.keeps q (g.keeps q k); adds = λ q k. join q (h.adds q k) older }
  where
    add :
        (q : Query)
        → (has a q ≡ true) ⊎ Justified ifaces (Assumed b) q
        → (has a q ≡ true) ⊎ Justified ifaces (Assumed c) q
    add q (inl k) = inl k
    add q (inr j) = inr (Justified-up ifaces (Assumed-up b c h.keeps) q j)

    join :
        (q : Query)
        → (has b q ≡ true) ⊎ Justified ifaces (Assumed c) q
        → ((q : Query) → has b q ≡ true → (has a q ≡ true) ⊎ Justified ifaces (Assumed c) q)
        → (has a q ≡ true) ⊎ Justified ifaces (Assumed c) q
    join q (inl k) older = older q k
    join q (inr j) older = inr j

pub Met-up : {R Q : Query → Type 0} → ((q : Query) → R q → Q q) → (p : Part) → Met R p → Met Q p
Met-up up (ask q path) h = up q h
Met-up up pass h = tt
Met-up up crash h = elim h [ ]
Met-up up (refuse path reason) h = elim h [ ]

pub next-holds :
    (rest : Checker → Answer) (a : Answer) {c : Checker}
    → next rest a ≡ (holds, c)
    → (d : Checker) × (a ≡ (holds, d)) × (rest d ≡ (holds, c))
next-holds rest (holds, d) h = (d, refl, h)
next-holds rest (thrown, d) h = cc
next-holds rest (out_of_fuel, d) h = cc
next-holds rest (fails path reason, d) h = cc

-- A call that accepts grows its assumptions, and its query is one of them.
abbrev pub IsSound : (ℕ → Iface) → (Checker → Query → Segments → Answer) → Type 0
IsSound ifaces call =
    (c : Checker) (q : Query) (path : Segments) (d : Checker)
    → call c q path ≡ (holds, d)
    → Grows ifaces c.gamma d.gamma × Assumed d.gamma q

run_parts-Grows :
    (ifaces : ℕ → Iface) (call : Checker → Query → Segments → Answer)
    → IsSound ifaces call
    → (parts : List Part) (c d : Checker) → run_parts call parts c ≡ (holds, d)
    → Grows ifaces c.gamma d.gamma × All (Met (Assumed d.gamma)) parts
unfolding run_parts
run_parts-Grows ifaces call sound [] c d h =
    let alike : c ≡ d = cc in
    (subst (λ x. Grows ifaces c.gamma x.gamma) alike (Grows-refl ifaces c.gamma), tt)
run_parts-Grows ifaces call sound (ask q path ∷ parts) c d h =
    let (e, asked, rest) = next-holds (run_parts call parts) (call c q path) h in
    let (first, known) = sound c q path e asked in
    let (later, met) = run_parts-Grows ifaces call sound parts e d rest in
    (
      Grows-trans ifaces c.gamma e.gamma d.gamma first later,
      (Assumed-up e.gamma d.gamma later.keeps q known, met),
    )
run_parts-Grows ifaces call sound (pass ∷ parts) c d h =
    let (later, met) = run_parts-Grows ifaces call sound parts c d h in (later, (tt, met))
run_parts-Grows ifaces call sound (crash ∷ parts) c d h = cc
run_parts-Grows ifaces call sound (refuse path reason ∷ parts) c d h = cc

noted-gamma :
    (path : Segments) (labels : List Text) (c : Checker) → (noted path labels c).gamma ≡ c.gamma
noted-gamma path [] c = refl
noted-gamma path (l ∷ ls) c = refl

lossy-holds : (a : Answer) {d : Checker} → lossy false a ≡ (holds, d) → a ≡ (holds, d)
lossy-holds (holds, c) h = h
lossy-holds (thrown, c) h = h
lossy-holds (out_of_fuel, c) h = h
lossy-holds (fails path reason, c) h = h

module _ (ifaces : ℕ → Iface) (call : Checker → Query → Segments → Answer)
    (sound : IsSound ifaces call) where
  -- A branch that accepts has met its rule.
  Branch-Grows :
      (c : Checker) (q : Query) (path : Segments) (ns nt : Node) (a : Answer) (d : Checker)
      → Branch ifaces false call c q path ns nt a
      → a ≡ (holds, d)
      → Grows ifaces c.gamma d.gamma × NodeRule ifaces (Assumed d.gamma) q ns nt
  Branch-Grows c q path ns nt a d (accept rule) h =
      let alike : c ≡ d = cc in
      (
        subst (λ x. Grows ifaces c.gamma x.gamma) alike (Grows-refl ifaces c.gamma),
        rule.to (Assumed d.gamma) tt,
      )
  Branch-Grows c q path ns nt a d (reject reason rule) h = cc
  Branch-Grows c q path ns nt a d (broken rule) h = cc
  Branch-Grows c q path ns nt a d (ask_one x at rule quiet) h =
      let (grows, known) = sound c x at d h in (grows, rule.to (Assumed d.gamma) known)
  Branch-Grows c q path ns nt a d (ask_opt x at rule quiet) h =
      let (grows, known) = sound c x at d (lossy-holds (call c x at) h) in
      (grows, rule.to (Assumed d.gamma) known)
  Branch-Grows c q path ns nt a d (ask_parts parts rule quiet) h =
      let (grows, met) = run_parts-Grows ifaces call sound parts c d h in
      (grows, rule.to (Assumed d.gamma) met)
  Branch-Grows c q path ns nt a d (ask_cases fs gs rule) h =
      let labels = extra_labels ifaces q gs fs in
      let (e, ran, rest) =
        next-holds (λ c. (holds, noted path labels c))
          (run_parts call (variant_parts ifaces q path gs fs) c) h in
      let alike : noted path labels e ≡ d = cc in
      let gamma : e.gamma ≡ d.gamma =
        sym (noted-gamma path labels e) ∙ ap (λ (x : Checker). x.gamma) alike in
      let (grows, met) =
        run_parts-Grows ifaces call sound (variant_parts ifaces q path gs fs) c e ran in
      subst (λ g. Grows ifaces c.gamma g × NodeRule ifaces (Assumed g) q ns nt) gamma
        (grows, rule.to (Assumed e.gamma) met)

  module _ (options : Options) (off : options.lossy_opt ≡ false) where
    rules_at-Grows :
        (c : Checker) (q : Query) (path : Segments) (d : Checker) (ns nt : Option Node)
        → node (ifaces q.source) q.s ≡ ns
        → node (ifaces q.target) q.t ≡ nt
        → rules_at ifaces options call c q path ns nt ≡ (holds, d)
        → Grows ifaces c.gamma d.gamma × Justified ifaces (Assumed d.gamma) q
    unfolding rules_at
    rules_at-Grows c q path d none nt e f h = cc
    rules_at-Grows c q path d (some ns) none e f h = cc
    rules_at-Grows c q path d (some ns) (some nt) e f h =
        let branch = rules_at-Branch ifaces options call c q path ns nt in
        let (grows, rule) =
          Branch-Grows c q path ns nt _ d
            (subst
              (λ b.
                Branch ifaces b call c q path ns nt
                  (rules_at ifaces options call c q path (some ns) (some nt)))
              off branch)
            h in
        (grows, by_rule ns nt e f rule)

    leave-holds :
        (q : Query) (a : Answer) {d : Checker}
        → leave q a ≡ (holds, d)
        → (e : Checker) × (a ≡ (holds, e)) × (e.gamma ≡ d.gamma)
    leave-holds q (holds, c) h = (c, refl, ap (λ (x : Answer). x.1.gamma) h)
    leave-holds q (thrown, c) h = cc
    leave-holds q (out_of_fuel, c) h = cc
    leave-holds q (fails path reason, c) h = cc

    -- The assumption that was made is justified at the end, so nothing is left unjustified.
    discharge :
        (q : Query) (before now : List Query)
        → Grows ifaces (q ∷ before) now
        → Justified ifaces (Assumed now) q
        → Grows ifaces before now × Assumed now q
    unfolding has
    discharge q before now g j = (
      record { keeps = λ x h. g.keeps x (ground (arith, h)); adds = λ x h. settle x (g.adds x h) },
      inl (g.keeps q (ground (arith, query_eq_refl q))),
    )
      where
        settle :
            (x : Query)
            → (has (q ∷ before) x ≡ true) ⊎ Justified ifaces (Assumed now) x
            → (has before x ≡ true) ⊎ Justified ifaces (Assumed now) x
        settle x (inr k) = inr k
        settle x (inl k) = elim (Bool-cases (query_eq q x)) [
          | inl alike ↦ inr (subst (Justified ifaces (Assumed now)) (query_eq→eq q x alike) j)
          | inr other ↦ inl (ground (arith, k, other))
        ]

    sub_with-IsSound : IsSound ifaces (sub_with ifaces options call)
    sub_with-IsSound c q path d h = elim (Bool-cases (is_same q)) [
      | inl alike ↦ stay (inr alike) (rw alike at h)
      | inr apart ↦
          let h1 : _ = rw apart at h in
          elim (Bool-cases (has c.gamma q)) [
            | inl known ↦ stay (inl known) (rw known at h1)
            | inr new ↦ asked (rw new at h1)
          ]
    ]
      where
        stay :
            Assumed c.gamma q
            → ◌≡◌ {A = Answer} (holds, c) (holds, d)
            → Grows ifaces c.gamma d.gamma × Assumed d.gamma q
        stay known alike =
            let equal : c ≡ d = cc in
            subst (λ (x : Checker). Grows ifaces c.gamma x.gamma × Assumed x.gamma q) equal
              (Grows-refl ifaces c.gamma, known)

        asked :
            budgeted ifaces options call (counted c) q path ≡ (holds, d)
            → Grows ifaces c.gamma d.gamma × Assumed d.gamma q
        asked h = elim (Bool-cases (ltb options.max_steps (c.steps + 1))) [
          | inl over ↦ absurd (ground (arith, h, over))
          | inr within ↦ elim (Bool-cases (leb options.max_depth c.depth)) [
            | inl deep ↦ absurd (ground (arith, h, within, deep))
            | inr shallow ↦
                let h1 : leave q (rules ifaces options call (enter q (counted c)) q path)
                    ≡ (holds, d) =
                  rw (within, shallow) at h in
                let (e, ran, alike) = leave-holds q _ h1 in
                let (grows, rule) =
                  rules_at-Grows (enter q (counted c)) q path e _ _ refl refl ran in
                subst (λ (g : List Query). Grows ifaces c.gamma g × Assumed g q) alike
                  (discharge q c.gamma e.gamma grows rule)
          ]
        ]

-- Whatever the fuel, an accepted query is assumed, and the assumptions are justified.
pub sub-IsSound :
    (ifaces : ℕ → Iface) (options : Options)
    → options.lossy_opt ≡ false
    → (fuel : ℕ) → IsSound ifaces (sub ifaces options fuel)
unfolding sub
sub-IsSound ifaces options off zero c q path d h = cc
sub-IsSound ifaces options off (suc fuel) c q path d h =
    sub_with-IsSound ifaces (sub ifaces options fuel) (sub-IsSound ifaces options off fuel) options
      off c q path d h

nothing : (x : Query) → has [] x ≡ true → ⊥
unfolding has
nothing x h = cc

-- From no assumptions, what `sub` accepts is in a relation that the rules justify: the queries that it
-- assumed to the end. This is with the two unusual rules of opt off; a relaxed query has the rule of
-- extra cases besides Candid's.
pub sub-IsSubtype :
    (ifaces : ℕ → Iface) (options : Options) (fuel : ℕ) (c : Checker) (q : Query) (path : Segments)
    (d : Checker)
    → options.lossy_opt ≡ false
    → c.gamma ≡ []
    → sub ifaces options fuel c q path ≡ (holds, d)
    → IsSubtype ifaces q
sub-IsSubtype ifaces options fuel c q path d off none_yet h =
    let (grows, known) = sub-IsSound ifaces options off fuel c q path d h in
    let from_nothing : Grows ifaces [] d.gamma = rw none_yet at grows in
    record {
      relation = Assumed d.gamma;
      justified = λ x held. settle from_nothing x held;
      related = known;
    }
  where
    settle :
        Grows ifaces [] d.gamma
        → (x : Query) → Assumed d.gamma x
        → Justified ifaces (Assumed d.gamma) x
    settle g x (inr alike) = same alike
    settle g x (inl held) = added (g.adds x held)
      where
        added :
            (has [] x ≡ true) ⊎ Justified ifaces (Assumed d.gamma) x
            → Justified ifaces (Assumed d.gamma) x
        added (inl never) = absurd (nothing x never)
        added (inr j) = j

-- From no assumptions, with the two unusual rules of opt off, a strict query that the checker accepts is
-- a subtype by the rules of Candid alone, and a relaxed one by these and the rule that lets a variant
-- have extra cases. Recursive types are included: the subtype is in a relation that the rules justify by
-- itself, and for a strict query this relation has strict queries only.
pub sub-SubtypeIn :
    (ifaces : ℕ → Iface) (options : Options) (fuel : ℕ) (c : Checker) (q : Query) (path : Segments)
    (d : Checker)
    → options.lossy_opt ≡ false
    → c.gamma ≡ []
    → sub ifaces options fuel c q path ≡ (holds, d)
    → SubtypeIn q.mode ifaces q
sub-SubtypeIn ifaces options fuel c q path d off none_yet h =
    IsSubtype-SubtypeIn ifaces q q.mode refl
      (sub-IsSubtype ifaces options fuel c q path d off none_yet h)
