-- ===== src/Resolver/Subtype/Ends.antt =====
-- `sub` of profile/packages/resolver/src/subtype.mjs ends within its limits: the depth bounds the recursion,
-- and is what it was when the call returns; the steps are counted up to one more than their limit.
use candid_core.Format.Chars.{Text}
use candid_core.Resolver.Subtype.Kept.{IsKept, rules-kept}
use candid_core.Resolver.Graph.{Iface}
use candid_core.Resolver.Checker.{
  Query, Answer, Segments, Checker, Options, fails, is_same, holds, has, thrown, out_of_fuel,
}
use candid_core.Common.{
  ℕ, zero, suc, ◌+◌, ◌≤◌, ◌<◌, Bool, true, false, List, [], ◌∷◌, ◌≡◌, refl, ◌∙◌, inl, inr, arith,
  ltb, leb, Bool-cases,
}
use candid_core.Resolver.Subtype.{
  sub, Iface, Checker, Segments, Query, Answer, Text, leave, lossy, enter, noted, counted,
}

-- The call came to an end, at the depth where it began unless an exception ended it.
abbrev pub Ended : Checker → Answer → Type 0
Ended c (holds, d) = d.depth ≡ c.depth
Ended c (fails path reason, d) = d.depth ≡ c.depth
Ended c (thrown, d) = Unit
Ended c (out_of_fuel, d) = ⊥

Ended-chain : (c d : Checker) (a : Answer) → d.depth ≡ c.depth → Ended d a → Ended c a
Ended-chain c d (holds, e) h k = k ∙ h
Ended-chain c d (fails path reason, e) h k = k ∙ h
Ended-chain c d (thrown, e) h k = tt
Ended-chain c d (out_of_fuel, e) h k = k

Ended-lossy : (b : Bool) (c : Checker) (a : Answer) → Ended c a → Ended c (lossy b a)
Ended-lossy b c (holds, d) h = h
Ended-lossy true c (fails path reason, d) h = h
Ended-lossy false c (fails path reason, d) h = h
Ended-lossy b c (thrown, d) h = h
Ended-lossy b c (out_of_fuel, d) h = h

noted-depth :
    (path : Segments) (labels : List Text) (c : Checker) → (noted path labels c).depth ≡ c.depth
noted-depth path [] c = refl
noted-depth path (l ∷ ls) c = refl

-- `n` calls fit under the depth limit.
abbrev pub Fits : ℕ → ℕ → Checker → Type 0
Fits limit n c = (c.depth ≤ limit) × (limit < n + c.depth)

Ended-IsKept : (limit n : ℕ) (b : Bool) → IsKept (Fits limit n) Ended b
Ended-IsKept limit n b = record {
  holds_now = λ c r. refl;
  fails_now = λ c path reason r. refl;
  throws_now = λ c r. tt;
  ready = λ c d r h. rw h r;
  chain = λ c d a r h k. Ended-chain c d a h k;
  swallowed = λ c a h. Ended-lossy b c a h;
  notes = λ c d path labels h. noted-depth path labels d ∙ h;
}

Ended-leave : (q : Query) (c : Checker) (a : Answer) → Ended (enter q c) a → Ended c (leave q a)
Ended-leave q c (holds, d) h = omega (arith, h)
Ended-leave q c (fails path reason, d) h = omega (arith, h)
Ended-leave q c (thrown, d) h = tt
Ended-leave q c (out_of_fuel, d) h = h

-- With as much fuel as the depth limit leaves room for, `sub` ends: it never runs out of fuel, and it
-- gives the depth back. From a fresh checker, fuel above `maxDepth` is enough.
pub sub-Ended :
    (ifaces : ℕ → Iface) (options : Options) (fuel : ℕ) (c : Checker) (q : Query) (path : Segments)
    → c.depth ≤ options.max_depth
    → options.max_depth < fuel + c.depth
    → Ended c (sub ifaces options fuel c q path)
unfolding sub
sub-Ended ifaces options zero c q path low high = omega (arith, low, high)
sub-Ended ifaces options (suc fuel) c q path low high = elim (Bool-cases (is_same q)) [
  | inl alike ↦ rw alike refl
  | inr apart ↦ rw apart (elim (Bool-cases (has c.gamma q)) [
    | inl known ↦ rw known refl
    | inr new ↦ rw new (elim (Bool-cases (ltb options.max_steps (c.steps + 1))) [
      | inl over ↦ rw over refl
      | inr within ↦ rw within (elim (Bool-cases (leb options.max_depth c.depth)) [
        | inl deep ↦ rw deep refl
        | inr shallow ↦
            let room : Fits options.max_depth fuel (enter q (counted c)) =
              (ground (arith, shallow), omega (arith, high)) in
            rw shallow (
              Ended-leave q (counted c) _ (
                rules-kept ifaces options (Fits options.max_depth fuel) Ended
                  (Ended-IsKept options.max_depth fuel options.lossy_opt) (sub ifaces options fuel)
                  (λ d x at r. sub-Ended ifaces options fuel d x at r.0 r.1) (enter q (counted c)) q
                  path room))
      ])
    ])
  ])
]

-- The steps that were counted: at most the limit while nothing failed, and one more in all.
abbrev pub Counted : ℕ → Answer → Type 0
Counted limit (holds, d) = d.steps ≤ limit
Counted limit (fails path reason, d) = d.steps ≤ limit + 1
Counted limit (thrown, d) = d.steps ≤ limit + 1
Counted limit (out_of_fuel, d) = d.steps ≤ limit + 1

Counted-lossy : (limit : ℕ) (a : Answer) → Counted limit a → Counted limit (lossy false a)
Counted-lossy limit (holds, d) h = h
Counted-lossy limit (fails path reason, d) h = h
Counted-lossy limit (thrown, d) h = h
Counted-lossy limit (out_of_fuel, d) h = h

noted-steps :
    (path : Segments) (labels : List Text) (c : Checker) → (noted path labels c).steps ≡ c.steps
noted-steps path [] c = refl
noted-steps path (l ∷ ls) c = refl

Counted-IsKept :
    (limit : ℕ) (b : Bool) → b ≡ false → IsKept (λ c. c.steps ≤ limit) (λ c a. Counted limit a) b
Counted-IsKept limit b off = record {
  holds_now = λ c r. r;
  fails_now = λ c path reason r. omega (arith, r);
  throws_now = λ c r. omega (arith, r);
  ready = λ c d r h. h;
  chain = λ c d a r h k. k;
  swallowed = λ c a h. rw off (Counted-lossy limit a h);
  notes = λ c d path labels h. omega (arith, h, noted-steps path labels d);
}

Counted-leave : (limit : ℕ) (q : Query) (a : Answer) → Counted limit a → Counted limit (leave q a)
Counted-leave limit q (holds, d) h = h
Counted-leave limit q (fails path reason, d) h = h
Counted-leave limit q (thrown, d) h = h
Counted-leave limit q (out_of_fuel, d) h = h

-- Take a limit that is at least `maxSteps` and the number of steps that were counted before. Where the
-- unusual rules of opt are off, an accepted query leaves the count at or below the limit, and a query with
-- any other answer at most one above it.
pub sub-Counted :
    (ifaces : ℕ → Iface) (options : Options) (limit fuel : ℕ) (c : Checker) (q : Query)
    (path : Segments)
    → options.lossy_opt ≡ false
    → options.max_steps ≤ limit
    → c.steps ≤ limit
    → Counted limit (sub ifaces options fuel c q path)
unfolding sub
sub-Counted ifaces options limit zero c q path off top low = omega (arith, low)
sub-Counted ifaces options limit (suc fuel) c q path off top low = elim (Bool-cases (is_same q)) [
  | inl alike ↦ rw alike low
  | inr apart ↦ rw apart (elim (Bool-cases (has c.gamma q)) [
    | inl known ↦ rw known low
    | inr new ↦ rw new (elim (Bool-cases (ltb options.max_steps (c.steps + 1))) [
      | inl over ↦ rw over (omega (arith, low))
      | inr within ↦
          let room : c.steps + 1 ≤ limit = ground (arith, within, top) in
          rw within (elim (Bool-cases (leb options.max_depth c.depth)) [
            | inl deep ↦ rw deep (omega (arith, low))
            | inr shallow ↦ rw shallow (
                Counted-leave limit q _ (
                  rules-kept ifaces options (λ d. d.steps ≤ limit) (λ d a. Counted limit a)
                    (Counted-IsKept limit options.lossy_opt off) (sub ifaces options fuel)
                    (λ d x at r. sub-Counted ifaces options limit fuel d x at off top r)
                    (enter q (counted c)) q path room))
          ])
    ])
  ])
]
