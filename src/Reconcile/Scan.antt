-- ===== src/Reconcile/Scan.antt =====
-- The two loops of `matchBlocks` of profile/packages/reconcile/src/index.mjs as statements on indices.
use candid_core.Common.{
  ℕ, zero, suc, ◌+◌, ◌≤◌, ◌<◌, Bool, true, false, ◌≡◌, refl, sym, subst, ap, arith, none, some,
  Bool-cases, inl, inr, dec_lt,
}
use mathlib.Core.Option.{some-injective, none-ne-some}
use candid_core.Reconcile.Verdict.{first_failing, last_passing}

-- Every index from `floor` on, `count` of them, has a test's result.
abbrev pub Throughout : (ℕ → Bool) → Bool → ℕ → ℕ → Type 0
Throughout p b floor end = (i : ℕ) → floor ≤ i → i < end → p i ≡ b

module _ (p : ℕ → Bool) where
  pub first_failing-none :
      (id count : ℕ) → first_failing p id count ≡ none → Throughout p true id (id + count)
  unfolding first_failing
  first_failing-none id zero h i low high = absurd (omega arith)
  first_failing-none id (suc count) h i low high = elim (Bool-cases (p id)) [
    | inr fails ↦ absurd (none-ne-some id (sym (rw fails at h)))
    | inl passes ↦ elim (dec_lt id i) [
      | yes later ↦ first_failing-none (suc id) count (rw passes at h) i (omega arith) (omega arith)
      | no same ↦ let e : id ≡ i = omega arith in subst (λ i. p i ≡ true) e passes
    ]
  ]

  pub none-first_failing :
      (id count : ℕ) → Throughout p true id (id + count) → first_failing p id count ≡ none
  unfolding first_failing
  none-first_failing id zero h = refl
  none-first_failing id (suc count) h =
      rw (h id (omega arith) (omega arith))
        (none-first_failing (suc id) count (λ i low high. h i (omega arith) (omega arith)))

  pub last_passing-none :
      (floor count : ℕ)
      → last_passing p floor count ≡ none
      → Throughout p false floor (floor + count)
  unfolding last_passing
  last_passing-none floor zero h i low high = absurd (omega arith)
  last_passing-none floor (suc count) h i low high = elim (Bool-cases (p (floor + count))) [
    | inl passes ↦ absurd (none-ne-some (floor + count) (sym (rw passes at h)))
    | inr fails ↦ elim (dec_lt i (floor + count)) [
      | yes earlier ↦ last_passing-none floor count (rw fails at h) i low earlier
      | no same ↦ let e : floor + count ≡ i = omega arith in subst (λ i. p i ≡ false) e fails
    ]
  ]

  -- The last index that passes.
  pub record IsLast (floor end id : ℕ) : Type 0 where
    pub low : floor ≤ id
    pub high : id < end
    pub passes : p id ≡ true
    pub later : Throughout p false (suc id) end

  pub last_passing-some :
      (floor count : ℕ) {id : ℕ}
      → last_passing p floor count ≡ some id
      → IsLast floor (floor + count) id
  unfolding last_passing
  last_passing-some floor zero {id} h = absurd (none-ne-some id h)
  last_passing-some floor (suc count) {id} h = elim (Bool-cases (p (floor + count))) [
    | inl passes ↦
        let e : floor + count ≡ id = some-injective _ _ (rw passes at h) in
        subst (IsLast floor (floor + suc count)) e (record {
          low = omega arith;
          high = omega arith;
          passes = passes;
          later = λ i low high. absurd (omega arith);
        })
    | inr fails ↦
        let before = last_passing-some floor count (rw fails at h) in
        record {
          low = before.low;
          high = let k = before.high in omega arith;
          passes = before.passes;
          later = λ i low high. elim (dec_lt i (floor + count)) [
            | yes earlier ↦ before.later i low earlier
            | no same ↦ let e : floor + count ≡ i = omega arith in subst (λ i. p i ≡ false) e fails
          ];
        }
  ]

  pub some-last_passing :
      (floor count id : ℕ) → IsLast floor (floor + count) id → last_passing p floor count ≡ some id
  unfolding last_passing
  some-last_passing floor zero id h = let a = h.low in let b = h.high in absurd (omega arith)
  some-last_passing floor (suc count) id h = elim (dec_lt id (floor + count)) [
    | yes earlier ↦ rw (h.later (floor + count) earlier (omega arith)) (
        some-last_passing floor count id (record {
          low = h.low;
          high = earlier;
          passes = h.passes;
          later = λ i low high. h.later i low (omega arith);
        }))
    | no same ↦
        let a = h.high in
        let e : id ≡ floor + count = omega arith in
        rw (subst (λ i. p i ≡ true) e h.passes) (ap some (sym e))
  ]

  pub none-last_passing :
      (floor count : ℕ)
      → Throughout p false floor (floor + count)
      → last_passing p floor count ≡ none
  unfolding last_passing
  none-last_passing floor zero h = refl
  none-last_passing floor (suc count) h =
      rw (h (floor + count) (omega arith) (omega arith))
        (none-last_passing floor count (λ i low high. h i low (omega arith)))
