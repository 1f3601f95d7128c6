-- ===== src/Reconcile/Safety.antt =====
-- What the verdicts of `matchBlocks` of profile/packages/reconcile/src/index.mjs promise.
use candid_core.Common.{
  ℕ, ◌+◌, ◌≤◌, Bool, true, false, ◌≡◌, refl, ap, ◌∙◌, ◌⊎◌, inl, inr, arith, ltb, Option, none, some,
  Bool-cases, ℤ, ◌+ℤ◌, ltb_ℤ,
}
use candid_core.Reconcile.Icrc3.{Icrc3}
use candid_core.Reconcile.Expected.{Expected}
use candid_core.Reconcile.Match.{readable, block_matches}
use candid_core.Reconcile.Verdict.{
  Options, Clock, ClosedBy, Verdict, absent, answered, too_old, window_passed, last_passing, has,
  count, block_at, tip_time, clock_of, closing, is_lookalike, after_lookalikes, after_readable,
  after_found, after_read, judge, close_by_window,
}
use candid_core.Reconcile.Scan.{
  Throughout, first_failing-none, none-first_failing, last_passing-none, IsLast, none-last_passing,
}

-- The ledger's clock, as far as it is known, is past the window of the call's stamp.
pub record IsPassed (index : ℕ → Option Icrc3) (o : Options) (ts : ℤ) : Type 0 where
  pub window : ℤ
  pub clock : Clock
  pub window_known : o.window_ns ≡ some window
  pub clock_known : clock_of o.ledger_time o.ledger_time_at_least (tip_time index o) ≡ some clock
  pub passed : ltb_ℤ (ts +ℤ window) clock.at ≡ true

-- No send may still land: none is unknown, one was answered TooOld, or the window has passed.
abbrev pub Settled : (ℕ → Option Icrc3) → Options → Expected → Type 0
Settled index o e = (o.in_flight ≡ false) ⊎ ((o.stamp_expired ≡ true) ⊎ IsPassed index o e.ts)

module _ (index : ℕ → Option Icrc3) (o : Options) (e : Expected) where
  abbrev pub matches_at : ℕ → Bool
  matches_at id = block_matches (block_at index o id) e

  -- Every index from the first send to the tip was read.
  abbrev pub Covered : Type 0
  Covered = Throughout (λ id. has (index id)) true o.floor o.log_length

  -- What `absent` says.
  pub record IsAbsent : Type 0 where
    pub not_shrunk : o.floor ≤ o.log_length
    pub covered : Covered
    pub none_matches : Throughout matches_at false o.floor o.log_length
    pub all_readable : Throughout (λ id. readable (block_at index o id)) true o.floor o.log_length
    pub no_lookalike : Throughout (is_lookalike index o e) false o.floor o.log_length
    pub settled : Settled index o e

  -- What `found id` says.
  pub record IsFound (id : ℕ) : Type 0 where
    pub not_shrunk : o.floor ≤ o.log_length
    pub covered : Covered
    pub last : IsLast matches_at o.floor o.log_length id

  window-absent :
      (w : Option ℤ) (clock : Option Clock) {c : ClosedBy}
      → close_by_window w e.ts clock ≡ absent c
      → (v : ℤ) × (k : Clock) × (w ≡ some v) × (clock ≡ some k) × (ltb_ℤ (e.ts +ℤ v) k.at ≡ true)
  window-absent none clock h = cc
  window-absent (some v) none h = cc
  window-absent (some v) (some k) h = elim (Bool-cases (ltb_ℤ (e.ts +ℤ v) k.at)) [
    | inl passed ↦ (v, k, refl, refl, passed)
    | inr waits ↦ let g = rw waits at h in cc
  ]

  closing-absent : {c : ClosedBy} → closing index o e ≡ absent c → Settled index o e
  unfolding closing
  closing-absent h = elim (Bool-cases o.in_flight) [
    | inr none_unknown ↦ inl none_unknown
    | inl unknown ↦ elim (Bool-cases o.stamp_expired) [
      | inl expired ↦ inr (inl expired)
      | inr fresh ↦
          let (v, k, w, c, p) = window-absent o.window_ns _ (rw (unknown, fresh) at h) in
          inr
            (inr (record { window = v; clock = k; window_known = w; clock_known = c; passed = p }))
    ]
  ]

  lookalikes-absent :
      (m : Option ℕ) {c : ClosedBy}
      → after_lookalikes index o e m ≡ absent c
      → (m ≡ none) × (closing index o e ≡ absent c)
  lookalikes-absent none h = (refl, h)
  lookalikes-absent (some id) h = cc

  readable-absent :
      (m : Option ℕ) {c : ClosedBy}
      → after_readable index o e m ≡ absent c
      → (m ≡ none) × (after_readable index o e none ≡ absent c)
  readable-absent none h = (refl, h)
  readable-absent (some id) h = cc

  found-absent :
      (m : Option ℕ) {c : ClosedBy}
      → after_found index o e m ≡ absent c
      → (m ≡ none) × (after_found index o e none ≡ absent c)
  found-absent none h = (refl, h)
  found-absent (some id) h = cc

  read-absent :
      (m : Option ℕ) {c : ClosedBy}
      → after_read index o e m ≡ absent c
      → (m ≡ none) × (after_read index o e none ≡ absent c)
  read-absent none h = (refl, h)
  read-absent (some id) h = cc

  -- The indices that the loops visit are those up to the tip.
  pub up_to_tip :
      {p : ℕ → Bool} {b : Bool}
      → o.floor ≤ o.log_length
      → Throughout p b o.floor (o.floor + count index o)
      → Throughout p b o.floor o.log_length
  up_to_tip h all i low high = all i low (omega arith)

  pub judge-absent : {c : ClosedBy} → judge index o e ≡ absent c → IsAbsent
  unfolding judge
  judge-absent h = elim (Bool-cases (ltb o.log_length o.floor)) [
    | inl shrank ↦ let g = rw shrank at h in cc
    | inr kept ↦
        let fits : o.floor ≤ o.log_length = ground arith in
        let (r, h1) = read-absent _ (rw kept at h) in
        let (f, h2) = found-absent _ h1 in
        let (u, h3) = readable-absent _ h2 in
        let (l, h4) = lookalikes-absent _ h3 in
        record {
          not_shrunk = fits;
          covered = up_to_tip fits (first_failing-none _ _ _ r);
          none_matches = up_to_tip fits (last_passing-none _ _ _ f);
          all_readable = up_to_tip fits (first_failing-none _ _ _ u);
          no_lookalike = up_to_tip fits (last_passing-none _ _ _ l);
          settled = closing-absent h4;
        }
  ]

  window-closes :
      (w : Option ℤ) (clock : Option Clock) {v : ℤ} {k : Clock}
      → w ≡ some v
      → clock ≡ some k
      → ltb_ℤ (e.ts +ℤ v) k.at ≡ true
      → close_by_window w e.ts clock ≡ absent (window_passed k)
  window-closes w clock hw hc h = rw (hw, hc, h)

  closing-Settled : Settled index o e → (c : ClosedBy) × (closing index o e ≡ absent c)
  unfolding closing
  closing-Settled (inl none_unknown) = (answered, rw none_unknown)
  closing-Settled (inr s) = elim (Bool-cases o.in_flight) [
    | inr none_unknown ↦ (answered, rw none_unknown)
    | inl unknown ↦ late s (Bool-cases o.stamp_expired) unknown
  ]
    where
      late :
          ((o.stamp_expired ≡ true) ⊎ IsPassed index o e.ts)
          → ((o.stamp_expired ≡ true) ⊎ (o.stamp_expired ≡ false))
          → o.in_flight ≡ true
          → (c : ClosedBy) × (closing index o e ≡ absent c)
      late s (inl expired) unknown = (too_old, rw (unknown, expired))
      late (inl expired) (inr fresh) unknown = (too_old, rw (unknown, expired))
      late (inr p) (inr fresh) unknown = (
        window_passed p.clock,
        rw (unknown, fresh) (window-closes _ _ p.window_known p.clock_known p.passed),
      )

  pub from_tip :
      {p : ℕ → Bool} {b : Bool}
      → o.floor ≤ o.log_length
      → Throughout p b o.floor o.log_length
      → Throughout p b o.floor (o.floor + count index o)
  from_tip h all i low high = all i low (omega arith)

  pub reaches :
      {r : Verdict}
      → o.floor ≤ o.log_length
      → Covered
      → after_found index o e (last_passing matches_at o.floor (count index o)) ≡ r
      → judge index o e ≡ r
  unfolding judge
  reaches fits covered h =
      let kept : ltb o.log_length o.floor ≡ false = ground arith in
      rw
        (
          kept,
          none-first_failing (λ id. has (index id)) o.floor (count index o) (from_tip fits covered),
        )
        h

  pub absent-judge : IsAbsent → (c : ClosedBy) × (judge index o e ≡ absent c)
  absent-judge a =
      let (c, h) = closing-Settled a.settled in
      let f = none-last_passing _ _ _ (from_tip a.not_shrunk a.none_matches) in
      let r = none-first_failing _ _ _ (from_tip a.not_shrunk a.all_readable) in
      let l = none-last_passing _ _ _ (from_tip a.not_shrunk a.no_lookalike) in
      (
        c,
        reaches a.not_shrunk a.covered (
            ap (after_found index o e) f
            ∙ ap (after_readable index o e) r
            ∙ ap (after_lookalikes index o e) l
            ∙ h),
      )
