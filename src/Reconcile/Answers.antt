-- ===== src/Reconcile/Answers.antt =====
-- `matchBlocks` of profile/packages/reconcile/src/index.mjs: exactly when it answers `found`, exactly
-- when it answers `absent`, and that the order of the blocks does not matter.
use candid_core.Common.{
  ℕ, ◌+◌, ◌≤◌, ◌≡◌, ◌≢◌, refl, subst, ap, ◌↔◌, inl, inr, arith, ltb, Option, none, some, Bool-cases,
  List, ℤ, ltb_ℤ, ◌+ℤ◌,
}
use candid_core.Reconcile.Icrc3.{Icrc3}
use candid_core.Reconcile.Expected.{Expected}
use candid_core.Reconcile.Verdict.{
  Options, ClosedBy, found, absent, count, closing, after_lookalikes, after_readable, after_found,
  after_read, judge, by_id, match_blocks, Read, close_by_window, Clock,
}
use candid_core.Reconcile.Scan.{first_failing-none, last_passing-some, some-last_passing, IsLast}
use candid_core.Reconcile.Safety.{
  IsAbsent, IsFound, matches_at, judge-absent, absent-judge, reaches, up_to_tip,
}

module _ (index : ℕ → Option Icrc3) (o : Options) (e : Expected) where
  window-not_found :
      (w : Option ℤ) (clock : Option Clock) {id : ℕ} → close_by_window w e.ts clock ≢ found id
  window-not_found none clock h = cc
  window-not_found (some v) none h = cc
  window-not_found (some v) (some k) h = elim (Bool-cases (ltb_ℤ (e.ts +ℤ v) k.at)) [
    | inl passed ↦ let g = rw passed at h in cc
    | inr waits ↦ let g = rw waits at h in cc
  ]

  closing-not_found : {id : ℕ} → closing index o e ≢ found id
  unfolding closing
  closing-not_found h = elim (Bool-cases o.in_flight) [
    | inr none_unknown ↦ let g = rw none_unknown at h in cc
    | inl unknown ↦ elim (Bool-cases o.stamp_expired) [
      | inl expired ↦ let g = rw (unknown, expired) at h in cc
      | inr fresh ↦ window-not_found o.window_ns _ (rw (unknown, fresh) at h)
    ]
  ]

  lookalikes-not_found : (m : Option ℕ) {id : ℕ} → after_lookalikes index o e m ≢ found id
  lookalikes-not_found none h = closing-not_found h
  lookalikes-not_found (some i) h = cc

  readable-not_found : (m : Option ℕ) {id : ℕ} → after_readable index o e m ≢ found id
  readable-not_found none h = lookalikes-not_found _ h
  readable-not_found (some i) h = cc

  found-found : (m : Option ℕ) {id : ℕ} → after_found index o e m ≡ found id → m ≡ some id
  found-found none h = absurd (readable-not_found _ h)
  found-found (some i) h = cc

  read-found :
      (m : Option ℕ) {id : ℕ}
      → after_read index o e m ≡ found id
      → (m ≡ none) × (after_read index o e none ≡ found id)
  read-found none h = (refl, h)
  read-found (some i) h = cc

  judge-found : {id : ℕ} → judge index o e ≡ found id → IsFound index o e id
  unfolding judge
  judge-found {id} h = elim (Bool-cases (ltb o.log_length o.floor)) [
    | inl shrank ↦ let g = rw shrank at h in cc
    | inr kept ↦
        let fits : o.floor ≤ o.log_length = ground arith in
        let tip : o.floor + count index o ≡ o.log_length = omega arith in
        let (r, h1) = read-found _ (rw kept at h) in
        record {
          not_shrunk = fits;
          covered = up_to_tip index o e fits (first_failing-none _ _ _ r);
          last =
              subst (λ end. IsLast (matches_at index o e) o.floor end id) tip
                (last_passing-some _ _ _ (found-found _ h1));
        }
  ]

  found-judge : {id : ℕ} → IsFound index o e id → judge index o e ≡ found id
  found-judge {id} f =
      let fits = f.not_shrunk in
      let tip : o.log_length ≡ o.floor + count index o = omega arith in
      reaches index o e f.not_shrunk f.covered (
        ap (after_found index o e) (
          some-last_passing _ _ _ _
            (subst (λ end. IsLast (matches_at index o e) o.floor end id) tip f.last)))

-- The answer is `found id` exactly where the log did not shrink, every block from the first send to the
-- tip was read, and `id` is the last of them that matches the expected transaction.
pub match_blocks-found_iff :
    (blocks : List Read) (e : Expected) (o : Options) (id : ℕ)
    → (match_blocks blocks (some e) o ≡ found id) ↔ IsFound (by_id blocks) o e id
unfolding match_blocks
match_blocks-found_iff blocks e o id =
    (judge-found (by_id blocks) o e, found-judge (by_id blocks) o e)

-- The answer is `absent` exactly where the log did not shrink, every block from the first send to the
-- tip was read and can be read, none of them matches the expected transaction or looks like it (but for
-- those that the person ruled out), and no send may still land: none has an unknown outcome, one was
-- answered TooOld, or a known lower bound on the ledger's clock is past the stamp's window.
pub match_blocks-absent_iff :
    (blocks : List Read) (e : Expected) (o : Options)
    → ((c : ClosedBy) × (match_blocks blocks (some e) o ≡ absent c)) ↔ IsAbsent (by_id blocks) o e
unfolding match_blocks
match_blocks-absent_iff blocks e o =
    (λ (c, h). judge-absent (by_id blocks) o e h, absent-judge (by_id blocks) o e)
