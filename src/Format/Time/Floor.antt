-- ===== src/Format/Time/Floor.antt =====
-- `alignNow` of profile/packages/format/src/time.mjs rounds down, before 1970 as well.
use candid_core.Common.{
  ℕ, zero, suc, ◌+◌, ◌*◌, ◌/◌, ◌%◌, ◌<◌, true, ◌≡◌, refl, arith, if◌then◌else◌, ℤ, pos, negsuc,
  pos_part, neg_part, neg_ℕ, is_neg, ◌≤ℤ◌, ◌*ℤ◌, ◌-ℤ◌, ◌/ℤ◌, ◌%ℤ◌,
}
use candid_core.Format.Errors.{ok}
use candid_core.Format.Util.{big}
use candid_core.Format.Time.Units.{TimeUnit, unit_factor, align_now}
use candid_core.Format.Time.Exact.{
  IsFactor, nano, micro, milli, second, unit_factor-IsFactor, divide,
}

-- `r` is the last whole multiple of `f` that is not above `n`: the difference n - r is below `f`.
pub record IsFloor (f : ℕ) (n r : ℤ) : Type 0 where
  pub count : ℤ
  pub whole : count *ℤ f ≡ r
  pub not_above : r ≤ℤ n
  pub within : pos_part n + neg_part r < pos_part r + neg_part n + f

cut : (f n : ℕ) → IsFactor f → (n / f * f + n % f ≡ n) × (n % f < f)
cut f n (nano e) = rw e (omega arith, omega arith)
cut f n (micro e) = rw e (omega arith, omega arith)
cut f n (milli e) = rw e (omega arith, omega arith)
cut f n (second e) = rw e (omega arith, omega arith)

neg_ℕ-parts : (n : ℕ) → (pos_part (neg_ℕ n) ≡ 0) × (neg_part (neg_ℕ n) ≡ n)
neg_ℕ-parts zero = (refl, refl)
neg_ℕ-parts (suc n) = (refl, refl)

pub one_less : (n : ℕ) → neg_ℕ n -ℤ pos 1 ≡ negsuc n
unfolding ◌-ℤ◌
one_less zero = refl
one_less (suc n) = ground arith

is_neg-neg_ℕ : (n : ℕ) → is_neg (neg_ℕ (suc n)) ≡ true
is_neg-neg_ℕ n = refl

-- The quotient below zero, by what is left over.
negative :
    (f n : ℕ)
    → IsFactor f
    → (left : ℕ) → suc n % f ≡ left
    → IsFloor f
        (negsuc n)
        ((if is_neg (neg_ℕ left) then neg_ℕ (suc n / f) -ℤ pos 1 else neg_ℕ (suc n / f)) *ℤ f)
unfolding ◌%ℤ◌ ◌/ℤ◌ ◌*ℤ◌
negative f n h zero e =
    let (c, l) = cut f (suc n) h in
    let same : neg_ℕ (suc n / f) *ℤ f ≡ negsuc n = divide f (negsuc n) h (rw e) in
    record {
      count = neg_ℕ (suc n / f);
      whole = refl;
      not_above = rw same (omega arith);
      within = rw same (omega arith);
    }
negative f n h (suc k) e =
    let (c, l) = cut f (suc n) h in
    let same : (neg_ℕ (suc n / f) -ℤ pos 1) *ℤ f ≡ neg_ℕ (suc (suc n / f) * f) =
      rw (one_less (suc n / f)) in
    let (p, q) = neg_ℕ-parts (suc (suc n / f) * f) in
    let m : suc (suc n / f) * f ≡ suc n / f * f + f = omega arith in
    record {
      count = neg_ℕ (suc n / f) -ℤ pos 1;
      whole = refl;
      not_above = rw (same, p, q) (omega arith);
      within = rw (same, p, q) (omega arith);
    }

-- The aligned clock is the last whole number of units that is not after the clock, in nanoseconds.
pub align_now-IsFloor :
    (now : ℤ) (unit : TimeUnit) {f : ℕ}
    → unit_factor unit ≡ ok f
    → (r : ℤ) × (align_now (big now) unit ≡ ok r) × IsFloor f now r
unfolding align_now ◌%ℤ◌ ◌/ℤ◌ ◌*ℤ◌
align_now-IsFloor (pos n) unit {f} hf =
    let h = unit_factor-IsFactor unit hf in
    let (c, l) = cut f n h in
    (
      pos (n / f * f),
      rw hf,
      record { count = pos (n / f); whole = refl; not_above = omega arith; within = omega arith },
    )
align_now-IsFloor (negsuc n) unit {f} hf =
    (_, rw hf, negative f n (unit_factor-IsFactor unit hf) (suc n % f) refl)
