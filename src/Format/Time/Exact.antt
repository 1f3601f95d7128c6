-- ===== src/Format/Time/Exact.antt =====
-- A conversion of profile/packages/format/src/time.mjs is exact or refused, and `alignNow` is the last
-- whole unit that is not after its argument.
use candid_core.Common.{
  ℕ, zero, suc, ◌*◌, ◌/◌, ◌%◌, not, ◌≡◌, refl, sym, ap, ◌∙◌, ◌↔◌, arith, ◌==◌, ℤ, pos, negsuc,
  neg_ℕ, magnitude, ◌*ℤ◌, ◌/ℤ◌, ◌%ℤ◌,
}
use candid_core.Format.Errors.{Code, ok, >>=-eq-ok, >>-eq-ok, >>=-step, ok-injective}
use candid_core.Format.Chars.{Text}
use candid_core.Format.Decimal.{to_string}
use candid_core.Format.Util.{Value, to_bigint}
use candid_core.Format.Time.Units.{
  TimeUnit, ns, us, ms, s, unknown, unit_factor, ns_to_unit, convert_unit,
}

-- The units, as the literals that the arithmetic needs.
pub data IsFactor (f : ℕ) : Type 0 where
  nano : f ≡ 1 → IsFactor f
  micro : f ≡ 1000 → IsFactor f
  milli : f ≡ 1000000 → IsFactor f
  second : f ≡ 1000000000 → IsFactor f

pub unit_factor-IsFactor : (unit : TimeUnit) {f : ℕ} → unit_factor unit ≡ ok f → IsFactor f
unfolding unit_factor
unit_factor-IsFactor ns h = nano (sym (ok-injective h))
unit_factor-IsFactor us h = micro (sym (ok-injective h))
unit_factor-IsFactor ms h = milli (sym (ok-injective h))
unit_factor-IsFactor s h = second (sym (ok-injective h))
unit_factor-IsFactor unknown h = cc

neg_ℕ-magnitude : (n : ℕ) → magnitude (neg_ℕ n) ≡ n
neg_ℕ-magnitude zero = refl
neg_ℕ-magnitude (suc n) = refl

quotient : (f n : ℕ) → IsFactor f → n % f ≡ 0 → n / f * f ≡ n
quotient f n (nano e) h = rw e (omega arith)
quotient f n (micro e) h = let g : n % 1000 ≡ 0 = rw e at h in rw e (omega arith)
quotient f n (milli e) h = let g : n % 1000000 ≡ 0 = rw e at h in rw e (omega arith)
quotient f n (second e) h = let g : n % 1000000000 ≡ 0 = rw e at h in rw e (omega arith)

multiple : (f n : ℕ) → IsFactor f → ((n * f) / f ≡ n) × ((n * f) % f ≡ 0)
multiple f n (nano e) = rw e (omega arith, omega arith)
multiple f n (micro e) = rw e (omega arith, omega arith)
multiple f n (milli e) = rw e (omega arith, omega arith)
multiple f n (second e) = rw e (omega arith, omega arith)

-- A product by the factor determines, and is determined by, the quotient that is exact.
pub divide : (f : ℕ) (n : ℤ) → IsFactor f → magnitude (n %ℤ f) ≡ 0 → n /ℤ f *ℤ f ≡ n
unfolding ◌%ℤ◌ ◌/ℤ◌ ◌*ℤ◌
divide f (pos n) h e = ap pos (quotient f n h e)
divide f (negsuc n) h e =
    let q = quotient f (suc n) h (sym (neg_ℕ-magnitude (suc n % f)) ∙ e) in negative (suc n / f) q
  where
    negative : (q : ℕ) → q * f ≡ suc n → neg_ℕ q *ℤ f ≡ negsuc n
    negative zero q = absurd (omega arith)
    negative (suc q) p = ap neg_ℕ p

neg_ℕ-divided :
    (f n : ℕ) → IsFactor f → (neg_ℕ n /ℤ f ≡ neg_ℕ (n / f)) × (magnitude (neg_ℕ n %ℤ f) ≡ n % f)
unfolding ◌%ℤ◌ ◌/ℤ◌
neg_ℕ-divided f zero h =
    let none_left : 0 * f ≡ 0 = omega arith in
    let z : 0 / f ≡ 0 = ap (λ n. n / f) (sym none_left) ∙ (multiple f 0 h).0 in (rw z, refl)
neg_ℕ-divided f (suc n) h = (refl, neg_ℕ-magnitude (suc n % f))

product : (f : ℕ) (w : ℤ) → IsFactor f → (w *ℤ f /ℤ f ≡ w) × (magnitude (w *ℤ f %ℤ f) ≡ 0)
unfolding ◌%ℤ◌ ◌/ℤ◌ ◌*ℤ◌
product f (pos k) h = (ap pos (multiple f k h).0, (multiple f k h).1)
product f (negsuc k) h =
    let (q, r) = neg_ℕ-divided f (suc k * f) h in
    (q ∙ ap neg_ℕ (multiple f (suc k) h).0, r ∙ (multiple f (suc k) h).1)

pub ns_to_unit_iff :
    (n w : ℤ) (unit : TimeUnit) {f : ℕ}
    → unit_factor unit ≡ ok f
    → (ns_to_unit n unit ≡ ok w) ↔ (w *ℤ f ≡ n)
unfolding ns_to_unit
ns_to_unit_iff n w unit {f} hf =
    let h = unit_factor-IsFactor unit hf in
    (
      (λ e.
          let rest = >>=-step (unit_factor unit) _ hf e in
          let (whole, done) = >>-eq-ok (not (magnitude (n %ℤ f) == 0)) Code.inexact _ rest in
          ap (λ w. w *ℤ f) (sym (ok-injective done)) ∙ divide f n h (ground arith)),
      (λ e.
          let (q, r) = product f w h in
          let q' : n /ℤ f ≡ w = ap (λ n. n /ℤ f) (sym e) ∙ q in
          let r' : magnitude (n %ℤ f) ≡ 0 = ap (λ n. magnitude (n %ℤ f)) (sym e) ∙ r in
          rw (hf, r', q')),
    )

-- Between two units, a value is converted exactly where some whole number of the new unit is the same
-- time, and that number is the result: nothing is rounded.
pub convert_unit_iff :
    (value : Value) (from to : TimeUnit) (r : Text) {v : ℤ} {f g : ℕ}
    → to_bigint value ≡ ok v
    → unit_factor from ≡ ok f
    → unit_factor to ≡ ok g
    → (convert_unit value from to ≡ ok r) ↔ ((w : ℤ) × (w *ℤ g ≡ v *ℤ f) × (to_string w ≡ r))
unfolding convert_unit
convert_unit_iff value from to r {v} {f} {g} hv hf hg = (
  (λ e.
      let e1 = >>=-step (to_bigint value) _ hv e in
      let e2 = >>=-step (unit_factor from) _ hf e1 in
      let (w, told, e3) = >>=-eq-ok (ns_to_unit (v *ℤ f) to) _ e2 in
      (w, (ns_to_unit_iff (v *ℤ f) w to hg).0 told, ok-injective e3)),
  (λ (w, same, text). rw (hv, hf, (ns_to_unit_iff (v *ℤ f) w to hg).1 same) (ap ok text)),
)
