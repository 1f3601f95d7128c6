-- ===== src/Format/Util/Range.antt =====
-- What `checkRange` and `toBigInt` of profile/packages/format/src/util.mjs accept.
use candid_core.Common.{
  Bool, true, false, not, ◌&&◌, ◌≡◌, ◌↔◌, refl, arith, Option, none, some, ℤ, pos, ◌≤ℤ◌, is_neg,
}
use candid_core.Format.Errors.{ok, Code, >>-eq-ok}
use candid_core.Format.Util.{IntType, check_range, below, above}

abbrev pub AtLeast : Option ℤ → ℤ → Type 0
AtLeast none v = Unit
AtLeast (some m) v = m ≤ℤ v

abbrev pub AtMost : Option ℤ → ℤ → Type 0
AtMost none v = Unit
AtMost (some m) v = v ≤ℤ m

-- The values of an integer type.
pub record InRange (v : ℤ) (type : IntType) : Type 0 where
  pub sign : type.signed ≡ false → pos 0 ≤ℤ v
  pub low : AtLeast type.min v
  pub high : AtMost type.max v

below_iff : (v : ℤ) (m : Option ℤ) → (below v m ≡ false) ↔ AtLeast m v
below_iff v none = (λ h. tt, λ h. refl)
below_iff v (some m) = ground arith

above_iff : (v : ℤ) (m : Option ℤ) → (above v m ≡ false) ↔ AtMost m v
above_iff v none = (λ h. tt, λ h. refl)
above_iff v (some m) = ground arith

sign_iff : (s : Bool) (v : ℤ) → ((not s && is_neg v) ≡ false) ↔ (s ≡ false → pos 0 ≤ℤ v)
sign_iff true v = (λ h e. cc, λ h. refl)
sign_iff false v = (λ h e. ground arith, λ h. ground (arith, h refl))

-- `checkRange` passes exactly the values of the type.
pub check_range_iff : (v : ℤ) (type : IntType) → (check_range v type ≡ ok tt) ↔ InRange v type
unfolding check_range
check_range_iff v type = (to, from)
  where
    to : check_range v type ≡ ok tt → InRange v type
    to h =
        let (s, h1) = >>-eq-ok _ Code.range _ h in
        let (l, h2) = >>-eq-ok _ Code.range _ h1 in
        let (u, h3) = >>-eq-ok _ Code.range (ok tt) h2 in
        record {
          sign = (sign_iff type.signed v).0 s;
          low = (below_iff v type.min).0 l;
          high = (above_iff v type.max).0 u;
        }

    from : InRange v type → check_range v type ≡ ok tt
    from r = rw (
      (sign_iff type.signed v).1 r.sign,
      (below_iff v type.min).1 r.low,
      (above_iff v type.max).1 r.high,
    )
