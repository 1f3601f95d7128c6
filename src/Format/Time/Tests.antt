-- ===== src/Format/Time/Tests.antt =====
-- Runs of profile/packages/format/src/time.mjs, and the theorems on it.
use candid_core.Common.{◌≡◌, refl, ◌↔◌, ℤ, pos, negsuc, ◌*ℤ◌, ◌%ℤ◌, ◌-ℤ◌, ◌/ℤ◌}
use candid_core.Format.Errors.{Code, ok, err}
use candid_core.Format.Chars.{codes}
use candid_core.Format.Decimal.{to_string}
use candid_core.Format.Util.{big, str, to_bigint}
use candid_core.Format.Time.Units.{us, ms, s, unit_factor, convert_unit, align_now}
use candid_core.Format.Time.Exact.{convert_unit_iff}
use candid_core.Format.Time.Floor.{IsFloor, align_now-IsFloor}

refused : convert_unit (str (codes "1500")) ms s ≡ err Code.inexact
unfolding convert_unit to_bigint ◌*ℤ◌ ◌%ℤ◌
refused = refl

before_1970 : align_now (big (negsuc 0)) s ≡ ok (negsuc 999999999)
unfolding align_now ◌*ℤ◌ ◌%ℤ◌ ◌-ℤ◌ ◌/ℤ◌
before_1970 = refl

convert_unit_iff_example :
    (convert_unit (big (pos 1500)) ms us ≡ ok (codes "1500000"))
    ↔ ((w : ℤ) × (w *ℤ 1000 ≡ pos 1500 *ℤ 1000000) × (to_string w ≡ codes "1500000"))
convert_unit_iff_example =
    convert_unit_iff (big (pos 1500)) ms us (codes "1500000") (unfold to_bigint in refl)
      (unfold unit_factor in refl) (unfold unit_factor in refl)

align_now-IsFloor_example :
    (r : ℤ) × (align_now (big (negsuc 0)) s ≡ ok r) × IsFloor 1000000000 (negsuc 0) r
align_now-IsFloor_example = align_now-IsFloor (negsuc 0) s (unfold unit_factor in refl)
