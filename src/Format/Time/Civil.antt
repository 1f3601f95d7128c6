-- ===== src/Format/Time/Civil.antt =====
-- Civil dates of profile/packages/format/src/time.mjs: `daysFromCivil`, `civilFromDays`, `isLeap`, `daysInMonth`.
pub mod RoundTrip
pub mod Inverse
use mathlib.Core.Option.{none-ne-some, some-injective}
use candid_core.Common.{
  ℕ, zero, suc, ◌+◌, ◌-◌, ◌*◌, ◌/◌, ◌%◌, ◌^◌, ◌≤◌, ◌<◌, Bool, true, false, not, ◌&&◌, ◌||◌, List,
  [], ◌∷◌, ◌++◌, ◌≡◌, ◌≢◌, refl, sym, ap, ◌∙◌, subst, ◌↔◌, ◌⊎◌, inl, inr, arith, ltb, leb, ◌==◌,
  ==_iff, if◌then◌else◌, length, all, All, All-map, All-append, Option, none, some, Bool-cases,
  Option-cases, ℤ, pos, negsuc, pos_part, sub_ℕ, ◌+ℤ◌, ◌-ℤ◌, ◌*ℤ◌,
}
use candid_core.Format.Time.Units.{floor_div}

-- The day of the era of a day of a year that begins in March.
unfoldable pub day_of_era : ℕ → ℕ → ℕ
day_of_era yoe doy = yoe * 365 + yoe / 4 - yoe / 100 + doy

unfoldable pub year_of_era : ℕ → ℕ
year_of_era doe = (doe - doe / 1460 + doe / 36524 - doe / 146096) / 365

-- A month counted from March, and the day of such a year; `d` is at least 1.
abbrev pub month_of_march : ℕ → ℕ
month_of_march m = if ltb 2 m then m - 3 else m + 9

abbrev pub day_of_march : ℕ → ℕ → ℕ
day_of_march m d = (153 * month_of_march m + 2) / 5 + d - 1

abbrev pub march_year : ℕ → ℕ → ℤ
march_year y0 m = if leb m 2 then sub_ℕ y0 1 else pos y0

-- The day number of a day of an era of 400 years.
unfoldable pub day_number : ℤ → ℕ → ℤ
day_number era doe = era *ℤ 146097 +ℤ pos doe -ℤ pos 719468

-- `y - era * 400` is not negative.
unfoldable pub days_from_civil : ℕ → ℕ → ℕ → ℤ
unfolding day_number day_of_era
days_from_civil y0 m d =
    let y = march_year y0 m in
    let era = floor_div y 400 in
    let yoe = pos_part (y -ℤ era *ℤ 400) in day_number era (day_of_era yoe (day_of_march m d))

pub record Date : Type 0 where
  pub year : ℤ
  pub month : ℕ
  pub day : ℕ

-- The date of a day of an era.
unfoldable pub date_of_era : ℤ → ℕ → Date
unfolding year_of_era
date_of_era era doe =
    let yoe = year_of_era doe in
    let doy = doe - (365 * yoe + yoe / 4 - yoe / 100) in
    let mp = (5 * doy + 2) / 153 in
    let m : ℕ = if ltb mp 10 then mp + 3 else mp - 9 in
    record {
      year = pos yoe +ℤ era *ℤ 400 +ℤ pos (if leb m 2 then 1 else 0);
      month = m;
      day = doy - (153 * mp + 2) / 5 + 1;
    }

-- `z - era * 146097` is not negative.
unfoldable pub civil_from_days : ℤ → Date
unfolding date_of_era
civil_from_days z0 =
    let z = z0 +ℤ pos 719468 in
    let era = floor_div z 146097 in date_of_era era (pos_part (z -ℤ era *ℤ 146097))

unfoldable pub is_leap : ℕ → Bool
is_leap y = y % 4 == 0 && (not (y % 100 == 0) || y % 400 == 0)

unfoldable pub days_in_month : ℕ → ℕ → ℕ
unfolding is_leap
days_in_month y m =
    if m == 2
    then if is_leap y then 29 else 28
    else if m == 4 || m == 6 || m == 9 || m == 11
    then 30
    else 31
