-- ===== src/Format/Time/Civil/RoundTrip.antt =====
-- A date of profile/packages/format/src/time.mjs is the date of its day number.
use candid_core.Common.{
  ℕ, zero, suc, ◌+◌, ◌-◌, ◌*◌, ◌/◌, ◌%◌, ◌≤◌, ◌<◌, Bool, true, not, ◌&&◌, ◌||◌, ◌≡◌, refl, sym, ap,
  ◌∙◌, inl, inr, arith, ltb, leb, ◌==◌, if◌then◌else◌, Bool-cases, ℤ, pos, negsuc, pos_part, ◌+ℤ◌,
  ◌-ℤ◌, ◌*ℤ◌, ◌/ℤ◌, ◌%ℤ◌,
}
use candid_core.Format.Time.Units.{floor_div}
use candid_core.Format.Time.Civil.{
  year_of_era, day_of_era, day_of_march, month_of_march, civil_from_days, day_number, date_of_era,
  days_from_civil, is_leap, days_in_month, march_year,
}

-- A year that begins in March ends with the February of the next year.
abbrev pub march_leap : ℕ → ℕ
march_leap yoe = if yoe % 4 == 3 && (not (yoe % 100 == 99) || yoe == 399) then 1 else 0

year_of_era-day_of_era :
    (yoe doy : ℕ)
    → yoe < 400
    → doy < 365 + march_leap yoe
    → (year_of_era (day_of_era yoe doy) ≡ yoe) × (day_of_era yoe doy < 146097)
unfolding year_of_era day_of_era
year_of_era-day_of_era yoe doy h k = (ground (arith, h, k), ground (arith, h, k))

-- Where the month and the day are those of a year that begins in March.
date_parts :
    (m d : ℕ) (leap : Bool)
    → 1 ≤ m
    → m ≤ 12
    → 1 ≤ d
    → d ≤ (
        if m == 2
        then if leap then 29 else 28
        else if m == 4 || m == 6 || m == 9 || m == 11
        then 30
        else 31)
    → let doy = day_of_march m d in
      let mp = (5 * doy + 2) / 153 in
      (mp ≡ month_of_march m)
      × (doy - (153 * mp + 2) / 5 + 1 ≡ d)
      × (doy < (if m == 2 && leap then 366 else 365))
date_parts m d leap h1 h2 h3 h4 =
    (ground (arith, h1, h2, h3, h4), ground (arith, h1, h2, h3, h4), ground (arith, h1, h2, h3, h4))

pub shifted_pos : (e doe : ℕ) → day_number (pos e) doe +ℤ pos 719468 ≡ pos (e * 146097 + doe)
unfolding day_number ◌+ℤ◌ ◌-ℤ◌ ◌*ℤ◌
shifted_pos e doe = ground arith

era_pos : (e doe : ℕ) → doe < 146097 → floor_div (pos (e * 146097 + doe)) 146097 ≡ pos e
unfolding floor_div ◌/ℤ◌ ◌%ℤ◌
era_pos e doe h = ap pos (omega arith)

rest_pos : (e doe : ℕ) → pos_part (pos (e * 146097 + doe) -ℤ pos e *ℤ 146097) ≡ doe
unfolding ◌-ℤ◌ ◌*ℤ◌
rest_pos e doe = ground arith

pub civil-pos :
    (e doe : ℕ) → doe < 146097 → civil_from_days (day_number (pos e) doe) ≡ date_of_era (pos e) doe
unfolding civil_from_days
civil-pos e doe h = rw (shifted_pos e doe, era_pos e doe h, rest_pos e doe) refl

pub shifted_before :
    (doe : ℕ) → doe < 146097 → day_number (negsuc 0) doe +ℤ pos 719468 ≡ negsuc (146096 - doe)
unfolding day_number ◌+ℤ◌ ◌-ℤ◌ ◌*ℤ◌
shifted_before doe h = ground (arith, h)

era_before : (n : ℕ) → n < 146097 → floor_div (negsuc n) 146097 ≡ negsuc 0
unfolding floor_div ◌/ℤ◌ ◌%ℤ◌ ◌-ℤ◌
era_before n h = elim (Bool-cases (suc n == 146097)) [
  | inl last ↦ let e : n ≡ 146096 = ground arith in rw e refl
  | inr other ↦
      let q : suc n / 146097 ≡ 0 = ground (arith, h, other) in
      let r : suc n % 146097 ≡ suc n = ground (arith, h, other) in rw (q, r) refl
]

rest_before :
    (doe : ℕ) → doe < 146097 → pos_part (negsuc (146096 - doe) -ℤ negsuc 0 *ℤ 146097) ≡ doe
unfolding ◌-ℤ◌ ◌*ℤ◌
rest_before doe h = ground (arith, h)

pub civil-before :
    (doe : ℕ)
    → doe < 146097
    → civil_from_days (day_number (negsuc 0) doe) ≡ date_of_era (negsuc 0) doe
unfolding civil_from_days
civil-before doe h =
    rw (shifted_before doe h, era_before (146096 - doe) (omega arith), rest_before doe h) refl

day_back : (yoe doy : ℕ) → day_of_era yoe doy - (365 * yoe + yoe / 4 - yoe / 100) ≡ doy
unfolding day_of_era
day_back yoe doy = omega arith

month_back :
    (m : ℕ)
    → 1 ≤ m
    → m ≤ 12
    → (if ltb (month_of_march m) 10 then month_of_march m + 3 else month_of_march m - 9) ≡ m
month_back m low high = ground (arith, low, high)

-- A valid date, and whether its year is a leap year.
record Fits (m d : ℕ) (leap : Bool) : Type 0 where
  from_one : 1 ≤ m
  to_twelve : m ≤ 12
  first : 1 ≤ d
  last : d ≤ (
      if m == 2
      then if leap then 29 else 28
      else if m == 4 || m == 6 || m == 9 || m == 11
      then 30
      else 31)

date_of_era-eq :
    (era : ℤ) (yoe m d : ℕ) (leap : Bool)
    → Fits m d leap
    → yoe < 400
    → day_of_march m d < 365 + march_leap yoe
    → date_of_era era (day_of_era yoe (day_of_march m d)) ≡ record {
      year = pos yoe +ℤ era *ℤ 400 +ℤ pos (if leb m 2 then 1 else 0);
      month = m;
      day = d;
    }
unfolding date_of_era
date_of_era-eq era yoe m d leap fits h k =
    let (mp, day, bound) = date_parts m d leap fits.from_one fits.to_twelve fits.first fits.last in
    let year = (year_of_era-day_of_era yoe (day_of_march m d) h k).0 in
    let same_day : day_of_march m d - (153 * month_of_march m + 2) / 5 + 1 ≡ d = rw mp at day in
    rw
      (
        year,
        day_back yoe (day_of_march m d),
        mp,
        month_back m fits.from_one fits.to_twelve,
        same_day,
      )
      refl

-- A month and a day of the calendar.
pub record IsDate (y m d : ℕ) : Type 0 where
  pub month_low : 1 ≤ m
  pub month_high : m ≤ 12
  pub day_low : 1 ≤ d
  pub day_high : d ≤ days_in_month y m

fits : (y m d : ℕ) → IsDate y m d → Fits m d (is_leap y)
unfolding days_in_month
fits y m d h = record {
  from_one = h.month_low;
  to_twelve = h.month_high;
  first = h.day_low;
  last = h.day_high;
}

-- In a year that began in March, the day of a date is in that year.
within_year :
    (e yoe m d : ℕ)
    → yoe < 400
    → (y : ℕ) → y ≡ e * 400 + yoe + (if leb m 2 then 1 else 0)
    → IsDate y m d
    → day_of_march m d < 365 + march_leap yoe
unfolding is_leap
within_year e yoe m d h y year date =
    let f = fits y m d date in
    let (mp, day, bound) = date_parts m d (is_leap y) f.from_one f.to_twelve f.first f.last in
    ground (arith, bound, year, h)

pub days-pos :
    (year y m d : ℕ)
    → march_year y m ≡ pos year
    → days_from_civil y m d
      ≡ day_number (pos (year / 400)) (day_of_era (year % 400) (day_of_march m d))
unfolding days_from_civil
days-pos year y m d e = rw (e, era, yoe) refl
  where
    era : floor_div (pos year) 400 ≡ pos (year / 400)
    era = unfold floor_div ◌/ℤ◌ ◌%ℤ◌ in refl

    yoe : pos_part (pos year -ℤ pos (year / 400) *ℤ 400) ≡ year % 400
    yoe = unfold ◌-ℤ◌ ◌*ℤ◌ in (ground arith)

pub days-before :
    (m d : ℕ)
    → march_year 0 m ≡ negsuc 0
    → days_from_civil 0 m d ≡ day_number (negsuc 0) (day_of_era 399 (day_of_march m d))
unfolding days_from_civil floor_div ◌-ℤ◌ ◌*ℤ◌ ◌/ℤ◌ ◌%ℤ◌
days-before m d e = rw e refl

year_sum : (year b : ℕ) → pos (year % 400) +ℤ pos (year / 400) *ℤ 400 +ℤ pos b ≡ pos (year + b)
unfolding ◌+ℤ◌ ◌*ℤ◌
year_sum year b = ground arith

pub year_sum_before : pos 399 +ℤ negsuc 0 *ℤ 400 +ℤ pos 1 ≡ pos 0
unfolding ◌+ℤ◌ ◌*ℤ◌
year_sum_before = refl

round-pos :
    (year y m d : ℕ)
    → march_year y m ≡ pos year
    → y ≡ year + (if leb m 2 then 1 else 0)
    → IsDate y m d
    → civil_from_days (days_from_civil y m d) ≡ record { year = pos y; month = m; day = d }
round-pos year y m d e f date =
    let small : year % 400 < 400 = omega arith in
    let fit : day_of_march m d < 365 + march_leap (year % 400) =
      within_year (year / 400) (year % 400) m d small y (omega (arith, f)) date in
    let doe = (year_of_era-day_of_era (year % 400) (day_of_march m d) small fit).1 in
    ap civil_from_days (days-pos year y m d e)
    ∙ civil-pos (year / 400) (day_of_era (year % 400) (day_of_march m d)) doe
    ∙ date_of_era-eq (pos (year / 400)) (year % 400) m d (is_leap y) (fits y m d date) small fit
    ∙ ap (λ (x : ℤ). record { year = x; month = m; day = d })
        (year_sum year (if leb m 2 then 1 else 0) ∙ ap pos (sym f))

round-before :
    (m d : ℕ)
    → m ≤ 2
    → IsDate 0 m d
    → civil_from_days (days_from_civil 0 m d) ≡ record { year = pos 0; month = m; day = d }
round-before m d low date =
    let early : leb m 2 ≡ true = ground (arith, low) in
    let e : march_year 0 m ≡ negsuc 0 = rw early refl in
    let f = fits 0 m d date in
    let bound = (date_parts m d (is_leap 0) f.from_one f.to_twelve f.first f.last).2 in
    let fit : day_of_march m d < 365 + march_leap 399 = unfold is_leap in (ground (arith, bound)) in
    let doe = (year_of_era-day_of_era 399 (day_of_march m d) (omega arith) fit).1 in
    ap civil_from_days (days-before m d e)
    ∙ civil-before (day_of_era 399 (day_of_march m d)) doe
    ∙ date_of_era-eq (negsuc 0) 399 m d (is_leap 0) f (omega arith) fit
    ∙ ap (λ (x : ℤ). record { year = x; month = m; day = d }) (rw early year_sum_before)

-- A date of the calendar, from year 0 on, is the date of its day number.
pub civil_from_days-days_from_civil :
    (y m d : ℕ)
    → IsDate y m d
    → civil_from_days (days_from_civil y m d) ≡ record { year = pos y; month = m; day = d }
civil_from_days-days_from_civil y m d date = elim (Bool-cases (leb m 2)) [
  | inr late ↦ round-pos y y m d (rw late refl) (rw late (omega arith)) date
  | inl early ↦ by_year y date early
]
  where
    by_year :
        (y : ℕ)
        → IsDate y m d
        → leb m 2 ≡ true
        → civil_from_days (days_from_civil y m d) ≡ record { year = pos y; month = m; day = d }
    by_year zero date early = round-before m d (ground (arith, early)) date
    by_year (suc k) date early =
        round-pos k (suc k) m d (rw early (ground arith)) (rw early (omega arith)) date
