-- ===== src/Format/Time/Civil/Inverse.antt =====
-- The date of a day number, of profile/packages/format/src/time.mjs, is a date of the calendar, whose day
-- number is the one given.
use candid_core.Format.Time.Civil.RoundTrip.{
  march_leap, IsDate, days-pos, civil-pos, civil-before, year_sum_before, days-before,
}
use candid_core.Common.{
  ℕ, ◌+◌, ◌-◌, ◌*◌, ◌/◌, ◌%◌, ◌≤◌, ◌<◌, true, ◌≡◌, refl, ap, ◌∙◌, subst, inl, inr, arith, ltb, leb,
  if◌then◌else◌, Bool-cases, ℤ, pos, negsuc, sub_ℕ, ◌+ℤ◌, ◌-ℤ◌, ◌*ℤ◌, ◌≤ℤ◌,
}
use candid_core.Format.Time.Civil.{
  year_of_era, day_of_era, days_in_month, march_year, day_of_march, is_leap, days_from_civil,
  date_of_era, day_number, civil_from_days,
}

year_back :
    (doe : ℕ)
    → doe < 146097
    → let yoe = year_of_era doe in
      let doy = doe - (365 * yoe + yoe / 4 - yoe / 100) in
      (yoe < 400) × (day_of_era yoe doy ≡ doe) × (doy < 365 + march_leap yoe)
unfolding year_of_era day_of_era
year_back doe h = (ground (arith, h), ground (arith, h), ground (arith, h))

-- The month and the day of a day of a year that begins in March.
abbrev month_at : ℕ → ℕ
month_at doy =
    if ltb ((5 * doy + 2) / 153) 10 then (5 * doy + 2) / 153 + 3 else (5 * doy + 2) / 153 - 9

abbrev day_at : ℕ → ℕ
day_at doy = doy - (153 * ((5 * doy + 2) / 153) + 2) / 5 + 1

day_at-day_of_march :
    (doy : ℕ)
    → doy < 366
    → (day_of_march (month_at doy) (day_at doy) ≡ doy)
      × (1 ≤ month_at doy)
      × (month_at doy ≤ 12)
      × (1 ≤ day_at doy)
day_at-day_of_march doy h = (ground (arith, h), ground (arith, h), ground (arith, h), omega arith)

day_at-days_in_month :
    (e yoe doy y : ℕ)
    → yoe < 400
    → doy < 365 + march_leap yoe
    → y ≡ e * 400 + yoe + (if leb (month_at doy) 2 then 1 else 0)
    → day_at doy ≤ days_in_month y (month_at doy)
unfolding days_in_month is_leap
day_at-days_in_month e yoe doy y h k year = ground (arith, h, k, year)

-- The date of the day `z`, and that it is one.
pub record IsDateOf (z : ℤ) : Type 0 where
  pub y : ℕ
  pub m : ℕ
  pub d : ℕ
  pub date : IsDate y m d
  pub found : civil_from_days z ≡ record { year = pos y; month = m; day = d }
  pub number : days_from_civil y m d ≡ z
  pub four_digits : z ≤ℤ pos 2932896 → y ≤ 9999

year_total : (e yoe b : ℕ) → pos yoe +ℤ pos e *ℤ 400 +ℤ pos b ≡ pos (e * 400 + yoe + b)
unfolding ◌+ℤ◌ ◌*ℤ◌
year_total e yoe b = ground arith

module _ (e doe : ℕ) (h : doe < 146097) where
  abbrev yoe : ℕ
  yoe = year_of_era doe

  abbrev doy : ℕ
  doy = doe - (365 * yoe + yoe / 4 - yoe / 100)

  abbrev carry : ℕ
  carry = if leb (month_at doy) 2 then 1 else 0

  date_of_era-pos :
      date_of_era (pos e) doe
      ≡ record { year = pos (e * 400 + yoe + carry); month = month_at doy; day = day_at doy }
  unfolding date_of_era
  date_of_era-pos =
      ap (λ (x : ℤ). record { year = x; month = month_at doy; day = day_at doy })
        (year_total e yoe carry)

  pos-IsDate : IsDate (e * 400 + yoe + carry) (month_at doy) (day_at doy)
  pos-IsDate =
      let (small, back, fit) = year_back doe h in
      let (day, low, high, first) = day_at-day_of_march doy (ground (arith, fit)) in
      record {
        month_low = low;
        month_high = high;
        day_low = first;
        day_high = day_at-days_in_month e yoe doy _ small fit refl;
      }

  -- The year that began in March.
  march_year-pos : march_year (e * 400 + yoe + carry) (month_at doy) ≡ pos (e * 400 + yoe)
  march_year-pos = ground arith

  number-pos :
      days_from_civil (e * 400 + yoe + carry) (month_at doy) (day_at doy) ≡ day_number (pos e) doe
  number-pos =
      let (small, back, fit) = year_back doe h in
      let (day, low, high, first) = day_at-day_of_march doy (ground (arith, fit)) in
      let era : (e * 400 + yoe) / 400 ≡ e = omega (arith, small) in
      let rest : (e * 400 + yoe) % 400 ≡ yoe = omega (arith, small) in
      days-pos (e * 400 + yoe) _ (month_at doy) (day_at doy) march_year-pos
      ∙ (rw (era, rest, day, back) refl)

  -- The last day of year 9999 is 2932896.
  year-four_digits : day_number (pos e) doe ≤ℤ pos 2932896 → e * 400 + yoe + carry ≤ 9999
  year-four_digits low =
      let number : day_number (pos e) doe ≡ sub_ℕ (e * 146097 + doe) 719468 =
        unfold day_number ◌+ℤ◌ ◌-ℤ◌ ◌*ℤ◌ in (ground arith) in
      let bound : sub_ℕ (e * 146097 + doe) 719468 ≤ℤ pos 2932896 = rw number at low in
      let total : e * 146097 + doe ≤ 3652364 = ground (arith, bound) in
      unfold year_of_era in (ground (arith, total, h))

  pos-IsDateOf : IsDateOf (day_number (pos e) doe)
  pos-IsDateOf = record {
    y = e * 400 + yoe + carry;
    m = month_at doy;
    d = day_at doy;
    date = pos-IsDate;
    found = civil-pos e doe h ∙ date_of_era-pos;
    number = number-pos;
    four_digits = year-four_digits;
  }

-- The days of January and February of year 0, in the era before.
module _ (doe : ℕ) (h : doe < 146097) (late : 146037 ≤ doe) where
  abbrev start_doy : ℕ
  start_doy = doe - 145731

  early_year : year_of_era doe ≡ 399
  unfolding year_of_era
  early_year = ground (arith, h, late)

  early_day : day_of_era 399 start_doy ≡ doe
  unfolding day_of_era
  early_day = omega (arith, late)

  early_month : leb (month_at start_doy) 2 ≡ true
  early_month = ground (arith, h, late)

  date_of_era-before :
      date_of_era (negsuc 0) doe
      ≡ record { year = pos 0; month = month_at start_doy; day = day_at start_doy }
  unfolding date_of_era
  date_of_era-before =
      rw (early_year, early_month)
        (ap (λ (x : ℤ). record { year = x; month = month_at start_doy; day = day_at start_doy })
          year_sum_before)

  before-IsDateOf : IsDateOf (day_number (negsuc 0) doe)
  before-IsDateOf =
      let small : start_doy < 366 = omega (arith, h, late) in
      let (day, low, high, first) = day_at-day_of_march start_doy small in
      let e : march_year 0 (month_at start_doy) ≡ negsuc 0 = rw early_month refl in
      record {
        y = 0;
        m = month_at start_doy;
        d = day_at start_doy;
        date = record {
          month_low = low;
          month_high = high;
          day_low = first;
          day_high = unfold days_in_month is_leap in (ground (arith, h, late));
        };
        found = civil-before doe h ∙ date_of_era-before;
        number = days-before (month_at start_doy) (day_at start_doy) e ∙ (rw (day, early_day) refl);
        four_digits = λ low. omega arith;
      }

number_of_pos : (n : ℕ) → day_number (pos (n / 146097)) (n % 146097) ≡ sub_ℕ n 719468
unfolding day_number ◌+ℤ◌ ◌-ℤ◌ ◌*ℤ◌
number_of_pos n = ground arith

number_of_before : (k : ℕ) → 719468 ≤ k → k < 719528 → day_number (negsuc 0) (865564 - k) ≡ negsuc k
unfolding day_number ◌+ℤ◌ ◌-ℤ◌ ◌*ℤ◌
number_of_before k low high = ground (arith, low, high)

by_shift : (n : ℕ) (z : ℤ) → sub_ℕ n 719468 ≡ z → IsDateOf z
by_shift n z e =
    subst IsDateOf (number_of_pos n ∙ e) (pos-IsDateOf (n / 146097) (n % 146097) (omega arith))

-- From 0000-01-01 on, the date of a day number is a date of the calendar, with that day number.
pub civil_from_days-IsDateOf : (z : ℤ) → pos 0 ≤ℤ (z +ℤ pos 719528) → IsDateOf z
unfolding ◌+ℤ◌
civil_from_days-IsDateOf (pos k) h = by_shift (k + 719468) (pos k) (ground arith)
civil_from_days-IsDateOf (negsuc k) h = elim (Bool-cases (ltb k 719468)) [
  | inl after ↦ by_shift (719467 - k) (negsuc k) (ground (arith, after))
  | inr before ↦
      let low : 719468 ≤ k = ground (arith, before) in
      let high : k < 719528 = ground (arith, h) in
      subst IsDateOf (number_of_before k low high)
        (before-IsDateOf (865564 - k) (omega (arith, low)) (omega (arith, high)))
]
