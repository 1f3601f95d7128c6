-- ===== src/Format/Time/Rfc3339/RoundTrip.antt =====
-- What `rfc3339FromNs` of profile/packages/format/src/time.mjs writes is read back by `parseRfc3339Ns`.
use candid_core.Format.Time.Rfc3339.Written.{match_rfc3339-rfc3339_text, pad-size}
use candid_core.Format.Time.Civil.Inverse.{civil_from_days-IsDateOf}
use candid_core.Format.Errors.{ok, >>-eq-ok, Code, ok-injective}
use candid_core.Format.Time.Civil.RoundTrip.{IsDate}
use candid_core.Format.Decimal.{
  value, pad_end, strip_end, length-strip_end, pad_end-strip_end, value-pad_start, nat_to_string,
  value-nat_to_string,
}
use candid_core.Format.Chars.{Text}
use candid_core.Format.Time.Civil.{days_from_civil, day_number, day_of_era, days_in_month, Date}
use candid_core.Format.Time.Floor.{one_less}
use candid_core.Format.Time.Rfc3339.{
  min_s, max_s, days_from_civil, value, read_match, parse_rfc3339_ns, Text, rfc3339_from_ns, ok,
  pad, utc, rfc3339_text, read_matched,
}
use candid_core.Common.{
  ℕ, zero, suc, ◌+◌, ◌*◌, ◌/◌, ◌%◌, ◌≤◌, ◌<◌, false, ◌||◌, [], ◌∷◌, ◌≡◌, refl, sym, ap, ◌∙◌, subst,
  arith, ltb, length, ℤ, pos, negsuc, pos_part, ltb_ℤ, ◌+ℤ◌, ◌-ℤ◌, ◌*ℤ◌, ◌/ℤ◌, ◌%ℤ◌, ◌≤ℤ◌, take,
  drop,
}
use candid_core.Format.Time.Units.{floor_div}

-- Below zero the floor of a division, by what is left over.
floor_by :
    (n k q : ℕ)
    → (r : ℕ) → suc n % k ≡ r
    → (r ≡ 0 → suc n / k ≡ suc q)
    → (0 < r → suc n / k ≡ q)
    → floor_div (negsuc n) k ≡ negsuc q
unfolding floor_div ◌/ℤ◌ ◌%ℤ◌
floor_by n k q zero e z s = rw (e, z refl) refl
floor_by n k q (suc r) e z s = rw (e, s (omega arith)) (one_less q)

floor_day : (n : ℕ) → floor_div (negsuc n) 86400 ≡ negsuc (n / 86400)
floor_day n =
    floor_by n 86400 (n / 86400) (suc n % 86400) refl (λ h. omega (arith, h))
      (λ h. omega (arith, h))

floor_second : (n : ℕ) → floor_div (negsuc n) 1000000000 ≡ negsuc (n / 1000000000)
floor_second n =
    floor_by n 1000000000 (n / 1000000000) (suc n % 1000000000) refl (λ h. omega (arith, h))
      (λ h. omega (arith, h))

-- A number is its floor and a rest below the divisor.
abbrev rest_of : ℤ → ℕ → ℕ
rest_of n k = pos_part (n -ℤ floor_div n k *ℤ k)

day_split :
    (n : ℤ) → (floor_div n 86400 *ℤ 86400 +ℤ pos (rest_of n 86400) ≡ n) × (rest_of n 86400 < 86400)
unfolding ◌+ℤ◌ ◌-ℤ◌ ◌*ℤ◌
day_split (pos n) =
    let e : floor_div (pos n) 86400 ≡ pos (n / 86400) = unfold floor_div ◌/ℤ◌ ◌%ℤ◌ in refl in
    rw e (ground arith, ground arith)
day_split (negsuc n) = rw (floor_day n) (ground arith, ground arith)

second_split :
    (n : ℤ)
    → (floor_div n 1000000000 *ℤ 1000000000 +ℤ pos (rest_of n 1000000000) ≡ n)
      × (rest_of n 1000000000 < 1000000000)
unfolding ◌+ℤ◌ ◌-ℤ◌ ◌*ℤ◌
second_split (pos n) =
    let e : floor_div (pos n) 1000000000 ≡ pos (n / 1000000000) =
      unfold floor_div ◌/ℤ◌ ◌%ℤ◌ in refl in
    rw e (ground arith, ground arith)
second_split (negsuc n) = rw (floor_second n) (ground arith, ground arith)

min_s-eq : min_s ≡ negsuc 62167219199
unfolding min_s days_from_civil day_number floor_div ◌+ℤ◌ ◌-ℤ◌ ◌*ℤ◌ ◌/ℤ◌ ◌%ℤ◌ day_of_era
min_s-eq = refl

max_s-eq : max_s ≡ pos 253402300799
unfolding max_s days_from_civil day_number floor_div ◌+ℤ◌ ◌-ℤ◌ ◌*ℤ◌ ◌/ℤ◌ ◌%ℤ◌ day_of_era
max_s-eq = refl

-- The days of the seconds in range.
day_range :
    (secs : ℤ)
    → (ltb_ℤ secs (negsuc 62167219199) || ltb_ℤ (pos 253402300799) secs) ≡ false
    → (pos 0 ≤ℤ (floor_div secs 86400 +ℤ pos 719528)) × (floor_div secs 86400 ≤ℤ pos 2932896)
unfolding ◌+ℤ◌
day_range (pos n) h =
    let e : floor_div (pos n) 86400 ≡ pos (n / 86400) = unfold floor_div ◌/ℤ◌ ◌%ℤ◌ in refl in
    rw e (ground (arith, h), ground (arith, h))
day_range (negsuc n) h = rw (floor_day n) (ground (arith, h), ground (arith, h))

take-all : (n : ℕ) (s : Text) → length s ≤ n → take n s ≡ s
take-all zero [] h = refl
take-all zero (c ∷ s) h = absurd (omega arith)
take-all (suc n) [] h = refl
take-all (suc n) (c ∷ s) h = ap (λ (t : Text). c ∷ t) (take-all n s (omega arith))

drop-all : (n : ℕ) (s : Text) → length s ≤ n → drop n s ≡ []
drop-all zero [] h = refl
drop-all zero (c ∷ s) h = absurd (omega arith)
drop-all (suc n) [] h = refl
drop-all (suc n) (c ∷ s) h = drop-all n s (omega arith)

-- The nine digits of a fraction are found in its text, without the zeros at the end.
pub fraction-back :
    (n : ℕ)
    → n < 1000000000
    → (value (pad_end (take 9 (strip_end (pad n 9))) 9) ≡ n) × (drop 9 (strip_end (pad n 9)) ≡ [])
fraction-back n h =
    let size : length (pad n 9) ≡ 9 = pad-size n 8 h in
    let short : length (strip_end (pad n 9)) ≤ 9 =
      omega (arith, length-strip_end (pad n 9), size) in
    let full : pad_end (strip_end (pad n 9)) 9 ≡ pad n 9 =
      subst (λ (w : ℕ). pad_end (strip_end (pad n 9)) w ≡ pad n 9) size
        (pad_end-strip_end (pad n 9)) in
    (
      rw (take-all 9 (strip_end (pad n 9)) short, full)
          (value-pad_start (nat_to_string n) 9 ∙ value-nat_to_string n),
      drop-all 9 (strip_end (pad n 9)) short,
    )

clock_sum :
    (sod : ℕ)
    → sod < 86400
    → pos (sod / 3600 * 3600 + sod % 3600 / 60 * 60 + sod % 60) -ℤ pos 0 ≡ pos sod
unfolding ◌-ℤ◌
clock_sum sod h = ground (arith, h)

read_written :
    (y m d sod frac_ns : ℕ)
    → IsDate y m d
    → sod < 86400
    → frac_ns < 1000000000
    → read_match (record {
      year = y;
      month = m;
      day = d;
      hour = sod / 3600;
      minute = sod % 3600 / 60;
      second = sod % 60;
      frac = strip_end (pad frac_ns 9);
      zone = utc;
    })
      ≡ ok ((days_from_civil y m d *ℤ 86400 +ℤ pos sod) *ℤ 1000000000 +ℤ pos frac_ns)
unfolding read_match
read_written y m d sod frac_ns date hs hf =
    let month : (ltb m 1 || ltb 12 m) ≡ false = ground (arith, date.month_low, date.month_high) in
    let day : (ltb d 1 || ltb (days_in_month y m) d) ≡ false =
      ground (arith, date.day_low, date.day_high) in
    let hour : ltb 23 (sod / 3600) ≡ false = ground (arith, hs) in
    let minute : ltb 59 (sod % 3600 / 60) ≡ false = ground (arith, hs) in
    let second : ltb 59 (sod % 60) ≡ false = ground (arith, hs) in
    let (digits, nothing_left) = fraction-back frac_ns hf in
    rw (month, day, hour, minute, second, nothing_left, digits, clock_sum sod hs) refl

pub days_in_month_short : (y m : ℕ) → days_in_month y m ≤ 31
unfolding days_in_month
days_in_month_short y m = ground arith

-- A text of rfc3339FromNs: the date and the time in it, and that they make the nanoseconds.
pub record IsWritten (ns : ℤ) (text : Text) : Type 0 where
  pub y : ℕ
  pub m : ℕ
  pub d : ℕ
  pub sod : ℕ
  pub frac_ns : ℕ
  pub date : IsDate y m d
  pub four_digits : y < 10000
  pub within_day : sod < 86400
  pub within_second : frac_ns < 1000000000
  pub shown : rfc3339_text (record { year = pos y; month = m; day = d }) sod frac_ns ≡ text
  pub total : (days_from_civil y m d *ℤ 86400 +ℤ pos sod) *ℤ 1000000000 +ℤ pos frac_ns ≡ ns

pub rfc3339_from_ns-IsWritten :
    (ns : ℤ) (text : Text) → rfc3339_from_ns ns ≡ ok text → IsWritten ns text
unfolding rfc3339_from_ns
rfc3339_from_ns-IsWritten ns text h =
    let secs : ℤ = floor_div ns 1000000000 in
    let days : ℤ = floor_div secs 86400 in
    let (in_range, written) = >>-eq-ok (ltb_ℤ secs min_s || ltb_ℤ max_s secs) Code.range _ h in
    let (low, high) = day_range secs (rw (min_s-eq, max_s-eq) at in_range) in
    let date = civil_from_days-IsDateOf days low in
    let (day, sod_small) = day_split secs in
    let (whole, frac_small) = second_split ns in
    record {
      y = date.y;
      m = date.m;
      d = date.d;
      sod = rest_of secs 86400;
      frac_ns = rest_of ns 1000000000;
      date = date.date;
      four_digits = omega (arith, date.four_digits high);
      within_day = sod_small;
      within_second = frac_small;
      shown =
          ap (λ (t : Date). rfc3339_text t (rest_of secs 86400) (rest_of ns 1000000000))
            (sym date.found)
          ∙ ok-injective written;
      total = rw (date.number, day, whole) refl;
    }

-- The text of a time is read back as that time: every number of nanoseconds that rfc3339FromNs writes is
-- the one that parseRfc3339Ns reads from what it wrote.
pub parse_rfc3339_ns-rfc3339_from_ns :
    (ns : ℤ) (text : Text) → rfc3339_from_ns ns ≡ ok text → parse_rfc3339_ns text ≡ ok ns
unfolding parse_rfc3339_ns
parse_rfc3339_ns-rfc3339_from_ns ns text h =
    let w = rfc3339_from_ns-IsWritten ns text h in
    let month = w.date.month_high in
    let day = w.date.day_high in
    subst (λ (t : Text). parse_rfc3339_ns t ≡ ok ns) w.shown
      (ap read_matched (
          match_rfc3339-rfc3339_text w.y w.m w.d w.sod w.frac_ns w.four_digits
            (omega (arith, month)) (omega (arith, day, days_in_month_short w.y w.m)) w.within_day)
        ∙ read_written w.y w.m w.d w.sod w.frac_ns w.date w.within_day w.within_second
        ∙ ap ok w.total)
