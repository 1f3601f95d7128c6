-- ===== src/Format/Time/Rfc3339.antt =====
-- RFC 3339 of profile/packages/format/src/time.mjs: `parseRfc3339Ns` and `rfc3339FromNs`.
pub mod Written
pub mod RoundTrip
use mathlib.Core.Option.{none-ne-some, some-injective}
use candid_core.Common.{
  ℕ, zero, suc, ◌+◌, ◌-◌, ◌*◌, ◌/◌, ◌%◌, ◌^◌, ◌≤◌, ◌<◌, Bool, true, false, not, ◌&&◌, ◌||◌, List,
  [], ◌∷◌, ◌++◌, ◌≡◌, ◌≢◌, refl, sym, ap, ◌∙◌, subst, ◌↔◌, ◌⊎◌, inl, inr, arith, ltb, leb, ◌==◌,
  ==_iff, if◌then◌else◌, length, all, All, All-map, All-append, Option, none, some, Bool-cases,
  Option-cases, ℤ, pos, negsuc, pos_part, ltb_ℤ, ◌+ℤ◌, ◌-ℤ◌, ◌*ℤ◌, take, drop,
}
use candid_core.Format.Errors.{Code, Result, ok, err, ◌>>=◌, ◌>>◌, fail_if}
use candid_core.Format.Chars.{Text, is_digit}
use candid_core.Format.Decimal.{value, to_string, nat_to_string, pad_start, pad_end, strip_end}
use candid_core.Format.Amount.{match_fraction, text_or_empty, point}
use candid_core.Format.Time.Units.{floor_div}
use candid_core.Format.Time.Civil.{Date, days_from_civil, civil_from_days, days_in_month}

-- The zone of a match: `Z`, or an offset with its sign, hours and minutes.
pub data Zone : Type 0 where
  utc : Zone
  offset : Bool → ℕ → ℕ → Zone

-- The groups of RFC3339, the digits as numbers.
pub record Match : Type 0 where
  pub year : ℕ
  pub month : ℕ
  pub day : ℕ
  pub hour : ℕ
  pub minute : ℕ
  pub second : ℕ
  pub frac : Text
  pub zone : Zone

-- `[0-9]{n}`, behind the digits of `acc`.
abbrev pub read_digits : ℕ → ℕ → Text → Option (ℕ × Text)
read_digits zero acc s = some (acc, s)
read_digits (suc n) acc [] = none
read_digits (suc n) acc (c ∷ s) =
    let rest = read_digits n (acc * 10 + (c - b'0')) s in if is_digit c then rest else none

-- A character that passes a test.
abbrev pub read_unit : (ℕ → Bool) → Text → Option Text
read_unit test [] = none
read_unit test (c ∷ s) = if test c then some s else none

abbrev pub is_unit : ℕ → ℕ → Bool
is_unit d c = c == d

abbrev pub is_t : ℕ → Bool
is_t c = c == b'T' || c == b't'

-- What follows a part that was read.
abbrev pub after {ℓ} : {B : Type ℓ} → Option Text → (Text → Option B) → Option B
after none rest = none
after (some s) rest = rest s

abbrev pub number {ℓ} : {B : Type ℓ} → Option (ℕ × Text) → (ℕ → Text → Option B) → Option B
number none rest = none
number (some (n, s)) rest = rest n s

abbrev pub at_end : Zone → Text → Option Zone
at_end zone [] = some zone
at_end zone (c ∷ s) = none

-- [Zz]|[+-][0-9]{2}:[0-9]{2}
abbrev pub match_zone : Text → Option Zone
match_zone [] = none
match_zone (c ∷ s) =
    if c == b'Z' || c == b'z'
    then at_end utc s
    else if c == b'+' || c == b'-'
    then number (read_digits 2 0 s) (λ h s.
      after (read_unit (is_unit b':') s)
        (λ s. number (read_digits 2 0 s) (λ m s. at_end (offset (c == b'-') h m) s)))
    else none

abbrev pub with_zone : ℕ → ℕ → ℕ → ℕ → ℕ → ℕ → Text → Option Zone → Option Match
with_zone y mo d h mi s frac none = none
with_zone y mo d h mi s frac (some zone) = some (record {
  year = y;
  month = mo;
  day = d;
  hour = h;
  minute = mi;
  second = s;
  frac = frac;
  zone = zone;
})

abbrev pub with_frac : ℕ → ℕ → ℕ → ℕ → ℕ → ℕ → Option (Option Text × Text) → Option Match
with_frac y mo d h mi s none = none
with_frac y mo d h mi s (some (frac, rest)) =
    with_zone y mo d h mi s (text_or_empty frac) (match_zone rest)

-- `RFC3339.exec(text)`, part by part: each part has one length, but for the fraction, which is followed
-- by no digit.
unfoldable pub match_rfc3339 : Text → Option Match
unfolding match_fraction
match_rfc3339 text = number (read_digits 4 0 text) (λ y s. after (read_unit (is_unit b'-') s) (λ s.
    number (read_digits 2 0 s) (λ mo s. after (read_unit (is_unit b'-') s) (λ s.
      number (read_digits 2 0 s) (λ d s. after (read_unit is_t s) (λ s.
        number (read_digits 2 0 s) (λ h s. after (read_unit (is_unit b':') s) (λ s.
          number (read_digits 2 0 s) (λ mi s. after (read_unit (is_unit b':') s) (λ s.
            number (read_digits 2 0 s)
              (λ sec s. with_frac y mo d h mi sec (match_fraction s))))))))))))

-- The seconds that the zone is ahead.
abbrev pub zone_offset : Zone → Result ℤ
zone_offset utc = ok (pos 0)
zone_offset (offset minus oh om) = do
  fail_if (ltb 23 oh || ltb 59 om) Code.range
  ok (if minus then pos 0 -ℤ pos (oh * 3600 + om * 60) else pos (oh * 3600 + om * 60))

abbrev pub not_zero : ℕ → Bool
not_zero c = not (c == b'0')

-- Behind the match.
unfoldable pub read_match : Match → Result ℤ
unfolding days_from_civil days_in_month
read_match m = do
  fail_if (ltb m.month 1 || ltb 12 m.month) Code.range
  fail_if (ltb m.day 1 || ltb (days_in_month m.year m.month) m.day) Code.range
  fail_if (ltb 23 m.hour) Code.range
  fail_if (ltb 59 m.minute) Code.range
  fail_if (ltb 59 m.second) Code.range
  ahead ← zone_offset m.zone
  fail_if (not (all (λ c. c == b'0') (drop 9 m.frac))) Code.inexact
  let secs =
      days_from_civil m.year m.month m.day *ℤ 86400
      +ℤ (pos (m.hour * 3600 + m.minute * 60 + m.second) -ℤ ahead)
  ok (secs *ℤ 1000000000 +ℤ pos (value (pad_end (take 9 m.frac) 9)))

abbrev pub read_matched : Option Match → Result ℤ
read_matched none = err Code.syntax
read_matched (some m) = read_match m

unfoldable pub parse_rfc3339_ns : Text → Result ℤ
unfolding match_rfc3339 read_match
parse_rfc3339_ns text = read_matched (match_rfc3339 text)

-- The first and the last second of the years 0000 to 9999.
unfoldable pub min_s : ℤ
unfolding days_from_civil
min_s = days_from_civil 0 1 1 *ℤ 86400

unfoldable pub max_s : ℤ
unfolding days_from_civil
max_s = (days_from_civil 9999 12 31 +ℤ pos 1) *ℤ 86400 -ℤ pos 1

abbrev pub pad : ℕ → ℕ → Text
pad n w = pad_start (nat_to_string n) w

-- `YYYY-MM-DDTHH:MM:SS[.f]Z` of a date, a second of the day, and the nanoseconds behind it.
unfoldable pub rfc3339_text : Date → ℕ → ℕ → Text
rfc3339_text date sod frac_ns =
    pad_start (to_string date.year) 4
    ++ (b'-'
        ∷ (pad date.month 2
            ++ (b'-'
                ∷ (pad date.day 2
                    ++ (b'T'
                        ∷ (pad (sod / 3600) 2
                            ++ (b':'
                                ∷ (pad (sod % 3600 / 60) 2
                                    ++ (b':'
                                        ∷ (pad (sod % 60) 2
                                            ++ (point (strip_end (pad frac_ns 9))
                                                ++ (b'Z' ∷ []))))))))))))

-- `ns - secs * NS_PER_S` and `secs - days * S_PER_DAY` are not negative.
unfoldable pub rfc3339_from_ns : ℤ → Result Text
unfolding rfc3339_text civil_from_days min_s max_s
rfc3339_from_ns ns =
    let secs = floor_div ns 1000000000 in
    let days = floor_div secs 86400 in
    (fail_if (ltb_ℤ secs min_s || ltb_ℤ max_s secs) Code.range
      >> ok (
          rfc3339_text (civil_from_days days) (pos_part (secs -ℤ days *ℤ 86400))
            (pos_part (ns -ℤ secs *ℤ 1000000000))))
