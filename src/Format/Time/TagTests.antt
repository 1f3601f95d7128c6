-- ===== src/Format/Time/TagTests.antt =====
-- Runs of the calendar, RFC 3339 and durations of profile/packages/format/src/time.mjs, and the theorems on them.
use candid_core.Format.Amount.{check_threshold, check_message}
use candid_core.Format.Time.Tags.RoundTrip.{
  parse_duration-display_duration, parse_timestamp-display_timestamp,
}
use candid_core.Format.Time.Rfc3339.RoundTrip.{parse_rfc3339_ns-rfc3339_from_ns}
use candid_core.Format.Time.Civil.RoundTrip.{IsDate}
use candid_core.Format.Decimal.{to_string, pad_start, nat_to_string, pad_end}
use candid_core.Format.Time.Units.{unit_factor, s, ms, floor_div, align_now, ns_to_unit}
use candid_core.Format.Time.Civil.Inverse.{IsDateOf, civil_from_days-IsDateOf}
use candid_core.Format.Time.Duration.{
  parse_duration_ns, show_duration, part, seconds_part, uses_calendar, match_duration, unit_group,
  seconds_group, read_duration,
}
use candid_core.Format.Chars.{Text, codes, trim, is_space}
use candid_core.Format.Time.Rfc3339.{rfc3339_from_ns, parse_rfc3339_ns, rfc3339_text, min_s, max_s}
use candid_core.Format.Time.Civil.{
  days_in_month, civil_from_days, is_leap, days_from_civil, date_of_era, year_of_era, day_number,
  day_of_era,
}
use candid_core.Format.Time.Tags.{
  display_duration, TimeOptions, parse_duration, parse_timestamp, display_timestamp, no_labels,
  time_types, check_time_labels, give_time,
}
use candid_core.Common.{◌≡◌, refl, arith, none, some, negsuc, pos, ◌+ℤ◌, ◌*ℤ◌, ◌-ℤ◌, ◌/ℤ◌, ◌%ℤ◌}
use candid_core.Format.Errors.{ok, err, Code}
use candid_core.Format.Util.{
  undefined, str, TypeName, int_type, big, int_types, to_bigint, check_range, require_string,
  check_length,
}

leap_day-IsDate : IsDate 2024 2 29
unfolding days_in_month is_leap
leap_day-IsDate = record {
  month_low = omega arith;
  month_high = omega arith;
  day_low = omega arith;
  day_high = omega arith;
}

civil_from_days-IsDateOf_example : IsDateOf (negsuc 719467)
civil_from_days-IsDateOf_example =
    civil_from_days-IsDateOf (negsuc 719467) (unfold ◌+ℤ◌ in (omega arith))

abbrev before_epoch : Text
before_epoch = codes "1969-12-31T23:59:59.5Z"

before_epoch_shown : rfc3339_from_ns (negsuc 499999999) ≡ ok before_epoch
unfolding rfc3339_from_ns rfc3339_text civil_from_days date_of_era year_of_era min_s max_s floor_div
    pad_start nat_to_string to_string days_from_civil day_number day_of_era ◌+ℤ◌ ◌-ℤ◌ ◌*ℤ◌ ◌/ℤ◌ ◌%ℤ◌
before_epoch_shown = refl

parse_rfc3339_ns-rfc3339_from_ns_example : parse_rfc3339_ns before_epoch ≡ ok (negsuc 499999999)
parse_rfc3339_ns-rfc3339_from_ns_example =
    parse_rfc3339_ns-rfc3339_from_ns (negsuc 499999999) before_epoch before_epoch_shown

abbrev in_ms : TimeOptions
in_ms = record {
  unit = ms;
  candid = TypeName.int_n 64;
  now = undefined;
  threshold = undefined;
  message = undefined;
  labels = no_labels;
}

displayed : display_timestamp (big (negsuc 499)) in_ms ≡ ok (some before_epoch)
unfolding display_timestamp unit_factor int_type time_types check_threshold check_message to_bigint
    check_range int_types rfc3339_from_ns rfc3339_text civil_from_days date_of_era year_of_era min_s
    max_s floor_div pad_start nat_to_string to_string days_from_civil day_number day_of_era ◌+ℤ◌
    ◌-ℤ◌ ◌*ℤ◌ ◌/ℤ◌ ◌%ℤ◌
displayed = refl

parse_timestamp-display_timestamp_example :
    parse_timestamp (str before_epoch) in_ms ≡ ok (to_string (negsuc 499))
parse_timestamp-display_timestamp_example =
    parse_timestamp-display_timestamp (big (negsuc 499)) in_ms (negsuc 499) none none before_epoch
      (unfold to_bigint in refl) (unfold check_threshold in refl) refl
      (unfold check_time_labels in refl) refl displayed

abbrev a_day_ago : Text
a_day_ago = codes "-P1DT1H1M1.5S"

duration_displayed : display_duration (big (negsuc 90061499)) in_ms ≡ ok a_day_ago
unfolding display_duration unit_factor int_type time_types to_bigint check_range int_types
    show_duration part seconds_part pad_start nat_to_string ◌*ℤ◌
duration_displayed = refl

parse_duration-display_duration_example :
    parse_duration (str a_day_ago) in_ms ≡ ok (to_string (negsuc 90061499))
parse_duration-display_duration_example =
    parse_duration-display_duration (big (negsuc 90061499)) in_ms (negsuc 90061499) a_day_ago
      (unfold to_bigint in refl) duration_displayed (omega arith)

-- A relative time is a duration from the aligned clock.
abbrev tomorrow : TimeOptions
tomorrow = record {
  unit = s;
  candid = TypeName.nat_n 64;
  now = big (pos 1999999999);
  threshold = undefined;
  message = undefined;
  labels = no_labels;
}

relative : parse_timestamp (str (codes "+P1D")) tomorrow ≡ ok (codes "86401")
unfolding parse_timestamp unit_factor int_type time_types int_types require_string check_length trim
    is_space uses_calendar match_duration unit_group seconds_group pad_end read_duration
    parse_duration_ns align_now floor_div give_time ns_to_unit check_range to_string nat_to_string
    ◌+ℤ◌ ◌-ℤ◌ ◌*ℤ◌ ◌/ℤ◌ ◌%ℤ◌
relative = refl

with_calendar : parse_duration (str (codes "P1Y")) tomorrow ≡ err Code.calendar_unit
unfolding parse_duration unit_factor int_type time_types int_types require_string check_length trim
    is_space uses_calendar match_duration unit_group seconds_group pad_end read_duration
    parse_duration_ns align_now floor_div give_time ns_to_unit check_range to_string nat_to_string
    ◌+ℤ◌ ◌-ℤ◌ ◌*ℤ◌ ◌/ℤ◌ ◌%ℤ◌
with_calendar = refl
