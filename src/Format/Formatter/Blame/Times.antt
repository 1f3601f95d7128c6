-- ===== src/Format/Formatter/Blame/Times.antt =====
-- What the functions on times of profile/packages/format/src/time.mjs may say of a text that a formatter
-- is asked to read.
use candid_core.Common.{
  ℕ, not, ◌&&◌, ◌||◌, ◌≡◌, refl, ◌==◌, ltb, all, Option, none, some, ℤ, arith, drop, magnitude,
  ◌%ℤ◌,
}
use candid_core.Format.Errors.{Code, ok, err}
use candid_core.Format.Chars.{Text, trim}
use candid_core.Format.Util.{Value, IntType, TypeName, require_string, check_length}
use candid_core.Format.Time.Units.{TimeUnit, unit_factor, ns_to_unit, align_now}
use candid_core.Format.Time.Civil.{days_in_month}
use candid_core.Format.Time.Rfc3339
use candid_core.Format.Time.Rfc3339.{Zone, zone_offset, Match, match_rfc3339, parse_rfc3339_ns}
use candid_core.Format.Time.Duration.{parse_duration_ns}
use candid_core.Format.Time.Tags.{
  TimeOptions, give_time, from_now, is_plus, tail, parse_timestamp, parse_duration,
}
use candid_core.Format.Formatter.Run.{at, now_or}
use candid_core.Format.Formatter.Ready.{TimeReady}
use candid_core.Format.Formatter.Blame.{
  BlamesValue, after, chained, failed, fine, branch, check_range-BlamesValue,
}

pub require_string-BlamesValue : (v : Value) → BlamesValue (require_string v)
unfolding require_string check_length BlamesValue
require_string-BlamesValue v = ground arith

zone_offset-BlamesValue : (z : Zone) → BlamesValue (zone_offset z)
unfolding BlamesValue
zone_offset-BlamesValue z = ground arith

read_time-BlamesValue : (m : Match) → BlamesValue (Rfc3339.read_match m)
unfolding Rfc3339.read_match
read_time-BlamesValue m = failed (ltb m.month 1 || ltb 12 m.month) Code.range _ refl (
    failed (ltb m.day 1 || ltb (days_in_month m.year m.month) m.day) Code.range _ refl (
      failed (ltb 23 m.hour) Code.range _ refl (
        failed (ltb 59 m.minute) Code.range _ refl (
          failed (ltb 59 m.second) Code.range _ refl (
            chained (zone_offset m.zone) _ (zone_offset-BlamesValue m.zone) (λ ahead.
              failed (not (all (λ c. c == b'0') (drop 9 m.frac))) Code.inexact _ refl (fine _)))))))

read_matched-BlamesValue : (m : Option Match) → BlamesValue (Rfc3339.read_matched m)
unfolding BlamesValue
read_matched-BlamesValue none = refl
read_matched-BlamesValue (some m) = read_time-BlamesValue m

parse_rfc3339_ns-BlamesValue : (s : Text) → BlamesValue (parse_rfc3339_ns s)
unfolding parse_rfc3339_ns
parse_rfc3339_ns-BlamesValue s = read_matched-BlamesValue (match_rfc3339 s)

parse_duration_ns-BlamesValue : (s : Text) → BlamesValue (parse_duration_ns s)
unfolding parse_duration_ns BlamesValue
parse_duration_ns-BlamesValue s = ground arith

give_time-BlamesValue :
    (unit : TimeUnit) (type : IntType) (n : ℤ) {f : ℕ}
    → unit_factor unit ≡ ok f
    → BlamesValue (give_time unit type n)
unfolding give_time ns_to_unit
give_time-BlamesValue unit type n {f} hf =
    chained _ _ (after _ _ hf (failed (not (magnitude (n %ℤ f) == 0)) Code.inexact _ refl (fine _)))
      (λ v. chained _ _ (check_range-BlamesValue v type) (λ _. fine _))

needs_now-BlamesValue : BlamesValue {A = ℤ} (err Code.needs_now)
unfolding BlamesValue
needs_now-BlamesValue = refl

from_now-BlamesValue :
    (now : Value) (unit : TimeUnit) (s : Text) {f : ℕ}
    → unit_factor unit ≡ ok f
    → BlamesValue (from_now now unit s)
unfolding align_now
from_now-BlamesValue (Value.big now) unit s hf =
    chained (parse_duration_ns s) _ (parse_duration_ns-BlamesValue s)
      (λ d. failed d.0 Code.syntax _ refl (chained _ _ (after _ _ hf (fine _)) (λ a. fine _)))
from_now-BlamesValue Value.undefined unit s hf = needs_now-BlamesValue
from_now-BlamesValue Value.null unit s hf = needs_now-BlamesValue
from_now-BlamesValue Value.other unit s hf = needs_now-BlamesValue
from_now-BlamesValue (Value.str t) unit s hf = needs_now-BlamesValue
from_now-BlamesValue (Value.num n) unit s hf = needs_now-BlamesValue

pub parse_timestamp-BlamesValue :
    (type : TypeName) (v now : Value) (o : TimeOptions)
    → TimeReady type o
    → BlamesValue (parse_timestamp v (at o now))
unfolding parse_timestamp
parse_timestamp-BlamesValue type v now o (_, (t, ht), (f, hf), _, _) = after _ _ hf (
    after _ _ ht (
      chained _ _ (require_string-BlamesValue v) (λ raw.
        chained _ _
          (branch (is_plus (trim raw)) _ _
            (from_now-BlamesValue (now_or now o.now) o.unit (tail (trim raw)) hf)
            (parse_rfc3339_ns-BlamesValue (trim raw)))
          (λ n. give_time-BlamesValue o.unit t n hf))))

pub parse_duration-BlamesValue :
    (type : TypeName) (v : Value) (o : TimeOptions)
    → TimeReady type o
    → BlamesValue (parse_duration v o)
unfolding parse_duration
parse_duration-BlamesValue type v o (_, (t, ht), (f, hf), _, _) = after _ _ hf (
    after _ _ ht (
      chained _ _ (require_string-BlamesValue v) (λ raw.
        chained _ _ (parse_duration_ns-BlamesValue (trim raw)) (λ d.
          failed (d.0 && not (d.1 == 0) && not t.signed) Code.negative _ refl
            (give_time-BlamesValue o.unit t _ hf)))))
