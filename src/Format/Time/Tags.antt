-- ===== src/Format/Time/Tags.antt =====
-- The public functions of profile/packages/format/src/time.mjs on tagged values: `parseTimestamp`,
-- `displayTimestamp` with `checkTimeLabels`, `parseDuration` and `displayDuration`.
pub mod Solid
pub mod RoundTrip
use mathlib.Core.Option.{none-ne-some, some-injective}
use candid_core.Common.{
  ℕ, zero, suc, ◌+◌, ◌-◌, ◌*◌, ◌/◌, ◌%◌, ◌^◌, ◌≤◌, ◌<◌, Bool, true, false, not, ◌&&◌, ◌||◌, List,
  [], ◌∷◌, ◌++◌, ◌≡◌, ◌≢◌, refl, sym, ap, ◌∙◌, subst, ◌↔◌, ◌⊎◌, inl, inr, arith, ltb, leb, ◌==◌,
  ==_iff, if◌then◌else◌, length, all, All, All-map, All-append, Option, none, some, Bool-cases,
  Option-cases, ℤ, pos, negsuc, is_neg, magnitude, leb_ℤ, eq_ℤ, ◌+ℤ◌, ◌*ℤ◌, neg_ℕ,
}
use candid_core.Format.Errors.{Code, Result, ok, err, ◌>>=◌, ◌>>◌, fail_if}
use candid_core.Format.Chars.{Text, trim}
use candid_core.Format.Decimal.{value, to_string}
use candid_core.Format.Util.{
  Value, undefined, null, other, str, big, num, TypeName, IntType, int_type, abi_width,
  require_string, to_bigint, check_range,
}
use candid_core.Format.Amount.{
  check_threshold, check_message, is_nat_up_to, is_some, reached, signed,
}
use candid_core.Format.Time.Units.{TimeUnit, unit_factor, ns_to_unit, align_now}
use candid_core.Format.Time.Rfc3339.{parse_rfc3339_ns, rfc3339_from_ns}
use candid_core.Format.Time.Duration.{parse_duration_ns, show_duration}

-- `TIME_TYPES.includes(name)`
unfoldable pub time_types : TypeName → Bool
time_types TypeName.nat = true
time_types TypeName.int = true
time_types (TypeName.nat_n b) = b == 32 || b == 64
time_types (TypeName.int_n b) = b == 64 || (abi_width b && ltb 64 b)
time_types (TypeName.uint_n b) = abi_width b && leb 32 b
time_types (TypeName.named s) = false

-- The labels argument: absent, no object of entries, or the entries of one.
pub data Labels : Type 0 where
  no_labels not_entries : Labels
  entries : List (Text × Value) → Labels

abbrev pub Words : Type 0
Words = List (ℕ × Option Text)

unfoldable pub read_labels : List (Text × Value) → Result Words
read_labels [] = ok []
read_labels ((k, v) ∷ es) = do
  fail_if (not (is_nat_up_to 78 k)) Code.arg
  words ← check_message v
  rest ← read_labels es
  ok ((value k, words) ∷ rest)

unfoldable pub check_time_labels : Labels → Result (Option Words)
unfolding read_labels
check_time_labels no_labels = ok none
check_time_labels not_entries = err Code.arg
check_time_labels (entries es) = do
  fail_if (ltb (length es) 1 || ltb 16 (length es)) Code.arg
  words ← read_labels es
  ok (some words)

pub record TimeOptions : Type 0 where
  pub unit : TimeUnit
  pub candid : TypeName
  pub now : Value
  pub threshold : Value
  pub message : Value
  pub labels : Labels

-- Behind the conversion to nanoseconds.
unfoldable pub give_time : TimeUnit → IntType → ℤ → Result Text
unfolding ns_to_unit
give_time unit type ns = do v ← ns_to_unit ns unit; check_range v type; ok (to_string v)

abbrev pub is_plus : Text → Bool
is_plus [] = false
is_plus (c ∷ s) = c == b'+'

abbrev pub tail : Text → Text
tail [] = []
tail (c ∷ s) = s

-- A relative time: `+` and a duration from the aligned clock.
abbrev pub from_now : Value → TimeUnit → Text → Result ℤ
from_now (big now) unit text = do
  (negative, dur) ← parse_duration_ns text
  fail_if negative Code.syntax
  aligned ← align_now (big now) unit
  ok (aligned +ℤ pos dur)
from_now _ unit text = err Code.needs_now

unfoldable pub parse_timestamp : Value → TimeOptions → Result Text
unfolding give_time
parse_timestamp input opts = do
  f ← unit_factor opts.unit
  type ← int_type opts.candid time_types
  raw ← require_string input
  ns ←
      (if is_plus (trim raw)
        then from_now opts.now opts.unit (tail (trim raw))
        else parse_rfc3339_ns (trim raw))
  give_time opts.unit type ns

-- `words.get(v)`, where `words.has(v)`.
abbrev pub later_label : Option (Option Text) → Bool → Option Text → Option (Option Text)
later_label (some words) here own = some words
later_label none here own = if here then some own else none

unfoldable pub label_of : Words → ℤ → Option (Option Text)
label_of [] v = none
label_of ((k, words) ∷ rest) v = later_label (label_of rest v) (eq_ℤ v (pos k)) words

abbrev pub label_in : Option Words → ℤ → Option (Option Text)
label_in none v = none
label_in (some words) v = label_of words v

-- The text of a time that no label names: the message from the threshold on.
abbrev pub show_time : Option ℤ → Option Text → ℤ → ℕ → Result (Option Text)
show_time limit text v f =
    if reached limit v then ok text else (rfc3339_from_ns (v *ℤ f) >>= λ shown. ok (some shown))

abbrev pub label_or : Option (Option Text) → Result (Option Text) → Result (Option Text)
label_or none shown = shown
label_or (some words) shown = ok words

unfoldable pub display_timestamp : Value → TimeOptions → Result (Option Text)
unfolding check_time_labels label_of
display_timestamp input opts = do
  f ← unit_factor opts.unit
  type ← int_type opts.candid time_types
  limit ← check_threshold opts.threshold
  text ← check_message opts.message
  fail_if (not (is_some limit) && is_some text || is_some limit && not (is_some text)) Code.arg
  words ← check_time_labels opts.labels
  v ← to_bigint input
  check_range v type
  label_or (label_in words v) (show_time limit text v f)

unfoldable pub parse_duration : Value → TimeOptions → Result Text
unfolding give_time
parse_duration input opts = do
  f ← unit_factor opts.unit
  type ← int_type opts.candid time_types
  raw ← require_string input
  (negative, ns) ← parse_duration_ns (trim raw)
  fail_if (negative && not (ns == 0) && not type.signed) Code.negative
  give_time opts.unit type (signed negative ns)

unfoldable pub display_duration : Value → TimeOptions → Result Text
display_duration input opts = do
  f ← unit_factor opts.unit
  type ← int_type opts.candid time_types
  v ← to_bigint input
  check_range v type
  ok (show_duration (is_neg v) (magnitude v * f))
