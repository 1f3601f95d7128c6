-- ===== src/Format/Time/Units.antt =====
-- Units of time of profile/packages/format/src/time.mjs (`unitFactor` to `floorDiv`).
use candid_core.Common.{
  ℕ, not, ◌==◌, if◌then◌else◌, ℤ, pos, is_neg, magnitude, ◌*ℤ◌, ◌-ℤ◌, ◌/ℤ◌, ◌%ℤ◌,
}
use candid_core.Format.Errors.{Code, Result, ok, err, ◌>>=◌, ◌>>◌, fail_if}
use candid_core.Format.Chars.{Text}
use candid_core.Format.Decimal.{to_string}
use candid_core.Format.Util.{Value, big, to_bigint}

-- A unit's name; `unknown` is every other value.
pub data TimeUnit : Type 0 where
  ns us ms s unknown : TimeUnit

unfoldable pub unit_factor : TimeUnit → Result ℕ
unit_factor ns = ok 1
unit_factor us = ok 1000
unit_factor ms = ok 1000000
unit_factor s = ok 1000000000
unit_factor unknown = err Code.arg

unfoldable pub ns_to_unit : ℤ → TimeUnit → Result ℤ
unfolding unit_factor
ns_to_unit n unit = do
  f ← unit_factor unit
  fail_if (not (magnitude (n %ℤ f) == 0)) Code.inexact
  ok (n /ℤ f)

unfoldable pub convert_unit : Value → TimeUnit → TimeUnit → Result Text
unfolding ns_to_unit
convert_unit value from to = do
  v ← to_bigint value
  f ← unit_factor from
  w ← ns_to_unit (v *ℤ f) to
  ok (to_string w)

unfoldable pub floor_div : ℤ → ℕ → ℤ
floor_div a b = if is_neg (a %ℤ b) then a /ℤ b -ℤ pos 1 else a /ℤ b

-- `alignNow`, which writes the floor division out.
unfoldable pub align_now : Value → TimeUnit → Result ℤ
unfolding floor_div unit_factor
align_now (big now) unit = do f ← unit_factor unit; ok (floor_div now f *ℤ f)
align_now _ unit = err Code.type_error
