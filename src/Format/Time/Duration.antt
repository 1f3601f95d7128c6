-- ===== src/Format/Time/Duration.antt =====
-- ISO 8601 durations of profile/packages/format/src/time.mjs: `parseDurationNs`, and the text of
-- `displayDuration`.
pub mod Groups
pub mod RoundTrip
use mathlib.Core.Option.{none-ne-some, some-injective}
use candid_core.Common.{
  ℕ, zero, suc, ◌+◌, ◌-◌, ◌*◌, ◌/◌, ◌%◌, ◌^◌, ◌≤◌, ◌<◌, Bool, true, false, not, ◌&&◌, ◌||◌, List,
  [], ◌∷◌, ◌++◌, ◌≡◌, ◌≢◌, refl, sym, ap, ◌∙◌, subst, ◌↔◌, ◌⊎◌, inl, inr, arith, ltb, leb, ◌==◌,
  ==_iff, if◌then◌else◌, length, all, All, All-map, All-append, Option, none, some, Bool-cases,
  Option-cases, take, drop, take_while, drop_while, text_eq,
}
use candid_core.Format.Errors.{Code, Result, ok, err, ◌>>=◌, ◌>>◌, fail_if}
use candid_core.Format.Chars.{Text, is_digit}
use candid_core.Format.Decimal.{value, nat_to_string, pad_start, pad_end, strip_end}
use candid_core.Format.Amount.{text_or_empty, point, is_some}
use candid_core.Format.Time.Rfc3339.{pad}

-- The groups of DURATION.
pub record DurationMatch : Type 0 where
  pub minus : Bool
  pub weeks : Option Text
  pub days : Option Text
  pub hours : Option Text
  pub minutes : Option Text
  pub seconds : Option Text
  pub frac : Option Text

abbrev pub unit_found : ℕ → Text → Text → Text → Option Text × Text
unit_found unit s digits [] = (none, s)
unit_found unit s digits (c ∷ rest) =
    if c == unit && not (text_eq digits []) then (some digits, rest) else (none, s)

-- (?:([0-9]+)W)? with `W` for the unit: nothing is taken where the unit does not follow the digits.
unfoldable pub unit_group : ℕ → Text → Option Text × Text
unit_group unit s = unit_found unit s (take_while is_digit s) (drop_while is_digit s)

-- The seconds, their fraction, and what follows.
abbrev pub Seconds : Type 0
Seconds = Option Text × Option Text × Text

abbrev pub fraction_found : Text → Text → Text → Text → Seconds
fraction_found s digits frac [] = (none, none, s)
fraction_found s digits frac (c ∷ rest) =
    if c == b'S' && not (text_eq frac []) then (some digits, some frac, rest) else (none, none, s)

abbrev pub seconds_found : Text → Text → Text → Seconds
seconds_found s digits [] = (none, none, s)
seconds_found s digits (c ∷ rest) =
    if text_eq digits []
    then (none, none, s)
    else if c == b'S'
    then (some digits, none, rest)
    else if c == b'.' || c == b','
    then fraction_found s digits (take_while is_digit rest) (drop_while is_digit rest)
    else (none, none, s)

-- (?:([0-9]+)(?:[.,]([0-9]+))?S)?
unfoldable pub seconds_group : Text → Seconds
seconds_group s = seconds_found s (take_while is_digit s) (drop_while is_digit s)

abbrev pub digit_first : Text → Bool
digit_first [] = false
digit_first (c ∷ s) = is_digit c

abbrev pub ends :
    Bool → Option Text → Option Text → Option Text → Option Text → Seconds → Option DurationMatch
ends minus w d h m (s, frac, []) = some (record {
  minus = minus;
  weeks = w;
  days = d;
  hours = h;
  minutes = m;
  seconds = s;
  frac = frac;
})
ends minus w d h m (s, frac, c ∷ rest) = none

abbrev pub with_minutes :
    Bool → Option Text → Option Text → Option Text → Option Text × Text → Option DurationMatch
with_minutes minus w d h (m, s) = ends minus w d h m (seconds_group s)

abbrev pub with_hours : Bool → Option Text → Option Text → Option Text × Text → Option DurationMatch
with_hours minus w d (h, s) = with_minutes minus w d h (unit_group b'M' s)

-- (?:T(?=[0-9])…)?$
abbrev pub with_time : Bool → Option Text → Option Text → Text → Option DurationMatch
with_time minus w d [] = ends minus w d none none (none, none, [])
with_time minus w d (c ∷ s) =
    if c == b'T' && digit_first s then with_hours minus w d (unit_group b'H' s) else none

abbrev pub with_days : Bool → Option Text → Option Text × Text → Option DurationMatch
with_days minus w (d, s) = with_time minus w d s

abbrev pub with_weeks : Bool → Option Text × Text → Option DurationMatch
with_weeks minus (w, s) = with_days minus w (unit_group b'D' s)

abbrev pub behind_p : Bool → Text → Option DurationMatch
behind_p minus [] = none
behind_p minus (c ∷ s) = if c == b'P' then with_weeks minus (unit_group b'W' s) else none

-- `DURATION.exec(text)`: each group takes its digits where its letter follows them, since no other part
-- can take these.
unfoldable pub match_duration : Text → Option DurationMatch
unfolding unit_group seconds_group
match_duration [] = none
match_duration (c ∷ s) = if c == b'-' then behind_p true s else behind_p false (c ∷ s)

-- A `Y` or an `M` before the first `T`.
abbrev pub calendar_before : Text → Bool
calendar_before [] = false
calendar_before (c ∷ s) =
    let rest = calendar_before s in
    if c == b'T' then false else if c == b'Y' || c == b'M' then true else rest

abbrev pub calendar_behind : Text → Bool
calendar_behind [] = false
calendar_behind (c ∷ s) = c == b'P' && calendar_before s

-- /^-?P[^T]*[YM]/
unfoldable pub uses_calendar : Text → Bool
uses_calendar [] = false
uses_calendar (c ∷ s) = if c == b'-' then calendar_behind s else calendar_behind (c ∷ s)

-- `g === undefined ? 0n : BigInt(g)`
abbrev pub group_value : Option Text → ℕ
group_value none = 0
group_value (some s) = value s

abbrev pub no_group : DurationMatch → Bool
no_group m =
    not (
      is_some m.weeks
      || is_some m.days
      || is_some m.hours
      || is_some m.minutes
      || is_some m.seconds)

unfoldable pub read_duration : DurationMatch → Result (Bool × ℕ)
read_duration m = do
  fail_if (no_group m) Code.syntax
  fail_if (not (all (λ c. c == b'0') (drop 9 (text_or_empty m.frac)))) Code.inexact
  ok (
    m.minus,
    ((group_value m.weeks * 7 + group_value m.days) * 86400
            + group_value m.hours * 3600
            + group_value m.minutes * 60
            + group_value m.seconds)
          * 1000000000
        + value (pad_end (take 9 (text_or_empty m.frac)) 9),
  )

abbrev pub read_matched : Option DurationMatch → Result (Bool × ℕ)
read_matched none = err Code.syntax
read_matched (some m) = read_duration m

unfoldable pub parse_duration_ns : Text → Result (Bool × ℕ)
unfolding match_duration uses_calendar read_duration
parse_duration_ns text = do
  fail_if (uses_calendar text) Code.calendar_unit
  read_matched (match_duration text)

-- `n ? `${n}H` : ""`, with `H` for the unit, before the rest.
unfoldable pub part : ℕ → ℕ → Text → Text
part n unit rest = if n == 0 then rest else nat_to_string n ++ (unit ∷ rest)

-- The seconds and their fraction.
unfoldable pub seconds_part : ℕ → Text → Text
seconds_part s frac =
    if s == 0 && text_eq frac [] then [] else nat_to_string s ++ (point frac ++ (b'S' ∷ []))

abbrev pub or_zero : ℕ → Text → Text
or_zero days [] = if days == 0 then b'0' ∷ b'S' ∷ [] else []
or_zero days (c ∷ t) = c ∷ t

abbrev pub time_part : Text → Text
time_part [] = []
time_part (c ∷ t) = b'T' ∷ c ∷ t

-- The text of `displayDuration` for a number of nanoseconds.
unfoldable pub show_duration : Bool → ℕ → Text
unfolding part seconds_part
show_duration minus total =
    let secs = total / 1000000000 in
    let frac = strip_end (pad (total % 1000000000) 9) in
    let days = secs / 86400 in
    let t =
      part (secs % 86400 / 3600) b'H'
        (part (secs % 3600 / 60) b'M' (seconds_part (secs % 60) frac)) in
    (if minus then b'-' ∷ [] else []) ++ (b'P' ∷ part days b'D' (time_part (or_zero days t)))
