-- ===== src/Format/Time/Duration/RoundTrip.antt =====
-- What `displayDuration` of profile/packages/format/src/time.mjs writes is read back by `parseDurationNs`.
use candid_core.Format.Time.Rfc3339.Written.{optional-text}
use candid_core.Format.Decimal.{value}
use candid_core.Format.Time.Rfc3339.RoundTrip.{fraction-back}
use candid_core.Format.Errors.{ok}
use candid_core.Format.Time.Rfc3339.{pad}
use candid_core.Format.Amount.{is_some, point}
use candid_core.Format.Amount.Match.{optional}
use candid_core.Format.Time.Duration.Groups.{
  shown, shown_seconds, Begins, part-Begins, seconds_part-Begins, unit_group-part, unit_group-other,
  unit_group-seconds_part, seconds_group-seconds_part,
}
use candid_core.Format.Decimal.{
  IsDigit, nat_to_string, value-nat_to_string, nat_to_string-IsDigit, strip_end, strip_end-IsDigit,
  pad_start-IsDigit, length-nat_to_string, pad_start, pad_end, value,
}
use candid_core.Format.Chars.{Text}
use candid_core.Common.{
  ℕ, ◌+◌, ◌*◌, ◌/◌, ◌%◌, ◌<◌, Bool, true, false, ◌&&◌, ◌||◌, [], ◌∷◌, ◌++◌, ◌≡◌, ◌≢◌, refl, sym, ap,
  ◌∙◌, inl, inr, arith, ◌==◌, if◌then◌else◌, length, All, Option, none, some, Bool-cases, text_eq,
  text_eq→eq, take,
}
use candid_core.Format.Time.Duration.{
  parse_duration_ns, Text, with_time, time_part, part, seconds_part, with_hours, unit_group,
  seconds_group, calendar_before, match_duration, uses_calendar, group_value, with_weeks,
  show_duration, or_zero, is_some, point, read_duration, DurationMatch, no_group, ok, pad,
}

-- The hours, the minutes and the seconds that were written are found.
time-found :
    (minus : Bool) (d : Option Text) (h m s : ℕ) (frac : Text)
    → All IsDigit frac
    → with_time minus none d (time_part (part h b'H' (part m b'M' (seconds_part s frac))))
      ≡ some (record {
        minus = minus;
        weeks = none;
        days = d;
        hours = shown h;
        minutes = shown m;
        seconds = shown_seconds s frac;
        frac = optional frac;
      })
time-found minus d h m s frac digits =
    opened (part h b'H' minutes) (
      part-Begins h b'H' minutes
        (part-Begins m b'M' (seconds_part s frac) (seconds_part-Begins s frac)))
    ∙ (rw
        (
          unit_group-part h b'H' minutes refl (
              unit_group-other m b'M' b'H' (seconds_part s frac) refl refl
                (unit_group-seconds_part s frac b'H' refl refl)),
          unit_group-part m b'M' (seconds_part s frac) refl
              (unit_group-seconds_part s frac b'M' refl refl),
          seconds_group-seconds_part s frac digits (optional frac) refl,
        )
        refl)
  where
    minutes : Text
    minutes = part m b'M' (seconds_part s frac)

    opened :
        (t : Text)
        → Begins t
        → with_time minus none d (time_part t) ≡ with_hours minus none d (unit_group b'H' t)
    opened [] b = unfold unit_group seconds_group in refl
    opened (c ∷ t) (inl never) = cc
    opened (c ∷ t) (inr first) = rw first refl

-- No group of days or weeks begins the time.
no_group-time_part : (unit : ℕ) (t : Text) → unit_group unit (time_part t) ≡ (none, time_part t)
unfolding unit_group
no_group-time_part unit [] = refl
no_group-time_part unit (c ∷ t) = elim (Bool-cases (b'T' == unit)) [
  | inl e ↦ rw e refl
  | inr e ↦ rw e refl
]

abbrev sign_mark : Bool → Text
sign_mark minus = if minus then b'-' ∷ [] else []

-- The sign and the days that were written are found, and the time is matched behind them.
match_duration-days :
    (minus : Bool) (days : ℕ) (t : Text)
    → match_duration (sign_mark minus ++ (b'P' ∷ part days b'D' (time_part t)))
      ≡ with_time minus none (shown days) (time_part t)
unfolding match_duration
match_duration-days minus days t =
    signed minus
    ∙ (rw
        (
          unit_group-other days b'D' b'W' (time_part t) refl refl (no_group-time_part b'W' t),
          unit_group-part days b'D' (time_part t) refl (no_group-time_part b'D' t),
        )
        refl)
  where
    signed :
        (minus : Bool)
        → match_duration (sign_mark minus ++ (b'P' ∷ part days b'D' (time_part t)))
          ≡ with_weeks minus (unit_group b'W' (part days b'D' (time_part t)))
    signed true = refl
    signed false = refl

calendar_digits :
    (s rest : Text) → All IsDigit s → calendar_before (s ++ rest) ≡ calendar_before rest
calendar_digits [] rest h = refl
calendar_digits (c ∷ s) rest h =
    let (low, high) = h.0 in
    let t : (c == b'T') ≡ false = ground (arith, low, high) in
    let ym : (c == b'Y' || c == b'M') ≡ false = ground (arith, low, high) in
    rw (t, ym) (calendar_digits s rest h.1)

calendar_time : (t : Text) → calendar_before (time_part t) ≡ false
calendar_time [] = refl
calendar_time (c ∷ t) = refl

calendar_days : (days : ℕ) (t : Text) → calendar_before (part days b'D' (time_part t)) ≡ false
unfolding part
calendar_days days t = elim (Bool-cases (days == 0)) [
  | inl nothing ↦ rw nothing (calendar_time t)
  | inr some_left ↦ rw some_left (
      calendar_digits (nat_to_string days) (b'D' ∷ time_part t) (nat_to_string-IsDigit days)
      ∙ calendar_time t)
]

uses_calendar-days :
    (minus : Bool) (days : ℕ) (t : Text)
    → uses_calendar (sign_mark minus ++ (b'P' ∷ part days b'D' (time_part t))) ≡ false
unfolding uses_calendar
uses_calendar-days true days t = calendar_days days t
uses_calendar-days false days t = calendar_days days t

shown-value : (n : ℕ) → group_value (shown n) ≡ n
shown-value n = elim (Bool-cases (n == 0)) [
  | inl nothing ↦ let e : n ≡ 0 = ground (arith, nothing) in rw (nothing, e) refl
  | inr some_left ↦ rw some_left (value-nat_to_string n)
]

shown_seconds-value : (s : ℕ) (frac : Text) → group_value (shown_seconds s frac) ≡ s
unfolding shown_seconds
shown_seconds-value s frac = elim (Bool-cases (s == 0 && text_eq frac [])) [
  | inl nothing ↦ let e : s ≡ 0 = ground (arith, nothing) in rw (nothing, e) refl
  | inr some_left ↦ rw some_left (value-nat_to_string s)
]

part-empty : (n unit : ℕ) (rest : Text) → part n unit rest ≡ [] → (n ≡ 0) × (rest ≡ [])
unfolding part
part-empty n unit rest h = elim (Bool-cases (n == 0)) [
  | inl nothing ↦ (ground (arith, nothing), rw nothing at h)
  | inr some_left ↦ absurd (go (nat_to_string n) (rw some_left at h))
]
  where
    go : (s : Text) → s ++ (unit ∷ rest) ≢ []
    go [] e = cc
    go (c ∷ s) e = cc

seconds_part-empty : (s : ℕ) (frac : Text) → seconds_part s frac ≡ [] → (s ≡ 0) × (frac ≡ [])
unfolding seconds_part
seconds_part-empty s frac h = elim (Bool-cases (s == 0 && text_eq frac [])) [
  | inl nothing ↦ (ground (arith, nothing), text_eq→eq frac [] (ground (arith, nothing)))
  | inr some_left ↦ absurd (go (nat_to_string s) (length-nat_to_string s) (rw some_left at h))
]
  where
    go : (d : Text) → 0 < length d → d ++ (point frac ++ (b'S' ∷ [])) ≢ []
    go [] k e = elim k [ ]
    go (c ∷ d) k e = cc

or_zero-eq : (days : ℕ) (t : Text) → (t ≡ [] → (days == 0) ≡ false) → or_zero days t ≡ t
or_zero-eq days [] h = rw (h refl) refl
or_zero-eq days (c ∷ t) h = refl

is_some-shown : (n : ℕ) → is_some (shown n) ≡ false → n ≡ 0
is_some-shown n h = elim (Bool-cases (n == 0)) [
  | inl nothing ↦ ground (arith, nothing)
  | inr some_left ↦ let g : true ≡ false = rw some_left at h in cc
]

is_some-shown_seconds :
    (s : ℕ) (frac : Text) → is_some (shown_seconds s frac) ≡ false → (s ≡ 0) × (frac ≡ [])
unfolding shown_seconds
is_some-shown_seconds s frac h = elim (Bool-cases (s == 0 && text_eq frac [])) [
  | inl nothing ↦ (ground (arith, nothing), text_eq→eq frac [] (ground (arith, nothing)))
  | inr some_left ↦ let g : true ≡ false = rw some_left at h in cc
]

-- Only a zero fraction has no digits left.
no_fraction : (n : ℕ) → n < 1000000000 → strip_end (pad n 9) ≡ [] → n ≡ 0
no_fraction n small h =
    let back = (fraction-back n small).0 in
    let g : value (pad_end (take 9 []) 9) ≡ n = rw h at back in sym g ∙ (unfold pad_end in refl)

module _ (minus : Bool) (days h m s : ℕ) (n : ℕ) (small : n < 1000000000)
    (some_time : 0 < days + h + m + s + n) where
  abbrev digits : Text
  digits = strip_end (pad n 9)

  abbrev clock : Text
  clock = part h b'H' (part m b'M' (seconds_part s digits))

  abbrev parts : DurationMatch
  parts = record {
    minus = minus;
    weeks = none;
    days = shown days;
    hours = shown h;
    minutes = shown m;
    seconds = shown_seconds s digits;
    frac = optional digits;
  }

  clock_kept : or_zero days clock ≡ clock
  clock_kept = or_zero-eq days clock (λ empty.
      let (h0, rest) = part-empty h b'H' (part m b'M' (seconds_part s digits)) empty in
      let (m0, rest) = part-empty m b'M' (seconds_part s digits) rest in
      let (s0, no_digits) = seconds_part-empty s digits rest in
      let n0 = no_fraction n small no_digits in ground (arith, h0, m0, s0, n0, some_time))

  matched :
      match_duration (sign_mark minus ++ (b'P' ∷ part days b'D' (time_part (or_zero days clock))))
      ≡ some parts
  matched = rw clock_kept (
      match_duration-days minus days clock
      ∙ time-found minus (shown days) h m s digits
          (strip_end-IsDigit (pad n 9) (pad_start-IsDigit n 9)))

  some_group : no_group parts ≡ false
  some_group = elim (Bool-cases (no_group parts)) [
    | inr found ↦ found
    | inl none_found ↦
        let d0 = is_some-shown days (ground (arith, none_found)) in
        let h0 = is_some-shown h (ground (arith, none_found)) in
        let m0 = is_some-shown m (ground (arith, none_found)) in
        let (s0, no_digits) = is_some-shown_seconds s digits (ground (arith, none_found)) in
        let n0 = no_fraction n small no_digits in
        absurd (omega (arith, d0, h0, m0, s0, n0, some_time))
  ]

  read_back :
      read_duration parts ≡ ok (minus, (days * 86400 + h * 3600 + m * 60 + s) * 1000000000 + n)
  unfolding read_duration
  read_back =
      let (number, nothing_left) = fraction-back n small in
      rw
        (
          some_group,
          optional-text digits,
          nothing_left,
          number,
          shown-value days,
          shown-value h,
          shown-value m,
          shown_seconds-value s digits,
        )
        (ap (λ (t : ℕ). ok (minus, t)) (omega arith))

zero_read : (minus : Bool) → parse_duration_ns (show_duration minus 0) ≡ ok (minus, 0)
unfolding parse_duration_ns show_duration uses_calendar match_duration unit_group seconds_group part
    seconds_part pad_start nat_to_string read_duration pad_end
zero_read true = refl
zero_read false = refl

-- A duration is read back from its text: the sign and the number of nanoseconds.
pub parse_duration_ns-show_duration :
    (minus : Bool) (total : ℕ) → parse_duration_ns (show_duration minus total) ≡ ok (minus, total)
unfolding parse_duration_ns show_duration
parse_duration_ns-show_duration minus total = elim (Bool-cases (total == 0)) [
  | inl nothing ↦
      let e : total ≡ 0 = ground (arith, nothing) in
      rw e (unfold parse_duration_ns show_duration in (zero_read minus))
  | inr time ↦
      let secs : ℕ = total / 1000000000 in
      let n : ℕ = total % 1000000000 in
      let small : n < 1000000000 = omega arith in
      let some_time : 0 < secs / 86400 + secs % 86400 / 3600 + secs % 3600 / 60 + secs % 60 + n =
        ground (arith, time) in
      rw
        (
          uses_calendar-days minus (secs / 86400) _,
          matched minus (secs / 86400) (secs % 86400 / 3600) (secs % 3600 / 60) (secs % 60) n small
              some_time,
          read_back minus (secs / 86400) (secs % 86400 / 3600) (secs % 3600 / 60) (secs % 60) n
              small some_time,
        )
        (ap (λ (t : ℕ). ok (minus, t)) (omega arith))
]
