-- ===== src/Format/Time/Tags/RoundTrip.antt =====
-- What the display functions of profile/packages/format/src/time.mjs write, the parse functions read back.
use candid_core.Format.Time.Duration.RoundTrip.{parse_duration_ns-show_duration}
use candid_core.Format.Time.Tags.Solid.{trim-solid, show_duration-IsSolid, rfc3339_text-IsSolid}
use candid_core.Format.Time.Duration.{show_duration, parse_duration_ns}
use candid_core.Format.Time.Rfc3339.RoundTrip.{
  rfc3339_from_ns-IsWritten, days_in_month_short, parse_rfc3339_ns-rfc3339_from_ns,
}
use candid_core.Format.Time.Exact.{ns_to_unit_iff}
use candid_core.Format.Errors.{ok, >>-eq-ok, Code, ◌>>=◌, >>=-eq-ok, >>=-step, ok-injective, Result}
use candid_core.Format.Util.{
  IntType, check_range, require_string, Value, check_length, int_type, to_bigint, str,
  max_input_chars,
}
use candid_core.Format.Time.Units.{TimeUnit, unit_factor}
use candid_core.Format.Time.Rfc3339.Written.{pad-size}
use candid_core.Format.Decimal.{to_string, strip_end, IsDigit, pad_start-IsDigit, length-strip_end}
use candid_core.Format.Amount.{point, reached, signed, check_threshold, check_message, is_some}
use candid_core.Format.Time.Rfc3339.{rfc3339_text, pad, rfc3339_from_ns}
use candid_core.Format.Chars.{Text, trim, IsSolid}
use mathlib.Core.Option.{some-injective}
use candid_core.Common.{
  ℕ, suc, ◌+◌, ◌*◌, ◌/◌, ◌%◌, ◌≤◌, ◌<◌, false, not, ◌&&◌, ◌||◌, [], ◌∷◌, ◌++◌, ◌≡◌, refl, ap, ◌∙◌,
  subst, arith, ltb, ◌==◌, length, All, Option, none, some, pos, length-append, ℤ, ◌*ℤ◌, is_neg,
  magnitude, negsuc,
}
use candid_core.Format.Time.Tags.{
  parse_timestamp, Text, to_string, is_plus, give_time, TimeUnit, IntType, unit_factor, ok,
  check_range, TimeOptions, require_string, display_duration, display_timestamp, Value, show_time,
  parse_duration, int_type, str, time_types, to_bigint, Words, check_time_labels, show_duration,
  label_in,
}

length-point : (s : Text) → length (point s) ≤ suc (length s)
length-point [] = omega arith
length-point (c ∷ s) = omega arith

two_units : (n c : ℕ) (rest : Text) → n < 100 → length (pad n 2 ++ (c ∷ rest)) ≡ 3 + length rest
two_units n c rest h = omega (arith, length-append (pad n 2) (c ∷ rest), pad-size n 1 h)

not_plus-digit : (s rest : Text) → 0 < length s → All IsDigit s → is_plus (s ++ rest) ≡ false
not_plus-digit [] rest h k = elim h [ ]
not_plus-digit (c ∷ s) rest h k = ground (arith, k.0.0, k.0.1)

module _ (y m d sod frac_ns : ℕ) (hy : y < 10000) (hm : m < 100) (hd : d < 100) (hs : sod < 86400)
    (hf : frac_ns < 1000000000) where
  abbrev text : Text
  text = rfc3339_text (record { year = pos y; month = m; day = d }) sod frac_ns

  -- 30 characters at most.
  length-text : length text ≤ 30
  unfolding rfc3339_text to_string
  length-text =
      let frac = strip_end (pad frac_ns 9) in
      let t1 = point frac ++ (b'Z' ∷ []) in
      let t2 = b':' ∷ (pad (sod % 60) 2 ++ t1) in
      let t3 = pad (sod % 3600 / 60) 2 ++ t2 in
      let t4 = pad (sod / 3600) 2 ++ (b':' ∷ t3) in
      let t5 = pad d 2 ++ (b'T' ∷ t4) in
      let t6 = pad m 2 ++ (b'-' ∷ t5) in
      let l1 = length-append (point frac) (b'Z' ∷ []) in
      let l2 = length-append (pad (sod % 60) 2) t1 in
      let s2 = pad-size (sod % 60) 1 (omega arith) in
      let l3 = two_units (sod % 3600 / 60) b':' (pad (sod % 60) 2 ++ t1) (omega (arith, hs)) in
      let l4 = two_units (sod / 3600) b':' t3 (omega (arith, hs)) in
      let l5 = two_units d b'T' t4 hd in
      let l6 = two_units m b'-' t5 hm in
      let l7 = length-append (pad y 4) (b'-' ∷ t6) in
      let s7 = pad-size y 3 hy in
      omega (
        arith,
        l1,
        l2,
        s2,
        l3,
        l4,
        l5,
        l6,
        l7,
        s7,
        length-point frac,
        length-strip_end (pad frac_ns 9),
        pad-size frac_ns 8 hf,
      )

  text-not_plus : is_plus text ≡ false
  unfolding rfc3339_text to_string
  text-not_plus =
      not_plus-digit (pad y 4) _ (omega (arith, pad-size y 3 hy)) (pad_start-IsDigit y 4)

-- What a successful conversion and range test need, for the value that was displayed.
give_time-back :
    (unit : TimeUnit) (type : IntType) (v ns : ℤ) {f : ℕ}
    → unit_factor unit ≡ ok f
    → v *ℤ f ≡ ns
    → check_range v type ≡ ok tt
    → give_time unit type ns ≡ ok (to_string v)
unfolding give_time
give_time-back unit type v ns hf same range = rw ((ns_to_unit_iff ns v unit hf).1 same, range) refl

-- A text that fits is its own string argument.
string_arg : (s : Text) → length s ≤ 1024 → require_string (str s) ≡ ok s
unfolding require_string check_length
string_arg s h =
    let short : ltb max_input_chars (length s) ≡ false = ground (arith, h) in rw short refl

-- A chain goes on behind a step that is known.
after_ok :
    {A B : Type 0} (step : Result A) (rest : A → Result B) {value : A} {result : Result B}
    → step ≡ ok value
    → rest value ≡ result
    → (step >>= rest) ≡ result
after_ok step rest e h = rw e h

show_time-ok :
    (limit : Option ℤ) (words : Option Text) (v : ℤ) (f : ℕ) (shown : Text)
    → reached limit v ≡ false
    → show_time limit words v f ≡ ok (some shown)
    → rfc3339_from_ns (v *ℤ f) ≡ ok shown
show_time-ok limit words v f shown below h =
    let later : (rfc3339_from_ns (v *ℤ f) >>= λ t. ok (some t)) ≡ ok (some shown) = rw below at h in
    let (t, written, same) = >>=-eq-ok (rfc3339_from_ns (v *ℤ f)) _ later in
    written ∙ ap ok (some-injective _ _ (ok-injective same))

parse_written :
    (opts : TimeOptions) (f : ℕ) (type : IntType) (v : ℤ) (shown : Text)
    → unit_factor opts.unit ≡ ok f
    → int_type opts.candid time_types ≡ ok type
    → check_range v type ≡ ok tt
    → rfc3339_from_ns (v *ℤ f) ≡ ok shown
    → parse_timestamp (str shown) opts ≡ ok (to_string v)
unfolding parse_timestamp
parse_written opts f type v shown hf ht hr written =
    let w = rfc3339_from_ns-IsWritten (v *ℤ f) shown written in
    let month : w.m < 100 = omega (arith, w.date.month_high) in
    let day : w.d < 100 = omega (arith, w.date.day_high, days_in_month_short w.y w.m) in
    let same = w.shown in
    let short : length shown ≤ 1024 =
      subst (λ (t : Text). length t ≤ 1024) same
        (omega (
          arith,
          length-text w.y w.m w.d w.sod w.frac_ns w.four_digits month day w.within_day
              w.within_second,
        )) in
    let kept : trim shown ≡ shown =
      trim-solid shown
        (subst (All IsSolid) same (rfc3339_text-IsSolid w.y w.m w.d w.sod w.frac_ns)) in
    let absolute : is_plus shown ≡ false =
      subst (λ (t : Text). is_plus t ≡ false) same
        (text-not_plus w.y w.m w.d w.sod w.frac_ns w.four_digits month day w.within_day
          w.within_second) in
    after_ok (unit_factor opts.unit) _ hf (
      rw
        (
          ht,
          string_arg shown short,
          kept,
          absolute,
          parse_rfc3339_ns-rfc3339_from_ns (v *ℤ f) shown written,
        )
        (give_time-back opts.unit type v (v *ℤ f) hf refl hr))

-- A displayed timestamp that no label names and that is below the threshold is read back: the text gives
-- the value's decimal text, with the same options.
pub parse_timestamp-display_timestamp :
    (input : Value) (opts : TimeOptions) (v : ℤ) (limit : Option ℤ) (words : Option Words)
    (shown : Text)
    → to_bigint input ≡ ok v
    → check_threshold opts.threshold ≡ ok limit
    → reached limit v ≡ false
    → check_time_labels opts.labels ≡ ok words
    → label_in words v ≡ none
    → display_timestamp input opts ≡ ok (some shown)
    → parse_timestamp (str shown) opts ≡ ok (to_string v)
unfolding display_timestamp
parse_timestamp-display_timestamp input opts v limit words shown hv hl below hw unnamed h =
    let (f, hf, h1) = >>=-eq-ok (unit_factor opts.unit) _ h in
    let (type, ht, h2) = >>=-eq-ok (int_type opts.candid time_types) _ h1 in
    let h3 = >>=-step (check_threshold opts.threshold) _ hl h2 in
    let (text, hm, h4) = >>=-eq-ok (check_message opts.message) _ h3 in
    let (pair, h5) =
      >>-eq-ok (not (is_some limit) && is_some text || is_some limit && not (is_some text)) Code.arg
        _ h4 in
    let h6 = >>=-step (check_time_labels opts.labels) _ hw h5 in
    let h7 = >>=-step (to_bigint input) _ hv h6 in
    let (done, hr, h8) = >>=-eq-ok (check_range v type) _ h7 in
    let last : show_time limit text v f ≡ ok (some shown) = rw unnamed at h8 in
    parse_written opts f type v shown hf ht hr (show_time-ok limit text v f shown below last)

signed-magnitude : (v : ℤ) (f : ℕ) → v *ℤ f ≡ signed (is_neg v) (magnitude v * f)
unfolding ◌*ℤ◌
signed-magnitude (pos n) f = refl
signed-magnitude (negsuc n) f = refl

-- A value in range is not negative where the type is unsigned.
in_range-signed :
    (v : ℤ) (type : IntType) → check_range v type ≡ ok tt → (not type.signed && is_neg v) ≡ false
unfolding check_range
in_range-signed v type h = (>>-eq-ok (not type.signed && is_neg v) Code.range _ h).0

parse_shown :
    (opts : TimeOptions) (f : ℕ) (type : IntType) (v : ℤ) (shown : Text)
    → unit_factor opts.unit ≡ ok f
    → int_type opts.candid time_types ≡ ok type
    → check_range v type ≡ ok tt
    → show_duration (is_neg v) (magnitude v * f) ≡ shown
    → length shown ≤ 1024
    → parse_duration (str shown) opts ≡ ok (to_string v)
unfolding parse_duration
parse_shown opts f type v shown hf ht hr same short =
    let kept : trim shown ≡ shown =
      trim-solid shown
        (subst (All IsSolid) same (show_duration-IsSolid (is_neg v) (magnitude v * f))) in
    let read : parse_duration_ns shown ≡ ok (is_neg v, magnitude v * f) =
      subst (λ (t : Text). parse_duration_ns t ≡ ok (is_neg v, magnitude v * f)) same
        (parse_duration_ns-show_duration (is_neg v) (magnitude v * f)) in
    let allowed : (is_neg v && not (magnitude v * f == 0) && not type.signed) ≡ false =
      ground (arith, in_range-signed v type hr) in
    after_ok (unit_factor opts.unit) _ hf (
      rw (ht, string_arg shown short, kept, read, allowed)
        (give_time-back opts.unit type v (signed (is_neg v) (magnitude v * f)) hf
          (signed-magnitude v f) hr))

-- A displayed duration is read back, with the same options, where its text is within the input bound of
-- 1024 characters.
pub parse_duration-display_duration :
    (input : Value) (opts : TimeOptions) (v : ℤ) (shown : Text)
    → to_bigint input ≡ ok v
    → display_duration input opts ≡ ok shown
    → length shown ≤ 1024
    → parse_duration (str shown) opts ≡ ok (to_string v)
unfolding display_duration
parse_duration-display_duration input opts v shown hv h short =
    let (f, hf, h1) = >>=-eq-ok (unit_factor opts.unit) _ h in
    let (type, ht, h2) = >>=-eq-ok (int_type opts.candid time_types) _ h1 in
    let h3 = >>=-step (to_bigint input) _ hv h2 in
    let (done, hr, h4) = >>=-eq-ok (check_range v type) _ h3 in
    parse_shown opts f type v shown hf ht hr (ok-injective h4) short
