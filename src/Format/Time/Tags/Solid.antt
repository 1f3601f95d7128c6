-- ===== src/Format/Time/Tags/Solid.antt =====
-- The texts that profile/packages/format/src/time.mjs writes have no white space, so `trim` keeps them.
use candid_core.Format.Amount.Shown.{solid, point-IsSolid}
use candid_core.Format.Time.Duration.{seconds_part, or_zero, show_duration, part, time_part}
use candid_core.Format.Time.Rfc3339.{rfc3339_text, pad}
use candid_core.Format.Amount.{point}
use candid_core.Format.Decimal.{
  IsDigit, nat_to_string, strip_end, to_string, pad_start-IsDigit, nat_to_string-IsDigit,
  strip_end-IsDigit,
}
use candid_core.Common.{
  ℕ, ◌/◌, ◌%◌, Bool, true, false, ◌&&◌, [], ◌∷◌, ◌++◌, ◌≡◌, refl, inl, inr, ◌==◌, if◌then◌else◌,
  All, All-append, Bool-cases, text_eq, pos,
}
use candid_core.Format.Chars.{trim, is_space, Text, IsSolid, trim_end, cons_end-IsSolid, trim_start}

pub trim-solid : (s : Text) → All IsSolid s → trim s ≡ s
unfolding trim
trim-solid [] h = refl
trim-solid (c ∷ s) h =
    let front : trim_start (c ∷ s) ≡ c ∷ s = rw h.0 refl in rw front (ends (c ∷ s) h)
  where
    ends : (t : Text) → All IsSolid t → trim_end t ≡ t
    ends [] k = refl
    ends (d ∷ t) k = rw (ends t k.1) (cons_end-IsSolid d t k.0)

-- A unit of a text that is no white space, and the rest.
abbrev IsRest : Text → Type 0
IsRest s = All IsSolid s

part-IsSolid : (n unit : ℕ) (rest : Text) → IsSolid unit → IsRest rest → IsRest (part n unit rest)
unfolding part
part-IsSolid n unit rest h k = elim (Bool-cases (n == 0)) [
  | inl nothing ↦ rw nothing k
  | inr some_left ↦ rw some_left (
      All-append IsSolid (nat_to_string n) (unit ∷ rest)
        (solid (nat_to_string n) (nat_to_string-IsDigit n)) (h, k))
]

seconds_part-IsSolid : (s : ℕ) (frac : Text) → All IsDigit frac → IsRest (seconds_part s frac)
unfolding seconds_part
seconds_part-IsSolid s frac h = elim (Bool-cases (s == 0 && text_eq frac [])) [
  | inl nothing ↦ rw nothing tt
  | inr some_left ↦ rw some_left (
      All-append IsSolid (nat_to_string s) _ (solid (nat_to_string s) (nat_to_string-IsDigit s)) (
        All-append IsSolid (point frac) (b'S' ∷ []) (point-IsSolid frac h)
          (unfold is_space in (refl, tt))))
]

time_part-IsSolid : (t : Text) → IsRest t → IsRest (time_part t)
unfolding is_space
time_part-IsSolid [] h = tt
time_part-IsSolid (c ∷ t) h = (refl, h)

or_zero-IsSolid : (days : ℕ) (t : Text) → IsRest t → IsRest (or_zero days t)
unfolding is_space
or_zero-IsSolid days [] h = elim (Bool-cases (days == 0)) [
  | inl e ↦ rw e (refl, (refl, tt))
  | inr e ↦ rw e tt
]
or_zero-IsSolid days (c ∷ t) h = h

pub show_duration-IsSolid : (minus : Bool) (total : ℕ) → All IsSolid (show_duration minus total)
unfolding show_duration is_space
show_duration-IsSolid minus total =
    let frac = strip_end (pad (total % 1000000000) 9) in
    let digits =
      strip_end-IsDigit (pad (total % 1000000000) 9) (pad_start-IsDigit (total % 1000000000) 9) in
    let secs = total / 1000000000 in
    let clock = part-IsSolid (secs % 86400 / 3600) b'H' _ (unfold is_space in refl) (
      part-IsSolid (secs % 3600 / 60) b'M' _ (unfold is_space in refl)
        (seconds_part-IsSolid (secs % 60) frac digits)) in
    All-append IsSolid (if minus then b'-' ∷ [] else []) _ (sign minus) (
      unfold is_space in refl,
      part-IsSolid (secs / 86400) b'D' _ (unfold is_space in refl)
          (time_part-IsSolid _ (or_zero-IsSolid (secs / 86400) _ clock)),
    )
  where
    sign : (minus : Bool) → All IsSolid (if minus then b'-' ∷ [] else [])
    sign true = (refl, tt)
    sign false = tt

pad-IsSolid :
    (n w : ℕ) (c : ℕ) (rest : Text) → IsSolid c → IsRest rest → IsRest (pad n w ++ (c ∷ rest))
pad-IsSolid n w c rest h k =
    All-append IsSolid (pad n w) (c ∷ rest) (solid (pad n w) (pad_start-IsDigit n w)) (h, k)

-- The text of a date and a time has no white space.
pub rfc3339_text-IsSolid :
    (y m d sod frac_ns : ℕ)
    → All IsSolid (rfc3339_text (record { year = pos y; month = m; day = d }) sod frac_ns)
unfolding rfc3339_text to_string
rfc3339_text-IsSolid y m d sod frac_ns =
    let frac = strip_end (pad frac_ns 9) in
    let digits = strip_end-IsDigit (pad frac_ns 9) (pad_start-IsDigit frac_ns 9) in
    pad-IsSolid y 4 b'-' _ dash (
      pad-IsSolid m 2 b'-' _ dash (
        pad-IsSolid d 2 b'T' _ mark (
          pad-IsSolid (sod / 3600) 2 b':' _ colon (
            pad-IsSolid (sod % 3600 / 60) 2 b':' _ colon (
              All-append IsSolid (pad (sod % 60) 2) _
                (solid (pad (sod % 60) 2) (pad_start-IsDigit (sod % 60) 2))
                (All-append IsSolid (point frac) (b'Z' ∷ []) (point-IsSolid frac digits)
                  (zone, tt)))))))
  where
    dash : IsSolid b'-'
    dash = unfold is_space in refl

    mark : IsSolid b'T'
    mark = unfold is_space in refl

    colon : IsSolid b':'
    colon = unfold is_space in refl

    zone : IsSolid b'Z'
    zone = unfold is_space in refl
