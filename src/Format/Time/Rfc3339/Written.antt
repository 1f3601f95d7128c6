-- ===== src/Format/Time/Rfc3339/Written.antt =====
-- The text that `rfc3339FromNs` of profile/packages/format/src/time.mjs writes is matched by RFC3339, part by
-- part.
use candid_core.Format.Amount.Match.{optional, IsDigit-is_digit, All-digits}
use candid_core.Format.Decimal.{
  pad_start, IsDigit, to_string, nat_to_string-size, value_from, pad_start-IsDigit, strip_end,
  value-pad_start, nat_to_string, value-nat_to_string, strip_end-IsDigit,
}
use candid_core.Format.Chars.{Text, is_digit}
use candid_core.Format.Amount.{match_fraction, text_or_empty, point}
use candid_core.Common.{
  ℕ, suc, ◌+◌, ◌-◌, ◌*◌, ◌/◌, ◌%◌, ◌^◌, ◌<◌, [], ◌∷◌, ◌++◌, ◌≡◌, refl, ap, ◌∙◌, subst, arith,
  length, All, some, pos, length-append, replicate, take_while-append, length-replicate,
  drop_while-append,
}
use candid_core.Format.Time.Rfc3339.{
  match_rfc3339, pad_start, rfc3339_text, Text, match_fraction, read_digits, pad, utc,
}

read_digits-append :
    (s rest : Text) (acc : ℕ)
    → All IsDigit s
    → read_digits (length s) acc (s ++ rest) ≡ some (value_from acc s, rest)
read_digits-append [] rest acc h = refl
read_digits-append (c ∷ s) rest acc h =
    rw (IsDigit-is_digit c h.0) (read_digits-append s rest (acc * 10 + (c - b'0')) h.1)

pub pad-size : (n k : ℕ) → n < 10 ^ suc k → length (pad n (suc k)) ≡ suc k
unfolding pad_start
pad-size n k h = omega (
  arith,
  nat_to_string-size n k h,
  length-append (replicate (suc k - length (nat_to_string n)) b'0') (nat_to_string n),
  length-replicate {A = ℕ} (suc k - length (nat_to_string n)) b'0',
)

-- A number of at most `suc k` digits, written with that many.
read_digits-pad :
    (n k : ℕ) (rest : Text)
    → n < 10 ^ suc k
    → read_digits (suc k) 0 (pad n (suc k) ++ rest) ≡ some (n, rest)
read_digits-pad n k rest h =
    let size = pad-size n k h in
    subst (λ w. read_digits w 0 (pad n (suc k) ++ rest) ≡ some (n, rest)) size
      (read_digits-append (pad n (suc k)) rest 0 (pad_start-IsDigit n (suc k))
        ∙ ap (λ (v : ℕ). some (v, rest))
            (value-pad_start (nat_to_string n) (suc k) ∙ value-nat_to_string n))

four : (n : ℕ) (rest : Text) → n < 10000 → read_digits 4 0 (pad n 4 ++ rest) ≡ some (n, rest)
four n rest h = read_digits-pad n 3 rest h

two : (n : ℕ) (rest : Text) → n < 100 → read_digits 2 0 (pad n 2 ++ rest) ≡ some (n, rest)
two n rest h = read_digits-pad n 1 rest h

fraction-point :
    (frac : Text)
    → All IsDigit frac
    → match_fraction (point frac ++ (b'Z' ∷ [])) ≡ some (optional frac, b'Z' ∷ [])
unfolding match_fraction
fraction-point [] h = refl
fraction-point (c ∷ s) h = rw (
  IsDigit-is_digit c h.0,
  take_while-append is_digit s (b'Z' ∷ []) (All-digits s h.1) refl,
  drop_while-append is_digit s (b'Z' ∷ []) (All-digits s h.1) refl,
)

pub optional-text : (frac : Text) → text_or_empty (optional frac) ≡ frac
optional-text [] = refl
optional-text (c ∷ s) = refl

-- The match of a text that was written.
pub match_rfc3339-rfc3339_text :
    (y m d sod frac_ns : ℕ)
    → y < 10000
    → m < 100
    → d < 100
    → sod < 86400
    → match_rfc3339 (rfc3339_text (record { year = pos y; month = m; day = d }) sod frac_ns)
      ≡ some (record {
        year = y;
        month = m;
        day = d;
        hour = sod / 3600;
        minute = sod % 3600 / 60;
        second = sod % 60;
        frac = strip_end (pad frac_ns 9);
        zone = utc;
      })
unfolding match_rfc3339 rfc3339_text to_string
match_rfc3339-rfc3339_text y m d sod frac_ns hy hm hd hs =
    let frac = strip_end (pad frac_ns 9) in
    rw (
      four y _ hy,
      two m _ hm,
      two d _ hd,
      two (sod / 3600) _ (omega arith),
      two (sod % 3600 / 60) _ (omega arith),
      two (sod % 60) _ (omega arith),
      fraction-point frac (strip_end-IsDigit (pad frac_ns 9) (pad_start-IsDigit frac_ns 9)),
      optional-text frac,
    )
