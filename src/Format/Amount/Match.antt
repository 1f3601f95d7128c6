-- ===== src/Format/Amount/Match.antt =====
-- What AMOUNT_RE of amount.mjs reads from a displayed amount.
use candid_core.Common.{
  ℕ, ◌<◌, Bool, true, false, [], ◌∷◌, ◌++◌, ◌≡◌, ◌≢◌, refl, sym, ap, arith, ◌==◌, Option, none,
  some, All, All-map, Stops, take_while-append, drop_while-append, length, Bool-cases, inl, inr,
}
use candid_core.Format.Chars.{Text, is_digit, is_space, trim_end, length-cons_end, IsTrimmed}
use candid_core.Format.Decimal.{IsDigit}
use candid_core.Format.Amount.{
  minus_sign, after_sign, last_is_space, match_given, match_fraction, amount_re, match_unsigned,
  suffix, point,
}

pub IsDigit-is_digit : (c : ℕ) → IsDigit c → is_digit c ≡ true
IsDigit-is_digit c h = ground arith

pub All-digits : (s : Text) → All IsDigit s → All (λ c. is_digit c ≡ true) s
All-digits s h = All-map {P = IsDigit} IsDigit-is_digit s h

length-back : (s : Text) → last_is_space s ≡ true → length (trim_end s) < length s
length-back [] h = ground arith
length-back (c ∷ []) h = rw h (omega arith)
length-back (c ∷ d ∷ s) h =
    omega (arith, length-back (d ∷ s) h, length-cons_end c (trim_end (d ∷ s)))

last_not_space : (s : Text) → trim_end s ≡ s → last_is_space s ≡ false
last_not_space s e = elim (Bool-cases (last_is_space s)) [
  | inl h ↦ absurd (omega (arith, length-back s h, ap length e))
  | inr h ↦ h
]

abbrev pub optional : Text → Option Text
optional [] = none
optional (c ∷ s) = some (c ∷ s)

-- A symbol as the text form carries it.
abbrev pub IsSymbol : Option Text → Type 0
IsSymbol none = Unit
IsSymbol (some s) = IsTrimmed s

blank-is_space : is_space b' ' ≡ true
unfolding is_space
blank-is_space = refl

match_given-suffix : (sym : Option Text) → IsSymbol sym → match_given (suffix sym) ≡ some sym
unfolding match_given
match_given-suffix none h = refl
match_given-suffix (some []) h = absurd (h.not_empty refl)
match_given-suffix (some (c ∷ s)) h = rw (blank-is_space, h.front, last_not_space (c ∷ s) h.back)

suffix-Stops : (sym : Option Text) → Stops is_digit (suffix sym)
suffix-Stops none = tt
suffix-Stops (some s) = refl

match_fraction-point :
    (frac : Text) (sym : Option Text)
    → All IsDigit frac
    → match_fraction (point frac ++ suffix sym) ≡ some (optional frac, suffix sym)
unfolding match_fraction
match_fraction-point [] none h = refl
match_fraction-point [] (some s) h = refl
match_fraction-point (c ∷ s) sym h = rw (
  IsDigit-is_digit c h.0,
  take_while-append is_digit s (suffix sym) (All-digits s h.1) (suffix-Stops sym),
  drop_while-append is_digit s (suffix sym) (All-digits s h.1) (suffix-Stops sym),
)

point-Stops : (frac : Text) (sym : Option Text) → Stops is_digit (point frac ++ suffix sym)
point-Stops [] sym = suffix-Stops sym
point-Stops (c ∷ s) sym = refl

abbrev pub minus : Bool → Text
minus true = b'-' ∷ []
minus false = []

match_unsigned-parts :
    (neg : Bool) (whole frac : Text) (sym : Option Text)
    → whole ≢ []
    → All IsDigit whole
    → All IsDigit frac
    → IsSymbol sym
    → match_unsigned neg (whole ++ (point frac ++ suffix sym))
      ≡ some (record { sign = neg; whole = whole; frac = optional frac; given = sym })
match_unsigned-parts neg [] frac sym n hw hf hs = absurd (n refl)
match_unsigned-parts neg (c ∷ s) frac sym n hw hf hs = rw (
  IsDigit-is_digit c hw.0,
  take_while-append is_digit s _ (All-digits s hw.1) (point-Stops frac sym),
  drop_while-append is_digit s _ (All-digits s hw.1) (point-Stops frac sym),
  match_fraction-point frac sym hf,
  match_given-suffix sym hs,
)

-- The expression reads back the parts that a displayed amount is made of.
pub amount_re-parts :
    (neg : Bool) (whole frac : Text) (sym : Option Text)
    → whole ≢ []
    → All IsDigit whole
    → All IsDigit frac
    → IsSymbol sym
    → amount_re (minus neg ++ (whole ++ (point frac ++ suffix sym)))
      ≡ some (record { sign = neg; whole = whole; frac = optional frac; given = sym })
unfolding amount_re
amount_re-parts neg [] frac sym n hw hf hs = absurd (n refl)
amount_re-parts true (c ∷ s) frac sym n hw hf hs =
    match_unsigned-parts true (c ∷ s) frac sym n hw hf hs
amount_re-parts false (c ∷ s) frac sym n hw hf hs =
    let e : (c == b'-') ≡ false = ground arith in
    rw (e, minus_sign, after_sign) (match_unsigned-parts false (c ∷ s) frac sym n hw hf hs)
