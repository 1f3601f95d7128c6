-- ===== src/Format/Amount/Shown.antt =====
-- The text that `displayAmount` of profile/packages/format/src/amount.mjs writes: its digits and its
-- characters.
use candid_core.Common.{
  ℕ, ◌+◌, ◌-◌, ◌*◌, ◌^◌, Bool, true, false, [], ◌∷◌, ◌++◌, ◌≡◌, ◌≢◌, refl, sym, ap, ◌∙◌, subst,
  arith, Option, none, some, All, All-map, All-take, All-drop, take, drop, take-append-drop, length,
  length-take, length-drop, text_eq→eq, ltb,
}
use candid_core.Format.Errors.{Code, ok, >>-eq-ok}
use candid_core.Format.Chars.{
  Text, is_space, trim, trim_end, trim-IsTrimmed, trim_start, IsSolid, trim_end-append, cons_end,
  code_points,
}
use candid_core.Format.Decimal.{
  IsDigit, value, nat_to_string, pad_start, pad_end, strip_end, strip_end-IsDigit,
  pad_end-strip_end, value-append, value-pad_start, value-nat_to_string, length-pad_start,
  pad_start-IsDigit,
}
use candid_core.Format.Util.{Value, str}
use candid_core.Format.Amount.{check_words, check_symbol, suffix, point}
use candid_core.Format.Amount.Match.{minus, IsSymbol}

module _ (m d : ℕ) where
  abbrev pub digits : Text
  digits = pad_start (nat_to_string m) (d + 1)

  abbrev pub whole_part : Text
  whole_part = take (length digits - d) digits

  abbrev pub frac_part : Text
  frac_part = drop (length digits - d) digits

  pub length-frac_part : length frac_part ≡ d
  length-frac_part =
      omega
        (arith, length-drop (length digits - d) digits, length-pad_start (nat_to_string m) (d + 1))

  pub whole_part-ne-nil : whole_part ≢ []
  whole_part-ne-nil e = omega (
    arith,
    ap length e,
    length-take (length digits - d) digits,
    length-pad_start (nat_to_string m) (d + 1),
  )

  pub whole_part-IsDigit : All IsDigit whole_part
  whole_part-IsDigit = All-take IsDigit (length digits - d) digits (pad_start-IsDigit m (d + 1))

  pub frac_part-IsDigit : All IsDigit (strip_end frac_part)
  frac_part-IsDigit =
      strip_end-IsDigit frac_part
        (All-drop IsDigit (length digits - d) digits (pad_start-IsDigit m (d + 1)))

  -- The two parts hold the whole magnitude.
  pub parts_value : value whole_part * 10 ^ d + value (pad_end (strip_end frac_part) d) ≡ m
  parts_value = omega (
    arith,
    ap value kept,
    ap (λ n. value whole_part * 10 ^ n) length-frac_part,
    value-append whole_part frac_part,
    ap value (take-append-drop (length digits - d) digits),
    value-pad_start (nat_to_string m) (d + 1),
    value-nat_to_string m,
  )
    where
      kept : pad_end (strip_end frac_part) d ≡ frac_part
      kept =
          ap (λ n. pad_end (strip_end frac_part) n) (sym length-frac_part)
          ∙ pad_end-strip_end frac_part

-- A symbol that passes the test is not empty and has no white space around it.
pub code_points-nil : (s : Text) → ltb (length (code_points s)) 1 ≡ false → s ≢ []
unfolding code_points
code_points-nil [] h = ground arith
code_points-nil (c ∷ s) h = λ e. cc

pub check_words-IsSymbol : (s : Text) {r : Option Text} → check_words s ≡ ok r → IsSymbol r
unfolding check_words
check_words-IsSymbol s {r} h =
    let (short, rest) = >>-eq-ok _ Code.arg _ h in
    let (bad, same) = >>-eq-ok _ Code.arg (ok (some s)) rest in
    let e : some s ≡ r = ground arith in
    subst IsSymbol e
      (trim-IsTrimmed s (code_points-nil s (ground arith)) (text_eq→eq s (trim s) (ground arith)))

pub check_symbol-IsSymbol : (v : Value) {r : Option Text} → check_symbol v ≡ ok r → IsSymbol r
unfolding check_symbol
check_symbol-IsSymbol (str s) h = check_words-IsSymbol s h
check_symbol-IsSymbol Value.undefined {r} h = let e : none ≡ r = ground arith in subst IsSymbol e tt
check_symbol-IsSymbol Value.null {r} h = let e : none ≡ r = ground arith in subst IsSymbol e tt
check_symbol-IsSymbol _ h = cc

pub IsDigit-IsSolid : (c : ℕ) → IsDigit c → IsSolid c
unfolding is_space
IsDigit-IsSolid c h = ground arith

pub solid : (s : Text) → All IsDigit s → All IsSolid s
solid s h = All-map {P = IsDigit} IsDigit-IsSolid s h

pub minus-IsSolid : (neg : Bool) → All IsSolid (minus neg)
unfolding is_space
minus-IsSolid true = (refl, tt)
minus-IsSolid false = tt

pub point-IsSolid : (frac : Text) → All IsDigit frac → All IsSolid (point frac)
unfolding is_space
point-IsSolid [] h = tt
point-IsSolid (c ∷ s) h = (refl, solid (c ∷ s) h)

pub suffix-back : (sym : Option Text) → IsSymbol sym → trim_end (suffix sym) ≡ suffix sym
suffix-back none h = refl
suffix-back (some []) h = absurd (h.not_empty refl)
suffix-back (some (c ∷ s)) h = ap (λ t. cons_end b' ' t) h.back

pub front-solid : (xs ys : Text) → xs ≢ [] → All IsSolid xs → trim_start (xs ++ ys) ≡ xs ++ ys
front-solid [] ys n h = absurd (n refl)
front-solid (x ∷ xs) ys n h = rw h.0

-- `trim` leaves a displayed amount alone.
pub trim-show :
    (neg : Bool) (whole frac : Text) (sym : Option Text)
    → whole ≢ []
    → All IsDigit whole
    → All IsDigit frac
    → IsSymbol sym
    → trim (minus neg ++ (whole ++ (point frac ++ suffix sym)))
      ≡ minus neg ++ (whole ++ (point frac ++ suffix sym))
unfolding trim
trim-show neg whole frac sym n hw hf hs =
    ap trim_end (front neg)
    ∙ trim_end-append (minus neg) _ (minus-IsSolid neg) (
        trim_end-append whole _ (solid whole hw)
          (trim_end-append (point frac) _ (point-IsSolid frac hf) (suffix-back sym hs)))
  where
    front :
        (neg : Bool)
        → trim_start (minus neg ++ (whole ++ (point frac ++ suffix sym)))
          ≡ minus neg ++ (whole ++ (point frac ++ suffix sym))
    front true = front-solid (minus true) _ (cc) (minus-IsSolid true)
    front false = front-solid whole _ n (solid whole hw)
