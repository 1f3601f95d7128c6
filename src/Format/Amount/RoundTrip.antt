-- ===== src/Format/Amount/RoundTrip.antt =====
-- A displayed amount is read back as the integer that it shows.
use candid_core.Common.{
  ℕ, ◌≤◌, Bool, true, false, not, ◌&&◌, [], ◌∷◌, ◌≡◌, refl, sym, ap, ◌∙◌, arith, Option, none, some,
  length, text_eq_refl, ℤ, pos, negsuc, magnitude, is_neg, ltb, if◌then◌else◌,
}
use candid_core.Format.Errors.{Code, ok, >>=-eq-ok, >>-eq-ok, >>=-step}
use candid_core.Format.Chars.{Text, trim, ascii_lower}
use candid_core.Format.Decimal.{to_string, strip_end, length-strip_end}
use candid_core.Format.Util.{Value, str, IntType, check_range, int_type, to_bigint, require_string}
use candid_core.Format.Amount.{
  AmountOptions, check_symbol, check_threshold, check_message, reached, is_some, check_given,
  check_decimals, read_amount, amount_magnitude, parse_amount, show_amount, display_amount,
  sign_text, signed, text_or_empty, amount_re, amount_types,
}
use candid_core.Format.Amount.Match.{amount_re-parts, optional, minus, IsSymbol}
use candid_core.Format.Amount.Shown.{
  check_symbol-IsSymbol, frac_part, frac_part-IsDigit, length-frac_part, parts_value, trim-show,
  whole_part, whole_part-IsDigit, whole_part-ne-nil,
}

-- What a displayed amount passed on the way.
record IsShown (input : Value) (opts : AmountOptions) (v : ℤ) (limit : Option ℤ) (t : Text)
    : Type 0 where
  places : ℕ
  symbol : Option Text
  type : IntType
  decimals_ok : check_decimals opts.decimals ≡ ok places
  symbol_ok : check_symbol opts.symbol ≡ ok symbol
  type_ok : int_type opts.candid amount_types ≡ ok type
  in_range : check_range v type ≡ ok tt
  shown : show_amount v places symbol ≡ t

else_branch :
    (b : Bool) (x y : Text) {t : Text} → b ≡ false → (if b then ok x else ok y) ≡ ok t → y ≡ t
else_branch true x y e h = cc
else_branch false x y e h = cc

display_amount-IsShown :
    (input : Value) (opts : AmountOptions) {v : ℤ} {limit : Option ℤ} {t : Text}
    → to_bigint input ≡ ok v
    → check_threshold opts.threshold ≡ ok limit
    → reached limit v ≡ false
    → display_amount input opts ≡ ok t
    → IsShown input opts v limit t
unfolding display_amount
display_amount-IsShown input opts {v} {limit} {t} hv hl below h =
    let (d, decimals_ok, h1) = >>=-eq-ok (check_decimals opts.decimals) _ h in
    let (sym, symbol_ok, h2) = >>=-eq-ok (check_symbol opts.symbol) _ h1 in
    let (text, text_ok, h3) =
      >>=-eq-ok (check_message opts.message) _
        (>>=-step (check_threshold opts.threshold) _ hl h2) in
    let (_, h4) = >>-eq-ok (is_some text && not (is_some limit)) Code.arg _ h3 in
    let (type, type_ok, h5) = >>=-eq-ok (int_type opts.candid amount_types) _ h4 in
    let h6 = >>=-step (to_bigint input) _ hv h5 in
    let (_, in_range, h7) = >>=-eq-ok (check_range v type) _ h6 in
    record {
      places = d;
      symbol = sym;
      type = type;
      decimals_ok = decimals_ok;
      symbol_ok = symbol_ok;
      type_ok = type_ok;
      in_range = in_range;
      shown = else_branch (reached limit v) _ _ below h7;
    }

signed-magnitude : (v : ℤ) → signed (is_neg v) (magnitude v) ≡ v
signed-magnitude (pos n) = refl
signed-magnitude (negsuc n) = refl

sign_text-minus : (v : ℤ) → sign_text v ≡ minus (is_neg v)
sign_text-minus v = ground arith

text_or_empty-optional : (s : Text) → text_or_empty (optional s) ≡ s
text_or_empty-optional [] = refl
text_or_empty-optional (c ∷ s) = refl

check_given-same : (sym : Option Text) → check_given sym sym ≡ ok tt
unfolding check_given
check_given-same none = refl
check_given-same (some s) = rw (text_eq_refl (ascii_lower s))

check_range-sign :
    (v : ℤ) (type : IntType) → check_range v type ≡ ok tt → (is_neg v && not type.signed) ≡ false
unfolding check_range
check_range-sign v type h = ground arith

-- The parts of a shown amount are read as its value.
read_amount-show :
    (v : ℤ) (d : ℕ) (sym : Option Text) (type : IntType)
    → check_range v type ≡ ok tt
    → read_amount
        (record {
          sign = is_neg v;
          whole = whole_part (magnitude v) d;
          frac = optional (strip_end (frac_part (magnitude v) d));
          given = sym;
        })
        d
        sym
        type
      ≡ ok (to_string v)
unfolding read_amount amount_magnitude
read_amount-show v d sym type h = rw (
  check_range-sign v type h,
  check_given-same sym,
  text_or_empty-optional (strip_end (frac_part (magnitude v) d)),
  fits,
  parts_value (magnitude v) d,
  signed-magnitude v,
  h,
)
  where
    fits : ltb d (length (strip_end (frac_part (magnitude v) d))) ≡ false
    fits =
        ground
          (arith, length-strip_end (frac_part (magnitude v) d), length-frac_part (magnitude v) d)

amount_re-show :
    (v : ℤ) (d : ℕ) (symbol : Option Text)
    → IsSymbol symbol
    → amount_re (trim (show_amount v d symbol))
      ≡ some (record {
        sign = is_neg v;
        whole = whole_part (magnitude v) d;
        frac = optional (strip_end (frac_part (magnitude v) d));
        given = symbol;
      })
unfolding show_amount
amount_re-show v d symbol h =
    let n = whole_part-ne-nil (magnitude v) d in
    let hw = whole_part-IsDigit (magnitude v) d in
    let hf = frac_part-IsDigit (magnitude v) d in
    rw (sign_text-minus v) (
      ap amount_re (trim-show (is_neg v) _ _ symbol n hw hf h)
      ∙ amount_re-parts (is_neg v) _ _ symbol n hw hf h)

-- Displaying a value below its threshold and reading the text back, with the same options, gives the
-- value's decimal text, whenever the text is within the input bound of 1024 characters.
pub parse_amount-display_amount :
    (input : Value) (opts : AmountOptions) (v : ℤ) (limit : Option ℤ) (t : Text)
    → to_bigint input ≡ ok v
    → check_threshold opts.threshold ≡ ok limit
    → reached limit v ≡ false
    → display_amount input opts ≡ ok t
    → length t ≤ 1024
    → parse_amount (str t) opts ≡ ok (to_string v)
unfolding parse_amount require_string
parse_amount-display_amount input opts v limit t hv hl below h bound =
    let s = display_amount-IsShown input opts hv hl below h in
    let short : ltb 1024 (length t) ≡ false = ground arith in
    let read =
      ap (λ t. amount_re (trim t)) (sym s.shown)
      ∙ amount_re-show v s.places s.symbol (check_symbol-IsSymbol opts.symbol s.symbol_ok) in
    rw (s.decimals_ok, s.symbol_ok, s.type_ok, short, read)
      (read_amount-show v s.places s.symbol s.type s.in_range)
