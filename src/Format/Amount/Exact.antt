-- ===== src/Format/Amount/Exact.antt =====
-- What `parseAmount` of amount.mjs accepts, and that it never rounds.
use native.Mathlib.Nat.{eq_of_mul-eq-mul_right, one-le-pow}
use candid_core.Common.{
  ℕ, zero, suc, ◌+◌, ◌*◌, ◌^◌, ◌≤◌, Bool, true, false, not, ◌&&◌, ◌≡◌, ◌↔◌, refl, sym, ap, ◌∙◌,
  arith, Option, none, some, length, text_eq_refl, text_eq→eq, ℤ, magnitude, ltb,
}
use candid_core.Common.Powers.{pow_split}
use candid_core.Format.Errors.{Code, ok, >>=-eq-ok, >>-eq-ok, ok-injective}
use candid_core.Format.Chars.{Text, trim, ascii_lower}
use candid_core.Format.Decimal.{value, to_string, value-pad_end}
use candid_core.Format.Util.{Value, IntType, check_range, int_type, require_string}
use candid_core.Format.Util.Range.{InRange, check_range_iff}
use candid_core.Format.Amount.{
  AmountOptions, AmountMatch, check_symbol, check_given, check_decimals, read_amount, read_match,
  amount_magnitude, parse_amount, signed, text_or_empty, amount_re, amount_types,
}

-- The symbol in the input is absent, or the token's up to ASCII case.
abbrev pub Agrees : Option Text → Option Text → Type 0
Agrees none expected = Unit
Agrees (some given) none = ⊥
Agrees (some given) (some expected) = ascii_lower given ≡ ascii_lower expected

-- What the groups of the expression mean at `d` decimals: `v` is the exact amount that the digits show,
-- the shown number times 10 ^ d, stated without a division, and nothing forbids it.
pub record IsRead (m : AmountMatch) (d : ℕ) (symbol : Option Text) (type : IntType) (v : ℤ)
    : Type 0 where
  pub sign_allowed : (m.sign && not type.signed) ≡ false
  pub agrees : Agrees m.given symbol
  pub precise : length (text_or_empty m.frac) ≤ d
  pub same_sign : v ≡ signed m.sign (magnitude v)
  pub exact :
      magnitude v * 10 ^ length (text_or_empty m.frac)
      ≡ (value m.whole * 10 ^ length (text_or_empty m.frac) + value (text_or_empty m.frac)) * 10 ^ d
  pub in_range : InRange v type

-- `r` is the decimal text of the amount that the input shows under the options.
pub record IsExact (input : Value) (opts : AmountOptions) (r : Text) : Type 0 where
  pub places : ℕ
  pub symbol : Option Text
  pub type : IntType
  pub text : Text
  pub parts : AmountMatch
  pub amount : ℤ
  pub decimals_ok : check_decimals opts.decimals ≡ ok places
  pub symbol_ok : check_symbol opts.symbol ≡ ok symbol
  pub type_ok : int_type opts.candid amount_types ≡ ok type
  pub text_ok : require_string input ≡ ok text
  pub matched : amount_re (trim text) ≡ some parts
  pub read : IsRead parts places symbol type amount
  pub result : to_string amount ≡ r

check_given_iff :
    (given expected : Option Text) → (check_given given expected ≡ ok tt) ↔ Agrees given expected
unfolding check_given
check_given_iff none expected = (λ h. tt, λ h. refl)
check_given_iff (some g) none = (λ h. cc, λ h. absurd h)
check_given_iff (some g) (some e) =
    (λ h. text_eq→eq _ _ (ground arith), λ h. rw h (rw (text_eq_refl (ascii_lower e))))

read_match_inv :
    (o : Option AmountMatch) (d : ℕ) (symbol : Option Text) (type : IntType) {r : Text}
    → read_match o d symbol type ≡ ok r
    → (m : AmountMatch) × (o ≡ some m) × (read_amount m d symbol type ≡ ok r)
read_match_inv none d symbol type h = cc
read_match_inv (some m) d symbol type h = (m, refl, h)

-- One multiplication on each side takes the padded fraction back to the digits that were written.
pub magnitude_exact :
    (m : AmountMatch) (d : ℕ)
    → length (text_or_empty m.frac) ≤ d
    → amount_magnitude m d * 10 ^ length (text_or_empty m.frac)
      ≡ (value m.whole * 10 ^ length (text_or_empty m.frac) + value (text_or_empty m.frac)) * 10 ^ d
unfolding amount_magnitude
magnitude_exact m d fits =
    let l = length (text_or_empty m.frac) in
    let f = value (text_or_empty m.frac) in
    omega (
      arith,
      ap (λ (t : ℕ). t * 10 ^ l) (value-pad_end (text_or_empty m.frac) d fits),
      ap (λ (t : ℕ). f * t) (pow_split 10 d l fits),
    )

magnitude-signed : (s : Bool) (n : ℕ) → magnitude (signed s n) ≡ n
magnitude-signed true zero = refl
magnitude-signed true (suc n) = refl
magnitude-signed false n = refl

read_amount-IsRead :
    (m : AmountMatch) (d : ℕ) (symbol : Option Text) (type : IntType) (r : Text)
    → read_amount m d symbol type ≡ ok r
    → (v : ℤ) × IsRead m d symbol type v × (to_string v ≡ r)
unfolding read_amount
read_amount-IsRead m d symbol type r h =
    let (sign_allowed, h1) = >>-eq-ok (m.sign && not type.signed) Code.negative _ h in
    let (_, given, h2) = >>=-eq-ok (check_given m.given symbol) _ h1 in
    let (fits, h3) = >>-eq-ok (ltb d (length (text_or_empty m.frac))) Code.excess_precision _ h2 in
    let v = signed m.sign (amount_magnitude m d) in
    let (_, range, h4) = >>=-eq-ok (check_range v type) _ h3 in
    let precise : length (text_or_empty m.frac) ≤ d = ground (arith, fits) in
    let size = magnitude-signed m.sign (amount_magnitude m d) in
    let read : IsRead m d symbol type v = record {
      sign_allowed = sign_allowed;
      agrees = (check_given_iff m.given symbol).0 given;
      precise = precise;
      same_sign = rw size;
      exact = rw size (magnitude_exact m d precise);
      in_range = (check_range_iff v type).0 range;
    } in
    (v, read, ok-injective h4)

IsRead-read_amount :
    (m : AmountMatch) (d : ℕ) (symbol : Option Text) (type : IntType) (v : ℤ)
    → IsRead m d symbol type v
    → read_amount m d symbol type ≡ ok (to_string v)
unfolding read_amount
IsRead-read_amount m d symbol type v h =
    let l = length (text_or_empty m.frac) in
    let same : amount_magnitude m d ≡ magnitude v =
      eq_of_mul-eq-mul_right (10 ^ l) (one-le-pow l 10 (omega arith)) _ _
        (magnitude_exact m d h.precise ∙ sym h.exact) in
    let fits : ltb d l ≡ false = ground (arith, h.precise) in
    rw (
      h.sign_allowed,
      (check_given_iff m.given symbol).1 h.agrees,
      fits,
      same,
      ← h.same_sign,
      (check_range_iff v type).1 h.in_range,
    )

parse_amount-IsExact :
    (input : Value) (opts : AmountOptions) (r : Text)
    → parse_amount input opts ≡ ok r
    → IsExact input opts r
unfolding parse_amount
parse_amount-IsExact input opts r h =
    let (d, decimals_ok, h1) = >>=-eq-ok (check_decimals opts.decimals) _ h in
    let (symbol, symbol_ok, h2) = >>=-eq-ok (check_symbol opts.symbol) _ h1 in
    let (type, type_ok, h3) = >>=-eq-ok (int_type opts.candid amount_types) _ h2 in
    let (text, text_ok, h4) = >>=-eq-ok (require_string input) _ h3 in
    let (m, matched, h5) = read_match_inv (amount_re (trim text)) d symbol type h4 in
    let (v, read, result) = read_amount-IsRead m d symbol type r h5 in
    record {
      places = d;
      symbol = symbol;
      type = type;
      text = text;
      parts = m;
      amount = v;
      decimals_ok = decimals_ok;
      symbol_ok = symbol_ok;
      type_ok = type_ok;
      text_ok = text_ok;
      matched = matched;
      read = read;
      result = result;
    }

IsExact-parse_amount :
    (input : Value) (opts : AmountOptions) (r : Text)
    → IsExact input opts r
    → parse_amount input opts ≡ ok r
unfolding parse_amount
IsExact-parse_amount input opts r h =
    rw (h.decimals_ok, h.symbol_ok, h.type_ok, h.text_ok, h.matched)
      (IsRead-read_amount h.parts h.places h.symbol h.type h.amount h.read ∙ ap ok h.result)

-- An input is read as `r` exactly when its options are valid, its text has the grammar, its sign is
-- allowed, its symbol is absent or the token's, it has at most `decimals` fractional digits, and `r` is
-- the decimal text of the amount that it shows, which lies in the type's range: nothing is rounded.
pub parse_amount_iff :
    (input : Value) (opts : AmountOptions) (r : Text)
    → (parse_amount input opts ≡ ok r) ↔ IsExact input opts r
parse_amount_iff input opts r =
    (parse_amount-IsExact input opts r, IsExact-parse_amount input opts r)
