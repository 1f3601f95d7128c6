-- ===== src/Format/Amount.antt =====
-- profile/packages/format/src/amount.mjs: exact decimal text and base-unit integers. The theorems are
-- in the modules below this one.
pub mod Match
pub mod Exact
pub mod Shown
pub mod RoundTrip
use candid_core.Common.{
  ℕ, zero, suc, ◌+◌, ◌-◌, ◌*◌, ◌/◌, ◌%◌, ◌^◌, ◌≤◌, ◌<◌, Bool, true, false, not, ◌&&◌, ◌||◌, List,
  [], ◌∷◌, ◌++◌, ◌≡◌, refl, arith, ltb, leb, ◌==◌, if◌then◌else◌, length, all, Option, none, some,
  ℤ, pos, negsuc, neg_ℕ, negate, ltb_ℤ, leb_ℤ, ◌≤ℤ◌, is_neg, text_eq, magnitude, take, drop,
  take_while, drop_while,
}
use candid_core.Format.Errors.{Code, Result, ok, err, ◌>>=◌, ◌>>◌, fail_if}
use candid_core.Format.Chars.{
  Text, is_digit, is_space, codes, trim, code_points, has_unsafe, is_well_formed, ascii_lower,
}
use candid_core.Format.Decimal.{value, to_string, nat_to_string, pad_start, pad_end, strip_end}
use candid_core.Format.Util.{
  Value, undefined, null, other, str, big, num, TypeName, IntType, int_types, abi_width,
  candid_width, int_type, require_string, to_bigint, check_range, is_canonical_nat,
}

-- `AMOUNT_TYPES.includes(name)`: Candid's types, and the ABI's that are not also Candid's.
unfoldable pub amount_types : TypeName → Bool
amount_types TypeName.nat = true
amount_types TypeName.int = true
amount_types (TypeName.nat_n b) = candid_width b
amount_types (TypeName.int_n b) = candid_width b || abi_width b
amount_types (TypeName.uint_n b) = abi_width b
amount_types (TypeName.named s) = false

abbrev pub default_threshold_message : Text
default_threshold_message = codes "Unlimited"

-- The test that symbols and messages share: 1 to 32 characters, nothing around, nothing invisible.
unfoldable pub check_words : Text → Result (Option Text)
check_words s = do
  fail_if (ltb (length (code_points s)) 1 || ltb 32 (length (code_points s))) Code.arg
  fail_if (not (text_eq s (trim s)) || has_unsafe s || not (is_well_formed s)) Code.arg
  ok (some s)

unfoldable pub check_symbol : Value → Result (Option Text)
unfolding check_words
check_symbol undefined = ok none
check_symbol null = ok none
check_symbol (str s) = check_words s
check_symbol _ = err Code.arg

unfoldable pub check_message : Value → Result (Option Text)
unfolding check_words
check_message undefined = ok none
check_message null = ok none
check_message (str s) = check_words s
check_message _ = err Code.arg

-- /^(?:0|[1-9][0-9]{0,77})$/ and /^(?:0|[1-9][0-9]{0,2})$/
abbrev pub is_nat_up_to : ℕ → Text → Bool
is_nat_up_to n s = is_canonical_nat s && leb (length s) n

unfoldable pub check_threshold : Value → Result (Option ℤ)
check_threshold undefined = ok none
check_threshold null = ok none
check_threshold (big v) = do fail_if (is_neg v) Code.arg; ok (some v)
check_threshold (str s) = do fail_if (not (is_nat_up_to 78 s)) Code.arg; ok (some (pos (value s)))
check_threshold _ = err Code.arg

abbrev pub decimals_of : ℤ → Result ℕ
decimals_of (pos n) = do fail_if (ltb 255 n) Code.arg; ok n
decimals_of (negsuc n) = err Code.arg

unfoldable pub check_decimals : Value → Result ℕ
check_decimals (str s) = if is_nat_up_to 3 s then decimals_of (pos (value s)) else err Code.arg
check_decimals (big v) = decimals_of v
check_decimals (num v) = decimals_of v
check_decimals _ = err Code.arg

-- The groups of AMOUNT_RE: the sign, the whole part, the fraction, and the symbol that was given.
pub record AmountMatch : Type 0 where
  pub sign : Bool
  pub whole : Text
  pub frac : Option Text
  pub given : Option Text

abbrev pub minus_sign : Text → Bool
minus_sign [] = false
minus_sign (c ∷ s) = c == b'-'

abbrev pub after_sign : Text → Text
after_sign [] = []
after_sign (c ∷ s) = if c == b'-' then s else c ∷ s

abbrev pub last_is_space : Text → Bool
last_is_space [] = false
last_is_space (c ∷ []) = is_space c
last_is_space (c ∷ d ∷ s) = last_is_space (d ∷ s)

-- (?:\s+(\S(?:.*\S)?))?$ : nothing, or white space and words that do not end in white space.
unfoldable pub match_given : Text → Option (Option Text)
match_given [] = some none
match_given (c ∷ s) =
    let words = drop_while is_space (c ∷ s) in
    if not (is_space c) || text_eq words [] || last_is_space words then none else some (some words)

-- (?:\.([0-9]+))? : a point with at least one digit behind it.
unfoldable pub match_fraction : Text → Option (Option Text × Text)
match_fraction [] = some (none, [])
match_fraction (c ∷ s) =
    if c == b'.'
    then if text_eq (take_while is_digit s) []
      then none
      else some (some (take_while is_digit s), drop_while is_digit s)
    else some (none, c ∷ s)

-- `AMOUNT_RE.exec(text)`, part by part. Each part takes all that it can; what follows a part cannot
-- begin with what the part takes, so no shorter choice matches either.
abbrev pub with_given : Bool → Text → Option Text → Option (Option Text) → Option AmountMatch
with_given sign whole frac none = none
with_given sign whole frac (some given) =
    some (record { sign = sign; whole = whole; frac = frac; given = given })

abbrev pub with_fraction : Bool → Text → Option (Option Text × Text) → Option AmountMatch
with_fraction sign whole none = none
with_fraction sign whole (some (frac, rest)) = with_given sign whole frac (match_given rest)

abbrev pub match_unsigned : Bool → Text → Option AmountMatch
match_unsigned sign body =
    if text_eq (take_while is_digit body) []
    then none
    else with_fraction sign (take_while is_digit body) (match_fraction (drop_while is_digit body))

unfoldable pub amount_re : Text → Option AmountMatch
unfolding match_given match_fraction
amount_re text = match_unsigned (minus_sign text) (after_sign text)

abbrev pub text_or_empty : Option Text → Text
text_or_empty none = []
text_or_empty (some s) = s

-- The symbol in the input is the token's, but for ASCII case.
unfoldable pub check_given : Option Text → Option Text → Result (Unit {0})
check_given none expected = ok tt
check_given (some given) none = err Code.symbol_mismatch
check_given (some given) (some expected) =
    fail_if (not (text_eq (ascii_lower given) (ascii_lower expected))) Code.symbol_mismatch

pub record AmountOptions : Type 0 where
  pub decimals : Value
  pub symbol : Value
  pub candid : TypeName
  pub threshold : Value
  pub message : Value

-- The bigint of a match, at `d` decimals.
unfoldable pub amount_magnitude : AmountMatch → ℕ → ℕ
amount_magnitude m d = value m.whole * 10 ^ d + value (pad_end (text_or_empty m.frac) d)

abbrev pub signed : Bool → ℕ → ℤ
signed true n = neg_ℕ n
signed false n = pos n

-- What follows the match.
unfoldable pub read_amount : AmountMatch → ℕ → Option Text → IntType → Result Text
unfolding amount_magnitude check_given
read_amount m d expected type = do
  fail_if (m.sign && not type.signed) Code.negative
  check_given m.given expected
  fail_if (ltb d (length (text_or_empty m.frac))) Code.excess_precision
  let v = signed m.sign (amount_magnitude m d)
  check_range v type
  ok (to_string v)

-- `if (!m) fail(…)`, and what follows.
abbrev pub read_match : Option AmountMatch → ℕ → Option Text → IntType → Result Text
read_match none d expected type = err Code.syntax
read_match (some m) d expected type = read_amount m d expected type

unfoldable pub parse_amount : Value → AmountOptions → Result Text
unfolding read_amount
parse_amount input opts = do
  d ← check_decimals opts.decimals
  expected ← check_symbol opts.symbol
  type ← int_type opts.candid amount_types
  text ← require_string input
  read_match (amount_re (trim text)) d expected type

abbrev pub is_some {ℓ} : {A : Type ℓ} → Option A → Bool
is_some none = false
is_some (some a) = true

-- `sym ? ` ${sym}` : ""`: a symbol that passed its test is not empty.
abbrev pub suffix : Option Text → Text
suffix none = []
suffix (some s) = b' ' ∷ s

abbrev pub point : Text → Text
point [] = []
point (c ∷ s) = b'.' ∷ c ∷ s

abbrev pub sign_text : ℤ → Text
sign_text v = if is_neg v then b'-' ∷ [] else []

abbrev pub reached : Option ℤ → ℤ → Bool
reached none v = false
reached (some limit) v = leb_ℤ limit v

-- The digits with the point `d` places from the end, trailing zeros of the fraction removed.
unfoldable pub show_amount : ℤ → ℕ → Option Text → Text
show_amount v d sym =
    let digits = pad_start (nat_to_string (magnitude v)) (d + 1) in
    sign_text v
    ++ (take (length digits - d) digits
        ++ (point (strip_end (drop (length digits - d) digits)) ++ suffix sym))

abbrev pub or_default : Option Text → Text
or_default none = default_threshold_message
or_default (some s) = s

unfoldable pub display_amount : Value → AmountOptions → Result Text
unfolding show_amount
display_amount value opts = do
  d ← check_decimals opts.decimals
  sym ← check_symbol opts.symbol
  limit ← check_threshold opts.threshold
  text ← check_message opts.message
  fail_if (is_some text && not (is_some limit)) Code.arg
  type ← int_type opts.candid amount_types
  v ← to_bigint value
  check_range v type
  if reached limit v then ok (or_default text ++ suffix sym) else ok (show_amount v d sym)
