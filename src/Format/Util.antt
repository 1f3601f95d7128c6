-- ===== src/Format/Util.antt =====
-- profile/packages/format/src/util.mjs: the integer types and their ranges, strict integers, and
-- bytes as hexadecimal text.
mod Hex
pub mod Range
unfoldable pub use Hex.*
use Prim.Native.Nat.{pred}
use candid_core.Common.{
  ℕ, zero, suc, ◌+◌, ◌-◌, ◌*◌, ◌/◌, ◌%◌, ◌^◌, ◌≤◌, ◌<◌, Bool, true, false, not, ◌&&◌, ◌||◌, List,
  [], ◌∷◌, ◌++◌, ◌≡◌, refl, arith, ltb, leb, ◌==◌, if◌then◌else◌, length, all, Option, none, some,
  ℤ, pos, negsuc, neg_ℕ, negate, ltb_ℤ, ◌≤ℤ◌, is_neg, text_eq,
}
use candid_core.Format.Errors.{Code, Result, ok, err, ◌>>=◌, ◌>>◌, fail_if}
use candid_core.Format.Chars.{Text, is_digit, codes}
use candid_core.Format.Decimal.{value}

-- A JavaScript value, as far as this package tells values apart. A number that is an integer is
-- `num`; every other value is `other`.
pub data Value : Type 0 where
  undefined null other : Value
  str : Text → Value
  big num : ℤ → Value

abbrev pub max_input_chars : ℕ
max_input_chars = 1024

pub record IntType : Type 0 where
  pub signed : Bool
  pub min : Option ℤ
  pub max : Option ℤ
  pub abi : Bool

-- The name of an integer type: `nat`, `int`, `nat8` (`nat_n 8`), `int8` (`int_n 8`), `uint8`
-- (`uint_n 8`). Every other name is `named`.
pub data TypeName : Type 0 where
  nat int : TypeName
  nat_n int_n uint_n : ℕ → TypeName
  named : Text → TypeName

-- The widths of Candid's fixed integers, and the ABI's: 8, 16, 24, … 256.
abbrev pub candid_width : ℕ → Bool
candid_width b = b == 8 || b == 16 || b == 32 || b == 64

abbrev pub abi_width : ℕ → Bool
abi_width b = b % 8 == 0 && leb 8 b && leb b 256

abbrev pub unsigned_type : ℕ → Bool → IntType
unsigned_type b abi = record {
  signed = false;
  min = some (pos 0);
  max = some (pos (2 ^ b - 1));
  abi = abi;
}

abbrev pub signed_type : ℕ → Bool → IntType
signed_type b abi = record {
  signed = true;
  min = some (neg_ℕ (2 ^ (b - 1)));
  max = some (pos (2 ^ (b - 1) - 1));
  abi = abi;
}

-- `INT_TYPES[name]`.
unfoldable pub int_types : TypeName → Option IntType
int_types nat = some (record { signed = false; min = some (pos 0); max = none; abi = false })
int_types int = some (record { signed = true; min = none; max = none; abi = false })
int_types (nat_n b) = if candid_width b then some (unsigned_type b false) else none
int_types (uint_n b) = if abi_width b then some (unsigned_type b true) else none
int_types (int_n b) =
    if candid_width b
    then some (signed_type b false)
    else if abi_width b
    then some (signed_type b true)
    else none
int_types (named s) = none

-- `intType(candid, allowed, tag)`, with the list of allowed names as its membership test.
unfoldable pub int_type : TypeName → (TypeName → Bool) → Result IntType
unfolding int_types
int_type candid allowed =
    if allowed candid
    then elim (int_types candid) [ none ↦ err Code.tag_type | some t ↦ ok t ]
    else err Code.tag_type

unfoldable pub check_length : Text → Result (Unit {0})
check_length text = fail_if (ltb max_input_chars (length text)) Code.too_long

unfoldable pub require_string : Value → Result Text
unfolding check_length
require_string (str s) = do check_length s; ok s
require_string _ = err Code.type_error

-- /^-?(?:0|[1-9][0-9]*)$/, with the sign apart.
abbrev pub is_canonical_nat : Text → Bool
is_canonical_nat [] = false
is_canonical_nat (c ∷ s) =
    (c == b'0' && text_eq s []) || (is_digit c && not (c == b'0') && all is_digit s)

abbrev pub split_sign : Text → Bool × Text
split_sign [] = (false, [])
split_sign (c ∷ s) = if c == b'-' then (true, s) else (false, c ∷ s)

unfoldable pub to_bigint : Value → Result ℤ
to_bigint (big v) = ok v
to_bigint (str s) = do
  fail_if (ltb max_input_chars (length s)) Code.too_long
  let digits = (split_sign s).1
  fail_if (not (is_canonical_nat digits)) Code.syntax
  fail_if ((split_sign s).0 && text_eq digits (b'0' ∷ [])) Code.syntax
  ok (if (split_sign s).0 then neg_ℕ (value digits) else pos (value digits))
to_bigint _ = err Code.type_error

abbrev pub below : ℤ → Option ℤ → Bool
below v none = false
below v (some m) = ltb_ℤ v m

abbrev pub above : ℤ → Option ℤ → Bool
above v none = false
above v (some m) = ltb_ℤ m v

unfoldable pub check_range : ℤ → IntType → Result (Unit {0})
check_range v type = do
  fail_if (not type.signed && is_neg v) Code.range
  fail_if (below v type.min) Code.range
  fail_if (above v type.max) Code.range
  ok tt
