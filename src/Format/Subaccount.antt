-- ===== src/Format/Subaccount.antt =====
-- profile/packages/format/src/subaccount.mjs: a 32-byte blob as "#n" or as 64 hex characters.
pub mod RoundTrip
pub mod Size
use candid_core.Common.{
  ℕ, zero, suc, ◌+◌, ◌*◌, ◌/◌, ◌%◌, ◌^◌, Bool, true, false, not, ◌&&◌, ◌||◌, List, [], ◌∷◌, ◌++◌,
  leb, ◌==◌, if◌then◌else◌, length, all, take, drop, replicate, Option, none, some, text_eq,
}
use candid_core.Format.Errors.{Code, Result, ok, err, ◌>>=◌, ◌>>◌, fail_if}
use candid_core.Format.Chars.{Text, is_digit, trim}
use candid_core.Format.Decimal.{value, nat_to_string}
use candid_core.Format.Util.{
  Value, require_string, bytes_to_hex, hex_to_bytes, is_hex, is_canonical_nat,
}
use candid_core.Format.Blob.{Blob, to_bytes}

-- `text.replace(/^0[xX]/, "")`.
abbrev pub without_prefix : Text → Text
without_prefix (a ∷ b ∷ s) = if a == b'0' && (b == b'x' || b == b'X') then s else a ∷ b ∷ s
without_prefix s = s

-- /^#?/
abbrev pub without_hash : Text → Text
without_hash [] = []
without_hash (c ∷ s) = if c == b'#' then s else c ∷ s

-- HEX64 and HEXISH, on the text without its prefix.
abbrev pub is_hex64 : Text → Bool
is_hex64 digits = length digits == 64 && all is_hex digits

abbrev pub is_hexish : Text → Bool
is_hexish digits = not (text_eq digits []) && all is_hex digits

-- /^#?0[0-9]+$/, on the text without the hash.
abbrev pub has_leading_zeros : Text → Bool
has_leading_zeros [] = false
has_leading_zeros (c ∷ s) = c == b'0' && not (text_eq s []) && all is_digit s

-- `setBigUint64(_, n, false)`, and `getBigUint64`.
unfoldable pub eight_bytes : ℕ → List ℕ
eight_bytes n =
    n / 2 ^ 56 % 256
    ∷ n / 2 ^ 48 % 256
    ∷ n / 2 ^ 40 % 256
    ∷ n / 2 ^ 32 % 256
    ∷ n / 2 ^ 24 % 256
    ∷ n / 2 ^ 16 % 256
    ∷ n / 2 ^ 8 % 256
    ∷ n % 256
    ∷ []

abbrev pub big_endian_from : ℕ → List ℕ → ℕ
big_endian_from n [] = n
big_endian_from n (b ∷ bytes) = big_endian_from (n * 256 + b) bytes

unfoldable pub from_number : ℕ → Result (List ℕ)
unfolding eight_bytes
from_number n = do fail_if (leb (2 ^ 64) n) Code.range; ok (replicate 24 0 ++ eight_bytes n)

-- 64 hex characters are always bytes.
abbrev pub from_hex : Option (List ℕ) → Result (List ℕ)
from_hex none = err Code.hex
from_hex (some bytes) = ok bytes

unfoldable pub read_subaccount : Text → Result (List ℕ)
unfolding from_number
read_subaccount text =
    if is_hex64 (without_prefix text)
    then from_hex (hex_to_bytes (without_prefix text))
    else if is_canonical_nat (without_hash text)
    then from_number (value (without_hash text))
    else if has_leading_zeros (without_hash text)
    then err Code.syntax
    else if is_hexish (without_prefix text)
    then err Code.length
    else err Code.syntax

unfoldable pub parse_subaccount : Value → Result (List ℕ)
unfolding read_subaccount
parse_subaccount input = do s ← require_string input; read_subaccount (trim s)

unfoldable pub subaccount_text : List ℕ → Text
subaccount_text b =
    if all (λ x. x == 0) (take 24 b)
    then b'#' ∷ nat_to_string (big_endian_from 0 (drop 24 b))
    else bytes_to_hex b

unfoldable pub display_subaccount : Blob → Result Text
unfolding subaccount_text
display_subaccount value = do
  b ← to_bytes value
  fail_if (not (length b == 32)) Code.length
  ok (subaccount_text b)
