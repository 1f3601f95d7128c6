-- ===== src/Format/Bytes.antt =====
-- profile/packages/format/src/bytes.mjs: a blob as text, hex or base64.
pub mod Base64
pub mod Utf8
pub mod Utf16
pub mod RoundTrip
pub mod Tests
use candid_core.Common.{
  ℕ, ◌*◌, ◌^◌, Bool, true, false, not, ◌&&◌, ◌||◌, List, [], ◌∷◌, ◌++◌, ltb, leb, ◌==◌,
  if◌then◌else◌, length, Option, none, some, ℤ, pos, negsuc,
}
use candid_core.Format.Errors.{Code, Result, ok, err, ◌>>=◌, ◌>>◌, fail_if}
use candid_core.Format.Chars.{Text, code_points, is_well_formed, has_unsafe}
use candid_core.Format.Decimal.{value}
use candid_core.Format.Util.{
  Value, undefined, null, other, str, big, num, bytes_to_hex, hex_to_bytes, is_canonical_nat,
}
use candid_core.Format.Blob.{Blob, to_bytes}
use Base64.{base64_encode, base64_decode}
use Utf8.{utf8_encode, utf8_decode}
use Utf16.{utf16}

-- BYTES_ENCODINGS; `unknown` is every other value.
pub data Encoding : Type 0 where
  utf8 hex base64 unknown : Encoding

abbrev pub max_bytes_input_chars : ℕ
max_bytes_input_chars = 4 * 1024 * 1024

-- HEX_PREFIX.test(text), and the text without it.
abbrev pub has_prefix : Text → Bool
has_prefix (a ∷ b ∷ s) = a == b'0' && (b == b'x' || b == b'X')
has_prefix s = false

abbrev pub without_prefix : Text → Text
without_prefix (a ∷ b ∷ s) = if a == b'0' && (b == b'x' || b == b'X') then s else a ∷ b ∷ s
without_prefix s = s

abbrev pub bytes_or_hex_error : Option (List ℕ) → Result (List ℕ)
bytes_or_hex_error none = err Code.hex
bytes_or_hex_error (some bytes) = ok bytes

unfoldable pub parse_hex : Text → Result (List ℕ)
parse_hex text = bytes_or_hex_error (hex_to_bytes (without_prefix text))

-- Number(n) is a safe integer exactly where n is below 2 ^ 53.
abbrev pub safe_length : ℤ → Result (Option ℕ)
safe_length (pos n) = do fail_if (leb (2 ^ 53) n) Code.arg; ok (some n)
safe_length (negsuc n) = err Code.arg

unfoldable pub check_max_len : Value → Result (Option ℕ)
check_max_len undefined = ok none
check_max_len null = ok none
check_max_len (big n) = safe_length n
check_max_len (num n) = safe_length n
check_max_len (str s) = if is_canonical_nat s then safe_length (pos (value s)) else err Code.arg
check_max_len other = err Code.arg

abbrev pub is_unknown : Encoding → Bool
is_unknown unknown = true
is_unknown _ = false

abbrev pub over : Option ℕ → ℕ → Bool
over none n = false
over (some max) n = ltb max n

-- Plain text; 0x starts a hex text.
unfoldable pub read_text : Text → Result (List ℕ)
unfolding parse_hex
read_text text =
    if has_prefix text
    then parse_hex text
    else fail_if (not (is_well_formed text)) Code.utf8 >> ok (utf8_encode (code_points text))

abbrev pub read_bytes : Encoding → Text → Result (List ℕ)
read_bytes utf8 text = read_text text
read_bytes hex text = parse_hex text
read_bytes _ text = base64_decode text

abbrev pub bytes_text : Value → Result Text
bytes_text (str s) = ok s
bytes_text _ = err Code.type_error

unfoldable pub parse_bytes : Value → Encoding → Value → Result (List ℕ)
unfolding check_max_len read_text
parse_bytes input encoding max_len = do
  fail_if (is_unknown encoding) Code.arg
  max ← check_max_len max_len
  text ← bytes_text input
  fail_if (ltb max_bytes_input_chars (length text)) Code.too_long
  bytes ← read_bytes encoding text
  fail_if (over max (length bytes)) Code.max_len
  ok bytes

abbrev pub hex_text : List ℕ → Text
hex_text bytes = b'0' ∷ b'x' ∷ bytes_to_hex bytes

abbrev pub text_or_hex : List ℕ → Option (List ℕ) → Text
text_or_hex bytes none = hex_text bytes
text_or_hex bytes (some points) =
    if has_unsafe (utf16 points) || has_prefix (utf16 points) then hex_text bytes else utf16 points

unfoldable pub show_bytes : Encoding → List ℕ → Text
show_bytes hex bytes = hex_text bytes
show_bytes base64 bytes = base64_encode bytes
show_bytes _ bytes = text_or_hex bytes (utf8_decode bytes)

unfoldable pub display_bytes : Blob → Encoding → Result Text
unfolding show_bytes
display_bytes value encoding = do
  fail_if (is_unknown encoding) Code.arg
  bytes ← to_bytes value
  ok (show_bytes encoding bytes)
