-- ===== src/Format/Principal.antt =====
-- profile/packages/format/src/principal.mjs: principal text and bytes, the CRC-32 and base32 that the
-- account text shares. Words are 32 bits wide and taken unsigned: the source reads each result of `^`
-- back by `>>>` or `& 0xff`.
pub mod Crc
pub mod Base32
pub mod Canonical
pub mod RoundTrip
use candid_core.Common.{
  ℕ, zero, suc, ◌+◌, ◌-◌, ◌*◌, ◌/◌, ◌%◌, ◌^◌, ◌≤◌, ◌<◌, Bool, true, false, not, ◌&&◌, ◌||◌, List,
  [], ◌∷◌, ◌++◌, ◌≡◌, refl, arith, ltb, leb, ◌==◌, if◌then◌else◌, length, Option, none, some, take,
  drop, text_eq, map,
}
use candid_core.Format.Errors.{Code, Result, ok, err, ◌>>=◌, ◌>>◌, fail_if}
use candid_core.Format.Chars.{Text, codes, between}
use candid_core.Format.Util.{Value, str, max_input_chars}
use Crc.{crc32}
use Base32.{base32_encode, base32_decode}

abbrev pub max_principal_bytes : ℕ
max_principal_bytes = 29

-- `setUint32(0, w, false)`: the four bytes of a word, high byte first.
unfoldable pub word_bytes : ℕ → List ℕ
word_bytes w = w / 2 ^ 24 % 256 ∷ w / 2 ^ 16 % 256 ∷ w / 2 ^ 8 % 256 ∷ w % 256 ∷ []

unfoldable pub crc32_big_endian : List ℕ → List ℕ
unfolding word_bytes
crc32_big_endian bytes = word_bytes (crc32 bytes)

-- `toLowerCase()`, as far as its use here can tell: of the characters outside ASCII the Kelvin sign
-- alone becomes a letter of the alphabet; every other is refused whatever it becomes.
abbrev pub lower_unit : ℕ → ℕ
lower_unit c = if between b'A' b'Z' c then c + 32 else if c == 0x212a then b'k' else c

unfoldable pub lower_case : Text → Text
lower_case = map lower_unit

-- `s.replaceAll("-", "")`.
unfoldable pub without_dashes : Text → Text
without_dashes [] = []
without_dashes (c ∷ s) = if c == b'-' then without_dashes s else c ∷ without_dashes s

-- `s.match(/.{1,5}/g).join("-")`.
unfoldable pub groups_of_five : Text → Text
groups_of_five (a ∷ b ∷ c ∷ d ∷ e ∷ f ∷ s) = a ∷ b ∷ c ∷ d ∷ e ∷ b'-' ∷ groups_of_five (f ∷ s)
groups_of_five s = s

-- The ICRC-1 checksum of an account.
unfoldable pub account_checksum : List ℕ → List ℕ → Text
unfolding crc32_big_endian
account_checksum owner subaccount = base32_encode (crc32_big_endian (owner ++ subaccount))

unfoldable pub canonical_text : List ℕ → Text
unfolding crc32_big_endian groups_of_five
canonical_text bytes = groups_of_five (base32_encode (crc32_big_endian bytes ++ bytes))

unfoldable pub principal_to_text : List ℕ → Result Text
unfolding canonical_text
principal_to_text bytes = do
  fail_if (ltb max_principal_bytes (length bytes)) Code.principal
  ok (canonical_text bytes)

-- What follows `base32Decode`: the length, the checksum, and the canonical form.
unfoldable pub check_decoded : Text → Option (List ℕ) → Result (List ℕ)
unfolding principal_to_text
check_decoded lower none = err Code.principal
check_decoded lower (some decoded) = do
  fail_if (ltb (length decoded) 4) Code.principal
  let data_bytes = drop 4 decoded
  fail_if (ltb max_principal_bytes (length data_bytes)) Code.principal
  fail_if (not (text_eq (take 4 decoded) (crc32_big_endian data_bytes))) Code.principal
  canonical ← principal_to_text data_bytes
  fail_if (not (text_eq lower canonical)) Code.principal
  ok data_bytes

unfoldable pub principal_from_text : Value → Result (List ℕ)
unfolding check_decoded lower_case without_dashes
principal_from_text (str text) = do
  fail_if (ltb max_input_chars (length text)) Code.too_long
  check_decoded (lower_case text) (base32_decode (without_dashes (lower_case text)))
principal_from_text _ = err Code.type_error
