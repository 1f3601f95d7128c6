-- ===== src/Format/Tests.antt =====
-- Runs of the operations of profile/packages/format/src at concrete inputs, and the theorems there.
use candid_core.Common.{
  ℕ, ◌≤◌, false, List, [], ◌∷◌, ◌≡◌, refl, ◌↔◌, arith, All, none, some, pos, length,
}
use candid_core.Format.Errors.{Code, ok, err, ◌>>=◌}
use candid_core.Format.Chars.{
  codes, code_points, trim, is_space, has_unsafe, is_unsafe, is_well_formed,
}
use candid_core.Format.Decimal.{to_string, nat_to_string, pad_start}
use candid_core.Format.Util.{
  undefined, str, big, num, TypeName, unsigned_type, IsByte, bytes_to_hex, hex_to_bytes,
  check_range, to_bigint, int_type, int_types, require_string, hex_to_bytes-bytes_to_hex,
}
use candid_core.Format.Util.Range.{InRange, check_range_iff}
use candid_core.Format.Amount.{
  AmountOptions, parse_amount, display_amount, check_threshold, amount_re, check_decimals,
  check_symbol, amount_types, check_message,
}
use candid_core.Format.Amount.Exact.{IsExact, parse_amount_iff}
use candid_core.Format.Amount.RoundTrip.{parse_amount-display_amount}
use candid_core.Format.Bytes.Base64.{base64_encode, base64_decode}
use candid_core.Format.Bytes.Base64.RoundTrip.{base64_decode-base64_encode}
use candid_core.Format.Principal.{principal_to_text, principal_from_text, lower_case}
use candid_core.Format.Principal.Crc.{crc32}
use candid_core.Format.Principal.Crc.Reference.{bitwise_crc32, crc32-eq-bitwise}
use candid_core.Format.Principal.Base32.{base32_encode, base32_decode, b32_value, b32_char}
use candid_core.Format.Principal.Base32.RoundTrip.{base32_decode-base32_encode}
use candid_core.Format.Principal.RoundTrip.{
  principal_from_text_iff, principal_from_text-principal_to_text,
}

-- "1.5 ICP", at eight decimals.
abbrev icp : AmountOptions
icp = record {
  decimals = num (pos 8);
  symbol = str (codes "ICP");
  candid = TypeName.nat;
  threshold = undefined;
  message = undefined;
}

abbrev one_and_a_half : ℕ
one_and_a_half = 150000000

display_amount_run : display_amount (big (pos one_and_a_half)) icp ≡ ok (codes "1.5 ICP")
unfolding display_amount check_decimals check_symbol code_points trim is_space has_unsafe is_unsafe
    is_well_formed int_type amount_types int_types check_threshold check_message to_bigint
    check_range nat_to_string pad_start
display_amount_run = refl

parse_amount_too_precise :
    parse_amount (str (codes "1.500000000 ICP")) icp ≡ err Code.excess_precision
unfolding parse_amount require_string amount_re check_decimals check_symbol code_points trim
    is_space has_unsafe is_unsafe is_well_formed int_type amount_types int_types
parse_amount_too_precise = refl

parse_amount_below_zero : parse_amount (str (codes "-1")) icp ≡ err Code.negative
unfolding parse_amount require_string amount_re check_decimals check_symbol code_points trim
    is_space has_unsafe is_unsafe is_well_formed int_type amount_types int_types
parse_amount_below_zero = refl

parse_amount-display_amount_example :
    parse_amount (str (codes "1.5 ICP")) icp ≡ ok (to_string (pos one_and_a_half))
parse_amount-display_amount_example =
    parse_amount-display_amount (big (pos one_and_a_half)) icp (pos one_and_a_half) none
      (codes "1.5 ICP") (unfold to_bigint in refl) (unfold check_threshold in refl) refl
      display_amount_run (omega arith)

parse_amount_iff_example :
    (parse_amount (str (codes " 1.5  icp ")) icp ≡ ok (codes "150000000"))
    ↔ IsExact (str (codes " 1.5  icp ")) icp (codes "150000000")
parse_amount_iff_example = parse_amount_iff (str (codes " 1.5  icp ")) icp (codes "150000000")

check_range_iff_example :
    (check_range (pos 255) (unsigned_type 8 false) ≡ ok tt)
    ↔ InRange (pos 255) (unsigned_type 8 false)
check_range_iff_example = check_range_iff (pos 255) (unsigned_type 8 false)

-- A canister id's bytes.
abbrev ledger : List ℕ
ledger = 0 ∷ 0 ∷ 0 ∷ 0 ∷ 0 ∷ 0 ∷ 0 ∷ 2 ∷ 1 ∷ 1 ∷ []

ledger-IsByte : All IsByte ledger
ledger-IsByte = (
  omega arith,
  (
    omega arith,
    (
      omega arith,
      (
        omega arith,
        (
          omega arith,
          (omega arith, (omega arith, (omega arith, (omega arith, (omega arith, tt))))),
        ),
      ),
    ),
  ),
)

ledger_text : principal_to_text ledger ≡ ok (codes "ryjl3-tyaaa-aaaaa-aaaba-cai")
unfolding principal_to_text base32_encode b32_char crc32
ledger_text = refl

management_text : principal_to_text [] ≡ ok (codes "aaaaa-aa")
unfolding principal_to_text base32_encode b32_char crc32
management_text = refl

anonymous_bytes : principal_from_text (str (codes "2vxsx-fae")) ≡ ok (4 ∷ [])
unfolding principal_from_text base32_decode b32_value crc32 base32_encode b32_char
anonymous_bytes = refl

wrong_checksum : principal_from_text (str (codes "2vxsx-fai")) ≡ err Code.principal
unfolding principal_from_text base32_decode b32_value crc32 base32_encode b32_char
wrong_checksum = refl

hex_to_bytes-bytes_to_hex_example : hex_to_bytes (bytes_to_hex ledger) ≡ some ledger
hex_to_bytes-bytes_to_hex_example = hex_to_bytes-bytes_to_hex ledger ledger-IsByte

base64_decode-base64_encode_example : base64_decode (base64_encode ledger) ≡ ok ledger
base64_decode-base64_encode_example = base64_decode-base64_encode ledger ledger-IsByte

crc32-eq-bitwise_example : crc32 ledger ≡ bitwise_crc32 ledger
crc32-eq-bitwise_example = crc32-eq-bitwise ledger ledger-IsByte

base32_decode-base32_encode_example : base32_decode (base32_encode ledger) ≡ some ledger
base32_decode-base32_encode_example = base32_decode-base32_encode ledger ledger-IsByte

principal_from_text_iff_example : (principal_from_text (str (codes "2vxsx-FAE")) ≡ ok (4 ∷ [])) ↔ (
    (length (codes "2vxsx-FAE") ≤ 1024)
    × All IsByte (4 ∷ [])
    × (principal_to_text (4 ∷ []) ≡ ok (lower_case (codes "2vxsx-FAE"))))
principal_from_text_iff_example = principal_from_text_iff (codes "2vxsx-FAE") (4 ∷ [])

principal_from_text-principal_to_text_example :
    (principal_to_text ledger >>= λ t. principal_from_text (str t)) ≡ ok ledger
principal_from_text-principal_to_text_example =
    principal_from_text-principal_to_text ledger ledger-IsByte (omega arith)
