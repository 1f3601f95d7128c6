-- ===== src/Format/Bytes/Tests.antt =====
-- Runs of profile/packages/format/src/bytes.mjs, and the theorems on it.
use candid_core.Common.{ℕ, List, [], ◌∷◌, ◌≡◌, refl, arith, none, some}
use candid_core.Format.Errors.{ok}
use candid_core.Format.Chars.{codes, is_unsafe, code_points, has_unsafe}
use candid_core.Format.Util.{undefined, str, bytes_to_hex, hex_digit}
use candid_core.Format.Blob.{view, to_bytes}
use candid_core.Format.Bytes.{utf8, check_max_len, parse_bytes, display_bytes}
use candid_core.Format.Bytes.Utf8.{utf8_decode}
use candid_core.Format.Bytes.Utf16.{utf16}
use candid_core.Format.Bytes.RoundTrip.{parse_bytes-display_bytes}

-- "é!" and an overlong slash.
abbrev e_acute : List ℕ
e_acute = 0xc3 ∷ 0xa9 ∷ 0x21 ∷ []

text_run : display_bytes (view e_acute) utf8 ≡ ok (0xe9 ∷ 0x21 ∷ [])
unfolding display_bytes to_bytes utf8_decode utf16 has_unsafe is_unsafe code_points
text_run = refl

overlong_run : display_bytes (view (0xc0 ∷ 0xaf ∷ [])) utf8 ≡ ok (codes "0xc0af")
unfolding display_bytes to_bytes utf8_decode bytes_to_hex hex_digit
overlong_run = refl

decoded : utf8_decode e_acute ≡ some (0xe9 ∷ 0x21 ∷ [])
unfolding utf8_decode
decoded = refl

parse_bytes-display_bytes_example : parse_bytes (str (0xe9 ∷ 0x21 ∷ [])) utf8 undefined ≡ ok e_acute
parse_bytes-display_bytes_example =
    parse_bytes-display_bytes utf8 e_acute undefined {max = none}
      (omega arith, (omega arith, (omega arith, tt))) text_run (omega arith)
      (unfold check_max_len in refl) refl
