-- ===== src/Format/Bytes/RoundTrip.antt =====
-- `parseBytes` reads back what `displayBytes` writes, of profile/packages/format/src/bytes.mjs.
use candid_core.Common.{
  ℕ, ◌≤◌, false, List, ◌≡◌, refl, ap, ◌∙◌, arith, ltb, length, All, Option, none, some, Bool-cases,
  inl, inr, sym,
}
use candid_core.Format.Errors.{Code, ok, >>-eq-ok, ok-injective}
use candid_core.Format.Chars.{Text, has_unsafe}
use candid_core.Format.Util.{Value, str, IsByte, hex_to_bytes-bytes_to_hex}
use candid_core.Format.Blob.{view, to_bytes}
use candid_core.Format.Bytes.Base64.RoundTrip.{base64_decode-base64_encode}
use candid_core.Format.Bytes.Utf8.{utf8_decode}
use candid_core.Format.Bytes.Utf8.Exact.{utf8_encode-utf8_decode}
use candid_core.Format.Bytes.Utf16.{utf16, code_points-utf16, utf16-is_well_formed}
use candid_core.Format.Bytes.{
  Encoding, utf8, hex, base64, unknown, has_prefix, hex_text, parse_hex, read_text, read_bytes,
  check_max_len, over, parse_bytes, show_bytes, text_or_hex, display_bytes, is_unknown,
}

parse_hex-hex_text : (bytes : List ℕ) → All IsByte bytes → parse_hex (hex_text bytes) ≡ ok bytes
unfolding parse_hex
parse_hex-hex_text bytes h = rw (hex_to_bytes-bytes_to_hex bytes h)

read_text-hex_text : (bytes : List ℕ) → All IsByte bytes → read_text (hex_text bytes) ≡ ok bytes
unfolding read_text
read_text-hex_text bytes h = parse_hex-hex_text bytes h

-- Either the text is shown, and read as such, or the hex text is.
read_text-shown :
    (bytes : List ℕ)
    → All IsByte bytes
    → (o : Option (List ℕ)) → utf8_decode bytes ≡ o
    → read_text (text_or_hex bytes o) ≡ ok bytes
unfolding read_text
read_text-shown bytes h none e = read_text-hex_text bytes h
read_text-shown bytes h (some points) e =
    let (same, scalars) = utf8_encode-utf8_decode bytes e in
    elim (Bool-cases (has_unsafe (utf16 points))) [
      | inl unsafe ↦ rw unsafe (read_text-hex_text bytes h)
      | inr safe ↦ elim (Bool-cases (has_prefix (utf16 points))) [
        | inl prefixed ↦ rw (safe, prefixed) (read_text-hex_text bytes h)
        | inr plain ↦
            rw
              (
                safe,
                plain,
                plain,
                utf16-is_well_formed points scalars,
                code_points-utf16 points scalars,
              )
              (ap ok same)
      ]
    ]

read_bytes-show_bytes :
    (encoding : Encoding) (bytes : List ℕ)
    → is_unknown encoding ≡ false
    → All IsByte bytes
    → read_bytes encoding (show_bytes encoding bytes) ≡ ok bytes
unfolding show_bytes
read_bytes-show_bytes utf8 bytes k h = read_text-shown bytes h (utf8_decode bytes) refl
read_bytes-show_bytes hex bytes k h = parse_hex-hex_text bytes h
read_bytes-show_bytes base64 bytes k h = base64_decode-base64_encode bytes h
read_bytes-show_bytes unknown bytes k h = cc

-- Bytes are read back from their text, in each of the three encodings, where the text is within the
-- input bound of 4 MiB characters and the bytes within the tag's maximum length.
pub parse_bytes-display_bytes :
    (encoding : Encoding) (bytes : List ℕ) (max_len : Value) {t : Text} {max : Option ℕ}
    → All IsByte bytes
    → display_bytes (view bytes) encoding ≡ ok t
    → length t ≤ 4194304
    → check_max_len max_len ≡ ok max
    → over max (length bytes) ≡ false
    → parse_bytes (str t) encoding max_len ≡ ok bytes
unfolding parse_bytes display_bytes to_bytes
parse_bytes-display_bytes encoding bytes max_len {t} h shown short known fits =
    let (good, e) = >>-eq-ok (is_unknown encoding) Code.arg _ shown in
    let same : show_bytes encoding bytes ≡ t = ok-injective e in
    let bounded : ltb 4194304 (length t) ≡ false = ground arith in
    let read : read_bytes encoding t ≡ ok bytes =
      ap (read_bytes encoding) (sym same) ∙ read_bytes-show_bytes encoding bytes good h in
    rw (good, known, bounded, read, fits)
