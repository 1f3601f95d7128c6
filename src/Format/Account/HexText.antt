-- ===== src/Format/Account/HexText.antt =====
-- The hex text of a subaccount, of profile/packages/format/src/account.mjs.
use candid_core.Common.{
  ℕ, ◌/◌, ◌%◌, ◌≤◌, ◌<◌, true, false, List, [], ◌∷◌, ◌++◌, ◌≡◌, refl, sym, ap, ◌∙◌, arith, ◌==◌,
  length, all-All, All, All-map, Bool-cases, inl, inr, some, text_eq,
}
use candid_core.Format.Chars.{Text, is_space, IsSolid}
use candid_core.Format.Decimal.{pad_start, strip_start}
use candid_core.Format.Util.{
  IsByte, is_hex, hex_digit, hex_value, bytes_to_hex, hex_to_bytes, hex_to_bytes-bytes_to_hex,
  all-bytes_to_hex, length-bytes_to_hex, hex_value-hex_digit, low_nibble,
}
use candid_core.Format.Split.{Lacks}
use candid_core.Format.Principal.{canonical_text, crc32_big_endian}
use candid_core.Format.Principal.Base32.Alphabet.{IsLetter, base32_encode-IsLetter}
use candid_core.Format.Principal.Canonical.{All-groups_of_five}
use candid_core.Format.Account.{is_zero}
use candid_core.Format.Account.Parts.{pad_start-strip_start, All-strip_start, length-strip_start}

-- A hex digit is no space, point or dash.
pub hex-IsSolid : (c : ℕ) → is_hex c ≡ true → IsSolid c
unfolding is_hex is_space
hex-IsSolid c h = ground arith

pub hex-Lacks-point : (c : ℕ) → is_hex c ≡ true → Lacks b'.' c
unfolding is_hex
hex-Lacks-point c h = ground arith

pub canonical_text-All :
    (P : ℕ → Type 0) (bytes : List ℕ)
    → P b'-'
    → ((c : ℕ) → IsLetter c → P c)
    → All P (canonical_text bytes)
unfolding canonical_text
canonical_text-All P bytes dash letter =
    All-groups_of_five P _ dash
      (All-map letter _ (base32_encode-IsLetter (crc32_big_endian bytes ++ bytes)))

-- Only zero bytes have a text of zeros.
strip_start-nil : (s : Text) → strip_start s ≡ [] → All (λ c. c ≡ b'0') s
strip_start-nil [] h = tt
strip_start-nil (c ∷ s) h = elim (Bool-cases (c == b'0')) [
  | inl zero_digit ↦ (ground arith, strip_start-nil s (rw zero_digit at h))
  | inr other ↦ let g = rw other at h in cc
]

digit_zero : (i : ℕ) → i < 16 → hex_digit i ≡ b'0' → i ≡ 0
unfolding hex_value
digit_zero i h e = sym (hex_value-hex_digit i h) ∙ ap hex_value e

zeros-is_zero :
    (bytes : List ℕ)
    → All IsByte bytes
    → All (λ c. c ≡ b'0') (bytes_to_hex bytes)
    → is_zero bytes ≡ true
unfolding bytes_to_hex
zeros-is_zero [] h k = refl
zeros-is_zero (b ∷ bytes) h k =
    let byte = h.0 in
    let low = low_nibble b in
    let high : b / 16 ≡ 0 = digit_zero (b / 16) (omega arith) k.0 in
    let rest : b % 16 ≡ 0 = digit_zero (b % 16) (omega arith) (ap hex_digit (sym low) ∙ k.1.0) in
    let e : b ≡ 0 = omega arith in rw e (zeros-is_zero bytes h.1 k.1.1)

-- The hex text of bytes that are not all zero.
module _ (sub : List ℕ) (h : All IsByte sub) (n : length sub ≡ 32) (z : is_zero sub ≡ false) where
  pub hex_text-not_empty : text_eq (strip_start (bytes_to_hex sub)) [] ≡ false
  hex_text-not_empty = named (strip_start (bytes_to_hex sub)) refl
    where
      named : (s : Text) → strip_start (bytes_to_hex sub) ≡ s → text_eq s [] ≡ false
      named [] e = absurd (cc (zeros-is_zero sub h (strip_start-nil _ e), z))
      named (c ∷ s) e = refl

  pub hex_text-digits : All (λ c. is_hex c ≡ true) (strip_start (bytes_to_hex sub))
  hex_text-digits =
      All-strip_start (λ c. is_hex c ≡ true) _ (all-All is_hex _ (all-bytes_to_hex sub h))

  pub hex_text-size : length (strip_start (bytes_to_hex sub)) ≤ 64
  hex_text-size = omega (arith, length-strip_start (bytes_to_hex sub), length-bytes_to_hex sub)

  pub hex_text-bytes : hex_to_bytes (pad_start (strip_start (bytes_to_hex sub)) 64) ≡ some sub
  hex_text-bytes =
      let l : length (bytes_to_hex sub) ≡ 64 = omega (arith, length-bytes_to_hex sub) in
      ap hex_to_bytes (
        ap (pad_start (strip_start (bytes_to_hex sub))) (sym l)
        ∙ pad_start-strip_start (bytes_to_hex sub))
      ∙ hex_to_bytes-bytes_to_hex sub h
