-- ===== src/Format/Account/Parts.antt =====
-- The parts of an account's text, of profile/packages/format/src/account.mjs: their characters, and the
-- zeros that the text leaves out.
use candid_core.Common.{
  ℕ, suc, ◌-◌, ◌≤◌, true, false, not, List, [], ◌∷◌, ◌≡◌, refl, sym, ap, ◌∙◌, arith, ◌==◌, length,
  All, Bool-cases, inl, inr, append-nil,
}
use candid_core.Common.Tables.{all_below}
use candid_core.Format.Chars.{Text, is_space, trim, trim_start, trim_end, IsSolid, trim_end-append}
use candid_core.Format.Decimal.{pad_start, strip_start}
use candid_core.Format.Split.{Lacks}
use candid_core.Format.Principal.{account_checksum}
use candid_core.Format.Principal.Base32.{b32_char, base32_encode}
use candid_core.Format.Principal.Base32.Alphabet.{IsLetter, letter_test, base32_encode-IsLetter}
use candid_core.Format.Account.{is_checksum_char, starts_with_zero}

trim_start-IsSolid : (s : Text) → All IsSolid s → trim_start s ≡ s
trim_start-IsSolid [] h = refl
trim_start-IsSolid (c ∷ s) h = rw h.0

pub trim-IsSolid : (s : Text) → All IsSolid s → trim s ≡ s
unfolding trim
trim-IsSolid s h =
    ap trim_end (trim_start-IsSolid s h)
    ∙ ap trim_end (sym (append-nil s))
    ∙ trim_end-append s [] h refl
    ∙ append-nil s

-- `padStart` puts back what the text leaves out.
pad_zeros : (s : Text) (k : ℕ) → length s ≤ k → pad_start s (suc k) ≡ b'0' ∷ pad_start s k
unfolding pad_start
pad_zeros s k h = let e : suc k - length s ≡ suc (k - length s) = omega arith in rw e

pub length-strip_start : (s : Text) → length (strip_start s) ≤ length s
length-strip_start [] = omega arith
length-strip_start (c ∷ s) = ground (arith, length-strip_start s)

pub pad_start-strip_start : (s : Text) → pad_start (strip_start s) (length s) ≡ s
unfolding pad_start
pad_start-strip_start [] = refl
pad_start-strip_start (c ∷ s) = elim (Bool-cases (c == b'0')) [
  | inl zero_digit ↦
      let same : b'0' ≡ c = ground arith in
      rw zero_digit (
        pad_zeros (strip_start s) (length s) (length-strip_start s)
        ∙ ap (λ c. c ∷ pad_start (strip_start s) (length s)) same
        ∙ ap (λ s. c ∷ s) (pad_start-strip_start s))
  | inr other ↦ let e : suc (length s) - suc (length s) ≡ 0 = omega arith in rw other (rw e)
]

pub All-strip_start : (P : ℕ → Type 0) (s : Text) → All P s → All P (strip_start s)
All-strip_start P [] h = tt
All-strip_start P (c ∷ s) h = elim (Bool-cases (c == b'0')) [
  | inl zero_digit ↦ rw zero_digit (All-strip_start P s h.1)
  | inr other ↦ rw other h
]

pub strip_start-starts : (s : Text) → starts_with_zero (strip_start s) ≡ false
strip_start-starts [] = refl
strip_start-starts (c ∷ s) = elim (Bool-cases (c == b'0')) [
  | inl zero_digit ↦ rw zero_digit (strip_start-starts s)
  | inr other ↦ rw other other
]

-- A checksum has seven letters.
pub account_checksum-IsLetter : (owner sub : List ℕ) → All IsLetter (account_checksum owner sub)
unfolding account_checksum
account_checksum-IsLetter owner sub = base32_encode-IsLetter _

pub length-account_checksum : (owner sub : List ℕ) → length (account_checksum owner sub) ≡ 7
unfolding account_checksum base32_encode
length-account_checksum owner sub = refl

pub letter-checksum_char : (c : ℕ) → IsLetter c → is_checksum_char c ≡ true
letter-checksum_char c h =
    letter_test is_checksum_char c (unfold all_below is_checksum_char b32_char in refl) h

pub letter-IsSolid : (c : ℕ) → IsLetter c → IsSolid c
letter-IsSolid c h =
    let e = letter_test (λ c. not (is_space c)) c (unfold all_below is_space b32_char in refl) h in
    ground arith

pub letter-Lacks-point : (c : ℕ) → IsLetter c → Lacks b'.' c
letter-Lacks-point c h =
    let e = letter_test (λ c. not (c == b'.')) c (unfold all_below b32_char in refl) h in
    ground arith

pub letter-Lacks-dash : (c : ℕ) → IsLetter c → Lacks b'-' c
letter-Lacks-dash c h =
    let e = letter_test (λ c. not (c == b'-')) c (unfold all_below b32_char in refl) h in
    ground arith
