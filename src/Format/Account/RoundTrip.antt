-- ===== src/Format/Account/RoundTrip.antt =====
-- `parseAccount` reads back what `displayAccount` writes, of profile/packages/format/src/account.mjs.
use candid_core.Common.{
  ℕ, ◌≤◌, false, List, ◌∷◌, ◌++◌, ◌≡◌, refl, sym, ap, ◌∙◌, arith, ltb, if◌then◌else◌, length,
  length-append, All-all, All, All-append, All-map, Bool-cases, inl, inr, Option, none, some,
  text_eq_refl, append_assoc,
}
use candid_core.Format.Errors.{ok, ◌>>=◌}
use candid_core.Format.Chars.{Text, is_space, IsSolid}
use candid_core.Format.Decimal.{strip_start}
use candid_core.Format.Util.{str, require_string, IsByte, is_hex, bytes_to_hex}
use candid_core.Format.Blob.{Blob, view, to_bytes}
use candid_core.Format.Split.{
  Lacks, split_first, split_last, split_first-append, split_first-none, split_last-append,
}
use candid_core.Format.Principal.{principal_from_text, account_checksum, canonical_text}
use candid_core.Format.Principal.Base32.Alphabet.{IsLetter}
use candid_core.Format.Principal.Canonical.{canonical_text-size, lower_case-IsLower, letter-IsLower}
use candid_core.Format.Principal.RoundTrip.{
  ok-principal_to_text, principal_from_text-principal_to_text,
}
use candid_core.Format.Account.{
  is_checksum_char, read_left, read_parts, parse_account, owner_value, account_of, is_zero,
  subaccount_text, display_account,
}
use candid_core.Format.Account.Parts.{
  trim-IsSolid, strip_start-starts, account_checksum-IsLetter, length-account_checksum,
  letter-checksum_char, letter-IsSolid, letter-Lacks-point, letter-Lacks-dash,
}
use candid_core.Format.Account.HexText.{
  hex-IsSolid, hex-Lacks-point, canonical_text-All, hex_text-not_empty, hex_text-digits,
  hex_text-size, hex_text-bytes,
}

-- What `parseAccount` does with a text of solid characters within the bound.
parse_account-solid :
    (text : Text)
    → All IsSolid text
    → length text ≤ 1024
    → parse_account (str text) ≡ read_parts text (split_first b'.' text)
unfolding parse_account require_string
parse_account-solid text solid short =
    let e : ltb 1024 (length text) ≡ false = ground arith in rw (e, trim-IsSolid text solid, e)

module _ (owner : List ℕ) (ho : All IsByte owner) (short : length owner ≤ 29) where
  owner_read : principal_from_text (str (canonical_text owner)) ≡ ok owner
  owner_read =
      rw (ok-principal_to_text owner short) at
        (principal_from_text-principal_to_text owner ho short)

  bare :
      parse_account (str (canonical_text owner))
      ≡ ok (record { owner = canonical_text owner; subaccount = none })
  unfolding read_parts
  bare =
      let n = canonical_text-size owner in
      parse_account-solid (canonical_text owner)
        (canonical_text-All IsSolid owner (unfold is_space in refl) letter-IsSolid) (omega arith)
      ∙ ap (read_parts (canonical_text owner))
          (split_first-none b'.' _ (canonical_text-All (Lacks b'.') owner refl letter-Lacks-point))
      ∙ rw (owner_read, ok-principal_to_text owner short)

  module _ (sub : List ℕ) (h : All IsByte sub) (n : length sub ≡ 32) (z : is_zero sub ≡ false) where
    checksum : Text
    checksum = account_checksum owner sub

    hex : Text
    hex = strip_start (bytes_to_hex sub)

    left : Text
    left = canonical_text owner ++ b'-' ∷ checksum

    full_text : subaccount_text owner (canonical_text owner) sub ≡ left ++ b'.' ∷ hex
    unfolding subaccount_text left checksum hex
    full_text = sym (append_assoc (canonical_text owner) (b'-' ∷ account_checksum owner sub) _)

    left-All : (P : ℕ → Type 0) → P b'-' → ((c : ℕ) → IsLetter c → P c) → All P left
    unfolding left checksum
    left-All P dash letter =
        All-append P (canonical_text owner) _ (canonical_text-All P owner dash letter)
          (dash, All-map letter _ (account_checksum-IsLetter owner sub))

    full_text-IsSolid : All IsSolid (left ++ b'.' ∷ hex)
    unfolding hex
    full_text-IsSolid =
        All-append IsSolid left _ (left-All IsSolid (unfold is_space in refl) letter-IsSolid)
          (unfold is_space in refl, All-map hex-IsSolid _ (hex_text-digits sub h n z))

    full_text-size : length (left ++ b'.' ∷ hex) ≤ 1024
    unfolding left checksum hex
    full_text-size =
        let a =
          length-append (canonical_text owner ++ b'-' ∷ account_checksum owner sub)
            (b'.' ∷ strip_start (bytes_to_hex sub)) in
        let b = length-append (canonical_text owner) (b'-' ∷ account_checksum owner sub) in
        omega (
          arith,
          a,
          b,
          canonical_text-size owner,
          length-account_checksum owner sub,
          hex_text-size sub h n z,
        )

    left_read :
        read_left (split_last b'-' left) hex
        ≡ ok (record { owner = canonical_text owner; subaccount = some sub })
    unfolding read_left left checksum hex
    left_read =
        let letters = account_checksum-IsLetter owner sub in
        let l = length-account_checksum owner sub in
        let chars = All-all is_checksum_char _ (All-map letter-checksum_char _ letters) in
        let lower = lower_case-IsLower _ (All-map letter-IsLower _ letters) in
        let digits = All-all is_hex _ (hex_text-digits sub h n z) in
        let size = hex_text-size sub h n z in
        let bounded : ltb 64 (length (strip_start (bytes_to_hex sub))) ≡ false = ground arith in
        rw (
          split_last-append b'-' (canonical_text owner) (account_checksum owner sub)
              (All-map letter-Lacks-dash _ letters),
          l,
          chars,
          hex_text-not_empty sub h n z,
          digits,
          strip_start-starts (bytes_to_hex sub),
          bounded,
          hex_text-bytes sub h n z,
          owner_read,
          lower,
          text_eq_refl (account_checksum owner sub),
          ok-principal_to_text owner short,
        )

    full :
        parse_account (str (subaccount_text owner (canonical_text owner) sub))
        ≡ ok (record { owner = canonical_text owner; subaccount = some sub })
    unfolding read_parts
    full =
        ap (λ t. parse_account (str t)) full_text
        ∙ parse_account-solid (left ++ b'.' ∷ hex) full_text-IsSolid full_text-size
        ∙ ap (read_parts (left ++ b'.' ∷ hex))
            (split_first-append b'.' left hex (left-All (Lacks b'.') refl letter-Lacks-point))
        ∙ rw
            (split_first-none b'.' hex
              (All-map hex-Lacks-point _ (unfold hex in hex_text-digits sub h n z)))
            left_read

-- A subaccount as it is given, and as it is read back: 32 zero bytes are the default one.
abbrev IsSubaccount : Option (List ℕ) → Type 0
IsSubaccount none = Unit
IsSubaccount (some sub) = All IsByte sub × (length sub ≡ 32)

abbrev as_blob : Option (List ℕ) → Option Blob
as_blob none = none
as_blob (some sub) = some (view sub)

abbrev stored : Option (List ℕ) → Option (List ℕ)
stored none = none
stored (some sub) = if is_zero sub then none else some sub

-- The text of an account with an owner of at most 29 bytes, and a subaccount of 32 bytes or none, is read
-- back as the owner's principal text and the subaccount, which is none where all its bytes are zero.
pub parse_account-display_account :
    (owner : List ℕ) (sub : Option (List ℕ))
    → All IsByte owner
    → length owner ≤ 29
    → IsSubaccount sub
    → (display_account (account_of (owner_value (view owner)) (as_blob sub)) >>= λ t.
        parse_account (str t))
      ≡ ok (record { owner = canonical_text owner; subaccount = stored sub })
unfolding display_account to_bytes
parse_account-display_account owner none ho short h =
    rw (ok-principal_to_text owner short, ok-principal_to_text owner short) (bare owner ho short)
parse_account-display_account owner (some sub) ho short (h, n) = elim (Bool-cases (is_zero sub)) [
  | inl zeros ↦
      rw (ok-principal_to_text owner short, ok-principal_to_text owner short, n, zeros)
        (bare owner ho short)
  | inr other ↦
      rw (ok-principal_to_text owner short, ok-principal_to_text owner short, n, other)
        (full owner ho short sub h n other)
]
