-- ===== src/Format/Account/Tests.antt =====
-- Runs of profile/packages/format/src/account.mjs and subaccount.mjs, and the theorems there.
use candid_core.Common.{
  zero, suc, ℕ, List, [], ◌∷◌, ◌++◌, ◌≡◌, refl, arith, All, All-append, some, replicate, suc,
}
use candid_core.Format.Errors.{ok, ◌>>=◌}
use candid_core.Format.Chars.{codes}
use candid_core.Format.Util.{str, IsByte, hex_digit, bytes_to_hex}
use candid_core.Format.Blob.{view, to_bytes}
use candid_core.Format.Principal.{
  principal_from_text, canonical_text, principal_to_text, account_checksum,
}
use candid_core.Format.Principal.Crc.{crc32}
use candid_core.Format.Principal.Base32.{base32_encode, b32_char, base32_decode, b32_value}
use candid_core.Format.Account.{
  parse_account, owner_value, account_of, display_account, principal_from_text, owner_text,
}
use candid_core.Format.Account.RoundTrip.{parse_account-display_account}
use candid_core.Format.Subaccount.{parse_subaccount, display_subaccount}
use candid_core.Format.Subaccount.Size.{parse_subaccount-IsSubaccount}
use candid_core.Format.Chars.{trim, is_space}
use candid_core.Format.Util.{require_string, is_hex}
use candid_core.Common.{length}
use candid_core.Format.Subaccount.RoundTrip.{parse_subaccount-display_subaccount}

-- The anonymous principal's subaccount 1.
abbrev anonymous : List ℕ
anonymous = 4 ∷ []

abbrev one : List ℕ
one = replicate 31 0 ++ 1 ∷ []

one-IsByte : All IsByte one
one-IsByte = All-append IsByte (replicate 31 0) (1 ∷ []) (zeros 31) (omega arith, tt)
  where
    zeros : (n : ℕ) → All IsByte (replicate n 0)
    zeros zero = tt
    zeros (suc n) = (omega arith, zeros n)

-- The vector of the ICRC-1 standard.
abbrev up_to : ℕ → List ℕ → List ℕ
up_to zero tail = tail
up_to (suc n) tail = up_to n (suc n ∷ tail)

display_account_run :
    display_account (
      account_of
        (owner_text (codes "k2t6j-2nvnp-4zjm3-25dtz-6xhaa-c7boj-5gayf-oj3xs-i43lp-teztq-6ae"))
        (some (view (up_to 32 []))))
    ≡ ok (
        codes
          "k2t6j-2nvnp-4zjm3-25dtz-6xhaa-c7boj-5gayf-oj3xs-i43lp-teztq-6ae-dfxgiyy.102030405060708090a0b0c0d0e0f101112131415161718191a1b1c1d1e1f20")
unfolding display_account to_bytes principal_to_text crc32 base32_encode b32_char account_checksum
    bytes_to_hex hex_digit principal_from_text base32_decode b32_value
display_account_run = refl

parse_account-display_account_example :
    (display_account (account_of (owner_value (view anonymous)) (some (view one))) >>= λ t.
    parse_account (str t))
    ≡ ok (record { owner = canonical_text anonymous; subaccount = some one })
parse_account-display_account_example =
    parse_account-display_account anonymous (some one) (omega arith, tt) (omega arith)
      (one-IsByte, refl)

parse_subaccount-display_subaccount_example :
    (display_subaccount (view one) >>= λ t. parse_subaccount (str t)) ≡ ok one
parse_subaccount-display_subaccount_example =
    parse_subaccount-display_subaccount one one-IsByte refl

number_run : parse_subaccount (str (codes " #1 ")) ≡ ok one
unfolding parse_subaccount require_string trim is_space is_hex
number_run = refl

parse_subaccount-IsSubaccount_example : (length one ≡ 32) × All IsByte one
parse_subaccount-IsSubaccount_example =
    parse_subaccount-IsSubaccount (str (codes " #1 ")) number_run
