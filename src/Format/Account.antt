-- ===== src/Format/Account.antt =====
-- profile/packages/format/src/account.mjs: the ICRC-1 text of an account.
pub mod Parts
pub mod HexText
pub mod RoundTrip
pub mod Tests
use candid_core.Common.{
  ℕ, zero, suc, Bool, true, false, not, ◌&&◌, ◌||◌, List, [], ◌∷◌, ◌++◌, ltb, ◌==◌, if◌then◌else◌,
  length, all, Option, none, some, text_eq,
}
use candid_core.Format.Errors.{Code, Result, ok, err, ◌>>=◌, ◌>>◌, fail_if}
use candid_core.Format.Chars.{Text, between, trim}
use candid_core.Format.Decimal.{pad_start, strip_start}
use candid_core.Format.Util.{
  Value, str, max_input_chars, require_string, bytes_to_hex, hex_to_bytes, is_hex,
}
use candid_core.Format.Blob.{Blob, to_bytes}
use candid_core.Format.Split.{split_first, split_last}
use candid_core.Format.Principal.{
  principal_from_text, principal_to_text, account_checksum, lower_case,
}

-- `{ owner, subaccount }`, with `none` for null.
pub record Account : Type 0 where
  pub owner : Text
  pub subaccount : Option (List ℕ)

-- CHECKSUM_RE: /^[a-z2-7]{7}$/i.
unfoldable pub is_checksum_char : ℕ → Bool
is_checksum_char c = between b'a' b'z' c || between b'A' b'Z' c || between b'2' b'7' c

abbrev pub is_checksum : Text → Bool
is_checksum s = length s == 7 && all is_checksum_char s

abbrev pub starts_with_zero : Text → Bool
starts_with_zero [] = false
starts_with_zero (c ∷ s) = c == b'0'

-- From the principal on. The padded text has 64 hex digits here, so that the bytes are there.
abbrev pub read_subaccount : Text → Text → Option (List ℕ) → Result Account
read_subaccount before checksum none = err Code.hex
read_subaccount before checksum (some sub) = do
  owner ← principal_from_text (str before)
  fail_if (not (text_eq (account_checksum owner sub) (lower_case checksum))) Code.checksum
  text ← principal_to_text owner
  ok (record { owner = text; subaccount = some sub })

-- The principal and the checksum on the left of the point, and the hex text on its right.
unfoldable pub read_left : Option (Text × Text) → Text → Result Account
read_left none hex = err Code.checksum_missing
read_left (some (before, checksum)) hex = do
  fail_if (not (is_checksum checksum)) Code.checksum_missing
  fail_if (text_eq hex []) Code.not_canonical
  fail_if (not (all is_hex hex)) Code.hex
  fail_if (starts_with_zero hex) Code.not_canonical
  fail_if (ltb 64 (length hex)) Code.length
  read_subaccount before checksum (hex_to_bytes (pad_start hex 64))

abbrev pub is_some_split : Option (Text × Text) → Bool
is_some_split none = false
is_some_split (some parts) = true

unfoldable pub read_parts : Text → Option (Text × Text) → Result Account
unfolding read_left
read_parts text none = do
  owner ← principal_from_text (str text)
  canonical ← principal_to_text owner
  ok (record { owner = canonical; subaccount = none })
read_parts text (some (left, hex)) = do
  fail_if (is_some_split (split_first b'.' hex)) Code.syntax
  read_left (split_last b'-' left) hex

unfoldable pub parse_account : Value → Result Account
unfolding read_parts
parse_account input = do
  s ← require_string input
  let text = trim s
  fail_if (ltb max_input_chars (length text)) Code.too_long
  read_parts text (split_first b'.' text)

-- The argument of `displayAccount`: no object, or one with an owner and perhaps a subaccount.
pub data Owner : Type 0 where
  owner_text : Text → Owner
  owner_value : Blob → Owner

pub data AccountInput : Type 0 where
  not_object : AccountInput
  account_of : Owner → Option Blob → AccountInput

unfoldable pub owner_bytes : Owner → Result (List ℕ)
owner_bytes (owner_text s) = principal_from_text (str s)
owner_bytes (owner_value value) = do b ← to_bytes value; principal_to_text b >>= λ _. ok b

abbrev pub is_zero : List ℕ → Bool
is_zero = all (λ b. b == 0)

-- The text of an account that is not the default one.
unfoldable pub subaccount_text : List ℕ → Text → List ℕ → Text
subaccount_text owner text sub =
    text ++ (b'-' ∷ (account_checksum owner sub ++ (b'.' ∷ strip_start (bytes_to_hex sub))))

abbrev pub display_with : List ℕ → Text → Option Blob → Result Text
display_with owner text none = ok text
display_with owner text (some value) = do
  sub ← to_bytes value
  fail_if (not (length sub == 32)) Code.length
  if is_zero sub then ok text else ok (subaccount_text owner text sub)

unfoldable pub display_account : AccountInput → Result Text
unfolding owner_bytes subaccount_text
display_account not_object = err Code.type_error
display_account (account_of owner subaccount) = do
  bytes ← owner_bytes owner
  text ← principal_to_text bytes
  display_with bytes text subaccount
