-- ===== src/Format/Formatter/Blame/Parse.antt =====
-- What a formatter of profile/packages/format/src/formatter.mjs may say of a text that it is asked to
-- read, and with Blame of a value that it is asked to show.
use candid_core.Common.{
  ℕ, false, not, List, [], ◌≡◌, refl, ◌==◌, ltb, length, all, Option, none, some, arith, text_eq,
}
use candid_core.Format.Errors.{Code, Result, ok, ◌>>=◌}
use candid_core.Format.Chars.{Text, trim}
use candid_core.Format.Util.{
  Value, IntType, TypeName, require_string, check_range, max_input_chars, is_hex, hex_to_bytes,
}
use candid_core.Format.Decimal.{pad_start}
use candid_core.Format.Split.{split_first, split_last}
use candid_core.Format.Principal.{
  lower_case, account_checksum, principal_from_text, principal_to_text,
}
use candid_core.Format.Amount.{
  AmountOptions, AmountMatch, amount_re, check_given, read_amount, read_match, parse_amount,
}
use candid_core.Format.Account.{
  read_subaccount, read_left, read_parts, parse_account, is_some_split, is_checksum,
  starts_with_zero,
}
use candid_core.Format.Subaccount
use candid_core.Format.Subaccount.{from_number, from_hex, parse_subaccount}
use candid_core.Format.Bytes.{
  Encoding, is_unknown, bytes_text, read_text, read_bytes, parse_bytes, max_bytes_input_chars, over,
  parse_hex, check_max_len,
}
use candid_core.Format.Bytes.Base64.{base64_decode, decode_parts}
use candid_core.Format.Formatter.{Position, Options, Formatter, bytes_of}
use candid_core.Format.Formatter.Make.{formatter_for}
use candid_core.Format.Formatter.Run.{
  Shown, Parsed, number_text, an_account, some_bytes, parse, display, check_size,
}
use candid_core.Format.Formatter.Ready.{AmountReady, IsReady, formatter_for-IsReady}
use candid_core.Format.Formatter.Blame.Times.{
  require_string-BlamesValue, parse_timestamp-BlamesValue, parse_duration-BlamesValue,
}
use candid_core.Format.Formatter.Blame.{
  BlamesValue, after, chained, passed, failed, fine, principal_from_text-BlamesValue,
  principal_to_text-BlamesValue, display-BlamesValue,
}

read_amount-BlamesValue :
    (m : AmountMatch) (d : ℕ) (expected : Option Text) (type : IntType)
    → BlamesValue (read_amount m d expected type)
unfolding read_amount check_given check_range BlamesValue
read_amount-BlamesValue m d expected type = ground arith

base64_decode-BlamesValue : (s : Text) → BlamesValue (base64_decode s)
unfolding base64_decode decode_parts BlamesValue
base64_decode-BlamesValue s = ground arith

read_bytes-BlamesValue : (e : Encoding) (s : Text) → BlamesValue (read_bytes e s)
unfolding read_text parse_hex BlamesValue
read_bytes-BlamesValue Encoding.utf8 s = ground arith
read_bytes-BlamesValue Encoding.hex s = ground arith
read_bytes-BlamesValue Encoding.base64 s = base64_decode-BlamesValue s
read_bytes-BlamesValue Encoding.unknown s = base64_decode-BlamesValue s

read_number-BlamesValue : (s : Text) → BlamesValue (Subaccount.read_subaccount s)
unfolding Subaccount.read_subaccount from_number BlamesValue
read_number-BlamesValue s = ground arith

parse_subaccount-BlamesValue : (v : Value) → BlamesValue (parse_subaccount v)
unfolding parse_subaccount
parse_subaccount-BlamesValue v =
    chained _ _ (require_string-BlamesValue v) (λ s. read_number-BlamesValue (trim s))

read_subaccount-BlamesValue :
    (before checksum : Text) (found : Option (List ℕ))
    → BlamesValue (read_subaccount before checksum found)
unfolding BlamesValue
read_subaccount-BlamesValue before checksum none = refl
read_subaccount-BlamesValue before checksum (some sub) =
    chained (principal_from_text (Value.str before)) _
      (principal_from_text-BlamesValue (Value.str before))
      (λ owner.
        failed (not (text_eq (account_checksum owner sub) (lower_case checksum))) Code.checksum _
          refl
          (chained (principal_to_text owner) _ (principal_to_text-BlamesValue owner) (λ t. tt)))

read_left-BlamesValue :
    (found : Option (Text × Text)) (hex : Text) → BlamesValue (read_left found hex)
unfolding read_left BlamesValue
read_left-BlamesValue none hex = refl
read_left-BlamesValue (some (before, checksum)) hex =
    failed (not (is_checksum checksum)) Code.checksum_missing _ refl (
      failed (text_eq hex []) Code.not_canonical _ refl (
        failed (not (all is_hex hex)) Code.hex _ refl (
          failed (starts_with_zero hex) Code.not_canonical _ refl (
            failed (ltb 64 (length hex)) Code.length _ refl
              (read_subaccount-BlamesValue before checksum (hex_to_bytes (pad_start hex 64)))))))

read_parts-BlamesValue :
    (s : Text) (found : Option (Text × Text)) → BlamesValue (read_parts s found)
unfolding read_parts
read_parts-BlamesValue s none =
    chained (principal_from_text (Value.str s)) _ (principal_from_text-BlamesValue (Value.str s))
      (λ owner.
        chained (principal_to_text owner) _ (principal_to_text-BlamesValue owner) (λ t. fine _))
read_parts-BlamesValue s (some (left, hex)) =
    failed (is_some_split (split_first b'.' hex)) Code.syntax _ refl
      (read_left-BlamesValue (split_last b'-' left) hex)

parse_account-BlamesValue : (v : Value) → BlamesValue (parse_account v)
unfolding parse_account
parse_account-BlamesValue v = chained (require_string v) _ (require_string-BlamesValue v) (λ s.
    failed (ltb max_input_chars (length (trim s))) Code.too_long _ refl
      (read_parts-BlamesValue (trim s) (split_first b'.' (trim s))))

read_found-BlamesValue :
    (m : Option AmountMatch) (d : ℕ) (expected : Option Text) (type : IntType)
    → BlamesValue (read_match m d expected type)
unfolding BlamesValue
read_found-BlamesValue none d expected type = refl
read_found-BlamesValue (some m) d expected type = read_amount-BlamesValue m d expected type

parse_amount-BlamesValue :
    (type : TypeName) (v : Value) (o : AmountOptions)
    → AmountReady type o
    → BlamesValue (parse_amount v o)
unfolding parse_amount
parse_amount-BlamesValue type v o (_, (t, ht), (d, hd), (s, hs), _) = after _ _ hd (
    after _ _ hs (
      after _ _ ht (
        chained _ _ (require_string-BlamesValue v)
          (λ text. read_found-BlamesValue (amount_re (trim text)) d s t))))

bytes_text-BlamesValue : (v : Value) → BlamesValue (bytes_text v)
unfolding BlamesValue
bytes_text-BlamesValue v = ground arith

parse_bytes-BlamesValue :
    (v max_len : Value) (e : Encoding) {max : Option ℕ}
    → is_unknown e ≡ false
    → check_max_len max_len ≡ ok max
    → BlamesValue (parse_bytes v e max_len)
unfolding parse_bytes
parse_bytes-BlamesValue v max_len e {max} known small = passed (is_unknown e) Code.arg _ known (
    after _ _ small (
      chained (bytes_text v) _ (bytes_text-BlamesValue v) (λ s.
        failed (ltb max_bytes_input_chars (length s)) Code.too_long _ refl (
          chained (read_bytes e s) _ (read_bytes-BlamesValue e s)
            (λ b. failed (over max (length b)) Code.max_len _ refl (fine b))))))

check_size-BlamesValue : (size : Option ℕ) (b : List ℕ) → BlamesValue (check_size size b)
unfolding check_size
check_size-BlamesValue none b = fine b
check_size-BlamesValue (some n) b = failed (not (length b == n)) Code.length _ refl (fine b)

module _ {A : Type 0} (wrap : A → Parsed) where
  wrapped : (read : Result A) → BlamesValue read → BlamesValue (read >>= λ a. ok (wrap a))
  wrapped read h = chained read _ h (λ a. fine (wrap a))

parse-BlamesValue :
    (type : TypeName) (f : Formatter) (input now : Value)
    → IsReady type f
    → BlamesValue (parse f input now)
unfolding parse
parse-BlamesValue type (Formatter.amount_of o) input now h =
    wrapped number_text _ (parse_amount-BlamesValue type input o h)
parse-BlamesValue type (Formatter.timestamp_of o) input now h =
    wrapped number_text _ (parse_timestamp-BlamesValue type input now o h)
parse-BlamesValue type (Formatter.duration_of o) input now h =
    wrapped number_text _ (parse_duration-BlamesValue type input o h)
parse-BlamesValue type Formatter.account_of input now h =
    wrapped an_account _ (parse_account-BlamesValue input)
parse-BlamesValue type Formatter.subaccount_of input now h =
    wrapped some_bytes _ (parse_subaccount-BlamesValue input)
parse-BlamesValue type (bytes_of encoding max_len size) input now (known, (max, small), _) =
    chained (parse_bytes input encoding max_len) _
      (parse_bytes-BlamesValue input max_len encoding known small)
      (λ b. wrapped some_bytes _ (check_size-BlamesValue size b))

-- A formatter that `formatterFor` gave reads or shows whatever it is given, or refuses it by an error of
-- the text or the value: never with the code of a tag or of a tag's arguments, which are E_ARG,
-- E_TAG_TYPE, E_TAG_CONFLICT and E_REF_UNRESOLVED.
pub formatter_for-BlamesValue :
    (node : Position) (o : Options) (f : Formatter) (input now : Value) (v : Shown)
    → formatter_for node o ≡ ok (some f)
    → BlamesValue (parse f input now) × BlamesValue (display f v)
formatter_for-BlamesValue node o f input now v h =
    let (type, raw, typed, only, fits, ready) = formatter_for-IsReady node o f h in
    (parse-BlamesValue type f input now ready, display-BlamesValue type f v ready)
