-- ===== src/Format/Formatter/Run.antt =====
-- The functions of a formatter of profile/packages/format/src/formatter.mjs: `parse`, `display`,
-- `safeParse` and `safeDisplay`.
use candid_core.Common.{ℕ, not, List, Option, none, some, ◌==◌, length}
use candid_core.Format.Errors.{Code, Result, ok, ◌>>=◌, ◌>>◌, fail_if}
use candid_core.Format.Chars.{Text}
use candid_core.Format.Util.{Value, undefined, null, other}
use candid_core.Format.Blob.{Blob, no_blob}
use candid_core.Format.Amount.{parse_amount, display_amount}
use candid_core.Format.Account.{Account, AccountInput, not_object, parse_account, display_account}
use candid_core.Format.Subaccount.{parse_subaccount, display_subaccount}
use candid_core.Format.Bytes.{parse_bytes, display_bytes}
use candid_core.Format.Time.Tags.{
  TimeOptions, parse_timestamp, display_timestamp, parse_duration, display_duration,
}
use candid_core.Format.Formatter.{
  Formatter, amount_of, timestamp_of, duration_of, account_of, subaccount_of, bytes_of,
}

-- What a formatter reads a text to.
pub data Parsed : Type 0 where
  number_text : Text → Parsed
  an_account : Account → Parsed
  some_bytes : List ℕ → Parsed

-- What it is asked to show: a number or a text, an account, or bytes.
pub data Shown : Type 0 where
  scalar : Value → Shown
  account_value : AccountInput → Shown
  bytes_value : Blob → Shown

abbrev pub as_scalar : Shown → Value
as_scalar (scalar v) = v
as_scalar _ = other

abbrev pub as_account : Shown → AccountInput
as_account (account_value a) = a
as_account _ = not_object

abbrev pub as_bytes : Shown → Blob
as_bytes (bytes_value b) = b
as_bytes _ = no_blob

-- `ctx.now ?? defaultNow`
abbrev pub now_or : Value → Value → Value
now_or undefined own = own
now_or null own = own
now_or now own = now

abbrev pub at : TimeOptions → Value → TimeOptions
at o now = record {
  unit = o.unit;
  candid = o.candid;
  now = now_or now o.now;
  threshold = o.threshold;
  message = o.message;
  labels = o.labels;
}

-- bytesN holds exactly N bytes.
unfoldable pub check_size : Option ℕ → List ℕ → Result (List ℕ)
check_size none b = ok b
check_size (some n) b = fail_if (not (length b == n)) Code.length >> ok b

unfoldable pub parse : Formatter → Value → Value → Result Parsed
unfolding check_size
parse (amount_of o) input now = parse_amount input o >>= λ t. ok (number_text t)
parse (timestamp_of o) input now = parse_timestamp input (at o now) >>= λ t. ok (number_text t)
parse (duration_of o) input now = parse_duration input o >>= λ t. ok (number_text t)
parse account_of input now = parse_account input >>= λ a. ok (an_account a)
parse subaccount_of input now = parse_subaccount input >>= λ b. ok (some_bytes b)
parse (bytes_of encoding max_len size) input now = do
  b ← parse_bytes input encoding max_len
  sized ← check_size size b
  ok (some_bytes sized)

abbrev pub some_text : Result Text → Result (Option Text)
some_text shown = shown >>= λ t. ok (some t)

-- A message may be a label's absent words.
unfoldable pub display : Formatter → Shown → Result (Option Text)
display (amount_of o) v = some_text (display_amount (as_scalar v) o)
display (timestamp_of o) v = display_timestamp (as_scalar v) o
display (duration_of o) v = some_text (display_duration (as_scalar v) o)
display account_of v = some_text (display_account (as_account v))
display subaccount_of v = some_text (display_subaccount (as_bytes v))
display (bytes_of encoding max_len size) v = some_text (display_bytes (as_bytes v) encoding)
