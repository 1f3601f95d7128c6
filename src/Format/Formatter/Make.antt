-- ===== src/Format/Formatter/Make.antt =====
-- `formatterFor` of profile/packages/format/src/formatter.mjs: the checks of a tag's arguments, and
-- the formatter of a position. The resolved arguments that a formatter only describes are left out.
use candid_core.Common.{
  ℕ, Bool, true, false, not, ◌&&◌, ◌||◌, List, [], ◌∷◌, if◌then◌else◌, Option, none, some, text_eq,
  ℤ, pos,
}
use candid_core.Format.Errors.{Code, Result, ok, err, ◌>>=◌, ◌>>◌, fail_if}
use candid_core.Format.Chars.{Text, codes}
use candid_core.Format.Util.{Value, undefined, str, big, num, TypeName}
use candid_core.Format.Amount.{
  AmountOptions, amount_types, check_decimals, check_symbol, check_threshold, check_message,
  is_some,
}
use candid_core.Format.Bytes.{is_unknown, check_max_len}
use candid_core.Format.Time.Units.{TimeUnit}
use candid_core.Format.Time.Tags.{Labels, no_labels, TimeOptions, time_types, check_time_labels}
use candid_core.Format.Formatter.{
  Arg, literal, lookup, Args, raw_arg, resolve_arg, raw_value, raw_labels, Tag, amount, timestamp,
  duration, account, subaccount, bytes, tag_name, value_tags, absent, named_type, Position,
  no_position, position, Token, Options, Formatter, amount_of, timestamp_of, duration_of,
  account_of, subaccount_of, bytes_of, byte_types, byte_size, is_named, require_candid,
  require_unit, encoding_of,
}

abbrev pub is_undefined : Arg → Bool
is_undefined (literal undefined) = true
is_undefined _ = false

-- `x !== undefined && x !== wanted`
abbrev pub is_other_than : Text → Arg → Bool
is_other_than wanted (literal undefined) = false
is_other_than wanted (literal (str s)) = not (text_eq s wanted)
is_other_than wanted _ = true

-- `typeof x !== "string" || x === ""`
abbrev pub is_no_path : Arg → Bool
is_no_path (literal (str s)) = text_eq s []
is_no_path _ = true

abbrev pub or_undefined_text : Option Text → Value
or_undefined_text none = undefined
or_undefined_text (some s) = str s

abbrev pub or_undefined_number : Option ℤ → Value
or_undefined_number none = undefined
or_undefined_number (some n) = big n

abbrev pub token_given : Option Token → Result Token
token_given none = err Code.ref_unresolved
token_given (some token) = ok token

abbrev pub arg : Args → Options → Text → Result Value
arg raw o name = resolve_arg (raw_arg raw name) o.refs

abbrev pub check_pair : Value → Value → Result (ℕ × Option Text)
check_pair decimals symbol = do d ← check_decimals decimals; s ← check_symbol symbol; ok (d, s)

-- The decimals and the symbol of an amount: its token's, or its own.
abbrev pub token_unit : Args → Options → Result (ℕ × Option Text)
token_unit raw o = do
  fail_if (is_no_path (raw_arg raw (codes "token"))) Code.arg
  fail_if
      (not (is_undefined (raw_arg raw (codes "decimals")))
        || not (is_undefined (raw_arg raw (codes "symbol"))))
      Code.arg
  token ← token_given o.token
  check_pair token.decimals token.symbol

abbrev pub own_unit : Args → Options → Result (ℕ × Option Text)
own_unit raw o = do
  fail_if (is_undefined (raw_arg raw (codes "decimals"))) Code.arg
  decimals ← arg raw o (codes "decimals")
  d ← check_decimals decimals
  symbol ← arg raw o (codes "symbol")
  s ← check_symbol symbol
  ok (d, s)

unfoldable pub amount_unit : Args → Options → Result (ℕ × Option Text)
amount_unit raw o =
    if is_undefined (raw_arg raw (codes "token")) then own_unit raw o else token_unit raw o

-- The options that the functions close over.
abbrev pub amount_options : TypeName → ℕ → Option Text → Option ℤ → Option Text → AmountOptions
amount_options candid d s threshold message = record {
  decimals = num (pos d);
  symbol = or_undefined_text s;
  candid = candid;
  threshold = or_undefined_number threshold;
  message = or_undefined_text message;
}

abbrev pub time_options :
    TypeName → TimeUnit → Value → Option ℤ → Option Text → Labels → TimeOptions
time_options candid unit now threshold message labels = record {
  unit = unit;
  candid = candid;
  now = now;
  threshold = or_undefined_number threshold;
  message = or_undefined_text message;
  labels = labels;
}

unfoldable pub make_amount : TypeName → Args → Options → Result Formatter
unfolding amount_unit
make_amount candid raw o = do
  require_candid candid amount_types
  (d, s) ← amount_unit raw o
  threshold ← check_threshold (raw_value (raw_arg raw (codes "threshold")))
  message ← check_message (raw_value (raw_arg raw (codes "message")))
  fail_if (is_some message && not (is_some threshold)) Code.arg
  ok (amount_of (amount_options candid d s threshold message))

unfoldable pub make_timestamp : TypeName → Args → Options → Result Formatter
make_timestamp candid raw o = do
  require_candid candid time_types
  fail_if (is_other_than (codes "unix") (raw_arg raw (codes "epoch"))) Code.arg
  given ← arg raw o (codes "unit")
  unit ← require_unit given
  threshold ← check_threshold (raw_value (raw_arg raw (codes "threshold")))
  message ← check_message (raw_value (raw_arg raw (codes "message")))
  fail_if (not (is_some threshold) && is_some message || is_some threshold && not (is_some message))
      Code.arg
  labels ← check_time_labels (raw_labels (raw_arg raw (codes "labels")))
  ok (
      timestamp_of (
        time_options candid unit o.now threshold message
          (raw_labels (raw_arg raw (codes "labels")))))

unfoldable pub make_duration : TypeName → Args → Options → Result Formatter
make_duration candid raw o = do
  require_candid candid time_types
  given ← arg raw o (codes "unit")
  unit ← require_unit given
  ok (duration_of (time_options candid unit undefined none none no_labels))

unfoldable pub make_account : TypeName → Args → Result Formatter
make_account candid raw = do
  require_candid candid (is_named (codes "record"))
  fail_if (is_other_than (codes "icrc1") (raw_arg raw (codes "encoding"))) Code.arg
  ok account_of

unfoldable pub make_subaccount : TypeName → Result Formatter
make_subaccount candid = require_candid candid (is_named (codes "blob")) >> ok subaccount_of

-- `formatterFor` ends in `describeInput`, which makes a tag's checks again, and that of max_len.
unfoldable pub make_bytes : TypeName → Args → Options → Result Formatter
make_bytes candid raw o = do
  require_candid candid byte_types
  given ← arg raw o (codes "encoding")
  fail_if (is_unknown (encoding_of given)) Code.arg
  max ← check_max_len (raw_value (raw_arg raw (codes "max_len")))
  ok (bytes_of (encoding_of given) (raw_value (raw_arg raw (codes "max_len"))) (byte_size candid))

-- The switch on the tag.
unfoldable pub make : Tag → TypeName → Args → Options → Result Formatter
unfolding make_amount make_timestamp make_duration make_account make_subaccount make_bytes
make amount candid raw o = make_amount candid raw o
make timestamp candid raw o = make_timestamp candid raw o
make duration candid raw o = make_duration candid raw o
make account candid raw o = make_account candid raw
make subaccount candid raw o = make_subaccount candid
make bytes candid raw o = make_bytes candid raw o

-- The value tags that a position has, with their arguments, in VALUE_TAGS' order.
abbrev pub add_present : Tag → Option Args → List (Tag × Args) → List (Tag × Args)
add_present t none rest = rest
add_present t (some args) rest = (t, args) ∷ rest

unfoldable pub present : List Tag → List (Text × Args) → List (Tag × Args)
unfolding lookup
present [] tags = []
present (t ∷ ts) tags = add_present t (lookup (tag_name t) tags) (present ts tags)

-- The type of a position: Candid's, or the ABI's where there is no other.
abbrev pub type_of : Position → Result TypeName
type_of (position (named_type type) abi tags) = ok type
type_of (position absent (named_type type) tags) = ok type
type_of _ = err Code.type_error

abbrev pub tags_of : Position → List (Text × Args)
tags_of no_position = []
tags_of (position candid abi tags) = tags

abbrev pub some_formatter : Result Formatter → Result (Option Formatter)
some_formatter made = made >>= λ f. ok (some f)

abbrev pub make_only : TypeName → List (Tag × Args) → Options → Result (Option Formatter)
make_only type [] o = ok none
make_only type ((t, raw) ∷ []) o = some_formatter (make t type raw o)
make_only type (a ∷ b ∷ rest) o = err Code.tag_conflict

unfoldable pub formatter_for : Position → Options → Result (Option Formatter)
unfolding make present
formatter_for node o = do type ← type_of node; make_only type (present value_tags (tags_of node)) o
