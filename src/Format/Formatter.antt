-- ===== src/Format/Formatter.antt =====
-- profile/packages/format/src/formatter.mjs: a position of the resolved form, the arguments of its
-- tags, and the formatter that `formatterFor` binds to them.
pub mod Make
pub mod Run
pub mod Ready
pub mod Blame
pub mod Tests
use candid_core.Common.{
  ℕ, Bool, true, false, not, ◌&&◌, ◌||◌, List, [], ◌∷◌, leb, if◌then◌else◌, length, all, take, drop,
  Option, none, some, text_eq,
}
use candid_core.Format.Errors.{Code, Result, ok, err, ◌>>=◌, ◌>>◌, fail_if}
use candid_core.Format.Chars.{Text, is_digit, codes}
use candid_core.Format.Decimal.{value}
use candid_core.Format.Util.{
  Value, undefined, null, other, str, big, num, TypeName, is_canonical_nat,
}
use candid_core.Format.Amount.{AmountOptions, check_decimals}
use candid_core.Format.Bytes.{Encoding}
use candid_core.Format.Time.Units.{TimeUnit, unit_factor}
use candid_core.Format.Time.Tags.{Labels, no_labels, not_entries, entries, TimeOptions}

-- An argument of a tag: a literal, an object with a text under `from`, or an object without one,
-- with its entries.
pub data Arg : Type 0 where
  literal : Value → Arg
  dynamic : Text → Arg
  object : List (Text × Value) → Arg

-- An object by its keys: `o[key]`, and `Object.hasOwn(o, key)` where the value is none.
abbrev pub or_else {ℓ} : {A : Type ℓ} → Bool → A → Option A → Option A
or_else true a rest = some a
or_else false a rest = rest

unfoldable pub lookup {ℓ} : {A : Type ℓ} → Text → List (Text × A) → Option A
lookup key [] = none
lookup key ((k, a) ∷ rest) = or_else (text_eq k key) a (lookup key rest)

abbrev pub Args : Type 0
Args = List (Text × Arg)

abbrev or_undefined : Option Arg → Arg
or_undefined none = literal undefined
or_undefined (some a) = a

abbrev pub raw_arg : Args → Text → Arg
raw_arg args name = or_undefined (lookup name args)

abbrev given : Option Value → Result Value
given none = err Code.ref_unresolved
given (some v) = ok v

-- `resolveArg(arg, refs, where)`
unfoldable pub resolve_arg : Arg → List (Text × Value) → Result Value
unfolding lookup
resolve_arg (literal v) refs = ok v
resolve_arg (object es) refs = err Code.arg
resolve_arg (dynamic from) refs = do
  fail_if (text_eq from (codes "now") || text_eq from (codes "caller")) Code.arg
  given (lookup from refs)

-- An argument where a literal is wanted: an object is no text and no number.
abbrev pub raw_value : Arg → Value
raw_value (literal v) = v
raw_value _ = other

-- The labels argument, any object of which is a table.
abbrev pub raw_labels : Arg → Labels
raw_labels (literal undefined) = no_labels
raw_labels (literal null) = no_labels
raw_labels (literal v) = not_entries
raw_labels (dynamic from) = entries ((codes "from", str from) ∷ [])
raw_labels (object es) = entries es

pub data Tag : Type 0 where
  amount timestamp duration account subaccount bytes : Tag

abbrev pub tag_name : Tag → Text
tag_name amount = codes "amount"
tag_name timestamp = codes "timestamp"
tag_name duration = codes "duration"
tag_name account = codes "account"
tag_name subaccount = codes "subaccount"
tag_name bytes = codes "bytes"

-- VALUE_TAGS
abbrev pub value_tags : List Tag
value_tags = amount ∷ timestamp ∷ duration ∷ account ∷ subaccount ∷ bytes ∷ []

-- The `candid` or `abi` property of a position: absent, no text, or a text.
pub data Named : Type 0 where
  absent no_text : Named
  named_type : TypeName → Named

-- What `formatterFor` is given: no object, or one with its types and its tags.
pub data Position : Type 0 where
  no_position : Position
  position : Named → Named → List (Text × Args) → Position

pub record Token : Type 0 where
  pub decimals : Value
  pub symbol : Value

pub record Options : Type 0 where
  pub refs : List (Text × Value)
  pub now : Value
  pub token : Option Token

-- The functions `parse` and `display` of a formatter, by the options they close over.
pub data Formatter : Type 0 where
  amount_of : AmountOptions → Formatter
  timestamp_of duration_of : TimeOptions → Formatter
  account_of subaccount_of : Formatter
  bytes_of : Encoding → Value → Option ℕ → Formatter

-- `BYTE_TYPES.includes(name)`
unfoldable pub byte_types : TypeName → Bool
byte_types (TypeName.named s) =
    text_eq s (codes "blob")
    || text_eq s (codes "bytes")
    || (text_eq (take 5 s) (codes "bytes")
        && is_canonical_nat (drop 5 s)
        && leb 1 (value (drop 5 s))
        && leb (value (drop 5 s)) 32)
byte_types _ = false

-- /^bytes(\d+)$/.exec(name)?.[1], as a number.
unfoldable pub byte_size : TypeName → Option ℕ
byte_size (TypeName.named s) =
    if text_eq (take 5 s) (codes "bytes") && not (text_eq (drop 5 s) []) && all is_digit (drop 5 s)
    then some (value (drop 5 s))
    else none
byte_size _ = none

abbrev pub is_named : Text → TypeName → Bool
is_named wanted (TypeName.named s) = text_eq s wanted
is_named wanted _ = false

unfoldable pub require_candid : TypeName → (TypeName → Bool) → Result (Unit {0})
require_candid candid allowed = fail_if (not (allowed candid)) Code.tag_type

-- UNITS[unit] and the encodings, by their names.
abbrev pub unit_named : Text → TimeUnit
unit_named s =
    if text_eq s (codes "ns")
    then TimeUnit.ns
    else if text_eq s (codes "us")
    then TimeUnit.us
    else if text_eq s (codes "ms")
    then TimeUnit.ms
    else if text_eq s (codes "s")
    then TimeUnit.s
    else TimeUnit.unknown

abbrev pub unit_of : Value → TimeUnit
unit_of (str s) = unit_named s
unit_of _ = TimeUnit.unknown

unfoldable pub require_unit : Value → Result TimeUnit
require_unit undefined = err Code.arg
require_unit unit = do f ← unit_factor (unit_of unit); ok (unit_of unit)

abbrev pub encoding_named : Text → Encoding
encoding_named s =
    if text_eq s (codes "utf8")
    then Encoding.utf8
    else if text_eq s (codes "hex")
    then Encoding.hex
    else if text_eq s (codes "base64")
    then Encoding.base64
    else Encoding.unknown

abbrev pub encoding_of : Value → Encoding
encoding_of (str s) = encoding_named s
encoding_of _ = Encoding.unknown
