-- ===== src/Format/Formatter/Ready.antt =====
-- What a formatter of profile/packages/format/src/formatter.mjs rests on: the one value tag of its
-- position, a type the tag applies to, and options that its functions will accept.
use mathlib.Core.Option.{none-ne-some, some-injective}
use candid_core.Common.{
  ℕ, Bool, true, false, not, ◌&&◌, ◌||◌, List, [], ◌∷◌, ◌≡◌, refl, sym, ap, ◌∙◌, subst, arith,
  Option, none, some, ℤ, pos, if◌then◌else◌, Option-cases, inl, inr,
}
use candid_core.Format.Errors.{Code, ok, >>=-eq-ok, >>-eq-ok, ok-injective}
use candid_core.Format.Chars.{Text, codes}
use candid_core.Format.Util.{
  IntType, int_types, int_type, Value, undefined, null, other, str, big, num, TypeName,
}
use candid_core.Format.Amount.{
  AmountOptions, amount_types, check_words, check_decimals, check_symbol, check_threshold,
  check_message, is_some,
}
use candid_core.Format.Bytes.{is_unknown, check_max_len}
use candid_core.Format.Time.Units.{TimeUnit, unit_factor}
use candid_core.Format.Time.Tags.{TimeOptions, time_types, check_time_labels, Words}
use candid_core.Format.Formatter.{
  Args, raw_arg, raw_value, raw_labels, Tag, amount, timestamp, duration, account, subaccount,
  bytes, value_tags, Position, Options, Formatter, amount_of, timestamp_of, duration_of, account_of,
  subaccount_of, bytes_of, byte_types, byte_size, is_named, require_candid, require_unit, unit_of,
  encoding_of,
}
use candid_core.Format.Formatter.Make.{
  is_undefined, or_undefined_text, or_undefined_number, token_given, arg, token_unit, own_unit,
  amount_unit, make_amount, make_timestamp, make_duration, make_account, amount_options,
  time_options, make_subaccount, make_bytes, make, present, type_of, tags_of, make_only,
  formatter_for,
}

abbrev pub tag_of : Formatter → Tag
tag_of (amount_of o) = amount
tag_of (timestamp_of o) = timestamp
tag_of (duration_of o) = duration
tag_of account_of = account
tag_of subaccount_of = subaccount
tag_of (bytes_of encoding max_len size) = bytes

-- The types a tag applies to, in CANDID_OF.
abbrev pub applies : Tag → TypeName → Bool
applies amount = amount_types
applies timestamp = time_types
applies duration = time_types
applies account = is_named (codes "record")
applies subaccount = is_named (codes "blob")
applies bytes = byte_types

-- The options that `parse` and `display` check again pass.
abbrev pub AmountReady : TypeName → AmountOptions → Type 0
AmountReady type o =
    (o.candid ≡ type)
    × ((t : IntType) × (int_type o.candid amount_types ≡ ok t))
    × ((d : ℕ) × (check_decimals o.decimals ≡ ok d))
    × ((s : Option Text) × (check_symbol o.symbol ≡ ok s))
    × ((limit : Option ℤ) × (text : Option Text) × (check_threshold o.threshold ≡ ok limit)
        × (check_message o.message ≡ ok text)
        × ((is_some text && not (is_some limit)) ≡ false))

abbrev pub TimeReady : TypeName → TimeOptions → Type 0
TimeReady type o =
    (o.candid ≡ type)
    × ((t : IntType) × (int_type o.candid time_types ≡ ok t))
    × ((f : ℕ) × (unit_factor o.unit ≡ ok f))
    × ((limit : Option ℤ) × (text : Option Text) × (check_threshold o.threshold ≡ ok limit)
        × (check_message o.message ≡ ok text)
        × ((not (is_some limit) && is_some text || is_some limit && not (is_some text)) ≡ false))
    × ((words : Option Words) × (check_time_labels o.labels ≡ ok words))

abbrev pub IsReady : TypeName → Formatter → Type 0
IsReady type (amount_of o) = AmountReady type o
IsReady type (timestamp_of o) = TimeReady type o
IsReady type (duration_of o) = TimeReady type o
IsReady type account_of = Unit {0}
IsReady type subaccount_of = Unit {0}
IsReady type (bytes_of encoding max_len size) =
    (is_unknown encoding ≡ false)
    × ((max : Option ℕ) × (check_max_len max_len ≡ ok max))
    × (size ≡ byte_size type)

-- A type in a tag's list is an integer type.
found : Option IntType → Bool
found none = false
found (some t) = true

int_type-found :
    (type : TypeName) (allowed : TypeName → Bool)
    → allowed type ≡ true
    → found (int_types type) ≡ true
    → (t : IntType) × (int_type type allowed ≡ ok t)
unfolding int_type found
int_type-found type allowed h k = elim (Option-cases (int_types type)) [
  | inl e ↦ cc
  | inr (t, e) ↦ (t, rw (h, e) refl)
]

amount_types-found : (type : TypeName) → amount_types type ≡ true → found (int_types type) ≡ true
unfolding amount_types int_types found
amount_types-found type h = ground arith

time_types-found : (type : TypeName) → time_types type ≡ true → found (int_types type) ≡ true
unfolding time_types int_types found
time_types-found type h = ground arith

-- The checks accept what they gave.
check_words-eq-ok : (x : Text) {s : Option Text} → check_words x ≡ ok s → some x ≡ s
unfolding check_words
check_words-eq-ok x h =
    let (_, h1) = >>-eq-ok _ Code.arg _ h in
    let (_, h2) = >>-eq-ok _ Code.arg _ h1 in ok-injective h2

symbol_again :
    (v : Value) {s : Option Text}
    → check_symbol v ≡ ok s
    → check_symbol (or_undefined_text s) ≡ ok s
unfolding check_symbol
symbol_again undefined h = rw (sym (ok-injective h)) refl
symbol_again null h = rw (sym (ok-injective h)) refl
symbol_again (str x) h =
    subst (λ s. check_symbol (or_undefined_text s) ≡ ok s) (check_words-eq-ok x h)
      (h ∙ ap ok (sym (check_words-eq-ok x h)))
symbol_again other h = cc
symbol_again (big n) h = cc
symbol_again (num n) h = cc

message_again :
    (v : Value) {s : Option Text}
    → check_message v ≡ ok s
    → check_message (or_undefined_text s) ≡ ok s
unfolding check_message
message_again undefined h = rw (sym (ok-injective h)) refl
message_again null h = rw (sym (ok-injective h)) refl
message_again (str x) h =
    subst (λ s. check_message (or_undefined_text s) ≡ ok s) (check_words-eq-ok x h)
      (h ∙ ap ok (sym (check_words-eq-ok x h)))
message_again other h = cc
message_again (big n) h = cc
message_again (num n) h = cc

decimals_again : (v : Value) {d : ℕ} → check_decimals v ≡ ok d → check_decimals (num (pos d)) ≡ ok d
unfolding check_decimals
decimals_again v h = ground arith

threshold_again :
    (v : Value) {limit : Option ℤ}
    → check_threshold v ≡ ok limit
    → check_threshold (or_undefined_number limit) ≡ ok limit
unfolding check_threshold
threshold_again v h = ground arith

abbrev UnitReady : ℕ → Option Text → Type 0
UnitReady d s = (check_decimals (num (pos d)) ≡ ok d) × (check_symbol (or_undefined_text s) ≡ ok s)

own_unit-ready :
    (raw : Args) (o : Options) {d : ℕ} {s : Option Text}
    → own_unit raw o ≡ ok (d, s)
    → UnitReady d s
own_unit-ready raw o h =
    let (_, h1) = >>-eq-ok _ Code.arg _ h in
    let (decimals, _, h2) = >>=-eq-ok (arg raw o (codes "decimals")) _ h1 in
    let (d, hd, h3) = >>=-eq-ok (check_decimals decimals) _ h2 in
    let (symbol, _, h4) = >>=-eq-ok (arg raw o (codes "symbol")) _ h3 in
    let (s, hs, h5) = >>=-eq-ok (check_symbol symbol) _ h4 in
    subst (λ p. UnitReady p.0 p.1) (ok-injective h5)
      (decimals_again decimals hd, symbol_again symbol hs)

token_unit-ready :
    (raw : Args) (o : Options) {d : ℕ} {s : Option Text}
    → token_unit raw o ≡ ok (d, s)
    → UnitReady d s
token_unit-ready raw o h =
    let (_, h1) = >>-eq-ok _ Code.arg _ h in
    let (_, h2) = >>-eq-ok _ Code.arg _ h1 in
    let (token, _, h3) = >>=-eq-ok (token_given o.token) _ h2 in
    let (d, hd, h4) = >>=-eq-ok (check_decimals token.decimals) _ h3 in
    let (s, hs, h5) = >>=-eq-ok (check_symbol token.symbol) _ h4 in
    subst (λ p. UnitReady p.0 p.1) (ok-injective h5)
      (decimals_again token.decimals hd, symbol_again token.symbol hs)

-- What holds of either branch's result.
either_branch :
    (test : Bool) {A P : Type 0} {x y r : A}
    → (x ≡ r → P)
    → (y ≡ r → P)
    → (if test then x else y) ≡ r
    → P
either_branch true f g h = f h
either_branch false f g h = g h

amount_unit-ready :
    (raw : Args) (o : Options) {d : ℕ} {s : Option Text}
    → amount_unit raw o ≡ ok (d, s)
    → UnitReady d s
unfolding amount_unit
amount_unit-ready raw o h =
    either_branch (is_undefined (raw_arg raw (codes "token"))) (own_unit-ready raw o)
      (token_unit-ready raw o) h

require_unit-ready :
    (v : Value) {unit : TimeUnit} → require_unit v ≡ ok unit → (f : ℕ) × (unit_factor unit ≡ ok f)
unfolding require_unit unit_factor
require_unit-ready undefined h = cc
require_unit-ready null h = cc
require_unit-ready other h = cc
require_unit-ready (big n) h = cc
require_unit-ready (num n) h = cc
require_unit-ready (str x) h =
    let (f, known, h1) = >>=-eq-ok (unit_factor (unit_of (str x))) _ h in
    (f, ap unit_factor (sym (ok-injective h1)) ∙ known)

-- The formatter has the tag and the type's options pass.
abbrev Made : Tag → TypeName → Formatter → Type 0
Made t type f = (tag_of f ≡ t) × (applies t type ≡ true) × IsReady type f

allowed-candid :
    (type : TypeName) (allowed : TypeName → Bool) {result : Unit {0}}
    → require_candid type allowed ≡ ok result
    → allowed type ≡ true
unfolding require_candid
allowed-candid type allowed h = ground arith

fits_and_ready :
    (t : Tag) (type : TypeName) (g : Formatter) {f : Formatter}
    → applies t type ≡ true
    → tag_of g ≡ t
    → ok g ≡ ok f
    → IsReady type g
    → Made t type f
fits_and_ready t type g fits tagged same ready =
    subst (Made t type) (ok-injective same) (tagged, fits, ready)

amount_type :
    (type : TypeName) {result : Unit {0}}
    → require_candid type amount_types ≡ ok result
    → (t : IntType) × (int_type type amount_types ≡ ok t)
amount_type type h =
    let fits = allowed-candid type amount_types h in
    int_type-found type amount_types fits (amount_types-found type fits)

time_type :
    (type : TypeName) {result : Unit {0}}
    → require_candid type time_types ≡ ok result
    → (t : IntType) × (int_type type time_types ≡ ok t)
time_type type h =
    let fits = allowed-candid type time_types h in
    int_type-found type time_types fits (time_types-found type fits)

make_account-Made :
    (type : TypeName) (raw : Args) {f : Formatter}
    → make_account type raw ≡ ok f
    → Made account type f
unfolding make_account
make_account-Made type raw h =
    let (_, fits, h1) = >>=-eq-ok (require_candid type (applies account)) _ h in
    let (_, h2) = >>-eq-ok _ Code.arg _ h1 in
    fits_and_ready account type _ (allowed-candid type _ fits) refl h2 tt

make_subaccount-Made :
    (type : TypeName) {f : Formatter} → make_subaccount type ≡ ok f → Made subaccount type f
unfolding make_subaccount
make_subaccount-Made type h =
    let (_, fits, h1) = >>=-eq-ok (require_candid type (applies subaccount)) _ h in
    fits_and_ready subaccount type _ (allowed-candid type _ fits) refl h1 tt

make_bytes-Made :
    (type : TypeName) (raw : Args) (o : Options) {f : Formatter}
    → make_bytes type raw o ≡ ok f
    → Made bytes type f
unfolding make_bytes
make_bytes-Made type raw o h =
    let (_, fits, h1) = >>=-eq-ok (require_candid type (applies bytes)) _ h in
    let (given, _, h2) = >>=-eq-ok (arg raw o (codes "encoding")) _ h1 in
    let (known, h3) = >>-eq-ok _ Code.arg _ h2 in
    let (max, small, h4) =
      >>=-eq-ok (check_max_len (raw_value (raw_arg raw (codes "max_len")))) _ h3 in
    fits_and_ready bytes type
      (bytes_of (encoding_of given) (raw_value (raw_arg raw (codes "max_len"))) (byte_size type))
      (allowed-candid type _ fits) refl h4 (known, (max, small), refl)

make_duration-Made :
    (type : TypeName) (raw : Args) (o : Options) {f : Formatter}
    → make_duration type raw o ≡ ok f
    → Made duration type f
unfolding make_duration check_threshold check_message check_time_labels
make_duration-Made type raw o h =
    let (_, fits, h1) = >>=-eq-ok (require_candid type (applies duration)) _ h in
    let (given, _, h2) = >>=-eq-ok (arg raw o (codes "unit")) _ h1 in
    let (unit, known, h3) = >>=-eq-ok (require_unit given) _ h2 in
    fits_and_ready duration type _ (allowed-candid type _ fits) refl h3 (
      refl,
      time_type type fits,
      require_unit-ready given known,
      (none, none, refl, refl, refl),
      (none, refl),
    )

make_timestamp-Made :
    (type : TypeName) (raw : Args) (o : Options) {f : Formatter}
    → make_timestamp type raw o ≡ ok f
    → Made timestamp type f
unfolding make_timestamp
make_timestamp-Made type raw o h =
    let (_, fits, h1) = >>=-eq-ok (require_candid type (applies timestamp)) _ h in
    let (_, h2) = >>-eq-ok _ Code.arg _ h1 in
    let (given, _, h3) = >>=-eq-ok (arg raw o (codes "unit")) _ h2 in
    let (unit, known, h4) = >>=-eq-ok (require_unit given) _ h3 in
    let (limit, hl, h5) =
      >>=-eq-ok (check_threshold (raw_value (raw_arg raw (codes "threshold")))) _ h4 in
    let (text, ht, h6) =
      >>=-eq-ok (check_message (raw_value (raw_arg raw (codes "message")))) _ h5 in
    let (pair, h7) = >>-eq-ok _ Code.arg _ h6 in
    let (words, hw, h8) =
      >>=-eq-ok (check_time_labels (raw_labels (raw_arg raw (codes "labels")))) _ h7 in
    fits_and_ready timestamp type
      (timestamp_of
        (time_options type unit o.now limit text (raw_labels (raw_arg raw (codes "labels")))))
      (allowed-candid type _ fits) refl h8
      (
        refl,
        time_type type fits,
        require_unit-ready given known,
        (limit, text, threshold_again _ hl, message_again _ ht, pair),
        (words, hw),
      )

make_amount-Made :
    (type : TypeName) (raw : Args) (o : Options) {f : Formatter}
    → make_amount type raw o ≡ ok f
    → Made amount type f
unfolding make_amount
make_amount-Made type raw o h =
    let (_, fits, h1) = >>=-eq-ok (require_candid type (applies amount)) _ h in
    let ((d, s), unit, h2) = >>=-eq-ok (amount_unit raw o) _ h1 in
    let (hd, hs) = amount_unit-ready raw o unit in
    let (limit, hl, h3) =
      >>=-eq-ok (check_threshold (raw_value (raw_arg raw (codes "threshold")))) _ h2 in
    let (text, ht, h4) =
      >>=-eq-ok (check_message (raw_value (raw_arg raw (codes "message")))) _ h3 in
    let (alone, h5) = >>-eq-ok _ Code.arg _ h4 in
    fits_and_ready amount type (amount_of (amount_options type d s limit text))
      (allowed-candid type _ fits) refl h5
      (
        refl,
        amount_type type fits,
        (d, hd),
        (s, hs),
        (limit, text, threshold_again _ hl, message_again _ ht, alone),
      )

make-Made :
    (t : Tag) (type : TypeName) (raw : Args) (o : Options) {f : Formatter}
    → make t type raw o ≡ ok f
    → Made t type f
unfolding make
make-Made amount type raw o h = make_amount-Made type raw o h
make-Made timestamp type raw o h = make_timestamp-Made type raw o h
make-Made duration type raw o h = make_duration-Made type raw o h
make-Made account type raw o h = make_account-Made type raw h
make-Made subaccount type raw o h = make_subaccount-Made type h
make-Made bytes type raw o h = make_bytes-Made type raw o h

only-Made :
    (type : TypeName) (ps : List (Tag × Args)) (o : Options) {f : Formatter}
    → make_only type ps o ≡ ok (some f)
    → (raw : Args) × (ps ≡ (tag_of f, raw) ∷ []) × (applies (tag_of f) type ≡ true) × IsReady type f
only-Made type [] o h = absurd (none-ne-some _ (ok-injective h))
only-Made type ((t, raw) ∷ []) o {f} h =
    let (g, made, h1) = >>=-eq-ok (make t type raw o) _ h in
    let (tagged, fits, ready) =
      subst (Made t type) (some-injective g f (ok-injective h1)) (make-Made t type raw o made) in
    (
      raw,
      ap (λ u. (u, raw) ∷ []) (sym tagged),
      subst (λ u. applies u type ≡ true) (sym tagged) fits,
      ready,
    )
only-Made type (a ∷ b ∷ rest) o h = cc

-- A formatter that a position gets stands for its only value tag, on a type that the tag applies to, and
-- every check that its functions make of the tag's arguments they close over passes: the integer type,
-- decimals, symbol, threshold and message of an amount, the integer type, unit, threshold, message and
-- labels of a time, the encoding and the greatest length of bytes.
pub formatter_for-IsReady :
    (node : Position) (o : Options) (f : Formatter)
    → formatter_for node o ≡ ok (some f)
    → (type : TypeName) × (raw : Args) × (type_of node ≡ ok type)
      × (present value_tags (tags_of node) ≡ (tag_of f, raw) ∷ [])
      × (applies (tag_of f) type ≡ true)
      × IsReady type f
unfolding formatter_for
formatter_for-IsReady node o f h =
    let (type, typed, h1) = >>=-eq-ok (type_of node) _ h in
    let (raw, only, fits, ready) = only-Made type (present value_tags (tags_of node)) o h1 in
    (type, raw, typed, only, fits, ready)
