-- ===== src/Format/Formatter/Blame.antt =====
-- What a formatter of profile/packages/format/src/formatter.mjs may say of a value that it is asked to
-- show: the errors of the tag and its arguments came before, when `formatterFor` made it.
pub mod Times
pub mod Parse
use candid_core.Common.{
  ℕ, Bool, true, false, not, ◌&&◌, ◌||◌, List, [], ◌∷◌, ◌≡◌, refl, ◌==◌, length, if◌then◌else◌,
  Option, none, some, ℤ, subst, sym, ap, ◌∙◌, arith, ltb, ◌*ℤ◌,
}
use candid_core.Format.Errors.{Code, Result, ok, err, ◌>>=◌, ◌>>◌, fail_if}
use candid_core.Format.Chars.{Text}
use candid_core.Format.Util.{
  max_input_chars, Value, IntType, int_type, TypeName, to_bigint, check_range,
}
use candid_core.Format.Blob.{Blob, view, numbers, no_blob, to_bytes}
use candid_core.Format.Principal.{
  lower_case, without_dashes, check_decoded, principal_from_text, principal_to_text,
}
use candid_core.Format.Principal.Base32.{base32_decode}
use candid_core.Format.Amount.{AmountOptions, display_amount, reached}
use candid_core.Format.Account.{
  Owner, owner_text, owner_value, AccountInput, not_object, account_of, owner_bytes, display_with,
  display_account, is_zero,
}
use candid_core.Format.Subaccount.{display_subaccount}
use candid_core.Format.Bytes.{display_bytes, is_unknown}
use candid_core.Format.Time.Rfc3339.{rfc3339_from_ns}
use candid_core.Format.Time.Tags.{
  TimeOptions, display_timestamp, display_duration, label_or, label_in, show_time,
}
use candid_core.Format.Formatter.{Formatter, bytes_of}
use candid_core.Format.Formatter.Run.{Shown, display, some_text, as_scalar, as_account, as_bytes}
use candid_core.Format.Formatter.Ready.{AmountReady, TimeReady, IsReady}

-- The codes of a tag or of its arguments.
abbrev pub is_tag_code : Code → Bool
is_tag_code Code.arg = true
is_tag_code Code.tag_type = true
is_tag_code Code.tag_conflict = true
is_tag_code Code.ref_unresolved = true
is_tag_code _ = false

-- A result, or an error of the value.
unfoldable pub BlamesValue : {A : Type 0} → Result A → Type 0
BlamesValue (ok a) = Unit {0}
BlamesValue (err code) = is_tag_code code ≡ false

module _ {A B : Type 0} where
  pub after :
      (step : Result A) (rest : A → Result B) {a : A}
      → step ≡ ok a
      → BlamesValue (rest a)
      → BlamesValue (step >>= rest)
  unfolding BlamesValue
  after step rest e h = rw e h

  pub chained :
      (step : Result A) (rest : A → Result B)
      → BlamesValue step
      → ((a : A) → BlamesValue (rest a))
      → BlamesValue (step >>= rest)
  unfolding BlamesValue
  chained (ok a) rest h k = k a
  chained (err code) rest h k = h

pub passed :
    {B : Type 0} (test : Bool) (code : Code) (rest : Result B)
    → test ≡ false
    → BlamesValue rest
    → BlamesValue (fail_if test code >> rest)
unfolding BlamesValue
passed test code rest e h = rw e h

pub failed :
    {B : Type 0} (test : Bool) (code : Code) (rest : Result B)
    → is_tag_code code ≡ false
    → BlamesValue rest
    → BlamesValue (fail_if test code >> rest)
unfolding BlamesValue
failed true code rest e h = e
failed false code rest e h = h

pub fine : {A : Type 0} (a : A) → BlamesValue (ok a)
unfolding BlamesValue
fine a = tt

pub branch :
    {A : Type 0} (test : Bool) (x y : Result A)
    → BlamesValue x
    → BlamesValue y
    → BlamesValue (if test then x else y)
branch true x y h k = h
branch false x y h k = k

pub to_bigint-BlamesValue : (v : Value) → BlamesValue (to_bigint v)
unfolding to_bigint BlamesValue
to_bigint-BlamesValue v = ground arith

pub check_range-BlamesValue : (v : ℤ) (t : IntType) → BlamesValue (check_range v t)
unfolding check_range BlamesValue
check_range-BlamesValue v t = ground arith

to_bytes-BlamesValue : (b : Blob) → BlamesValue (to_bytes b)
unfolding to_bytes BlamesValue
to_bytes-BlamesValue b = ground arith

pub principal_to_text-BlamesValue : (b : List ℕ) → BlamesValue (principal_to_text b)
unfolding principal_to_text BlamesValue
principal_to_text-BlamesValue b = ground arith

check_decoded-BlamesValue :
    (lower : Text) (found : Option (List ℕ)) → BlamesValue (check_decoded lower found)
unfolding check_decoded principal_to_text BlamesValue
check_decoded-BlamesValue lower found = ground arith

pub principal_from_text-BlamesValue : (v : Value) → BlamesValue (principal_from_text v)
unfolding principal_from_text BlamesValue
principal_from_text-BlamesValue (Value.str s) =
    failed (ltb max_input_chars (length s)) Code.too_long _ refl
      (check_decoded-BlamesValue (lower_case s) (base32_decode (without_dashes (lower_case s))))
principal_from_text-BlamesValue Value.undefined = refl
principal_from_text-BlamesValue Value.null = refl
principal_from_text-BlamesValue Value.other = refl
principal_from_text-BlamesValue (Value.big n) = refl
principal_from_text-BlamesValue (Value.num n) = refl

rfc3339_from_ns-BlamesValue : (n : ℤ) → BlamesValue (rfc3339_from_ns n)
unfolding rfc3339_from_ns BlamesValue
rfc3339_from_ns-BlamesValue n = ground arith

some_text-BlamesValue : (shown : Result Text) → BlamesValue shown → BlamesValue (some_text shown)
some_text-BlamesValue shown h = chained _ _ h (λ t. fine (some t))

display_amount-BlamesValue :
    (type : TypeName) (v : Value) (o : AmountOptions)
    → AmountReady type o
    → BlamesValue (display_amount v o)
unfolding display_amount
display_amount-BlamesValue type v o (_, (t, ht), (d, hd), (s, hs), (limit, text, hl, hm, alone)) =
    after _ _ hd (
      after _ _ hs (
        after _ _ hl (
          after _ _ hm (
            passed _ Code.arg _ alone (
              after _ _ ht (
                chained _ _ (to_bigint-BlamesValue v) (λ n.
                  chained _ _ (check_range-BlamesValue n t)
                    (λ _. branch (reached limit n) _ _ (fine _) (fine _)))))))))

show_time-BlamesValue :
    (limit : Option ℤ) (text : Option Text) (v : ℤ) (f : ℕ) → BlamesValue (show_time limit text v f)
show_time-BlamesValue limit text v f = branch (reached limit v) _ _ (fine text) (
    chained (rfc3339_from_ns (v *ℤ f)) _ (rfc3339_from_ns-BlamesValue (v *ℤ f))
      (λ t. fine (some t)))

label_or-BlamesValue :
    (label : Option (Option Text)) (shown : Result (Option Text))
    → BlamesValue shown
    → BlamesValue (label_or label shown)
label_or-BlamesValue none shown h = h
label_or-BlamesValue (some words) shown h = fine words

display_timestamp-BlamesValue :
    (type : TypeName) (v : Value) (o : TimeOptions)
    → TimeReady type o
    → BlamesValue (display_timestamp v o)
unfolding display_timestamp
display_timestamp-BlamesValue type v o
      (_, (t, ht), (f, hf), (limit, text, hl, hm, pair), (words, hw)) =
    after _ _ hf (
      after _ _ ht (
        after _ _ hl (
          after _ _ hm (
            passed _ Code.arg _ pair (
              after _ _ hw (
                chained _ _ (to_bigint-BlamesValue v) (λ n.
                  chained _ _ (check_range-BlamesValue n t) (λ _.
                    label_or-BlamesValue (label_in words n) _
                      (show_time-BlamesValue limit text n f)))))))))

display_duration-BlamesValue :
    (type : TypeName) (v : Value) (o : TimeOptions)
    → TimeReady type o
    → BlamesValue (display_duration v o)
unfolding display_duration
display_duration-BlamesValue type v o (_, (t, ht), (f, hf), _, _) = after _ _ hf (
    after _ _ ht (
      chained _ _ (to_bigint-BlamesValue v)
        (λ n. chained _ _ (check_range-BlamesValue n t) (λ _. fine _))))

owner_bytes-BlamesValue : (o : Owner) → BlamesValue (owner_bytes o)
unfolding owner_bytes
owner_bytes-BlamesValue (owner_text s) = principal_from_text-BlamesValue (Value.str s)
owner_bytes-BlamesValue (owner_value b) =
    chained _ _ (to_bytes-BlamesValue b)
      (λ bytes. chained _ _ (principal_to_text-BlamesValue bytes) (λ _. fine bytes))

display_with-BlamesValue :
    (owner : List ℕ) (text : Text) (sub : Option Blob) → BlamesValue (display_with owner text sub)
display_with-BlamesValue owner text none = fine text
display_with-BlamesValue owner text (some value) = chained _ _ (to_bytes-BlamesValue value) (λ sub.
    failed (not (length sub == 32)) Code.length _ refl (branch (is_zero sub) _ _ (fine _) (fine _)))

display_account-BlamesValue : (a : AccountInput) → BlamesValue (display_account a)
unfolding display_account BlamesValue
display_account-BlamesValue not_object = refl
display_account-BlamesValue (account_of owner sub) =
    chained (owner_bytes owner) _ (owner_bytes-BlamesValue owner) (λ bytes.
      chained (principal_to_text bytes) _ (principal_to_text-BlamesValue bytes)
        (λ text. display_with-BlamesValue bytes text sub))

display_subaccount-BlamesValue : (b : Blob) → BlamesValue (display_subaccount b)
unfolding display_subaccount
display_subaccount-BlamesValue b =
    chained _ _ (to_bytes-BlamesValue b)
      (λ bytes. failed (not (length bytes == 32)) Code.length _ refl (fine _))

pub display-BlamesValue :
    (type : TypeName) (f : Formatter) (v : Shown) → IsReady type f → BlamesValue (display f v)
unfolding display display_bytes
display-BlamesValue type (Formatter.amount_of o) v h =
    some_text-BlamesValue _ (display_amount-BlamesValue type (as_scalar v) o h)
display-BlamesValue type (Formatter.timestamp_of o) v h =
    display_timestamp-BlamesValue type (as_scalar v) o h
display-BlamesValue type (Formatter.duration_of o) v h =
    some_text-BlamesValue _ (display_duration-BlamesValue type (as_scalar v) o h)
display-BlamesValue type Formatter.account_of v h =
    some_text-BlamesValue _ (display_account-BlamesValue (as_account v))
display-BlamesValue type Formatter.subaccount_of v h =
    some_text-BlamesValue _ (display_subaccount-BlamesValue (as_bytes v))
display-BlamesValue type (bytes_of encoding max_len size) v (known, _, _) =
    some_text-BlamesValue _ (
      passed (is_unknown encoding) Code.arg _ known
        (chained _ _ (to_bytes-BlamesValue (as_bytes v)) (λ bytes. fine _)))
