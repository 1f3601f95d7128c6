-- ===== src/Reconcile/Expected.antt =====
-- `expectedTransaction` of profile/packages/reconcile/src/index.mjs: the transaction that a call leaves
-- in the ledger's log.
use candid_core.Common.{ℕ, Bool, true, false, ◌&&◌, List, if◌then◌else◌, Option, none, some, ℤ}
use candid_core.Format.Errors.{Result, ok, err}
use candid_core.Format.Chars.{Text, codes}
use candid_core.Format.Util.{Value}
use candid_core.Format.Principal.{principal_from_text}
use candid_core.Reconcile.Icrc3.{Key, same_key, hex, zero_subaccount}

-- A field of the argument record: null or undefined, a bigint, readable bytes, or anything else.
pub data Field : Type 0 where
  nothing other : Field
  big : ℤ → Field
  bytes : List ℕ → Field

-- An account field: null, undefined or no object, or an object with these fields.
pub data Account : Type 0 where
  no_account : Account
  account : Value → Field → Account

pub record Arg : Type 0 where
  pub amount : Field
  pub created_at_time : Field
  pub fee : Field
  pub memo : Field
  pub from_subaccount : Field
  pub spender_subaccount : Field
  pub expires_at : Field
  pub expected_allowance : Field
  pub to : Account
  pub from : Account
  pub spender : Account

pub data Method : Type 0 where
  icrc1_transfer icrc2_approve icrc2_transfer_from unmapped : Method

-- The expected transaction. A field that the source leaves out is `none` or false.
pub record Expected : Type 0 where
  pub op : Text
  pub btype : Option Text
  pub ts : ℤ
  pub amt : ℤ
  pub memo : Option Text
  pub fee : Option ℤ
  pub from : Option Key
  pub to : Option Key
  pub spender : Option Key
  pub spender_optional : Bool
  pub expires_at : Option ℤ
  pub expected_allowance : Option ℤ

abbrev pub owner_key : Result (List ℕ) → Field → Option Key
owner_key (err code) sub = none
owner_key (ok owner) nothing = some (record { owner = hex owner; subaccount = zero_subaccount })
owner_key (ok owner) (bytes sub) = some (record { owner = hex owner; subaccount = hex sub })
owner_key (ok owner) _ = none

-- `keyOf`, and `accountKey`.
unfoldable pub key_of : Value → Field → Option Key
key_of owner sub = owner_key (principal_from_text owner) sub

unfoldable pub account_key : Account → Option Key
unfolding key_of
account_key no_account = none
account_key (account owner sub) = key_of owner sub

abbrev pub nat_or_null : Field → Option ℤ
nat_or_null (big n) = some n
nat_or_null _ = none

-- null, undefined or bytes.
abbrev pub is_bytes_or_nothing : Field → Bool
is_bytes_or_nothing nothing = true
is_bytes_or_nothing (bytes b) = true
is_bytes_or_nothing _ = false

abbrev pub memo_of : Field → Option Text
memo_of (bytes b) = some (hex b)
memo_of _ = none

abbrev pub is_some {ℓ} : {A : Type ℓ} → Option A → Bool
is_some none = false
is_some (some a) = true

-- What each method's transaction says, from the fields that all have.
module _ (ts amt : ℤ) (memo : Option Text) (fee : Option ℤ) (mint : Option Key) where
  abbrev common : Text → Option Text → Option Key → Option Key → Option Key → Bool → Expected
  common op btype from to spender optional = record {
    op = op;
    btype = btype;
    ts = ts;
    amt = amt;
    memo = memo;
    fee = fee;
    from = from;
    to = to;
    spender = spender;
    spender_optional = optional;
    expires_at = none;
    expected_allowance = none;
  }

  abbrev pub transfer_tx : Option Key → Option Key → Option Expected
  transfer_tx none to = none
  transfer_tx (some from) none = none
  transfer_tx (some from) (some to) =
      if same_key (some from) mint
      then some (common (codes "mint") none none (some to) none false)
      else if same_key (some to) mint
      then some (common (codes "burn") none (some from) none none false)
      else some (common (codes "xfer") (some (codes "1xfer")) (some from) (some to) none false)

  abbrev pub approve_tx : Option Key → Option Key → Option ℤ → Option ℤ → Option Expected
  approve_tx none from expires_at expected_allowance = none
  approve_tx (some spender) none expires_at expected_allowance = none
  approve_tx (some spender) (some from) expires_at expected_allowance = some (record {
    op = codes "approve";
    btype = none;
    ts = ts;
    amt = amt;
    memo = memo;
    fee = fee;
    from = some from;
    to = none;
    spender = some spender;
    spender_optional = false;
    expires_at = expires_at;
    expected_allowance = expected_allowance;
  })

  abbrev pub transfer_from_tx : Option Key → Option Key → Option Key → Option Expected
  transfer_from_tx (some from) (some to) (some spender) =
      let own = same_key (some spender) (some from) in
      if same_key (some from) mint
      then some (common (codes "mint") none none (some to) (some spender) own)
      else if same_key (some to) mint
      then some (common (codes "burn") none (some from) none (some spender) own)
      else some
          (common (codes "xfer") (some (codes "2xfer")) (some from) (some to) (some spender) own)
  transfer_from_tx _ _ _ = none

  abbrev pub method_tx : Method → Arg → Value → Option Expected
  method_tx icrc1_transfer arg caller =
      transfer_tx (key_of caller arg.from_subaccount) (account_key arg.to)
  method_tx icrc2_approve arg caller =
      approve_tx (account_key arg.spender) (key_of caller arg.from_subaccount)
        (nat_or_null arg.expires_at) (nat_or_null arg.expected_allowance)
  method_tx icrc2_transfer_from arg caller =
      transfer_from_tx (account_key arg.from) (account_key arg.to)
        (key_of caller arg.spender_subaccount)
  method_tx unmapped arg caller = none

-- Whether the fields that every method reads can be read.
unfoldable pub is_readable_call : Arg → Value → Bool
unfolding key_of
is_readable_call arg caller =
    is_bytes_or_nothing arg.memo
    && is_some (key_of caller nothing)
    && is_bytes_or_nothing arg.from_subaccount
    && is_bytes_or_nothing arg.spender_subaccount

abbrev pub stamped_transaction : Method → Arg → Value → Account → Field → Field → Option Expected
stamped_transaction method arg caller minting (big ts) (big amt) =
    if is_readable_call arg caller
    then method_tx ts amt (memo_of arg.memo) (nat_or_null arg.fee) (account_key minting) method arg
        caller
    else none
stamped_transaction method arg caller minting _ _ = none

-- `none` for an argument that is no object.
unfoldable pub expected_transaction : Method → Option Arg → Value → Account → Option Expected
unfolding is_readable_call account_key
expected_transaction method none caller minting = none
expected_transaction method (some arg) caller minting =
    stamped_transaction method arg caller minting arg.created_at_time arg.amount
