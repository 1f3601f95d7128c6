-- ===== src/Reconcile/Shape.antt =====
-- `expectedTransaction` of profile/packages/reconcile/src/index.mjs: what the expected transaction of a
-- call says, whatever the method.
use candid_core.Common.{
  true, false, ◌≡◌, refl, sym, ap, inl, inr, Option, none, some, Bool-cases, ℤ, subst,
}
use mathlib.Core.Option.{some-injective, none-ne-some}
use candid_core.Format.Chars.{Text, codes}
use candid_core.Format.Util.{Value}
use candid_core.Reconcile.Icrc3.{Key, same_key}
use candid_core.Reconcile.Expected.{
  Field, nothing, other, big, bytes, Account, Arg, Method, icrc1_transfer, icrc2_approve,
  icrc2_transfer_from, unmapped, Expected, account_key, key_of, transfer_tx, approve_tx,
  transfer_from_tx, method_tx, is_readable_call, stamped_transaction, expected_transaction,
}

-- The accounts of a call, by its method: who pays, who is paid, and who spends another's tokens.
abbrev pub payer : Method → Arg → Value → Option Key
payer icrc2_transfer_from arg caller = account_key arg.from
payer method arg caller = key_of caller arg.from_subaccount

abbrev pub payee : Method → Arg → Option Key
payee icrc2_approve arg = none
payee method arg = account_key arg.to

abbrev pub spender_of : Method → Arg → Value → Option Key
spender_of icrc2_approve arg caller = account_key arg.spender
spender_of icrc2_transfer_from arg caller = key_of caller arg.spender_subaccount
spender_of method arg caller = none

-- What a transaction names of these accounts, by its operation, where `mint` is the ledger's minting
-- account: the payer is left out of a mint, the payee out of a burn.
pub data Names (mint payer payee spender : Option Key) (e : Expected) : Type 0 where
  transfers :
      (from to : Key)
      → payer ≡ some from
      → payee ≡ some to
      → same_key (some from) mint ≡ false
      → same_key (some to) mint ≡ false
      → e.op ≡ codes "xfer"
      → e.from ≡ some from
      → e.to ≡ some to
      → e.spender ≡ spender
      → Names mint payer payee spender e
  mints :
      (from to : Key)
      → payer ≡ some from
      → payee ≡ some to
      → same_key (some from) mint ≡ true
      → e.op ≡ codes "mint"
      → e.from ≡ none
      → e.to ≡ some to
      → e.spender ≡ spender
      → Names mint payer payee spender e
  burns :
      (from to : Key)
      → payer ≡ some from
      → payee ≡ some to
      → same_key (some from) mint ≡ false
      → same_key (some to) mint ≡ true
      → e.op ≡ codes "burn"
      → e.from ≡ some from
      → e.to ≡ none
      → e.spender ≡ spender
      → Names mint payer payee spender e
  approves :
      (from by : Key)
      → payer ≡ some from
      → payee ≡ none
      → spender ≡ some by
      → e.op ≡ codes "approve"
      → e.from ≡ some from
      → e.to ≡ none
      → e.spender ≡ some by
      → Names mint payer payee spender e

pub record IsOf (mint payer payee spender : Option Key) (ts amt : ℤ) (e : Expected) : Type 0 where
  pub stamp : e.ts ≡ ts
  pub amount : e.amt ≡ amt
  pub names : Names mint payer payee spender e

module _ (ts amt : ℤ) (memo : Option Text) (fee : Option ℤ) (mint : Option Key) where
  -- From `some e ≡ some e'`, with what is known of the first.
  IsOf-some :
      {p r s : Option Key} {e e' : Expected}
      → e.ts ≡ ts
      → e.amt ≡ amt
      → Names mint p r s e
      → some e ≡ some e'
      → IsOf mint p r s ts amt e'
  IsOf-some {p} {r} {s} {e} {e'} stamp amount names h =
      subst (IsOf mint p r s ts amt) (some-injective e e' h)
        (record { stamp = stamp; amount = amount; names = names })

  transfer_tx-IsOf :
      (from to : Option Key) {e : Expected}
      → transfer_tx ts amt memo fee mint from to ≡ some e
      → IsOf mint from to none ts amt e
  transfer_tx-IsOf none to {e} h = absurd (none-ne-some e h)
  transfer_tx-IsOf (some f) none {e} h = absurd (none-ne-some e h)
  transfer_tx-IsOf (some f) (some t) h = elim (Bool-cases (same_key (some f) mint)) [
    | inl minting ↦
        IsOf-some refl refl (mints f t refl refl minting refl refl refl refl) (rw minting at h)
    | inr own_from ↦ elim (Bool-cases (same_key (some t) mint)) [
      | inl burning ↦
          IsOf-some refl refl (burns f t refl refl own_from burning refl refl refl refl)
            (rw (own_from, burning) at h)
      | inr own_to ↦
          IsOf-some refl refl (transfers f t refl refl own_from own_to refl refl refl refl)
            (rw (own_from, own_to) at h)
    ]
  ]

  transfer_from_tx-IsOf :
      (from to spender : Option Key) {e : Expected}
      → transfer_from_tx ts amt memo fee mint from to spender ≡ some e
      → IsOf mint from to spender ts amt e
  transfer_from_tx-IsOf none to s {e} h = absurd (none-ne-some e h)
  transfer_from_tx-IsOf (some f) none s {e} h = absurd (none-ne-some e h)
  transfer_from_tx-IsOf (some f) (some t) none {e} h = absurd (none-ne-some e h)
  transfer_from_tx-IsOf (some f) (some t) (some s) h = elim (Bool-cases (same_key (some f) mint)) [
    | inl minting ↦
        IsOf-some refl refl (mints f t refl refl minting refl refl refl refl) (rw minting at h)
    | inr own_from ↦ elim (Bool-cases (same_key (some t) mint)) [
      | inl burning ↦
          IsOf-some refl refl (burns f t refl refl own_from burning refl refl refl refl)
            (rw (own_from, burning) at h)
      | inr own_to ↦
          IsOf-some refl refl (transfers f t refl refl own_from own_to refl refl refl refl)
            (rw (own_from, own_to) at h)
    ]
  ]

  approve_tx-IsOf :
      (spender from : Option Key) (expires_at expected_allowance : Option ℤ) {e : Expected}
      → approve_tx ts amt memo fee mint spender from expires_at expected_allowance ≡ some e
      → IsOf mint from none spender ts amt e
  approve_tx-IsOf none from x y {e} h = absurd (none-ne-some e h)
  approve_tx-IsOf (some s) none x y {e} h = absurd (none-ne-some e h)
  approve_tx-IsOf (some s) (some f) x y h =
      IsOf-some refl refl (approves f s refl refl refl refl refl refl refl) h

  method_tx-IsOf :
      (method : Method) (arg : Arg) (caller : Value) {e : Expected}
      → method_tx ts amt memo fee mint method arg caller ≡ some e
      → IsOf mint
          (payer method arg caller)
          (payee method arg)
          (spender_of method arg caller)
          ts
          amt
          e
  method_tx-IsOf icrc1_transfer arg caller h = transfer_tx-IsOf _ _ h
  method_tx-IsOf icrc2_approve arg caller h = approve_tx-IsOf _ _ _ _ h
  method_tx-IsOf icrc2_transfer_from arg caller h = transfer_from_tx-IsOf _ _ _ h
  method_tx-IsOf unmapped arg caller {e} h = absurd (none-ne-some e h)

-- The names of a call's transaction.
abbrev pub CallNames : Method → Arg → Value → Account → Expected → Type 0
CallNames method arg caller minting =
    Names (account_key minting) (payer method arg caller) (payee method arg)
      (spender_of method arg caller)

stamped-IsOf :
    (method : Method) (arg : Arg) (caller : Value) (minting : Account) (ts amt : Field)
    {e : Expected}
    → stamped_transaction method arg caller minting ts amt ≡ some e
    → (ts ≡ big e.ts) × (amt ≡ big e.amt) × CallNames method arg caller minting e
stamped-IsOf method arg caller minting (big ts) (big amt) {e} h =
    elim (Bool-cases (is_readable_call arg caller)) [
      | inl can_read ↦
          let r = method_tx-IsOf ts amt _ _ _ method arg caller (rw can_read at h) in
          (ap big (sym r.stamp), ap big (sym r.amount), r.names)
      | inr cannot ↦ absurd (none-ne-some e (rw cannot at h))
    ]
stamped-IsOf method arg caller minting nothing amt {e} h = absurd (none-ne-some e h)
stamped-IsOf method arg caller minting other amt {e} h = absurd (none-ne-some e h)
stamped-IsOf method arg caller minting (bytes b) amt {e} h = absurd (none-ne-some e h)
stamped-IsOf method arg caller minting (big ts) nothing {e} h = absurd (none-ne-some e h)
stamped-IsOf method arg caller minting (big ts) other {e} h = absurd (none-ne-some e h)
stamped-IsOf method arg caller minting (big ts) (bytes b) {e} h = absurd (none-ne-some e h)

-- A call that has an expected transaction has a stamp and an amount, which are the transaction's, and the
-- transaction names the call's accounts: the payer, the payee and the spender, where the method has them.
-- It is a mint where the payer is the minting account, and leaves out the payer; it is a burn where only
-- the payee is, and leaves out the payee; a transfer where neither is. An approval names payer and spender.
pub expected_transaction-Names :
    (method : Method) (arg : Arg) (caller : Value) (minting : Account) {e : Expected}
    → expected_transaction method (some arg) caller minting ≡ some e
    → (arg.created_at_time ≡ big e.ts)
      × (arg.amount ≡ big e.amt)
      × CallNames method arg caller minting e
unfolding expected_transaction
expected_transaction-Names method arg caller minting h =
    stamped-IsOf method arg caller minting _ _ h
