-- ===== src/Reconcile/Match.antt =====
-- `readable`, `blockMatches`, `looksLikeIt` and `namesAnother` of
-- profile/packages/reconcile/src/index.mjs: what a block says of an expected transaction.
use candid_core.Common.{
  ◌-◌, ◌^◌, Bool, true, false, not, ◌&&◌, ◌||◌, Option, none, some, ℤ, pos, eq_ℤ, ltb_ℤ, text_eq,
}
use candid_core.Format.Chars.{Text, codes}
use candid_core.Reconcile.Icrc3.{
  Icrc3, undefined, blob, Key, same_key, hex, get, nat_of, text_of, is_undefined, opt_nat,
  opt_nat_is, op_of, key_of_value,
}
use candid_core.Reconcile.Expected.{Expected, is_some}

abbrev pub u64_max : ℤ
u64_max = pos (2 ^ 64 - 1)

-- `===` of two numbers, and of two texts, either of which may be undefined.
abbrev pub is_number : Option ℤ → ℤ → Bool
is_number none n = false
is_number (some m) n = eq_ℤ m n

abbrev pub is_text : Option Text → Text → Bool
is_text none t = false
is_text (some s) t = text_eq s t

abbrev pub tx_of : Icrc3 → Icrc3
tx_of block = get block (codes "tx")

abbrev pub btype_of : Icrc3 → Option Text
btype_of block = text_of (get block (codes "btype"))

unfoldable pub readable : Icrc3 → Bool
readable block =
    is_some (op_of block)
    && is_some (nat_of (get (tx_of block) (codes "amt")))
    && (is_undefined (get (tx_of block) (codes "ts"))
        || is_some (nat_of (get (tx_of block) (codes "ts"))))

-- Both block types are known and they differ.
abbrev pub btypes_differ : Option Text → Option Text → Bool
btypes_differ (some a) (some b) = not (text_eq a b)
btypes_differ _ _ = false

-- A spender's own transfer, in a block that a transfer could have left as well.
abbrev pub is_ambiguous : Icrc3 → Expected → Bool
is_ambiguous block e =
    text_eq e.op (codes "xfer")
    && e.spender_optional
    && not (is_text (btype_of block) (codes "2xfer"))

-- What `blockMatches` and `namesAnother` ask first.
unfoldable pub same_operation : Icrc3 → Expected → Bool
same_operation block e =
    is_text (op_of block) e.op
    && not (btypes_differ (btype_of block) e.btype)
    && not (is_ambiguous block e)

abbrev pub memo_is : Icrc3 → Option Text → Bool
memo_is undefined none = true
memo_is (blob bytes) (some t) = text_eq (hex bytes) t
memo_is _ _ = false

-- One account of the block and of the call: both name it, or neither does.
abbrev pub side_is : Icrc3 → Option Key → Bool
side_is have none = is_undefined have
side_is have (some want) = same_key (key_of_value have) (some want)

abbrev pub spender_is : Icrc3 → Expected → Bool
spender_is block e =
    let have = get (tx_of block) (codes "spender") in
    e.spender_optional && is_undefined have && is_text (btype_of block) (codes "2xfer")
    || side_is have e.spender

abbrev pub approval_is : Icrc3 → Expected → Bool
approval_is tx e =
    not (text_eq e.op (codes "approve"))
    || (opt_nat_is (opt_nat tx (codes "expires_at")) e.expires_at
        && opt_nat_is (opt_nat tx (codes "expected_allowance")) e.expected_allowance)

-- `blockMatches(block, expected)`, for an expected transaction that there is.
unfoldable pub block_matches : Icrc3 → Expected → Bool
unfolding same_operation
block_matches block e =
    let tx = tx_of block in
    not (is_undefined tx)
    && same_operation block e
    && is_number (nat_of (get tx (codes "ts"))) e.ts
    && is_number (nat_of (get tx (codes "amt"))) e.amt
    && opt_nat_is (opt_nat tx (codes "fee")) e.fee
    && memo_is (get tx (codes "memo")) e.memo
    && side_is (get tx (codes "from")) e.from
    && side_is (get tx (codes "to")) e.to
    && spender_is block e
    && approval_is tx e

-- Both read as accounts, and they differ.
abbrev pub another_account : Option Key → Option Key → Bool
another_account (some have) (some want) = not (same_key (some have) (some want))
another_account _ _ = false

unfoldable pub names_another : Icrc3 → Expected → Bool
unfolding same_operation
names_another block e =
    same_operation block e
    && (another_account (key_of_value (get (tx_of block) (codes "to"))) e.to
        || another_account (key_of_value (get (tx_of block) (codes "spender"))) e.spender)

-- The amount, where one above the largest u64 counts as that one too.
abbrev pub is_amount : Option ℤ → ℤ → Bool
is_amount amt expected = is_number amt expected || (ltb_ℤ u64_max expected && is_number amt u64_max)

unfoldable pub looks_like_it : Icrc3 → Expected → Bool
unfolding names_another
looks_like_it block e =
    let tx = tx_of block in
    is_number (nat_of (get tx (codes "ts"))) e.ts
    && is_amount (nat_of (get tx (codes "amt"))) e.amt
    && not (another_account (key_of_value (get tx (codes "from"))) e.from)
    && not (names_another block e)
