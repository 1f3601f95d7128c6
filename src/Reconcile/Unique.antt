-- ===== src/Reconcile/Unique.antt =====
-- `blockMatches` of profile/packages/reconcile/src/index.mjs settles one call: what two expected
-- transactions have in common where one block matches both.
use candid_core.Common.{true, ◌≡◌, sym, ◌∙◌, ◌⊎◌, inl, inr, Bool-cases}
use candid_core.Format.Chars.{codes}
use candid_core.Reconcile.Icrc3.{Icrc3, get, is_undefined, op_of}
use candid_core.Reconcile.Expected.{Expected}
use candid_core.Reconcile.Match.{tx_of, block_matches}
use candid_core.Reconcile.Fields.{
  approval-fields, block_matches-IsMatch, memo_unique, number_unique, opt_nat_unique,
  same_operation-op, side_unique, spender-side, text_unique,
}

-- What two calls share that one block settles. The spender is shared where the block names one: a
-- ledger may leave it out where the spender spends its own account.
pub record SameCall (block : Icrc3) (e f : Expected) : Type 0 where
  pub same_op : e.op ≡ f.op
  pub same_ts : e.ts ≡ f.ts
  pub same_amt : e.amt ≡ f.amt
  pub same_fee : e.fee ≡ f.fee
  pub same_memo : e.memo ≡ f.memo
  pub same_from : e.from ≡ f.from
  pub same_to : e.to ≡ f.to
  pub same_spender :
      (is_undefined (get (tx_of block) (codes "spender")) ≡ true) ⊎ (e.spender ≡ f.spender)
  pub same_expiry : e.op ≡ codes "approve" → e.expires_at ≡ f.expires_at
  pub same_allowance : e.op ≡ codes "approve" → e.expected_allowance ≡ f.expected_allowance

-- A block that matches two expected transactions says the same of both: the operation, the stamp, the
-- amount, the fee, the memo, both accounts, the spender that it names, and an approval's terms.
pub block_matches_unique :
    (block : Icrc3) (e f : Expected)
    → block_matches block e ≡ true
    → block_matches block f ≡ true
    → SameCall block e f
block_matches_unique block e f h k =
    let m = block_matches-IsMatch block e h in
    let n = block_matches-IsMatch block f k in
    let op =
      text_unique (op_of block) e.op f.op (same_operation-op block e m.operation)
        (same_operation-op block f n.operation) in
    record {
      same_op = op;
      same_ts = number_unique _ _ _ m.stamp n.stamp;
      same_amt = number_unique _ _ _ m.amount n.amount;
      same_fee = opt_nat_unique _ _ _ m.fee n.fee;
      same_memo = memo_unique _ _ _ m.memo n.memo;
      same_from = side_unique _ _ _ m.from n.from;
      same_to = side_unique _ _ _ m.to n.to;
      same_spender = elim (Bool-cases (is_undefined (get (tx_of block) (codes "spender")))) [
        | inl missing ↦ inl missing
        | inr there ↦ inr (
            side_unique _ _ _ (spender-side block e there m.spender)
              (spender-side block f there n.spender))
      ];
      same_expiry = λ a.
          opt_nat_unique _ _ _ (approval-fields _ e m.approval a).0
            (approval-fields _ f n.approval (sym op ∙ a)).0;
      same_allowance = λ a.
          opt_nat_unique _ _ _ (approval-fields _ e m.approval a).1
            (approval-fields _ f n.approval (sym op ∙ a)).1;
    }
