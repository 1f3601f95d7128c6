-- ===== src/Reconcile/Fields.antt =====
-- The tests of `blockMatches` of profile/packages/reconcile/src/index.mjs one by one: what each field of a
-- block says of a call.
use candid_core.Common.{
  Bool, true, false, not, ◌&&◌, ◌≡◌, refl, sym, ap, ap₂, ◌∙◌, arith, Option, none, some, ℤ, eq_ℤ→eq,
  text_eq, text_eq→eq,
}
use candid_core.Format.Chars.{Text, codes}
use candid_core.Reconcile.Icrc3.{
  Icrc3, undefined, other, map_of, array, nat, int, text, blob, Key, same_key, hex, get, nat_of,
  is_undefined, OptNat, absent, unreadable, is, opt_nat, opt_nat_is, op_of, key_of_value,
}
use candid_core.Reconcile.Expected.{Expected}
use candid_core.Reconcile.Match.{
  is_number, is_text, tx_of, same_operation, memo_is, side_is, spender_is, approval_is,
  block_matches, is_ambiguous,
}

pub and_true : (a b : Bool) → (a && b) ≡ true → (a ≡ true) × (b ≡ true)
and_true true true h = (refl, refl)
and_true true false h = cc
and_true false b h = cc

-- The tests of `blockMatches`, each passed.
pub record IsMatch (block : Icrc3) (e : Expected) : Type 0 where
  pub operation : same_operation block e ≡ true
  pub stamp : is_number (nat_of (get (tx_of block) (codes "ts"))) e.ts ≡ true
  pub amount : is_number (nat_of (get (tx_of block) (codes "amt"))) e.amt ≡ true
  pub fee : opt_nat_is (opt_nat (tx_of block) (codes "fee")) e.fee ≡ true
  pub memo : memo_is (get (tx_of block) (codes "memo")) e.memo ≡ true
  pub from : side_is (get (tx_of block) (codes "from")) e.from ≡ true
  pub to : side_is (get (tx_of block) (codes "to")) e.to ≡ true
  pub spender : spender_is block e ≡ true
  pub approval : approval_is (tx_of block) e ≡ true

pub block_matches-IsMatch :
    (block : Icrc3) (e : Expected) → block_matches block e ≡ true → IsMatch block e
unfolding block_matches
block_matches-IsMatch block e h =
    let (h8, approval) = and_true _ (approval_is (tx_of block) e) h in
    let (h7, spender) = and_true _ (spender_is block e) h8 in
    let (h6, to) = and_true _ (side_is (get (tx_of block) (codes "to")) e.to) h7 in
    let (h5, from) = and_true _ (side_is (get (tx_of block) (codes "from")) e.from) h6 in
    let (h4, memo) = and_true _ (memo_is (get (tx_of block) (codes "memo")) e.memo) h5 in
    let (h3, fee) = and_true _ (opt_nat_is (opt_nat (tx_of block) (codes "fee")) e.fee) h4 in
    let (h2, amount) = and_true _ (is_number (nat_of (get (tx_of block) (codes "amt"))) e.amt) h3 in
    let (h1, stamp) = and_true _ (is_number (nat_of (get (tx_of block) (codes "ts"))) e.ts) h2 in
    let (_, operation) = and_true _ (same_operation block e) h1 in
    record {
      operation = operation;
      stamp = stamp;
      amount = amount;
      fee = fee;
      memo = memo;
      from = from;
      to = to;
      spender = spender;
      approval = approval;
    }

-- One field of the block says one thing of the call.
pub number_unique : (o : Option ℤ) (m n : ℤ) → is_number o m ≡ true → is_number o n ≡ true → m ≡ n
number_unique none m n h k = cc
number_unique (some v) m n h k = sym (eq_ℤ→eq v m h) ∙ eq_ℤ→eq v n k

pub text_unique : (o : Option Text) (s t : Text) → is_text o s ≡ true → is_text o t ≡ true → s ≡ t
text_unique none s t h k = cc
text_unique (some v) s t h k = sym (text_eq→eq v s h) ∙ text_eq→eq v t k

pub opt_nat_unique :
    (o : OptNat) (m n : Option ℤ) → opt_nat_is o m ≡ true → opt_nat_is o n ≡ true → m ≡ n
opt_nat_unique unreadable m n h k = cc
opt_nat_unique absent none none h k = refl
opt_nat_unique absent none (some n) h k = cc
opt_nat_unique absent (some m) n h k = cc
opt_nat_unique (is v) none n h k = cc
opt_nat_unique (is v) (some m) none h k = cc
opt_nat_unique (is v) (some m) (some n) h k = ap some (number_unique (some v) m n h k)

pub memo_unique : (v : Icrc3) (m n : Option Text) → memo_is v m ≡ true → memo_is v n ≡ true → m ≡ n
memo_unique undefined none none h k = refl
memo_unique undefined none (some n) h k = cc
memo_unique undefined (some m) n h k = cc
memo_unique (blob b) none n h k = cc
memo_unique (blob b) (some m) none h k = cc
memo_unique (blob b) (some m) (some n) h k = ap some (text_unique (some (hex b)) m n h k)
memo_unique other m n h k = cc
memo_unique (map_of es) m n h k = cc
memo_unique (array xs) m n h k = cc
memo_unique (nat v) m n h k = cc
memo_unique (int v) m n h k = cc
memo_unique (text t) m n h k = cc

pub key_unique :
    (o : Option Key) (a b : Key) → same_key o (some a) ≡ true → same_key o (some b) ≡ true → a ≡ b
key_unique none a b h k = cc
key_unique (some v) a b h k =
    let (p, q) = and_true _ (text_eq v.subaccount a.subaccount) h in
    let (r, s) = and_true _ (text_eq v.subaccount b.subaccount) k in
    ap₂ (λ o s. record { owner = o; subaccount = s }) (text_unique (some v.owner) _ _ p r)
      (text_unique (some v.subaccount) _ _ q s)

-- What is not there names no account.
pub unnamed : (v : Icrc3) → is_undefined v ≡ true → key_of_value v ≡ none
unfolding key_of_value
unnamed undefined h = refl
unnamed other h = cc
unnamed (map_of es) h = cc
unnamed (array xs) h = cc
unnamed (nat v) h = cc
unnamed (int v) h = cc
unnamed (text t) h = cc
unnamed (blob b) h = cc

pub named :
    (v : Icrc3) (a : Key) → is_undefined v ≡ true → same_key (key_of_value v) (some a) ≡ false
named v a h = rw (unnamed v h)

pub side_unique : (v : Icrc3) (m n : Option Key) → side_is v m ≡ true → side_is v n ≡ true → m ≡ n
side_unique v none none h k = refl
side_unique v none (some b) h k = let e = named v b h in cc
side_unique v (some a) none h k = let e = named v a k in cc
side_unique v (some a) (some b) h k = ap some (key_unique (key_of_value v) a b h k)

pub same_operation-op :
    (block : Icrc3) (e : Expected)
    → same_operation block e ≡ true
    → is_text (op_of block) e.op ≡ true
unfolding same_operation
same_operation-op block e h =
    let (h1, _) = and_true _ (not (is_ambiguous block e)) h in
    (and_true (is_text (op_of block) e.op) _ h1).0

pub spender-side :
    (block : Icrc3) (e : Expected)
    → is_undefined (get (tx_of block) (codes "spender")) ≡ false
    → spender_is block e ≡ true
    → side_is (get (tx_of block) (codes "spender")) e.spender ≡ true
spender-side block e there h = ground arith

pub approval-fields :
    (tx : Icrc3) (e : Expected)
    → approval_is tx e ≡ true
    → e.op ≡ codes "approve"
    → (opt_nat_is (opt_nat tx (codes "expires_at")) e.expires_at ≡ true)
      × (opt_nat_is (opt_nat tx (codes "expected_allowance")) e.expected_allowance ≡ true)
approval-fields tx e h op =
    let same : text_eq e.op (codes "approve") ≡ true = ap (λ t. text_eq t (codes "approve")) op in
    and_true _ _ (rw same at h)
