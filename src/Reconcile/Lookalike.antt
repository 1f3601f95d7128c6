-- ===== src/Reconcile/Lookalike.antt =====
-- `blockMatches` against `looksLikeIt`, of profile/packages/reconcile/src/index.mjs.
use candid_core.Common.{
  Bool, true, false, not, ◌&&◌, ◌≡◌, refl, inl, inr, Option, none, some, Bool-cases,
}
use candid_core.Format.Chars.{codes}
use candid_core.Reconcile.Icrc3.{Icrc3, Key, same_key, get, is_undefined, key_of_value}
use candid_core.Reconcile.Expected.{Expected}
use candid_core.Reconcile.Match.{
  tx_of, same_operation, side_is, spender_is, block_matches, another_account, looks_like_it,
}
use candid_core.Reconcile.Fields.{block_matches-IsMatch, spender-side, unnamed}

-- A side that is the call's names no other account.
side-not_another :
    (v : Icrc3) (want : Option Key)
    → side_is v want ≡ true
    → another_account (key_of_value v) want ≡ false
side-not_another v none h = another_none (key_of_value v)
  where
    another_none : (o : Option Key) → another_account o none ≡ false
    another_none none = refl
    another_none (some k) = refl
side-not_another v (some want) h = another_some (key_of_value v) h
  where
    another_some :
        (o : Option Key) → same_key o (some want) ≡ true → another_account o (some want) ≡ false
    another_some none h = refl
    another_some (some k) h = rw h

spender-not_another :
    (block : Icrc3) (e : Expected)
    → spender_is block e ≡ true
    → another_account (key_of_value (get (tx_of block) (codes "spender"))) e.spender ≡ false
spender-not_another block e h =
    elim (Bool-cases (is_undefined (get (tx_of block) (codes "spender")))) [
      | inl missing ↦ nobody (get (tx_of block) (codes "spender")) e.spender missing
      | inr there ↦ side-not_another _ _ (spender-side block e there h)
    ]
  where
    nobody :
        (v : Icrc3) (o : Option Key)
        → is_undefined v ≡ true
        → another_account (key_of_value v) o ≡ false
    nobody v none h = rw (unnamed v h)
    nobody v (some a) h = rw (unnamed v h)

-- Every block that matches would be taken for a lookalike: a call whose block is there is never told
-- that it is absent on the ground of its shape.
pub block_matches-looks_like_it :
    (block : Icrc3) (e : Expected) → block_matches block e ≡ true → looks_like_it block e ≡ true
unfolding looks_like_it
block_matches-looks_like_it block e h =
    let m = block_matches-IsMatch block e h in
    rw
      (
        m.stamp,
        m.amount,
        side-not_another _ _ m.from,
        side-not_another _ _ m.to,
        spender-not_another block e m.spender,
      )
      (no_other (same_operation block e))
  where
    no_other : (a : Bool) → not (a && false) ≡ true
    no_other true = refl
    no_other false = refl
