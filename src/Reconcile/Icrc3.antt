-- ===== src/Reconcile/Icrc3.antt =====
-- ICRC-3 values, and what profile/packages/reconcile/src/index.mjs reads of a block (`get` to
-- `keyOfValue`). `undefined` is what a missing key gives; a value of any other shape is `other`.
use candid_core.Common.{
  ℕ, ◌/◌, ◌%◌, Bool, true, false, ◌&&◌, ◌||◌, List, [], ◌∷◌, ◌++◌, if◌then◌else◌, Option, none,
  some, ℤ, text_eq, replicate, eq_ℤ,
}
use candid_core.Format.Chars.{Text, codes}
use candid_core.Format.Util.{hex_digit}

mutual
  pub data Icrc3 : Type 0 where
    undefined other : Icrc3
    map_of : Entries → Icrc3
    array : Items → Icrc3
    nat int : ℤ → Icrc3
    text : Text → Icrc3
    blob : List ℕ → Icrc3

  pub data Entries : Type 0 where
    no_entry : Entries
    entry : Text → Icrc3 → Entries → Entries

  pub data Items : Type 0 where
    no_item : Items
    item : Icrc3 → Items → Items

-- `hex`: `toString(16)` of each byte, padded to two digits.
unfoldable pub hex : List ℕ → Text
hex [] = []
hex (b ∷ bytes) = hex_digit (b / 16) ∷ hex_digit (b % 16) ∷ hex bytes

-- `ZERO`: the default subaccount.
abbrev pub zero_subaccount : Text
zero_subaccount = replicate 64 b'0'

-- An account as hex texts, the way ICRC-3 compares accounts.
pub record Key : Type 0 where
  pub owner : Text
  pub subaccount : Text

abbrev pub same_key : Option Key → Option Key → Bool
same_key (some a) (some b) = text_eq a.owner b.owner && text_eq a.subaccount b.subaccount
same_key (some a) none = false
same_key none b = false

unfoldable pub find_entry : Entries → Text → Icrc3
find_entry no_entry key = undefined
find_entry (entry k v es) key = if text_eq k key then v else find_entry es key

unfoldable pub get : Icrc3 → Text → Icrc3
get (map_of es) key = find_entry es key
get _ key = undefined

abbrev pub nat_of : Icrc3 → Option ℤ
nat_of (nat n) = some n
nat_of _ = none

abbrev pub text_of : Icrc3 → Option Text
text_of (text t) = some t
text_of _ = none

abbrev pub blob_of : Icrc3 → Option (List ℕ)
blob_of (blob bytes) = some bytes
blob_of _ = none

abbrev pub is_undefined : Icrc3 → Bool
is_undefined undefined = true
is_undefined _ = false

-- An optional Nat field: absent, a number, or something that equals nothing.
pub data OptNat : Type 0 where
  absent unreadable : OptNat
  is : ℤ → OptNat

abbrev pub opt_nat_of : Icrc3 → OptNat
opt_nat_of undefined = absent
opt_nat_of (nat n) = is n
opt_nat_of _ = unreadable

abbrev pub opt_nat : Icrc3 → Text → OptNat
opt_nat m key = opt_nat_of (get m key)

-- `===` of such a field and what is expected, `null` where nothing is.
abbrev pub opt_nat_is : OptNat → Option ℤ → Bool
opt_nat_is absent none = true
opt_nat_is (is n) (some m) = eq_ℤ n m
opt_nat_is _ _ = false

-- BTYPES, with what `opOf` gives where the block type has no entry.
unfoldable pub btype_op : Text → Text
btype_op t =
    if text_eq t (codes "1xfer") || text_eq t (codes "2xfer")
    then codes "xfer"
    else if text_eq t (codes "1mint")
    then codes "mint"
    else if text_eq t (codes "1burn")
    then codes "burn"
    else if text_eq t (codes "2approve")
    then codes "approve"
    else codes "btype:" ++ t

abbrev pub op_of_btype : Icrc3 → Icrc3 → Option Text
op_of_btype undefined block = text_of (get (get block (codes "tx")) (codes "op"))
op_of_btype (text t) block = some (btype_op t)
op_of_btype _ block = none

-- `opOf`: the block type where there is one, else the legacy operation.
unfoldable pub op_of : Icrc3 → Option Text
unfolding btype_op
op_of block = op_of_btype (get block (codes "btype")) block

abbrev pub key_of_parts : Option (List ℕ) → Option (List ℕ) → Option Key
key_of_parts (some owner) (some sub) = some (record { owner = hex owner; subaccount = hex sub })
key_of_parts _ _ = none

abbrev pub key_of_owner : Option (List ℕ) → Option Key
key_of_owner (some owner) = some (record { owner = hex owner; subaccount = zero_subaccount })
key_of_owner none = none

-- `keyOfValue`: `Array [Blob owner]` or `Array [Blob owner, Blob subaccount]`.
unfoldable pub key_of_value : Icrc3 → Option Key
key_of_value (array (item owner no_item)) = key_of_owner (blob_of owner)
key_of_value (array (item owner (item sub no_item))) = key_of_parts (blob_of owner) (blob_of sub)
key_of_value _ = none
