-- ===== src/Reconcile/Tests.antt =====
-- Runs of profile/packages/reconcile/src/index.mjs at concrete calls and blocks, and the theorems there.
use candid_core.Common.{ℕ, true, false, List, [], ◌∷◌, ◌≡◌, refl, ◌↔◌, none, some, pos}
use mathlib.Core.List.{Permᴰ}
use candid_core.Format.Chars.{Text, codes}
use candid_core.Format.Util.{str, hex_digit}
use candid_core.Format.Principal.{principal_from_text}
use candid_core.Format.Principal.Crc.{crc32}
use candid_core.Format.Principal.Base32.{base32_decode, base32_encode, b32_value, b32_char}
use candid_core.Reconcile.Icrc3.{
  Icrc3, map_of, array, nat, text, blob, no_entry, entry, no_item, item, Key, get, find_entry,
  op_of, key_of_value, hex,
}
use candid_core.Reconcile.Expected.{
  nothing, big, no_account, account, Arg, icrc1_transfer, Expected, expected_transaction,
}
use candid_core.Reconcile.Match.{block_matches, looks_like_it, readable}
use candid_core.Reconcile.Verdict.{
  Options, ClosedBy, found, absent, unreadable, answered, read, Read, by_id, match_blocks,
  first_failing, last_passing, not_read,
}
use candid_core.Reconcile.Safety.{IsAbsent, IsFound}
use candid_core.Reconcile.Answers.{match_blocks-found_iff, match_blocks-absent_iff}
use candid_core.Reconcile.Order.{match_blocks_order, DistinctIds}
use candid_core.Reconcile.Unique.{SameCall, block_matches_unique}
use candid_core.Reconcile.Lookalike.{block_matches-looks_like_it}
use candid_core.Reconcile.Shape.{CallNames, expected_transaction-Names}

-- A transfer of 5 from the anonymous principal to the management canister, stamped 100.
abbrev call : Arg
call = record {
  amount = big (pos 5);
  created_at_time = big (pos 100);
  fee = nothing;
  memo = nothing;
  from_subaccount = nothing;
  spender_subaccount = nothing;
  expires_at = nothing;
  expected_allowance = nothing;
  to = account (str (codes "aaaaa-aa")) nothing;
  from = no_account;
  spender = no_account;
}

abbrev key : Text → Key
key owner = record {
  owner = owner;
  subaccount = codes "0000000000000000000000000000000000000000000000000000000000000000";
}

abbrev transfer : Expected
transfer = record {
  op = codes "xfer";
  btype = some (codes "1xfer");
  ts = pos 100;
  amt = pos 5;
  memo = none;
  fee = none;
  from = some (key (codes "04"));
  to = some (key []);
  spender = none;
  spender_optional = false;
  expires_at = none;
  expected_allowance = none;
}

abbrev block_of : ℕ → Icrc3
block_of amount = map_of (
    entry (codes "btype") (text (codes "1xfer")) (
      entry (codes "ts") (nat (pos 101)) (
        entry (codes "tx")
          (map_of (
            entry (codes "amt") (nat (pos amount)) (
              entry (codes "ts") (nat (pos 100)) (
                entry (codes "from") (array (item (blob (4 ∷ [])) no_item))
                  (entry (codes "to") (array (item (blob []) no_item)) no_entry)))))
          no_entry)))

abbrev options : Options
options = record {
  log_length = 9;
  floor = 7;
  in_flight = false;
  stamp_expired = false;
  ledger_time = none;
  ledger_time_at_least = none;
  window_ns = none;
  not_original = [];
}

expected_run :
    expected_transaction icrc1_transfer (some call) (str (codes "2vxsx-fae")) no_account
    ≡ some transfer
unfolding expected_transaction principal_from_text base32_decode b32_value crc32 base32_encode
    b32_char hex hex_digit
expected_run = refl

abbrev one_way : List Read
one_way = read 7 (block_of 6) ∷ read 8 (block_of 5) ∷ []

abbrev other_way : List Read
other_way = read 8 (block_of 5) ∷ read 7 (block_of 6) ∷ []

matches : block_matches (block_of 5) transfer ≡ true
unfolding block_matches get find_entry op_of key_of_value hex hex_digit
matches = refl

found_run : match_blocks one_way (some transfer) options ≡ found 8
unfolding match_blocks block_matches get find_entry op_of key_of_value hex hex_digit first_failing
    last_passing
found_run = refl

missing_run :
    match_blocks (read 8 (block_of 6) ∷ []) (some transfer) options ≡ unreadable (not_read 7)
unfolding match_blocks block_matches get find_entry op_of key_of_value hex hex_digit first_failing
    last_passing
missing_run = refl

abbrev other_calls : List Read
other_calls = read 7 (block_of 6) ∷ read 8 (block_of 7) ∷ []

absent_run : match_blocks other_calls (some transfer) options ≡ absent answered
unfolding match_blocks block_matches get find_entry op_of key_of_value hex hex_digit first_failing
    last_passing readable looks_like_it
absent_run = refl

expected_transaction-Names_example :
    (call.created_at_time ≡ big (pos 100))
    × (call.amount ≡ big (pos 5))
    × CallNames icrc1_transfer call (str (codes "2vxsx-fae")) no_account transfer
expected_transaction-Names_example =
    expected_transaction-Names icrc1_transfer call (str (codes "2vxsx-fae")) no_account expected_run

match_blocks-found_iff_example :
    (match_blocks one_way (some transfer) options ≡ found 8)
    ↔ IsFound (by_id one_way) options transfer 8
match_blocks-found_iff_example = match_blocks-found_iff one_way transfer options 8

match_blocks-absent_iff_example :
    ((c : ClosedBy) × (match_blocks other_calls (some transfer) options ≡ absent c))
    ↔ IsAbsent (by_id other_calls) options transfer
match_blocks-absent_iff_example = match_blocks-absent_iff other_calls transfer options

distinct : DistinctIds one_way
distinct = (unfold by_id in refl, (unfold by_id in refl, tt))

match_blocks_order_example :
    match_blocks one_way (some transfer) options ≡ match_blocks other_way (some transfer) options
match_blocks_order_example =
    match_blocks_order (some transfer) options (Permᴰ.swap refl refl) distinct

block_matches_unique_example : SameCall (block_of 5) transfer transfer
block_matches_unique_example = block_matches_unique (block_of 5) transfer transfer matches matches

block_matches-looks_like_it_example : looks_like_it (block_of 5) transfer ≡ true
block_matches-looks_like_it_example = block_matches-looks_like_it (block_of 5) transfer matches
