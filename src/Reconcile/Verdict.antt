-- ===== src/Reconcile/Verdict.antt =====
-- `matchBlocks` of profile/packages/reconcile/src/index.mjs: the verdict on the blocks read since the
-- first send. Block indices and the log's length are natural numbers, as the ledger gives them.
use candid_core.Common.{
  ℕ, zero, suc, ◌+◌, ◌-◌, Bool, true, false, not, ◌&&◌, ◌||◌, List, [], ◌∷◌, ltb, ◌==◌,
  if◌then◌else◌, Option, none, some, ℤ, ◌+ℤ◌, ltb_ℤ, leb_ℤ,
}
use candid_core.Format.Chars.{Text, codes}
use candid_core.Reconcile.Icrc3.{Icrc3, undefined, get, nat_of, op_of}
use candid_core.Reconcile.Expected.{Expected}
use candid_core.Reconcile.Match.{readable, block_matches, looks_like_it, is_number, tx_of}

-- An entry of `blocks`; one whose id is no bigint is skipped.
pub data Read : Type 0 where
  no_id : Read
  read : ℕ → Icrc3 → Read

pub record Options : Type 0 where
  pub log_length : ℕ
  pub floor : ℕ
  pub in_flight : Bool
  pub stamp_expired : Bool
  pub ledger_time : Option ℤ
  pub ledger_time_at_least : Option ℤ
  pub window_ns : Option ℤ
  pub not_original : List ℕ

pub data ClockBy : Type 0 where
  ledger host block : ClockBy

pub record Clock : Type 0 where
  pub at : ℤ
  pub by : ClockBy

pub record Lookalike : Type 0 where
  pub id : ℕ
  pub op : Option Text
  pub capped : Bool

-- Why nothing can be said: no rule for the call, a log that became shorter, a block that was not
-- read, one that cannot be read, or a block in another shape that may be the original.
pub data Reason : Type 0 where
  no_rule log_shrank : Reason
  not_read not_readable : ℕ → Reason
  lookalike : Lookalike → Reason

pub data ClosedBy : Type 0 where
  answered too_old : ClosedBy
  window_passed : Clock → ClosedBy

pub data Verdict : Type 0 where
  found : ℕ → Verdict
  absent : ClosedBy → Verdict
  not_yet : Option ℤ → Option Clock → Verdict
  unreadable : Reason → Verdict

-- `byId`: a later entry replaces an earlier one.
abbrev pub or_else {ℓ} : {A : Type ℓ} → Option A → Option A → Option A
or_else (some a) o = some a
or_else none o = o

unfoldable pub by_id : List Read → ℕ → Option Icrc3
by_id [] id = none
by_id (no_id ∷ blocks) id = by_id blocks id
by_id (read i b ∷ blocks) id = or_else (by_id blocks id) (if i == id then some b else none)

-- What the loops read: `byId.has(id)` and `byId.get(id)`.
abbrev pub has : Option Icrc3 → Bool
has none = false
has (some b) = true

abbrev pub value_of : Option Icrc3 → Icrc3
value_of none = undefined
value_of (some b) = b

-- The loops over the indices from `floor`, `count` of them: upward to the first that fails a test, and
-- downward to the last that passes one.
unfoldable pub first_failing : (ℕ → Bool) → ℕ → ℕ → Option ℕ
first_failing p id zero = none
first_failing p id (suc count) = if p id then first_failing p (suc id) count else some id

unfoldable pub last_passing : (ℕ → Bool) → ℕ → ℕ → Option ℕ
last_passing p floor zero = none
last_passing p floor (suc count) =
    if p (floor + count) then some (floor + count) else last_passing p floor count

abbrev pub member : ℕ → List ℕ → Bool
member x [] = false
member x (y ∷ ys) = x == y || member x ys

-- The ledger's time, or the later of two bounds from below.
abbrev pub later_bound : Option ℤ → Option ℤ → Option Clock
later_bound none none = none
later_bound none (some tip) = some (record { at = tip; by = block })
later_bound (some host_time) none = some (record { at = host_time; by = host })
later_bound (some host_time) (some tip) =
    if leb_ℤ tip host_time
    then some (record { at = host_time; by = host })
    else some (record { at = tip; by = block })

abbrev pub clock_of : Option ℤ → Option ℤ → Option ℤ → Option Clock
clock_of (some time) host_time tip = some (record { at = time; by = ledger })
clock_of none host_time tip = later_bound host_time tip

-- The verdict where the window is known.
abbrev pub close_by_clock : ℤ → Option Clock → Verdict
close_by_clock open_until none = not_yet (some open_until) none
close_by_clock open_until (some clock) =
    if ltb_ℤ open_until clock.at
    then absent (window_passed clock)
    else not_yet (some open_until) (some clock)

abbrev pub close_by_window : Option ℤ → ℤ → Option Clock → Verdict
close_by_window none ts clock = not_yet none clock
close_by_window (some window) ts clock = close_by_clock (ts +ℤ window) clock

-- `index` is `byId`.
module _ (index : ℕ → Option Icrc3) (o : Options) where
  abbrev pub count : ℕ
  count = o.log_length - o.floor

  abbrev pub block_at : ℕ → Icrc3
  block_at id = value_of (index id)

  -- The time of the log's last block.
  abbrev pub tip_time : Option ℤ
  tip_time =
      if ltb 0 o.log_length then nat_of (get (block_at (o.log_length - 1)) (codes "ts")) else none

  -- What is said where no block is or may be the original.
  unfoldable pub closing : Expected → Verdict
  closing e =
      if not o.in_flight
      then absent answered
      else if o.stamp_expired
      then absent too_old
      else close_by_window o.window_ns e.ts (clock_of o.ledger_time o.ledger_time_at_least tip_time)

  abbrev pub is_lookalike : Expected → ℕ → Bool
  is_lookalike e id = not (member id o.not_original) && looks_like_it (block_at id) e

  abbrev pub lookalike_at : Expected → ℕ → Lookalike
  lookalike_at e id = record {
    id = id;
    op = op_of (block_at id);
    capped = not (is_number (nat_of (get (tx_of (block_at id)) (codes "amt"))) e.amt);
  }

  -- The steps from the last to the first, each with what the one before it found.
  abbrev pub after_lookalikes : Expected → Option ℕ → Verdict
  after_lookalikes e (some id) = unreadable (lookalike (lookalike_at e id))
  after_lookalikes e none = closing e

  abbrev pub after_readable : Expected → Option ℕ → Verdict
  after_readable e (some id) = unreadable (not_readable id)
  after_readable e none = after_lookalikes e (last_passing (is_lookalike e) o.floor count)

  abbrev pub after_found : Expected → Option ℕ → Verdict
  after_found e (some id) = found id
  after_found e none = after_readable e (first_failing (λ id. readable (block_at id)) o.floor count)

  abbrev pub after_read : Expected → Option ℕ → Verdict
  after_read e (some id) = unreadable (not_read id)
  after_read e none =
      after_found e (last_passing (λ id. block_matches (block_at id) e) o.floor count)

  unfoldable pub judge : Expected → Verdict
  unfolding closing
  judge e =
      if ltb o.log_length o.floor
      then unreadable log_shrank
      else after_read e (first_failing (λ id. has (index id)) o.floor count)

unfoldable pub match_blocks : List Read → Option Expected → Options → Verdict
unfolding judge by_id
match_blocks blocks none o = unreadable no_rule
match_blocks blocks (some e) o = judge (by_id blocks) o e
